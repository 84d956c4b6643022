-- ===== src/Manager/RotationKeeps.antt =====
-- The state that a rotation leaves satisfies the invariant: cache2/src/region/manager.rs.
use cache.Base.{
  ℕ, ◌+◌, ◌≡◌, ◌≢◌, refl, sym, ◌∙◌, ap, ◌⊎◌, inl, inr, false, some, List, arith, get_elem?, set,
  length, hit, total, total-cons, total-set, length-set, get-set, get-set_cases, weight-le-total,
}
use cache.Manager.State.{
  u64_max, sealed, RotationSelection, RotationReceipt, ShardState, RegionDesc, Manager, is_active,
  is_free,
}
use cache.Manager.Rotation.{fresh_region}
use cache.Manager.Selection.{Selected}
use cache.Manager.Valid.{ChainFits, RegionFits, rotating, in_rotation, one_if, IsValid}
use cache.Manager.Views.{active_unique}
use cache.Manager.Update.{ChainFits-mono, RegionFits-mono}

abbrev pub seal : RegionDesc → RegionDesc
seal d = record d { state = sealed }

-- The state after a rotation has begun.
abbrev pub rotated :
    ℕ → RotationSelection → ShardState → RegionDesc → List ℕ → RotationReceipt → Manager → Manager
rotated s sel shard old rest receipt m = record m {
  next_seqno = m.next_seqno + 1;
  regions =
      set (set m.regions sel.old_index (seal old)) sel.victim_index (fresh_region m.next_seqno);
  active_regions = set m.active_regions s sel.victim_index;
  free_regions = rest;
  append_states =
      set m.append_states s (record shard { rotation_requested = false; rotation = some receipt });
}

module _ {m : Manager} (v : IsValid m) (s : ℕ) (sel : RotationSelection) (x : Selected m s sel)
    (left : m.next_seqno ≢ u64_max) where
  open x use {
    shard, old, victim, rest, has_shard, owned, found_old, first_free, found_victim, apart,
  }

  abbrev receipt : RotationReceipt
  receipt = record {
    shard_id = s;
    sealed_region_id = sel.old_index;
    activated_region_id = sel.victim_index;
    activated_created_seqno = m.next_seqno;
  }

  abbrev regions' : List RegionDesc
  regions' =
      set (set m.regions sel.old_index (seal old)) sel.victim_index (fresh_region m.next_seqno)

  still_victim : get_elem? (set m.regions sel.old_index (seal old)) sel.victim_index ≡ some victim
  still_victim =
      ground (arith, get-set m.regions sel.old_index sel.victim_index (seal old) found_old)

  length-regions' : length regions' ≡ length m.regions
  length-regions' = omega (
    arith,
    length-set (set m.regions sel.old_index (seal old)) sel.victim_index
        (fresh_region m.next_seqno),
    length-set m.regions sel.old_index (seal old),
  )

  -- A Region of the new table is the activated one, the sealed one, or as it was.
  regions'_cases :
      (q : ℕ) (e : RegionDesc)
      → get_elem? regions' q ≡ some e
      → ((q ≡ sel.victim_index) × (e ≡ fresh_region m.next_seqno))
        ⊎ (((q ≡ sel.old_index) × (e ≡ seal old))
            ⊎ ((q ≢ sel.victim_index) × (q ≢ sel.old_index) × (get_elem? m.regions q ≡ some e)))
  regions'_cases q e h = elim (get-set_cases _ sel.victim_index q _ still_victim h) [
    | inl (p, new) ↦ inl (sym p, new)
    | inr (ne, h') ↦ elim (get-set_cases m.regions sel.old_index q (seal old) found_old h') [
      | inl (p, new) ↦ inr (inl (sym p, new))
      | inr (ne', h'') ↦ inr (inr (omega arith, omega arith, h''))
    ]
  ]

  active_count :
      (q : ℕ)
      → total (hit q) (set m.active_regions s sel.victim_index) + hit q sel.old_index
        ≡ total (hit q) m.active_regions + hit q sel.victim_index
  active_count q = total-set (hit q) m.active_regions s sel.victim_index owned

  free_count : (q : ℕ) → total (hit q) m.free_regions ≡ hit q sel.victim_index + total (hit q) rest
  free_count q = ap (total (hit q)) first_free ∙ total-cons (hit q) sel.victim_index rest

  abbrev new_shard : ShardState
  new_shard = record shard { rotation_requested = false; rotation = some receipt }

  rotating_count :
      (q : ℕ)
      → total (rotating q) (set m.append_states s new_shard)
        ≡ total (rotating q) m.append_states + hit q sel.old_index
  rotating_count q =
      ground (arith, x.quiet, total-set (rotating q) m.append_states s new_shard has_shard)

  rotated_sizes :
      length (set m.active_regions s sel.victim_index)
        + length rest
        + length m.sealed_regions
        + length m.reclaiming
        + total in_rotation (set m.append_states s new_shard)
      ≡ length m.regions
  rotated_sizes = ground (
    arith,
    v.sizes,
    x.quiet,
    ap length first_free,
    length-set m.active_regions s sel.victim_index,
    total-set in_rotation m.append_states s new_shard has_shard,
  )

  rotated-RegionFits :
      (q : ℕ) (e : RegionDesc)
      → get_elem? regions' q ≡ some e
      → RegionFits m.region_size (m.next_seqno + 1) e
  rotated-RegionFits q e h = elim (regions'_cases q e h) [
    | inl (_, new) ↦ rw new (record {
      reserved = omega arith;
      completed = omega arith;
      completed_aligned = omega arith;
      reserved_aligned = omega arith;
      created = omega arith;
      quiet = λ _. refl;
    })
    | inr (inl (_, new)) ↦
        let f : RegionFits m.region_size m.next_seqno old =
          v.region_fits sel.old_index old found_old in
        rw new (record {
          reserved = f.reserved;
          completed = f.completed;
          completed_aligned = f.completed_aligned;
          reserved_aligned = f.reserved_aligned;
          created = omega (arith, f.created);
          quiet = λ _. sym x.drained;
        })
    | inr (inr (_, _, kept)) ↦ RegionFits-mono (omega arith) (v.region_fits q e kept)
  ]

  rotated_active :
      (q : ℕ) (e : RegionDesc)
      → get_elem? regions' q ≡ some e
      → total (hit q) (set m.active_regions s sel.victim_index) ≡ one_if (is_active e.state)
  rotated_active q e h = elim (regions'_cases q e h) [
    | inl (p, new) ↦
        ground (arith, active_count q, v.active_iff q victim (rw p found_victim), x.victim_free)
    | inr (inl (p, new)) ↦ ground (
      arith,
      active_count q,
      v.active_iff q old (rw p found_old),
      weight-le-total (hit q) m.active_regions s owned,
    )
    | inr (inr (n, n', kept)) ↦ ground (arith, active_count q, v.active_iff q e kept)
  ]

  rotated_free :
      (q : ℕ) (e : RegionDesc)
      → get_elem? regions' q ≡ some e
      → total (hit q) rest ≡ one_if (is_free e.state)
  rotated_free q e h = elim (regions'_cases q e h) [
    | inl (p, new) ↦
        ground (arith, free_count q, v.free_iff q victim (rw p found_victim), x.victim_free)
    | inr (inl (p, new)) ↦ ground (
      arith,
      free_count q,
      v.free_iff q old (rw p found_old),
      v.active_iff q old (rw p found_old),
      weight-le-total (hit q) m.active_regions s owned,
    )
    | inr (inr (n, n', kept)) ↦ ground (arith, free_count q, v.free_iff q e kept)
  ]

  activated : ChainFits (m.next_seqno + 1) s sel.victim_index new_shard (fresh_region m.next_seqno)
  activated = record {
    submitted = ground (arith, x.quiet);
    opened = ground (arith, x.quiet);
    tail = ground (arith, x.quiet);
    rotation = ground (arith, x.quiet);
  }

  victim_unowned : (t : ℕ) → get_elem? m.active_regions t ≢ some sel.victim_index
  victim_unowned t h = ground (
    arith,
    v.active_iff sel.victim_index victim found_victim,
    x.victim_free,
    weight-le-total (hit sel.victim_index) m.active_regions t h,
  )

  rotated-ChainFits :
      (t q : ℕ) (sh : ShardState) (e : RegionDesc)
      → get_elem? (set m.append_states s new_shard) t ≡ some sh
      → get_elem? (set m.active_regions s sel.victim_index) t ≡ some q
      → get_elem? regions' q ≡ some e
      → ChainFits (m.next_seqno + 1) t q sh e
  rotated-ChainFits t q sh e hs ho hr =
      elim (get-set_cases m.append_states s t new_shard has_shard hs) [
        | inl (st, new) ↦ elim (get-set_cases m.active_regions s t sel.victim_index owned ho) [
          | inl (_, qv) ↦ elim (regions'_cases q e hr) [
            | inl (_, fresh) ↦ rw (new, ← st, qv, fresh) activated
            | inr (inl (qo, _)) ↦ absurd (apart (sym qv ∙ qo))
            | inr (inr (nv, _, _)) ↦ absurd (nv qv)
          ]
          | inr (ne, _) ↦ absurd (ne st)
        ]
        | inr (ne, kept) ↦ elim (get-set_cases m.active_regions s t sel.victim_index owned ho) [
          | inl (st, _) ↦ absurd (ne st)
          | inr (_, ho') ↦ elim (regions'_cases q e hr) [
            | inl (qv, _) ↦ absurd (victim_unowned t (rw (← qv) ho'))
            | inr (inl (qo, _)) ↦ absurd (ne (active_unique v s t q (rw qo owned) ho'))
            | inr (inr (_, _, kept_region)) ↦
                ChainFits-mono t q sh e (omega arith) (v.chain_fits t q sh e kept ho' kept_region)
          ]
        ]
      ]

  pub rotated-IsValid : IsValid (rotated s sel shard old rest receipt m)
  rotated-IsValid = record {
    aligned_size = v.aligned_size;
    size_fits = v.size_fits;
    few_regions = omega (arith, length-regions', v.few_regions);
    seqno_starts = omega arith;
    seqno_fits = omega (arith, v.seqno_fits);
    shards = omega (
      arith,
      v.shards,
      length-set m.append_states s new_shard,
      length-set m.active_regions s sel.victim_index,
    );
    capacity =
        omega (arith, v.capacity, length-regions', length-set m.active_regions s sel.victim_index);
    sizes = rotated_sizes ∙ sym length-regions';
    placed = λ q.
        ground (arith, v.placed q, length-regions', active_count q, free_count q, rotating_count q);
    active_iff = rotated_active;
    free_iff = rotated_free;
    region_fits = rotated-RegionFits;
    chain_fits = rotated-ChainFits;
  }
