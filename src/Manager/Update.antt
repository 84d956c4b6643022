-- ===== src/Manager/Update.antt =====
-- An update of one shard, its Region and the sequence counter keeps the invariant, if it keeps the
-- shard's own part of it. Every method but the rotations and the reclaims is such an update.
use cache.Base.{
  ℕ, ◌≤◌, ◌≡◌, refl, inl, inr, Option, none, some, arith, get_elem?, set, get-set, get-set_cases,
  length-set, total-set, set_get,
}
use mathlib.Core.Path.{subst}
use cache.Manager.State.{
  u64_max, AppendReservation, PaddingReceipt, WriteSpan, OpenSpan, ShardState, RegionDesc, Manager,
}
use cache.Manager.Valid.{OpenFits, TailFits, ChainFits, RegionFits, rotating, in_rotation, IsValid}
use cache.Manager.Views.{active_unique}

abbrev pub replace : ℕ → ℕ → ShardState → RegionDesc → ℕ → Manager → Manager
replace s r shard d next m = record m {
  next_seqno = next;
  regions = set m.regions r d;
  append_states = set m.append_states s shard;
}

OpenFits-mono :
    {next next' : ℕ} (r : ℕ) (d : RegionDesc) (start : ℕ) (o : Option OpenSpan)
    → next ≤ next'
    → OpenFits next r d start o
    → OpenFits next' r d start o
OpenFits-mono r d start none le h = h
OpenFits-mono r d start (some o) le h = omega arith

TailFits-mono :
    {next next' : ℕ} (s r : ℕ) (d : RegionDesc) (start : ℕ) (o : Option OpenSpan)
    (w : Option WriteSpan) (t : Option AppendReservation) (p : Option PaddingReceipt)
    → next ≤ next'
    → TailFits next s r d start o w t p
    → TailFits next' s r d start o w t p
TailFits-mono s r d start o w none none le h = h
TailFits-mono s r d start o w none (some p) le h = h
TailFits-mono s r d start o w (some t) (some p) le h = h
TailFits-mono s r d start o w (some t) none le h =
    (h.0, h.1, h.2, h.3, h.4, h.5, h.6, omega arith, h.8)

pub ChainFits-mono :
    {next next' : ℕ} (s r : ℕ) (shard : ShardState) (d : RegionDesc)
    → next ≤ next'
    → ChainFits next s r shard d
    → ChainFits next' s r shard d
ChainFits-mono s r shard d le c = record {
  submitted = c.submitted;
  opened = OpenFits-mono r d _ shard.open_span le c.opened;
  tail = TailFits-mono s r d _ _ _ shard.tail shard.pending_padding le c.tail;
  rotation = c.rotation;
}

pub RegionFits-mono :
    {size next next' : ℕ} {d : RegionDesc}
    → next ≤ next'
    → RegionFits size next d
    → RegionFits size next' d
RegionFits-mono le f = record {
  reserved = f.reserved;
  completed = f.completed;
  completed_aligned = f.completed_aligned;
  reserved_aligned = f.reserved_aligned;
  created = omega (arith, f.created);
  quiet = f.quiet;
}

module _ {m : Manager} (v : IsValid m) (s r : ℕ) {old : ShardState} {old_d : RegionDesc}
    (shard : ShardState) (d : RegionDesc) (next : ℕ)
    (has_shard : get_elem? m.append_states s ≡ some old)
    (owned : get_elem? m.active_regions s ≡ some r)
    (has_region : get_elem? m.regions r ≡ some old_d) (same_state : d.state ≡ old_d.state)
    (same_rotation : shard.rotation ≡ old.rotation) (grows : m.next_seqno ≤ next)
    (fits : next ≤ u64_max) (region_fits : RegionFits m.region_size next d)
    (chain_fits : ChainFits next s r shard d) where
  chain_case :
      (t q : ℕ) (sh : ShardState) (e : RegionDesc)
      → get_elem? (set m.append_states s shard) t ≡ some sh
      → get_elem? m.active_regions t ≡ some q
      → get_elem? (set m.regions r d) q ≡ some e
      → ChainFits next t q sh e
  chain_case t q sh e hs ho hr = elim (get-set_cases m.append_states s t shard has_shard hs) [
    | inl (st, new) ↦
        let rq : r ≡ q = cc in
        elim (get-set_cases m.regions r q d has_region hr) [
          | inl (_, newer) ↦ rw (← st, ← rq, new, newer) chain_fits
          | inr (apart, _) ↦ absurd (apart rq)
        ]
    | inr (apart, kept) ↦ elim (get-set_cases m.regions r q d has_region hr) [
      | inl (rq, _) ↦ absurd (apart (active_unique v s t r owned (rw rq ho)))
      | inr (_, kept_region) ↦
          ChainFits-mono t q sh e grows (v.chain_fits t q sh e kept ho kept_region)
    ]
  ]

  region_case :
      (q : ℕ) (e : RegionDesc)
      → get_elem? (set m.regions r d) q ≡ some e
      → RegionFits m.region_size next e
  region_case q e hr = elim (get-set_cases m.regions r q d has_region hr) [
    | inl (_, newer) ↦ rw newer region_fits
    | inr (_, kept) ↦ RegionFits-mono grows (v.region_fits q e kept)
  ]

  pub replace-IsValid : IsValid (replace s r shard d next m)
  replace-IsValid = record {
    aligned_size = v.aligned_size;
    size_fits = v.size_fits;
    few_regions = rw (length-set m.regions r d) v.few_regions;
    seqno_starts = omega (arith, v.seqno_starts);
    seqno_fits = fits;
    shards = rw (length-set m.append_states s shard) v.shards;
    capacity = rw (length-set m.regions r d) v.capacity;
    sizes = ground (
      arith,
      v.sizes,
      length-set m.regions r d,
      total-set in_rotation m.append_states s shard has_shard,
    );
    placed = λ q. ground (
      arith,
      v.placed q,
      length-set m.regions r d,
      total-set (rotating q) m.append_states s shard has_shard,
    );
    active_iff = λ q e h. ground (
      arith,
      v.active_iff q e,
      get-set m.regions r q d has_region,
      v.active_iff r old_d has_region,
    );
    free_iff = λ q e h.
        ground (
          arith,
          v.free_iff q e,
          get-set m.regions r q d has_region,
          v.free_iff r old_d has_region,
        );
    region_fits = region_case;
    chain_fits = chain_case;
  }

-- The same where only the shard changes.
pub replace_shard-IsValid :
    {m : Manager} (v : IsValid m) (s r : ℕ) {old : ShardState} {d : RegionDesc} (shard : ShardState)
    → get_elem? m.append_states s ≡ some old
    → get_elem? m.active_regions s ≡ some r
    → get_elem? m.regions r ≡ some d
    → shard.rotation ≡ old.rotation
    → ChainFits m.next_seqno s r shard d
    → IsValid (record m { append_states = set m.append_states s shard })
replace_shard-IsValid {m} v s r {old} {d} shard hs ho hr same c =
    subst (λ l. IsValid (record m { regions = l; append_states = set m.append_states s shard }))
      (set_get m.regions r hr)
      (replace-IsValid v s r shard d m.next_seqno hs ho hr refl same (omega arith) v.seqno_fits
        (v.region_fits r d hr) c)
