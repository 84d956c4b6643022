-- ===== src/Manager/ReclaimKeeps.antt =====
-- The methods that clean sealed Regions keep the invariant: cache2/src/region/manager.rs.
use cache.Base.{
  ℕ, suc, zero, ◌+◌, ◌≡◌, ◌≢◌, refl, ◌∙◌, ap, inl, inr, true, false, Option, some, none, List, [],
  ◌∷◌, ◌++◌, arith, ==_iff, Bool-cases, ◌⊎◌, get_elem?, set, length, hit, total, get-set_cases,
  length-set, total-snoc, total-cons, length-append, weight-le-total, length-swap_remove,
  total-swap_remove, get_of_lt-length,
}
use mathlib.Core.Bool.{decide}
use cache.Outcome.{Outcome, ok, branch, ◌>>=◌, running, guard-rule, need-rule, modify-last}
use cache.Manager.State.{
  MutationError, ReclaimReceipt, ShardState, RegionDesc, Manager, Method, is_active, is_free,
  is_sealed,
}
use cache.Manager.Rotation.{head?, tail_of}
use cache.Manager.Reclaim.{
  reclaim_needed, pop_sealed, reclaim_receipt, push_reclaiming, take_sealed, begin_reclaim,
  position, free_region, release_region, finish_reclaim,
}
use cache.Manager.Valid.{ChainFits, RegionFits, one_if, IsValid}
use cache.Manager.AppendKeeps.{Keeps}

pop-rule :
    {B : Type 0} (Q : Outcome MutationError Manager B → Type 0) (k : Option ℕ → Method B)
    (m : Manager)
    → Q (k (head? m.sealed_regions) (record m { sealed_regions = tail_of m.sealed_regions }))
    → Q ((pop_sealed >>= k) m)
unfolding pop_sealed running
pop-rule Q k m q = q

pub get-position :
    (xs : List ReclaimReceipt) (c : ReclaimReceipt) (i : ℕ)
    → position xs c ≡ some i
    → get_elem? xs i ≡ some c
unfolding position decide
get-position [] c i h = cc
get-position (x ∷ xs) c zero h = ground arith
get-position (x ∷ xs) c (suc i) h = ground (arith, get-position xs c i)

-- The oldest sealed Region is there, and is a completed sealed one.
pub record Oldest (m : Manager) (r : ℕ) : Type 0 where
  pub rest : List ℕ
  pub first : m.sealed_regions ≡ r ∷ rest
  pub region : RegionDesc
  pub found : get_elem? m.regions r ≡ some region
  pub is_sealed_state : is_sealed region.state ≡ true
  pub drained : region.completed_used ≡ region.reserved_used

pub sealed_regions-Oldest :
    {m : Manager} → IsValid m → (r : ℕ) (rest : List ℕ) → m.sealed_regions ≡ r ∷ rest → Oldest m r
sealed_regions-Oldest {m} v r rest first =
    let count : total (hit r) m.sealed_regions ≡ hit r r + total (hit r) rest =
      ap (total (hit r)) first ∙ total-cons (hit r) r rest in
    let (d, found) = get_of_lt-length m.regions r (ground (arith, v.placed r, count)) in
    record {
      rest = rest;
      first = first;
      region = d;
      found = found;
      is_sealed_state =
          ground (arith, v.placed r, count, v.active_iff r d found, v.free_iff r d found);
      drained =
          (v.region_fits r d found).quiet
            (ground (arith, v.placed r, count, v.active_iff r d found, v.free_iff r d found));
    }

first_of_nonempty : (l : List ℕ) → length l ≢ 0 → (r : ℕ) × (rest : List ℕ) × (l ≡ r ∷ rest)
first_of_nonempty [] h = absurd (h refl)
first_of_nonempty (r ∷ rest) h = (r, rest, refl)

needed-nonempty : (m : Manager) → reclaim_needed m ≡ true → length m.sealed_regions ≢ 0
unfolding reclaim_needed
needed-nonempty m h = ground arith

module _ {m : Manager} (v : IsValid m) where
  pushed-IsValid :
      (r : ℕ) (x : Oldest m r)
      → IsValid (
          push_reclaiming
            (reclaim_receipt r x.region)
            (record m { sealed_regions = tail_of m.sealed_regions }))
  pushed-IsValid r x = record {
    aligned_size = v.aligned_size;
    size_fits = v.size_fits;
    few_regions = v.few_regions;
    seqno_starts = v.seqno_starts;
    seqno_fits = v.seqno_fits;
    shards = v.shards;
    capacity = v.capacity;
    sizes =
        ground
          (arith, v.sizes, x.first, length-append m.reclaiming (reclaim_receipt r x.region ∷ []));
    placed = λ q. ground (
      arith,
      v.placed q,
      ap (total (hit q)) x.first,
      total-cons (hit q) r x.rest,
      ap tail_of x.first,
      total-snoc (λ c. hit q c.region_id) m.reclaiming (reclaim_receipt r x.region),
    );
    active_iff = v.active_iff;
    free_iff = v.free_iff;
    region_fits = v.region_fits;
    chain_fits = v.chain_fits;
  }

  pub take_sealed_lem :
      (r : ℕ) (x : Oldest m r)
      → take_sealed m m
        ≡ ok (some (reclaim_receipt r x.region)) (
            push_reclaiming
              (reclaim_receipt r x.region)
              (record m { sealed_regions = tail_of m.sealed_regions }))
  unfolding running pop_sealed
  take_sealed_lem r x = rw (ap head? x.first, x.found, x.is_sealed_state, (==_iff _ _).1 x.drained)

  -- In a valid manager, `begin_reclaim` returns `None` and changes nothing when no reclaim is needed.
  -- When one is needed it always succeeds: it takes the first Region of the queue of sealed
  -- ones, and lists and returns a receipt for it, made from its descriptor.
  pub begin_reclaim_lem :
      (reclaim_needed m ≡ false) × (begin_reclaim m ≡ ok none m)
      ⊎ (r : ℕ) × (x : Oldest m r) × (reclaim_needed m ≡ true)
        × (begin_reclaim m
            ≡ ok (some (reclaim_receipt r x.region)) (
                push_reclaiming
                  (reclaim_receipt r x.region)
                  (record m { sealed_regions = tail_of m.sealed_regions })))
  unfolding begin_reclaim running
  begin_reclaim_lem = elim (Bool-cases (reclaim_needed m)) [
    | inl needed ↦
        let (r, rest, first) = first_of_nonempty m.sealed_regions (needed-nonempty m needed) in
        let x : Oldest m r = sealed_regions-Oldest v r rest first in
        inr (r, x, needed, rw (needed, branch) (take_sealed_lem r x))
    | inr idle ↦ inl (idle, rw (idle, branch))
  ]

  pub begin_reclaim-IsValid : Keeps (begin_reclaim m)
  begin_reclaim-IsValid = elim begin_reclaim_lem [
    | inl (_, e) ↦ rw e v
    | inr (r, x, _, e) ↦ rw e (pushed-IsValid r x)
  ]

module _ {m : Manager} (v : IsValid m) (r at : ℕ) (d : RegionDesc) (c : ReclaimReceipt)
    (found : get_elem? m.regions r ≡ some d) (was_sealed : is_sealed d.state ≡ true)
    (listed : get_elem? m.reclaiming at ≡ some c) (same : c.region_id ≡ r) where
  released_regions :
      (q : ℕ) (e : RegionDesc)
      → get_elem? (set m.regions r free_region) q ≡ some e
      → (total (hit q) m.active_regions ≡ one_if (is_active e.state))
        × (total (hit q) (m.free_regions ++ r ∷ []) ≡ one_if (is_free e.state))
        × RegionFits m.region_size m.next_seqno e
  released_regions q e h = elim (get-set_cases m.regions r q free_region found h) [
    | inl (p, new) ↦ rw new (
      ground (arith, v.active_iff q d (rw (← p) found)),
      ground (arith, v.free_iff q d (rw (← p) found), total-snoc (hit q) m.free_regions r),
      record {
        reserved = omega arith;
        completed = omega arith;
        completed_aligned = omega arith;
        reserved_aligned = omega arith;
        created = v.seqno_starts;
        quiet = λ _. refl;
      },
    )
    | inr (ne, kept) ↦ (
      v.active_iff q e kept,
      ground (arith, v.free_iff q e kept, total-snoc (hit q) m.free_regions r),
      v.region_fits q e kept,
    )
  ]

  released-ChainFits :
      (t q : ℕ) (sh : ShardState) (e : RegionDesc)
      → get_elem? m.append_states t ≡ some sh
      → get_elem? m.active_regions t ≡ some q
      → get_elem? (set m.regions r free_region) q ≡ some e
      → ChainFits m.next_seqno t q sh e
  released-ChainFits t q sh e hs ho hr = elim (get-set_cases m.regions r q free_region found hr) [
    | inl (p, _) ↦ absurd (
        ground
          (arith, v.active_iff q d (rw (← p) found), weight-le-total (hit q) m.active_regions t ho))
    | inr (_, kept) ↦ v.chain_fits t q sh e hs ho kept
  ]

  pub released-IsValid : IsValid (release_region r at m)
  released-IsValid = record {
    aligned_size = v.aligned_size;
    size_fits = v.size_fits;
    few_regions = omega (arith, v.few_regions, length-set m.regions r free_region);
    seqno_starts = v.seqno_starts;
    seqno_fits = v.seqno_fits;
    shards = v.shards;
    capacity = omega (arith, v.capacity, length-set m.regions r free_region);
    sizes = omega (
      arith,
      v.sizes,
      length-set m.regions r free_region,
      length-append m.free_regions (r ∷ []),
      length-swap_remove m.reclaiming at listed,
    );
    placed = λ q. ground (
      arith,
      v.placed q,
      length-set m.regions r free_region,
      total-snoc (hit q) m.free_regions r,
      total-swap_remove (λ (b : ReclaimReceipt). hit q b.region_id) m.reclaiming at listed,
    );
    active_iff = λ q e h. (released_regions q e h).0;
    free_iff = λ q e h. (released_regions q e h).1;
    region_fits = λ q e h. (released_regions q e h).2;
    chain_fits = released-ChainFits;
  }

pub finish_reclaim-IsValid :
    {m : Manager} → IsValid m → (c : ReclaimReceipt) → Keeps (finish_reclaim c m)
unfolding finish_reclaim
finish_reclaim-IsValid {m} v c =
    need-rule Keeps _ _ _ m (λ _. v)
      λ at listed.
        need-rule Keeps _ _ _ m (λ _. v)
          λ region found.
            guard-rule Keeps _ _ _ m (λ _. v)
              λ matches.
                guard-rule Keeps _ _ _ m (λ _. v)
                  λ room. modify-last Keeps _ m (
                    released-IsValid v c.region_id at region c found (ground arith)
                      (get-position m.reclaiming c at listed) refl)
