-- ===== src/Manager/FromMetadata.antt =====
-- The manager that `from_metadata` makes, and its invariant: cache2/src/region/manager.rs.
use mathlib.Core.Path.{subst}
use mathlib.Core.Option.{some-injective}
use mathlib.Core.Sum.{inr-injective}
use cache.Base.{
  ℕ, zero, suc, ◌+◌, ◌-◌, ◌%◌, ◌^◌, ◌≤◌, ◌<◌, ◌≡◌, ◌≢◌, refl, sym, ap, ◌∙◌, Bool, true, false, not,
  ◌&&◌, some, inl, inr, Bool-cases, ltb→lt, ==_iff, List, [], ◌∷◌, arith, ltb, ◌==◌, get_elem?,
  length, replicate, length-replicate, lt-length_of_get, get_of_lt-length, hit, total,
  total-replicate,
}
use cache.Checked.{bind-inr, ensure-inr, needed-inr, then-inr}
use cache.Manager.State.{
  RegionState, free, active, sealed, ReclaimReceipt, u64_max, checked_add, Manager, RegionDesc,
}
use cache.Manager.Valid.{one_if, rotating, in_rotation, RegionFits, ChainFits, IsValid}
use cache.Index.Layout.{checked_sub}
use cache.Metadata.Data.{RegionRecord, Metadata}
use cache.Metadata.Accepted.{RegionAccepted, Accepted, validate-Accepted}
use cache.Manager.Recover.{
  unassigned_region, Recovered, Queues, queue_in, desc_of, descs, contains, fresh_shard,
  from_metadata,
}
use cache.Manager.Recovered.{count, for_state, Installed, all-Installed}

contains-total : (xs : List ℕ) (a : ℕ) → contains xs a ≡ false → total (hit a) xs ≡ 0
unfolding total
contains-total [] a h = refl
contains-total (x ∷ xs) a h = ground (arith, contains-total xs a (ground (arith, h)))

length-descs : (rs : List RegionRecord) → length (descs rs) ≡ length rs
length-descs [] = refl
length-descs (r ∷ rs) = ap suc (length-descs rs)

get-descs :
    (rs : List RegionRecord) (i : ℕ) (d : RegionDesc)
    → get_elem? (descs rs) i ≡ some d
    → (x : RegionRecord) × (get_elem? rs i ≡ some x) × (desc_of x ≡ d)
get-descs [] i d h = cc
get-descs (r ∷ rs) zero d h = (r, refl, some-injective _ _ h)
get-descs (r ∷ rs) (suc i) d h = get-descs rs i d h

get-replicate : {A : Type 0} (n i : ℕ) (a b : A) → get_elem? (replicate n a) i ≡ some b → a ≡ b
get-replicate zero i a b h = cc
get-replicate (suc n) zero a b h = some-injective _ _ h
get-replicate (suc n) (suc i) a b h = get-replicate n i a b h

abbrev blank : Metadata → Queues
blank m = record {
  active_queue = replicate m.root.shard_count unassigned_region;
  free_queue = replicate m.root.free_region_count unassigned_region;
  sealed_queue = replicate m.root.sealed_region_count unassigned_region;
}

hit-other : (a b : ℕ) → a ≢ b → hit a b ≡ 0
hit-other a b h = ground arith

blank-Installed : (m : Metadata) → Installed m.regions 0 (blank m)
blank-Installed m = record {
  installed = λ r d s at lt. absurd (omega arith);
  waiting = λ r s le ne. elim s as (λ k. count k r (blank m) ≡ 0) [
    | free ↦ total-replicate (hit r) m.root.free_region_count unassigned_region (hit-other r _ ne)
    | active ↦ total-replicate (hit r) m.root.shard_count unassigned_region (hit-other r _ ne)
    | sealed ↦
        total-replicate (hit r) m.root.sealed_region_count unassigned_region (hit-other r _ ne)
  ];
}

queue_facts :
    (n k : ℕ) (a b c : Bool)
    → (n == k && not a && not b && not c) ≡ true
    → (a ≡ false) × (b ≡ false) × (c ≡ false)
queue_facts n k a b c h = ground arith

no_length : length {A = ReclaimReceipt} [] ≡ 0
no_length = refl

none_reclaiming : (r : ℕ) → total (λ (c : ReclaimReceipt). hit r c.region_id) [] ≡ 0
unfolding total
none_reclaiming r = refl

-- The queues that `from_metadata` returns.
record Filled (m : Metadata) (q : Queues) : Type 0 where
  accepted : Accepted m
  all_installed : Installed m.regions (length m.regions) q
  lengths : (s : RegionState) → length (queue_in s q) ≡ length (queue_in s (blank m))
  full : (s : RegionState) → total (hit unassigned_region) (queue_in s q) ≡ 0

abbrev manager_of : Metadata → Queues → ℕ → ℕ → Manager
manager_of m q next capacity = record {
  region_size = m.root.region_size;
  next_seqno = next;
  regions = descs m.regions;
  active_regions = q.active_queue;
  append_states = replicate m.root.shard_count fresh_shard;
  free_regions = q.free_queue;
  sealed_regions = q.sealed_queue;
  reclaiming = [];
  reclaim_limit = 1;
  queue_capacity = capacity;
  rotations = 0;
}

one_state : (t : RegionState) → for_state active t 1 + for_state free t 1 + for_state sealed t 1 ≡ 1
one_state active = refl
one_state free = refl
one_state sealed = refl

one_below : (a b : ℕ) → a < b → one_if (ltb a b) ≡ 1
one_below a b h = ground arith

none_above : (a b : ℕ) → b ≤ a → one_if (ltb a b) ≡ 0
none_above a b h = ground arith

module _ (m : Metadata) (q : Queues) (f : Filled m q) where
  few : length m.regions ≤ 2 ^ 20
  few = omega (arith, f.accepted.counted, f.accepted.few_regions)

  counted_once :
      (r : ℕ)
      → count active r q + count free r q + count sealed r q
        ≡ one_if (ltb r (length (descs m.regions)))
  counted_once r = elim (Bool-cases (ltb r (length m.regions))) [
    | inl inside ↦
        let (x, found) = get_of_lt-length m.regions r (ltb→lt _ _ inside) in
        let lt : r < length m.regions = ltb→lt _ _ inside in
        omega (
          arith,
          f.all_installed.installed r x active found lt,
          f.all_installed.installed r x free found lt,
          f.all_installed.installed r x sealed found lt,
          one_state x.state,
          one_below r (length (descs m.regions)) (omega (arith, lt, length-descs m.regions)),
        )
    | inr outside ↦
        let high : length m.regions ≤ r = ground (arith, outside) in
        let none_there : (s : RegionState) → count s r q ≡ 0 = λ s.
          elim (Bool-cases (r == unassigned_region)) [
            | inl un ↦ ap (λ k. total (hit k) (queue_in s q)) (((==_iff _ _).0 un)) ∙ f.full s
            | inr other ↦ f.all_installed.waiting r s high (ground (arith, other))
          ] in
        omega (
          arith,
          none_there active,
          none_there free,
          none_there sealed,
          none_above r (length (descs m.regions)) (omega (arith, high, length-descs m.regions)),
        )
  ]

  in_state :
      (s : RegionState) (r : ℕ) (d : RegionDesc)
      → get_elem? (descs m.regions) r ≡ some d
      → count s r q ≡ for_state s d.state 1
  in_state s r d at =
      let (x, found, is) = get-descs m.regions r d at in
      f.all_installed.installed r x s found (lt-length_of_get m.regions r found)
      ∙ ap (λ e. for_state s e.state 1) is

  region-RegionFits :
      ((i : ℕ) (x : RegionRecord)
        → get_elem? m.regions i ≡ some x
        → x.durable_used_offset % 4096 ≡ 0)
      → (r : ℕ) (d : RegionDesc) → get_elem? (descs m.regions) r ≡ some d
      → RegionFits m.root.region_size (m.root.max_seqno + 1) d
  region-RegionFits paged r d at =
      let (x, found, is) = get-descs m.regions r d at in
      let a : RegionAccepted m.root x = f.accepted.each_region r x found in
      subst (RegionFits _ _) is (record {
        reserved = a.fits;
        completed = omega arith;
        completed_aligned = paged r x found;
        reserved_aligned = a.aligned;
        created = omega (arith, a.created);
        quiet = λ h. refl;
      })

  manager-IsValid :
      ((i : ℕ) (x : RegionRecord)
        → get_elem? m.regions i ≡ some x
        → x.durable_used_offset % 4096 ≡ 0)
      → m.root.max_seqno + 1 ≤ u64_max
      → IsValid (manager_of m q (m.root.max_seqno + 1) (m.root.region_count - m.root.shard_count))
  manager-IsValid paged seqno =
      let n : ℕ = m.root.shard_count in
      let a : Accepted m = f.accepted in
      let actives : length q.active_queue ≡ n =
        f.lengths active ∙ length-replicate n unassigned_region in
      let frees : length q.free_queue ≡ m.root.free_region_count =
        f.lengths free ∙ length-replicate _ unassigned_region in
      let seals : length q.sealed_queue ≡ m.root.sealed_region_count =
        f.lengths sealed ∙ length-replicate _ unassigned_region in
      let all : length (descs m.regions) ≡ m.root.region_count =
        length-descs m.regions ∙ a.counted in
      let quiet : total in_rotation (replicate n fresh_shard) ≡ 0 =
        total-replicate in_rotation n fresh_shard refl in
      record {
        aligned_size = a.whole_pages;
        size_fits = omega (arith, a.size_fits);
        few_regions = omega (arith, few, length-descs m.regions);
        seqno_starts = omega arith;
        seqno_fits = seqno;
        shards = length-replicate n fresh_shard ∙ sym actives;
        capacity = omega (arith, actives, all, a.spare_region);
        sizes =
            omega (arith, actives, frees, seals, all, quiet, a.all_regions, a.shards, no_length);
        placed = λ r. omega (
          arith,
          counted_once r,
          none_reclaiming r,
          total-replicate (rotating r) n fresh_shard refl,
        );
        active_iff = λ r d at. in_state active r d at;
        free_iff = λ r d at. in_state free r d at;
        region_fits = region-RegionFits paged;
        chain_fits = λ s r shard d at owned found.
            let (x, _, is) = get-descs m.regions r d found in
            subst (λ e. ChainFits (m.root.max_seqno + 1) s r e d)
              (get-replicate n s fresh_shard shard at)
              (subst (ChainFits (m.root.max_seqno + 1) s r fresh_shard) is
                (record { submitted = tt; opened = tt; tail = refl; rotation = tt }));
      }

full_facts :
    (s : RegionState) (q : Queues)
    → contains q.active_queue unassigned_region ≡ false
    → contains q.free_queue unassigned_region ≡ false
    → contains q.sealed_queue unassigned_region ≡ false
    → total (hit unassigned_region) (queue_in s q) ≡ 0
full_facts active q a f s = contains-total q.active_queue _ a
full_facts free q a f s = contains-total q.free_queue _ f
full_facts sealed q a f s = contains-total q.sealed_queue _ s

seqno_facts : (a b : ℕ) → checked_add a 1 ≡ some b → (b ≡ a + 1) × (b ≤ u64_max)
seqno_facts a b h = (ground arith, ground arith)

capacity_fact : (a b c : ℕ) → checked_sub a b ≡ some c → c ≡ a - b
capacity_fact a b c h = ground arith

-- The manager that `from_metadata` makes satisfies the invariant, where every Region of the metadata was
-- completed up to a whole page, and it has the Regions of the metadata.
pub from_metadata-IsValid :
    (m : Metadata) (r : Recovered)
    → ((i : ℕ) (x : RegionRecord)
        → get_elem? m.regions i ≡ some x
        → x.durable_used_offset % 4096 ≡ 0)
    → from_metadata m ≡ inr r
    → IsValid r.manager × (r.manager.regions ≡ descs m.regions)
unfolding from_metadata
from_metadata-IsValid m r paged h =
    let (valid, h1) = then-inr _ _ h in
    let (capacity, subtracted, h2) = needed-inr _ _ _ h1 in
    let (q, installs, h3) = bind-inr _ _ h2 in
    let (good, h4) = ensure-inr _ _ _ h3 in
    let (next, added, h5) = needed-inr _ _ _ h4 in
    let a : Accepted m = validate-Accepted m valid in
    let (filled, lengths) =
      all-Installed m.regions m.regions 0 (blank m) q (blank-Installed m) (omega arith)
        (λ k. ap (get_elem? m.regions) (omega arith)) (omega (arith, a.counted, a.few_regions))
        installs in
    let (no_active, no_free, no_sealed) =
      queue_facts _ _ (contains q.active_queue unassigned_region)
        (contains q.free_queue unassigned_region) (contains q.sealed_queue unassigned_region)
        good in
    let f : Filled m q = record {
      accepted = a;
      all_installed = filled;
      lengths = lengths;
      full = λ s. full_facts s q no_active no_free no_sealed;
    } in
    let (is, fits) = seqno_facts _ _ added in
    let made : IsValid (manager_of m q next capacity) =
      subst (λ k. IsValid (manager_of m q next k)) (sym (capacity_fact _ _ _ subtracted))
        (subst (λ k. IsValid (manager_of m q k (m.root.region_count - m.root.shard_count))) (sym is)
          (manager-IsValid m q f paged (omega (arith, is, fits)))) in
    subst (λ (k : Recovered). IsValid k.manager × (k.manager.regions ≡ descs m.regions))
      (inr-injective _ _ h5) (made, refl)
