-- ===== src/Manager/Recovered.antt =====
-- The queues that `from_metadata` fills in: cache2/src/region/manager.rs.
use mathlib.Core.Path.{subst}
use mathlib.Core.Option.{some-injective}
use mathlib.Core.Sum.{inr-injective}
use cache.Base.{
  ℕ, suc, ◌+◌, ◌≤◌, ◌<◌, ◌≡◌, ◌≢◌, refl, sym, ap, ◌∙◌, some, inl, inr, Bool-cases, List, [], ◌∷◌,
  arith, ◌==◌, if◌then◌else◌, get_elem?, set, length, length-set, hit, total, total-set,
}
use cache.Checked.{bind-inr, ensure-inr, needed-inr}
use cache.Manager.State.{RegionState, free, active, sealed, to_u32}
use cache.Metadata.Data.{RegionRecord}
use cache.Manager.Recover.{
  unassigned_region, Queues, queue_in, with_queue, install_recovered, install_all, same_state,
}

-- How often the Region `r` stands in the queue of a state.
abbrev pub count : RegionState → ℕ → Queues → ℕ
count s r q = total (hit r) (queue_in s q)

abbrev pub for_state : RegionState → RegionState → ℕ → ℕ
for_state s t n = if same_state s t then n else 0

-- A write in the queue of `t` replaces an unassigned place by the Region `i`.
count-set :
    (s t : RegionState) (ordinal i r : ℕ) (q : Queues)
    → get_elem? (queue_in t q) ordinal ≡ some unassigned_region
    → count s r (with_queue t (set (queue_in t q) ordinal i) q)
        + for_state s t (hit r unassigned_region)
      ≡ count s r q + for_state s t (hit r i)
count-set active active o i r q h = total-set (hit r) q.active_queue o i h
count-set active free o i r q h = omega arith
count-set active sealed o i r q h = omega arith
count-set free active o i r q h = omega arith
count-set free free o i r q h = total-set (hit r) q.free_queue o i h
count-set free sealed o i r q h = omega arith
count-set sealed active o i r q h = omega arith
count-set sealed free o i r q h = omega arith
count-set sealed sealed o i r q h = total-set (hit r) q.sealed_queue o i h

length-queue :
    (s t : RegionState) (ordinal i : ℕ) (q : Queues)
    → length (queue_in s (with_queue t (set (queue_in t q) ordinal i) q)) ≡ length (queue_in s q)
length-queue active active o i q = length-set q.active_queue o i
length-queue active free o i q = refl
length-queue active sealed o i q = refl
length-queue free active o i q = refl
length-queue free free o i q = length-set q.free_queue o i
length-queue free sealed o i q = refl
length-queue sealed active o i q = refl
length-queue sealed free o i q = refl
length-queue sealed sealed o i q = length-set q.sealed_queue o i

hit_self : (a : ℕ) → hit a a ≡ 1
hit_self a = ground arith

hit_other : (a b : ℕ) → a ≢ b → hit a b ≡ 0
hit_other a b h = ground arith

for_none : (s t : RegionState) → for_state s t 0 ≡ 0
for_none s t = elim (Bool-cases (same_state s t)) [
  | inl same ↦ rw same refl
  | inr other ↦ rw other refl
]

module _ (s t : RegionState) (ordinal i : ℕ) (q : Queues)
    (here : get_elem? (queue_in t q) ordinal ≡ some unassigned_region)
    (small : i < unassigned_region) where
  abbrev changed : Queues
  changed = with_queue t (set (queue_in t q) ordinal i) q

  count_other : (r : ℕ) → r ≢ i → r ≢ unassigned_region → count s r changed ≡ count s r q
  count_other r ne un = omega (
    arith,
    count-set s t ordinal i r q here,
    ap (for_state s t) (hit_other r i ne),
    ap (for_state s t) (hit_other r unassigned_region un),
  )

  count_new : count s i q ≡ 0 → count s i changed ≡ for_state s t 1
  count_new none_yet = omega (
    arith,
    none_yet,
    count-set s t ordinal i i q here,
    ap (for_state s t) (hit_self i),
    ap (for_state s t) (hit_other i unassigned_region (omega arith)),
    for_none s t,
  )

-- After the first `i` records each of their Regions stands once, in the queue of its state.
pub record Installed (regions : List RegionRecord) (i : ℕ) (q : Queues) : Type 0 where
  pub installed :
      (r : ℕ) (d : RegionRecord) (s : RegionState)
      → get_elem? regions r ≡ some d
      → r < i
      → count s r q ≡ for_state s d.state 1
  pub waiting : (r : ℕ) (s : RegionState) → i ≤ r → r ≢ unassigned_region → count s r q ≡ 0

step-Installed :
    (regions : List RegionRecord) (i : ℕ) (x : RegionRecord) (q q' : Queues)
    → Installed regions i q
    → get_elem? regions i ≡ some x
    → i < unassigned_region
    → install_recovered x.state x.queue_ordinal i q ≡ inr q'
    → Installed regions (i + 1) q'
      × ((s : RegionState) → length (queue_in s q') ≡ length (queue_in s q))
unfolding install_recovered
step-Installed regions i x q q' v at small h =
    let (old, found, h1) = needed-inr _ _ _ h in
    let (unassigned, h2) = ensure-inr _ _ _ h1 in
    let place : get_elem? (queue_in x.state q) x.queue_ordinal ≡ some unassigned_region =
      found ∙ ap some (ground (arith, unassigned)) in
    subst
      (λ p.
        Installed regions (i + 1) p
        × ((s : RegionState) → length (queue_in s p) ≡ length (queue_in s q)))
      (inr-injective _ _ h2)
      (
        record {
          installed = λ r d s here lt. elim (Bool-cases (r == i)) [
            | inl now ↦
                let is : r ≡ i = ground (arith, now) in
                let same : x ≡ d =
                  some-injective _ _ (sym at ∙ ap (get_elem? regions) (sym is) ∙ here) in
                ap (λ k. count s k (changed s x.state x.queue_ordinal i q place small)) is
                ∙ count_new s x.state x.queue_ordinal i q place small
                    (v.waiting i s (omega arith) (omega arith))
                ∙ ap (λ y. for_state s y.state 1) same
            | inr before ↦
                let lower : r < i = ground (arith, before) in
                count_other s x.state x.queue_ordinal i q place small r (omega arith) (omega arith)
                ∙ v.installed r d s here lower
          ];
          waiting = λ r s le ne.
              count_other s x.state x.queue_ordinal i q place small r (omega arith) ne
              ∙ v.waiting r s (omega arith) ne;
        },
        λ s. length-queue s x.state x.queue_ordinal i q,
      )

narrow_value : (a b : ℕ) → to_u32 a ≡ some b → b ≡ a
narrow_value a b h = ground arith

pub all-Installed :
    (regions rest : List RegionRecord) (i : ℕ) (q q' : Queues)
    → Installed regions i q
    → i + length rest ≡ length regions
    → ((k : ℕ) → get_elem? rest k ≡ get_elem? regions (i + k))
    → length regions ≤ unassigned_region
    → install_all rest i q ≡ inr q'
    → Installed regions (length regions) q'
      × ((s : RegionState) → length (queue_in s q') ≡ length (queue_in s q))
unfolding install_all
all-Installed regions [] i q q' v size same few h =
    subst
      (λ p.
        Installed regions (length regions) p
        × ((s : RegionState) → length (queue_in s p) ≡ length (queue_in s q)))
      (inr-injective _ _ h) (subst (λ n. Installed regions n q) (omega (arith, size)) v, λ s. refl)
all-Installed regions (x ∷ rest) i q q' v size same few h =
    let (id, narrow, h1) = needed-inr _ _ _ h in
    let (next, step, h2) = bind-inr _ _ h1 in
    let at : get_elem? regions i ≡ some x = ap (get_elem? regions) (omega arith) ∙ sym (same 0) in
    let step' : install_recovered x.state x.queue_ordinal i q ≡ inr next =
      ap (λ n. install_recovered x.state x.queue_ordinal n q) (sym (narrow_value i id narrow))
      ∙ step in
    let (v', lengths) = step-Installed regions i x q next v at (omega (arith, size, few)) step' in
    let (done, lengths') =
      all-Installed regions rest (i + 1) next q' v' (omega (arith, size))
        (λ k. same (suc k) ∙ ap (get_elem? regions) (omega arith)) few h2 in
    (done, λ s. lengths' s ∙ lengths s)
