-- ===== src/Hashing/Probe.antt =====
-- What the slots hold, and that a search finds it: cache2/src/hashing.rs.
use mathlib.Core.Option.{some-injective}
use mathlib.Core.Path.{subst}
use cache.Base.{
  ℕ, zero, suc, ◌+◌, ◌≤◌, ◌<◌, min, ◌≡◌, ◌≢◌, ◌⊎◌, inl, inr, sym, ap, ◌∙◌, Bool, true, false, not,
  ◌&&◌, Bool-cases, Option, none, some, List, arith, ltb, ◌==◌, ==_iff, get_elem?, set, length,
  get-set, get_of_lt-length,
}
use cache.Hashing.Map.{
  max_probes, Slot, empty_slot, slot_at, home, probe_index, probe_distance, is_empty, is_deleted,
  is_match, search_from, search,
}
use cache.Hashing.Circle.{distance_lt, distance_injective, probe_lt, distance-probe, home_lt}

abbrev pub is_live : Slot → Bool
is_live s = not (is_empty s) && not (is_deleted s)

-- The home of what stands in a slot.
abbrev pub home_of : ℕ → List Slot → ℕ → ℕ
home_of n slots i = home (slot_at slots i).fingerprint n

-- An entry is found from its home: no slot on the way to it is empty, and the way is short. `n` is the
-- count of slots.
pub record IsValidFor (n : ℕ) (slots : List Slot) : Type 0 where
  pub near :
      (i : ℕ)
      → i < n
      → is_live (slot_at slots i) ≡ true
      → probe_distance (home_of n slots i) i n < max_probes
  pub way :
      (i p : ℕ)
      → i < n
      → p < n
      → is_live (slot_at slots i) ≡ true
      → probe_distance (home_of n slots i) p n < probe_distance (home_of n slots i) i n
      → is_empty (slot_at slots p) ≡ false
  pub single :
      (i j : ℕ)
      → i < n
      → j < n
      → is_live (slot_at slots i) ≡ true
      → is_live (slot_at slots j) ≡ true
      → (slot_at slots i).fingerprint ≡ (slot_at slots j).fingerprint
      → i ≡ j

abbrev pub IsValid : List Slot → Type 0
IsValid slots = IsValidFor (length slots) slots

-- The slot `i` has an entry for the fingerprint.
abbrev pub HasEntry : List Slot → ℕ → ℕ → Type 0
HasEntry slots f i =
    (i < length slots) × (is_live (slot_at slots i) ≡ true) × ((slot_at slots i).fingerprint ≡ f)

-- The slots hold the value for the fingerprint.
abbrev pub Holds : List Slot → ℕ → ℕ → Type 0
Holds slots f v = (i : ℕ) × HasEntry slots f i × ((slot_at slots i).value ≡ v)

pub slot_at-set :
    (slots : List Slot) (i : ℕ) (s : Slot) → i < length slots → slot_at (set slots i s) i ≡ s
slot_at-set slots i s lt =
    let (old, found) = get_of_lt-length slots i lt in ground (arith, get-set slots i i s found)

pub slot_at-set_other :
    (slots : List Slot) (i j : ℕ) (s : Slot)
    → i < length slots
    → i ≢ j
    → slot_at (set slots i s) j ≡ slot_at slots j
slot_at-set_other slots i j s lt ne =
    let (old, found) = get_of_lt-length slots i lt in
    let same : get_elem? (set slots i s) j ≡ get_elem? slots j =
      ground (arith, ne, get-set slots i j s found) in
    ap (λ (k : Option Slot). elim k [ none ↦ empty_slot | some x ↦ x ]) same

pub slot_at-set_cases :
    (slots : List Slot) (i j : ℕ) (s : Slot)
    → i < length slots
    → ((i ≡ j) × (slot_at (set slots i s) j ≡ s))
      ⊎ ((i ≢ j) × (slot_at (set slots i s) j ≡ slot_at slots j))
slot_at-set_cases slots i j s lt = elim (Bool-cases (i == j)) [
  | inl same ↦
      let is : i ≡ j = (==_iff _ _).0 same in
      inl (is, ap (slot_at (set slots i s)) (sym is) ∙ slot_at-set slots i s lt)
  | inr other ↦
      let ne : i ≢ j = ground (arith, other) in inr (ne, slot_at-set_other slots i j s lt ne)
]

pub match_live :
    (f : ℕ) (s : Slot)
    → is_empty s ≡ false
    → is_match f s ≡ true
    → (is_live s ≡ true) × (s.fingerprint ≡ f)
match_live f s full h = (ground arith, ground arith)

pub live_match :
    (f : ℕ) (s : Slot)
    → is_live s ≡ true
    → s.fingerprint ≡ f
    → (is_empty s ≡ false) × (is_match f s ≡ true)
live_match f s live is = (ground arith, ground arith)

module _ (slots : List Slot) (f start : ℕ) (begins : start < length slots) where
  -- What a search finds is an entry.
  search_from-entry :
      (left step i : ℕ)
      → step + left ≤ length slots
      → search_from slots f start left step ≡ some i
      → HasEntry slots f i
  unfolding search_from
  search_from-entry zero step i fits h = cc
  search_from-entry (suc left) step i fits h =
      let index : ℕ = probe_index start step (length slots) in
      elim (Bool-cases (is_empty (slot_at slots index))) [
        | inl empty ↦ ground (arith, h, empty)
        | inr full ↦ elim (Bool-cases (is_match f (slot_at slots index))) [
          | inl here ↦
              let is : index ≡ i = some-injective _ _ (rw (full, here) at h) in
              subst (HasEntry slots f) is (
                let (live, same) = match_live f (slot_at slots index) full here in
                (probe_lt start step begins (omega (arith, fits)), live, same))
          | inr other ↦
              search_from-entry left (step + 1) i (omega (arith, fits)) (rw (full, other) at h)
        ]
      ]

module _ (slots : List Slot) (v : IsValid slots) (f i : ℕ) (entry : HasEntry slots f i) where
  start_lt : home f (length slots) < length slots
  start_lt = home_lt f (length slots) (omega (arith, entry.0))

  -- An entry that is still ahead is found.
  search_from-finds :
      (left step : ℕ)
      → step + left ≤ length slots
      → step ≤ probe_distance (home f (length slots)) i (length slots)
      → probe_distance (home f (length slots)) i (length slots) < step + left
      → search_from slots f (home f (length slots)) left step ≡ some i
  unfolding search_from
  search_from-finds zero step fits low high = absurd (omega arith)
  search_from-finds (suc left) step fits low high =
      let start : ℕ = home f (length slots) in
      let index : ℕ = probe_index start step (length slots) in
      let far : probe_distance start index (length slots) ≡ step =
        distance-probe start step start_lt (omega arith) in
      let inside : index < length slots = probe_lt start step start_lt (omega arith) in
      let (lt, live, is) = entry in
      elim (Bool-cases (step == probe_distance start i (length slots))) [
        | inl now ↦
            let same : index ≡ i =
              distance_injective start index i start_lt inside lt (far ∙ (==_iff _ _).0 now) in
            let (full, here) = live_match f (slot_at slots i) live is in
            let full' : is_empty (slot_at slots index) ≡ false =
              ap (λ k. is_empty (slot_at slots k)) same ∙ full in
            let here' : is_match f (slot_at slots index) ≡ true =
              ap (λ k. is_match f (slot_at slots k)) same ∙ here in
            rw (full', here') (ap some same)
        | inr later ↦
            let ahead : step < probe_distance start i (length slots) = ground (arith, later, low) in
            let homes : home_of (length slots) slots i ≡ start =
              ap (λ k. home k (length slots)) is in
            let full : is_empty (slot_at slots index) ≡ false =
              v.way i index lt inside live (rw homes (omega (arith, far, ahead))) in
            let rest : search_from slots f start left (step + 1) ≡ some i =
              search_from-finds left (step + 1) (omega (arith, fits)) (omega (arith, ahead))
                (omega (arith, high)) in
            elim (Bool-cases (is_match f (slot_at slots index))) [
              | inl here ↦
                  let (live', is') = match_live f (slot_at slots index) full here in
                  let same : index ≡ i = v.single index i inside lt live' live (is' ∙ sym is) in
                  absurd (
                    omega (arith, far, ahead, ap (λ k. probe_distance start k (length slots)) same))
              | inr other ↦ rw (full, other) rest
            ]
      ]

  pub search-finds : search slots f ≡ some i
  unfolding search
  search-finds =
      let (lt, live, is) = entry in
      let homes : home_of (length slots) slots i ≡ home f (length slots) =
        ap (λ k. home k (length slots)) is in
      let close : probe_distance (home f (length slots)) i (length slots) < max_probes =
        rw homes at (v.near i lt live) in
      search_from-finds _ 0 (omega arith) (omega arith)
        (omega (arith, close, distance_lt (home f (length slots)) i start_lt lt))

none_found :
    (slots : List Slot) (f start left i : ℕ)
    → left ≡ 0
    → search_from slots f start left 0 ≡ some i
    → ⊥
unfolding search_from
none_found slots f start zero i few h = cc
none_found slots f start (suc left) i few h = omega (arith, few)

pub search-entry : (slots : List Slot) (f i : ℕ) → search slots f ≡ some i → HasEntry slots f i
unfolding search
search-entry slots f i h = elim (Bool-cases (ltb 0 (length slots))) [
  | inl more ↦
      search_from-entry slots f (home f (length slots))
        (home_lt f (length slots) (ground (arith, more))) (min (length slots) max_probes) 0 i
        (omega arith) h
  | inr empty ↦
      let few : min (length slots) max_probes ≡ 0 = ground (arith, empty) in
      absurd (none_found slots f _ _ i few h)
]
