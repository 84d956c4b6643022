-- ===== src/Fill/ObservedKeeps.antt =====
-- The invariant of the observations under each method: cache2/src/io/fill_control.rs.
use mathlib.Core.Option.{some-injective, none-ne-some}
use cache.Base.{
  ℕ, zero, suc, ◌+◌, ◌%◌, ◌^◌, ◌≤◌, max, ◌≡◌, ◌≢◌, ◌⊎◌, inl, inr, refl, sym, ap, ◌∙◌, Bool, true,
  false, Bool-cases, Option-cases, none, some, List, [], ◌∷◌, ◌++◌, arith, ◌==◌, ==_iff, get_elem?,
  set, get-set_self, get-set_cases, hit, total, total-set, total-snoc, weight-le-total,
}
use cache.Fill.Pressure.{
  ObservedSlot, Observation, Controller, publish, hold_pause, release_pause, free_slot, observe_io,
  note_slow, clear_slow, drop_observation,
}
use cache.Fill.Observed.{Observing, started_by, kept_at, slow_weight, owns, taken, Observed}

get-snoc_cases :
    {A : Type 0} (xs : List A) (x y : A) (k : ℕ)
    → get_elem? (xs ++ x ∷ []) k ≡ some y
    → (get_elem? xs k ≡ some y) ⊎ (x ≡ y)
get-snoc_cases [] x y zero h = inr (some-injective _ _ h)
get-snoc_cases [] x y (suc k) h = cc
get-snoc_cases (a ∷ xs) x y zero h = inl h
get-snoc_cases (a ∷ xs) x y (suc k) h = get-snoc_cases xs x y k h

-- A write in the slots keeps a slot at each place.
get_of_written :
    {A : Type 0} (xs : List A) (i j : ℕ) (v w : A)
    → get_elem? xs j ≡ some w
    → (u : A) × (get_elem? (set xs i v) j ≡ some u)
get_of_written [] i j v w h = cc
get_of_written (x ∷ xs) zero zero v w h = (v, refl)
get_of_written (x ∷ xs) zero (suc j) v w h = (w, h)
get_of_written (x ∷ xs) (suc i) zero v w h = (x, refl)
get_of_written (x ∷ xs) (suc i) (suc j) v w h = get_of_written xs i j v w h

free_slot-free :
    (slots : List ObservedSlot) (from index : ℕ)
    → free_slot slots from ≡ some index
    → (k : ℕ) × (index ≡ from + k)
      × ((slot : ObservedSlot) × (get_elem? slots k ≡ some slot) × (slot.start_ns ≡ 0))
unfolding free_slot
free_slot-free [] from index h = cc
free_slot-free (s ∷ rest) from index h = elim (Bool-cases (s.start_ns == 0)) [
  | inl unused ↦
      (0, omega (arith, some-injective _ _ (rw unused at h)), (s, refl, (==_iff _ _).0 unused))
  | inr busy ↦
      let (k, is, slot) = free_slot-free rest (from + 1) index (rw busy at h) in
      (suc k, omega (arith, is), slot)
]

abbrev pub SameHeld : Controller → Controller → Type 0
SameHeld c c' = (c'.pause_holders ≡ c.pause_holders) × (c'.slots ≡ c.slots)

-- The controller changes elsewhere.
pub same-Observed :
    (s : Observing) (c' : Controller)
    → SameHeld s.controller c'
    → Observed s
    → Observed (record s { controller = c' })
same-Observed s c' (pauses, slots) v = record {
  pauses = pauses ∙ v.pauses;
  places = λ j slot at. v.places j slot (ap (λ l. get_elem? l j) (sym slots) ∙ at);
  inside = λ k o at.
      (let (slot, there) = v.inside k o at in (slot, ap (λ l. get_elem? l o.index) slots ∙ there));
}

-- An observation stays at its slot, and its pause is counted.
module _ (s : Observing) (v : Observed s) (k : ℕ) (o : Observation)
    (here : get_elem? s.live k ≡ some (some o)) where
  held-Observed :
      (c' : Controller) (o' : Observation)
      → c'.slots ≡ s.controller.slots
      → o'.index ≡ o.index
      → (c'.pause_holders ≡ total slow_weight (set s.live k (some o')) % 2 ^ 64)
      → Observed (record { controller = c'; live = set s.live k (some o') })
  held-Observed c' o' slots index pauses = record {
    pauses = pauses;
    places = λ j slot at. omega (
      arith,
      v.places j slot (ap (λ l. get_elem? l j) (sym slots) ∙ at),
      total-set (owns j) s.live k (some o') here,
      ap (hit j) index,
    );
    inside = λ j q at. elim (get-set_cases s.live k j (some o') here at) [
      | inl (_, is) ↦
          let (slot, there) = v.inside k o here in
          let same : q.index ≡ o.index =
            ap (λ (x : Observation). x.index) (some-injective _ _ is) ∙ index in
          (slot, ap (get_elem? c'.slots) same ∙ ap (λ l. get_elem? l o.index) slots ∙ there)
      | inr (_, old) ↦
          let (slot, there) = v.inside j q old in
          (slot, ap (λ l. get_elem? l q.index) slots ∙ there)
    ];
  }

taken_le : (s : ObservedSlot) → taken s ≤ 1
taken_le s = ground arith

hit_same : (a b : ℕ) → a ≡ b → hit b a ≡ 1
hit_same a b h = ground arith

hit_other : (a b : ℕ) → a ≢ b → hit b a ≡ 0
hit_other a b h = ground arith

free_taken : (s : ObservedSlot) → s.start_ns ≡ 0 → taken s ≡ 0
free_taken s h = ground arith

busy_taken : (now bytes : ℕ) → taken (record { start_ns = max now 1; bytes = bytes }) ≡ 1
busy_taken now bytes = ground arith

-- An observation, by its fields.
abbrev pub of : ℕ → Bool → Observation
of index slow = record { index = index; slow = slow }

module _ (s : Observing) (v : Observed s) (k index : ℕ) where
  pub note-Observed :
      (b : Bool)
      → get_elem? s.live k ≡ some (some (of index b))
      → Observed (kept_at s.live k (note_slow s.controller (of index b)))
  unfolding note_slow hold_pause publish
  note-Observed true here =
      held-Observed s v k (of index true) here s.controller (of index true) refl refl
        (omega (arith, v.pauses, total-set slow_weight s.live k (some (of index true)) here))
  note-Observed false here =
      held-Observed s v k (of index false) here _ (of index true) refl refl
        (omega (arith, v.pauses, total-set slow_weight s.live k (some (of index true)) here))

  pub clear-Observed :
      (b : Bool)
      → get_elem? s.live k ≡ some (some (of index b))
      → Observed (kept_at s.live k (clear_slow s.controller (of index b)))
  unfolding clear_slow release_pause publish
  clear-Observed true here =
      held-Observed s v k (of index true) here _ (of index false) refl refl
        (omega (arith, v.pauses, total-set slow_weight s.live k (some (of index false)) here))
  clear-Observed false here =
      held-Observed s v k (of index false) here s.controller (of index false) refl refl
        (omega (arith, v.pauses, total-set slow_weight s.live k (some (of index false)) here))

  -- The slot of a dropped observation is free.
  dropped-Observed :
      (b : Bool) (c' : Controller)
      → get_elem? s.live k ≡ some (some (of index b))
      → (bytes : ℕ)
      → c'.slots ≡ set s.controller.slots index (record { start_ns = 0; bytes = bytes })
      → c'.pause_holders ≡ total slow_weight (set s.live k none) % 2 ^ 64
      → Observed (record { controller = c'; live = set s.live k none })
  dropped-Observed b c' here bytes slots pauses =
      let (old, there) = v.inside k (of index b) here in
      record {
        pauses = pauses;
        places = λ j slot at.
            elim (get-set_cases s.controller.slots index j (record { start_ns = 0; bytes = bytes })
              there (ap (λ l. get_elem? l j) (sym slots) ∙ at)) [
                | inl (same, is) ↦
                    let one : taken old ≤ 1 = taken_le old in
                    omega (
                      arith,
                      total-set (owns j) s.live k none here,
                      v.places j old (ap (get_elem? s.controller.slots) (sym same) ∙ there),
                      weight-le-total (owns j) s.live k here,
                      hit_same index j same,
                      one,
                      ap taken is,
                    )
                | inr (other, before) ↦ omega (
                  arith,
                  total-set (owns j) s.live k none here,
                  v.places j slot before,
                  hit_other index j other,
                )
              ];
        inside = λ j q at. elim (get-set_cases s.live k j none here at) [
          | inl (_, is) ↦ absurd (none-ne-some _ (sym is))
          | inr (_, before) ↦
              let (slot, there') = v.inside j q before in
              let (u, now) =
                get_of_written s.controller.slots index q.index
                  (record { start_ns = 0; bytes = bytes }) slot there' in
              (u, ap (λ l. get_elem? l q.index) slots ∙ now)
        ];
      }

  pub drop-Observed :
      (b succeeded : Bool)
      → get_elem? s.live k ≡ some (some (of index b))
      → Observed (record {
        controller = drop_observation s.controller (of index b) succeeded;
        live = set s.live k none;
      })
  unfolding drop_observation release_pause publish
  drop-Observed true true here =
      dropped-Observed true _ here _ refl
        (omega (arith, v.pauses, total-set slow_weight s.live k none here))
  drop-Observed true false here =
      dropped-Observed true _ here _ refl
        (omega (arith, v.pauses, total-set slow_weight s.live k none here))
  drop-Observed false true here =
      dropped-Observed false _ here _ refl
        (omega (arith, v.pauses, total-set slow_weight s.live k none here))
  drop-Observed false false here =
      dropped-Observed false _ here _ refl
        (omega (arith, v.pauses, total-set slow_weight s.live k none here))

-- A new observation takes a free slot.
pub observe-Observed :
    (s : Observing) (now bytes : ℕ)
    → Observed s
    → Observed (started_by s.live (observe_io s.controller now bytes))
unfolding observe_io
observe-Observed s now bytes v = elim (Option-cases (free_slot s.controller.slots 0)) [
  | inl full ↦
      rw (full, observe_io)
        (record {
          pauses = omega (arith, v.pauses, total-snoc slow_weight s.live none);
          places = λ j slot at. omega (arith, v.places j slot at, total-snoc (owns j) s.live none);
          inside = λ k o at. elim (get-snoc_cases s.live none (some o) k at) [
            | inl old ↦ v.inside k o old
            | inr is ↦ absurd (none-ne-some _ is)
          ];
        })
  | inr (index, found) ↦
      let (k0, is, (old, there, unused)) = free_slot-free s.controller.slots 0 index found in
      let here : get_elem? s.controller.slots index ≡ some old =
        ap (get_elem? s.controller.slots) (omega (arith, is)) ∙ there in
      let new : ObservedSlot = record { start_ns = max now 1; bytes = bytes } in
      rw (found, observe_io)
        (record {
          pauses = omega (arith, v.pauses, total-snoc slow_weight s.live (some (of index false)));
          places = λ j slot at. elim (get-set_cases s.controller.slots index j new here at) [
            | inl (same, now_is) ↦ omega (
              arith,
              total-snoc (owns j) s.live (some (of index false)),
              hit_same index j same,
              v.places j old (ap (get_elem? s.controller.slots) (sym same) ∙ here),
              free_taken old unused,
              ap taken now_is,
              busy_taken now bytes,
            )
            | inr (other, before) ↦ omega (
              arith,
              total-snoc (owns j) s.live (some (of index false)),
              v.places j slot before,
              hit_other index j other,
            )
          ];
          inside = λ k o at. elim (get-snoc_cases s.live (some (of index false)) (some o) k at) [
            | inl before ↦
                let (slot, there') = v.inside k o before in
                get_of_written s.controller.slots index o.index new slot there'
            | inr now_is ↦
                let place : index ≡ o.index =
                  ap (λ (x : Observation). x.index) (some-injective _ _ now_is) in
                (
                  new,
                  ap (get_elem? (set s.controller.slots index new)) (sym place)
                      ∙ get-set_self s.controller.slots index new here,
                )
          ];
        })
]
