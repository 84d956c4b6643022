-- ===== src/Base/Removal.antt =====
-- `Vec::swap_remove`: the last item takes the place of the removed one.
use Prim.Native.Nat.{ℕ, zero, suc, ◌+◌}
use mathlib.Core.Path.{◌≡◌, refl}
use mathlib.Core.List.{List, [], ◌∷◌}
use mathlib.Core.Option.{Option, none, some}
use mathlib.Core.Logic.{◌≢◌, inl, inr}
use native.Mathlib.Omega.{arith}
use cache.Base.Tests.{Option-cases}
use cache.Base.Lists.{length, get_elem?, set, length-set}
use cache.Base.Counts.{total, total-set}

module _ {ℓ} {A : Type ℓ} where
  abbrev pub get_last? : List A → Option A
  get_last? [] = none
  get_last? (x ∷ []) = some x
  get_last? (x ∷ y ∷ xs) = get_last? (y ∷ xs)

  abbrev pub drop_last : List A → List A
  drop_last [] = []
  drop_last (x ∷ []) = []
  drop_last (x ∷ y ∷ xs) = x ∷ drop_last (y ∷ xs)

  -- The caller's index is in range; out of range, where `Vec` panics, only the last item goes.
  unfoldable pub swap_remove : List A → ℕ → List A
  swap_remove xs i = elim (get_last? xs) [ none ↦ xs | some l ↦ drop_last (set xs i l) ]

  set-last : (xs : List A) (i : ℕ) (l : A) → get_last? xs ≡ some l → get_last? (set xs i l) ≡ some l
  set-last [] i l h = h
  set-last (x ∷ []) zero l h = refl
  set-last (x ∷ []) (suc i) l h = h
  set-last (x ∷ y ∷ xs) zero l h = h
  set-last (x ∷ y ∷ xs) (suc zero) l h = set-last (y ∷ xs) zero l h
  set-last (x ∷ y ∷ xs) (suc (suc i)) l h = set-last (y ∷ xs) (suc i) l h

  pub length-drop_last :
      (xs : List A) {l : A} → get_last? xs ≡ some l → length (drop_last xs) + 1 ≡ length xs
  length-drop_last [] h = ground arith
  length-drop_last (x ∷ []) h = omega arith
  length-drop_last (x ∷ y ∷ xs) h = omega (arith, length-drop_last (y ∷ xs) h)

  pub total-drop_last :
      (weight : A → ℕ) (xs : List A) {l : A}
      → get_last? xs ≡ some l
      → total weight (drop_last xs) + weight l ≡ total weight xs
  unfolding total
  total-drop_last weight [] h = ground arith
  total-drop_last weight (x ∷ []) h = ground arith
  total-drop_last weight (x ∷ y ∷ xs) h = omega (arith, total-drop_last weight (y ∷ xs) h)

  last_of_get : (xs : List A) (i : ℕ) {a : A} → get_elem? xs i ≡ some a → get_last? xs ≢ none
  last_of_get [] i h e = ground arith
  last_of_get (x ∷ []) i h e = cc
  last_of_get (x ∷ y ∷ xs) zero h e = last_of_get (y ∷ xs) zero refl e
  last_of_get (x ∷ y ∷ xs) (suc i) h e = last_of_get (y ∷ xs) i h e

  pub length-swap_remove :
      (xs : List A) (i : ℕ) {a : A}
      → get_elem? xs i ≡ some a
      → length (swap_remove xs i) + 1 ≡ length xs
  unfolding swap_remove
  length-swap_remove xs i h = elim (Option-cases (get_last? xs)) [
    | inl e ↦ absurd (last_of_get xs i h e)
    | inr (l, e) ↦
        ground (arith, length-drop_last (set xs i l) (set-last xs i l e), length-set xs i l)
  ]

  pub total-swap_remove :
      (weight : A → ℕ) (xs : List A) (i : ℕ) {a : A}
      → get_elem? xs i ≡ some a
      → total weight (swap_remove xs i) + weight a ≡ total weight xs
  unfolding swap_remove
  total-swap_remove weight xs i h = elim (Option-cases (get_last? xs)) [
    | inl e ↦ absurd (last_of_get xs i h e)
    | inr (l, e) ↦
        ground (
          arith,
          total-drop_last weight (set xs i l) (set-last xs i l e),
          total-set weight xs i l h,
        )
  ]
