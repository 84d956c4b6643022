-- ===== src/Base/Counts.antt =====
-- How often a number, or a key taken from an item, stands in a list; what the list updates do to it.
use Prim.Native.Nat.{ℕ, zero, suc, ◌+◌, ◌≤◌, ◌<◌}
use mathlib.Core.Path.{◌≡◌, refl}
use mathlib.Core.List.{List, [], ◌∷◌, ◌++◌}
use mathlib.Core.Option.{some}
use native.Mathlib.Omega.{arith}
use cache.Base.Tests.{◌==◌, if◌then◌else◌}
use cache.Base.Lists.{get_elem?, set, replicate}

-- 1 at the number itself, 0 elsewhere.
abbrev pub hit : ℕ → ℕ → ℕ
hit a b = if a == b then 1 else 0

module _ {ℓ} {A : Type ℓ} (weight : A → ℕ) where
  -- The weights of a list's items, added up.
  unfoldable pub total : List A → ℕ
  total [] = 0
  total (x ∷ xs) = weight x + total xs

  pub total-append : (xs ys : List A) → total (xs ++ ys) ≡ total xs + total ys
  unfolding total
  total-append [] ys = omega arith
  total-append (x ∷ xs) ys = omega (arith, total-append xs ys)

  pub total-snoc : (xs : List A) (y : A) → total (xs ++ y ∷ []) ≡ total xs + weight y
  unfolding total
  total-snoc [] y = omega arith
  total-snoc (x ∷ xs) y = omega (arith, total-snoc xs y)

  pub total-cons : (x : A) (xs : List A) → total (x ∷ xs) ≡ weight x + total xs
  unfolding total
  total-cons x xs = refl

  pub total-set :
      (xs : List A) (i : ℕ) (v : A) {old : A}
      → get_elem? xs i ≡ some old
      → total (set xs i v) + weight old ≡ total xs + weight v
  unfolding total
  total-set [] i v h = ground arith
  total-set (x ∷ xs) zero v h = ground arith
  total-set (x ∷ xs) (suc i) v h = omega (arith, total-set xs i v h)

  pub total-replicate : (n : ℕ) (a : A) → weight a ≡ 0 → total (replicate n a) ≡ 0
  unfolding total
  total-replicate zero a h = refl
  total-replicate (suc n) a h = omega (arith, h, total-replicate n a h)

  pub weight-le-total :
      (xs : List A) (i : ℕ) {a : A} → get_elem? xs i ≡ some a → weight a ≤ total xs
  unfolding total
  weight-le-total [] i h = ground arith
  weight-le-total (x ∷ xs) zero h = ground arith
  weight-le-total (x ∷ xs) (suc i) h = omega (arith, weight-le-total xs i h)

  -- Two items at different places.
  pub weights-le-total :
      (xs : List A) (i j : ℕ) {a b : A}
      → get_elem? xs i ≡ some a
      → get_elem? xs j ≡ some b
      → i < j
      → weight a + weight b ≤ total xs
  unfolding total
  weights-le-total [] i j h k l = ground arith
  weights-le-total (x ∷ xs) zero zero h k l = absurd (omega arith)
  weights-le-total (x ∷ xs) zero (suc j) h k l = ground (arith, weight-le-total xs j k)
  weights-le-total (x ∷ xs) (suc i) zero h k l = absurd (omega arith)
  weights-le-total (x ∷ xs) (suc i) (suc j) h k l =
      omega (arith, weights-le-total xs i j h k (omega arith))
