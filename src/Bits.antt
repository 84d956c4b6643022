-- ===== src/Bits.antt =====
-- The bit operations of Rust's unsigned integers, over the native numbers: masks of low bits, shifts
-- and an `|` of fields that do not overlap.
use Prim.Native.Nat.{bit_and, bit_or, bit_and-bitwise, bit_or-bitwise, digits, bitwise}
use native.Mathlib.Nat.{
  mul-add-mod_self_left, mod-eq_of_lt, mod-add-div, mod-lt, div-div-eq-div-mul,
}
use cache.Base.{
  ℕ, zero, suc, ◌+◌, ◌-◌, ◌*◌, ◌/◌, ◌%◌, ◌^◌, ◌≤◌, ◌<◌, min, max, ◌≡◌, refl, sym, ap, ◌∙◌, arith,
}

infixl 75 ◌>>>◌ ◌<<<◌
abbrev pub ◌>>>◌ : ℕ → ℕ → ℕ
x >>> k = x / 2 ^ k

-- The shift to the left where no bit is lost.
abbrev pub ◌<<<◌ : ℕ → ℕ → ℕ
x <<< k = x * 2 ^ k

-- An operation that works digit by digit. Where the left number has no digits left, `tail` of the
-- right one is the result.
module _ (tail : ℕ → ℕ) (op : ℕ → ℕ → ℕ)
    (tail_step : (y : ℕ) → op 0 (y % 2) + 2 * tail (y / 2) ≡ tail y) where
  -- Any count of digits that covers the left number gives the same result.
  counts_agree :
      (x count y other : ℕ)
      → x ≤ other
      → x ≤ count
      → digits tail op other x y ≡ digits tail op count x y
  counts_agree zero zero y zero h k = refl
  counts_agree zero zero y (suc other) h k = refl
  counts_agree zero (suc count) y zero h k = refl
  counts_agree zero (suc count) y (suc other) h k = refl
  counts_agree (suc x) zero y other h k = absurd (omega arith)
  counts_agree (suc x) (suc count) y zero h k = absurd (omega arith)
  counts_agree (suc x) (suc count) y (suc other) h k =
      let halves : suc x / 2 ≤ other × suc x / 2 ≤ count = (omega arith, omega arith) in
      omega (arith, counts_agree (suc x / 2) count (y / 2) other halves.0 halves.1)

  bitwise-halves :
      (x y : ℕ) → op (x % 2) (y % 2) + 2 * bitwise tail op (x / 2) (y / 2) ≡ bitwise tail op x y
  bitwise-halves zero y = tail_step y
  bitwise-halves (suc x) y =
      let covered : suc x / 2 ≤ x = omega arith in
      omega (arith, counts_agree (suc x / 2) (suc x / 2) (y / 2) x covered (omega arith))

bit_and-halves : (x y : ℕ) → min (x % 2) (y % 2) + 2 * bit_and (x / 2) (y / 2) ≡ bit_and x y
bit_and-halves x y =
    let law : min (x % 2) (y % 2) + 2 * bitwise (λ d. zero) min (x / 2) (y / 2)
        ≡ bitwise (λ d. zero) min x y =
      bitwise-halves (λ d. zero) min (λ d. omega arith) x y in
    omega (arith, law, bit_and-bitwise (x / 2) (y / 2), bit_and-bitwise x y)

bit_or-halves : (x y : ℕ) → max (x % 2) (y % 2) + 2 * bit_or (x / 2) (y / 2) ≡ bit_or x y
bit_or-halves x y =
    let law : max (x % 2) (y % 2) + 2 * bitwise (λ d. d) max (x / 2) (y / 2)
        ≡ bitwise (λ d. d) max x y =
      bitwise-halves (λ d. d) max (λ d. omega arith) x y in
    omega (arith, law, bit_or-bitwise (x / 2) (y / 2), bit_or-bitwise x y)

-- No bit is common with zero; `size` bounds the number.
-- The lowest bit of a conjunction and of a disjunction.
pub bit_and-low : (x y : ℕ) → bit_and x y % 2 ≡ min (x % 2) (y % 2)
bit_and-low x y = omega (arith, bit_and-halves x y)

pub bit_or-low : (x y : ℕ) → bit_or x y % 2 ≡ max (x % 2) (y % 2)
bit_or-low x y = omega (arith, bit_or-halves x y)

nothing_common : (size x : ℕ) → x ≤ size → bit_and x 0 ≡ 0
nothing_common zero x h =
    let none_left : x ≡ 0 = omega arith in ap (λ d. bit_and d 0) none_left ∙ bit_and-bitwise 0 0
nothing_common (suc size) zero h = bit_and-bitwise 0 0
nothing_common (suc size) (suc x) h =
    let half : bit_and (suc x / 2) 0 ≡ 0 = nothing_common size (suc x / 2) (omega arith) in
    omega (arith, half, bit_and-halves (suc x) 0)

pub power_positive : (k : ℕ) → 0 < 2 ^ k
power_positive zero = omega arith
power_positive (suc k) = omega (arith, power_positive k)

doubled : (k : ℕ) → 2 ^ suc k ≡ 2 * 2 ^ k
doubled k = omega arith

-- The remainder by a double.
mod-double : (a p : ℕ) → 0 < p → a % (2 * p) ≡ 2 * (a / 2 % p) + a % 2
mod-double a p pos =
    let r : ℕ = 2 * (a / 2 % p) + a % 2 in
    let parts : 2 * p * (a / 2 / p) + r ≡ a = omega (arith, mod-add-div (a / 2) p) in
    let small : r < 2 * p = omega (arith, mod-lt (a / 2) pos) in
    ap (λ n. n % (2 * p)) (sym parts)
    ∙ mul-add-mod_self_left (2 * p) (a / 2 / p) r
    ∙ mod-eq_of_lt small

-- A mask of `k` ones keeps the `k` low bits.
pub bit_and-mask : (k a : ℕ) → bit_and a (2 ^ k - 1) ≡ a % 2 ^ k
bit_and-mask zero a = omega (arith, nothing_common a a (omega arith))
bit_and-mask (suc k) a =
    let p : ℕ = 2 ^ k in
    let pos : 0 < p = power_positive k in
    let half : (2 * p - 1) / 2 ≡ p - 1 = omega arith in
    let odd : (2 * p - 1) % 2 ≡ 1 = omega arith in
    omega (
      arith,
      ap (λ n. bit_and a (n - 1)) (doubled k),
      ap (λ n. a % n) (doubled k),
      bit_and-halves a (2 * p - 1),
      ap (bit_and (a / 2)) half,
      bit_and-mask k (a / 2),
      odd,
      mod-double a p pos,
    )

is_zero : (a : ℕ) → a < 1 → a ≡ 0
is_zero a h = omega arith

-- Fields that do not overlap add up.
pub bit_or-shifted : (k a b : ℕ) → a < 2 ^ k → bit_or a (b <<< k) ≡ a + (b <<< k)
bit_or-shifted zero a b h =
    omega (arith, ap (λ n. bit_or n (b * 1)) (is_zero a h), bit_or-bitwise 0 (b * 1))
bit_or-shifted (suc k) a b h =
    let t : ℕ = b * 2 ^ k in
    let same : b * 2 ^ suc k ≡ 2 * t = omega (arith, ap (λ n. b * n) (doubled k)) in
    let half : 2 * t / 2 ≡ t = omega arith in
    omega (
      arith,
      ap (bit_or a) same,
      bit_or-halves a (2 * t),
      ap (bit_or (a / 2)) half,
      bit_or-shifted k (a / 2) b (omega arith),
    )

-- A mask without the `k` low bits.
pub bit_and-high : (k a m : ℕ) → bit_and a (m <<< k) ≡ (bit_and (a >>> k) m <<< k)
bit_and-high zero a m =
    let whole : a / 1 ≡ a = omega arith in
    let mask : m * 1 ≡ m = omega arith in
    omega (arith, ap (bit_and a) mask, ap (λ n. bit_and n m) whole)
bit_and-high (suc k) a m =
    let t : ℕ = m * 2 ^ k in
    let same : m * 2 ^ suc k ≡ 2 * t = omega (arith, ap (λ n. m * n) (doubled k)) in
    let half : 2 * t / 2 ≡ t = omega arith in
    let shifted : a / 2 / 2 ^ k ≡ a / 2 ^ suc k =
      div-div-eq-div-mul a 2 (2 ^ k) ∙ ap (λ n. a / n) (sym (doubled k)) in
    let field : bit_and (a / 2 ^ suc k) m * 2 ^ suc k ≡ 2 * (bit_and (a / 2 ^ suc k) m * 2 ^ k) =
      omega (arith, ap (λ n. bit_and (a / 2 ^ suc k) m * n) (doubled k)) in
    omega (
      arith,
      ap (bit_and a) same,
      bit_and-halves a (2 * t),
      ap (bit_and (a / 2)) half,
      bit_and-high k (a / 2) m,
      ap (λ n. bit_and n m * 2 ^ k) shifted,
      field,
    )
