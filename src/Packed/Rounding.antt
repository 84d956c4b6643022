-- ===== src/Packed/Rounding.antt =====
-- What the size class of a length rounds it to: cache2/src/region/index/packed.rs.
use native.Mathlib.Nat.{pow-le-pow_right, mod-add-div, mod-lt, div-lt_iff_lt-mul}
use mathlib.Core.Path.{subst}
use cache.Base.{
  Bool-cases, ap, false, leb→le, ℕ, zero, suc, ◌+◌, ◌-◌, ◌*◌, ◌/◌, ◌%◌, ◌^◌, ◌≤◌, ◌<◌, ◌≡◌, refl,
  sym, ◌∙◌, inl, inr, some, arith, leb, ltb, ◌==◌,
}
use cache.Packed.SizeClass.{
  digit_count, div_ceil, log_class, class_of_units, record_size_class, log_bound, class_units,
  record_size_class_upper_bound, index_size_class,
}
use Prim.Native.Nat.{bit_and}
use cache.Bits.{◌>>>◌, bit_and-mask}
use cache.Packed.Location.{max_record_len, field_mask, PackedLocation, location_len}

digit_count-zero : (fuel x : ℕ) → x ≡ 0 → digit_count fuel x ≡ 0
unfolding digit_count
digit_count-zero zero x h = refl
digit_count-zero (suc fuel) x h = ground arith

-- Enough digits are counted for a number below `2 ^ fuel`.
digit_count_bounds :
    (fuel x : ℕ)
    → 0 < x
    → x < 2 ^ fuel
    → (k : ℕ) × (digit_count fuel x ≡ suc k) × (2 ^ k ≤ x) × (x < 2 * 2 ^ k) × (k < fuel)
unfolding digit_count
digit_count_bounds zero x pos h = absurd (omega arith)
digit_count_bounds (suc fuel) x pos h = elim (Bool-cases (x / 2 == 0)) [
  | inl last ↦ (
    0,
    ground (arith, digit_count-zero fuel (x / 2) (ground arith)),
    omega arith,
    ground arith,
    omega arith,
  )
  | inr more ↦
      let (k, count, low, high, lt) =
        digit_count_bounds fuel (x / 2) (ground arith) (omega arith) in
      (suc k, ground arith, omega arith, omega arith, omega arith)
]

-- A class that rounds its units up by less than a fifteenth.
abbrev Rounds : ℕ → ℕ → Type 0
Rounds units class =
    (0 < class)
    × (class ≤ 255)
    × (units ≤ class_units class)
    × (class_units class * 15 ≤ units * 16)

small_Rounds : (units : ℕ) → 0 < units → units ≤ 64 → Rounds units (class_of_units units)
unfolding class_of_units class_units
small_Rounds units pos h = (ground arith, ground arith, ground arith, ground arith)

above : (n k : ℕ) → k < 46 → leb (46 + n) k ≡ false
above n k h = ground arith

not_below : (n : ℕ) → ltb (46 + n) 46 ≡ false
not_below n = ground arith

class_units_log : (n : ℕ) → class_units (46 + n) ≡ log_bound n
unfolding class_units
class_units_log n = rw (above n 32 (omega arith), not_below n) (ap log_bound (omega arith))

log_bound_lem :
    (e q : ℕ)
    → 6 ≤ e
    → q < 15
    → log_bound ((e - 6) * 15 + q) ≡ 2 ^ e + div_ceil ((q + 1) * 2 ^ e) 15
log_bound_lem e q h few =
    let exponent : 6 + ((e - 6) * 15 + q) / 15 ≡ e = omega arith in
    let step : ((e - 6) * 15 + q) % 15 ≡ q = omega arith in rw (exponent, step) refl

log_Rounds :
    (e units : ℕ)
    → 6 ≤ e
    → e ≤ 19
    → 2 ^ e < units
    → units ≤ 2 * 2 ^ e
    → Rounds units (log_class units e)
unfolding class_units
log_Rounds e units h h' low high =
    let base : ℕ = 2 ^ e in
    let pos : 0 < base = omega arith in
    let d : ℕ = units - base - 1 in
    let q : ℕ = d * 15 / base in
    let part : d * 15 % base + base * q ≡ d * 15 = mod-add-div (d * 15) base in
    let rest : d * 15 % base < base = mod-lt (d * 15) pos in
    let few : q < 15 = (div-lt_iff_lt-mul pos).1 (omega arith) in
    let class : ℕ = 46 + (e - 6) * 15 + q in
    let same : log_class units e ≡ class = omega arith in
    let placed : class ≡ 46 + ((e - 6) * 15 + q) = omega arith in
    let is_log : class_units class ≡ log_bound ((e - 6) * 15 + q) =
      ap class_units placed ∙ class_units_log ((e - 6) * 15 + q) in
    let bound : class_units class ≡ base + div_ceil ((q + 1) * base) 15 =
      is_log ∙ log_bound_lem e q h few in
    subst (Rounds units) (sym same)
      (omega arith, omega arith, omega (arith, bound, part, rest), omega (arith, bound, part, rest))

over : (n k : ℕ) → k < n → leb n k ≡ false
over n k h = ground arith

two_positive : 0 < 2
two_positive = omega arith

power_below : (e k : ℕ) → 2 ^ e < 2 ^ k → e < k
power_below e k h = elim (Bool-cases (leb k e)) [
  | inl le ↦ absurd (omega (arith, h, pow-le-pow_right two_positive (leb→le k e le)))
  | inr gt ↦ ground arith
]

class_of_units_log :
    (units e : ℕ)
    → 64 < units
    → digit_count 32 (units - 1) ≡ suc e
    → e < 32
    → class_of_units units ≡ log_class units e
unfolding class_of_units
class_of_units_log units e h count lt =
    rw (over units 32 (omega arith), over units 64 h) (ap (log_class units) (omega (arith, count)))

class_of_units-Rounds :
    (units : ℕ) → 0 < units → units ≤ 2 ^ 20 → Rounds units (class_of_units units)
class_of_units-Rounds units pos fits = elim (Bool-cases (leb units 64)) [
  | inl small ↦ small_Rounds units pos (leb→le units 64 small)
  | inr large ↦
      let over_64 : 64 < units = ground arith in
      let (e, count, low, high, lt) =
        digit_count_bounds 32 (units - 1) (omega arith) (omega arith) in
      let at_least_6 : 6 ≤ e = omega (arith, power_below 6 (suc e) (omega arith)) in
      let at_most_19 : e ≤ 19 = omega (arith, power_below e 20 (omega arith)) in
      subst (Rounds units) (sym (class_of_units_log units e over_64 count lt))
        (log_Rounds e units at_least_6 at_most_19 (omega arith) (omega arith))
]

-- Every record length that a location can hold has a size class, whose upper bound is not below the
-- length and is less than 7 % above it.
pub record_size_class-upper_bound :
    (n : ℕ)
    → 0 < n
    → n % 32 ≡ 0
    → n ≤ max_record_len
    → (c u : ℕ) × (record_size_class n ≡ some c)
      × (record_size_class_upper_bound c ≡ some u)
      × (n ≤ u)
      × (u * 100 < n * 107)
unfolding record_size_class record_size_class_upper_bound
record_size_class-upper_bound n pos aligned fits =
    let (nonzero, byte, up, close) = class_of_units-Rounds (n / 32) (omega arith) (omega arith) in
    let c : ℕ = class_of_units (n / 32) in
    (c, class_units c * 32, ground arith, ground arith, omega arith, omega arith)

-- The `expect` of `index_size_class` never fails, whatever the word of the location is.
pub index_size_class_total : (l : PackedLocation) → (c : ℕ) × (index_size_class l ≡ some c)
unfolding index_size_class location_len
index_size_class_total l =
    let len : bit_and (l.raw >>> 40) field_mask ≡ (l.raw >>> 40) % 2 ^ 20 =
      bit_and-mask 20 (l.raw >>> 40) in
    let (c, _, found, _, _, _) =
      record_size_class-upper_bound (location_len l) (omega arith) (omega arith)
        (omega (arith, len)) in
    (c, found)
