-- ===== src/Packed/SizeClass.antt =====
-- `record_size_class` and the table of its upper bounds: cache2/src/region/index/packed.rs. The
-- source builds the table once; here its entry for a class is a function of the class.
use cache.Base.{
  ℕ, zero, suc, ◌+◌, ◌-◌, ◌*◌, ◌/◌, ◌%◌, ◌^◌, ◌||◌, Option, none, some, leb, ltb, ◌==◌, ◌!=◌,
  if◌then◌else◌,
}
use cache.Packed.Location.{PackedLocation, location_len, max_record_len}

-- The number of binary digits, of which at most `fuel` are counted.
unfoldable pub digit_count : ℕ → ℕ → ℕ
digit_count zero x = 0
digit_count (suc fuel) x = let rest : ℕ = digit_count fuel (x / 2) in if x == 0 then 0 else suc rest

-- `u32::leading_zeros`
abbrev pub leading_zeros : ℕ → ℕ
leading_zeros x = 32 - digit_count 32 x

-- `u32::div_ceil`
abbrev pub div_ceil : ℕ → ℕ → ℕ
div_ceil a b = (a + (b - 1)) / b

-- `u8::try_from`
abbrev pub to_u8 : ℕ → Option ℕ
to_u8 a = if leb a 255 then some a else none

abbrev pub log_class : ℕ → ℕ → ℕ
log_class units exponent =
    let base : ℕ = 2 ^ exponent in
    46 + (exponent - 6) * 15 + ((units - base - 1) * 15 / base + 1) - 1

unfoldable pub class_of_units : ℕ → ℕ
class_of_units units =
    if leb units 32
    then units
    else if leb units 64
    then 32 + ((units - 32 - 1) * 13 / 32 + 1)
    else log_class units (32 - 1 - leading_zeros (units - 1))

unfoldable pub record_size_class : ℕ → Option ℕ
record_size_class record_len =
    if record_len == 0 || ltb max_record_len record_len || record_len % 32 != 0
    then none
    else to_u8 (class_of_units (record_len / 32))

abbrev pub log_bound : ℕ → ℕ
log_bound ordinal =
    let base : ℕ = 2 ^ (6 + ordinal / 15) in base + div_ceil ((ordinal % 15 + 1) * base) 15

-- The units of a class's upper bound, an entry of `build_record_size_class_upper_bounds`.
unfoldable pub class_units : ℕ → ℕ
class_units class =
    if leb class 32
    then class
    else if ltb class 46
    then 32 + div_ceil ((class - 32) * 32) 13
    else log_bound (class - 46)

unfoldable pub record_size_class_upper_bound : ℕ → Option ℕ
record_size_class_upper_bound class =
    if class_units class * 32 != 0 then some (class_units class * 32) else none

-- `index_size_class`; `none` stands for the panic of its `expect`.
unfoldable pub index_size_class : PackedLocation → Option ℕ
index_size_class l = record_size_class (location_len l)
