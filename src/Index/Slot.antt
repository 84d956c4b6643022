-- ===== src/Index/Slot.antt =====
-- The word of an index slot: cache2/src/region/index/storage/mod.rs, `IndexSlot`.
use Prim.Native.Nat.{bit_and, bit_or}
use cache.Base.{ℕ, ◌-◌, ◌*◌, ◌/◌, ◌^◌, Option, none, some, ◌⊎◌, inl, inr, ◌==◌, if◌then◌else◌}
use cache.Bits.{◌>>>◌, ◌<<<◌}
use cache.Packed.Location.{
  LocationError, PackedLocation, new_location, location_region, location_offset,
}
use cache.Packed.SizeClass.{index_size_class, record_size_class_upper_bound}

-- An `IndexEntry` is its location.
pub data SlotState : Type 0 where
  empty : SlotState
  value : ℕ → ℕ → PackedLocation → SlotState

pub data SlotError : Type 0 where
  non_canonical_marker : SlotError
  invalid_location : LocationError → SlotError

-- The fields of the word, from the lowest on.
unfoldable pub word_of : ℕ → ℕ → ℕ → ℕ → ℕ → ℕ
word_of region_id offset_units size_class fingerprint displacement =
    bit_or
      (bit_or (bit_or (bit_or region_id (offset_units <<< 20)) (size_class <<< 40))
        (bit_and fingerprint (2 ^ 14 - 1) <<< 48))
      (bit_and displacement (2 ^ 2 - 1) <<< 62)

abbrev pub with_class : ℕ → ℕ → PackedLocation → Option ℕ → Option ℕ
with_class fingerprint displacement location none = none
with_class fingerprint displacement location (some size_class) = some (
    word_of (location_region location) (location_offset location / 32) size_class fingerprint
      displacement)

-- `none` stands for the panic of `index_size_class`.
unfoldable pub from_state : SlotState → Option ℕ
from_state empty = some 0
from_state (value fingerprint displacement location) =
    with_class fingerprint displacement location (index_size_class location)

abbrev pub located : ℕ → ℕ → LocationError ⊎ PackedLocation → SlotError ⊎ SlotState
located fingerprint displacement (inl e) = inl (invalid_location e)
located fingerprint displacement (inr location) = inr (value fingerprint displacement location)

abbrev pub with_len : ℕ → Option ℕ → SlotError ⊎ SlotState
with_len encoded none = inl non_canonical_marker
with_len encoded (some record_len) =
    located (bit_and (encoded >>> 48) (2 ^ 14 - 1)) (bit_and (encoded >>> 62) (2 ^ 2 - 1)) (
      new_location (bit_and (encoded >>> 0) (2 ^ 20 - 1))
        (bit_and (encoded >>> 20) (2 ^ 20 - 1) * 32) record_len)

unfoldable pub runtime_state : ℕ → SlotError ⊎ SlotState
runtime_state encoded =
    if encoded == 0
    then inr empty
    else with_len encoded (record_size_class_upper_bound (bit_and (encoded >>> 40) (2 ^ 8 - 1)))
