-- ===== src/Packed/Location.antt =====
-- `PackedLocation`: cache2/src/region/index/packed.rs.
use Prim.Native.Nat.{bit_and, bit_or}
use cache.Bits.{◌>>>◌, ◌<<<◌, bit_and-mask, bit_or-shifted}
use cache.Base.{
  ℕ, ◌+◌, ◌-◌, ◌*◌, ◌/◌, ◌%◌, ◌^◌, ◌≤◌, ◌<◌, ◌≡◌, refl, ap, false, ◌∙◌, ◌⊎◌, inl, inr, arith, ltb,
  ◌==◌, ◌!=◌, if◌then◌else◌,
}

abbrev pub field_mask : ℕ
field_mask = 2 ^ 20 - 1

abbrev pub max_region_id : ℕ
max_region_id = field_mask

abbrev pub max_region_offset : ℕ
max_region_offset = field_mask * 32

abbrev pub max_record_len : ℕ
max_record_len = (field_mask + 1) * 32

pub data LocationError : Type 0 where
  region_out_of_range offset_unaligned offset_out_of_range record_length_zero
        record_length_unaligned record_length_out_of_range :
      LocationError

pub record PackedLocation : Type 0 where
  pub raw : ℕ

unfoldable pub pack : ℕ → ℕ → ℕ → ℕ
pack region_id offset_units record_len_units =
    bit_or (bit_or region_id (offset_units <<< 20)) (record_len_units <<< 40)

-- `PackedLocation::new`
unfoldable pub new_location : ℕ → ℕ → ℕ → LocationError ⊎ PackedLocation
new_location region_id offset record_len =
    if ltb max_region_id region_id
    then inl region_out_of_range
    else if offset % 32 != 0
    then inl offset_unaligned
    else if ltb max_region_offset offset
    then inl offset_out_of_range
    else if record_len == 0
    then inl record_length_zero
    else if record_len % 32 != 0
    then inl record_length_unaligned
    else if ltb max_record_len record_len
    then inl record_length_out_of_range
    else inr (record { raw = pack region_id (offset / 32) (record_len / 32 - 1) })

-- The accessors `region_id`, `offset` and `record_len`.
unfoldable pub location_region : PackedLocation → ℕ
location_region l = bit_and (l.raw >>> 0) field_mask

unfoldable pub location_offset : PackedLocation → ℕ
location_offset l = bit_and (l.raw >>> 20) field_mask * 32

unfoldable pub location_len : PackedLocation → ℕ
location_len l = (bit_and (l.raw >>> 40) field_mask + 1) * 32

pack_sum : (r o n : ℕ) → r < 2 ^ 20 → o < 2 ^ 20 → pack r o n ≡ r + o * 2 ^ 20 + n * 2 ^ 40
unfolding pack
pack_sum r o n hr ho =
    let low : bit_or r (o <<< 20) ≡ r + (o <<< 20) = bit_or-shifted 20 r o hr in
    ap (λ x. bit_or x (n <<< 40)) low ∙ bit_or-shifted 40 (r + (o <<< 20)) n (omega arith)

-- The arguments that can be packed.
pub record Packable (region_id offset record_len : ℕ) : Type 0 where
  pub region_fits : region_id ≤ max_region_id
  pub offset_aligned : offset % 32 ≡ 0
  pub offset_fits : offset ≤ max_region_offset
  pub nonempty : 0 < record_len
  pub len_aligned : record_len % 32 ≡ 0
  pub len_fits : record_len ≤ max_record_len

packed_lem :
    (r o n : ℕ) (l : PackedLocation)
    → new_location r o n ≡ inr l
    → Packable r o n × (l.raw ≡ r + o / 32 * 2 ^ 20 + (n / 32 - 1) * 2 ^ 40)
unfolding new_location
packed_lem r o n l h =
    let fits : Packable r o n = record {
      region_fits = ground arith;
      offset_aligned = ground arith;
      offset_fits = ground arith;
      nonempty = ground arith;
      len_aligned = ground arith;
      len_fits = ground arith;
    } in
    let word : l.raw ≡ pack r (o / 32) (n / 32 - 1) = ground arith in
    (
      fits,
      word
          ∙ pack_sum r (o / 32) (n / 32 - 1) (omega (arith, fits.region_fits))
              (omega (arith, fits.offset_fits)),
    )

-- Whatever `PackedLocation::new` accepts is in range and aligned, and the three accessors give back
-- the three arguments; the word has at most 60 bits.
pub new_location-accessors :
    (r o n : ℕ) (l : PackedLocation)
    → new_location r o n ≡ inr l
    → Packable r o n
      × (location_region l ≡ r)
      × (location_offset l ≡ o)
      × (location_len l ≡ n)
      × (l.raw < 2 ^ 60)
unfolding location_region location_offset location_len
new_location-accessors r o n l h =
    let (fits, word) = packed_lem r o n l h in
    let packable : (r ≤ max_region_id) × (o ≤ max_region_offset) × (n ≤ max_record_len) =
      (fits.region_fits, fits.offset_fits, fits.len_fits) in
    (
      fits,
      omega (arith, word, bit_and-mask 20 (l.raw >>> 0), fits.region_fits),
      omega (
        arith,
        word,
        bit_and-mask 20 (l.raw >>> 20),
        fits.offset_aligned,
        fits.offset_fits,
        fits.region_fits,
      ),
      omega
          (arith, word, bit_and-mask 20 (l.raw >>> 40), fits.len_aligned, fits.nonempty, packable),
      omega (arith, word, packable),
    )

in_range : (a b : ℕ) → a ≤ b → ltb b a ≡ false
in_range a b h = ground arith

positive : (n : ℕ) → 0 < n → (n == 0) ≡ false
positive n h = ground arith

-- Every aligned location in range can be packed.
pub Packable-new_location :
    (r o n : ℕ) → Packable r o n → (l : PackedLocation) × (new_location r o n ≡ inr l)
unfolding new_location
Packable-new_location r o n p = (
  record { raw = pack r (o / 32) (n / 32 - 1) },
  rw
      (
        p.offset_aligned,
        p.len_aligned,
        in_range r max_region_id p.region_fits,
        in_range o max_region_offset p.offset_fits,
        in_range n max_record_len p.len_fits,
        positive n p.nonempty,
      )
      refl,
)
