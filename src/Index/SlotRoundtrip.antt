-- ===== src/Index/SlotRoundtrip.antt =====
-- The fields of a slot that was written and read: cache2/src/region/index/storage/mod.rs, `IndexSlot`.
use Prim.Native.Nat.{bit_and, bit_or}
use mathlib.Core.Option.{some-injective, none-ne-some}
use native.Mathlib.Nat.{pow-le-pow_right}
use cache.Base.{
  ℕ, ◌+◌, ◌-◌, ◌*◌, ◌/◌, ◌%◌, ◌^◌, ◌≤◌, ◌<◌, ◌≡◌, ap, ◌∙◌, false, Bool-cases, some, inl, inr, arith,
  leb, ltb, ◌==◌, ◌!=◌,
}
use cache.Bits.{◌>>>◌, ◌<<<◌, bit_and-mask, bit_or-shifted}
use cache.Packed.Location.{
  PackedLocation, new_location, location_region, location_offset, location_len, max_record_len,
  new_location-accessors, Packable-new_location,
}
use cache.Packed.SizeClass.{
  div_ceil, class_units, log_bound, record_size_class, record_size_class_upper_bound,
  index_size_class,
}
use cache.Packed.Rounding.{record_size_class-upper_bound}
use cache.Index.Slot.{value, word_of, with_class, from_state, located, with_len, runtime_state}

word_sum :
    (r o c f d : ℕ)
    → r < 2 ^ 20
    → o < 2 ^ 20
    → c < 2 ^ 8
    → f < 2 ^ 14
    → d < 2 ^ 2
    → word_of r o c f d ≡ r + o * 2 ^ 20 + c * 2 ^ 40 + f * 2 ^ 48 + d * 2 ^ 62
unfolding word_of
word_sum r o c f d hr ho hc hf hd =
    let e1 : bit_or r (o <<< 20) ≡ r + (o <<< 20) = bit_or-shifted 20 r o hr in
    let e2 : bit_or (r + (o <<< 20)) (c <<< 40) ≡ r + (o <<< 20) + (c <<< 40) =
      bit_or-shifted 40 (r + (o <<< 20)) c (omega (arith, hr, ho)) in
    let e3 : bit_or (r + (o <<< 20) + (c <<< 40)) (f <<< 48)
        ≡ r + (o <<< 20) + (c <<< 40) + (f <<< 48) =
      bit_or-shifted 48 (r + (o <<< 20) + (c <<< 40)) f (omega (arith, hr, ho, hc)) in
    let e4 : bit_or (r + (o <<< 20) + (c <<< 40) + (f <<< 48)) (d <<< 62)
        ≡ r + (o <<< 20) + (c <<< 40) + (f <<< 48) + (d <<< 62) =
      bit_or-shifted 62 (r + (o <<< 20) + (c <<< 40) + (f <<< 48)) d
        (omega (arith, hr, ho, hc, hf)) in
    let mf : bit_and f (2 ^ 14 - 1) ≡ f = bit_and-mask 14 f ∙ omega (arith, hf) in
    let md : bit_and d (2 ^ 2 - 1) ≡ d = bit_and-mask 2 d ∙ omega (arith, hd) in
    ap
      (λ k.
        bit_or (bit_or (bit_or (bit_or r (o <<< 20)) (c <<< 40)) (k <<< 48))
          (bit_and d (2 ^ 2 - 1) <<< 62))
      mf
    ∙ ap (λ k. bit_or (bit_or (bit_or (bit_or r (o <<< 20)) (c <<< 40)) (f <<< 48)) (k <<< 62)) md
    ∙ ap (λ k. bit_or (bit_or (bit_or k (c <<< 40)) (f <<< 48)) (d <<< 62)) e1
    ∙ ap (λ k. bit_or (bit_or k (f <<< 48)) (d <<< 62)) e2
    ∙ ap (λ k. bit_or k (d <<< 62)) e3
    ∙ e4

not_zero : (e : ℕ) → 0 < e → (e == 0) ≡ false
not_zero e h = ground arith

-- The fields of a word.
module _ (r o c f d e : ℕ) (hr : r < 2 ^ 20) (ho : o < 2 ^ 20) (hc : c < 2 ^ 8) (hf : f < 2 ^ 14)
    (hd : d < 2 ^ 2) (is : e ≡ r + o * 2 ^ 20 + c * 2 ^ 40 + f * 2 ^ 48 + d * 2 ^ 62) where
  field_region : bit_and (e >>> 0) (2 ^ 20 - 1) ≡ r
  field_region = bit_and-mask 20 (e >>> 0) ∙ omega (arith, is, hr)

  field_offset : bit_and (e >>> 20) (2 ^ 20 - 1) ≡ o
  field_offset = bit_and-mask 20 (e >>> 20) ∙ omega (arith, is, hr, ho)

  field_class : bit_and (e >>> 40) (2 ^ 8 - 1) ≡ c
  field_class = bit_and-mask 8 (e >>> 40) ∙ omega (arith, is, hr, ho, hc)

  field_fingerprint : bit_and (e >>> 48) (2 ^ 14 - 1) ≡ f
  field_fingerprint = bit_and-mask 14 (e >>> 48) ∙ omega (arith, is, hr, ho, hc, hf)

  field_displacement : bit_and (e >>> 62) (2 ^ 2 - 1) ≡ d
  field_displacement = bit_and-mask 2 (e >>> 62) ∙ omega (arith, is, hr, ho, hc, hf, hd)

  read_word :
      (u : ℕ) (l : PackedLocation)
      → 0 < c
      → record_size_class_upper_bound c ≡ some u
      → new_location r (o * 32) u ≡ inr l
      → runtime_state e ≡ inr (value f d l)
  unfolding runtime_state
  read_word u l some_class bound made =
      let nonzero : (e == 0) ≡ false = not_zero e (omega (arith, is, some_class)) in
      rw nonzero (
        ap (with_len e) (ap record_size_class_upper_bound field_class ∙ bound)
        ∙ ap
            (λ k. located k (bit_and (e >>> 62) (2 ^ 2 - 1)) (
              new_location (bit_and (e >>> 0) (2 ^ 20 - 1)) (bit_and (e >>> 20) (2 ^ 20 - 1) * 32)
                u))
            field_fingerprint
        ∙ ap
            (λ k. located f k (
              new_location (bit_and (e >>> 0) (2 ^ 20 - 1)) (bit_and (e >>> 20) (2 ^ 20 - 1) * 32)
                u))
            field_displacement
        ∙ ap (λ k. located f d (new_location k (bit_and (e >>> 20) (2 ^ 20 - 1) * 32) u))
            field_region
        ∙ ap (λ k. located f d (new_location r (k * 32) u)) field_offset
        ∙ ap (located f d) made)

-- A class fits a byte, and its bound fits a location.
class_byte : (n c : ℕ) → record_size_class n ≡ some c → c ≤ 255
unfolding record_size_class
class_byte n c h = ground arith

part_le : (q base : ℕ) → q < 15 → div_ceil ((q + 1) * base) 15 ≤ base
part_le q base few =
    let split : 14 ≡ q + (14 - q) = omega (arith, few) in
    let wide : 14 * base ≡ (q + (14 - q)) * base = ap (λ k. k * base) split in grind (arith, wide)

two_positive : 0 < 2
two_positive = omega arith

log_bound_le : (ordinal : ℕ) → ordinal ≤ 209 → log_bound ordinal ≤ 2 ^ 20
log_bound_le ordinal h =
    let e : ℕ = 6 + ordinal / 15 in
    let e_le : e ≤ 19 = omega (arith, h) in
    let low : 2 ^ e ≤ 2 ^ 19 = pow-le-pow_right two_positive e_le in
    let part : div_ceil ((ordinal % 15 + 1) * 2 ^ e) 15 ≤ 2 ^ e =
      part_le (ordinal % 15) (2 ^ e) (omega arith) in
    omega (arith, low, part)

class_units_le : (c : ℕ) → c ≤ 255 → class_units c ≤ 2 ^ 20
unfolding class_units
class_units_le c h = elim (Bool-cases (leb c 32)) [
  | inl exact ↦ rw exact (ground (arith, exact))
  | inr above ↦ elim (Bool-cases (ltb c 46)) [
    | inl middle ↦ rw (above, middle) (ground (arith, middle))
    | inr high ↦ rw (above, high) (log_bound_le (c - 46) (omega (arith, h)))
  ]
]

no_units : (k : ℕ) → k ≡ 0 → class_units k ≡ 0
unfolding class_units
no_units k z = ground arith

bound_facts :
    (c u : ℕ)
    → c ≤ 255
    → record_size_class_upper_bound c ≡ some u
    → (u ≤ max_record_len) × (0 < u) × (u % 32 ≡ 0) × (0 < c)
unfolding record_size_class_upper_bound
bound_facts c u byte h = elim (Bool-cases (class_units c * 32 != 0)) [
  | inl some_units ↦
      let is : class_units c * 32 ≡ u = some-injective _ _ (rw some_units at h) in
      (
        omega (arith, is, class_units_le c byte),
        ground (arith, is, some_units),
        omega (arith, is),
        ground (arith, some_units, no_units c),
      )
  | inr none_there ↦ absurd (none-ne-some _ (rw none_there at h))
]

-- A slot whose word was made from a fingerprint of 14 bits, a displacement of 2 bits and the location of
-- a record reads back as these, with the same Region and offset and a length that is not below the
-- record's and less than 7 % above it.
pub runtime_state-from_state :
    (r o n fingerprint displacement : ℕ) (l : PackedLocation)
    → new_location r o n ≡ inr l
    → fingerprint < 2 ^ 14
    → displacement < 2 ^ 2
    → (encoded u : ℕ) × (l' : PackedLocation) × (from_state (value fingerprint displacement l)
        ≡ some encoded)
      × (runtime_state encoded ≡ inr (value fingerprint displacement l'))
      × (location_region l' ≡ r)
      × (location_offset l' ≡ o)
      × (location_len l' ≡ u)
      × (n ≤ u)
      × (u * 100 < n * 107)
unfolding from_state index_size_class
runtime_state-from_state r o n fingerprint displacement l made hf hd =
    let (fits, region, offset, len, _) = new_location-accessors r o n l made in
    let (c, u, class, bound, up, close) =
      record_size_class-upper_bound n fits.nonempty fits.len_aligned fits.len_fits in
    let byte : c ≤ 255 = class_byte n c class in
    let (u_fits, u_positive, u_aligned, c_positive) = bound_facts c u byte bound in
    let (l', made') = Packable-new_location r o u (record {
      region_fits = fits.region_fits;
      offset_aligned = fits.offset_aligned;
      offset_fits = fits.offset_fits;
      nonempty = u_positive;
      len_aligned = u_aligned;
      len_fits = u_fits;
    }) in
    let (_, region', offset', len', _) = new_location-accessors r o u l' made' in
    let e : ℕ = word_of r (o / 32) c fingerprint displacement in
    let sum : e ≡ r + o / 32 * 2 ^ 20 + c * 2 ^ 40 + fingerprint * 2 ^ 48 + displacement * 2 ^ 62 =
      word_sum r (o / 32) c fingerprint displacement (omega (arith, fits.region_fits))
        (omega (arith, fits.offset_fits)) (omega (arith, byte)) hf hd in
    let class_l : index_size_class l ≡ some c = ap record_size_class len ∙ class in
    let encoded : from_state (value fingerprint displacement l) ≡ some e =
      ap (with_class fingerprint displacement l) class_l
      ∙ ap (λ k. some (word_of k (location_offset l / 32) c fingerprint displacement)) region
      ∙ ap (λ k. some (word_of r (k / 32) c fingerprint displacement)) offset in
    let whole : o / 32 * 32 ≡ o = omega (arith, fits.offset_aligned) in
    let read : runtime_state e ≡ inr (value fingerprint displacement l') =
      read_word r (o / 32) c fingerprint displacement e (omega (arith, fits.region_fits))
        (omega (arith, fits.offset_fits)) (omega (arith, byte)) hf hd sum u l' c_positive bound
        (ap (λ k. new_location r k u) whole ∙ made') in
    (e, u, l', encoded, read, region', offset', len', up, close)
