-- ===== src/Record/Alignment.antt =====
-- What `aligned_len` computes, and what an accepted header promises of its lengths:
-- cache2/src/region/record/mod.rs.
use Prim.Native.Nat.{bit_and}
use cache.Base.{
  leb, Bool-cases, Option-cases, if◌then◌else◌, sym, ℕ, ◌+◌, ◌-◌, ◌*◌, ◌/◌, ◌%◌, ◌^◌, ◌≤◌, ◌<◌, ◌≡◌,
  refl, ap, ◌∙◌, true, false, Option, none, some, List, arith, ◌⊎◌, inl, inr,
}
use mathlib.Core.Option.{some-injective}
use cache.Bits.{bit_and-mask, bit_and-high}
use cache.Manager.State.{u64_max, u32_max, to_u32}
use cache.Record.Codec.{◌>>=◌}
use cache.Record.Header.{
  RecordHeader, checked_align_up, is_power_of_two, aligned_len, has_valid_lengths, read_fields,
  is_refused, decode,
}

within : (a b : ℕ) → a ≤ b → leb a b ≡ true
within a b h = ground arith

outside : (a b : ℕ) → b < a → leb a b ≡ false
outside a b h = ground arith

align_up_32 : (v : ℕ) → v + 31 ≤ u64_max → checked_align_up v 32 ≡ some ((v + 31) / 32 * 32)
unfolding checked_align_up is_power_of_two
align_up_32 v fits =
    let high : bit_and (v + 31) (u64_max - 31) ≡ bit_and ((v + 31) / 32) (2 ^ 59 - 1) * 32 =
      bit_and-high 5 (v + 31) (2 ^ 59 - 1) in
    let low : bit_and ((v + 31) / 32) (2 ^ 59 - 1) ≡ (v + 31) / 32 % 2 ^ 59 =
      bit_and-mask 59 ((v + 31) / 32) in
    rw (within (v + 31) u64_max fits) (ap some (omega (arith, high, low)))

align_up_overflow : (v : ℕ) → u64_max < v + 31 → checked_align_up v 32 ≡ none
unfolding checked_align_up is_power_of_two
align_up_overflow v over = rw (outside (v + 31) u64_max over) refl

aligned_len_fits :
    (k v : ℕ) → 48 + k + v + 31 ≤ u64_max → aligned_len k v ≡ to_u32 ((48 + k + v + 31) / 32 * 32)
unfolding aligned_len
aligned_len_fits k v fits =
    rw (within (48 + k) u64_max (omega arith), within (48 + k + v) u64_max (omega arith))
      (ap (λ o. o >>= to_u32) (align_up_32 (48 + k + v) fits))

aligned_len_overflow : (k v : ℕ) → u64_max < 48 + k + v + 31 → aligned_len k v ≡ none
unfolding aligned_len
aligned_len_overflow k v over = elim (Bool-cases (leb (48 + k) u64_max)) [
  | inr far ↦ rw far refl
  | inl near ↦ elim (Bool-cases (leb (48 + k + v) u64_max)) [
    | inr far ↦ rw (near, far) refl
    | inl close ↦ rw (near, close) (ap (λ o. o >>= to_u32) (align_up_overflow (48 + k + v) over))
  ]
]

-- `aligned_len` is the smallest multiple of 32 that holds the header, the key and the value, where it
-- fits a `u32`; else it is `None`.
pub aligned_len_lem :
    (k v : ℕ)
    → ((n : ℕ) × (aligned_len k v ≡ some n)
        × (48 + k + v ≤ n)
        × (n < 48 + k + v + 32)
        × (n % 32 ≡ 0)
        × (n ≤ u32_max))
      ⊎ (aligned_len k v ≡ none) × (u32_max < (48 + k + v + 31) / 32 * 32)
aligned_len_lem k v =
    let r : ℕ = (48 + k + v + 31) / 32 * 32 in
    elim (Bool-cases (leb (48 + k + v + 31) u64_max)) [
      | inr over ↦ inr (aligned_len_overflow k v (ground arith), ground arith)
      | inl fits ↦
          let is : aligned_len k v ≡ to_u32 r = aligned_len_fits k v (ground arith) in
          elim (Bool-cases (leb r u32_max)) [
            | inl narrow ↦
                inl (r, is ∙ rw narrow refl, omega arith, omega arith, omega arith, ground arith)
            | inr wide ↦ inr (is ∙ rw wide refl, ground arith)
          ]
    ]

bind_some :
    {A B : Type 0} (o : Option A) (f : A → Option B) (b : B)
    → (o >>= f) ≡ some b
    → (a : A) × (o ≡ some a) × (f a ≡ some b)
bind_some none f b h = cc
bind_some (some a) f b h = (a, refl, h)

kept :
    (x h : RecordHeader)
    → (if has_valid_lengths x then some x else none) ≡ some h
    → has_valid_lengths h ≡ true
kept x h keeps = elim (Bool-cases (has_valid_lengths x)) [
  | inl valid ↦ ground (arith, valid, keeps)
  | inr bad ↦ ground (arith, bad, keeps)
]

valid_lengths :
    (h : RecordHeader)
    → has_valid_lengths h ≡ true
    → (h.key_len ≤ 4096)
      × (0 < h.seqno)
      × (0 < h.region_generation)
      × ((n : ℕ) × (aligned_len h.key_len h.value_len ≡ some n) × (n ≤ h.record_len))
      × (h.record_len % 32 ≡ 0)
unfolding has_valid_lengths
valid_lengths h valid = elim (Option-cases (aligned_len h.key_len h.value_len)) [
  | inl none_fits ↦ absurd (ground (arith, none_fits, valid))
  | inr (n, len) ↦ (ground arith, ground arith, ground arith, (n, len, ground arith), ground arith)
]

-- The header that `decode` returns has a key of at most 4096 bytes, nonzero sequence number and
-- generation, and a length that is a multiple of 32 with room for the header, the key and the value.
pub decode-lengths :
    (crc32c : List (List ℕ) → ℕ) (input : List ℕ) (h : RecordHeader)
    → decode crc32c input ≡ some h
    → (h.key_len ≤ 4096)
      × (0 < h.seqno)
      × (0 < h.region_generation)
      × (48 + h.key_len + h.value_len ≤ h.record_len)
      × (h.record_len % 32 ≡ 0)
unfolding decode
decode-lengths crc32c input h accepted =
    let (refused, _, after) = bind_some (is_refused crc32c input) _ h accepted in
    let (x, _, keeps) = bind_some (if refused then none else read_fields crc32c input) _ h after in
    let (key, seqno, generation, (n, len, room), aligned) = valid_lengths h (kept x h keeps) in
    let fits : 48 + h.key_len + h.value_len ≤ n = elim (aligned_len_lem h.key_len h.value_len) [
      | inl (n', len', low, _, _, _) ↦ omega (arith, low, some-injective _ _ (sym len ∙ len'))
      | inr (overflows, _) ↦ absurd (ground (arith, overflows, len))
    ] in
    (key, seqno, generation, omega (arith, fits, room), aligned)
