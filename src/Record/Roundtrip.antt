-- ===== src/Record/Roundtrip.antt =====
-- A header survives the encoding and the decoding: cache2/src/region/record/mod.rs.
use cache.Base.{
  ℕ, ◌^◌, ◌<◌, ◌≡◌, ◌!=◌, if◌then◌else◌, refl, ap, ◌∙◌, true, false, Option, none, some, List, [],
  ◌∷◌, ◌++◌, arith, length, replicate,
}
use cache.Record.Codec.{◌>>=◌, to_le_bytes, from_le_bytes}
use cache.Record.Header.{
  RecordHeader, header_magic, header_crc, has_valid_lengths, encode, is_refused, read_fields,
  decode,
}

-- The fields fit the widths of their types.
pub record FieldsFit (h : RecordHeader) : Type 0 where
  pub key_len : h.key_len < 2 ^ 16
  pub value_len : h.value_len < 2 ^ 32
  pub seqno : h.seqno < 2 ^ 64
  pub key_hash : h.key_hash < 2 ^ 64
  pub payload_crc : h.payload_crc < 2 ^ 32
  pub region_generation : h.region_generation < 2 ^ 64
  pub record_len : h.record_len < 2 ^ 32

u16_back : (v : ℕ) → v < 2 ^ 16 → from_le_bytes (to_le_bytes 2 v) ≡ v
u16_back v h = omega arith

u32_back : (v : ℕ) → v < 2 ^ 32 → from_le_bytes (to_le_bytes 4 v) ≡ v
u32_back v h = omega arith

u64_back : (v : ℕ) → v < 2 ^ 64 → from_le_bytes (to_le_bytes 8 v) ≡ v
u64_back v h = omega arith

abbrev keep : RecordHeader → Option RecordHeader
keep h = if has_valid_lengths h then some h else none

module _ (crc32c : List (List ℕ) → ℕ) where
  abbrev pub covered : RecordHeader → List ℕ
  covered h =
      header_magic
      ++ to_le_bytes 2 1
      ++ to_le_bytes 2 h.key_len
      ++ to_le_bytes 4 h.value_len
      ++ to_le_bytes 8 h.seqno
      ++ to_le_bytes 8 h.key_hash
      ++ to_le_bytes 4 h.payload_crc
      ++ to_le_bytes 8 h.region_generation
      ++ to_le_bytes 4 h.record_len

  abbrev pub checksum : RecordHeader → ℕ
  checksum h = crc32c (covered h ∷ replicate 4 0 ∷ [])

  pub encode_lem :
      (h : RecordHeader) → encode crc32c h ≡ some (covered h ++ to_le_bytes 4 (checksum h))
  unfolding encode header_crc
  encode_lem h = refl

  abbrev pub encoded : RecordHeader → List ℕ
  encoded h = covered h ++ to_le_bytes 4 (checksum h)

  same_checksum : (c : ℕ) → c < 2 ^ 32 → (from_le_bytes (to_le_bytes 4 c) != c) ≡ false
  same_checksum c h = ground (arith, u32_back c h)

  accepted : (h : RecordHeader) → checksum h < 2 ^ 32 → is_refused crc32c (encoded h) ≡ some false
  unfolding header_crc
  accepted h small = ap some (same_checksum (checksum h) small)

  fields_back : (h : RecordHeader) → FieldsFit h → read_fields crc32c (encoded h) ≡ some h
  fields_back h fit = λ i. some (record {
    key_len = u16_back h.key_len fit.key_len i;
    value_len = u32_back h.value_len fit.value_len i;
    seqno = u64_back h.seqno fit.seqno i;
    key_hash = u64_back h.key_hash fit.key_hash i;
    payload_crc = u32_back h.payload_crc fit.payload_crc i;
    region_generation = u64_back h.region_generation fit.region_generation i;
    record_len = u32_back h.record_len fit.record_len i;
  })

  decode_accepted :
      (input : List ℕ) (h : RecordHeader)
      → is_refused crc32c input ≡ some false
      → read_fields crc32c input ≡ some h
      → has_valid_lengths h ≡ true
      → decode crc32c input ≡ some h
  unfolding decode
  decode_accepted input h accept read valid =
      ap (λ o. o >>= λ r. (if r then none else read_fields crc32c input) >>= keep) accept
      ∙ ap (λ o. o >>= keep) read
      ∙ ap (λ b. if b then some h else none) valid

  -- `encode` never panics and returns 48 bytes; `decode` gives back the header, if its fields fit
  -- their types, its lengths are valid and the checksum is a `u32`.
  pub decode-encode :
      (h : RecordHeader)
      → FieldsFit h
      → has_valid_lengths h ≡ true
      → ((parts : List (List ℕ)) → crc32c parts < 2 ^ 32)
      → (bytes : List ℕ) × (encode crc32c h ≡ some bytes)
        × (length bytes ≡ 48)
        × (decode crc32c bytes ≡ some h)
  decode-encode h fit valid narrow = (
    covered h ++ to_le_bytes 4 (checksum h),
    encode_lem h,
    refl,
    decode_accepted (encoded h) h (accepted h (narrow _)) (fields_back h fit) valid,
  )
