-- ===== src/Record/Tests.antt =====
-- A small record, with a checksum that adds the bytes up in place of CRC32C.
use cache.Base.{
  ℕ, ◌+◌, ◌*◌, ◌/◌, ◌%◌, ◌^◌, ◌≤◌, ◌<◌, ◌≡◌, refl, true, none, some, ◌⊎◌, List, [], ◌∷◌, arith,
  length, replicate,
}
use native.Mathlib.Nat.{mod-lt}
use cache.Manager.State.{u32_max, AppendReservation}
use cache.Record.Header.{
  RecordHeader, checked_align_up, is_power_of_two, aligned_len, has_valid_lengths, encode, decode,
}
use cache.Record.Encode.{new_payload, encode_value}
use cache.Record.Roundtrip.{FieldsFit, decode-encode}
use cache.Record.Alignment.{aligned_len_lem, decode-lengths}
use cache.Record.Stored.{Stored, encode_value-Stored}

sum_all : List ℕ → ℕ
sum_all [] = 0
sum_all (b ∷ bytes) = b + sum_all bytes

sum_parts : List (List ℕ) → ℕ
unfolding sum_all
sum_parts [] = 0
sum_parts (part ∷ parts) = sum_all part + sum_parts parts

abbrev toy_crc : List (List ℕ) → ℕ
toy_crc parts = sum_parts parts % 2 ^ 32

toy_narrow : (parts : List (List ℕ)) → toy_crc parts < 2 ^ 32
toy_narrow parts = mod-lt (sum_parts parts) (omega arith)

abbrev header : RecordHeader
header = record {
  key_len = 3;
  value_len = 300;
  seqno = 7;
  key_hash = 1000;
  payload_crc = 9;
  region_generation = 2;
  record_len = 352;
}

header_fits : FieldsFit header
header_fits = record {
  key_len = omega arith;
  value_len = omega arith;
  seqno = omega arith;
  key_hash = omega arith;
  payload_crc = omega arith;
  region_generation = omega arith;
  record_len = omega arith;
}

header_valid : has_valid_lengths header ≡ true
unfolding has_valid_lengths aligned_len checked_align_up is_power_of_two
header_valid = refl

decode-encode_example :
    (bytes : List ℕ) × (encode toy_crc header ≡ some bytes)
    × (length bytes ≡ 48)
    × (decode toy_crc bytes ≡ some header)
decode-encode_example = decode-encode toy_crc header header_fits header_valid toy_narrow

aligned_len_lem_example :
    ((n : ℕ) × (aligned_len 3 300 ≡ some n)
      × (48 + 3 + 300 ≤ n)
      × (n < 48 + 3 + 300 + 32)
      × (n % 32 ≡ 0)
      × (n ≤ u32_max))
    ⊎ (aligned_len 3 300 ≡ none) × (u32_max < (48 + 3 + 300 + 31) / 32 * 32)
aligned_len_lem_example = aligned_len_lem 3 300

decode-lengths_example : (3 ≤ 4096) × (0 < 7) × (0 < 2) × (48 + 3 + 300 ≤ 352) × (352 % 32 ≡ 0)
decode-lengths_example =
    decode-lengths toy_crc (decode-encode_example.0) header decode-encode_example.3

abbrev slot : AppendReservation
slot = record {
  shard_id = 0;
  region_id = 1;
  region_created_seqno = 2;
  offset = 64;
  record_bytes = 64;
  seqno = 7;
}

encode_value-Stored_example :
    Stored toy_crc (replicate 64 255) slot 1000 (new_payload toy_crc (1 ∷ 2 ∷ []) (3 ∷ [])) 7 (
      encode_value toy_crc
        (replicate 64 255)
        slot
        1000
        64
        (new_payload toy_crc (1 ∷ 2 ∷ []) (3 ∷ [])))
encode_value-Stored_example =
    encode_value-Stored toy_crc (replicate 64 255) slot 1000 64
      (new_payload toy_crc (1 ∷ 2 ∷ []) (3 ∷ []))
