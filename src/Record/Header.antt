-- ===== src/Record/Header.antt =====
-- The header of a record: cache2/src/region/record/mod.rs. The checksum of cache2/src/checksum.rs is
-- a third party's, so it is a parameter; it takes the parts whose concatenation it sums up.
use Prim.Native.Nat.{bit_and}
use cache.Base.{
  ℕ, zero, suc, ◌-◌, ◌*◌, ◌%◌, ◌^◌, Bool, true, false, not, ◌&&◌, ◌||◌, Option, none, some, List,
  [], ◌∷◌, leb, ltb, ◌==◌, ◌!=◌, if◌then◌else◌, length, take, replicate,
}
use cache.Manager.State.{record_alignment, u64_max, checked_add, to_u32}
use cache.Record.Codec.{
  ◌>>=◌, get_range, get_u16, get_u32, get_u64, copy_at, put_u16, put_u32, put_u64,
}

abbrev pub header_size : ℕ
header_size = 48

abbrev pub max_key_size : ℕ
max_key_size = 4 * 1024

-- `*b"CRCD"`
abbrev pub header_magic : List ℕ
header_magic = 67 ∷ 82 ∷ 67 ∷ 68 ∷ []

abbrev pub format_version : ℕ
format_version = 1

abbrev pub version_offset : ℕ
version_offset = 4

abbrev pub key_len_offset : ℕ
key_len_offset = 6

abbrev pub value_len_offset : ℕ
value_len_offset = 8

abbrev pub seqno_offset : ℕ
seqno_offset = 12

abbrev pub key_hash_offset : ℕ
key_hash_offset = 20

abbrev pub payload_crc_offset : ℕ
payload_crc_offset = 28

abbrev pub generation_offset : ℕ
generation_offset = 32

abbrev pub len_offset : ℕ
len_offset = 40

abbrev pub crc_offset : ℕ
crc_offset = 44

pub record RecordHeader : Type 0 where
  pub key_len : ℕ
  pub value_len : ℕ
  pub seqno : ℕ
  pub key_hash : ℕ
  pub payload_crc : ℕ
  pub region_generation : ℕ
  pub record_len : ℕ

-- `usize::is_power_of_two`: one of the `n` first powers of two
unfoldable pub is_power_of_two : ℕ → ℕ → Bool
is_power_of_two zero a = false
is_power_of_two (suc n) a = a == 2 ^ n || is_power_of_two n a

-- `rounded & !(alignment - 1)`, where the mask's complement is taken on 64 bits
unfoldable pub checked_align_up : ℕ → ℕ → Option ℕ
checked_align_up value alignment =
    if is_power_of_two 64 alignment
    then elim (checked_add value (alignment - 1)) [
      | none ↦ none
      | some rounded ↦ some (bit_and rounded (u64_max - (alignment - 1)))
    ]
    else none

unfoldable pub aligned_len : ℕ → ℕ → Option ℕ
aligned_len key_len value_len = do
  with_key ← checked_add header_size key_len
  unaligned ← checked_add with_key value_len
  aligned ← checked_align_up unaligned record_alignment
  to_u32 aligned

unfoldable pub has_valid_lengths : RecordHeader → Bool
has_valid_lengths h =
    if ltb max_key_size h.key_len || h.region_generation == 0 || h.seqno == 0
    then false
    else elim (aligned_len h.key_len h.value_len) [
      | none ↦ false
      | some minimum ↦
          leb minimum h.record_len && h.record_len != 0 && h.record_len % record_alignment == 0
    ]

abbrev pub same_bytes : List ℕ → List ℕ → Bool
same_bytes [] [] = true
same_bytes (a ∷ rest) (b ∷ others) = a == b && same_bytes rest others
same_bytes _ _ = false

module _ (crc32c : List (List ℕ) → ℕ) where
  -- Both callers pass a whole header, so that the slice does not panic.
  unfoldable pub header_crc : List ℕ → ℕ
  header_crc header = crc32c (take crc_offset header ∷ replicate 4 0 ∷ [])

  -- `none` stands for a panic.
  unfoldable pub encode : RecordHeader → Option (List ℕ)
  encode h = do
    a ← copy_at (replicate header_size 0) 0 header_magic
    b ← put_u16 a version_offset format_version
    c ← put_u16 b key_len_offset h.key_len
    d ← put_u32 c value_len_offset h.value_len
    e ← put_u64 d seqno_offset h.seqno
    f ← put_u64 e key_hash_offset h.key_hash
    g ← put_u32 f payload_crc_offset h.payload_crc
    i ← put_u64 g generation_offset h.region_generation
    j ← put_u32 i len_offset h.record_len
    put_u32 j crc_offset (header_crc j)

  -- The first condition of `decode`, true where it refuses the input.
  abbrev pub is_refused : List ℕ → Option Bool
  is_refused input = if length input != header_size then some true else do
    magic ← get_range input 0 (length header_magic)
    version ← get_u16 input version_offset
    checksum ← get_u32 input crc_offset
    some (
        not (same_bytes magic header_magic)
        || version != format_version
        || checksum != header_crc input)

  abbrev pub read_fields : List ℕ → Option RecordHeader
  read_fields input = do
    key_len ← get_u16 input key_len_offset
    value_len ← get_u32 input value_len_offset
    seqno ← get_u64 input seqno_offset
    key_hash ← get_u64 input key_hash_offset
    payload_crc ← get_u32 input payload_crc_offset
    region_generation ← get_u64 input generation_offset
    record_len ← get_u32 input len_offset
    some (record {
      key_len = key_len;
      value_len = value_len;
      seqno = seqno;
      key_hash = key_hash;
      payload_crc = payload_crc;
      region_generation = region_generation;
      record_len = record_len;
    })

  unfoldable pub decode : List ℕ → Option RecordHeader
  decode input = do
    refused ← is_refused input
    header ← if refused then none else read_fields input
    if has_valid_lengths header then some header else none
