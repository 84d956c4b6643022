-- ===== src/Record/Encode.antt =====
-- The encoding of a value's record into its reservation: cache2/src/region/record/codec.rs.
use cache.Base.{
  ℕ, ◌+◌, ◌-◌, ◌%◌, ◌^◌, Bool, ◌||◌, Option, none, some, ◌⊎◌, inl, inr, List, [], ◌∷◌, ◌++◌, leb,
  ltb, ◌==◌, ◌!=◌, if◌then◌else◌, length, take, replicate,
}
use cache.Manager.State.{record_alignment, checked_add, to_u32, AppendReservation}
use cache.Packed.Location.{LocationError, PackedLocation, max_record_len, new_location}
use cache.Record.Codec.{◌>>=◌, copy_at}
use cache.Record.Header.{RecordHeader, header_size, max_key_size, aligned_len, encode}

pub data EncodeError : Type 0 where
  length_overflow : EncodeError
  key_too_large : EncodeError
  record_too_large : EncodeError
  destination_length_mismatch : ℕ → ℕ → EncodeError
  reservation_too_small : ℕ → ℕ → EncodeError
  invalid_reservation : EncodeError
  invalid_location : LocationError → EncodeError

-- What a call leaves: an error, with the destination as it was, the destination and the index
-- entry's location, or a panic of a range outside the destination.
pub data Encoding : Type 0 where
  failed : EncodeError → Encoding
  written : List ℕ → PackedLocation → Encoding
  panicked : Encoding

unfoldable pub require : {A : Type 0} → Option A → EncodeError → (A → Encoding) → Encoding
require none e k = failed e
require (some a) e k = k a

unfoldable pub refuse : Bool → EncodeError → Encoding → Encoding
refuse b e k = if b then failed e else k

abbrev pub finished : Option (List ℕ) → PackedLocation → Encoding
finished none l = panicked
finished (some bytes) l = written bytes l

-- `u16::try_from`
abbrev pub to_u16 : ℕ → Option ℕ
to_u16 a = if leb a (2 ^ 16 - 1) then some a else none

unfoldable pub location_of : AppendReservation → (PackedLocation → Encoding) → Encoding
location_of t k = elim (new_location t.region_id t.offset t.record_bytes) [
  | inl e ↦ failed (invalid_location e)
  | inr l ↦ k l
]

pub record Payload : Type 0 where
  pub key : List ℕ
  pub value : List ℕ
  pub crc : ℕ

unfoldable pub required_record_bytes : ℕ → ℕ → EncodeError ⊎ ℕ
required_record_bytes key_len value_len =
    if ltb max_key_size key_len then inl key_too_large else elim (aligned_len key_len value_len) [
      | none ↦ inl length_overflow
      | some bytes ↦ if ltb max_record_len bytes then inl record_too_large else inr bytes
    ]

module _ (crc32c : List (List ℕ) → ℕ) where
  abbrev pub new_payload : List ℕ → List ℕ → Payload
  new_payload key value = record { key = key; value = value; crc = crc32c (key ∷ value ∷ []) }

  unfoldable pub validate : List ℕ → List ℕ → ℕ → Option Payload
  validate key value expected =
      if (new_payload key value).crc == expected then some (new_payload key value) else none

  -- The writes: the tail after the payload is cleared, then key, value and header are copied.
  unfoldable pub write_record : List ℕ → RecordHeader → Payload → ℕ → Option (List ℕ)
  write_record destination header p payload_end = do
    let cleared : List ℕ =
        take payload_end destination ++ replicate (length destination - payload_end) 0
    with_key ← copy_at cleared header_size p.key
    with_value ← copy_at with_key (header_size + length p.key) p.value
    bytes ← encode crc32c header
    copy_at with_value 0 bytes

  unfoldable pub encode_with_seqno : List ℕ → AppendReservation → ℕ → ℕ → Payload → ℕ → Encoding
  encode_with_seqno destination t hash required p logical_seqno =
      refuse (length destination != t.record_bytes)
        (destination_length_mismatch t.record_bytes (length destination))
        (refuse (ltb t.record_bytes required) (reservation_too_small required t.record_bytes) (
          refuse
            (t.region_created_seqno == 0
              || ltb t.seqno t.region_created_seqno
              || t.offset % record_alignment != 0)
            invalid_reservation
            (location_of t λ location.
              require (to_u32 (length p.value)) length_overflow λ value_len.
                require (to_u16 (length p.key)) key_too_large λ key_len.
                  require
                    (checked_add header_size (length p.key) >>= λ end.
                      checked_add end (length p.value))
                    length_overflow
                    λ payload_end.
                      refuse (ltb (length destination) payload_end)
                        (reservation_too_small required t.record_bytes)
                        (finished
                          (write_record destination
                            (record {
                              key_len = key_len;
                              value_len = value_len;
                              seqno = logical_seqno;
                              key_hash = hash;
                              payload_crc = p.crc;
                              region_generation = t.region_created_seqno;
                              record_len = t.record_bytes;
                            })
                            p payload_end)
                          location))))

  unfoldable pub encode_value : List ℕ → AppendReservation → ℕ → ℕ → Payload → Encoding
  encode_value destination t hash required p =
      encode_with_seqno destination t hash required p t.seqno

  unfoldable pub encode_reinsert : List ℕ → AppendReservation → ℕ → ℕ → Payload → ℕ → Encoding
  encode_reinsert destination t hash required p logical_seqno =
      refuse (logical_seqno == 0) invalid_reservation
        (encode_with_seqno destination t hash required p logical_seqno)
