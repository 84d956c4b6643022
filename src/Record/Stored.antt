-- ===== src/Record/Stored.antt =====
-- What a record's bytes hold once it is encoded: cache2/src/region/record/codec.rs.
use mathlib.Core.Path.{subst}
use cache.Base.{
  ℕ, ◌+◌, ◌-◌, ◌≤◌, ◌≡◌, refl, sym, ap, ◌∙◌, Bool, true, false, Bool-cases, Option, none, some, ◌⊎◌,
  inl, inr, List, ◌++◌, arith, leb, ltb, ◌!=◌, length, take, drop, replicate, length-append,
  length-take, length-drop, length-replicate,
}
use cache.Manager.State.{u64_max, checked_add, to_u32, AppendReservation}
use cache.Record.Codec.{◌>>=◌, copy_at}
use cache.Record.Header.{RecordHeader, encode}
use cache.Record.Roundtrip.{encoded, encode_lem}
use cache.Packed.Location.{LocationError, PackedLocation, new_location}
use cache.Record.Encode.{
  EncodeError, invalid_location, Payload, Encoding, failed, written, panicked, require, refuse,
  location_of, finished, to_u16, write_record, encode_with_seqno, encode_value,
}
use cache.Record.Splice.{take-drop, append_assoc, parts_copied}

module _ (crc32c : List (List ℕ) → ℕ) where
  -- The bytes written are the header's, the key's, the value's and zeros up to the end of the destination.
  write_record_lem :
      (destination : List ℕ) (h : RecordHeader) (p : Payload)
      → 48 + length p.key + length p.value ≤ length destination
      → write_record crc32c destination h p (48 + length p.key + length p.value)
        ≡ some (
            encoded crc32c h
            ++ p.key
            ++ p.value
            ++ replicate (length destination - (48 + length p.key + length p.value)) 0)
  unfolding write_record
  write_record_lem destination h p room =
      let k : ℕ = length p.key in
      let end : ℕ = 48 + k + length p.value in
      let used : List ℕ = take end destination in
      let a : List ℕ = take 48 used in
      let b : List ℕ = take k (drop 48 used) in
      let c : List ℕ = drop k (drop 48 used) in
      let rest : List ℕ = replicate (length destination - end) 0 in
      let size : length used ≡ end = omega (arith, length-take end destination) in
      let after : length (drop 48 used) ≡ end - 48 = omega (arith, length-drop 48 used) in
      let parts : used ≡ a ++ b ++ c =
        sym (
          append_assoc a b c ∙ ap (λ l. a ++ l) (take-drop k (drop 48 used)) ∙ take-drop 48 used) in
      let copied : List ℕ → Option (List ℕ) = λ l. copy_at (l ++ rest) 48 p.key >>= λ x.
      copy_at x (48 + k) p.value >>= λ y. encode crc32c h >>= λ bytes. copy_at y 0 bytes in
      ap copied parts
      ∙ (rw (encode_lem crc32c h) (
          parts_copied a b c rest p.key p.value (encoded crc32c h)
            (omega (arith, length-take 48 used, size))
            (omega (arith, length-take k (drop 48 used), after))
            (omega (arith, length-drop k (drop 48 used), after)) refl))

refuse-rule :
    (Q : Encoding → Type 0) (b : Bool) (e : EncodeError) (k : Encoding)
    → Q (failed e)
    → (b ≡ false → Q k)
    → Q (refuse b e k)
unfolding refuse
refuse-rule Q true e k bad good = bad
refuse-rule Q false e k bad good = good refl

require-rule :
    {A : Type 0} (Q : Encoding → Type 0) (o : Option A) (e : EncodeError) (k : A → Encoding)
    → Q (failed e)
    → ((a : A) → o ≡ some a → Q (k a))
    → Q (require o e k)
unfolding require
require-rule Q none e k bad good = bad
require-rule Q (some a) e k bad good = good a refl

choice :
    (o : LocationError ⊎ PackedLocation)
    → ((e : LocationError) × (o ≡ inl e)) ⊎ ((l : PackedLocation) × (o ≡ inr l))
choice (inl e) = inl (e, refl)
choice (inr l) = inr (l, refl)

located-rule :
    (Q : Encoding → Type 0) (t : AppendReservation) (k : PackedLocation → Encoding)
    → ((e : LocationError) → Q (failed (invalid_location e)))
    → ((l : PackedLocation) → new_location t.region_id t.offset t.record_bytes ≡ inr l → Q (k l))
    → Q (location_of t k)
unfolding location_of
located-rule Q t k bad good = elim (choice (new_location t.region_id t.offset t.record_bytes)) [
  | inl (e, is) ↦ rw (is, location_of) (bad e)
  | inr (l, is) ↦ rw (is, location_of) (good l is)
]

abbrev header_of : AppendReservation → ℕ → Payload → ℕ → RecordHeader
header_of t hash p seqno = record {
  key_len = length p.key;
  value_len = length p.value;
  seqno = seqno;
  key_hash = hash;
  payload_crc = p.crc;
  region_generation = t.region_created_seqno;
  record_len = t.record_bytes;
}

-- A record fills its reservation with the header, the key, the value and zeros, and its location is
-- the reservation's.
abbrev pub Stored :
    (List (List ℕ) → ℕ) → List ℕ → AppendReservation → ℕ → Payload → ℕ → Encoding → Type 0
Stored crc32c destination t hash p seqno (failed e) = Unit
Stored crc32c destination t hash p seqno panicked = ⊥
Stored crc32c destination t hash p seqno (written bytes l) =
    (bytes
      ≡ encoded crc32c (header_of t hash p seqno)
        ++ p.key
        ++ p.value
        ++ replicate (t.record_bytes - (48 + length p.key + length p.value)) 0)
    × (length bytes ≡ t.record_bytes)
    × (new_location t.region_id t.offset t.record_bytes ≡ inr l)

abbrev image : (List (List ℕ) → ℕ) → AppendReservation → ℕ → Payload → ℕ → ℕ → List ℕ
image crc32c t hash p seqno size =
    encoded crc32c (header_of t hash p seqno)
    ++ p.key
    ++ p.value
    ++ replicate (size - (48 + length p.key + length p.value)) 0

length-image :
    (crc32c : List (List ℕ) → ℕ) (t : AppendReservation) (hash : ℕ) (p : Payload) (seqno size : ℕ)
    → 48 + length p.key + length p.value ≤ size
    → length (image crc32c t hash p seqno size) ≡ size
length-image crc32c t hash p seqno size room =
    let head : List ℕ = encoded crc32c (header_of t hash p seqno) in
    let rest : ℕ = size - (48 + length p.key + length p.value) in
    let is_48 : length head ≡ 48 = refl in
    omega (
      arith,
      is_48,
      length-append (head ++ p.key ++ p.value) (replicate rest 0),
      length-append (head ++ p.key) p.value,
      length-append head p.key,
      length-replicate {A = ℕ} rest 0,
    )

finished-Stored :
    (crc32c : List (List ℕ) → ℕ) (destination : List ℕ) (t : AppendReservation) (hash : ℕ)
    (p : Payload) (seqno key_len value_len end : ℕ) (l : PackedLocation)
    → key_len ≡ length p.key
    → value_len ≡ length p.value
    → end ≡ 48 + length p.key + length p.value
    → end ≤ length destination
    → length destination ≡ t.record_bytes
    → new_location t.region_id t.offset t.record_bytes ≡ inr l
    → Stored crc32c destination t hash p seqno (
        finished
          (write_record crc32c destination
            (record (header_of t hash p seqno) { key_len = key_len; value_len = value_len })
            p
            end)
          l)
finished-Stored crc32c destination t hash p seqno key_len value_len end l key value ends room size
      packed =
    let Q : Encoding → Type 0 = Stored crc32c destination t hash p seqno in
    let fits : 48 + length p.key + length p.value ≤ length destination =
      omega (arith, room, ends) in
    let bytes : write_record crc32c destination (header_of t hash p seqno) p
          (48 + length p.key + length p.value)
        ≡ some (image crc32c t hash p seqno (length destination)) =
      write_record_lem crc32c destination (header_of t hash p seqno) p fits in
    let same : (write_record crc32c destination
          (record (header_of t hash p seqno) { key_len = key_len; value_len = value_len }) p end)
        ≡ some (image crc32c t hash p seqno (length destination)) =
      rw (key, value, ends) bytes in
    subst (λ o. Q (finished o l)) (sym same)
      (
        ap (image crc32c t hash p seqno) size,
        length-image crc32c t hash p seqno (length destination) fits ∙ size,
        packed,
      )

narrowed_16 : (a b : ℕ) → to_u16 a ≡ some b → b ≡ a
narrowed_16 a b h = ground arith

narrowed_32 : (a b : ℕ) → to_u32 a ≡ some b → b ≡ a
narrowed_32 a b h = ground arith

added : (a b c : ℕ) → (checked_add 48 a >>= λ end. checked_add end b) ≡ some c → c ≡ 48 + a + b
added a b c h = elim (Bool-cases (leb (48 + a) u64_max)) [
  | inl near ↦ ground (arith, near, h)
  | inr far ↦ ground (arith, far, h)
]

-- `encode_value_into_hashed` never panics; if it does not fail, the destination holds the record's
-- header, key, value and zeros, as long as the reservation, and the entry is the reservation's location.
pub encode_value-Stored :
    (crc32c : List (List ℕ) → ℕ) (destination : List ℕ) (t : AppendReservation) (hash required : ℕ)
    (p : Payload)
    → Stored crc32c destination t hash p t.seqno (encode_value crc32c destination t hash required p)
unfolding encode_value encode_with_seqno
encode_value-Stored crc32c destination t hash required p =
    let Q : Encoding → Type 0 = Stored crc32c destination t hash p t.seqno in
    refuse-rule Q (length destination != t.record_bytes) _ _ tt λ sized.
      refuse-rule Q _ _ _ tt λ enough. refuse-rule Q _ _ _ tt λ owned.
        located-rule Q t _ (λ e. tt)
          λ l packed. require-rule Q _ _ _ tt λ value_len narrow_value.
            require-rule Q _ _ _ tt λ key_len narrow_key.
              require-rule Q _ _ _ tt λ payload_end total.
                refuse-rule Q (ltb (length destination) payload_end) _ _ tt λ room.
                  finished-Stored crc32c destination t hash p t.seqno key_len value_len payload_end
                    l (narrowed_16 _ _ narrow_key) (narrowed_32 _ _ narrow_value)
                    (added (length p.key) (length p.value) payload_end total) (ground (arith, room))
                    (ground (arith, sized)) packed
