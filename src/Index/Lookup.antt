-- ===== src/Index/Lookup.antt =====
-- The candidate slots of a hash and the search of them: cache2/src/region/index/mod.rs. The heat of a
-- found slot and the probe statistics are left out.
use Prim.Native.Nat.{bit_and, bit_xor}
use native.Mathlib.Nat.{mod-lt}
use cache.Base.{
  ℕ, zero, suc, ◌+◌, ◌-◌, ◌*◌, ◌/◌, ◌%◌, ◌^◌, ◌<◌, ◌≡◌, Bool, false, ◌&&◌, ◌||◌, Bool-cases, Option,
  none, some, ◌⊎◌, inl, inr, arith, ltb, leb, ◌==◌, if◌then◌else◌,
}
use cache.Checked.{◌>>=◌}
use cache.Packed.Location.{PackedLocation}
use cache.Hashing.Route.{route_hash}
use cache.Index.Slot.{SlotState, empty, value}

-- `rotate_left` and `rotate_right` on `u64`, for counts between 1 and 63
unfoldable pub rotate_left : ℕ → ℕ → ℕ
rotate_left word count = word * 2 ^ count % 2 ^ 64 + word / 2 ^ (64 - count)

unfoldable pub rotate_right : ℕ → ℕ → ℕ
rotate_right word count = rotate_left word (64 - count)

-- `fingerprint`
unfoldable pub index_fingerprint : ℕ → ℕ
index_fingerprint hash =
    let mixed : ℕ = bit_xor (bit_xor hash (rotate_left hash 19)) (rotate_right hash 23) in
    bit_and (mixed / 2 ^ 17 % 2 ^ 16) (2 ^ 14 - 1)

-- `CANDIDATE_OFFSETS`; a displacement is below 4.
abbrev pub candidate_offsets : ℕ → ℕ
candidate_offsets zero = 0
candidate_offsets (suc zero) = 23
candidate_offsets (suc (suc zero)) = 61
candidate_offsets _ = 97

unfoldable pub candidate_offset : ℕ → ℕ → ℕ
candidate_offset displacement slot_count =
    if ltb (candidate_offsets displacement) slot_count
    then candidate_offsets displacement
    else candidate_offsets displacement % slot_count

unfoldable pub slot_from_home : ℕ → ℕ → ℕ → ℕ
slot_from_home start displacement slot_count =
    let slot : ℕ = start + candidate_offset displacement slot_count in
    if leb slot_count slot then slot - slot_count else slot

unfoldable pub home_from_slot : ℕ → ℕ → ℕ → ℕ
home_from_slot slot displacement slot_count =
    let offset : ℕ = candidate_offset displacement slot_count in
    if leb offset slot then slot - offset else slot_count - (offset - slot)

unfoldable pub index_home : ℕ → ℕ → ℕ
index_home hash slot_count = route_hash (rotate_left hash 32) slot_count

-- An element of `candidate_slots`
abbrev pub candidate : ℕ → ℕ → ℕ → ℕ
candidate hash slot_count displacement =
    slot_from_home (index_home hash slot_count) displacement slot_count

-- `candidates[..displacement].contains(&slot)`
abbrev pub among_earlier : (ℕ → ℕ) → ℕ → ℕ → Bool
among_earlier candidates zero slot = false
among_earlier candidates (suc d) slot = candidates d == slot || among_earlier candidates d slot

abbrev pub token_matches : SlotState → ℕ → ℕ → Bool
token_matches empty fingerprint displacement = false
token_matches (value current current_displacement location) fingerprint displacement =
    current == fingerprint && current_displacement == displacement

abbrev pub entry_of : SlotState → Option PackedLocation
entry_of empty = none
entry_of (value current displacement location) = some location

module _ {E : Type 0} (slot_state : ℕ → E ⊎ SlotState) where
  -- The loop of `lookup_raw`: `left` displacements are still to be tried.
  unfoldable pub lookup_from : ℕ → ℕ → ℕ → ℕ → E ⊎ Option PackedLocation
  lookup_from hash slot_count zero displacement = inr none
  lookup_from hash slot_count (suc left) displacement =
      let rest : E ⊎ Option PackedLocation = lookup_from hash slot_count left (displacement + 1) in
      let slot : ℕ = candidate hash slot_count displacement in
      if among_earlier (candidate hash slot_count) displacement slot
      then rest
      else (slot_state slot >>= λ state.
          if token_matches state (index_fingerprint hash) displacement
          then inr (entry_of state)
          else rest)

  unfoldable pub lookup_raw : ℕ → ℕ → E ⊎ Option PackedLocation
  lookup_raw hash slot_count = lookup_from hash slot_count 4 0

offset_lt : (d n : ℕ) → 0 < n → candidate_offset d n < n
unfolding candidate_offset
offset_lt d n pos = elim (Bool-cases (ltb (candidate_offsets d) n)) [
  | inl small ↦ rw small (ground (arith, small))
  | inr large ↦ rw large (mod-lt (candidate_offsets d) pos)
]

-- Where the home is one of the slots, its candidate at a displacement is one too, and the home of that
-- candidate at the displacement is that home.
pub home_from_slot-slot_from_home :
    (start d n : ℕ)
    → start < n
    → (slot_from_home start d n < n) × (home_from_slot (slot_from_home start d n) d n ≡ start)
unfolding slot_from_home home_from_slot
home_from_slot-slot_from_home start d n lt =
    let low : candidate_offset d n < n = offset_lt d n (omega (arith, lt)) in
    elim (Bool-cases (leb n (start + candidate_offset d n))) [
      | inl around ↦ rw around (ground (arith, around, low), ground (arith, around, low))
      | inr inside ↦ rw inside (ground (arith, inside, low), ground (arith, inside, low))
    ]
