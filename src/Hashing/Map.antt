-- ===== src/Hashing/Map.antt =====
-- The directory with a fixed count of slots: cache2/src/hashing.rs. Its values are `u32`, its hashes
-- are `u64`; the allocation of the slots succeeds.
use Prim.Native.Nat.{bit_xor}
use cache.Base.{
  ℕ, zero, suc, ◌+◌, ◌-◌, ◌*◌, ◌/◌, ◌%◌, ◌^◌, min, Bool, not, ◌&&◌, Option, none, some, List, ltb,
  leb, ◌==◌, is_some, if◌then◌else◌, get_elem?, set, length, replicate,
}

abbrev pub empty_value : ℕ
empty_value = 2 ^ 32 - 1

abbrev pub deleted_value : ℕ
deleted_value = 2 ^ 32 - 2

abbrev pub max_probes : ℕ
max_probes = 64

-- `FixedMapSlot`
pub record Slot : Type 0 where
  pub fingerprint : ℕ
  pub value : ℕ

abbrev pub empty_slot : Slot
empty_slot = record { fingerprint = 0; value = empty_value }

-- `FixedPrehashedMap`
pub record PrehashedMap : Type 0 where
  pub slots : List Slot

-- `slots[index]`. The indices below are smaller than the count of slots.
abbrev pub slot_at : List Slot → ℕ → Slot
slot_at slots index = elim (get_elem? slots index) [ none ↦ empty_slot | some s ↦ s ]

-- The slots, or none where their count is no `usize`.
unfoldable pub try_new : ℕ → Option PrehashedMap
try_new maximum_entries =
    if ltb (maximum_entries * 2) (2 ^ 64)
    then some (record { slots = replicate (maximum_entries * 2) empty_slot })
    else none

unfoldable pub rotate_left_13 : ℕ → ℕ
rotate_left_13 word = word * 2 ^ 13 % 2 ^ 32 + word / 2 ^ 19

unfoldable pub fixed_map_fingerprint : ℕ → ℕ
fixed_map_fingerprint hash = bit_xor (rotate_left_13 (hash % 2 ^ 32)) (hash / 2 ^ 32)

-- `fixed_map_fingerprint_start`
unfoldable pub home : ℕ → ℕ → ℕ
home fingerprint slots = (fingerprint * 2654435769 % 2 ^ 32) * slots / 2 ^ 32

unfoldable pub probe_index : ℕ → ℕ → ℕ → ℕ
probe_index start step slots =
    if ltb step (slots - start) then start + step else step - (slots - start)

unfoldable pub next_probe_index : ℕ → ℕ → ℕ
next_probe_index index slots = if index + 1 == slots then 0 else index + 1

unfoldable pub probe_distance : ℕ → ℕ → ℕ → ℕ
probe_distance start index slots =
    if leb start index then index - start else slots - (start - index)

abbrev pub is_empty : Slot → Bool
is_empty s = s.value == empty_value

abbrev pub is_deleted : Slot → Bool
is_deleted s = s.value == deleted_value

abbrev pub is_match : ℕ → Slot → Bool
is_match fingerprint s = not (is_deleted s) && s.fingerprint == fingerprint

-- The loop of `get` and of `remove`: the index of the slot where it finds the fingerprint, if it does.
unfoldable pub search_from : List Slot → ℕ → ℕ → ℕ → ℕ → Option ℕ
search_from slots fingerprint start zero step = none
search_from slots fingerprint start (suc left) step =
    let rest : Option ℕ = search_from slots fingerprint start left (step + 1) in
    let index : ℕ = probe_index start step (length slots) in
    if is_empty (slot_at slots index)
    then none
    else if is_match fingerprint (slot_at slots index)
    then some index
    else rest

unfoldable pub search : List Slot → ℕ → Option ℕ
search slots fingerprint =
    search_from slots fingerprint (home fingerprint (length slots)) (min (length slots) max_probes)
      0

unfoldable pub get : PrehashedMap → ℕ → Option ℕ
get m hash = elim (search m.slots (fixed_map_fingerprint hash)) [
  | none ↦ none
  | some index ↦ some (slot_at m.slots index).value
]

abbrev pub or_index : Option ℕ → ℕ → ℕ
or_index none index = index
or_index (some deleted) index = deleted

abbrev pub unused : Option ℕ → Option (ℕ × Option ℕ)
unused none = none
unused (some deleted) = some (deleted, none)

-- The loop of `find_upsert_slot`, with the first deleted slot that it saw.
unfoldable pub upsert_from : List Slot → ℕ → ℕ → Option ℕ → ℕ → ℕ → Option (ℕ × Option ℕ)
upsert_from slots fingerprint start deleted zero step = unused deleted
upsert_from slots fingerprint start deleted (suc left) step =
    let index : ℕ = probe_index start step (length slots) in
    let seen : Option ℕ =
      if is_deleted (slot_at slots index) then some (or_index deleted index) else deleted in
    let rest : Option (ℕ × Option ℕ) = upsert_from slots fingerprint start seen left (step + 1) in
    if is_empty (slot_at slots index)
    then some (or_index deleted index, none)
    else if is_match fingerprint (slot_at slots index)
    then some (index, some (slot_at slots index).value)
    else rest

unfoldable pub find_upsert_slot : PrehashedMap → ℕ → Option (ℕ × Option ℕ)
find_upsert_slot m hash =
    upsert_from m.slots (fixed_map_fingerprint hash)
      (home (fixed_map_fingerprint hash) (length m.slots)) none (min (length m.slots) max_probes) 0

unfoldable pub can_upsert : PrehashedMap → ℕ → Bool
can_upsert m hash = is_some (find_upsert_slot m hash)

-- The slot `i` takes the fingerprint and the value.
abbrev pub with_entry : List Slot → ℕ → ℕ → ℕ → List Slot
with_entry slots i fingerprint value =
    set slots i (record { fingerprint = fingerprint; value = value })

-- The previous value, and the map; none where nothing was inserted.
unfoldable pub insert : PrehashedMap → ℕ → ℕ → Option (Option ℕ × PrehashedMap)
insert m hash value = elim (find_upsert_slot m hash) [
  | none ↦ none
  | some found ↦
      some
        (found.1, record { slots = with_entry m.slots found.0 (fixed_map_fingerprint hash) value })
]

abbrev pub with_deleted : List Slot → ℕ → List Slot
with_deleted slots i = set slots i (record (slot_at slots i) { value = deleted_value })

-- The candidate at the cursor is nearer to its home at the hole.
abbrev pub fills : List Slot → ℕ → ℕ → Bool
fills slots hole cursor =
    not (is_deleted (slot_at slots cursor))
    && ltb
        (probe_distance (home (slot_at slots cursor).fingerprint (length slots)) hole
          (length slots))
        (probe_distance (home (slot_at slots cursor).fingerprint (length slots)) cursor
          (length slots))

abbrev pub moved : List Slot → ℕ → ℕ → List Slot
moved slots hole cursor =
    set (set slots hole (slot_at slots cursor)) cursor
      (record (slot_at slots cursor) { value = deleted_value })

-- The loop of `compact_deleted`.
unfoldable pub compact_from : List Slot → ℕ → ℕ → ℕ → List Slot
compact_from slots hole cursor zero = slots
compact_from slots hole cursor (suc left) =
    let rest : List Slot =
      compact_from (if fills slots hole cursor then moved slots hole cursor else slots)
        (if fills slots hole cursor then cursor else hole) (next_probe_index cursor (length slots))
        left in
    if is_empty (slot_at slots cursor) then set slots hole empty_slot else rest

unfoldable pub compact_deleted : List Slot → ℕ → List Slot
compact_deleted slots hole =
    compact_from slots hole (next_probe_index hole (length slots))
      (min (length slots - 1) max_probes)

unfoldable pub remove : PrehashedMap → ℕ → Option ℕ × PrehashedMap
remove m hash = elim (search m.slots (fixed_map_fingerprint hash)) [
  | none ↦ (none, m)
  | some index ↦ (
    some (slot_at m.slots index).value,
    record { slots = compact_deleted (with_deleted m.slots index) index },
  )
]
