-- ===== src/Eviction/Clock.antt =====
-- The CLOCK policy: cache2/src/memory/eviction.rs. `none` stands for a panic, and a
-- debug assertion that fails is one.
use cache.Base.{
  ℕ, zero, suc, ◌+◌, ◌-◌, Bool, false, not, ◌&&◌, ◌||◌, Option, none, some, List, [], ◌∷◌, ◌++◌,
  ltb, leb, ◌==◌, if◌then◌else◌, get_elem?, set, length, swap_remove,
}
use cache.Manager.State.{to_u32}
use cache.Record.Codec.{◌>>=◌}
use cache.Eviction.Slot.{
  assert, PolicySlot, default_slot, new_clock, is_resident, clock_visited, set_clock_visited,
  maximum_scan_steps,
}

-- `capacity` is the vector's, which `try_reserve_exact` sets.
pub record ClockState : Type 0 where
  pub hand : ℕ
  pub residents : List ℕ
  pub capacity : ℕ

-- The policy and the slots it works on.
pub record Clock : Type 0 where
  pub state : ClockState
  pub slots : List PolicySlot

-- `slots[index] = slot`, which panics out of range
abbrev pub put : List PolicySlot → ℕ → PolicySlot → Option (List PolicySlot)
put slots index slot = if ltb index (length slots) then some (set slots index slot) else none

unfoldable pub insert : Clock → ℕ → ℕ → Bool → Option Clock
insert c index hash visited =
    if ltb (length c.state.residents) (length c.slots)
      && ltb (length c.state.residents) c.state.capacity
    then (do
      position ← to_u32 (length c.state.residents)
      packed_index ← to_u32 index
      slots ← put c.slots index (new_clock hash visited position)
      some (record {
        state = record c.state { residents = c.state.residents ++ packed_index ∷ [] };
        slots = slots;
      }))
    else none

-- The moved resident, if one has taken the removed one's place, learns its new position.
abbrev pub note_moved : List PolicySlot → List ℕ → ℕ → Option (List PolicySlot)
note_moved slots residents position =
    if ltb position (length residents)
    then (do
      moved ← get_elem? residents position
      slot ← get_elem? slots moved
      some (set slots moved (record slot { clock_position = position })))
    else some slots

abbrev pub kept_hand : ℕ → List ℕ → ℕ
kept_hand hand residents = if leb (length residents) hand then 0 else hand

unfoldable pub remove : Clock → ℕ → Option Clock
remove c index = do
  slot ← get_elem? c.slots index
  removed ← get_elem? c.state.residents slot.clock_position
  _ ← assert (removed == index)
  let residents : List ℕ = swap_remove c.state.residents slot.clock_position
  slots ← note_moved c.slots residents slot.clock_position
  cleared ← put slots index default_slot
  some (record {
    state = record c.state { residents = residents; hand = kept_hand c.state.hand residents };
    slots = cleared;
  })

-- What a scan leaves: the victim, the policy, and the steps that remain.
pub record Scan : Type 0 where
  pub victim : Option ℕ
  pub clock : Clock
  pub remaining : ℕ

-- The position under the hand, and the hand after it.
abbrev pub position_of : ClockState → ℕ
position_of s = if ltb s.hand (length s.residents) then s.hand else 0

abbrev pub advanced : ClockState → ClockState
advanced s = record s {
  hand = if position_of s + 1 == length s.residents then 0 else position_of s + 1;
}

abbrev pub passed_over : List PolicySlot → ℕ → PolicySlot → List PolicySlot
passed_over slots index slot =
    if clock_visited slot.flags then set slots index (set_clock_visited slot false) else slots

-- The loop of `select_victim`; `fuel` is the count of its range.
unfoldable pub scan : ℕ → (ℕ → Bool) → Clock → ℕ → Option Scan
scan zero can_reclaim c remaining =
    some (record { victim = none; clock = c; remaining = remaining })
scan (suc fuel) can_reclaim c remaining =
    if length c.state.residents == 0 || remaining == 0
    then some (record { victim = none; clock = c; remaining = remaining })
    else do
      index ← get_elem? c.state.residents (position_of c.state)
      slot ← get_elem? c.slots index
      _ ← assert (is_resident slot.flags)
      let next : Clock = record { state = advanced c.state; slots = passed_over c.slots index slot }
      let rest : Option Scan = scan fuel can_reclaim next (remaining - 1)
      if not (clock_visited slot.flags) && can_reclaim index
          then some (record { victim = some index; clock = next; remaining = remaining - 1 })
          else rest

unfoldable pub select_victim : (ℕ → Bool) → Clock → ℕ → Option Scan
select_victim can_reclaim c remaining =
    scan (maximum_scan_steps (length c.state.residents)) can_reclaim c remaining
