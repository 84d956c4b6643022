-- ===== src/Fill/Pressure.antt =====
-- The admission of fills and the observations of I/O: cache2/src/io/fill_control.rs. A method takes
-- effect at once, the times are its arguments, and `usize` and `u64` counters wrap around.
use cache.Base.{
  ℕ, ◌+◌, ◌-◌, ◌%◌, ◌^◌, max, Bool, true, false, not, ◌&&◌, ◌||◌, Option, none, some, List, [], ◌∷◌,
  ◌==◌, ◌!=◌, if◌then◌else◌, get_elem?, set,
}

-- `FillPressure`
pub data Pressure : Type 0 where
  disabled : Pressure
  healthy : Pressure
  paused_fill : Pressure

abbrev pub encode_pressure : Pressure → ℕ
encode_pressure disabled = 0
encode_pressure healthy = 1
encode_pressure paused_fill = 2

abbrev pub decode_pressure : ℕ → Pressure
decode_pressure value = if value == 1 then healthy else if value == 2 then paused_fill else disabled

-- A slot of an observation; free where its start is 0.
pub record ObservedSlot : Type 0 where
  pub start_ns : ℕ
  pub bytes : ℕ

-- `IoObservation`
pub record Observation : Type 0 where
  pub index : ℕ
  pub slow : Bool

-- The fields of `FillController` that these methods use.
pub record Controller : Type 0 where
  pub enforcing : Bool
  pub pressure : ℕ
  pub stopped : Bool
  pub recovering : ℕ
  pub pause_holders : ℕ
  pub rejections : ℕ
  pub would_reject : ℕ
  pub dropped_observations : ℕ
  pub completed_bytes : ℕ
  pub completed_io_operations : ℕ
  pub slots : List ObservedSlot

abbrev pub fetch_add : ℕ → ℕ → ℕ
fetch_add a b = (a + b) % 2 ^ 64

-- `fetch_sub(1)`
abbrev pub fetch_sub_one : ℕ → ℕ
fetch_sub_one a = (a + (2 ^ 64 - 1)) % 2 ^ 64

unfoldable pub paused : Controller → Bool
paused c = c.stopped || c.recovering != 0 || c.pause_holders != 0

-- The log line is left out.
unfoldable pub publish : Controller → Controller
publish c = record c { pressure = encode_pressure (if paused c then paused_fill else healthy) }

unfoldable pub stop : Controller → Controller
stop c = publish (record c { stopped = true })

unfoldable pub set_recovering : Controller → Bool → Controller
set_recovering c true = publish (record c { recovering = fetch_add c.recovering 1 })
set_recovering c false = publish (record c { recovering = c.recovering - 1 })

unfoldable pub hold_pause : Controller → Controller
hold_pause c = publish (record c { pause_holders = fetch_add c.pause_holders 1 })

unfoldable pub release_pause : Controller → Controller
release_pause c = publish (record c { pause_holders = fetch_sub_one c.pause_holders })

abbrev pub suppress_reinsertion : Controller → Bool
suppress_reinsertion c = c.enforcing && paused c

unfoldable pub try_admit_fill : Controller → Bool × Controller
try_admit_fill c =
    if not c.enforcing
    then (true, if paused c then record c { would_reject = fetch_add c.would_reject 1 } else c)
    else if paused c
    then (false, record c { rejections = fetch_add c.rejections 1 })
    else (true, c)

-- The loop of `observe_io`: the first free slot, counted from `index`.
unfoldable pub free_slot : List ObservedSlot → ℕ → Option ℕ
free_slot [] index = none
free_slot (s ∷ rest) index =
    let later : Option ℕ = free_slot rest (index + 1) in
    if s.start_ns == 0 then some index else later

abbrev pub observed : Controller → ℕ → ℕ → Option ℕ → Option Observation × Controller
observed c now bytes none =
    (none, record c { dropped_observations = fetch_add c.dropped_observations 1 })
observed c now bytes (some index) = (
  some (record { index = index; slow = false }),
  record c { slots = set c.slots index (record { start_ns = max now 1; bytes = bytes }) },
)

unfoldable pub observe_io : Controller → ℕ → ℕ → Option Observation × Controller
observe_io c now bytes = observed c now bytes (free_slot c.slots 0)

unfoldable pub note_slow : Controller → Observation → Observation × Controller
note_slow c o = if o.slow then (o, c) else (record o { slow = true }, hold_pause c)

unfoldable pub clear_slow : Controller → Observation → Observation × Controller
clear_slow c o = if o.slow then (record o { slow = false }, release_pause c) else (o, c)

abbrev pub bytes_of : Option ObservedSlot → ℕ
bytes_of none = 0
bytes_of (some s) = s.bytes

-- The slot is in range.
abbrev pub freed : Controller → ℕ → Controller
freed c index = record c {
  slots = set c.slots index (record { start_ns = 0; bytes = bytes_of (get_elem? c.slots index) });
}

abbrev pub completed : Bool → ℕ → Controller → Controller
completed succeeded bytes c =
    if succeeded
    then record c {
      completed_io_operations = fetch_add c.completed_io_operations 1;
      completed_bytes = fetch_add c.completed_bytes bytes;
    }
    else c

-- `drop`, also at the end of `finish`, which marks the success
unfoldable pub drop_observation : Controller → Observation → Bool → Controller
drop_observation c o succeeded =
    let counted : Controller =
      completed succeeded (bytes_of (get_elem? c.slots o.index)) (freed c o.index) in
    if o.slow then release_pause counted else counted
