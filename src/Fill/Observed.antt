-- ===== src/Fill/Observed.antt =====
-- The slots and the pauses of observations: cache2/src/io/fill_control.rs.
use cache.Base.{
  ℕ, ◌%◌, ◌^◌, ◌≡◌, Bool, Option, none, some, List, [], ◌∷◌, ◌++◌, ◌==◌, if◌then◌else◌, get_elem?,
  set, hit, total,
}
use cache.Fill.Pressure.{
  ObservedSlot, Observation, Controller, stop, set_recovering, try_admit_fill, observe_io,
  note_slow, clear_slow, drop_observation,
}

-- What happens to a controller; an observation is named by its place in the order of their starts.
pub data Action : Type 0 where
  stops : Action
  recovers : Bool → Action
  admits : Action
  observes : ℕ → ℕ → Action
  notes : ℕ → Action
  clears : ℕ → Action
  drops : ℕ → Bool → Action

-- The controller and the observations that were started; none where one was dropped.
pub record Observing : Type 0 where
  pub controller : Controller
  pub live : List (Option Observation)

abbrev pub started_by : List (Option Observation) → Option Observation × Controller → Observing
started_by live (o, c) = record { controller = c; live = live ++ o ∷ [] }

abbrev pub kept_at : List (Option Observation) → ℕ → Observation × Controller → Observing
kept_at live k (o, c) = record { controller = c; live = set live k (some o) }

abbrev pub on_live :
    Observing → ℕ → (Observation → Observing) → Option (Option Observation) → Observing
on_live s k f none = s
on_live s k f (some none) = s
on_live s k f (some (some o)) = f o

unfoldable pub act : Observing → Action → Observing
act s stops = record s { controller = stop s.controller }
act s (recovers b) = record s { controller = set_recovering s.controller b }
act s admits = record s { controller = (try_admit_fill s.controller).1 }
act s (observes now bytes) = started_by s.live (observe_io s.controller now bytes)
act s (notes k) =
    on_live s k (λ o. kept_at s.live k (note_slow s.controller o)) (get_elem? s.live k)
act s (clears k) =
    on_live s k (λ o. kept_at s.live k (clear_slow s.controller o)) (get_elem? s.live k)
act s (drops k succeeded) =
    on_live s k
      (λ o. record {
        controller = drop_observation s.controller o succeeded;
        live = set s.live k none;
      })
      (get_elem? s.live k)

unfoldable pub act_all : Observing → List Action → Observing
act_all s [] = s
act_all s (a ∷ rest) = act_all (act s a) rest

abbrev pub slow_weight : Option Observation → ℕ
slow_weight none = 0
slow_weight (some o) = if o.slow then 1 else 0

-- 1 where the observation has the slot.
abbrev pub owns : ℕ → Option Observation → ℕ
owns j none = 0
owns j (some o) = hit j o.index

abbrev pub taken : ObservedSlot → ℕ
taken s = if s.start_ns == 0 then 0 else 1

-- A pause is held for each slow observation, and a slot is taken where an observation has it.
pub record Observed (s : Observing) : Type 0 where
  pub pauses : s.controller.pause_holders ≡ total slow_weight s.live % 2 ^ 64
  pub places :
      (j : ℕ) (slot : ObservedSlot)
      → get_elem? s.controller.slots j ≡ some slot
      → total (owns j) s.live ≡ taken slot
  pub inside :
      (k : ℕ) (o : Observation)
      → get_elem? s.live k ≡ some (some o)
      → (slot : ObservedSlot) × (get_elem? s.controller.slots o.index ≡ some slot)
