-- ===== src/Fill/Stopped.antt =====
-- Runs after a stop: cache2/src/io/fill_control.rs.
use mathlib.Core.Path.{subst}
use cache.Base.{
  ℕ, ◌≡◌, inl, inr, refl, Bool, true, false, not, Bool-cases, Option, none, some, List, [], ◌∷◌,
  if◌then◌else◌, get_elem?,
}
use cache.Fill.Pressure.{
  Observation, Controller, paused, publish, stop, set_recovering, hold_pause, release_pause,
  try_admit_fill, suppress_reinsertion, observe_io, observed, free_slot, note_slow, clear_slow,
  drop_observation,
}
use cache.Fill.Observed.{
  Action, stops, recovers, admits, observes, notes, clears, drops, Observing, on_live, act, act_all,
}

-- What holds of both branches holds of the conditional.
either : {A : Type 0} (P : A → Type 0) (b : Bool) (x y : A) → P x → P y → P (if b then x else y)
either P true x y h k = h
either P false x y h k = k

-- A stopped controller, in its mode.
abbrev Stopped : Bool → Controller → Type 0
Stopped enforcing c = (c.stopped ≡ true) × (c.enforcing ≡ enforcing)

module _ (e : Bool) where
  admit-Stopped : (c : Controller) → Stopped e c → Stopped e (try_admit_fill c).1
  unfolding try_admit_fill
  admit-Stopped c v =
      either (λ (r : Bool × Controller). Stopped e r.1) (not c.enforcing) _ _
        (either (Stopped e) (paused c) _ _ v v)
        (either (λ (r : Bool × Controller). Stopped e r.1) (paused c) _ _ v v)

  recover-Stopped : (c : Controller) (b : Bool) → Stopped e c → Stopped e (set_recovering c b)
  unfolding set_recovering publish
  recover-Stopped c true v = v
  recover-Stopped c false v = v

  observe-Stopped :
      (c : Controller) (now bytes : ℕ) → Stopped e c → Stopped e (observe_io c now bytes).1
  unfolding observe_io
  observe-Stopped c now bytes v =
      elim (free_slot c.slots 0) as (λ k. Stopped e (observed c now bytes k).1) [
        | none ↦ v
        | some index ↦ v
      ]

  note-Stopped : (c : Controller) (o : Observation) → Stopped e c → Stopped e (note_slow c o).1
  unfolding note_slow hold_pause publish
  note-Stopped c o v = either (λ (r : Observation × Controller). Stopped e r.1) o.slow _ _ v v

  clear-Stopped : (c : Controller) (o : Observation) → Stopped e c → Stopped e (clear_slow c o).1
  unfolding clear_slow release_pause publish
  clear-Stopped c o v = either (λ (r : Observation × Controller). Stopped e r.1) o.slow _ _ v v

  drop-Stopped :
      (c : Controller) (o : Observation) (succeeded : Bool)
      → Stopped e c
      → Stopped e (drop_observation c o succeeded)
  unfolding drop_observation release_pause publish
  drop-Stopped c o true v = either (Stopped e) o.slow _ _ v v
  drop-Stopped c o false v = either (Stopped e) o.slow _ _ v v

  on_live-Stopped :
      (s : Observing) (k : ℕ) (f : Observation → Observing) (found : Option (Option Observation))
      → Stopped e s.controller
      → ((o : Observation) → Stopped e (f o).controller)
      → Stopped e (on_live s k f found).controller
  on_live-Stopped s k f none v each = v
  on_live-Stopped s k f (some none) v each = v
  on_live-Stopped s k f (some (some o)) v each = each o

  act-Stopped :
      (s : Observing) (a : Action) → Stopped e s.controller → Stopped e (act s a).controller
  unfolding act stop publish
  act-Stopped s stops v = (refl, v.1)
  act-Stopped s (recovers b) v = recover-Stopped s.controller b v
  act-Stopped s admits v = admit-Stopped s.controller v
  act-Stopped s (observes now bytes) v = observe-Stopped s.controller now bytes v
  act-Stopped s (notes k) v =
      on_live-Stopped s k _ (get_elem? s.live k) v (λ o. note-Stopped s.controller o v)
  act-Stopped s (clears k) v =
      on_live-Stopped s k _ (get_elem? s.live k) v (λ o. clear-Stopped s.controller o v)
  act-Stopped s (drops k succeeded) v =
      on_live-Stopped s k _ (get_elem? s.live k) v (λ o. drop-Stopped s.controller o succeeded v)

  act_all-Stopped :
      (actions : List Action) (s : Observing)
      → Stopped e s.controller
      → Stopped e (act_all s actions).controller
  unfolding act_all
  act_all-Stopped [] s v = v
  act_all-Stopped (a ∷ rest) s v = act_all-Stopped rest (act s a) (act-Stopped s a v)

refusal_lem :
    (c : Controller) (e : Bool)
    → Stopped e c
    → ((try_admit_fill c).0 ≡ not e) × (suppress_reinsertion c ≡ e)
unfolding try_admit_fill paused
refusal_lem c e (stopped, mode) = elim (Bool-cases e) [
  | inl strict ↦ rw (mode, strict, stopped) (refl, refl)
  | inr lax ↦ rw (mode, lax) (refl, refl)
]

-- After `stop`, whatever methods are called next, a controller that enforces its limits refuses each fill
-- and suppresses reinsertion, and one that only observes admits each fill and suppresses none.
pub stop-refuses :
    (s : Observing) (actions : List Action) (c : Controller)
    → (act_all (record s { controller = stop s.controller }) actions).controller ≡ c
    → ((try_admit_fill c).0 ≡ not s.controller.enforcing)
      × (suppress_reinsertion c ≡ s.controller.enforcing)
unfolding stop publish
stop-refuses s actions c ran = refusal_lem c s.controller.enforcing (
    subst (Stopped s.controller.enforcing) ran (
      act_all-Stopped s.controller.enforcing actions (record s { controller = stop s.controller })
        (refl, refl)))
