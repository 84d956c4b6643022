-- ===== src/Fill/Held.antt =====
-- Runs of the controller's methods: cache2/src/io/fill_control.rs.
use mathlib.Core.Path.{subst}
use cache.Base.{
  ℕ, zero, suc, ◌%◌, ◌^◌, ◌≡◌, inl, inr, refl, sym, ap, Bool, true, false, Bool-cases, Option, none,
  some, List, [], ◌∷◌, arith, get_elem?, replicate, total,
}
use cache.Fill.Pressure.{
  healthy, encode_pressure, ObservedSlot, Observation, Controller, paused, publish, stop,
  set_recovering, try_admit_fill,
}
use cache.Fill.Observed.{
  Action, stops, recovers, admits, observes, notes, clears, drops, Observing, on_live, act, act_all,
  slow_weight, owns, taken, Observed,
}
use cache.Fill.ObservedKeeps.{
  SameHeld, same-Observed, note-Observed, clear-Observed, drop-Observed, observe-Observed,
}

admit-SameHeld : (c : Controller) → SameHeld c (try_admit_fill c).1
unfolding try_admit_fill paused
admit-SameHeld c = elim (Bool-cases c.enforcing) [
  | inl strict ↦ elim (Bool-cases (paused c)) [
    | inl waits ↦ rw (strict, waits) (refl, refl)
    | inr goes ↦ rw (strict, goes) (refl, refl)
  ]
  | inr lax ↦ elim (Bool-cases (paused c)) [
    | inl waits ↦ rw (lax, waits) (refl, refl)
    | inr goes ↦ rw (lax, goes) (refl, refl)
  ]
]

recover-SameHeld : (c : Controller) (b : Bool) → SameHeld c (set_recovering c b)
unfolding set_recovering publish
recover-SameHeld c true = (refl, refl)
recover-SameHeld c false = (refl, refl)

stop-SameHeld : (c : Controller) → SameHeld c (stop c)
unfolding stop publish
stop-SameHeld c = (refl, refl)

-- A method of one observation, where it is live.
on_live-Observed :
    (s : Observing) (k : ℕ) (f : Observation → Observing) (found : Option (Option Observation))
    → get_elem? s.live k ≡ found
    → Observed s
    → ((o : Observation) → get_elem? s.live k ≡ some (some o) → Observed (f o))
    → Observed (on_live s k f found)
on_live-Observed s k f none at v each = v
on_live-Observed s k f (some none) at v each = v
on_live-Observed s k f (some (some o)) at v each = each o at

act-Observed : (s : Observing) (a : Action) → Observed s → Observed (act s a)
unfolding act
act-Observed s stops v = same-Observed s _ (stop-SameHeld s.controller) v
act-Observed s (recovers b) v = same-Observed s _ (recover-SameHeld s.controller b) v
act-Observed s admits v = same-Observed s _ (admit-SameHeld s.controller) v
act-Observed s (observes now bytes) v = observe-Observed s now bytes v
act-Observed s (notes k) v =
    on_live-Observed s k _ (get_elem? s.live k) refl v
      (λ o at. note-Observed s v k o.index o.slow at)
act-Observed s (clears k) v =
    on_live-Observed s k _ (get_elem? s.live k) refl v
      (λ o at. clear-Observed s v k o.index o.slow at)
act-Observed s (drops k succeeded) v =
    on_live-Observed s k _ (get_elem? s.live k) refl v
      (λ o at. drop-Observed s v k o.index o.slow succeeded at)

act_all-Observed :
    (actions : List Action) (s : Observing) → Observed s → Observed (act_all s actions)
unfolding act_all
act_all-Observed [] s v = v
act_all-Observed (a ∷ rest) s v = act_all-Observed rest (act s a) (act-Observed s a v)

-- `FillController::new`: the fields of these methods, with free slots.
abbrev pub new_controller : Bool → ℕ → Controller
new_controller enforcing count = record {
  enforcing = enforcing;
  pressure = encode_pressure healthy;
  stopped = false;
  recovering = 0;
  pause_holders = 0;
  rejections = 0;
  would_reject = 0;
  dropped_observations = 0;
  completed_bytes = 0;
  completed_io_operations = 0;
  slots = replicate count (record { start_ns = 0; bytes = 0 });
}

free_at :
    (count j : ℕ) (slot : ObservedSlot)
    → get_elem? (replicate count (record { start_ns = 0; bytes = 0 })) j ≡ some slot
    → taken slot ≡ 0
free_at zero j slot h = cc
free_at (suc count) zero slot h =
    ap (λ (k : Option ObservedSlot). elim k [ none ↦ 0 | some x ↦ taken x ]) (sym h)
free_at (suc count) (suc j) slot h = free_at count j slot h

new-Observed :
    (enforcing : Bool) (count : ℕ)
    → Observed (record { controller = new_controller enforcing count; live = [] })
unfolding total
new-Observed enforcing count = record {
  pauses = omega arith;
  places = λ j slot at. sym (free_at count j slot at);
  inside = λ k o at. cc;
}

-- Whatever methods of a new controller and its observations are called, the pauses that are held are as
-- many as the live observations that are marked slow, up to a wrap-around of the counter, and each slot
-- belongs to one live observation where it is taken, and to none where it is free.
pub act_all-held :
    (enforcing : Bool) (count : ℕ) (actions : List Action) (s : Observing)
    → act_all (record { controller = new_controller enforcing count; live = [] }) actions ≡ s
    → (s.controller.pause_holders ≡ total slow_weight s.live % 2 ^ 64)
      × ((j : ℕ) (slot : ObservedSlot)
          → get_elem? s.controller.slots j ≡ some slot
          → total (owns j) s.live ≡ taken slot)
act_all-held enforcing count actions s ran =
    let v : Observed s =
      subst Observed ran (act_all-Observed actions _ (new-Observed enforcing count)) in
    (v.pauses, v.places)
