-- ===== src/Fill/Tests.antt =====
-- Two threads that flush: cache2/src/io/fill_control.rs.
use cache.Base.{
  ℕ, ◌+◌, ◌*◌, ◌≤◌, ◌≡◌, refl, true, false, some, List, [], ◌∷◌, total, get_elem?, not, ◌%◌, ◌^◌,
}
use cache.Fill.Credit.{
  Charge, Limits, burst, pack_credit, packed_records, packed_byte_units, demand_of, attempt,
  add_credit, refill_amount,
}
use cache.Fill.Threads.{
  System, Event, acquires, exchanges, refunds, spends, refills, acquire, acquire_round, add_round,
  refund_flush_budget, refill, thread_step, step, run,
}
use cache.Fill.Rate.{started, run-paced}
use cache.Fill.Pressure.{
  Controller, ObservedSlot, paused, publish, stop, hold_pause, release_pause, try_admit_fill,
  suppress_reinsertion, free_slot, observe_io, note_slow, drop_observation,
}
use cache.Fill.Observed.{
  Action, admits, observes, notes, drops, Observing, act, act_all, slow_weight, owns, taken,
}
use cache.Fill.Held.{new_controller, act_all-held}
use cache.Fill.Stopped.{stop-refuses}

abbrev limits : Limits
limits = record { max_bytes_per_second = 64000; max_records_per_second = 100 }

abbrev limit : Charge
limit = record { records = 10; byte_units = 100 }

limit_made : burst limits 4096 ≡ some limit
unfolding burst
limit_made = refl

-- Both threads read the credit before one of them charges; the other one tries again. A charge is
-- refunded, and a refill adds what a second gives.
abbrev events : List (ℕ × Event)
events =
    (0, acquires 640 2 false)
    ∷ (1, acquires 64 1 false)
    ∷ (0, exchanges)
    ∷ (1, exchanges)
    ∷ (1, exchanges)
    ∷ (0, refunds)
    ∷ (1, spends)
    ∷ (1, refills 1000000000)
    ∷ (0, exchanges)
    ∷ (1, exchanges)
    ∷ (1, exchanges)
    ∷ []

granted_both :
    (run (started limits limit true 2) events).granted ≡ record { records = 3; byte_units = 11 }
unfolding run step thread_step acquire acquire_round add_round refund_flush_budget refill demand_of
    attempt add_credit refill_amount pack_credit packed_records packed_byte_units
granted_both = refl

abbrev after : System
after = run (started limits limit true 2) events

run-paced_example :
    (after.granted.records ≤ 10 + after.refunded.records + after.refilled.records)
    × (after.granted.byte_units ≤ 100 + after.refunded.byte_units + after.refilled.byte_units)
    × (after.refilled.records * 1000000000 ≤ 100 * after.budget.last_refill_ns)
    × (after.refilled.byte_units * 64 * 1000000000 ≤ 64000 * after.budget.last_refill_ns)
    × (packed_records after.budget.credit ≤ 10)
    × (packed_byte_units after.budget.credit ≤ 100)
run-paced_example = run-paced limits 4096 limit true 2 events after limit_made refl

-- Two observations; the first is slow, the second is dropped, and its slot is taken again.
abbrev actions : List Action
actions = observes 5 64 ∷ observes 6 128 ∷ notes 0 ∷ admits ∷ drops 1 true ∷ observes 9 32 ∷ []

abbrev watched : Observing
watched = act_all (record { controller = new_controller true 2; live = [] }) actions

watched_counts : watched.controller.rejections ≡ 1
unfolding act_all act paused publish hold_pause release_pause try_admit_fill free_slot observe_io
    note_slow drop_observation
watched_counts = refl

act_all-held_example :
    (watched.controller.pause_holders ≡ total slow_weight watched.live % 2 ^ 64)
    × ((j : ℕ) (slot : ObservedSlot)
        → get_elem? watched.controller.slots j ≡ some slot
        → total (owns j) watched.live ≡ taken slot)
act_all-held_example = act_all-held true 2 actions watched refl

abbrev stopped_later : Controller
stopped_later =
    (act_all (record watched { controller = stop watched.controller }) actions).controller

stop-refuses_example :
    ((try_admit_fill stopped_later).0 ≡ not watched.controller.enforcing)
    × (suppress_reinsertion stopped_later ≡ watched.controller.enforcing)
stop-refuses_example = stop-refuses watched actions stopped_later refl
