-- ===== src/Fill/Rate.antt =====
-- The rate of the flush budget: cache2/src/io/fill_control.rs, over any interleaving of its threads.
use mathlib.Core.Path.{subst}
use cache.Base.{
  ℕ, ◌+◌, ◌*◌, ◌^◌, ◌≤◌, ◌<◌, ◌≡◌, refl, ap, ◌∙◌, Bool, Option-cases, inl, inr, some, List, [], ◌∷◌,
  arith, get_elem?, replicate, total-replicate,
}
use cache.Fill.Credit.{
  Charge, Limits, packed_records, packed_byte_units, pack_credit, burst, packed_records-pack,
  packed_byte_units-pack,
}
use cache.Fill.Threads.{idle, Event, System, no_charge, thread_step, step, run}
use cache.Fill.Budget.{the_records, the_byte_units, pending, Balanced, thread-Balanced}
use cache.Fill.Pace.{Paced, Untimed, thread-Untimed}

-- The whole invariant, of a budget that was made with the limits and the burst.
record Keeps (limits : Limits) (limit : Charge) (s : System) : Type 0 where
  same_limits : s.budget.limits ≡ limits
  same_limit : s.budget.limit ≡ limit
  records_balanced : Balanced the_records s
  units_balanced : Balanced the_byte_units s
  paced : Paced s

module _ (limits : Limits) (limit : Charge) (narrow : limit.byte_units < 2 ^ 32) where
  step-Keeps :
      (s : System) (i : ℕ) (e : Event) → Keeps limits limit s → Keeps limits limit (step s i e)
  unfolding step
  step-Keeps s i e k = elim (Option-cases (get_elem? s.threads i)) [
    | inl missing ↦ rw (missing, step) k
    | inr (t, here) ↦
        let own : s.budget.limit.byte_units < 2 ^ 32 = rw k.same_limit narrow in
        let small : packed_byte_units s.budget.credit < 2 ^ 32 =
          omega (arith, own, k.units_balanced.bounded) in
        let u : Untimed s (thread_step s i t e) = thread-Untimed s i t e in
        rw (here, step)
          (record {
            same_limits = u.limits ∙ k.same_limits;
            same_limit = u.limit ∙ k.same_limit;
            records_balanced =
                thread-Balanced the_records s k.records_balanced own small i t here t e refl;
            units_balanced =
                thread-Balanced the_byte_units s k.units_balanced own small i t here t e refl;
            paced = u.pace k.paced;
          })
  ]

  run-Keeps :
      (events : List (ℕ × Event)) (s : System)
      → Keeps limits limit s
      → Keeps limits limit (run s events)
  unfolding run
  run-Keeps [] s k = k
  run-Keeps ((i, e) ∷ rest) s k = run-Keeps rest (step s i e) (step-Keeps s i e k)

-- A controller that was just made, with its threads.
abbrev pub started : Limits → Charge → Bool → ℕ → System
started limits limit enforcing count = record {
  budget = record {
    limits = limits;
    enforcing = enforcing;
    limit = limit;
    credit = pack_credit limit.records limit.byte_units;
    last_refill_ns = 0;
  };
  threads = replicate count idle;
  granted = no_charge;
  refunded = no_charge;
  refilled = no_charge;
}

started-Keeps :
    (limits : Limits) (limit : Charge) (enforcing : Bool) (count : ℕ)
    → limit.byte_units < 2 ^ 32
    → Keeps limits limit (started limits limit enforcing count)
started-Keeps limits limit enforcing count narrow = record {
  same_limits = refl;
  same_limit = refl;
  records_balanced = record {
    bounded = omega (arith, packed_records-pack limit.records limit.byte_units narrow);
    balance = omega (
      arith,
      packed_records-pack limit.records limit.byte_units narrow,
      total-replicate (pending the_records) count idle refl,
    );
  };
  units_balanced = record {
    bounded = omega (arith, packed_byte_units-pack limit.records limit.byte_units narrow);
    balance = omega (
      arith,
      packed_byte_units-pack limit.records limit.byte_units narrow,
      total-replicate (pending the_byte_units) count idle refl,
    );
  };
  paced = record { few_records = omega arith; few_bytes = omega arith };
}

burst_narrow :
    (limits : Limits) (bytes : ℕ) (limit : Charge)
    → burst limits bytes ≡ some limit
    → limit.byte_units < 2 ^ 32
unfolding burst
burst_narrow limits bytes limit h = ground arith

-- Whatever the threads of a controller do, in any interleaving of their atomic steps, the records and
-- the units of bytes that were granted are at most the burst, what was refunded and what was refilled;
-- the refills are at most what the limits allow for the time of the last one, and the credit left is
-- within the burst.
pub run-paced :
    (limits : Limits) (max_flush_bytes : ℕ) (limit : Charge) (enforcing : Bool) (count : ℕ)
    (events : List (ℕ × Event)) (s : System)
    → burst limits max_flush_bytes ≡ some limit
    → run (started limits limit enforcing count) events ≡ s
    → (s.granted.records ≤ limit.records + s.refunded.records + s.refilled.records)
      × (s.granted.byte_units ≤ limit.byte_units + s.refunded.byte_units + s.refilled.byte_units)
      × (s.refilled.records * 1000000000 ≤ limits.max_records_per_second * s.budget.last_refill_ns)
      × (s.refilled.byte_units * 64 * 1000000000
          ≤ limits.max_bytes_per_second * s.budget.last_refill_ns)
      × (packed_records s.budget.credit ≤ limit.records)
      × (packed_byte_units s.budget.credit ≤ limit.byte_units)
run-paced limits max_flush_bytes limit enforcing count events s made ran =
    let narrow : limit.byte_units < 2 ^ 32 = burst_narrow limits max_flush_bytes limit made in
    let k : Keeps limits limit s = subst (Keeps limits limit) ran (
      run-Keeps limits limit narrow events _ (started-Keeps limits limit enforcing count narrow)) in
    let r : s.budget.limit.records ≡ limit.records = ap (λ (c : Charge). c.records) k.same_limit in
    let u : s.budget.limit.byte_units ≡ limit.byte_units =
      ap (λ (c : Charge). c.byte_units) k.same_limit in
    (
      omega (arith, k.records_balanced.balance, r),
      omega (arith, k.units_balanced.balance, u),
      rw k.same_limits at k.paced.few_records,
      rw k.same_limits at k.paced.few_bytes,
      omega (arith, k.records_balanced.bounded, r),
      omega (arith, k.units_balanced.bounded, u),
    )
