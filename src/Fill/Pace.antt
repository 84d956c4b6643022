-- ===== src/Fill/Pace.antt =====
-- What a step of a thread does to the limits and to the time of the last refill:
-- cache2/src/io/fill_control.rs.
use cache.Base.{
  ℕ, zero, suc, ◌+◌, ◌-◌, ◌*◌, ◌≤◌, ◌<◌, ◌≡◌, refl, ap, Bool, not, ◌&&◌, ◌||◌, Bool-cases,
  Option-cases, inl, inr, none, some, arith, ◌==◌,
}
use cache.Fill.Credit.{Charge, Demand, attempt, refill_amount, refill_amount-paced}
use cache.Fill.Threads.{
  Thread, idle, acquiring, adding, holding, Event, acquires, exchanges, refunds, spends, refills,
  System, at, acquire, grant, acquire_round, add_round, refund_flush_budget, refill, thread_step,
}

-- The refills are paced by the time of the last one.
pub record Paced (s : System) : Type 0 where
  pub few_records :
      s.refilled.records * 1000000000
      ≤ s.budget.limits.max_records_per_second * s.budget.last_refill_ns
  pub few_bytes :
      s.refilled.byte_units * 64 * 1000000000
      ≤ s.budget.limits.max_bytes_per_second * s.budget.last_refill_ns

-- What a step leaves: the limits, and the time with the refills.
pub record Untimed (s s' : System) : Type 0 where
  pub limits : s'.budget.limits ≡ s.budget.limits
  pub limit : s'.budget.limit ≡ s.budget.limit
  pub pace : Paced s → Paced s'

longer : (rate last now : ℕ) → last < now → rate * now ≡ rate * last + rate * (now - last)
longer rate last now h =
    let split : now ≡ last + (now - last) = omega (arith, h) in
    let wide : rate * now ≡ rate * (last + (now - last)) = ap (λ d. rate * d) split in
    grind (arith, wide)

same_time :
    (s s' : System)
    → s'.budget.limits ≡ s.budget.limits
    → s'.budget.limit ≡ s.budget.limit
    → s'.budget.last_refill_ns ≡ s.budget.last_refill_ns
    → s'.refilled ≡ s.refilled
    → Untimed s s'
same_time s s' a b c d = record {
  limits = a;
  limit = b;
  pace = λ p. record {
    few_records = rw (a, c, d) p.few_records;
    few_bytes = rw (a, c, d) p.few_bytes;
  };
}

module _ (s : System) (i : ℕ) where
  acquire-Untimed :
      (bytes records : ℕ) (essential : Bool) → Untimed s (acquire s i bytes records essential)
  unfolding acquire
  acquire-Untimed bytes records essential = same_time s _ refl refl refl refl

  round-Untimed : (d : Demand) (value left : ℕ) → Untimed s (acquire_round s i d value left)
  unfolding acquire_round
  round-Untimed d value left =
      elim (attempt d value)
        as (λ k.
          Untimed s
            (elim k [ none ↦ at s i idle | some found ↦ grant s i d value left found.0 found.1 ])) [
              | none ↦ same_time s _ refl refl refl refl
              | some found ↦ elim (Bool-cases (s.budget.credit == value)) [
                | inl same ↦ rw same (same_time s _ refl refl refl refl)
                | inr stale ↦ rw stale (same_time s _ refl refl refl refl)
              ]
            ]

  add-Untimed : (c : Charge) (value : ℕ) → Untimed s (add_round s i c value)
  unfolding add_round
  add-Untimed c value = elim (Bool-cases (s.budget.credit == value)) [
    | inl same ↦ rw same (same_time s _ refl refl refl refl)
    | inr stale ↦ rw stale (same_time s _ refl refl refl refl)
  ]

  refund-Untimed : (c : Charge) → Untimed s (refund_flush_budget s i c)
  unfolding refund_flush_budget
  refund-Untimed c =
      elim (Bool-cases (not s.budget.enforcing || (c.records == 0 && c.byte_units == 0))) [
        | inl nothing ↦ rw nothing (same_time s _ refl refl refl refl)
        | inr given ↦ rw given (same_time s _ refl refl refl refl)
      ]

  refill-Untimed : (now : ℕ) → Untimed s (refill s i now)
  unfolding refill
  refill-Untimed now =
      elim (Option-cases (refill_amount s.budget.limits now s.budget.last_refill_ns)) [
        | inl nothing ↦ rw nothing (same_time s _ refl refl refl refl)
        | inr (c, found) ↦
            let (later, records, units) =
              refill_amount-paced s.budget.limits now s.budget.last_refill_ns c found in
            rw found (record {
              limits = refl;
              limit = refl;
              pace = λ p. record {
                few_records = omega (
                  arith,
                  p.few_records,
                  records,
                  longer s.budget.limits.max_records_per_second s.budget.last_refill_ns now later,
                );
                few_bytes = omega (
                  arith,
                  p.few_bytes,
                  units,
                  longer s.budget.limits.max_bytes_per_second s.budget.last_refill_ns now later,
                );
              };
            })
      ]

  same-Untimed : Untimed s s
  same-Untimed = record { limits = refl; limit = refl; pace = λ p. p }

  pub thread-Untimed : (u : Thread) (e : Event) → Untimed s (thread_step s i u e)
  unfolding thread_step
  thread-Untimed idle (acquires bytes records essential) = acquire-Untimed bytes records essential
  thread-Untimed idle exchanges = same-Untimed
  thread-Untimed idle refunds = same-Untimed
  thread-Untimed idle spends = same-Untimed
  thread-Untimed idle (refills now) = refill-Untimed now
  thread-Untimed (acquiring d value zero) (acquires bytes records essential) = same-Untimed
  thread-Untimed (acquiring d value zero) exchanges = same_time s _ refl refl refl refl
  thread-Untimed (acquiring d value zero) refunds = same-Untimed
  thread-Untimed (acquiring d value zero) spends = same-Untimed
  thread-Untimed (acquiring d value zero) (refills now) = same-Untimed
  thread-Untimed (acquiring d value (suc left)) (acquires bytes records essential) = same-Untimed
  thread-Untimed (acquiring d value (suc left)) exchanges = round-Untimed d value left
  thread-Untimed (acquiring d value (suc left)) refunds = same-Untimed
  thread-Untimed (acquiring d value (suc left)) spends = same-Untimed
  thread-Untimed (acquiring d value (suc left)) (refills now) = same-Untimed
  thread-Untimed (adding c value) (acquires bytes records essential) = same-Untimed
  thread-Untimed (adding c value) exchanges = add-Untimed c value
  thread-Untimed (adding c value) refunds = same-Untimed
  thread-Untimed (adding c value) spends = same-Untimed
  thread-Untimed (adding c value) (refills now) = same-Untimed
  thread-Untimed (holding c) (acquires bytes records essential) = same-Untimed
  thread-Untimed (holding c) exchanges = same-Untimed
  thread-Untimed (holding c) refunds = refund-Untimed c
  thread-Untimed (holding c) spends = same_time s _ refl refl refl refl
  thread-Untimed (holding c) (refills now) = same-Untimed
