-- ===== src/Fill/Budget.antt =====
-- What the flush budget grants: cache2/src/io/fill_control.rs, whichever way its threads interleave.
use cache.Base.{
  ℕ, zero, suc, ◌+◌, ◌^◌, ◌≤◌, ◌<◌, min, ◌≡◌, refl, ap, ◌∙◌, Bool, not, ◌&&◌, ◌||◌, Bool-cases,
  Option-cases, inl, inr, some, arith, ◌==◌, ==_iff, get_elem?, total, total-set,
}
use cache.Fill.Credit.{
  Charge, Demand, packed_records, packed_byte_units, attempt, add_credit, refill_amount,
  attempt-rest, add_credit-limit,
}
use cache.Fill.Threads.{
  Thread, idle, acquiring, adding, holding, Event, acquires, exchanges, refunds, spends, refills,
  System, no_charge, plus, at, acquire, grant, acquire_round, add_round, refund_flush_budget,
  refill, thread_step,
}

-- The records, or the units of bytes.
pub record Part : Type 0 where
  pub part : Charge → ℕ
  pub packed : ℕ → ℕ
  pub part_plus : (a b : Charge) → part (plus a b) ≡ part a + part b
  pub rest :
      (d : Demand) (value next : ℕ) (c : Charge)
      → packed_byte_units value < 2 ^ 32
      → attempt d value ≡ some (c, next)
      → packed next + part c ≡ packed value
  pub added :
      (limit c : Charge) (value : ℕ)
      → limit.byte_units < 2 ^ 32
      → packed (add_credit limit c value) ≡ min (packed value + part c) (part limit)

abbrev pub the_records : Part
the_records = record {
  part = λ c. c.records;
  packed = packed_records;
  part_plus = λ a b. refl;
  rest = λ d value next c small h. (attempt-rest d value next c small h).0;
  added = λ limit c value small. (add_credit-limit limit c value small).0;
}

abbrev pub the_byte_units : Part
the_byte_units = record {
  part = λ c. c.byte_units;
  packed = packed_byte_units;
  part_plus = λ a b. refl;
  rest = λ d value next c small h. (attempt-rest d value next c small h).1;
  added = λ limit c value small. (add_credit-limit limit c value small).1;
}

-- What a thread is about to add.
abbrev pub pending : Part → Thread → ℕ
pending p idle = 0
pending p (acquiring d value left) = 0
pending p (adding c value) = p.part c
pending p (holding c) = 0

-- The credit is within the burst; it and what was granted and is still to be added are covered.
pub record Balanced (p : Part) (s : System) : Type 0 where
  pub bounded : p.packed s.budget.credit ≤ p.part s.budget.limit
  pub balance :
      p.packed s.budget.credit + p.part s.granted + total (pending p) s.threads
      ≤ p.part s.budget.limit + p.part s.refunded + p.part s.refilled

module _ (p : Part) (s : System) (v : Balanced p s) (narrow : s.budget.limit.byte_units < 2 ^ 32)
    (small : packed_byte_units s.budget.credit < 2 ^ 32) (i : ℕ) (t : Thread)
    (here : get_elem? s.threads i ≡ some t) where
  at-Balanced : (t' : Thread) → pending p t' ≤ pending p t → Balanced p (at s i t')
  at-Balanced t' less = record {
    bounded = v.bounded;
    balance = omega (arith, v.balance, less, total-set (pending p) s.threads i t' here);
  }

  acquire-Balanced :
      (bytes records : ℕ) (essential : Bool) → Balanced p (acquire s i bytes records essential)
  unfolding acquire
  acquire-Balanced bytes records essential =
      elim (Bool-cases (essential || not s.budget.enforcing)) [
        | inl exempt ↦ rw exempt (at-Balanced (holding no_charge) (omega arith))
        | inr paced ↦ rw paced (at-Balanced (acquiring _ _ _) (omega arith))
      ]

  grant-Balanced :
      (d : Demand) (value left : ℕ) (c : Charge) (next : ℕ)
      → attempt d value ≡ some (c, next)
      → Balanced p (grant s i d value left c next)
  grant-Balanced d value left c next found = elim (Bool-cases (s.budget.credit == value)) [
    | inl same ↦
        let is : s.budget.credit ≡ value = (==_iff _ _).0 same in
        let left_over : p.packed next + p.part c ≡ p.packed s.budget.credit =
          p.rest d s.budget.credit next c small (ap (attempt d) is ∙ found) in
        rw same (record {
          bounded = omega (arith, left_over, v.bounded);
          balance = omega (
            arith,
            v.balance,
            left_over,
            p.part_plus s.granted c,
            total-set (pending p) s.threads i (holding c) here,
          );
        })
    | inr stale ↦ rw stale (at-Balanced (acquiring d s.budget.credit left) (omega arith))
  ]

  round-Balanced : (d : Demand) (value left : ℕ) → Balanced p (acquire_round s i d value left)
  unfolding acquire_round
  round-Balanced d value left = elim (Option-cases (attempt d value)) [
    | inl refused ↦ rw (refused, acquire_round) (at-Balanced idle (omega arith))
    | inr ((c, next), found) ↦ rw (found, acquire_round) (grant-Balanced d value left c next found)
  ]

  add-Balanced : (c : Charge) (value : ℕ) → t ≡ adding c value → Balanced p (add_round s i c value)
  unfolding add_round
  add-Balanced c value is_adding = elim (Bool-cases (s.budget.credit == value)) [
    | inl same ↦
        let is : s.budget.credit ≡ value = (==_iff _ _).0 same in
        let now : p.packed (add_credit s.budget.limit c value)
            ≡ min (p.packed value + p.part c) (p.part s.budget.limit) =
          p.added s.budget.limit c value narrow in
        rw same (record {
          bounded = omega (arith, now);
          balance = omega (
            arith,
            v.balance,
            now,
            ap p.packed is,
            ap (pending p) is_adding,
            total-set (pending p) s.threads i idle here,
          );
        })
    | inr stale ↦
        rw stale (at-Balanced (adding c s.budget.credit) (omega (arith, ap (pending p) is_adding)))
  ]

  refund-Balanced : (c : Charge) → t ≡ holding c → Balanced p (refund_flush_budget s i c)
  unfolding refund_flush_budget
  refund-Balanced c is_holding =
      elim (Bool-cases (not s.budget.enforcing || (c.records == 0 && c.byte_units == 0))) [
        | inl nothing ↦ rw nothing (at-Balanced idle (omega arith))
        | inr given ↦ rw given (record {
          bounded = v.bounded;
          balance = omega (
            arith,
            v.balance,
            p.part_plus s.refunded c,
            ap (pending p) is_holding,
            total-set (pending p) s.threads i (adding c s.budget.credit) here,
          );
        })
      ]

  refill-Balanced : (now : ℕ) → t ≡ idle → Balanced p (refill s i now)
  unfolding refill
  refill-Balanced now is_idle =
      elim (Option-cases (refill_amount s.budget.limits now s.budget.last_refill_ns)) [
        | inl nothing ↦ rw nothing v
        | inr (c, found) ↦ rw found (record {
          bounded = v.bounded;
          balance = omega (
            arith,
            v.balance,
            p.part_plus s.refilled c,
            ap (pending p) is_idle,
            total-set (pending p) s.threads i (adding c s.budget.credit) here,
          );
        })
      ]

  pub thread-Balanced : (u : Thread) (e : Event) → t ≡ u → Balanced p (thread_step s i u e)
  unfolding thread_step
  thread-Balanced idle (acquires bytes records essential) is =
      acquire-Balanced bytes records essential
  thread-Balanced idle exchanges is = v
  thread-Balanced idle refunds is = v
  thread-Balanced idle spends is = v
  thread-Balanced idle (refills now) is = refill-Balanced now is
  thread-Balanced (acquiring d value zero) (acquires bytes records essential) is = v
  thread-Balanced (acquiring d value zero) exchanges is = at-Balanced idle (omega arith)
  thread-Balanced (acquiring d value zero) refunds is = v
  thread-Balanced (acquiring d value zero) spends is = v
  thread-Balanced (acquiring d value zero) (refills now) is = v
  thread-Balanced (acquiring d value (suc left)) (acquires bytes records essential) is = v
  thread-Balanced (acquiring d value (suc left)) exchanges is = round-Balanced d value left
  thread-Balanced (acquiring d value (suc left)) refunds is = v
  thread-Balanced (acquiring d value (suc left)) spends is = v
  thread-Balanced (acquiring d value (suc left)) (refills now) is = v
  thread-Balanced (adding c value) (acquires bytes records essential) is = v
  thread-Balanced (adding c value) exchanges is = add-Balanced c value is
  thread-Balanced (adding c value) refunds is = v
  thread-Balanced (adding c value) spends is = v
  thread-Balanced (adding c value) (refills now) is = v
  thread-Balanced (holding c) (acquires bytes records essential) is = v
  thread-Balanced (holding c) exchanges is = v
  thread-Balanced (holding c) refunds is = refund-Balanced c is
  thread-Balanced (holding c) spends is = at-Balanced idle (omega arith)
  thread-Balanced (holding c) (refills now) is = v
