-- ===== src/Fill/Threads.antt =====
-- The threads that share the credit: cache2/src/io/fill_control.rs. A step of a thread is one atomic
-- access with the computation up to the next one, so that a list of events is any interleaving.
use cache.Base.{
  ℕ, zero, suc, ◌+◌, Bool, not, ◌&&◌, ◌||◌, Option, none, some, List, [], ◌∷◌, ◌==◌, if◌then◌else◌,
  get_elem?, set,
}
use cache.Fill.Credit.{Charge, Limits, Demand, demand_of, attempt, add_credit, refill_amount}

-- The fields of `FillController` that the flush budget uses.
pub record Budget : Type 0 where
  pub limits : Limits
  pub enforcing : Bool
  pub limit : Charge
  pub credit : ℕ
  pub last_refill_ns : ℕ

-- Where a thread stands: in the loop of `try_acquire_flush_budget`, with the credit it has read and the
-- rounds left; in the loop of `add_credit`; with a charge; or in none of them.
pub data Thread : Type 0 where
  idle : Thread
  acquiring : Demand → ℕ → ℕ → Thread
  adding : Charge → ℕ → Thread
  holding : Charge → Thread

pub data Event : Type 0 where
  -- `try_acquire_flush_budget` after its refill, up to its first exchange
  acquires : ℕ → ℕ → Bool → Event
  -- the next exchange of either loop
  exchanges : Event
  -- `refund_flush_budget`, up to its first exchange
  refunds : Event
  -- a charge that is not given back
  spends : Event
  -- `refill` at a time, where its exchange of the time succeeds
  refills : ℕ → Event

-- The budget and its threads, with the charges that were granted, refunded and refilled so far.
pub record System : Type 0 where
  pub budget : Budget
  pub threads : List Thread
  pub granted : Charge
  pub refunded : Charge
  pub refilled : Charge

abbrev pub no_charge : Charge
no_charge = record { records = 0; byte_units = 0 }

abbrev pub plus : Charge → Charge → Charge
plus a b = record { records = a.records + b.records; byte_units = a.byte_units + b.byte_units }

abbrev pub at : System → ℕ → Thread → System
at s i t = record s { threads = set s.threads i t }

abbrev pub with_credit : System → ℕ → System
with_credit s credit = record s { budget = record s.budget { credit = credit } }

-- `MAX_CAS_ATTEMPTS`
abbrev pub max_attempts : ℕ
max_attempts = 4

-- The entry of `try_acquire_flush_budget`, and its load of the credit.
unfoldable pub acquire : System → ℕ → ℕ → ℕ → Bool → System
acquire s i bytes records essential = at s i (
    if essential || not s.budget.enforcing
    then holding no_charge
    else acquiring (demand_of s.budget.limit bytes records) s.budget.credit max_attempts)

-- The exchange of a round in which the attempt charges.
abbrev pub grant : System → ℕ → Demand → ℕ → ℕ → Charge → ℕ → System
grant s i d value left c next =
    if s.budget.credit == value
    then record (with_credit (at s i (holding c)) next) { granted = plus s.granted c }
    else at s i (acquiring d s.budget.credit left)

unfoldable pub acquire_round : System → ℕ → Demand → ℕ → ℕ → System
acquire_round s i d value left = elim (attempt d value) [
  | none ↦ at s i idle
  | some found ↦ grant s i d value left found.0 found.1
]

unfoldable pub add_round : System → ℕ → Charge → ℕ → System
add_round s i c value =
    if s.budget.credit == value
    then with_credit (at s i idle) (add_credit s.budget.limit c value)
    else at s i (adding c s.budget.credit)

unfoldable pub refund_flush_budget : System → ℕ → Charge → System
refund_flush_budget s i c =
    if not s.budget.enforcing || (c.records == 0 && c.byte_units == 0)
    then at s i idle
    else record (at s i (adding c s.budget.credit)) { refunded = plus s.refunded c }

abbrev pub refill_with : System → ℕ → ℕ → Option Charge → System
refill_with s i now none = s
refill_with s i now (some c) = record (at s i (adding c s.budget.credit)) {
  budget = record s.budget { last_refill_ns = now };
  refilled = plus s.refilled c;
}

unfoldable pub refill : System → ℕ → ℕ → System
refill s i now = refill_with s i now (refill_amount s.budget.limits now s.budget.last_refill_ns)

-- What the event does to the thread `i`; an event that does not fit its place does nothing.
unfoldable pub thread_step : System → ℕ → Thread → Event → System
thread_step s i idle (acquires bytes records essential) = acquire s i bytes records essential
thread_step s i idle (refills now) = refill s i now
thread_step s i (acquiring d value zero) exchanges = at s i idle
thread_step s i (acquiring d value (suc left)) exchanges = acquire_round s i d value left
thread_step s i (adding c value) exchanges = add_round s i c value
thread_step s i (holding c) refunds = refund_flush_budget s i c
thread_step s i (holding c) spends = at s i idle
thread_step s i _ _ = s

unfoldable pub step : System → ℕ → Event → System
step s i e = elim (get_elem? s.threads i) [ none ↦ s | some t ↦ thread_step s i t e ]

unfoldable pub run : System → List (ℕ × Event) → System
run s [] = s
run s ((i, e) ∷ rest) = run (step s i e) rest
