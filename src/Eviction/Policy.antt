-- ===== src/Eviction/Policy.antt =====
-- `EvictionState`, which works on the configured policy: cache2/src/memory/eviction.rs. `none` stands
-- for a panic, and a debug assertion that fails is one. `insert` and `commit_eviction` are left out with
-- the ghost queue.
use cache.Base.{ℕ, not, true, false, Option, none, some, List, get_elem?, set}
use cache.Record.Codec.{◌>>=◌}
use cache.Eviction.Slot.{
  assert, PolicySlot, QueueKind, is_resident, set_clock_visited, increment_s3fifo_frequency,
}
use cache.Eviction.Clock.{Clock}
use cache.Eviction.Fifo.{S3Fifo, Detached}
use cache.Eviction.Clock
use cache.Eviction.Fifo

-- The policy, together with the slots that its methods take.
pub data Policy : Type 0 where
  clock : Clock → Policy
  s3fifo : S3Fifo → Policy

pub data DetachedKind : Type 0 where
  clock_kind : DetachedKind
  s3fifo_kind : QueueKind → ℕ → DetachedKind

pub record DetachedPolicy : Type 0 where
  pub hash : ℕ
  pub weight : ℕ
  pub kind : DetachedKind

abbrev pub slots_of : Policy → List PolicySlot
slots_of (clock c) = c.slots
slots_of (s3fifo s) = s.slots

abbrev pub as_clock : Option Clock → Option Policy
as_clock o = o >>= λ c. some (clock c)

abbrev pub as_s3fifo : Option S3Fifo → Option Policy
as_s3fifo o = o >>= λ s. some (s3fifo s)

unfoldable pub record_hit : Policy → ℕ → Option Policy
record_hit (clock c) index = do
  slot ← get_elem? c.slots index
  some (clock (record c { slots = set c.slots index (set_clock_visited slot true) }))
record_hit (s3fifo s) index = do
  slot ← get_elem? s.slots index
  some (s3fifo (record s { slots = set s.slots index (increment_s3fifo_frequency slot) }))

abbrev pub remove_resident : Policy → ℕ → Option Policy
remove_resident (clock c) index = as_clock (Clock.remove c index)
remove_resident (s3fifo s) index = as_s3fifo (Fifo.remove s index)

-- An index without a resident slot is ignored.
unfoldable pub remove_policy : Policy → ℕ → Option Policy
remove_policy p index = elim (get_elem? (slots_of p) index) [
  | none ↦ some p
  | some slot ↦ elim (is_resident slot.flags) [ false ↦ some p | true ↦ remove_resident p index ]
]

-- What a detachment leaves: the policy and what restores the resident.
pub record Detachment : Type 0 where
  pub policy : Policy
  pub detached : DetachedPolicy

unfoldable pub detach_for_admission : Policy → ℕ → ℕ → Option Detachment
detach_for_admission (clock c) index weight = do
  slot ← get_elem? c.slots index
  rest ← Clock.remove c index
  some (record {
    policy = clock rest;
    detached = record { hash = slot.hash; weight = weight; kind = clock_kind };
  })
detach_for_admission (s3fifo s) index weight = do
  d ← Fifo.detach s index weight
  some (record {
    policy = s3fifo d.rest;
    detached = record { hash = d.hash; weight = d.weight; kind = s3fifo_kind d.queue d.frequency };
  })

-- The last two cases are the source's `unreachable!`.
abbrev pub restored : Policy → ℕ → DetachedPolicy → Option Policy
restored p index d = elim p [
  | clock c ↦ elim d.kind [
    | clock_kind ↦ as_clock (Clock.insert c index d.hash true)
    | s3fifo_kind queue frequency ↦ none
  ]
  | s3fifo s ↦ elim d.kind [
    | clock_kind ↦ none
    | s3fifo_kind queue frequency ↦ as_s3fifo (Fifo.restore s index d.hash d.weight queue frequency)
  ]
]

unfoldable pub restore_for_admission : Policy → ℕ → DetachedPolicy → Option Policy
restore_for_admission p index d = do
  slot ← get_elem? (slots_of p) index
  _ ← assert (not (is_resident slot.flags))
  restored p index d
