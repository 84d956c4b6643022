-- ===== src/Eviction/Fifo.antt =====
-- The S3-FIFO policy: cache2/src/memory/eviction.rs. `none` stands for a panic, and a debug assertion
-- that fails is one. The ghost queue, which only `insert` and `commit_eviction` use, and the two are
-- left out.
use cache.Base.{
  ℕ, zero, suc, ◌-◌, Bool, true, false, not, ◌&&◌, ◌||◌, Option, none, some, List, ltb, leb, ◌==◌,
  if◌then◌else◌, get_elem?, set, length,
}
use cache.Record.Codec.{◌>>=◌}
use cache.Eviction.Slot.{
  assert, PolicySlot, default_slot, new_s3fifo, QueueKind, small_queue, main_queue, s3fifo_queue,
  s3fifo_frequency, set_s3fifo_frequency, set_s3fifo_queue, maximum_scan_steps,
}
use cache.Eviction.Clock.{put}
use cache.Eviction.Queue.{
  is_empty, front, push_back, unlink, move_to_back, Link, PolicyQueue, Chain,
}

pub record S3Fifo : Type 0 where
  pub links : List Link
  pub small : PolicyQueue
  pub main : PolicyQueue
  pub main_capacity_bytes : ℕ
  pub slots : List PolicySlot

abbrev pub queue_of : S3Fifo → QueueKind → PolicyQueue
queue_of s small_queue = s.small
queue_of s main_queue = s.main

abbrev pub chain_of : S3Fifo → QueueKind → Chain
chain_of s kind = record { queue = queue_of s kind; links = s.links }

abbrev pub with_chain : S3Fifo → QueueKind → Chain → S3Fifo
with_chain s small_queue c = record s { links = c.links; small = c.queue }
with_chain s main_queue c = record s { links = c.links; main = c.queue }

abbrev pub push_on : S3Fifo → QueueKind → ℕ → ℕ → Option S3Fifo
push_on s kind index weight = do
  c ← push_back (chain_of s kind) index weight
  some (with_chain s kind c)

unfoldable pub remove : S3Fifo → ℕ → Option S3Fifo
remove s index = do
  slot ← get_elem? s.slots index
  u ← unlink (chain_of s (s3fifo_queue slot.flags)) index
  slots ← put s.slots index default_slot
  some (record (with_chain s (s3fifo_queue slot.flags) u.chain) { slots = slots })

pub record Detached : Type 0 where
  pub hash : ℕ
  pub weight : ℕ
  pub queue : QueueKind
  pub frequency : ℕ
  pub rest : S3Fifo

unfoldable pub detach : S3Fifo → ℕ → ℕ → Option Detached
detach s index expected_weight = do
  slot ← get_elem? s.slots index
  u ← unlink (chain_of s (s3fifo_queue slot.flags)) index
  _ ← assert (u.weight == expected_weight)
  slots ← put s.slots index default_slot
  some (record {
    hash = slot.hash;
    weight = u.weight;
    queue = s3fifo_queue slot.flags;
    frequency = s3fifo_frequency slot.flags;
    rest = record (with_chain s (s3fifo_queue slot.flags) u.chain) { slots = slots };
  })

unfoldable pub restore : S3Fifo → ℕ → ℕ → ℕ → QueueKind → ℕ → Option S3Fifo
restore s index hash weight queue frequency = do
  _ ← assert (leb frequency 3)
  slots ← put s.slots index (new_s3fifo hash queue frequency)
  push_on (record s { slots = slots }) queue index weight

-- The head of the small queue goes to the end of the main one.
abbrev pub promote : S3Fifo → ℕ → PolicySlot → Option S3Fifo
promote s index slot = do
  u ← unlink (chain_of s small_queue) index
  push_on
      (record (with_chain s small_queue u.chain) {
        slots = set s.slots index (set_s3fifo_queue slot main_queue);
      })
      main_queue index u.weight

abbrev pub rotate_main : S3Fifo → ℕ → Option S3Fifo
rotate_main s index = do
  c ← move_to_back (chain_of s main_queue) index
  some (with_chain s main_queue c)

abbrev pub preferred_small : Bool → S3Fifo → Bool
preferred_small prefer_small s = prefer_small && not (is_empty s.small)

abbrev pub chosen_queue : Bool → S3Fifo → QueueKind
chosen_queue prefer_small s =
    if preferred_small prefer_small s
    then small_queue
    else if ltb s.main_capacity_bytes s.main.bytes || is_empty s.small
    then main_queue
    else small_queue

-- What one step of the loop does to the item at the head of a queue.
pub data Verdict : Type 0 where
  move_on : Option S3Fifo → Bool → Verdict
  take_victim : Verdict

abbrev pub judge : (ℕ → Bool) → S3Fifo → QueueKind → ℕ → PolicySlot → Bool → Verdict
judge can_reclaim s small_queue index slot prefer =
    if leb 2 (s3fifo_frequency slot.flags)
    then move_on (promote s index slot) prefer
    else if can_reclaim index
    then take_victim
    else move_on (promote s index slot) prefer
judge can_reclaim s main_queue index slot prefer =
    if ltb 0 (s3fifo_frequency slot.flags)
    then move_on
        (rotate_main
          (record s {
            slots = set s.slots index (set_s3fifo_frequency slot (s3fifo_frequency slot.flags - 1));
          })
          index)
        prefer
    else if can_reclaim index
    then take_victim
    else move_on (rotate_main s index) true

pub record Scan : Type 0 where
  pub victim : Option ℕ
  pub policy : S3Fifo
  pub remaining : ℕ

-- The loop of `select_victim`; `fuel` is the count of its range.
unfoldable pub scan : ℕ → (ℕ → Bool) → S3Fifo → Bool → ℕ → Option Scan
scan zero can_reclaim s prefer remaining =
    some (record { victim = none; policy = s; remaining = remaining })
scan (suc fuel) can_reclaim s prefer remaining =
    if remaining == 0
    then some (record { victim = none; policy = s; remaining = remaining })
    else let kind : QueueKind = chosen_queue prefer s in
      let still : Bool = prefer && not (preferred_small prefer s) in
      elim (front (queue_of s kind)) [
        | none ↦ some (record { victim = none; policy = s; remaining = remaining - 1 })
        | some index ↦ get_elem? s.slots index >>= λ slot.
            elim (judge can_reclaim s kind index slot still) [
              | take_victim ↦
                  some (record { victim = some index; policy = s; remaining = remaining - 1 })
              | move_on next prefer' ↦
                  next >>= λ s'. scan fuel can_reclaim s' prefer' (remaining - 1)
            ]
      ]

unfoldable pub select_victim : (ℕ → Bool) → S3Fifo → ℕ → Option Scan
select_victim can_reclaim s remaining =
    scan (maximum_scan_steps (length s.slots)) can_reclaim s false remaining
