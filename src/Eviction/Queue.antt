-- ===== src/Eviction/Queue.antt =====
-- The queues of S3-FIFO, chains of links through the slots' indices: cache2/src/memory/eviction.rs.
-- `none` stands for a panic, and a debug assertion that fails is one.
use cache.Base.{
  ℕ, ◌-◌, Bool, Option, none, some, List, ltb, not, ◌||◌, ◌!=◌, ◌==◌, if◌then◌else◌, get_elem?, set,
  length,
}
use cache.Manager.State.{u32_max, to_u32, saturating_add}
use cache.Record.Codec.{◌>>=◌}
use cache.Eviction.Slot.{assert}

abbrev pub no_slot : ℕ
no_slot = u32_max

pub record Link : Type 0 where
  pub previous : ℕ
  pub next : ℕ
  pub weight : ℕ

abbrev pub default_link : Link
default_link = record { previous = no_slot; next = no_slot; weight = 0 }

pub record PolicyQueue : Type 0 where
  pub head : ℕ
  pub tail : ℕ
  pub bytes : ℕ

abbrev pub empty_queue : PolicyQueue
empty_queue = record { head = no_slot; tail = no_slot; bytes = 0 }

abbrev pub is_empty : PolicyQueue → Bool
is_empty q = q.head == no_slot

abbrev pub front : PolicyQueue → Option ℕ
front q = if is_empty q then none else some q.head

-- A queue and the links it runs through.
pub record Chain : Type 0 where
  pub queue : PolicyQueue
  pub links : List Link

abbrev pub put_link : List Link → ℕ → Link → Option (List Link)
put_link links index link = if ltb index (length links) then some (set links index link) else none

-- `links[index].next = next`, and `.previous = previous`
abbrev pub set_next : List Link → ℕ → ℕ → Option (List Link)
set_next links index next = do
  link ← get_elem? links index
  some (set links index (record link { next = next }))

abbrev pub set_previous : List Link → ℕ → ℕ → Option (List Link)
set_previous links index previous = do
  link ← get_elem? links index
  some (set links index (record link { previous = previous }))

unfoldable pub push_back : Chain → ℕ → ℕ → Option Chain
push_back c index weight = do
  packed ← to_u32 index
  packed_weight ← to_u32 weight
  old ← get_elem? c.links index
  _ ← assert (old.weight == 0)
  links ←
      put_link c.links index
        (record { previous = c.queue.tail; next = no_slot; weight = packed_weight })
  let is_first : Bool = c.queue.tail == no_slot
  joined ← if is_first then some links else set_next links c.queue.tail packed
  some (record {
    queue = record {
      head = if is_first then packed else c.queue.head;
      tail = packed;
      bytes = saturating_add c.queue.bytes weight;
    };
    links = joined;
  })

-- The chain without the item, and the item's weight.
pub record Unlinked : Type 0 where
  pub chain : Chain
  pub weight : ℕ

unfoldable pub unlink : Chain → ℕ → Option Unlinked
unlink c index = do
  packed ← to_u32 index
  link ← get_elem? c.links index
  _ ← assert (link.weight != 0)
  let first : Bool = link.previous == no_slot
  let last : Bool = link.next == no_slot
  _ ← assert (not first || c.queue.head == packed)
  forward ← if first then some c.links else set_next c.links link.previous link.next
  _ ← assert (not last || c.queue.tail == packed)
  backward ← if last then some forward else set_previous forward link.next link.previous
  cleared ← put_link backward index default_link
  some (record {
    chain = record {
      queue = record {
        head = if first then link.next else c.queue.head;
        tail = if last then link.previous else c.queue.tail;
        bytes = c.queue.bytes - link.weight;
      };
      links = cleared;
    };
    weight = link.weight;
  })

unfoldable pub move_to_back : Chain → ℕ → Option Chain
move_to_back c index = do
  packed ← to_u32 index
  if c.queue.tail == packed
      then some c
      else unlink c index >>= λ u. push_back u.chain index u.weight
