-- ===== src/Eviction/Slot.antt =====
-- `PolicySlot` and its flag byte: cache2/src/memory/eviction.rs. The methods of a `u8` are written
-- out: `!x` is `255 - x`. `assert` is a debug assertion, whose failure is a panic. `new_s3fifo` and
-- `set_s3fifo_frequency` are total: the assertion of the first stands where it is called, and that of
-- the second, on a frequency that the scan of S3-FIFO has read from two bits, always holds.
use Prim.Native.Nat.{bit_and, bit_or}
use cache.Bits.{◌>>>◌, ◌<<<◌}
use cache.Base.{
  Option, none, some, ℕ, ◌+◌, ◌-◌, ◌*◌, ◌%◌, Bool, true, false, min, ◌==◌, ◌!=◌, if◌then◌else◌,
}

abbrev pub assert : Bool → Option {0} Unit
assert holds = if holds then some tt else none

abbrev pub resident_bit : ℕ
resident_bit = 1

abbrev pub clock_visited_bit : ℕ
clock_visited_bit = 2

abbrev pub frequency_mask : ℕ
frequency_mask = 6

abbrev pub main_bit : ℕ
main_bit = 8

pub data QueueKind : Type 0 where
  small_queue main_queue : QueueKind

abbrev pub is_main : QueueKind → Bool
is_main small_queue = false
is_main main_queue = true

-- `u8::from`
abbrev pub to_bit : Bool → ℕ
to_bit b = if b then 1 else 0

pub record PolicySlot : Type 0 where
  pub hash : ℕ
  pub clock_position : ℕ
  pub flags : ℕ

abbrev pub default_slot : PolicySlot
default_slot = record { hash = 0; clock_position = 0; flags = 0 }

abbrev pub new_free : ℕ → PolicySlot
new_free next = record { hash = 0; clock_position = next; flags = 0 }

abbrev pub new_clock : ℕ → Bool → ℕ → PolicySlot
new_clock hash visited position = record {
  hash = hash;
  clock_position = position;
  flags = bit_or resident_bit (to_bit visited * clock_visited_bit);
}

abbrev pub new_s3fifo : ℕ → QueueKind → ℕ → PolicySlot
new_s3fifo hash queue frequency = record {
  hash = hash;
  clock_position = 0;
  flags =
      bit_or (bit_or resident_bit (bit_and ((frequency <<< 1) % 256) frequency_mask))
        (to_bit (is_main queue) * main_bit);
}

abbrev pub is_resident : ℕ → Bool
is_resident flags = bit_and flags resident_bit != 0

abbrev pub clock_visited : ℕ → Bool
clock_visited flags = bit_and flags clock_visited_bit != 0

abbrev pub visited_flags : ℕ → Bool → ℕ
visited_flags flags visited =
    bit_or (bit_and flags (255 - clock_visited_bit)) (to_bit visited * clock_visited_bit)

abbrev pub set_clock_visited : PolicySlot → Bool → PolicySlot
set_clock_visited slot visited = record slot { flags = visited_flags slot.flags visited }

abbrev pub s3fifo_queue : ℕ → QueueKind
s3fifo_queue flags = if bit_and flags main_bit == 0 then small_queue else main_queue

abbrev pub s3fifo_frequency : ℕ → ℕ
s3fifo_frequency flags = bit_and flags frequency_mask >>> 1

abbrev pub frequency_flags : ℕ → ℕ → ℕ
frequency_flags flags frequency =
    bit_or (bit_and flags (255 - frequency_mask)) (bit_and ((frequency <<< 1) % 256) frequency_mask)

abbrev pub set_s3fifo_frequency : PolicySlot → ℕ → PolicySlot
set_s3fifo_frequency slot frequency = record slot { flags = frequency_flags slot.flags frequency }

abbrev pub raised_flags : ℕ → ℕ
raised_flags flags = flags + (to_bit (bit_and flags frequency_mask != frequency_mask) <<< 1)

abbrev pub increment_s3fifo_frequency : PolicySlot → PolicySlot
increment_s3fifo_frequency slot = record slot { flags = raised_flags slot.flags }

abbrev pub queue_flags : ℕ → QueueKind → ℕ
queue_flags flags queue =
    bit_or (bit_and flags (255 - main_bit)) (to_bit (is_main queue) * main_bit)

abbrev pub set_s3fifo_queue : PolicySlot → QueueKind → PolicySlot
set_s3fifo_queue slot queue = record slot { flags = queue_flags slot.flags queue }

-- `maximum_scan_steps`; the counts of slots are far below the bound of `saturating_mul`.
abbrev pub maximum_scan_steps : ℕ → ℕ
maximum_scan_steps slot_count = min (min (slot_count * 2 + 1) (18446744073709551615)) 64
