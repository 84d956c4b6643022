-- ===== src/Index/Layout.antt =====
-- The partitions of the index image: cache2/src/region/index/storage/mod.rs. On a 64-bit target a
-- `usize` is a `u64`, and the allocations of the source succeed.
use Prim.Native.String.{String}
use cache.Base.{
  ℕ, zero, suc, ◌+◌, ◌-◌, ◌*◌, ◌/◌, ◌%◌, ◌^◌, min, Bool, true, not, ◌&&◌, ◌||◌, Option, none, some,
  ◌⊎◌, inr, List, [], ◌∷◌, ltb, leb, ◌==◌, ◌!=◌, if◌then◌else◌,
}
use cache.Checked.{◌>>=◌, ◌>>◌, ensure, needed}
use cache.Manager.State.{u64_max, u32_max, checked_add}
use cache.Packed.SizeClass.{digit_count}

abbrev pub slots_per_page : ℕ
slots_per_page = 504

abbrev pub index_candidates : ℕ
index_candidates = 4

abbrev pub max_partitions : ℕ
max_partitions = 4096

pub data LayoutError : Type 0 where
  size_overflow : LayoutError
  invalid_argument : String → LayoutError

pub record PartitionRange : Type 0 where
  pub partition_id : ℕ
  pub first_page : ℕ
  pub page_count : ℕ
  pub first_slot : ℕ
  pub slot_count : ℕ

abbrev pub checked_mul : ℕ → ℕ → Option ℕ
checked_mul a b = if leb (a * b) u64_max then some (a * b) else none

abbrev pub checked_sub : ℕ → ℕ → Option ℕ
checked_sub a b = if leb b a then some (a - b) else none

-- `ImageLayout::new`, of which the callers here use the count of pages
unfoldable pub image_pages : ℕ → LayoutError ⊎ ℕ
image_pages slot_count = do
  ensure (slot_count != 0) (invalid_argument "index storage requires at least one slot")
  rounded ← needed (checked_add slot_count (slots_per_page - 1)) size_overflow
  let page_count : ℕ = rounded / slots_per_page
  image_len ← needed (checked_mul page_count 4096) size_overflow
  ensure (leb image_len (2 ^ 63 - 1)) size_overflow
  inr page_count

unfoldable pub validated_pages : ℕ → LayoutError ⊎ ℕ
validated_pages slot_count = do
  ensure (leb index_candidates slot_count)
      (invalid_argument "partitioned index storage requires at least 4 buckets")
  image_pages slot_count

-- `limit` is at least 1 and has at most 64 digits.
abbrev pub greatest_power_of_two : ℕ → ℕ
greatest_power_of_two limit = 2 ^ (digit_count 64 limit - 1)

abbrev pub one_if_positive : ℕ → ℕ
one_if_positive n = if n != 0 then 1 else 0

unfoldable pub final_partition_slots : ℕ → ℕ → ℕ → LayoutError ⊎ ℕ
final_partition_slots slot_count page_count partition_count = do
  let final_pages : ℕ =
      page_count / partition_count + one_if_positive (page_count % partition_count)
  first_page ← needed (checked_sub page_count final_pages) size_overflow
  first_slot ← needed (checked_mul first_page slots_per_page) size_overflow
  needed (checked_sub slot_count first_slot) size_overflow

-- The loop that halves the count of partitions. A count is at most 4096, so that 12 rounds are enough.
unfoldable pub shrink : ℕ → ℕ → ℕ → ℕ → LayoutError ⊎ ℕ
shrink zero slot_count page_count partition_count = inr partition_count
shrink (suc fuel) slot_count page_count partition_count =
    let rest : LayoutError ⊎ ℕ = shrink fuel slot_count page_count (partition_count / 2) in
    if ltb 1 partition_count
    then (do
      slots ← final_partition_slots slot_count page_count partition_count
      if ltb slots index_candidates then rest else inr partition_count)
    else inr partition_count

-- The pages of a partition: the last ones have one page more.
abbrev pub pages_of : ℕ → ℕ → ℕ → ℕ
pages_of base_pages first_extra partition_id =
    base_pages + (if leb first_extra partition_id then 1 else 0)

-- The loop over the partitions; `left` of them are still to come.
unfoldable pub ranges_from : ℕ → ℕ → ℕ → ℕ → ℕ → ℕ → LayoutError ⊎ List PartitionRange
ranges_from slot_count base_pages first_extra zero partition_id first_page = inr []
ranges_from slot_count base_pages first_extra (suc left) partition_id first_page = do
  let page_count : ℕ = pages_of base_pages first_extra partition_id
  first_slot ← needed (checked_mul first_page slots_per_page) size_overflow
  capacity ← needed (checked_mul page_count slots_per_page) size_overflow
  remaining ← needed (checked_sub slot_count first_slot) size_overflow
  ensure (not (page_count == 0 || ltb (min remaining capacity) index_candidates))
      (invalid_argument "canonical index partition contains fewer than 4 buckets")
  next_page ← needed (checked_add first_page page_count) size_overflow
  rest ← ranges_from slot_count base_pages first_extra left (partition_id + 1) next_page
  inr (
      record {
        partition_id = partition_id;
        first_page = first_page;
        page_count = page_count;
        first_slot = first_slot;
        slot_count = min remaining capacity;
      }
      ∷ rest)

unfoldable pub canonical_ranges : ℕ → LayoutError ⊎ List PartitionRange
canonical_ranges slot_count = do
  page_count ← validated_pages slot_count
  partition_count ←
      shrink 12 slot_count page_count (greatest_power_of_two (min page_count max_partitions))
  ranges_from slot_count (page_count / partition_count)
      (partition_count - page_count % partition_count) partition_count 0 0

abbrev pub narrow_ranges : List PartitionRange → Bool
narrow_ranges [] = true
narrow_ranges (r ∷ rest) = leb r.slot_count u32_max && narrow_ranges rest

unfoldable pub validated_ranges : ℕ → LayoutError ⊎ List PartitionRange
validated_ranges slot_count = do
  ranges ← canonical_ranges slot_count
  ensure (narrow_ranges ranges) (invalid_argument "index partition exceeds the v1 recovery counter")
  inr ranges
