-- ===== src/Metadata/Validate.antt =====
-- The validation of metadata: cache2/src/region/recovery/metadata.rs, `validate` and what it calls.
use cache.Base.{
  ℕ, ◌+◌, ◌%◌, Bool, true, false, not, ◌&&◌, none, some, ◌⊎◌, inl, inr, List, [], ◌∷◌, ltb, leb,
  ◌==◌, ◌!=◌, if◌then◌else◌, get_elem?, set, replicate, length,
}
use cache.Checked.{◌>>=◌, ◌>>◌, ensure, needed}
use cache.Manager.State.{RegionState, free, active, sealed, u64_max, is_free}
use cache.Packed.Location.{max_region_id, max_region_offset}
use cache.Packed.SizeClass.{div_ceil}
use cache.Record.Header.{is_power_of_two}
use cache.Index.Layout.{
  LayoutError, size_overflow, invalid_argument, PartitionRange, checked_mul, canonical_ranges,
  validated_ranges,
}
use cache.Metadata.Data.{
  MetadataError, invalid_field, arithmetic_overflow, MetadataRoot, RegionRecord, PartitionRecord,
  Metadata, MetadataLayout, new_layout, checked_add_u32,
}

-- `index_layout_metadata_error`
abbrev pub layout_error : LayoutError → MetadataError
layout_error size_overflow = arithmetic_overflow
layout_error (invalid_argument why) = invalid_field "canonical_partition_directory"

abbrev pub map_error : {A : Type 0} → LayoutError ⊎ A → MetadataError ⊎ A
map_error (inl e) = inl (layout_error e)
map_error (inr a) = inr a

-- `free.checked_add(active).and_then(|n| n.checked_add(sealed)) == Some(count)`
abbrev pub sums_to : ℕ → ℕ → ℕ → ℕ → Bool
sums_to free_count active_count sealed_count count =
    elim (checked_add_u32 free_count active_count) [
      | none ↦ false
      | some sum ↦ elim (checked_add_u32 sum sealed_count) [
        | none ↦ false
        | some all ↦ all == count
      ]
    ]

-- The negation of the long condition of `validate_root_directory`.
unfoldable pub root_is_valid : MetadataRoot → Bool
root_is_valid r =
    r.data_superblock_generation != 0
    && r.image_generation != 0
    && r.index_page_count == div_ceil r.index_slots 504
    && leb 4096 r.region_size
    && leb r.region_size (max_region_offset + 32)
    && r.region_size % 4096 == 0
    && r.region_count != 0
    && leb r.region_count (max_region_id + 1)
    && r.partition_count != 0
    && leb r.partition_count 4096
    && is_power_of_two 64 r.partition_count
    && leb r.partition_count r.index_page_count
    && r.shard_count != 0
    && leb r.shard_count 256
    && ltb r.shard_count r.region_count
    && r.max_seqno != u64_max
    && r.active_region_count == r.shard_count
    && sums_to r.free_region_count r.active_region_count r.sealed_region_count r.region_count

unfoldable pub validate_root_directory : MetadataRoot → MetadataLayout → MetadataError ⊎ Unit {0}
validate_root_directory r layout = do
  ensure (leb 8 r.index_slots) (invalid_field "root")
  ranges ← map_error (validated_ranges r.index_slots)
  ensure (root_is_valid r) (invalid_field "root")
  ensure (layout.region_first_page == 1) (invalid_field "section_directory")
  second ←
      needed (checked_add_u32 layout.region_first_page layout.region_page_count) arithmetic_overflow
  ensure (layout.partition_first_page == second) (invalid_field "section_directory")

-- The marks of the ordinals seen in each state's queue.
pub record Seen : Type 0 where
  pub free_seen : List Bool
  pub active_seen : List Bool
  pub sealed_seen : List Bool

abbrev pub seen_in : RegionState → Seen → List Bool
seen_in free s = s.free_seen
seen_in active s = s.active_seen
seen_in sealed s = s.sealed_seen

abbrev pub note_seen : RegionState → List Bool → Seen → Seen
note_seen free marks s = record s { free_seen = marks }
note_seen active marks s = record s { active_seen = marks }
note_seen sealed marks s = record s { sealed_seen = marks }

-- The ordinal is in its queue's range and new, and is marked now.
unfoldable pub mark_ordinal : RegionRecord → Seen → MetadataError ⊎ Seen
mark_ordinal r s = elim (get_elem? (seen_in r.state s) r.queue_ordinal) [
  | none ↦ inl (invalid_field "region_queue_ordinal")
  | some old ↦
      if old
      then inl (invalid_field "region_queue_ordinal")
      else inr (note_seen r.state (set (seen_in r.state s) r.queue_ordinal true) s)
]

abbrev pub both : Bool → Bool → Bool
both a b = if a then b else not b

unfoldable pub validate_allocated : MetadataRoot → RegionRecord → MetadataError ⊎ Unit {0}
validate_allocated root r = do
  ensure
      (r.created_seqno != 0
        && leb r.created_seqno root.max_seqno
        && both (r.durable_used_offset == 0) (r.physical_record_count == 0))
      (invalid_field "allocated_region")
  needed_bytes ← needed (checked_mul r.physical_record_count 64) arithmetic_overflow
  ensure (leb needed_bytes r.durable_used_offset) (invalid_field "allocated_region")

unfoldable pub validate_region : MetadataRoot → RegionRecord → Seen → MetadataError ⊎ Seen
validate_region root r s = do
  ensure (leb r.durable_used_offset root.region_size && r.durable_used_offset % 32 == 0)
      (invalid_field "region_geometry")
  s' ← mark_ordinal r s
  elim (is_free r.state) [
    | true ↦
        ensure (r.created_seqno == 0 && r.durable_used_offset == 0 && r.physical_record_count == 0)
          (invalid_field "free_region")
    | false ↦ validate_allocated root r
  ]
  inr s'

unfoldable pub validate_each : MetadataRoot → List RegionRecord → Seen → MetadataError ⊎ Seen
validate_each root [] s = inr s
validate_each root (r ∷ rest) s = do s' ← validate_region root r s; validate_each root rest s'

abbrev pub all_true : List Bool → Bool
all_true [] = true
all_true (b ∷ rest) = b && all_true rest

unfoldable pub validate_regions : MetadataRoot → List RegionRecord → MetadataError ⊎ Unit {0}
validate_regions root regions = do
  s ← validate_each root regions (record {
    free_seen = replicate root.free_region_count false;
    active_seen = replicate root.active_region_count false;
    sealed_seen = replicate root.sealed_region_count false;
  })
  ensure (all_true s.free_seen && all_true s.active_seen && all_true s.sealed_seen)
      (invalid_field "region_queue_permutation")

abbrev pub same_range : PartitionRecord → PartitionRange → Bool
same_range p r =
    p.partition_id == r.partition_id
    && p.first_index_page == r.first_page
    && p.index_page_count == r.page_count
    && p.first_slot == r.first_slot
    && p.slot_count == r.slot_count

unfoldable pub validate_partition : PartitionRecord → PartitionRange → MetadataError ⊎ Unit {0}
validate_partition p r = do
  ensure (same_range p r) (invalid_field "canonical_partition_directory")
  ensure (p.physical_deleted_slots == 0) (invalid_field "partition_deleted_slots")
  ensure (leb p.physical_value_slots p.slot_count) (invalid_field "partition")

-- The two lists are of the same length.
unfoldable pub validate_zipped :
    List PartitionRecord → List PartitionRange → MetadataError ⊎ Unit {0}
validate_zipped (p ∷ partitions) (r ∷ ranges) = do
  validate_partition p r
  validate_zipped partitions ranges
validate_zipped _ _ = inr tt

unfoldable pub validate_partitions : MetadataRoot → List PartitionRecord → MetadataError ⊎ Unit {0}
validate_partitions root partitions = do
  ranges ← map_error (canonical_ranges root.index_slots)
  ensure (length ranges == length partitions) (invalid_field "canonical_partition_directory")
  validate_zipped partitions ranges

unfoldable pub validate : Metadata → MetadataError ⊎ Unit {0}
validate m = do
  layout ← new_layout m.root.region_count m.root.partition_count
  validate_root_directory m.root layout
  ensure (length m.regions == m.root.region_count) (invalid_field "region_count")
  ensure (length m.partitions == m.root.partition_count) (invalid_field "partition_count")
  validate_regions m.root m.regions
  validate_partitions m.root m.partitions
