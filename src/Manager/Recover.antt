-- ===== src/Manager/Recover.antt =====
-- The manager from and to metadata: cache2/src/region/manager.rs, `from_metadata` and
-- `freeze_metadata`. Allocations succeed; the identities of the image, which the
-- other methods do not touch, are kept beside the manager.
use cache.Base.{
  ℕ, ◌+◌, Bool, true, false, not, ◌&&◌, ◌||◌, none, ◌⊎◌, inl, inr, List, [], ◌∷◌, ◌==◌, get_elem?,
  set, length, replicate,
}
use cache.Checked.{◌>>=◌, ◌>>◌, ensure, needed}
use cache.Manager.State.{
  RegionState, free, active, sealed, u32_max, checked_add, to_u32, ShardState, RegionDesc, Manager,
  is_active, is_free, is_sealed,
}
use cache.Manager.Rotation.{is_quiet}
use cache.Index.Layout.{checked_sub}
use cache.Metadata.Data.{
  MetadataError, invalid_field, arithmetic_overflow, MetadataRoot, RegionRecord, PartitionRecord,
  Metadata,
}
use cache.Metadata.Validate.{validate}

abbrev pub unassigned_region : ℕ
unassigned_region = u32_max

pub record MetadataBinding : Type 0 where
  pub cache_uuid : List ℕ
  pub data_identity : List ℕ
  pub data_superblock_generation : ℕ
  pub image_identity : List ℕ
  pub image_generation : ℕ
  pub storage_fingerprint : ℕ

pub record Recovered : Type 0 where
  pub binding : MetadataBinding
  pub manager : Manager

-- The three queues while they are filled in.
pub record Queues : Type 0 where
  pub active_queue : List ℕ
  pub free_queue : List ℕ
  pub sealed_queue : List ℕ

abbrev pub queue_in : RegionState → Queues → List ℕ
queue_in active q = q.active_queue
queue_in free q = q.free_queue
queue_in sealed q = q.sealed_queue

abbrev pub with_queue : RegionState → List ℕ → Queues → Queues
with_queue active ids q = record q { active_queue = ids }
with_queue free ids q = record q { free_queue = ids }
with_queue sealed ids q = record q { sealed_queue = ids }

unfoldable pub install_recovered : RegionState → ℕ → ℕ → Queues → MetadataError ⊎ Queues
install_recovered state ordinal region_id q = do
  old ← needed (get_elem? (queue_in state q) ordinal) (invalid_field "region_queue_ordinal")
  ensure (old == unassigned_region) (invalid_field "region_queue_ordinal")
  inr (with_queue state (set (queue_in state q) ordinal region_id) q)

abbrev pub desc_of : RegionRecord → RegionDesc
desc_of r = record {
  state = r.state;
  created_seqno = r.created_seqno;
  completed_used = r.durable_used_offset;
  reserved_used = r.durable_used_offset;
  physical_record_count = r.physical_record_count;
}

abbrev pub descs : List RegionRecord → List RegionDesc
descs [] = []
descs (r ∷ rest) = desc_of r ∷ descs rest

-- The loop over the records; the next one has the id `region_id`.
unfoldable pub install_all : List RegionRecord → ℕ → Queues → MetadataError ⊎ Queues
install_all [] region_id q = inr q
install_all (r ∷ rest) region_id q = do
  id ← needed (to_u32 region_id) arithmetic_overflow
  q' ← install_recovered r.state r.queue_ordinal id q
  install_all rest (region_id + 1) q'

-- `contains`
abbrev pub contains : List ℕ → ℕ → Bool
contains [] a = false
contains (b ∷ rest) a = b == a || contains rest a

abbrev pub fresh_shard : ShardState
fresh_shard = record {
  tail = none;
  open_span = none;
  pending_padding = none;
  submitted_span = none;
  rotation_requested = false;
  rotation = none;
}

abbrev pub binding_of : MetadataRoot → MetadataBinding
binding_of r = record {
  cache_uuid = r.cache_uuid;
  data_identity = r.data_identity;
  data_superblock_generation = r.data_superblock_generation;
  image_identity = r.image_identity;
  image_generation = r.image_generation;
  storage_fingerprint = r.storage_fingerprint;
}

unfoldable pub from_metadata : Metadata → MetadataError ⊎ Recovered
from_metadata m = do
  validate m
  sealed_capacity ← needed (checked_sub m.root.region_count m.root.shard_count) arithmetic_overflow
  q ← install_all m.regions 0 (record {
    active_queue = replicate m.root.shard_count unassigned_region;
    free_queue = replicate m.root.free_region_count unassigned_region;
    sealed_queue = replicate m.root.sealed_region_count unassigned_region;
  })
  ensure
      (length (descs m.regions) == m.root.region_count
        && not (contains q.active_queue unassigned_region)
        && not (contains q.free_queue unassigned_region)
        && not (contains q.sealed_queue unassigned_region))
      (invalid_field "region_queue_permutation")
  next_seqno ← needed (checked_add m.root.max_seqno 1) arithmetic_overflow
  inr (record {
    binding = binding_of m.root;
    manager = record {
      region_size = m.root.region_size;
      next_seqno = next_seqno;
      regions = descs m.regions;
      active_regions = q.active_queue;
      append_states = replicate m.root.shard_count fresh_shard;
      free_regions = q.free_queue;
      sealed_regions = q.sealed_queue;
      reclaiming = [];
      reclaim_limit = 1;
      queue_capacity = sealed_capacity;
      rotations = 0;
    };
  })

pub record PartitionTotals : Type 0 where
  pub partition_count : ℕ
  pub page_count : ℕ
  pub slot_count : ℕ

unfoldable pub add_partitions :
    List PartitionRecord → PartitionTotals → MetadataError ⊎ PartitionTotals
add_partitions [] t = inr t
add_partitions (p ∷ rest) t = do
  page_count ← needed (checked_add t.page_count p.index_page_count) arithmetic_overflow
  slot_count ← needed (checked_add t.slot_count p.slot_count) arithmetic_overflow
  add_partitions rest (record t { page_count = page_count; slot_count = slot_count })

unfoldable pub partition_totals : List PartitionRecord → MetadataError ⊎ PartitionTotals
partition_totals partitions = do
  count ← needed (to_u32 (length partitions)) arithmetic_overflow
  add_partitions partitions (record { partition_count = count; page_count = 0; slot_count = 0 })

abbrev pub same_state : RegionState → RegionState → Bool
same_state active s = is_active s
same_state free s = is_free s
same_state sealed s = is_sealed s

-- The loop over a queue; the next region has the position `ordinal`.
unfoldable pub install_live :
    List RegionDesc → RegionState → List ℕ → ℕ → List ℕ → MetadataError ⊎ List ℕ
install_live regions expected [] ordinal ordinals = inr ordinals
install_live regions expected (region_id ∷ rest) ordinal ordinals = do
  region ← needed (get_elem? regions region_id) (invalid_field "live_region_queue")
  place ← needed (to_u32 ordinal) arithmetic_overflow
  old ← needed (get_elem? ordinals region_id) (invalid_field "live_region_queue")
  ensure (same_state region.state expected && old == unassigned_region)
      (invalid_field "live_region_queue_permutation")
  install_live regions expected rest (ordinal + 1) (set ordinals region_id place)

unfoldable pub freeze_queue_ordinals : Manager → MetadataError ⊎ List ℕ
freeze_queue_ordinals m = do
  a ←
      install_live m.regions active m.active_regions 0
        (replicate (length m.regions) unassigned_region)
  f ← install_live m.regions free m.free_regions 0 a
  s ← install_live m.regions sealed m.sealed_regions 0 f
  ensure (not (contains s unassigned_region)) (invalid_field "live_region_queue_permutation")
  inr s

-- The ordinals are as many as the Regions.
unfoldable pub freeze_records : List RegionDesc → List ℕ → MetadataError ⊎ List RegionRecord
freeze_records [] ordinals = inr []
freeze_records (d ∷ rest) [] = inl (invalid_field "live_region_authority")
freeze_records (d ∷ rest) (o ∷ ordinals) = do
  ensure (d.reserved_used == d.completed_used) (invalid_field "live_region_authority")
  records ← freeze_records rest ordinals
  inr (
      record {
        state = d.state;
        queue_ordinal = o;
        created_seqno = d.created_seqno;
        durable_used_offset = d.completed_used;
        physical_record_count = d.physical_record_count;
      }
      ∷ records)

abbrev pub all_quiet : List ShardState → Bool
all_quiet [] = true
all_quiet (s ∷ rest) = is_quiet s && all_quiet rest

unfoldable pub freeze_metadata : Recovered → List PartitionRecord → MetadataError ⊎ Metadata
freeze_metadata r partitions = do
  let m : Manager = r.manager
  ensure (length m.reclaiming == 0 && all_quiet m.append_states)
      (invalid_field "live_region_authority")
  totals ← partition_totals partitions
  ordinals ← freeze_queue_ordinals m
  records ← freeze_records m.regions ordinals
  region_count ← needed (to_u32 (length m.regions)) arithmetic_overflow
  shard_count ← needed (to_u32 (length m.active_regions)) arithmetic_overflow
  free_count ← needed (to_u32 (length m.free_regions)) arithmetic_overflow
  sealed_count ← needed (to_u32 (length m.sealed_regions)) arithmetic_overflow
  max_seqno ← needed (checked_sub m.next_seqno 1) arithmetic_overflow
  let frozen : Metadata = record {
    root = record {
      cache_uuid = r.binding.cache_uuid;
      data_identity = r.binding.data_identity;
      data_superblock_generation = r.binding.data_superblock_generation;
      image_identity = r.binding.image_identity;
      image_generation = r.binding.image_generation;
      storage_fingerprint = r.binding.storage_fingerprint;
      index_slots = totals.slot_count;
      index_page_count = totals.page_count;
      region_size = m.region_size;
      region_count = region_count;
      partition_count = totals.partition_count;
      shard_count = shard_count;
      max_seqno = max_seqno;
      free_region_count = free_count;
      active_region_count = shard_count;
      sealed_region_count = sealed_count;
    };
    regions = records;
    partitions = partitions;
  }
  validate frozen
  inr frozen
