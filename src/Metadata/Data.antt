-- ===== src/Metadata/Data.antt =====
-- The data of cache2/src/region/recovery/metadata.rs. A `PersistentId` is the list of its bytes.
use Prim.Native.String.{String}
use cache.Base.{ℕ, ◌+◌, ◌-◌, ◌/◌, Option, ◌⊎◌, inr, List, ◌!=◌, ◌&&◌}
use cache.Checked.{◌>>=◌, ◌>>◌, ensure, needed}
use cache.Manager.State.{checked_add, to_u32, RegionState}
use cache.Index.Layout.{checked_mul}

pub data MetadataError : Type 0 where
  invalid_length : MetadataError
  invalid_magic : MetadataError
  unsupported_version : ℕ → MetadataError
  checksum_mismatch : MetadataError
  invalid_field : String → MetadataError
  arithmetic_overflow : MetadataError
  allocation : MetadataError

pub record MetadataRoot : Type 0 where
  pub cache_uuid : List ℕ
  pub data_identity : List ℕ
  pub data_superblock_generation : ℕ
  pub image_identity : List ℕ
  pub image_generation : ℕ
  pub storage_fingerprint : ℕ
  pub index_slots : ℕ
  pub index_page_count : ℕ
  pub region_size : ℕ
  pub region_count : ℕ
  pub partition_count : ℕ
  pub shard_count : ℕ
  pub max_seqno : ℕ
  pub free_region_count : ℕ
  pub active_region_count : ℕ
  pub sealed_region_count : ℕ

pub record RegionRecord : Type 0 where
  pub state : RegionState
  pub queue_ordinal : ℕ
  pub created_seqno : ℕ
  pub durable_used_offset : ℕ
  pub physical_record_count : ℕ

pub record PartitionRecord : Type 0 where
  pub partition_id : ℕ
  pub first_index_page : ℕ
  pub index_page_count : ℕ
  pub first_slot : ℕ
  pub slot_count : ℕ
  pub physical_value_slots : ℕ
  pub physical_deleted_slots : ℕ

pub record Metadata : Type 0 where
  pub root : MetadataRoot
  pub regions : List RegionRecord
  pub partitions : List PartitionRecord

pub record MetadataLayout : Type 0 where
  pub region_first_page : ℕ
  pub region_page_count : ℕ
  pub partition_first_page : ℕ
  pub partition_page_count : ℕ
  pub encoded_len : ℕ

unfoldable pub pages_for_records : ℕ → ℕ → MetadataError ⊎ ℕ
pages_for_records records per_page = do
  rounded ← needed (checked_add records (per_page - 1)) arithmetic_overflow
  needed (to_u32 (rounded / per_page)) arithmetic_overflow

-- `checked_add` on `u32`
abbrev pub checked_add_u32 : ℕ → ℕ → Option ℕ
checked_add_u32 a b = to_u32 (a + b)

unfoldable pub new_layout : ℕ → ℕ → MetadataError ⊎ MetadataLayout
new_layout region_count partition_count = do
  ensure (region_count != 0 && partition_count != 0) (invalid_field "record_count")
  region_pages ← pages_for_records region_count 192
  partition_pages ← pages_for_records partition_count 252
  partition_first ← needed (checked_add_u32 1 region_pages) arithmetic_overflow
  page_count ← needed (checked_add_u32 partition_first partition_pages) arithmetic_overflow
  encoded_len ← needed (checked_mul page_count 4096) arithmetic_overflow
  inr (record {
    region_first_page = 1;
    region_page_count = region_pages;
    partition_first_page = partition_first;
    partition_page_count = partition_pages;
    encoded_len = encoded_len;
  })

unfoldable pub encoded_len : Metadata → MetadataError ⊎ ℕ
encoded_len m = do
  layout ← new_layout m.root.region_count m.root.partition_count
  inr layout.encoded_len
