-- ===== src/Metadata/Tests.antt =====
-- A small image: cache2/src/region/recovery/metadata.rs and cache2/src/region/manager.rs.
use cache.Base.{ℕ, zero, suc, ◌%◌, ◌≡◌, refl, sym, ap, some, [], ◌∷◌, inr, get_elem?}
use mathlib.Core.Option.{some-injective}
use cache.Base.{◌+◌, ◌≤◌, length, total}
use cache.Manager.Snapshot.{RegionSnapshot, Shows, region_snapshot, region_snapshot-fits}
use cache.Checked.{checking}
use cache.Record.Header.{is_power_of_two}
use cache.Index.Layout.{
  canonical_ranges, validated_ranges, validated_pages, image_pages, shrink, final_partition_slots,
  ranges_from,
}
use cache.Packed.SizeClass.{digit_count}
use cache.Manager.State.{free, active, sealed}
use cache.Manager.Valid.{IsValid, in_rotation}
use cache.Manager.Recover.{
  Recovered, from_metadata, install_all, install_recovered, binding_of, fresh_shard, descs,
}
use cache.Manager.FromMetadata.{from_metadata-IsValid}
use cache.Metadata.Data.{MetadataRoot, RegionRecord, Metadata, new_layout, pages_for_records}
use cache.Metadata.Validate.{
  validate, validate_root_directory, root_is_valid, validate_regions, validate_each,
  validate_region, mark_ordinal, validate_allocated, validate_partitions, validate_zipped,
  validate_partition,
}
use cache.Metadata.Accepted.{Accepted, validate-Accepted}
use cache.Metadata.Rebind.{
  rebind_append_shards, shrink_shards, grow_shards, each, seal_excess, activate_last,
}
use cache.Metadata.Rebound.{KeepsRegions, rebind_append_shards-KeepsRegions}

abbrev small_root : MetadataRoot
small_root = record {
  cache_uuid = 1 ∷ [];
  data_identity = 2 ∷ [];
  data_superblock_generation = 1;
  image_identity = 3 ∷ [];
  image_generation = 1;
  storage_fingerprint = 9;
  index_slots = 8;
  index_page_count = 1;
  region_size = 8192;
  region_count = 3;
  partition_count = 1;
  shard_count = 1;
  max_seqno = 7;
  free_region_count = 1;
  active_region_count = 1;
  sealed_region_count = 1;
}

abbrev open_region : RegionRecord
open_region = record {
  state = active;
  queue_ordinal = 0;
  created_seqno = 5;
  durable_used_offset = 4096;
  physical_record_count = 2;
}

abbrev empty_region : RegionRecord
empty_region = record {
  state = free;
  queue_ordinal = 0;
  created_seqno = 0;
  durable_used_offset = 0;
  physical_record_count = 0;
}

abbrev full_region : RegionRecord
full_region = record {
  state = sealed;
  queue_ordinal = 0;
  created_seqno = 1;
  durable_used_offset = 8192;
  physical_record_count = 3;
}

abbrev small : Metadata
small = record {
  root = small_root;
  regions = open_region ∷ empty_region ∷ full_region ∷ [];
  partitions =
      record {
        partition_id = 0;
        first_index_page = 0;
        index_page_count = 1;
        first_slot = 0;
        slot_count = 8;
        physical_value_slots = 4;
        physical_deleted_slots = 0;
      }
      ∷ [];
}

small_accepted : validate small ≡ inr tt
unfolding checking validate new_layout pages_for_records validate_root_directory root_is_valid
    is_power_of_two canonical_ranges validated_ranges validated_pages image_pages shrink
    final_partition_slots ranges_from digit_count validate_regions validate_each validate_region
    mark_ordinal validate_allocated validate_partitions validate_zipped validate_partition
small_accepted = refl

validate-Accepted_example : Accepted small
validate-Accepted_example = validate-Accepted small small_accepted

abbrev recovered : Recovered
recovered = record {
  binding = binding_of small_root;
  manager = record {
    region_size = 8192;
    next_seqno = 8;
    regions = descs small.regions;
    active_regions = 0 ∷ [];
    append_states = fresh_shard ∷ [];
    free_regions = 1 ∷ [];
    sealed_regions = 2 ∷ [];
    reclaiming = [];
    reclaim_limit = 1;
    queue_capacity = 2;
    rotations = 0;
  };
}

small_recovered : from_metadata small ≡ inr recovered
unfolding checking from_metadata install_all install_recovered validate new_layout pages_for_records
    validate_root_directory root_is_valid is_power_of_two canonical_ranges validated_ranges
    validated_pages image_pages shrink final_partition_slots ranges_from digit_count
    validate_regions validate_each validate_region mark_ordinal validate_allocated
    validate_partitions validate_zipped validate_partition
small_recovered = refl

whole_pages :
    (i : ℕ) (x : RegionRecord)
    → get_elem? small.regions i ≡ some x
    → x.durable_used_offset % 4096 ≡ 0
whole_pages zero x at =
    ap (λ (r : RegionRecord). r.durable_used_offset % 4096) (sym (some-injective _ _ at))
whole_pages (suc zero) x at =
    ap (λ (r : RegionRecord). r.durable_used_offset % 4096) (sym (some-injective _ _ at))
whole_pages (suc (suc zero)) x at =
    ap (λ (r : RegionRecord). r.durable_used_offset % 4096) (sym (some-injective _ _ at))
whole_pages (suc (suc (suc i))) x at = cc

from_metadata-IsValid_example :
    IsValid recovered.manager × (recovered.manager.regions ≡ descs small.regions)
from_metadata-IsValid_example = from_metadata-IsValid small recovered whole_pages small_recovered

abbrev grown : Metadata
grown = record {
  root = record small_root {
    shard_count = 2;
    active_region_count = 2;
    free_region_count = 0;
    max_seqno = 8;
  };
  regions =
      open_region
      ∷ record empty_region { state = active; queue_ordinal = 1; created_seqno = 8 }
      ∷ full_region
      ∷ [];
  partitions = small.partitions;
}

grown_returned : rebind_append_shards small 2 ≡ inr grown
unfolding checking rebind_append_shards shrink_shards grow_shards each seal_excess activate_last
    validate new_layout pages_for_records validate_root_directory root_is_valid is_power_of_two
    canonical_ranges validated_ranges validated_pages image_pages shrink final_partition_slots
    ranges_from digit_count validate_regions validate_each validate_region mark_ordinal
    validate_allocated validate_partitions validate_zipped validate_partition
grown_returned = refl

rebind_append_shards-KeepsRegions_example : (validate grown ≡ inr tt) × KeepsRegions small 2 grown
rebind_append_shards-KeepsRegions_example =
    rebind_append_shards-KeepsRegions small grown 2 refl grown_returned

region_snapshot-fits_example :
    (s : RegionSnapshot) × (region_snapshot recovered.manager ≡ inr s)
    × Shows recovered.manager s
    × (s.physical_bytes ≤ s.capacity_bytes)
    × (s.active_region_count
          + s.free_region_count
          + s.sealed_region_count
          + s.reclaiming_region_count
          + total in_rotation recovered.manager.append_states
        ≡ length recovered.manager.regions)
region_snapshot-fits_example =
    region_snapshot-fits recovered.manager
      (from_metadata-IsValid small recovered whole_pages small_recovered).0
