-- ===== src/Metadata/Rebind.antt =====
-- The change of the count of append shards: cache2/src/region/recovery/metadata.rs,
-- `rebind_append_shards`. Its callers drop the metadata where it fails, so only the error is kept.
use cache.Base.{
  ℕ, ◌-◌, ◌&&◌, ◌||◌, not, Option, none, some, ◌⊎◌, inr, List, [], ◌∷◌, ltb, leb, ◌==◌, ◌!=◌,
  if◌then◌else◌,
}
use cache.Checked.{◌>>=◌, ◌>>◌, ensure, needed}
use cache.Manager.State.{active, sealed, u64_max, checked_add, is_free, is_active}
use cache.Index.Layout.{checked_sub}
use cache.Metadata.Data.{
  MetadataError, invalid_field, arithmetic_overflow, RegionRecord, Metadata, checked_add_u32,
}
use cache.Metadata.Validate.{validate}

abbrev pub max_shards : ℕ
max_shards = 256

-- An Active Region of a shard that goes is sealed, behind the sealed ones.
unfoldable pub seal_excess : ℕ → ℕ → RegionRecord → MetadataError ⊎ RegionRecord
seal_excess shard_count first_new_sealed r =
    if is_active r.state && leb shard_count r.queue_ordinal
    then (do
      ordinal ←
          needed (checked_add_u32 first_new_sealed (r.queue_ordinal - shard_count))
            arithmetic_overflow
      inr (record r { state = sealed; queue_ordinal = ordinal }))
    else inr r

-- A Free Region from the back of the queue becomes the Region of a new shard.
unfoldable pub activate_last : ℕ → ℕ → ℕ → RegionRecord → MetadataError ⊎ RegionRecord
activate_last old_shard_count free_region_count first_seqno r =
    if is_free r.state && leb free_region_count r.queue_ordinal
    then (do
      let added : ℕ = r.queue_ordinal - free_region_count
      ordinal ← needed (checked_add_u32 old_shard_count added) arithmetic_overflow
      seqno ← needed (checked_add first_seqno added) arithmetic_overflow
      inr (record r { state = active; queue_ordinal = ordinal; created_seqno = seqno }))
    else inr r

-- The loop over the regions.
unfoldable pub each :
    (RegionRecord → MetadataError ⊎ RegionRecord)
    → List RegionRecord
    → MetadataError ⊎ List RegionRecord
each change [] = inr []
each change (r ∷ rest) = do r' ← change r; rest' ← each change rest; inr (r' ∷ rest')

unfoldable pub shrink_shards : Metadata → ℕ → MetadataError ⊎ Metadata
shrink_shards m shard_count = do
  let removed : ℕ = m.root.shard_count - shard_count
  sealed_count ← needed (checked_add_u32 m.root.sealed_region_count removed) arithmetic_overflow
  regions ← each (seal_excess shard_count m.root.sealed_region_count) m.regions
  inr (record m {
    regions = regions;
    root = record m.root {
      shard_count = shard_count;
      active_region_count = shard_count;
      sealed_region_count = sealed_count;
    };
  })

abbrev pub below_max : ℕ → Option ℕ
below_max seqno = if seqno != u64_max then some seqno else none

abbrev pub grown_seqno : ℕ → ℕ → Option ℕ
grown_seqno max_seqno added = elim (checked_add max_seqno added) [
  | none ↦ none
  | some seqno ↦ below_max seqno
]

unfoldable pub grow_shards : Metadata → ℕ → MetadataError ⊎ Metadata
grow_shards m shard_count = do
  let added : ℕ = shard_count - m.root.shard_count
  free_count ←
      needed (checked_sub m.root.free_region_count added)
        (invalid_field "append_shards_free_capacity")
  max_seqno ← needed (grown_seqno m.root.max_seqno added) arithmetic_overflow
  first_seqno ← needed (checked_add m.root.max_seqno 1) arithmetic_overflow
  regions ← each (activate_last m.root.shard_count free_count first_seqno) m.regions
  inr (record m {
    regions = regions;
    root = record m.root {
      shard_count = shard_count;
      active_region_count = shard_count;
      free_region_count = free_count;
      max_seqno = max_seqno;
    };
  })

abbrev pub moved : Metadata → ℕ → MetadataError ⊎ Metadata
moved m shard_count =
    if ltb shard_count m.root.shard_count
    then shrink_shards m shard_count
    else grow_shards m shard_count

unfoldable pub rebind_append_shards : Metadata → ℕ → MetadataError ⊎ Metadata
rebind_append_shards m shard_count = if shard_count == m.root.shard_count then inr m else (do
  ensure
      (not (shard_count == 0 || ltb max_shards shard_count || leb m.root.region_count shard_count))
      (invalid_field "append_shards")
  m' ← moved m shard_count
  validate m'
  inr m')
