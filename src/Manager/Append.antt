-- ===== src/Manager/Append.antt =====
-- Methods of `RegionManager` that reserve and stage records: cache2/src/region/manager.rs,
-- `request_rotation_for_append`, `allocate_seqno`, `reserve_append` and `stage_reservation`.
-- On a 64-bit target the conversions from `u32` to `usize` do not fail.
use cache.Base.{
  ℕ, ◌+◌, ◌%◌, max, Bool, true, false, not, ◌&&◌, ◌||◌, Option, none, some, ◌⊎◌, inl, inr, ltb,
  ◌==◌, ◌!=◌, is_some, if◌then◌else◌, get_elem?, set,
}
use cache.Outcome.{◌>>=◌, ◌>>◌, guard, need, attempt, succeed, fail, modify, branch}
use cache.Manager.State.{
  record_alignment, u64_max, checked_add, to_u32, padding_of, MutationError, invalid_shard,
  invalid_record_length, would_block, flush_before_rotation, region_full, stale_receipt,
  sequence_exhausted, arithmetic_overflow, invariant, AppendReservation, end_offset, OpenSpan,
  ShardState, RegionDesc, Manager, Method, AppendReservation-discrete, is_active, holds,
}

-- `self.append_states[shard_id] = shard`
abbrev pub set_shard : ℕ → ShardState → Manager → Manager
set_shard i shard m = record m { append_states = set m.append_states i shard }

-- `self.regions[region_id] = region`
abbrev pub set_region : ℕ → RegionDesc → Manager → Manager
set_region i region m = record m { regions = set m.regions i region }

-- `reserved_used + padding + record_bytes`, checked at each step
abbrev pub padded_end : ℕ → ℕ → Option ℕ
padded_end used bytes = elim (checked_add used (padding_of used)) [
  | none ↦ none
  | some e ↦ checked_add e bytes
]

unfoldable pub request_rotation_for_append : ℕ → ℕ → Method Bool
request_rotation_for_append shard_id record_bytes m =
    (do
      region_id ← need (get_elem? m.active_regions shard_id) invalid_shard
      region ← need (get_elem? m.regions region_id) (invariant "active Region id is out of bounds")
      guard (is_active region.state) (invariant "data shard does not own an Active Region")
      end ← need (padded_end region.reserved_used record_bytes) arithmetic_overflow
      branch (ltb m.region_size end)
          (do
            shard ← need (get_elem? m.append_states shard_id) invalid_shard
            modify (set_shard shard_id (record shard { rotation_requested = true }))
            succeed true)
          (succeed false))
      m

unfoldable pub allocate_seqno : Method ℕ
allocate_seqno m =
    (do
      guard (m.next_seqno != u64_max) sequence_exhausted
      modify (λ n. record n { next_seqno = n.next_seqno + 1 })
      succeed m.next_seqno)
      m

-- The end of `reserve_append` where the record does not fit: the request for a rotation is kept.
abbrev pub refuse_full : ℕ → ShardState → Method AppendReservation
refuse_full shard_id shard = do
  modify (set_shard shard_id (record shard { rotation_requested = true }))
  fail (
      if is_some shard.open_span || is_some shard.submitted_span
      then flush_before_rotation
      else region_full)

-- The end of `reserve_append` where the record fits.
abbrev pub reserve_tail : ℕ → ℕ → ℕ → ℕ → ShardState → RegionDesc → Method AppendReservation
reserve_tail shard_id record_bytes region_id end shard region = do
  offset ← need (to_u32 region.reserved_used) arithmetic_overflow
  seqno ← allocate_seqno
  let receipt : AppendReservation = record {
    shard_id = shard_id;
    region_id = region_id;
    region_created_seqno = region.created_seqno;
    offset = offset;
    record_bytes = record_bytes;
    seqno = seqno;
  }
  modify (set_region region_id (record region { reserved_used = end }))
  modify (set_shard shard_id (record shard { tail = some receipt }))
  succeed receipt

unfoldable pub reserve_append : ℕ → ℕ → Method AppendReservation
reserve_append shard_id record_bytes m =
    (do
      guard (record_bytes != 0 && record_bytes % record_alignment == 0) invalid_record_length
      shard ← need (get_elem? m.append_states shard_id) invalid_shard
      guard (not (is_some shard.tail || is_some shard.pending_padding || is_some shard.rotation))
          would_block
      region_id ← need (get_elem? m.active_regions shard_id) invalid_shard
      region ← need (get_elem? m.regions region_id) (invariant "active Region id is out of bounds")
      guard (is_active region.state) (invariant "data shard does not own an Active Region")
      end ← need (checked_add region.reserved_used record_bytes) arithmetic_overflow
      branch (ltb m.region_size end) (refuse_full shard_id shard)
          (reserve_tail shard_id record_bytes region_id end shard region))
      m

-- The span that a staged record extends or begins.
unfoldable pub extend_span : Option OpenSpan → AppendReservation → ℕ → MutationError ⊎ OpenSpan
extend_span none receipt end = inr (record {
  region_id = receipt.region_id;
  start_offset = receipt.offset;
  end_offset = end;
  record_count = 1;
  max_seqno = receipt.seqno;
})
extend_span (some span) receipt end =
    if span.region_id == receipt.region_id
      && span.end_offset == receipt.offset
      && ltb span.max_seqno receipt.seqno
    then elim (checked_add span.record_count 1) [
      | none ↦ inl arithmetic_overflow
      | some count ↦ inr (record span {
        end_offset = end;
        record_count = count;
        max_seqno = max span.max_seqno receipt.seqno;
      })
    ]
    else inl (invariant "staged reservations are not contiguous")

unfoldable pub stage_reservation : AppendReservation → Method (Unit {0})
stage_reservation receipt m =
    (do
      shard ← need (get_elem? m.append_states receipt.shard_id) invalid_shard
      guard (holds AppendReservation-discrete shard.tail receipt) stale_receipt
      end ← need (end_offset receipt) arithmetic_overflow
      span ← attempt (extend_span shard.open_span receipt end)
      modify (set_shard receipt.shard_id (record shard { open_span = some span; tail = none })))
      m
