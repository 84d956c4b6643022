-- ===== src/Manager/Flush.antt =====
-- Methods of `RegionManager` that turn staged records into device writes:
-- cache2/src/region/manager.rs, `reserve_write_padding`, `seal_write_span`,
-- `seal_write_span_with_padding`, `submit_open_span` and `complete_write_span`.
use cache.Base.{
  ℕ, ◌%◌, Bool, false, not, ◌&&◌, ◌||◌, Option, none, some, ltb, leb, ◌==◌, ◌!=◌, is_some,
  get_elem?,
}
use native.Mathlib.Decide.{ℕ_discrete}
use cache.Outcome.{◌>>=◌, ◌>>◌, guard, need, succeed, modify, branch}
use cache.Manager.State.{
  direct_io_alignment, record_alignment, checked_add, padding_of, invalid_shard, would_block,
  stale_receipt, arithmetic_overflow, invariant, PaddingReceipt, padding_bytes, WriteSpan, OpenSpan,
  ShardState, RegionDesc, Manager, Method, PaddingReceipt-discrete, WriteSpan-discrete, is_active,
  holds,
}
use cache.Manager.Append.{set_shard, set_region}

-- `self.active_regions.get(shard_id) == Some(&region_id)`
abbrev pub owns : Manager → ℕ → ℕ → Bool
owns m shard_id region_id = holds ℕ_discrete (get_elem? m.active_regions shard_id) region_id

abbrev pub span_identity : OpenSpan → Bool
span_identity open' =
    ltb open'.start_offset open'.end_offset
    && open'.start_offset % direct_io_alignment == 0
    && open'.end_offset % record_alignment == 0
    && open'.record_count != 0
    && open'.max_seqno != 0

abbrev pub span_authority : Manager → ℕ → OpenSpan → RegionDesc → Bool
span_authority m shard_id open' region =
    owns m shard_id open'.region_id
    && is_active region.state
    && leb region.created_seqno open'.max_seqno
    && region.reserved_used == open'.end_offset

abbrev pub padding_fits : Manager → ℕ → ℕ → Bool
padding_fits m padding padded_end =
    ltb padding direct_io_alignment
    && padding % record_alignment == 0
    && padded_end % direct_io_alignment == 0
    && leb padded_end m.region_size

-- The end of `reserve_write_padding` where the span is not aligned.
abbrev pub pad_tail :
    ℕ → OpenSpan → ShardState → RegionDesc → ℕ → Manager → Method (Option PaddingReceipt)
pad_tail shard_id open' shard region padding m = do
  padded_end ← need (checked_add open'.end_offset padding) arithmetic_overflow
  guard (padding_fits m padding padded_end) (invariant "write span padding is invalid")
  let receipt : PaddingReceipt = record {
    shard_id = shard_id;
    region_id = open'.region_id;
    span_start_offset = open'.start_offset;
    unpadded_end_offset = open'.end_offset;
    padded_end_offset = padded_end;
    record_count = open'.record_count;
    max_seqno = open'.max_seqno;
  }
  modify (set_region open'.region_id (record region { reserved_used = padded_end }))
  modify (set_shard shard_id (record shard { pending_padding = some receipt }))
  succeed (some receipt)

unfoldable pub reserve_write_padding : ℕ → Method (Option PaddingReceipt)
reserve_write_padding shard_id m =
    (do
      shard ← need (get_elem? m.append_states shard_id) invalid_shard
      guard
          (not (
            is_some shard.tail
            || is_some shard.pending_padding
            || is_some shard.submitted_span
            || is_some shard.rotation))
          would_block
      open' ← need shard.open_span (invariant "data shard has no staged records")
      guard (span_identity open') (invariant "open write span identity is invalid")
      region ←
          need (get_elem? m.regions open'.region_id)
            (invariant "open write span Region is out of bounds")
      guard (span_authority m shard_id open' region)
          (invariant "open write span lost its Region authority")
      branch (padding_of open'.end_offset == 0) (succeed none)
          (pad_tail shard_id open' shard region (padding_of open'.end_offset) m))
      m

unfoldable pub submit_open_span : ℕ → ℕ → Method WriteSpan
submit_open_span shard_id end m =
    (do
      shard ← need (get_elem? m.append_states shard_id) invalid_shard
      open' ← need shard.open_span (invariant "data shard has no staged records")
      guard
          (open'.start_offset % direct_io_alignment == 0
            && end % direct_io_alignment == 0
            && ltb open'.start_offset end)
          (invariant "submitted write span is not direct-I/O aligned")
      let receipt : WriteSpan = record {
        shard_id = shard_id;
        region_id = open'.region_id;
        start_offset = open'.start_offset;
        end_offset = end;
        record_count = open'.record_count;
        max_seqno = open'.max_seqno;
      }
      modify (
          set_shard shard_id (record shard {
            open_span = none;
            pending_padding = none;
            submitted_span = some receipt;
          }))
      succeed receipt)
      m

unfoldable pub seal_write_span : ℕ → Method WriteSpan
seal_write_span shard_id m =
    (do
      shard ← need (get_elem? m.append_states shard_id) invalid_shard
      guard
          (not (
            is_some shard.tail
            || is_some shard.pending_padding
            || is_some shard.rotation
            || is_some shard.submitted_span))
          would_block
      open' ← need shard.open_span (invariant "data shard has no staged records")
      submit_open_span shard_id open'.end_offset)
      m

-- `padding_bytes()` is present, not zero and below one alignment unit.
abbrev pub padding_in_range : PaddingReceipt → Bool
padding_in_range padding = elim (padding_bytes padding) [
  | none ↦ false
  | some bytes ↦ bytes != 0 && ltb bytes direct_io_alignment
]

abbrev pub padding_matches : PaddingReceipt → OpenSpan → Bool
padding_matches padding open' =
    open'.region_id == padding.region_id
    && open'.start_offset == padding.span_start_offset
    && open'.end_offset == padding.unpadded_end_offset
    && open'.record_count == padding.record_count
    && open'.max_seqno == padding.max_seqno
    && padding_in_range padding
    && padding.padded_end_offset % direct_io_alignment == 0

unfoldable pub seal_write_span_with_padding : PaddingReceipt → Method WriteSpan
seal_write_span_with_padding padding m =
    (do
      shard ← need (get_elem? m.append_states padding.shard_id) invalid_shard
      guard
          (not (is_some shard.tail || is_some shard.rotation || is_some shard.submitted_span)
            && holds PaddingReceipt-discrete shard.pending_padding padding)
          stale_receipt
      open' ← need shard.open_span stale_receipt
      guard (padding_matches padding open') stale_receipt
      region ← need (get_elem? m.regions padding.region_id) stale_receipt
      guard
          (owns m padding.shard_id padding.region_id
            && is_active region.state
            && leb region.created_seqno padding.max_seqno
            && region.reserved_used == padding.padded_end_offset)
          stale_receipt
      submit_open_span padding.shard_id padding.padded_end_offset)
      m

abbrev pub completes : Manager → WriteSpan → RegionDesc → Bool
completes m receipt region =
    owns m receipt.shard_id receipt.region_id
    && is_active region.state
    && leb region.created_seqno receipt.max_seqno
    && region.completed_used == receipt.start_offset
    && leb receipt.end_offset region.reserved_used
    && ltb receipt.start_offset receipt.end_offset
    && receipt.record_count != 0

unfoldable pub complete_write_span : WriteSpan → Method (Unit {0})
complete_write_span receipt m =
    (do
      shard ← need (get_elem? m.append_states receipt.shard_id) invalid_shard
      guard (holds WriteSpan-discrete shard.submitted_span receipt) stale_receipt
      region ← need (get_elem? m.regions receipt.region_id) stale_receipt
      guard (completes m receipt region) stale_receipt
      count ←
          need (checked_add region.physical_record_count receipt.record_count) arithmetic_overflow
      modify (
          set_region receipt.region_id
            (record region { completed_used = receipt.end_offset; physical_record_count = count }))
      modify (set_shard receipt.shard_id (record shard { submitted_span = none })))
      m
