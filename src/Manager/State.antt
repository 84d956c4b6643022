-- ===== src/Manager/State.antt =====
-- The data of cache2/src/region/manager.rs: receipts, the state of an append shard, a Region's
-- descriptor and the manager. `binding`, which only a metadata freeze reads, is left out.
use Prim.Native.String.{String}
use mathlib.Core.Bool.{decide}
use native.Mathlib.Decide.{ℕ_discrete}
use cache.Base.{
  ℕ, ◌+◌, ◌-◌, ◌%◌, ◌^◌, ◌≡◌, Bool, true, false, Option, none, some, List, arith, leb,
  if◌then◌else◌,
}
use cache.Outcome.{Op}

-- cache2/src/io/file.rs and cache2/src/region/record/mod.rs
abbrev pub direct_io_alignment : ℕ
direct_io_alignment = 4096

abbrev pub record_alignment : ℕ
record_alignment = 32

abbrev pub u64_max : ℕ
u64_max = 2 ^ 64 - 1

abbrev pub u32_max : ℕ
u32_max = 2 ^ 32 - 1

-- `checked_add` and `wrapping_neg` on `u64`, and the narrowing to `u32`
abbrev pub checked_add : ℕ → ℕ → Option ℕ
checked_add a b = if leb (a + b) u64_max then some (a + b) else none

abbrev pub to_u32 : ℕ → Option ℕ
to_u32 a = if leb a u32_max then some a else none

abbrev pub saturating_add : ℕ → ℕ → ℕ
saturating_add a b = if leb (a + b) u64_max then a + b else u64_max

-- `x.wrapping_neg() & (DIRECT_IO_ALIGNMENT - 1)`; the mask keeps the low 12 bits.
abbrev pub padding_of : ℕ → ℕ
padding_of x = (2 ^ 64 - x) % 2 ^ 64 % direct_io_alignment

pub data RegionState : Type 0 where
  free active sealed : RegionState

pub data MutationError : Type 0 where
  invalid_shard : MutationError
  invalid_record_length : MutationError
  would_block : MutationError
  flush_before_rotation : MutationError
  region_full : MutationError
  stale_receipt : MutationError
  sequence_exhausted : MutationError
  arithmetic_overflow : MutationError
  invariant : String → MutationError

pub record AppendReservation : Type 0 where
  pub shard_id : ℕ
  pub region_id : ℕ
  pub region_created_seqno : ℕ
  pub offset : ℕ
  pub record_bytes : ℕ
  pub seqno : ℕ

abbrev pub end_offset : AppendReservation → Option ℕ
end_offset r = checked_add r.offset r.record_bytes

pub record PaddingReceipt : Type 0 where
  pub shard_id : ℕ
  pub region_id : ℕ
  pub span_start_offset : ℕ
  pub unpadded_end_offset : ℕ
  pub padded_end_offset : ℕ
  pub record_count : ℕ
  pub max_seqno : ℕ

-- `padding_bytes`: `checked_sub`, then the narrowing to `u32`
abbrev pub padding_bytes : PaddingReceipt → Option ℕ
padding_bytes p =
    if leb p.unpadded_end_offset p.padded_end_offset
    then to_u32 (p.padded_end_offset - p.unpadded_end_offset)
    else none

pub record WriteSpan : Type 0 where
  pub shard_id : ℕ
  pub region_id : ℕ
  pub start_offset : ℕ
  pub end_offset : ℕ
  pub record_count : ℕ
  pub max_seqno : ℕ

pub record RotationReceipt : Type 0 where
  pub shard_id : ℕ
  pub sealed_region_id : ℕ
  pub activated_region_id : ℕ
  pub activated_created_seqno : ℕ

pub record ReclaimReceipt : Type 0 where
  pub region_id : ℕ
  pub created_seqno : ℕ
  pub used_offset : ℕ
  pub physical_record_count : ℕ

pub record RotationCandidate : Type 0 where
  pub shard_id : ℕ
  pub victim_region_id : ℕ
  pub victim_created_seqno : ℕ

pub record RotationSelection : Type 0 where
  pub candidate : RotationCandidate
  pub old_index : ℕ
  pub victim_index : ℕ

pub record OpenSpan : Type 0 where
  pub region_id : ℕ
  pub start_offset : ℕ
  pub end_offset : ℕ
  pub record_count : ℕ
  pub max_seqno : ℕ

pub record ShardState : Type 0 where
  pub tail : Option AppendReservation
  pub open_span : Option OpenSpan
  pub pending_padding : Option PaddingReceipt
  pub submitted_span : Option WriteSpan
  pub rotation_requested : Bool
  pub rotation : Option RotationReceipt

pub record RegionDesc : Type 0 where
  pub state : RegionState
  pub created_seqno : ℕ
  pub completed_used : ℕ
  pub reserved_used : ℕ
  pub physical_record_count : ℕ

pub record Manager : Type 0 where
  pub region_size : ℕ
  pub next_seqno : ℕ
  pub regions : List RegionDesc
  pub active_regions : List ℕ
  pub append_states : List ShardState
  pub free_regions : List ℕ
  pub sealed_regions : List ℕ
  pub reclaiming : List ReclaimReceipt
  pub reclaim_limit : ℕ
  pub queue_capacity : ℕ
  pub rotations : ℕ

abbrev pub Method : Type 0 → Type 0
Method A = Op MutationError Manager A

-- The derived comparisons.
unfoldable pub AppendReservation-discrete : Discrete AppendReservation
AppendReservation-discrete = hlevel ℕ_discrete

unfoldable pub PaddingReceipt-discrete : Discrete PaddingReceipt
PaddingReceipt-discrete = hlevel ℕ_discrete

unfoldable pub WriteSpan-discrete : Discrete WriteSpan
WriteSpan-discrete = hlevel ℕ_discrete

unfoldable pub RotationReceipt-discrete : Discrete RotationReceipt
RotationReceipt-discrete = hlevel ℕ_discrete

unfoldable pub ReclaimReceipt-discrete : Discrete ReclaimReceipt
ReclaimReceipt-discrete = hlevel ℕ_discrete

unfoldable pub RotationCandidate-discrete : Discrete RotationCandidate
RotationCandidate-discrete = hlevel ℕ_discrete

abbrev pub is_active : RegionState → Bool
is_active active = true
is_active _ = false

abbrev pub is_sealed : RegionState → Bool
is_sealed sealed = true
is_sealed _ = false

abbrev pub is_free : RegionState → Bool
is_free free = true
is_free _ = false

-- `o == Some(a)`
unfoldable pub holds : {A : Type 0} → Discrete A → Option A → A → Bool
holds same none a = false
holds same (some b) a = decide (same b a)

pub holds_sound :
    {A : Type 0} (same : Discrete A) (o : Option A) (a : A) → holds same o a ≡ true → o ≡ some a
unfolding holds decide
holds_sound same none a h = ground arith
holds_sound same (some b) a h = ground arith

pub holds_self : {A : Type 0} (same : Discrete A) (a : A) → holds same (some a) a ≡ true
unfolding holds decide
holds_self same a = ground arith

-- A test of a run unfolds all of these.
unfoldable pub comparing : Unit {0}
unfolding holds decide ℕ_discrete AppendReservation-discrete PaddingReceipt-discrete
    WriteSpan-discrete RotationReceipt-discrete ReclaimReceipt-discrete RotationCandidate-discrete
comparing = tt
