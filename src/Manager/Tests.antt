-- ===== src/Manager/Tests.antt =====
-- Runs of a small manager: one shard on the first of three Regions of 8 KiB.
use cache.Base.{
  ℕ, ◌<◌, zero, suc, ◌≡◌, refl, ◌⊎◌, true, false, some, none, List, [], ◌∷◌, arith, get_elem?, hit,
  total, map, length, ltb,
}
use mathlib.Core.Path.{subst}
use mathlib.Core.Option.{some-injective}
use cache.Outcome.{ok, err, running}
use cache.Manager.State.{
  free, active, AppendReservation, PaddingReceipt, WriteSpan, RotationReceipt, ReclaimReceipt,
  RotationCandidate, ShardState, RegionDesc, Manager, stale_receipt, is_active, is_free, comparing,
}
use cache.Manager.Append.{
  allocate_seqno, extend_span, reserve_append, stage_reservation, request_rotation_for_append,
}
use cache.Manager.Flush.{
  reserve_write_padding, submit_open_span, seal_write_span, seal_write_span_with_padding,
  complete_write_span,
}
use cache.Manager.Rotation.{
  tail_of, select_rotation, pop_free, seal_region, note_rotation, begin_rotation, finish_rotation,
}
use cache.Manager.Reclaim.{
  reclaim_needed, pop_sealed, reclaim_receipt, push_reclaiming, begin_reclaim, position,
  finish_reclaim,
}
use cache.Manager.Valid.{ChainFits, RegionFits, one_if, places, IsValid}
use cache.Manager.Run.{
  Call, request_rotation, reserve, stage, pad, seal_padded, complete, rotate, finish, allocate,
  step, run, run-IsValid,
}
use cache.Manager.Sequence.{reserve_ordered}
use cache.Manager.Internal.{Sound, methods-Sound}
use cache.Manager.Receipts.{staged, receipts_once}
use cache.Manager.Refusals.{try_stage, refused_unchanged}
use cache.Manager.Reserve.{Reserves, reserve_append-Reserves}
use cache.Manager.ReclaimKeeps.{Oldest, begin_reclaim_lem}

runs : Unit {0}
unfolding running comparing allocate_seqno extend_span reserve_append stage_reservation
    request_rotation_for_append reserve_write_padding submit_open_span seal_write_span
    seal_write_span_with_padding complete_write_span select_rotation pop_free seal_region
    note_rotation begin_rotation finish_rotation reclaim_needed pop_sealed begin_reclaim position
    finish_reclaim step run
runs = tt

abbrev idle_shard : ShardState
idle_shard = record {
  tail = none;
  open_span = none;
  pending_padding = none;
  submitted_span = none;
  rotation_requested = false;
  rotation = none;
}

abbrev empty_region : RegionDesc
empty_region = record {
  state = free;
  created_seqno = 0;
  completed_used = 0;
  reserved_used = 0;
  physical_record_count = 0;
}

abbrev sample : Manager
sample = record {
  region_size = 8192;
  next_seqno = 2;
  regions =
      record empty_region { state = active; created_seqno = 1 } ∷ empty_region ∷ empty_region ∷ [];
  active_regions = 0 ∷ [];
  append_states = idle_shard ∷ [];
  free_regions = 1 ∷ 2 ∷ [];
  sealed_regions = [];
  reclaiming = [];
  reclaim_limit = 1;
  queue_capacity = 2;
  rotations = 0;
}

sample_active :
    (r : ℕ) (d : RegionDesc)
    → get_elem? sample.regions r ≡ some d
    → total (hit r) sample.active_regions ≡ one_if (is_active d.state)
unfolding total
sample_active zero d h = ground arith
sample_active (suc zero) d h = ground arith
sample_active (suc (suc zero)) d h = ground arith
sample_active (suc (suc (suc r))) d h = cc

sample_free :
    (r : ℕ) (d : RegionDesc)
    → get_elem? sample.regions r ≡ some d
    → total (hit r) sample.free_regions ≡ one_if (is_free d.state)
unfolding total
sample_free zero d h = ground arith
sample_free (suc zero) d h = ground arith
sample_free (suc (suc zero)) d h = ground arith
sample_free (suc (suc (suc r))) d h = cc

sample_placed : (r : ℕ) → places sample r ≡ one_if (ltb r (length sample.regions))
unfolding total
sample_placed zero = ground arith
sample_placed (suc zero) = ground arith
sample_placed (suc (suc zero)) = ground arith
sample_placed (suc (suc (suc r))) = ground arith

abbrev first_region : RegionDesc
first_region = record empty_region { state = active; created_seqno = 1 }

first_fits : RegionFits 8192 2 first_region
first_fits = record {
  reserved = omega arith;
  completed = omega arith;
  completed_aligned = refl;
  reserved_aligned = refl;
  created = omega arith;
  quiet = λ h. refl;
}

empty_fits : RegionFits 8192 2 empty_region
empty_fits = record {
  reserved = omega arith;
  completed = omega arith;
  completed_aligned = refl;
  reserved_aligned = refl;
  created = omega arith;
  quiet = λ h. refl;
}

first_chain : ChainFits 2 0 0 idle_shard first_region
first_chain = record { submitted = tt; opened = tt; tail = refl; rotation = tt }

sample_fits :
    (r : ℕ) (d : RegionDesc)
    → get_elem? sample.regions r ≡ some d
    → RegionFits sample.region_size sample.next_seqno d
sample_fits zero d h = subst (RegionFits _ _) (some-injective _ _ h) first_fits
sample_fits (suc zero) d h = subst (RegionFits _ _) (some-injective _ _ h) empty_fits
sample_fits (suc (suc zero)) d h = subst (RegionFits _ _) (some-injective _ _ h) empty_fits
sample_fits (suc (suc (suc r))) d h = cc

sample_chain :
    (s r : ℕ) (shard : ShardState) (d : RegionDesc)
    → get_elem? sample.append_states s ≡ some shard
    → get_elem? sample.active_regions s ≡ some r
    → get_elem? sample.regions r ≡ some d
    → ChainFits sample.next_seqno s r shard d
sample_chain zero zero shard d hs ha h =
    subst (λ x. ChainFits 2 0 0 x d) (some-injective _ _ hs)
      (subst (ChainFits 2 0 0 idle_shard) (some-injective _ _ h) first_chain)
sample_chain zero (suc r) shard d hs ha h = absurd (ground (arith, some-injective _ _ ha))
sample_chain (suc s) r shard d hs ha h = cc

sample-IsValid : IsValid sample
unfolding total
sample-IsValid = record {
  aligned_size = refl;
  size_fits = omega arith;
  few_regions = omega arith;
  seqno_starts = omega arith;
  seqno_fits = omega arith;
  shards = refl;
  capacity = refl;
  sizes = refl;
  placed = sample_placed;
  active_iff = sample_active;
  free_iff = sample_free;
  region_fits = sample_fits;
  chain_fits = sample_chain;
}

abbrev staged_record : AppendReservation
staged_record = record {
  shard_id = 0;
  region_id = 0;
  region_created_seqno = 1;
  offset = 0;
  record_bytes = 96;
  seqno = 2;
}

abbrev padded_span : WriteSpan
padded_span = record {
  shard_id = 0;
  region_id = 0;
  start_offset = 0;
  end_offset = 4096;
  record_count = 1;
  max_seqno = 2;
}

abbrev padding : PaddingReceipt
padding = record {
  shard_id = 0;
  region_id = 0;
  span_start_offset = 0;
  unpadded_end_offset = 96;
  padded_end_offset = 4096;
  record_count = 1;
  max_seqno = 2;
}

-- A record is reserved, staged, padded to a page, submitted and completed.
abbrev filling : List Call
filling =
    reserve 0 96 ∷ stage staged_record ∷ pad 0 ∷ seal_padded padding ∷ complete padded_span ∷ []

abbrev first_candidate : RotationCandidate
first_candidate = record { shard_id = 0; victim_region_id = 1; victim_created_seqno = 0 }

abbrev first_rotation : RotationReceipt
first_rotation = record {
  shard_id = 0;
  sealed_region_id = 0;
  activated_region_id = 1;
  activated_created_seqno = 2;
}

abbrev first_reclaim : ReclaimReceipt
first_reclaim = record {
  region_id = 0;
  created_seqno = 1;
  used_offset = 0;
  physical_record_count = 0;
}

-- The shard moves to the Region 1, and then to the Region 2.
abbrev rotating_twice : List Call
rotating_twice =
    request_rotation 0 8224
    ∷ rotate first_candidate
    ∷ finish first_rotation
    ∷ request_rotation 0 8224
    ∷ rotate (record { shard_id = 0; victim_region_id = 2; victim_created_seqno = 0 })
    ∷ finish (record {
      shard_id = 0;
      sealed_region_id = 1;
      activated_region_id = 2;
      activated_created_seqno = 3;
    })
    ∷ []

abbrev completed_ends : Manager → List ℕ
completed_ends m = map (λ d. d.completed_used) m.regions

filled_test : completed_ends (run filling sample) ≡ 4096 ∷ 0 ∷ 0 ∷ []
unfolding runs
filled_test = refl

rotated_test : (run rotating_twice sample).sealed_regions ≡ 0 ∷ 1 ∷ []
unfolding runs
rotated_test = refl

reclaim_test : reclaim_needed (run rotating_twice sample) ≡ true
unfolding runs
reclaim_test = refl

run-IsValid_example : IsValid (run filling sample)
run-IsValid_example = run-IsValid filling sample-IsValid

rotated-IsValid : IsValid (run rotating_twice sample)
rotated-IsValid = run-IsValid rotating_twice sample-IsValid

reserve_test : reserve_append 0 96 sample ≡ ok staged_record (run (reserve 0 96 ∷ []) sample)
unfolding runs
reserve_test = refl

stage_test :
    stage_reservation staged_record (run (reserve 0 96 ∷ []) sample)
    ≡ ok tt (run (reserve 0 96 ∷ stage staged_record ∷ []) sample)
unfolding runs
stage_test = refl

receipts_once_example :
    stage_reservation staged_record (run (reserve 0 96 ∷ stage staged_record ∷ []) sample)
    ≡ err stale_receipt (run (reserve 0 96 ∷ stage staged_record ∷ []) sample)
receipts_once_example =
    receipts_once (staged staged_record) (run (reserve 0 96 ∷ []) sample)
      (run (reserve 0 96 ∷ stage staged_record ∷ []) sample) stage_test

stale_test : stage_reservation staged_record sample ≡ err stale_receipt sample
unfolding runs
stale_test = refl

refused_unchanged_example : sample ≡ sample
refused_unchanged_example =
    refused_unchanged (try_stage staged_record) sample sample stale_receipt stale_test

abbrev later_record : AppendReservation
later_record = record {
  shard_id = 0;
  region_id = 0;
  region_created_seqno = 1;
  offset = 4096;
  record_bytes = 64;
  seqno = 4;
}

abbrev writing : List Call
writing = stage staged_record ∷ allocate ∷ pad 0 ∷ seal_padded padding ∷ complete padded_span ∷ []

later_test :
    reserve_append 0 64 (run writing (run (reserve 0 96 ∷ []) sample))
    ≡ ok later_record (run (reserve 0 64 ∷ []) (run writing (run (reserve 0 96 ∷ []) sample)))
unfolding runs
later_test = refl

reserve_ordered_example : 2 < 4
reserve_ordered_example =
    reserve_ordered 0 96 0 64 writing sample (run (reserve 0 96 ∷ []) sample)
      (run (reserve 0 64 ∷ []) (run writing (run (reserve 0 96 ∷ []) sample))) staged_record
      later_record reserve_test later_test

reserve_append-Reserves_example : Reserves sample 0 96 (reserve_append 0 96 sample)
reserve_append-Reserves_example = reserve_append-Reserves sample 0 96

methods-Sound_example :
    Sound (request_rotation_for_append 0 96 sample)
    × Sound (reserve_append 0 96 sample)
    × Sound (stage_reservation staged_record sample)
    × Sound (complete_write_span padded_span sample)
    × Sound (begin_rotation first_candidate sample)
    × Sound (finish_rotation first_rotation sample)
    × Sound (begin_reclaim sample)
    × Sound (finish_reclaim first_reclaim sample)
methods-Sound_example =
    methods-Sound sample-IsValid 0 96 staged_record padded_span first_candidate first_rotation
      first_reclaim

begin_reclaim_lem_example :
    (reclaim_needed (run rotating_twice sample) ≡ false)
      × (begin_reclaim (run rotating_twice sample) ≡ ok none (run rotating_twice sample))
    ⊎ (r : ℕ) × (x : Oldest (run rotating_twice sample) r) × (reclaim_needed
          (run rotating_twice sample)
        ≡ true)
      × (begin_reclaim (run rotating_twice sample)
          ≡ ok (some (reclaim_receipt r x.region)) (
              push_reclaiming (reclaim_receipt r x.region) (record (run rotating_twice sample) {
                sealed_regions = tail_of (run rotating_twice sample).sealed_regions;
              })))
begin_reclaim_lem_example = begin_reclaim_lem rotated-IsValid
