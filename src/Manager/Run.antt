-- ===== src/Manager/Run.antt =====
-- Sequences of calls of the manager's methods that change it, but for those of the tests, with any
-- arguments: cache2/src/region/manager.rs.
-- Receipts and candidates are data, so a call may present an old one, or one never issued.
use cache.Base.{ℕ, ◌+◌, ◌≡◌, ◌≢◌, List, [], ◌∷◌, arith, none, some, ◌⊎◌, inl, inr}
use cache.Outcome.{final}
use cache.Manager.Update.{RegionFits-mono, ChainFits-mono}
use cache.Manager.State.{
  u64_max, AppendReservation, PaddingReceipt, WriteSpan, RotationReceipt, ReclaimReceipt,
  RotationCandidate, Manager,
}
use cache.Manager.Append.{
  allocate_seqno, request_rotation_for_append, reserve_append, stage_reservation,
}
use cache.Manager.Flush.{
  reserve_write_padding, seal_write_span, seal_write_span_with_padding, complete_write_span,
}
use cache.Manager.Rotation.{begin_rotation, finish_rotation}
use cache.Manager.Reclaim.{begin_reclaim, finish_reclaim, configure_reclaim_workers}
use cache.Manager.Valid.{IsValid}
use cache.Manager.AppendKeeps.{
  allocate_cases, request_rotation-IsValid, reserve_append-IsValid, stage_reservation-IsValid,
}
use cache.Manager.FlushKeeps.{
  reserve_write_padding-IsValid, seal_write_span-IsValid, seal_write_span_with_padding-IsValid,
  complete_write_span-IsValid,
}
use cache.Manager.QueueKeeps.{begin_rotation-IsValid}
use cache.Manager.FinishKeeps.{finish_rotation-IsValid}
use cache.Manager.ReclaimKeeps.{begin_reclaim-IsValid, finish_reclaim-IsValid}

pub data Call : Type 0 where
  request_rotation : ℕ → ℕ → Call
  reserve : ℕ → ℕ → Call
  stage : AppendReservation → Call
  pad : ℕ → Call
  seal : ℕ → Call
  seal_padded : PaddingReceipt → Call
  complete : WriteSpan → Call
  rotate : RotationCandidate → Call
  finish : RotationReceipt → Call
  configure : ℕ → Call
  reclaim : Call
  release : ReclaimReceipt → Call
  allocate : Call

-- A refused number of workers changes nothing.
abbrev pub configured : ℕ → Manager → Manager
configured workers m = elim (configure_reclaim_workers workers m) [ none ↦ m | some m' ↦ m' ]

-- The state that one call leaves, whether it succeeds or fails.
unfoldable pub step : Call → Manager → Manager
step (request_rotation s n) m = final (request_rotation_for_append s n m)
step (reserve s n) m = final (reserve_append s n m)
step (stage t) m = final (stage_reservation t m)
step (pad s) m = final (reserve_write_padding s m)
step (seal s) m = final (seal_write_span s m)
step (seal_padded p) m = final (seal_write_span_with_padding p m)
step (complete w) m = final (complete_write_span w m)
step (rotate c) m = final (begin_rotation c m)
step (finish q) m = final (finish_rotation q m)
step (configure n) m = configured n m
step reclaim m = final (begin_reclaim m)
step (release c) m = final (finish_reclaim c m)
step allocate m = final (allocate_seqno m)

unfoldable pub run : List Call → Manager → Manager
run [] m = m
run (c ∷ cs) m = run cs (step c m)

limited-IsValid : {m : Manager} → IsValid m → (n : ℕ) → IsValid (record m { reclaim_limit = n })
limited-IsValid v n = record {
  aligned_size = v.aligned_size;
  size_fits = v.size_fits;
  few_regions = v.few_regions;
  seqno_starts = v.seqno_starts;
  seqno_fits = v.seqno_fits;
  shards = v.shards;
  capacity = v.capacity;
  sizes = v.sizes;
  placed = v.placed;
  active_iff = v.active_iff;
  free_iff = v.free_iff;
  region_fits = v.region_fits;
  chain_fits = v.chain_fits;
}

configure_cases :
    (n : ℕ) (m : Manager)
    → (configure_reclaim_workers n m ≡ none)
      ⊎ (configure_reclaim_workers n m ≡ some (record m { reclaim_limit = n }))
unfolding configure_reclaim_workers
configure_cases n m = ground arith

configured-IsValid : {m : Manager} → IsValid m → (n : ℕ) → IsValid (configured n m)
configured-IsValid {m} v n = elim (configure_cases n m) [
  | inl e ↦ rw (e, configured) v
  | inr e ↦ rw (e, configured) (limited-IsValid v n)
]

-- A sequence number that is taken and not used leaves the rest of the invariant.
numbered-IsValid :
    {m : Manager}
    → IsValid m
    → m.next_seqno ≢ u64_max
    → IsValid (record m { next_seqno = m.next_seqno + 1 })
numbered-IsValid v left = record {
  aligned_size = v.aligned_size;
  size_fits = v.size_fits;
  few_regions = v.few_regions;
  seqno_starts = omega (arith, v.seqno_starts);
  seqno_fits = omega (arith, v.seqno_fits, left);
  shards = v.shards;
  capacity = v.capacity;
  sizes = v.sizes;
  placed = v.placed;
  active_iff = v.active_iff;
  free_iff = v.free_iff;
  region_fits = λ r d at. RegionFits-mono (omega arith) (v.region_fits r d at);
  chain_fits = λ s r shard d a b c.
      ChainFits-mono s r shard d (omega arith) (v.chain_fits s r shard d a b c);
}

allocate-IsValid : {m : Manager} → IsValid m → IsValid (final (allocate_seqno m))
allocate-IsValid {m} v = elim (allocate_cases m) [
  | inl e ↦ rw e v
  | inr (left, e) ↦ rw e (numbered-IsValid v left)
]

step-IsValid : (c : Call) {m : Manager} → IsValid m → IsValid (step c m)
unfolding step
step-IsValid (request_rotation s n) v = request_rotation-IsValid v s n
step-IsValid (reserve s n) v = reserve_append-IsValid v s n
step-IsValid (stage t) v = stage_reservation-IsValid v t
step-IsValid (pad s) v = reserve_write_padding-IsValid v s
step-IsValid (seal s) v = seal_write_span-IsValid v s
step-IsValid (seal_padded p) v = seal_write_span_with_padding-IsValid v p
step-IsValid (complete w) v = complete_write_span-IsValid v w
step-IsValid (rotate c) v = begin_rotation-IsValid v c
step-IsValid (finish q) v = finish_rotation-IsValid v q
step-IsValid (configure n) v = configured-IsValid v n
step-IsValid reclaim v = begin_reclaim-IsValid v
step-IsValid (release c) v = finish_reclaim-IsValid v c
step-IsValid allocate v = allocate-IsValid v

-- In any sequence of calls of the manager's thirteen methods that change it, with any arguments and
-- whatever each call returns, a manager that satisfies the invariant goes on satisfying it.
pub run-IsValid : (cs : List Call) {m : Manager} → IsValid m → IsValid (run cs m)
unfolding run
run-IsValid [] v = v
run-IsValid (c ∷ cs) v = run-IsValid cs (step-IsValid c v)
