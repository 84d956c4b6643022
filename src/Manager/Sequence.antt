-- ===== src/Manager/Sequence.antt =====
-- Sequence numbers: cache2/src/region/manager.rs, `allocate_seqno` and its callers.
use cache.Base.{ℕ, ◌+◌, ◌≤◌, ◌<◌, ◌≡◌, List, [], ◌∷◌, arith}
use cache.Outcome.{ok, final, running}
use cache.Manager.State.{
  AppendReservation, PaddingReceipt, WriteSpan, RotationReceipt, RotationCandidate, ReclaimReceipt,
  Manager,
}
use cache.Manager.Append.{
  allocate_seqno, request_rotation_for_append, reserve_append, stage_reservation,
}
use cache.Manager.Flush.{
  reserve_write_padding, submit_open_span, seal_write_span, seal_write_span_with_padding,
  complete_write_span,
}
use cache.Manager.Rotation.{
  select_rotation, pop_free, seal_region, note_rotation, begin_rotation, finish_rotation,
}
use cache.Manager.Reclaim.{pop_sealed, begin_reclaim, finish_reclaim, configure_reclaim_workers}
use cache.Manager.Run.{Call, configured, step, run}

request_le :
    (s n : ℕ) (m : Manager) → m.next_seqno ≤ (final (request_rotation_for_append s n m)).next_seqno
unfolding request_rotation_for_append running
request_le s n m = ground arith

reserve_le : (s n : ℕ) (m : Manager) → m.next_seqno ≤ (final (reserve_append s n m)).next_seqno
unfolding reserve_append allocate_seqno running
reserve_le s n m = ground arith

stage_le :
    (t : AppendReservation) (m : Manager)
    → m.next_seqno ≤ (final (stage_reservation t m)).next_seqno
unfolding stage_reservation running
stage_le t m = ground arith

pad_le : (s : ℕ) (m : Manager) → m.next_seqno ≤ (final (reserve_write_padding s m)).next_seqno
unfolding reserve_write_padding running
pad_le s m = ground arith

seal_le : (s : ℕ) (m : Manager) → m.next_seqno ≤ (final (seal_write_span s m)).next_seqno
unfolding seal_write_span submit_open_span running
seal_le s m = ground arith

seal_padded_le :
    (p : PaddingReceipt) (m : Manager)
    → m.next_seqno ≤ (final (seal_write_span_with_padding p m)).next_seqno
unfolding seal_write_span_with_padding submit_open_span running
seal_padded_le s m = ground arith

complete_le :
    (w : WriteSpan) (m : Manager) → m.next_seqno ≤ (final (complete_write_span w m)).next_seqno
unfolding complete_write_span running
complete_le s m = ground arith

rotate_le :
    (w : RotationCandidate) (m : Manager) → m.next_seqno ≤ (final (begin_rotation w m)).next_seqno
unfolding begin_rotation select_rotation pop_free seal_region note_rotation allocate_seqno running
rotate_le s m = ground arith

finish_le :
    (w : RotationReceipt) (m : Manager) → m.next_seqno ≤ (final (finish_rotation w m)).next_seqno
unfolding finish_rotation running
finish_le s m = ground arith

reclaim_le : (m : Manager) → m.next_seqno ≤ (final (begin_reclaim m)).next_seqno
unfolding begin_reclaim pop_sealed running
reclaim_le m = ground arith

release_le :
    (w : ReclaimReceipt) (m : Manager) → m.next_seqno ≤ (final (finish_reclaim w m)).next_seqno
unfolding finish_reclaim running
release_le s m = ground arith

allocate_le : (m : Manager) → m.next_seqno ≤ (final (allocate_seqno m)).next_seqno
unfolding allocate_seqno running
allocate_le m = ground arith

configure_le : (n : ℕ) (m : Manager) → m.next_seqno ≤ (configured n m).next_seqno
unfolding configure_reclaim_workers
configure_le n m = ground arith

step_le : (c : Call) (m : Manager) → m.next_seqno ≤ (step c m).next_seqno
unfolding step
step_le (Call.request_rotation s n) m = request_le s n m
step_le (Call.reserve s n) m = reserve_le s n m
step_le (Call.stage t) m = stage_le t m
step_le (Call.pad s) m = pad_le s m
step_le (Call.seal s) m = seal_le s m
step_le (Call.seal_padded p) m = seal_padded_le p m
step_le (Call.complete w) m = complete_le w m
step_le (Call.rotate c) m = rotate_le c m
step_le (Call.finish q) m = finish_le q m
step_le (Call.configure n) m = configure_le n m
step_le Call.reclaim m = reclaim_le m
step_le (Call.release c) m = release_le c m
step_le Call.allocate m = allocate_le m

run_le : (cs : List Call) (m : Manager) → m.next_seqno ≤ (run cs m).next_seqno
unfolding run
run_le [] m = omega arith
run_le (c ∷ cs) m = omega (arith, step_le c m, run_le cs (step c m))

reserved_seqno :
    (s n : ℕ) (m m' : Manager) (t : AppendReservation)
    → reserve_append s n m ≡ ok t m'
    → (t.seqno ≡ m.next_seqno) × (m'.next_seqno ≡ m.next_seqno + 1)
unfolding reserve_append allocate_seqno running
reserved_seqno s n m m' t h = ground arith

-- A later reservation has the larger sequence number, whichever shards the two are on and whatever
-- calls, successful or not, come between them.
pub reserve_ordered :
    (s n s' n' : ℕ) (cs : List Call) (m m' m'' : Manager) (t t' : AppendReservation)
    → reserve_append s n m ≡ ok t m'
    → reserve_append s' n' (run cs m') ≡ ok t' m''
    → t.seqno < t'.seqno
reserve_ordered s n s' n' cs m m' m'' t t' h h' =
    omega
      (arith, reserved_seqno s n m m' t h, run_le cs m', reserved_seqno s' n' (run cs m') m'' t' h')
