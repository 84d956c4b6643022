-- ===== src/Manager/Refusals.antt =====
-- What refused calls leave: cache2/src/region/manager.rs.
use cache.Base.{ℕ, ◌≡◌, arith}
use cache.Outcome.{Outcome, ok, err, running}
use cache.Manager.State.{
  MutationError, AppendReservation, PaddingReceipt, WriteSpan, RotationReceipt, ReclaimReceipt,
  Manager,
}
use cache.Manager.Append.{stage_reservation}
use cache.Manager.Flush.{
  reserve_write_padding, submit_open_span, seal_write_span, seal_write_span_with_padding,
  complete_write_span,
}
use cache.Manager.Rotation.{finish_rotation}
use cache.Manager.Reclaim.{finish_reclaim}

stage_refused :
    (t : AppendReservation) (m m' : Manager) (e : MutationError)
    → stage_reservation t m ≡ err e m'
    → m' ≡ m
unfolding stage_reservation running
stage_refused t m m' e h = ground arith

pad_refused :
    (s : ℕ) (m m' : Manager) (e : MutationError) → reserve_write_padding s m ≡ err e m' → m' ≡ m
unfolding reserve_write_padding running
pad_refused s m m' e h = ground arith

seal_refused :
    (s : ℕ) (m m' : Manager) (e : MutationError) → seal_write_span s m ≡ err e m' → m' ≡ m
unfolding seal_write_span submit_open_span running
seal_refused s m m' e h = ground arith

seal_padded_refused :
    (p : PaddingReceipt) (m m' : Manager) (e : MutationError)
    → seal_write_span_with_padding p m ≡ err e m'
    → m' ≡ m
unfolding seal_write_span_with_padding submit_open_span running
seal_padded_refused p m m' e h = ground arith

complete_refused :
    (w : WriteSpan) (m m' : Manager) (e : MutationError)
    → complete_write_span w m ≡ err e m'
    → m' ≡ m
unfolding complete_write_span running
complete_refused w m m' e h = ground arith

finish_refused :
    (q : RotationReceipt) (m m' : Manager) (e : MutationError)
    → finish_rotation q m ≡ err e m'
    → m' ≡ m
unfolding finish_rotation running
finish_refused q m m' e h = ground arith

release_refused :
    (c : ReclaimReceipt) (m m' : Manager) (e : MutationError)
    → finish_reclaim c m ≡ err e m'
    → m' ≡ m
unfolding finish_reclaim running
release_refused c m m' e h = ground arith

-- The methods that change nothing when they fail, with their arguments.
pub data Atomic : Type 0 where
  try_stage : AppendReservation → Atomic
  try_pad : ℕ → Atomic
  try_seal : ℕ → Atomic
  try_seal_padded : PaddingReceipt → Atomic
  try_complete : WriteSpan → Atomic
  try_finish : RotationReceipt → Atomic
  try_release : ReclaimReceipt → Atomic

abbrev pub forget :
    {A : Type 0} → Outcome MutationError Manager A → Outcome MutationError Manager (Unit {0})
forget (ok a m) = ok tt m
forget (err e m) = err e m

abbrev pub call : Atomic → Manager → Outcome MutationError Manager (Unit {0})
call (try_stage t) m = stage_reservation t m
call (try_pad s) m = forget (reserve_write_padding s m)
call (try_seal s) m = forget (seal_write_span s m)
call (try_seal_padded p) m = forget (seal_write_span_with_padding p m)
call (try_complete w) m = complete_write_span w m
call (try_finish q) m = finish_rotation q m
call (try_release c) m = finish_reclaim c m

forget_err :
    {A : Type 0} (o : Outcome MutationError Manager A) (e : MutationError) (m : Manager)
    → forget o ≡ err e m
    → o ≡ err e m
forget_err (ok a n) e m h = cc
forget_err (err e' n) e m h = cc

-- When one of the methods `stage_reservation`, `reserve_write_padding`, `seal_write_span`,
-- `seal_write_span_with_padding`, `complete_write_span`, `finish_rotation` and `finish_reclaim`
-- fails, whatever the manager and the arguments are, it has changed nothing.
pub refused_unchanged :
    (c : Atomic) (m m' : Manager) (e : MutationError) → call c m ≡ err e m' → m' ≡ m
refused_unchanged (try_stage t) m m' e h = stage_refused t m m' e h
refused_unchanged (try_pad s) m m' e h = pad_refused s m m' e (forget_err _ e m' h)
refused_unchanged (try_seal s) m m' e h = seal_refused s m m' e (forget_err _ e m' h)
refused_unchanged (try_seal_padded p) m m' e h = seal_padded_refused p m m' e (forget_err _ e m' h)
refused_unchanged (try_complete w) m m' e h = complete_refused w m m' e h
refused_unchanged (try_finish q) m m' e h = finish_refused q m m' e h
refused_unchanged (try_release c) m m' e h = release_refused c m m' e h
