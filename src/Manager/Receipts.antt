-- ===== src/Manager/Receipts.antt =====
-- Receipts are taken once: cache2/src/region/manager.rs.
use cache.Base.{◌≡◌, refl, none, some, arith, get_elem?, get-set_self}
use mathlib.Core.Path.{subst}
use cache.Outcome.{
  Outcome, ok, err, running, guard-rule, need-rule, attempt-rule, modify-rule, modify-last,
}
use cache.Manager.State.{
  MutationError, stale_receipt, AppendReservation, WriteSpan, RotationReceipt, ReclaimReceipt,
  RegionState, ShardState, RegionDesc, Manager, holds,
}
use cache.Manager.Append.{set_shard, set_region, stage_reservation}
use cache.Manager.Flush.{complete_write_span}
use cache.Manager.Rotation.{finish_rotation, publish_sealed}
use cache.Manager.Reclaim.{free_region, finish_reclaim, release_region}

stage_stale :
    (t : AppendReservation) (m : Manager) (shard : ShardState)
    → get_elem? m.append_states t.shard_id ≡ some shard
    → shard.tail ≡ none
    → stage_reservation t m ≡ err stale_receipt m
unfolding stage_reservation holds running
stage_stale t m shard h e = ground arith

complete_stale :
    (w : WriteSpan) (m : Manager) (shard : ShardState)
    → get_elem? m.append_states w.shard_id ≡ some shard
    → shard.submitted_span ≡ none
    → complete_write_span w m ≡ err stale_receipt m
unfolding complete_write_span holds running
complete_stale w m shard h e = ground arith

finish_stale :
    (q : RotationReceipt) (m : Manager) (shard : ShardState)
    → get_elem? m.append_states q.shard_id ≡ some shard
    → shard.rotation ≡ none
    → finish_rotation q m ≡ err stale_receipt m
unfolding finish_rotation holds running
finish_stale q m shard h e = ground arith

release_stale :
    (c : ReclaimReceipt) (m : Manager) (d : RegionDesc)
    → get_elem? m.regions c.region_id ≡ some d
    → d.state ≡ RegionState.free
    → finish_reclaim c m ≡ err stale_receipt m
unfolding finish_reclaim running
release_stale c m d h e = ground arith

stage_once :
    (t : AppendReservation) (m m' : Manager)
    → stage_reservation t m ≡ ok tt m'
    → stage_reservation t m' ≡ err stale_receipt m'
unfolding stage_reservation
stage_once t m m' =
    let Q : Outcome MutationError Manager (Unit {0}) → Type 0 =
      λ o. o ≡ ok tt m' → stage_reservation t m' ≡ err stale_receipt m' in
    need-rule Q _ _ _ m (λ _ h. cc)
      λ shard h.
        guard-rule Q _ _ _ m (λ _ h. cc)
          λ held.
            need-rule Q _ _ _ m (λ _ h. cc)
              λ end e.
                attempt-rule Q _ _ m (λ _ _ h. cc)
                  λ span extends. modify-last Q _ m (λ done.
                    let is : set_shard t.shard_id
                          (record shard { open_span = some span; tail = none }) m
                        ≡ m' =
                      cc in
                    subst (λ n. stage_reservation t n ≡ err stale_receipt n) is
                      (stage_stale t _ (record shard { open_span = some span; tail = none })
                        (get-set_self m.append_states t.shard_id _ h) refl))

complete_once :
    (w : WriteSpan) (m m' : Manager)
    → complete_write_span w m ≡ ok tt m'
    → complete_write_span w m' ≡ err stale_receipt m'
unfolding complete_write_span
complete_once w m m' =
    let Q : Outcome MutationError Manager (Unit {0}) → Type 0 =
      λ o. o ≡ ok tt m' → complete_write_span w m' ≡ err stale_receipt m' in
    need-rule Q _ _ _ m (λ _ h. cc)
      λ shard h.
        guard-rule Q _ _ _ m (λ _ h. cc)
          λ held.
            need-rule Q _ _ _ m (λ _ h. cc)
              λ region found.
                guard-rule Q _ _ _ m (λ _ h. cc)
                  λ fits.
                    need-rule Q _ _ _ m (λ _ h. cc)
                      λ count e. modify-rule Q _ _ m (
                        modify-last Q _ _ (λ done.
                          let after : RegionDesc = record region {
                            completed_used = w.end_offset;
                            physical_record_count = count;
                          } in
                          let idle : ShardState = record shard { submitted_span = none } in
                          let is : set_shard w.shard_id idle (set_region w.region_id after m) ≡ m' =
                            cc in
                          subst (λ n. complete_write_span w n ≡ err stale_receipt n) is
                            (complete_stale w _ idle
                              (get-set_self m.append_states w.shard_id idle h) refl)))

finish_once :
    (q : RotationReceipt) (m m' : Manager)
    → finish_rotation q m ≡ ok tt m'
    → finish_rotation q m' ≡ err stale_receipt m'
unfolding finish_rotation
finish_once q m m' =
    let Q : Outcome MutationError Manager (Unit {0}) → Type 0 =
      λ o. o ≡ ok tt m' → finish_rotation q m' ≡ err stale_receipt m' in
    need-rule Q _ _ _ m (λ _ h. cc)
      λ shard h.
        guard-rule Q _ _ _ m (λ _ h. cc)
          λ held.
            need-rule Q _ _ _ m (λ _ h. cc)
              λ old found_old.
                need-rule Q _ _ _ m (λ _ h. cc)
                  λ fresh found_fresh.
                    guard-rule Q _ _ _ m (λ _ h. cc)
                      λ matches.
                        guard-rule Q _ _ _ m (λ _ h. cc)
                          λ room. modify-last Q _ m (λ done.
                            let idle : ShardState = record shard { rotation = none } in
                            let is : publish_sealed shard q m ≡ m' = cc in
                            subst (λ n. finish_rotation q n ≡ err stale_receipt n) is
                              (finish_stale q _ idle
                                (get-set_self m.append_states q.shard_id idle h) refl))

release_once :
    (c : ReclaimReceipt) (m m' : Manager)
    → finish_reclaim c m ≡ ok tt m'
    → finish_reclaim c m' ≡ err stale_receipt m'
unfolding finish_reclaim
release_once c m m' =
    let Q : Outcome MutationError Manager (Unit {0}) → Type 0 =
      λ o. o ≡ ok tt m' → finish_reclaim c m' ≡ err stale_receipt m' in
    need-rule Q _ _ _ m (λ _ h. cc)
      λ at listed.
        need-rule Q _ _ _ m (λ _ h. cc)
          λ region found.
            guard-rule Q _ _ _ m (λ _ h. cc)
              λ matches.
                guard-rule Q _ _ _ m (λ _ h. cc)
                  λ room. modify-last Q _ m (λ done.
                    let is : release_region c.region_id at m ≡ m' = cc in
                    subst (λ n. finish_reclaim c n ≡ err stale_receipt n) is
                      (release_stale c _ free_region
                        (get-set_self m.regions c.region_id free_region found) refl))

-- The methods that take a receipt back, with the receipt.
pub data Redeem : Type 0 where
  staged : AppendReservation → Redeem
  completed : WriteSpan → Redeem
  finished : RotationReceipt → Redeem
  released : ReclaimReceipt → Redeem

abbrev pub redeem : Redeem → Manager → Outcome MutationError Manager (Unit {0})
redeem (staged t) = stage_reservation t
redeem (completed w) = complete_write_span w
redeem (finished q) = finish_rotation q
redeem (released c) = finish_reclaim c

-- A receipt that `stage_reservation`, `complete_write_span`, `finish_rotation` or `finish_reclaim`
-- has accepted is stale at once: the same call again returns `StaleReceipt` and changes nothing.
pub receipts_once :
    (c : Redeem) (m m' : Manager) → redeem c m ≡ ok tt m' → redeem c m' ≡ err stale_receipt m'
receipts_once (staged t) m m' h = stage_once t m m' h
receipts_once (completed w) m m' h = complete_once w m m' h
receipts_once (finished q) m m' h = finish_once q m m' h
receipts_once (released c) m m' h = release_once c m m' h
