-- ===== src/Manager/Internal.antt =====
-- The errors that stand for a broken manager, `RegionMutationError::Invariant`, are not returned:
-- cache2/src/region/manager.rs.
use cache.Base.{
  ℕ, ◌+◌, ◌≡◌, ◌≢◌, sym, ◌∙◌, ap, inl, inr, true, false, not, ◌&&◌, ◌!=◌, some, none, arith,
  get_elem?, hit, total, total-cons, weight-le-total, get_of_lt-length, lt-length_of_get,
}
use mathlib.Core.Path.{subst}
use mathlib.Core.Bool.{decide_iff, false≢true}
use mathlib.Core.Option.{some-injective}
use cache.Outcome.{
  Outcome, err, guard-rule, need-rule, attempt-rule, modify-rule, modify-last, succeed-rule,
  fail-rule, branch-rule,
}
use cache.Manager.State.{
  MutationError, invariant, arithmetic_overflow, WriteSpan, AppendReservation, RotationCandidate,
  RotationReceipt, ReclaimReceipt, RotationCandidate-discrete, AppendReservation-discrete,
  RotationReceipt-discrete, ShardState, RegionDesc, Manager, is_active, is_free, holds_sound,
}
use cache.Manager.Append.{
  request_rotation_for_append, reserve_append, extend_span, stage_reservation,
}
use cache.Manager.Selection.{select-rule, first_of_head}
use cache.Manager.QueueKeeps.{pop-rule, victim_held, none-ne-some}
use cache.Manager.Flush.{complete_write_span}
use cache.Manager.Rotation.{
  head?, tail_of, begin_rotation, finish_rotation, select_rotation, queues_full,
}
use cache.Manager.Reclaim.{begin_reclaim, finish_reclaim, position}
use cache.Manager.Valid.{ChainFits, in_rotation, IsValid}
use cache.Manager.Views.{ShardView, shard_view, active_in_range, active_state}
use cache.Manager.AppendKeeps.{allocate-rule}
use cache.Manager.ReclaimKeeps.{begin_reclaim_lem, get-position}

-- The call did not report a broken manager.
abbrev pub Sound : {A : Type 0} → Outcome MutationError Manager A → Type 0
Sound (err (invariant why) t) = ⊥
Sound _ = Unit

overflow-Sound :
    (A : Type 0) (e : MutationError) (t : Manager)
    → e ≡ arithmetic_overflow
    → Sound {A = A} (err e t)
overflow-Sound A e t p = rw p tt

free_guard :
    (r old : ℕ) (d d' : RegionDesc)
    → d ≡ d'
    → is_free d.state ≡ true
    → r ≢ old
    → (is_free d'.state && r != old) ≢ false
free_guard r old d d' same f ne bad = ground arith

room_false : (m : Manager) → queues_full m ≡ false → not (queues_full m) ≢ false
room_false m h bad = ground arith

module _ {m : Manager} (v : IsValid m) where
  owner_found :
      (s r : ℕ)
      → get_elem? m.active_regions s ≡ some r
      → (d : RegionDesc) × (get_elem? m.regions r ≡ some d) × (is_active d.state ≡ true)
  owner_found s r h =
      let (d, found) = get_of_lt-length m.regions r (active_in_range v s r h) in
      (d, found, active_state v s r d h found)

  owner_present : (s r : ℕ) → get_elem? m.active_regions s ≡ some r → get_elem? m.regions r ≢ none
  owner_present s r h gone = none-ne-some (sym gone ∙ (owner_found s r h).1)

  owner_active :
      (s r : ℕ) (d : RegionDesc)
      → get_elem? m.active_regions s ≡ some r
      → get_elem? m.regions r ≡ some d
      → is_active d.state ≢ false
  owner_active s r d h found idle = false≢true (sym idle ∙ active_state v s r d h found)

  reserve_append-Sound : (s n : ℕ) → Sound (reserve_append s n m)
  unfolding reserve_append
  reserve_append-Sound s n =
      guard-rule Sound _ _ _ m (λ _. tt)
        λ _.
          need-rule Sound _ _ _ m (λ _. tt)
            λ shard h.
              guard-rule Sound _ _ _ m (λ _. tt)
                λ _.
                  need-rule Sound _ _ _ m (λ _. tt)
                    λ r owned.
                      need-rule Sound _ _ _ m (λ gone. absurd (owner_present s r owned gone))
                        λ d found.
                          guard-rule Sound _ _ _ m
                            (λ idle. absurd (owner_active s r d owned found idle))
                            λ _.
                              need-rule Sound _ _ _ m (λ _. tt)
                                λ end e.
                                  branch-rule Sound _ _ _ m
                                    (λ _.
                                      modify-rule Sound _ _ m (fail-rule Sound _ _ (ground arith)))
                                    (λ _.
                                      need-rule Sound _ _ _ m (λ _. tt)
                                        λ offset o. allocate-rule Sound _ m tt λ _.
                                          modify-rule Sound _ _ _
                                            (modify-rule Sound _ _ _ (succeed-rule Sound _ _ tt)))

  request_rotation-Sound : (s n : ℕ) → Sound (request_rotation_for_append s n m)
  unfolding request_rotation_for_append
  request_rotation-Sound s n =
      need-rule Sound _ _ _ m (λ _. tt)
        λ r owned.
          need-rule Sound _ _ _ m (λ gone. absurd (owner_present s r owned gone))
            λ d found.
              guard-rule Sound _ _ _ m (λ idle. absurd (owner_active s r d owned found idle))
                λ _.
                  need-rule Sound _ _ _ m (λ _. tt)
                    λ end _.
                      branch-rule Sound _ _ _ m
                        (λ _.
                          need-rule Sound _ _ _ m (λ _. tt)
                            λ shard h. modify-rule Sound _ _ m (succeed-rule Sound _ _ tt))
                        (λ _. succeed-rule Sound _ _ tt)

  -- A staged record is contiguous with the open span and younger than it.
  extend_span_error :
      (s r : ℕ) (shard : ShardState) (d : RegionDesc) (t : AppendReservation) (end : ℕ)
      (e : MutationError)
      → ChainFits m.next_seqno s r shard d
      → shard.tail ≡ some t
      → extend_span shard.open_span t end ≡ inl e
      → e ≡ arithmetic_overflow
  unfolding extend_span
  extend_span_error s r shard d t end e c has failed = ground (arith, c.opened, c.tail)

  stage_reservation-Sound : (t : AppendReservation) → Sound (stage_reservation t m)
  unfolding stage_reservation
  stage_reservation-Sound t =
      need-rule Sound _ _ _ m (λ _. tt)
        λ shard h.
          guard-rule Sound _ _ _ m (λ _. tt)
            λ is_tail.
              need-rule Sound _ _ _ m (λ _. tt)
                λ end e.
                  attempt-rule Sound _ _ m
                    (λ why failed.
                      let w : ShardView m t.shard_id = shard_view v t.shard_id shard h in
                      overflow-Sound (Unit {0}) why m (
                        extend_span_error t.shard_id w.region_id shard w.region t end why
                          (v.chain_fits t.shard_id w.region_id shard w.region h w.owned w.found)
                          (holds_sound AppendReservation-discrete shard.tail t is_tail) failed))
                    λ span extends. modify-last Sound _ m tt

  complete_write_span-Sound : (w : WriteSpan) → Sound (complete_write_span w m)
  unfolding complete_write_span
  complete_write_span-Sound w =
      need-rule Sound _ _ _ m (λ _. tt)
        λ shard h.
          guard-rule Sound _ _ _ m (λ _. tt)
            λ _.
              need-rule Sound _ _ _ m (λ _. tt)
                λ region found.
                  guard-rule Sound _ _ _ m (λ _. tt)
                    λ _.
                      need-rule Sound _ _ _ m (λ _. tt)
                        λ count e. modify-rule Sound _ _ _ (modify-last Sound _ _ tt)

  -- The first free Region is there, is Free, and is nobody's.
  victim_fits :
      (s old r : ℕ)
      → get_elem? m.active_regions s ≡ some old
      → head? m.free_regions ≡ some r
      → (d : RegionDesc) × (get_elem? m.regions r ≡ some d) × (is_free d.state ≡ true) × (r ≢ old)
  victim_fits s old r owned first =
      let count : total (hit r) m.free_regions ≡ hit r r + total (hit r) (tail_of m.free_regions) =
        ap (total (hit r)) (first_of_head m.free_regions r first) ∙ total-cons (hit r) r _ in
      let (d, found) = get_of_lt-length m.regions r (ground (arith, v.placed r, count)) in
      (
        d,
        found,
        ground (arith, v.placed r, count, v.free_iff r d found),
        ground (arith, v.placed r, count, weight-le-total (hit r) m.active_regions s owned),
      )

  select_rotation-Sound : (s : ℕ) → Sound (select_rotation s m)
  unfolding select_rotation
  select_rotation-Sound s =
      need-rule Sound _ _ _ m (λ _. tt)
        λ shard h.
          guard-rule Sound _ _ _ m (λ _. tt)
            λ _.
              need-rule Sound _ _ _ m (λ _. tt)
                λ old_id owned.
                  need-rule Sound _ _ _ m (λ gone. absurd (owner_present s old_id owned gone))
                    λ old found.
                      guard-rule Sound _ _ _ m (λ _. tt)
                        λ _.
                          need-rule Sound _ _ _ m (λ _. tt)
                            λ r first.
                              let f : (d : RegionDesc) × (get_elem? m.regions r ≡ some d)
                                  × (is_free d.state ≡ true)
                                  × (r ≢ old_id) =
                                victim_fits s old_id r owned first in
                              need-rule Sound _ _ _ m
                                (λ gone. absurd (none-ne-some (sym gone ∙ f.1)))
                                λ victim found_victim.
                                  guard-rule Sound _ _ _ m
                                    (λ bad. absurd (
                                      free_guard r old_id f.0 victim
                                        (some-injective _ _ (sym f.1 ∙ found_victim)) f.2 f.3 bad))
                                    λ _. succeed-rule Sound _ _ tt

  begin_rotation-Sound : (c : RotationCandidate) → Sound (begin_rotation c m)
  unfolding begin_rotation
  begin_rotation-Sound c =
      select-rule Sound _ _ m (λ e p. subst Sound p (select_rotation-Sound c.shard_id))
        λ sel x.
          guard-rule Sound _ _ _ m (λ _. tt)
            λ same.
              let chosen : sel.candidate ≡ c =
                (decide_iff (RotationCandidate-discrete sel.candidate c)).0 same in
              let victim : c.victim_region_id ≡ sel.victim_index =
                ap (λ c. c.victim_region_id) (sym chosen ∙ x.chosen) in
              allocate-rule Sound _ m tt λ _. pop-rule Sound _ _ (
                guard-rule Sound _ _ _ _
                  (λ stale.
                    absurd (false≢true (sym stale ∙ rw victim (victim_held v c.shard_id sel x))))
                  λ _. modify-rule Sound _ _ _ (
                    modify-rule Sound _ _ _ (
                      modify-rule Sound _ _ _ (
                        need-rule Sound _ _ _ _ (λ _. tt)
                          λ sealed_id _. modify-rule Sound _ _ _ (succeed-rule Sound _ _ tt)))))

  -- While a Region is withheld or being cleaned, the queues have room for it.
  rotation_room :
      (s : ℕ) (shard : ShardState) (q : RotationReceipt)
      → get_elem? m.append_states s ≡ some shard
      → shard.rotation ≡ some q
      → queues_full m ≡ false
  rotation_room s shard q h has =
      ground
        (arith, v.sizes, v.capacity, v.few_regions, weight-le-total in_rotation m.append_states s h)

  finish_rotation-Sound : (q : RotationReceipt) → Sound (finish_rotation q m)
  unfolding finish_rotation
  finish_rotation-Sound q =
      need-rule Sound _ _ _ m (λ _. tt)
        λ shard h.
          guard-rule Sound _ _ _ m (λ _. tt)
            λ same.
              need-rule Sound _ _ _ m (λ _. tt)
                λ old found_old.
                  need-rule Sound _ _ _ m (λ _. tt)
                    λ fresh found_fresh.
                      guard-rule Sound _ _ _ m (λ _. tt)
                        λ matches.
                          guard-rule Sound _ _ _ m
                            (λ full. absurd (
                              room_false m
                                (rotation_room q.shard_id shard q h
                                  (holds_sound RotationReceipt-discrete _ q same))
                                full))
                            λ _. modify-last Sound _ m tt

  finish_reclaim-Sound : (c : ReclaimReceipt) → Sound (finish_reclaim c m)
  unfolding finish_reclaim
  finish_reclaim-Sound c =
      need-rule Sound _ _ _ m (λ _. tt)
        λ at listed.
          need-rule Sound _ _ _ m (λ _. tt)
            λ region found.
              guard-rule Sound _ _ _ m (λ _. tt)
                λ matches.
                  guard-rule Sound _ _ _ m
                    (λ full. absurd (room_false m (reclaim_room c at listed) full))
                    λ _. modify-last Sound _ m tt
    where
      reclaim_room :
          (c : ReclaimReceipt) (at : ℕ) → position m.reclaiming c ≡ some at → queues_full m ≡ false
      reclaim_room c at listed = ground (
        arith,
        v.sizes,
        v.capacity,
        v.few_regions,
        lt-length_of_get m.reclaiming at (get-position m.reclaiming c at listed),
      )

  begin_reclaim-Sound : Sound (begin_reclaim m)
  begin_reclaim-Sound = elim (begin_reclaim_lem v) [
    | inl (_, e) ↦ rw e tt
    | inr (r, x, _, e) ↦ rw e tt
  ]

-- Where the invariant holds, `request_rotation_for_append`, `reserve_append`, `stage_reservation`,
-- `complete_write_span`, `begin_rotation`, `finish_rotation`, `begin_reclaim` and `finish_reclaim` do
-- not report a broken manager (`RegionMutationError::Invariant`), whatever their arguments are.
pub methods-Sound :
    {m : Manager}
    → IsValid m
    → (s n : ℕ) (t : AppendReservation) (w : WriteSpan) (c : RotationCandidate)
      (q : RotationReceipt) (r : ReclaimReceipt)
    → Sound (request_rotation_for_append s n m)
      × Sound (reserve_append s n m)
      × Sound (stage_reservation t m)
      × Sound (complete_write_span w m)
      × Sound (begin_rotation c m)
      × Sound (finish_rotation q m)
      × Sound (begin_reclaim m)
      × Sound (finish_reclaim r m)
methods-Sound v s n t w c q r = (
  request_rotation-Sound v s n,
  reserve_append-Sound v s n,
  stage_reservation-Sound v t,
  complete_write_span-Sound v w,
  begin_rotation-Sound v c,
  finish_rotation-Sound v q,
  begin_reclaim-Sound v,
  finish_reclaim-Sound v r,
)
