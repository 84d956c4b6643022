-- ===== src/Manager/AppendKeeps.antt =====
-- The methods that reserve and stage records keep the invariant, with any arguments and on every
-- path: cache2/src/region/manager.rs.
use cache.Base.{
  ℕ, ◌+◌, ◌%◌, ◌<◌, ◌≡◌, ◌≢◌, refl, sym, ◌⊎◌, inl, inr, true, false, not, none, some, arith, ltb,
  ◌==◌, ◌!=◌, ◌&&◌, ◌||◌, is_some, get_elem?,
}
use mathlib.Core.Path.{subst}
use cache.Outcome.{
  Outcome, ok, err, final, bind_ok, bind_err, running, ◌>>=◌, guard-rule, need-rule, attempt-rule,
  modify-rule, modify-last, succeed-rule, fail-rule, branch-rule,
}
use cache.Manager.State.{
  u64_max, end_offset, record_alignment, checked_add, to_u32, MutationError, sequence_exhausted,
  AppendReservation, OpenSpan, ShardState, RegionDesc, Manager, Method, AppendReservation-discrete,
  holds_sound, is_active,
}
use cache.Manager.Append.{
  allocate_seqno, request_rotation_for_append, reserve_append, extend_span, stage_reservation,
  set_shard,
}
use cache.Manager.Valid.{
  after_submitted, unstaged, OpenFits, Younger, TailFits, ChainFits, RegionFits, IsValid,
}
use cache.Manager.Views.{ShardView, shard_view}
use cache.Manager.Update.{replace-IsValid, replace_shard-IsValid}

abbrev pub Keeps : {A : Type 0} → Outcome MutationError Manager A → Type 0
Keeps o = IsValid (final o)

pub allocate_cases :
    (m : Manager)
    → (allocate_seqno m ≡ err sequence_exhausted m)
      ⊎ ((m.next_seqno ≢ u64_max)
          × (allocate_seqno m ≡ ok m.next_seqno (record m { next_seqno = m.next_seqno + 1 })))
unfolding allocate_seqno running
allocate_cases m = ground arith

pub allocate-rule :
    {B : Type 0} (Q : Outcome MutationError Manager B → Type 0) (k : ℕ → Method B) (m : Manager)
    → Q (err sequence_exhausted m)
    → (m.next_seqno ≢ u64_max → Q (k m.next_seqno (record m { next_seqno = m.next_seqno + 1 })))
    → Q ((allocate_seqno >>= k) m)
allocate-rule Q k m exhausted allocated = elim (allocate_cases m) [
  | inl e ↦ subst Q (sym (bind_err allocate_seqno k m e)) exhausted
  | inr (ne, e) ↦ subst Q (sym (bind_ok allocate_seqno k m e)) (allocated ne)
]

abbrev pub receipt_at : ℕ → ℕ → RegionDesc → ℕ → ℕ → ℕ → AppendReservation
receipt_at s r d n offset next = record {
  shard_id = s;
  region_id = r;
  region_created_seqno = d.created_seqno;
  offset = offset;
  record_bytes = n;
  seqno = next;
}

-- A reservation takes the bytes from the cursor on.
module _ {next s r size : ℕ} (n offset end : ℕ) {shard : ShardState} {d : RegionDesc}
    (sized : n != 0 && n % record_alignment == 0 ≡ true)
    (idle : not (is_some shard.tail || is_some shard.pending_padding || is_some shard.rotation)
      ≡ true)
    (starts : 0 < next) (f : RegionFits size next d) (c : ChainFits next s r shard d)
    (e : checked_add d.reserved_used n ≡ some end) (o : to_u32 d.reserved_used ≡ some offset) where
  reserve-RegionFits :
      is_active d.state ≡ true
      → ltb size end ≡ false
      → RegionFits size (next + 1) (record d { reserved_used = end })
  reserve-RegionFits act fits = record {
    reserved = ground arith;
    completed = ground (arith, f.completed);
    completed_aligned = f.completed_aligned;
    reserved_aligned = ground (arith, f.reserved_aligned);
    created = omega (arith, f.created);
    quiet = ground arith;
  }

  reserve-OpenFits :
      OpenFits
        (next + 1)
        r
        d
        (after_submitted d.completed_used shard.submitted_span)
        shard.open_span
      × Younger shard.open_span next
  reserve-OpenFits = ground (arith, c.opened)

  reserve-TailFits :
      TailFits
        (next + 1)
        s
        r
        (record d { reserved_used = end })
        (unstaged shard d)
        shard.open_span
        shard.submitted_span
        (some (receipt_at s r d n offset next))
        shard.pending_padding
  reserve-TailFits = ground (arith, c.tail, reserve-OpenFits.1, f.created)

  reserve-ChainFits :
      ChainFits
        (next + 1)
        s
        r
        (record shard { tail = some (receipt_at s r d n offset next) })
        (record d { reserved_used = end })
  reserve-ChainFits = record {
    submitted = c.submitted;
    opened = reserve-OpenFits.0;
    tail = reserve-TailFits;
    rotation = ground (arith, c.rotation);
  }

-- A staged record moves from the tail to the open span.
module _ {next s r : ℕ} (shard : ShardState) (d : RegionDesc) (t : AppendReservation) (end : ℕ)
    (span : OpenSpan) (starts : 0 < next) (c : ChainFits next s r shard d)
    (has : shard.tail ≡ some t) (e : end_offset t ≡ some end)
    (extends : extend_span shard.open_span t end ≡ inr span) where
  stage-OpenFits :
      OpenFits next r d (after_submitted d.completed_used shard.submitted_span) (some span)
      × (span.end_offset ≡ d.reserved_used)
      × (shard.pending_padding ≡ none)
  unfolding extend_span
  stage-OpenFits = ground (arith, c.opened, c.tail)

  stage-ChainFits : ChainFits next s r (record shard { open_span = some span; tail = none }) d
  stage-ChainFits = record {
    submitted = c.submitted;
    opened = stage-OpenFits.0;
    tail = ground (arith, stage-OpenFits);
    rotation = ground (arith, c.rotation);
  }

module _ {m : Manager} (v : IsValid m) where
  request-IsValid :
      (s : ℕ) (shard : ShardState)
      → get_elem? m.append_states s ≡ some shard
      → IsValid (set_shard s (record shard { rotation_requested = true }) m)
  request-IsValid s shard h =
      let w : ShardView m s = shard_view v s shard h in
      let c : ChainFits m.next_seqno s w.region_id shard w.region =
        v.chain_fits s w.region_id shard w.region h w.owned w.found in
      replace_shard-IsValid v s w.region_id (record shard { rotation_requested = true }) h w.owned
        w.found refl
        (record {
          submitted = c.submitted;
          opened = c.opened;
          tail = c.tail;
          rotation = c.rotation;
        })

  pub request_rotation-IsValid : (s n : ℕ) → Keeps (request_rotation_for_append s n m)
  unfolding request_rotation_for_append
  request_rotation-IsValid s n =
      need-rule Keeps _ _ _ m (λ _. v)
        λ region_id owned.
          need-rule Keeps _ _ _ m (λ _. v)
            λ region found.
              guard-rule Keeps _ _ _ m (λ _. v)
                λ _.
                  need-rule Keeps _ _ _ m (λ _. v)
                    λ end _.
                      branch-rule Keeps _ _ _ m
                        (λ _.
                          need-rule Keeps _ _ _ m (λ _. v)
                            λ shard h.
                              modify-rule Keeps _ _ m
                                (succeed-rule Keeps _ _ (request-IsValid s shard h)))
                        (λ _. succeed-rule Keeps _ _ v)

  pub reserve_append-IsValid : (s n : ℕ) → Keeps (reserve_append s n m)
  unfolding reserve_append
  reserve_append-IsValid s n =
      guard-rule Keeps _ _ _ m (λ _. v)
        λ sized.
          need-rule Keeps _ _ _ m (λ _. v)
            λ shard h.
              guard-rule Keeps _ _ _ m (λ _. v)
                λ idle.
                  need-rule Keeps _ _ _ m (λ _. v)
                    λ region_id owned.
                      need-rule Keeps _ _ _ m (λ _. v)
                        λ region found.
                          guard-rule Keeps _ _ _ m (λ _. v)
                            λ act.
                              need-rule Keeps _ _ _ m (λ _. v)
                                λ end e.
                                  branch-rule Keeps _ _ _ m
                                    (λ _.
                                      modify-rule Keeps _ _ m
                                        (fail-rule Keeps _ _ (request-IsValid s shard h)))
                                    (λ fits.
                                      need-rule Keeps _ _ _ m (λ _. v)
                                        λ offset o. allocate-rule Keeps _ m v λ left.
                                          modify-rule Keeps _ _ _ (
                                            modify-rule Keeps _ _ _ (
                                              succeed-rule Keeps _ _ (
                                                replace-IsValid v s region_id _ _ _ h owned found
                                                  refl refl (omega arith)
                                                  (omega (arith, v.seqno_fits))
                                                  (reserve-RegionFits n offset end sized idle
                                                    v.seqno_starts
                                                    (v.region_fits region_id region found)
                                                    (v.chain_fits s region_id shard region h owned
                                                      found)
                                                    e o act fits)
                                                  (reserve-ChainFits n offset end sized idle
                                                    v.seqno_starts
                                                    (v.region_fits region_id region found)
                                                    (v.chain_fits s region_id shard region h owned
                                                      found)
                                                    e o)))))

  pub stage_reservation-IsValid : (t : AppendReservation) → Keeps (stage_reservation t m)
  unfolding stage_reservation
  stage_reservation-IsValid t =
      need-rule Keeps _ _ _ m (λ _. v)
        λ shard h.
          guard-rule Keeps _ _ _ m (λ _. v)
            λ is_tail.
              need-rule Keeps _ _ _ m (λ _. v)
                λ end e.
                  attempt-rule Keeps _ _ m (λ _ _. v)
                    λ span extends. modify-last Keeps _ m (
                      let w : ShardView m t.shard_id = shard_view v t.shard_id shard h in
                      replace_shard-IsValid v t.shard_id w.region_id _ h w.owned w.found refl (
                        stage-ChainFits shard w.region t end span v.seqno_starts
                          (v.chain_fits t.shard_id w.region_id shard w.region h w.owned w.found)
                          (holds_sound AppendReservation-discrete shard.tail t is_tail) e extends))
