-- ===== src/Manager/Reserve.antt =====
-- What `reserve_append` does on every path: cache2/src/region/manager.rs.
use cache.Base.{ℕ, ◌+◌, ◌%◌, ◌≤◌, ◌<◌, ◌≡◌, refl, ap, ◌⊎◌, inl, inr, true, some, arith, get_elem?}
use cache.Outcome.{
  Outcome, ok, err, guard-rule, need-rule, modify-rule, succeed-rule, fail-rule, branch-rule,
}
use cache.Manager.State.{
  record_alignment, checked_add, to_u32, MutationError, region_full, flush_before_rotation,
  AppendReservation, ShardState, RegionDesc, Manager, is_active,
}
use cache.Manager.Append.{set_shard, reserve_append}
use cache.Manager.Update.{replace}
use cache.Manager.AppendKeeps.{allocate-rule, receipt_at}

-- The shard and the Region that a reservation on shard `s` is about.
pub record Target (m : Manager) (s : ℕ) : Type 0 where
  pub shard : ShardState
  pub region_id : ℕ
  pub region : RegionDesc
  pub has_shard : get_elem? m.append_states s ≡ some shard
  pub owned : get_elem? m.active_regions s ≡ some region_id
  pub found : get_elem? m.regions region_id ≡ some region
  pub is_active_state : is_active region.state ≡ true

-- A reservation takes the `n` bytes from the cursor on, which fit the Region, and the next sequence
-- number; the cursor moves behind them.
pub record Reserved (m : Manager) (s n : ℕ) (t : AppendReservation) (m' : Manager) : Type 0 where
  pub target : Target m s
  pub sized : (0 < n) × (n % record_alignment ≡ 0)
  pub fits : target.region.reserved_used + n ≤ m.region_size
  pub receipt : t ≡ record {
    shard_id = s;
    region_id = target.region_id;
    region_created_seqno = target.region.created_seqno;
    offset = target.region.reserved_used;
    record_bytes = n;
    seqno = m.next_seqno;
  }
  pub state :
      m'
      ≡ replace s target.region_id
          (record target.shard { tail = some t })
          (record target.region { reserved_used = target.region.reserved_used + n })
          (m.next_seqno + 1)
          m

-- A refusal for want of room keeps a request for a rotation.
pub record Full (m : Manager) (s n : ℕ) (e : MutationError) (m' : Manager) : Type 0 where
  pub target : Target m s
  pub too_long : m.region_size < target.region.reserved_used + n
  pub why : (e ≡ region_full) ⊎ (e ≡ flush_before_rotation)
  pub state : m' ≡ set_shard s (record target.shard { rotation_requested = true }) m

abbrev pub Reserves : Manager → ℕ → ℕ → Outcome MutationError Manager AppendReservation → Type 0
Reserves m s n (ok t m') = Reserved m s n t m'
Reserves m s n (err e m') = (m' ≡ m) ⊎ Full m s n e m'

end_sum : (a b end : ℕ) → checked_add a b ≡ some end → end ≡ a + b
end_sum a b end h = ground arith

narrow_same : (a b : ℕ) → to_u32 a ≡ some b → b ≡ a
narrow_same a b h = ground arith

-- A reservation either succeeds, with a receipt for the bytes from the cursor on and with nothing
-- else changed than the cursor, the tail and the sequence counter; or finds no room in the Region,
-- and then only records the request for a rotation; or fails and changes nothing.
pub reserve_append-Reserves : (m : Manager) (s n : ℕ) → Reserves m s n (reserve_append s n m)
unfolding reserve_append
reserve_append-Reserves m s n =
    let Q : Outcome MutationError Manager AppendReservation → Type 0 = Reserves m s n in
    guard-rule Q _ _ _ m (λ _. inl refl)
      λ sized.
        need-rule Q _ _ _ m (λ _. inl refl)
          λ shard h.
            guard-rule Q _ _ _ m (λ _. inl refl)
              λ idle.
                need-rule Q _ _ _ m (λ _. inl refl)
                  λ region_id owned.
                    need-rule Q _ _ _ m (λ _. inl refl)
                      λ region found.
                        guard-rule Q _ _ _ m (λ _. inl refl)
                          λ act.
                            need-rule Q _ _ _ m (λ _. inl refl)
                              λ end e.
                                let x : Target m s = record {
                                  shard = shard;
                                  region_id = region_id;
                                  region = region;
                                  has_shard = h;
                                  owned = owned;
                                  found = found;
                                  is_active_state = act;
                                } in
                                branch-rule Q _ _ _ m
                                  (λ over. modify-rule Q _ _ m (
                                    fail-rule Q _ _ (
                                      inr (record {
                                        target = x;
                                        too_long = ground arith;
                                        why = ground arith;
                                        state = refl;
                                      }))))
                                  (λ within.
                                    need-rule Q _ _ _ m (λ _. inl refl)
                                      λ offset narrow. allocate-rule Q _ m (inl refl) λ left.
                                        modify-rule Q _ _ _ (
                                          modify-rule Q _ _ _ (
                                            succeed-rule Q _ _ (record {
                                              target = x;
                                              sized = ground arith;
                                              fits = ground arith;
                                              receipt =
                                                  ap
                                                    (λ o.
                                                      receipt_at s region_id region n o
                                                        m.next_seqno)
                                                    (narrow_same region.reserved_used offset
                                                      narrow);
                                              state =
                                                  ap
                                                    (λ last.
                                                      replace s region_id
                                                        (record shard {
                                                          tail = some (
                                                            receipt_at s region_id region n offset
                                                            m.next_seqno);
                                                        })
                                                        (record region { reserved_used = last })
                                                        (m.next_seqno + 1) m)
                                                    (end_sum region.reserved_used n end e);
                                            }))))
