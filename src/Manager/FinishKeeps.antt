-- ===== src/Manager/FinishKeeps.antt =====
-- `finish_rotation` keeps the invariant: cache2/src/region/manager.rs.
use cache.Base.{
  ℕ, ◌≡◌, inl, inr, some, none, [], ◌∷◌, arith, get_elem?, set, hit, get-set_cases, length-set,
  total-set, total-snoc, length-append,
}
use cache.Outcome.{guard-rule, need-rule, modify-last}
use cache.Manager.State.{
  RotationReceipt, RotationReceipt-discrete, ShardState, RegionDesc, Manager, holds_sound,
}
use cache.Manager.Rotation.{publish_sealed, finish_rotation}
use cache.Manager.Valid.{ChainFits, rotating, in_rotation, IsValid}
use cache.Manager.AppendKeeps.{Keeps}

module _ {m : Manager} (v : IsValid m) (q : RotationReceipt) (shard : ShardState)
    (has : get_elem? m.append_states q.shard_id ≡ some shard) (held : shard.rotation ≡ some q) where
  abbrev published : ShardState
  published = record shard { rotation = none }

  published-ChainFits :
      (t r : ℕ) (sh : ShardState) (d : RegionDesc)
      → get_elem? (set m.append_states q.shard_id published) t ≡ some sh
      → get_elem? m.active_regions t ≡ some r
      → get_elem? m.regions r ≡ some d
      → ChainFits m.next_seqno t r sh d
  published-ChainFits t r sh d hs ho hr =
      elim (get-set_cases m.append_states q.shard_id t published has hs) [
        | inl (st, new) ↦
            let c : ChainFits m.next_seqno t r shard d =
              v.chain_fits t r shard d (rw (← st) has) ho hr in
            rw new
              (record { submitted = c.submitted; opened = c.opened; tail = c.tail; rotation = tt })
        | inr (_, kept) ↦ v.chain_fits t r sh d kept ho hr
      ]

  pub published-IsValid : IsValid (publish_sealed shard q m)
  published-IsValid = record {
    aligned_size = v.aligned_size;
    size_fits = v.size_fits;
    few_regions = v.few_regions;
    seqno_starts = v.seqno_starts;
    seqno_fits = v.seqno_fits;
    shards = omega (arith, v.shards, length-set m.append_states q.shard_id published);
    capacity = v.capacity;
    sizes = ground (
      arith,
      v.sizes,
      length-append m.sealed_regions (q.sealed_region_id ∷ []),
      total-set in_rotation m.append_states q.shard_id published has,
    );
    placed = λ r. ground (
      arith,
      v.placed r,
      total-snoc (hit r) m.sealed_regions q.sealed_region_id,
      total-set (rotating r) m.append_states q.shard_id published has,
    );
    active_iff = v.active_iff;
    free_iff = v.free_iff;
    region_fits = v.region_fits;
    chain_fits = published-ChainFits;
  }

pub finish_rotation-IsValid :
    {m : Manager} → IsValid m → (q : RotationReceipt) → Keeps (finish_rotation q m)
unfolding finish_rotation
finish_rotation-IsValid {m} v q =
    need-rule Keeps _ _ _ m (λ _. v)
      λ shard h.
        guard-rule Keeps _ _ _ m (λ _. v)
          λ same.
            need-rule Keeps _ _ _ m (λ _. v)
              λ old found_old.
                need-rule Keeps _ _ _ m (λ _. v)
                  λ fresh found_fresh.
                    guard-rule Keeps _ _ _ m (λ _. v)
                      λ matches.
                        guard-rule Keeps _ _ _ m (λ _. v)
                          λ room. modify-last Keeps _ m (
                            published-IsValid v q shard h
                              (holds_sound RotationReceipt-discrete shard.rotation q same))
