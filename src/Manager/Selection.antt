-- ===== src/Manager/Selection.antt =====
-- What `select_rotation` selects: cache2/src/region/manager.rs.
use cache.Base.{ℕ, ◌≡◌, ◌≢◌, refl, sym, true, some, List, [], ◌∷◌, arith, get_elem?}
use mathlib.Core.Path.{subst}
use cache.Outcome.{Outcome, ok, err, ◌>>=◌, call-rule, guard-rule, need-rule, succeed-rule}
use cache.Manager.State.{
  MutationError, RotationSelection, ShardState, RegionDesc, Manager, Method, is_free,
}
use cache.Manager.Rotation.{head?, tail_of, is_quiet, select_rotation}

pub record Selected (m : Manager) (s : ℕ) (sel : RotationSelection) : Type 0 where
  pub shard : ShardState
  pub old : RegionDesc
  pub victim : RegionDesc
  pub rest : List ℕ
  pub has_shard : get_elem? m.append_states s ≡ some shard
  pub requested : shard.rotation_requested ≡ true
  pub quiet : is_quiet shard ≡ true
  pub owned : get_elem? m.active_regions s ≡ some sel.old_index
  pub found_old : get_elem? m.regions sel.old_index ≡ some old
  pub drained : old.reserved_used ≡ old.completed_used
  pub first_free : m.free_regions ≡ sel.victim_index ∷ rest
  pub found_victim : get_elem? m.regions sel.victim_index ≡ some victim
  pub victim_free : is_free victim.state ≡ true
  pub apart : sel.victim_index ≢ sel.old_index
  pub chosen : sel.candidate ≡ record {
    shard_id = s;
    victim_region_id = sel.victim_index;
    victim_created_seqno = victim.created_seqno;
  }

abbrev SelectsFrom : Manager → ℕ → Outcome MutationError Manager RotationSelection → Type 0
SelectsFrom m s (ok sel t) = (t ≡ m) × Selected m s sel
SelectsFrom m s (err e t) = t ≡ m

pub first_of_head : (xs : List ℕ) (x : ℕ) → head? xs ≡ some x → xs ≡ x ∷ tail_of xs
first_of_head [] x h = ground arith
first_of_head (y ∷ ys) x h = ground arith

select_rotation-SelectsFrom : (m : Manager) (s : ℕ) → SelectsFrom m s (select_rotation s m)
unfolding select_rotation
select_rotation-SelectsFrom m s =
    let Q : Outcome MutationError Manager RotationSelection → Type 0 = SelectsFrom m s in
    need-rule Q _ _ _ m (λ _. refl)
      λ shard h.
        guard-rule Q _ _ _ m (λ _. refl)
          λ requested.
            need-rule Q _ _ _ m (λ _. refl)
              λ old_id owned.
                need-rule Q _ _ _ m (λ _. refl)
                  λ old found_old.
                    guard-rule Q _ _ _ m (λ _. refl)
                      λ drained.
                        need-rule Q _ _ _ m (λ _. refl)
                          λ victim_id first.
                            need-rule Q _ _ _ m (λ _. refl)
                              λ victim found_victim.
                                guard-rule Q _ _ _ m (λ _. refl)
                                  λ fits. succeed-rule Q _ _ (
                                    refl,
                                    record {
                                      shard = shard;
                                      old = old;
                                      victim = victim;
                                      rest = tail_of m.free_regions;
                                      has_shard = h;
                                      requested = ground arith;
                                      quiet = ground arith;
                                      owned = owned;
                                      found_old = found_old;
                                      drained = ground arith;
                                      first_free = first_of_head m.free_regions victim_id first;
                                      found_victim = found_victim;
                                      victim_free = ground arith;
                                      apart = ground arith;
                                      chosen = refl;
                                    },
                                  )

-- A method that begins with a selection.
pub select-rule :
    {B : Type 0} (Q : Outcome MutationError Manager B → Type 0) (s : ℕ)
    (k : RotationSelection → Method B) (m : Manager)
    → ((e : MutationError) → select_rotation s m ≡ err e m → Q (err e m))
    → ((sel : RotationSelection) → Selected m s sel → Q (k sel m))
    → Q ((select_rotation s >>= k) m)
select-rule Q s k m failed selected =
    call-rule Q _ k m
      (λ e t p.
        let same : t ≡ m = subst (SelectsFrom m s) p (select_rotation-SelectsFrom m s) in
        subst (λ u. Q (err e u)) (sym same)
          (failed e (subst (λ u. select_rotation s m ≡ err e u) same p)))
      (λ sel t p.
        let found : (t ≡ m) × Selected m s sel =
          subst (SelectsFrom m s) p (select_rotation-SelectsFrom m s) in
        subst (λ u. Q (k sel u)) (sym found.0) (selected sel found.1))
