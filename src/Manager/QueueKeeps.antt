-- ===== src/Manager/QueueKeeps.antt =====
-- The methods that rotate a shard's Region keep the invariant, with any arguments and on every
-- path: cache2/src/region/manager.rs, `begin_rotation` and `finish_rotation`.
use cache.Base.{
  ℕ, ◌+◌, ◌≡◌, ◌≢◌, sym, ◌∙◌, ap, true, false, Option, none, some, arith, get_elem?,
  lt-length_of_get,
}
use mathlib.Core.Bool.{decide_iff, false≢true}
use mathlib.Core.Option.{some-injective}
use native.Mathlib.Decide.{ℕ_discrete}
use cache.Outcome.{Outcome, running, ◌>>=◌, guard-rule, need-rule, modify-rule, succeed-rule}
use cache.Manager.State.{
  u64_max, to_u32, MutationError, RotationCandidate, RotationSelection, RotationReceipt,
  RotationCandidate-discrete, ShardState, RegionDesc, Manager, Method, holds, holds_self,
}
use cache.Manager.Append.{set_shard, set_region}
use cache.Manager.Rotation.{
  head?, tail_of, pop_free, seal_region, note_rotation, set_active, fresh_region, begin_rotation,
}
use cache.Manager.Valid.{IsValid}
use cache.Manager.Selection.{Selected, select-rule}
use cache.Manager.RotationKeeps.{seal, rotated, rotated-IsValid}
use cache.Manager.AppendKeeps.{Keeps, allocate-rule}

seal_region_lem :
    (m : Manager) (i : ℕ) {d : RegionDesc}
    → get_elem? m.regions i ≡ some d
    → seal_region i m ≡ set_region i (seal d) m
unfolding seal_region
seal_region_lem m i h = rw (h, seal_region)

note_rotation_lem :
    (m : Manager) (i : ℕ) (q : RotationReceipt) {shard : ShardState}
    → get_elem? m.append_states i ≡ some shard
    → note_rotation i q m
      ≡ set_shard i (record shard { rotation_requested = false; rotation = some q }) m
unfolding note_rotation
note_rotation_lem m i q h = rw (h, note_rotation)

pub none-ne-some : {A : Type 0} {a : A} → none ≢ some a
none-ne-some h = cc

pub pop-rule :
    {B : Type 0} (Q : Outcome MutationError Manager B → Type 0) (k : Option ℕ → Method B)
    (m : Manager)
    → Q (k (head? m.free_regions) (record m { free_regions = tail_of m.free_regions }))
    → Q ((pop_free >>= k) m)
unfolding pop_free running
pop-rule Q k m q = q

-- The changes that `begin_rotation` makes after its checks, taken together.
rotated_lem :
    {m : Manager} (s : ℕ) (sel : RotationSelection) (x : Selected m s sel) (q : RotationReceipt)
    → let popped : Manager = record m {
      next_seqno = m.next_seqno + 1;
      free_regions = tail_of m.free_regions;
    } in
      note_rotation s q (
        set_active s sel.victim_index (
          set_region sel.victim_index
            (fresh_region m.next_seqno)
            (seal_region sel.old_index popped)))
      ≡ rotated s sel x.shard x.old x.rest q m
rotated_lem {m} s sel x q =
    let popped : Manager = record m {
      next_seqno = m.next_seqno + 1;
      free_regions = tail_of m.free_regions;
    } in
    rw (seal_region_lem popped sel.old_index x.found_old) (
      note_rotation_lem _ s q x.has_shard
      ∙ ap (λ l. rotated s sel x.shard x.old l q m) (ap tail_of x.first_free))

module _ {m : Manager} (v : IsValid m) (s : ℕ) (sel : RotationSelection)
    (x : Selected m s sel) where
  -- The victim is still first, and its number is a `u32`: the later checks do not fail.
  pub victim_held : holds ℕ_discrete (head? m.free_regions) sel.victim_index ≡ true
  victim_held = rw x.first_free (holds_self ℕ_discrete sel.victim_index)

  pub narrow_index : to_u32 sel.old_index ≡ some sel.old_index
  narrow_index = ground (arith, v.few_regions, lt-length_of_get m.regions sel.old_index x.found_old)

  begun-IsValid :
      (victim_id sealed_id : ℕ)
      → m.next_seqno ≢ u64_max
      → victim_id ≡ sel.victim_index
      → sel.old_index ≡ sealed_id
      → IsValid (
          note_rotation s
            (record {
              shard_id = s;
              sealed_region_id = sealed_id;
              activated_region_id = victim_id;
              activated_created_seqno = m.next_seqno;
            })
            (set_active s victim_id (
              set_region sel.victim_index (fresh_region m.next_seqno) (
                seal_region sel.old_index (record m {
                  next_seqno = m.next_seqno + 1;
                  free_regions = tail_of m.free_regions;
                })))))
  begun-IsValid victim_id sealed_id left victim sid =
      rw (victim, ← sid, rotated_lem s sel x) (rotated-IsValid v s sel x left)

pub begin_rotation-IsValid :
    {m : Manager} → IsValid m → (candidate : RotationCandidate) → Keeps (begin_rotation candidate m)
unfolding begin_rotation
begin_rotation-IsValid {m} v candidate =
    select-rule Keeps _ _ m (λ _ _. v)
      λ sel x.
        guard-rule Keeps _ _ _ m (λ _. v)
          λ same.
            let chosen : sel.candidate ≡ candidate =
              (decide_iff (RotationCandidate-discrete sel.candidate candidate)).0 same in
            let victim : candidate.victim_region_id ≡ sel.victim_index =
              ap (λ c. c.victim_region_id) (sym chosen ∙ x.chosen) in
            allocate-rule Keeps _ m v λ left. pop-rule Keeps _ _ (
              guard-rule Keeps _ _ _ _
                (λ stale.
                  absurd
                    (false≢true (sym stale ∙ rw victim (victim_held v candidate.shard_id sel x))))
                λ _. modify-rule Keeps _ _ _ (
                  modify-rule Keeps _ _ _ (
                    modify-rule Keeps _ _ _ (
                      need-rule Keeps _ _ _ _
                        (λ large.
                          absurd
                            (none-ne-some (sym large ∙ narrow_index v candidate.shard_id sel x)))
                        λ sealed_id narrow. modify-rule Keeps _ _ _ (
                          succeed-rule Keeps _ _ (
                            begun-IsValid v candidate.shard_id sel x candidate.victim_region_id
                              sealed_id left victim
                              (some-injective _ _
                                (sym (narrow_index v candidate.shard_id sel x) ∙ narrow))))))))
