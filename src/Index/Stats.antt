-- ===== src/Index/Stats.antt =====
-- The counts of the slots of a partition: cache2/src/region/index/storage/mod.rs, `IndexPhysicalStats`.
use mathlib.Core.Option.{some-injective, none-ne-some}
use cache.Base.{
  ℕ, ◌+◌, ◌-◌, ◌≤◌, ◌≡◌, sym, ap, ◌∙◌, Bool, true, false, ◌&&◌, Bool-cases, inl, inr, Option, none,
  some, arith, leb, ◌==◌, if◌then◌else◌,
}
use cache.Record.Codec.{◌>>=◌}
use cache.Manager.State.{u64_max, checked_add}
use cache.Index.Layout.{checked_sub}

-- `SlotPhysicalKind`
pub data SlotKind : Type 0 where
  empty_kind : SlotKind
  value_kind : SlotKind

pub record PhysicalStats : Type 0 where
  pub value_slots : ℕ
  pub deleted_slots : ℕ

-- `total().is_some_and(|total| total <= slot_count)`
abbrev pub within : Option ℕ → ℕ → Bool
within none slot_count = false
within (some sum) slot_count = leb sum slot_count

unfoldable pub is_valid_for : PhysicalStats → ℕ → Bool
is_valid_for s slot_count =
    s.deleted_slots == 0 && within (checked_add s.value_slots s.deleted_slots) slot_count

unfoldable pub decrement : PhysicalStats → SlotKind → Option PhysicalStats
decrement s empty_kind = some s
decrement s value_kind = do n ← checked_sub s.value_slots 1; some (record s { value_slots = n })

unfoldable pub increment : PhysicalStats → SlotKind → Option PhysicalStats
increment s empty_kind = some s
increment s value_kind = do n ← checked_add s.value_slots 1; some (record s { value_slots = n })

unfoldable pub transitioned : PhysicalStats → SlotKind → SlotKind → ℕ → Option PhysicalStats
transitioned s old new slot_count = do
  without ← decrement s old
  next ← increment without new
  if is_valid_for next slot_count then some next else none

abbrev pub one_of : SlotKind → ℕ
one_of empty_kind = 0
one_of value_kind = 1

-- The counts that a change of one slot leads to.
abbrev pub Transition : PhysicalStats → SlotKind → SlotKind → ℕ → PhysicalStats → Type 0
Transition s old new slot_count next =
    (next.deleted_slots ≡ 0)
    × (next.value_slots + one_of old ≡ s.value_slots + one_of new)
    × (next.value_slots ≤ slot_count)

valid_facts :
    (v d n : ℕ)
    → is_valid_for (record { value_slots = v; deleted_slots = d }) n ≡ true
    → (d ≡ 0) × (v ≤ n)
unfolding is_valid_for
valid_facts v d n h = (ground arith, ground arith)

checked_facts :
    (v d n : ℕ) (next : PhysicalStats)
    → (if is_valid_for (record { value_slots = v; deleted_slots = d }) n
        then some (record { value_slots = v; deleted_slots = d })
        else none)
      ≡ some next
    → (next.value_slots ≡ v) × (next.deleted_slots ≡ 0) × (v ≤ n)
checked_facts v d n next h =
    elim (Bool-cases (is_valid_for (record { value_slots = v; deleted_slots = d }) n)) [
      | inl good ↦
          let is : ◌≡◌ {A = PhysicalStats} (record { value_slots = v; deleted_slots = d }) next =
            some-injective _ _ (rw good at h) in
          let (zero_deleted, le) = valid_facts v d n good in
          (
            ap (λ (s : PhysicalStats). s.value_slots) (sym is),
            ap (λ (s : PhysicalStats). s.deleted_slots) (sym is) ∙ zero_deleted,
            le,
          )
      | inr bad ↦ absurd (none-ne-some _ (rw bad at h))
    ]

-- `transitioned`, where it succeeds, moves the count of values by one for each side of the change that is
-- a value, and the counts it gives are those of a partition of the slots, with no deleted ones.
pub transitioned-Transition :
    (s next : PhysicalStats) (old new : SlotKind) (slot_count : ℕ)
    → transitioned s old new slot_count ≡ some next
    → Transition s old new slot_count next
unfolding transitioned decrement increment ◌>>=◌
transitioned-Transition s next empty_kind empty_kind n h =
    let (v, d, le) = checked_facts s.value_slots s.deleted_slots n next h in
    (d, omega (arith, v), omega (arith, v, le))
transitioned-Transition s next empty_kind value_kind n h =
    elim (Bool-cases (leb (s.value_slots + 1) u64_max)) [
      | inl fits ↦
          let (v, d, le) =
            checked_facts (s.value_slots + 1) s.deleted_slots n next (rw fits at h) in
          (d, omega (arith, v), omega (arith, v, le))
      | inr over ↦ absurd (none-ne-some _ (rw over at h))
    ]
transitioned-Transition s next value_kind empty_kind n h = elim (Bool-cases (leb 1 s.value_slots)) [
  | inl fits ↦
      let (v, d, le) = checked_facts (s.value_slots - 1) s.deleted_slots n next (rw fits at h) in
      (d, ground (arith, v, fits), omega (arith, v, le))
  | inr over ↦ absurd (none-ne-some _ (rw over at h))
]
transitioned-Transition s next value_kind value_kind n h = elim (Bool-cases (leb 1 s.value_slots)) [
  | inl some_value ↦ elim (Bool-cases (leb (s.value_slots - 1 + 1) u64_max)) [
    | inl fits ↦
        let (v, d, le) =
          checked_facts (s.value_slots - 1 + 1) s.deleted_slots n next
            (rw (some_value, fits) at h) in
        (d, ground (arith, v, some_value), omega (arith, v, le))
    | inr over ↦ absurd (none-ne-some _ (rw (some_value, over) at h))
  ]
  | inr none_there ↦ absurd (none-ne-some _ (rw none_there at h))
]
