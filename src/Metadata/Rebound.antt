-- ===== src/Metadata/Rebound.antt =====
-- What a change of the count of append shards keeps: cache2/src/region/recovery/metadata.rs,
-- `rebind_append_shards`.
use mathlib.Core.Sum.{inr-injective}
use mathlib.Core.Option.{some-injective}
use mathlib.Core.Path.{subst}
use cache.Base.{
  ℕ, zero, suc, ◌+◌, ◌<◌, ◌≡◌, refl, sym, ap, ◌∙◌, Bool, true, false, ◌&&◌, Bool-cases, some, ◌⊎◌,
  inl, inr, List, [], ◌∷◌, arith, ltb, leb, ◌==◌, get_elem?, length,
}
use cache.Checked.{bind-inr, ensure-inr, needed-inr, then-inr}
use cache.Manager.State.{active, sealed, checked_add, is_free, is_active}
use cache.Metadata.Data.{MetadataError, RegionRecord, Metadata}
use cache.Metadata.Validate.{validate}
use cache.Metadata.Rebind.{
  seal_excess, activate_last, each, shrink_shards, grow_shards, moved, rebind_append_shards,
}

-- A Region stays as it is, or is sealed with its content, or was Free and is opened with a sequence
-- number beyond the old ones.
pub data Rebound (max_seqno : ℕ) (r : RegionRecord) : RegionRecord → Type 0 where
  stays : Rebound max_seqno r r
  closes :
      {ordinal : ℕ}
      → is_active r.state ≡ true
      → Rebound max_seqno r (record r { state = sealed; queue_ordinal = ordinal })
  opens :
      {ordinal seqno : ℕ}
      → is_free r.state ≡ true
      → max_seqno < seqno
      → Rebound max_seqno r
          (record r { state = active; queue_ordinal = ordinal; created_seqno = seqno })

and_left : (a b : Bool) → (a && b) ≡ true → a ≡ true
and_left a b h = ground arith

seal_excess-Rebound :
    (shard_count first top : ℕ) (r r' : RegionRecord)
    → seal_excess shard_count first r ≡ inr r'
    → Rebound top r r'
unfolding seal_excess
seal_excess-Rebound shard_count first top r r' h =
    elim (Bool-cases (is_active r.state && leb shard_count r.queue_ordinal)) [
      | inl test ↦
          let (ordinal, _, h1) = needed-inr _ _ _ (rw test at h) in
          subst (Rebound top r) (inr-injective _ _ h1)
            (closes (and_left (is_active r.state) _ test))
      | inr test ↦ subst (Rebound top r) (inr-injective _ _ (rw test at h)) stays
    ]

sum_value : (a b c : ℕ) → checked_add a b ≡ some c → c ≡ a + b
sum_value a b c h = ground arith

activate_last-Rebound :
    (old kept top first : ℕ) (r r' : RegionRecord)
    → top < first
    → activate_last old kept first r ≡ inr r'
    → Rebound top r r'
unfolding activate_last
activate_last-Rebound old kept top first r r' lt h =
    elim (Bool-cases (is_free r.state && leb kept r.queue_ordinal)) [
      | inl test ↦
          let (ordinal, _, h1) = needed-inr _ _ _ (rw test at h) in
          let (seqno, sum, h2) = needed-inr _ _ _ h1 in
          subst (Rebound top r) (inr-injective _ _ h2) (
            opens (and_left (is_free r.state) _ test)
              (omega (arith, lt, sum_value first _ seqno sum)))
      | inr test ↦ subst (Rebound top r) (inr-injective _ _ (rw test at h)) stays
    ]

each-Rebound :
    (change : RegionRecord → MetadataError ⊎ RegionRecord) (top : ℕ)
    → ((r r' : RegionRecord) → change r ≡ inr r' → Rebound top r r')
    → (rs rs' : List RegionRecord) → each change rs ≡ inr rs'
    → (i : ℕ) (r : RegionRecord) → get_elem? rs i ≡ some r
    → (r' : RegionRecord) × (get_elem? rs' i ≡ some r') × Rebound top r r'
unfolding each
each-Rebound change top keeps [] rs' h i r at = cc
each-Rebound change top keeps (x ∷ rs) rs' h zero r at =
    let (x', first, h1) = bind-inr _ _ h in
    let (rest, _, h2) = bind-inr _ _ h1 in
    (
      x',
      ap (λ l. get_elem? l 0) (sym (inr-injective _ _ h2)),
      subst (λ k. Rebound top k x') (some-injective _ _ at) (keeps x x' first),
    )
each-Rebound change top keeps (x ∷ rs) rs' h (suc i) r at =
    let (x', _, h1) = bind-inr _ _ h in
    let (rest, others, h2) = bind-inr _ _ h1 in
    let (r', found, is) = each-Rebound change top keeps rs rest others i r at in
    (r', ap (λ l. get_elem? l (suc i)) (sym (inr-injective _ _ h2)) ∙ found, is)

each-length :
    (change : RegionRecord → MetadataError ⊎ RegionRecord) (rs rs' : List RegionRecord)
    → each change rs ≡ inr rs'
    → length rs' ≡ length rs
unfolding each
each-length change [] rs' h = ap length (sym (inr-injective _ _ h))
each-length change (x ∷ rs) rs' h =
    let (x', first, h1) = bind-inr _ _ h in
    let (rest, others, h2) = bind-inr _ _ h1 in
    ap length (sym (inr-injective _ _ h2)) ∙ ap suc (each-length change rs rest others)

-- What the change promises: the count, and each Region.
abbrev pub KeepsRegions : Metadata → ℕ → Metadata → Type 0
KeepsRegions m shard_count m' =
    (m'.root.shard_count ≡ shard_count)
    × (m'.root.active_region_count ≡ shard_count)
    × (length m'.regions ≡ length m.regions)
    × ((i : ℕ) (r : RegionRecord)
        → get_elem? m.regions i ≡ some r
        → (r' : RegionRecord) × (get_elem? m'.regions i ≡ some r') × Rebound m.root.max_seqno r r')

moved-KeepsRegions :
    (m m' : Metadata) (shard_count : ℕ)
    → moved m shard_count ≡ inr m'
    → KeepsRegions m shard_count m'
unfolding shrink_shards grow_shards
moved-KeepsRegions m m' shard_count h = elim (Bool-cases (ltb shard_count m.root.shard_count)) [
  | inl fewer ↦
      let (_, _, h1) = needed-inr _ _ _ (rw fewer at h) in
      let (regions, changed, h2) = bind-inr _ _ h1 in
      subst (KeepsRegions m shard_count) (inr-injective _ _ h2) (
        refl,
        refl,
        each-length _ m.regions regions changed,
        each-Rebound _ m.root.max_seqno
            (λ r r'.
              seal_excess-Rebound shard_count m.root.sealed_region_count m.root.max_seqno r r')
            m.regions regions changed,
      )
  | inr more ↦
      let (kept, _, h1) = needed-inr _ _ _ (rw more at h) in
      let (top, _, h2) = needed-inr _ _ _ h1 in
      let (first, sum, h3) = needed-inr _ _ _ h2 in
      let (regions, changed, h4) = bind-inr _ _ h3 in
      subst (KeepsRegions m shard_count) (inr-injective _ _ h4) (
        refl,
        refl,
        each-length _ m.regions regions changed,
        each-Rebound _ m.root.max_seqno
            (λ r r'.
              activate_last-Rebound m.root.shard_count kept m.root.max_seqno first r r'
                (omega (arith, sum_value m.root.max_seqno 1 first sum)))
            m.regions regions changed,
      )
]

-- Where `rebind_append_shards` succeeds for another count of shards, the result is valid, has that count
-- of shards and of Active Regions, and as many Regions; each stays as it is, or was Active and is
-- sealed with its content, or was Free and is Active with a sequence number beyond the old ones.
pub rebind_append_shards-KeepsRegions :
    (m m' : Metadata) (shard_count : ℕ)
    → (shard_count == m.root.shard_count) ≡ false
    → rebind_append_shards m shard_count ≡ inr m'
    → (validate m' ≡ inr tt) × KeepsRegions m shard_count m'
unfolding rebind_append_shards
rebind_append_shards-KeepsRegions m m' shard_count other h =
    let (_, h1) = ensure-inr _ _ _ (rw other at h) in
    let (result, changed, h2) = bind-inr _ _ h1 in
    let (valid, h3) = then-inr _ _ h2 in
    subst (λ k. (validate k ≡ inr tt) × KeepsRegions m shard_count k) (inr-injective _ _ h3)
      (valid, moved-KeepsRegions m result shard_count changed)
