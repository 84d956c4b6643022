-- ===== src/Manager/Snapshot.antt =====
-- The counts of a snapshot: cache2/src/region/manager.rs, `region_snapshot`.
use cache.Base.{
  ℕ, suc, ◌+◌, ◌-◌, ◌*◌, ◌≤◌, min, ◌≡◌, refl, ap, ◌∙◌, some, ◌⊎◌, inr, List, [], ◌∷◌, arith,
  get_elem?, length, total,
}
use cache.Checked.{◌>>=◌, needed}
use cache.Manager.State.{u32_max, u64_max, to_u32, saturating_add, RegionDesc, Manager}
use cache.Manager.Valid.{IsValid, in_rotation}
use cache.Index.Layout.{checked_mul}
use cache.Metadata.Data.{MetadataError, arithmetic_overflow}

-- The fields of `RegionSnapshot` that the manager fills in.
pub record RegionSnapshot : Type 0 where
  pub capacity_bytes : ℕ
  pub append_shard_count : ℕ
  pub active_region_count : ℕ
  pub free_region_count : ℕ
  pub sealed_region_count : ℕ
  pub reclaiming_region_count : ℕ
  pub rotations : ℕ
  pub physical_record_count : ℕ
  pub physical_bytes : ℕ

abbrev pub add_region : RegionDesc → RegionSnapshot → RegionSnapshot
add_region d s = record s {
  physical_record_count = saturating_add s.physical_record_count d.physical_record_count;
  physical_bytes = saturating_add s.physical_bytes d.completed_used;
}

-- The loop over the Regions.
abbrev pub add_regions : List RegionDesc → RegionSnapshot → RegionSnapshot
add_regions [] s = s
add_regions (d ∷ rest) s = add_regions rest (add_region d s)

unfoldable pub region_snapshot : Manager → MetadataError ⊎ RegionSnapshot
region_snapshot m = do
  capacity ← needed (checked_mul (length m.regions) m.region_size) arithmetic_overflow
  shard_count ← needed (to_u32 (length m.active_regions)) arithmetic_overflow
  active_count ← needed (to_u32 (length m.active_regions)) arithmetic_overflow
  free_count ← needed (to_u32 (length m.free_regions)) arithmetic_overflow
  sealed_count ← needed (to_u32 (length m.sealed_regions)) arithmetic_overflow
  reclaiming_count ← needed (to_u32 (length m.reclaiming)) arithmetic_overflow
  inr (
      add_regions m.regions (record {
        capacity_bytes = capacity;
        append_shard_count = shard_count;
        active_region_count = active_count;
        free_region_count = free_count;
        sealed_region_count = sealed_count;
        reclaiming_region_count = reclaiming_count;
        rotations = m.rotations;
        physical_record_count = 0;
        physical_bytes = 0;
      }))

to_u32_small : (a : ℕ) → a ≤ u32_max → to_u32 a ≡ some a
to_u32_small a h = ground arith

mul_fits : (a b : ℕ) → a * b ≤ u64_max → checked_mul a b ≡ some (a * b)
mul_fits a b h = ground arith

product_le : (a b c d : ℕ) → a ≤ c → b ≤ d → a * b ≤ c * d
product_le a b c d h k =
    let first : c ≡ a + (c - a) = omega (arith, h) in
    let second : d ≡ b + (d - b) = omega (arith, k) in
    let wide : c * d ≡ (a + (c - a)) * (b + (d - b)) =
      ap (λ x. x * d) first ∙ ap (λ x. (a + (c - a)) * x) second in
    grind (arith, wide)

abbrev pub completed_bytes : List RegionDesc → ℕ
completed_bytes = total (λ d. d.completed_used)

abbrev pub record_count : List RegionDesc → ℕ
record_count = total (λ d. d.physical_record_count)

completed-fits :
    (size : ℕ) (rs : List RegionDesc)
    → ((i : ℕ) (d : RegionDesc) → get_elem? rs i ≡ some d → d.completed_used ≤ size)
    → completed_bytes rs ≤ length rs * size
unfolding total
completed-fits size [] fits = omega arith
completed-fits size (d ∷ rs) fits =
    let here : d.completed_used ≤ size = fits 0 d refl in
    let rest : completed_bytes rs ≤ length rs * size =
      completed-fits size rs (λ i x at. fits (suc i) x at) in
    let wide : suc (length rs) * size ≡ size + length rs * size = omega arith in
    omega (arith, here, rest, wide)

saturating_lem : (a b c : ℕ) → min u64_max (saturating_add a b + c) ≡ min u64_max (a + (b + c))
saturating_lem a b c = ground arith

add_regions-records :
    (rs : List RegionDesc) (s : RegionSnapshot)
    → s.physical_record_count ≤ u64_max
    → (add_regions rs s).physical_record_count
      ≡ min u64_max (s.physical_record_count + record_count rs)
unfolding total
add_regions-records [] s low = omega (arith, low)
add_regions-records (d ∷ rs) s low =
    add_regions-records rs (add_region d s) (ground (arith, low))
    ∙ saturating_lem s.physical_record_count d.physical_record_count (record_count rs)

add_regions-bytes :
    (rs : List RegionDesc) (s : RegionSnapshot)
    → s.physical_bytes + completed_bytes rs ≤ u64_max
    → (add_regions rs s).physical_bytes ≡ s.physical_bytes + completed_bytes rs
unfolding total
add_regions-bytes [] s room = omega arith
add_regions-bytes (d ∷ rs) s room =
    let here : saturating_add s.physical_bytes d.completed_used
        ≡ s.physical_bytes + d.completed_used =
      ground (arith, room) in
    omega (arith, here, room, add_regions-bytes rs (add_region d s) (omega (arith, here, room)))

-- The loop leaves the other fields.
add_regions-keeps :
    (rs : List RegionDesc) (s : RegionSnapshot)
    → ((add_regions rs s).capacity_bytes ≡ s.capacity_bytes)
      × ((add_regions rs s).append_shard_count ≡ s.append_shard_count)
      × ((add_regions rs s).active_region_count ≡ s.active_region_count)
      × ((add_regions rs s).free_region_count ≡ s.free_region_count)
      × ((add_regions rs s).sealed_region_count ≡ s.sealed_region_count)
      × ((add_regions rs s).reclaiming_region_count ≡ s.reclaiming_region_count)
      × ((add_regions rs s).rotations ≡ s.rotations)
add_regions-keeps [] s = (refl, refl, refl, refl, refl, refl, refl)
add_regions-keeps (d ∷ rs) s = add_regions-keeps rs (add_region d s)

-- What the loop starts from.
abbrev counts : Manager → RegionSnapshot
counts m = record {
  capacity_bytes = length m.regions * m.region_size;
  append_shard_count = length m.active_regions;
  active_region_count = length m.active_regions;
  free_region_count = length m.free_regions;
  sealed_region_count = length m.sealed_regions;
  reclaiming_region_count = length m.reclaiming;
  rotations = m.rotations;
  physical_record_count = 0;
  physical_bytes = 0;
}

-- The snapshot `s` of the manager `m`. Its capacity is the size of all Regions. Each count is the
-- length of its queue. The bytes are the sum of the completed bytes of the Regions, and the records
-- are the sum of their records, which stops at the largest `u64`.
pub record Shows (m : Manager) (s : RegionSnapshot) : Type 0 where
  pub capacity : s.capacity_bytes ≡ length m.regions * m.region_size
  pub append_shards : s.append_shard_count ≡ length m.active_regions
  pub active : s.active_region_count ≡ length m.active_regions
  pub free : s.free_region_count ≡ length m.free_regions
  pub sealed : s.sealed_region_count ≡ length m.sealed_regions
  pub reclaiming : s.reclaiming_region_count ≡ length m.reclaiming
  pub rotations : s.rotations ≡ m.rotations
  pub records : s.physical_record_count ≡ min u64_max (record_count m.regions)
  pub bytes : s.physical_bytes ≡ completed_bytes m.regions

-- A valid manager has a snapshot: no count overflows. Its capacity is the size of all Regions, and
-- the counts of shards and of Active, Free, Sealed and reclaiming Regions are the lengths of the
-- manager's queues. Its rotations are the manager's. Its bytes are exactly the sum of the Regions' completed bytes, which is within
-- the capacity, and its records are the sum of the Regions' records, at most the largest `u64`. The
-- Active, Free, Sealed and reclaiming Regions are all Regions but those that a rotation withholds.
pub region_snapshot-fits :
    (m : Manager)
    → IsValid m
    → (s : RegionSnapshot) × (region_snapshot m ≡ inr s)
      × Shows m s
      × (s.physical_bytes ≤ s.capacity_bytes)
      × (s.active_region_count
            + s.free_region_count
            + s.sealed_region_count
            + s.reclaiming_region_count
            + total in_rotation m.append_states
          ≡ length m.regions)
unfolding region_snapshot ◌>>=◌ needed
region_snapshot-fits m v =
    let area : length m.regions * m.region_size ≤ u32_max * u32_max =
      product_le _ _ u32_max u32_max v.few_regions v.size_fits in
    let small : length m.regions * m.region_size ≤ u64_max = omega (arith, area) in
    let inside : completed_bytes m.regions ≤ length m.regions * m.region_size =
      completed-fits m.region_size m.regions (λ i d at.
        omega (arith, (v.region_fits i d at).completed, (v.region_fits i d at).reserved)) in
    let sum : (add_regions m.regions (counts m)).physical_bytes ≡ completed_bytes m.regions =
      omega (arith, add_regions-bytes m.regions (counts m) (omega (arith, inside, small))) in
    let (capacity, shards, active, free, sealed, reclaiming, rotations) =
      add_regions-keeps m.regions (counts m) in
    (
      add_regions m.regions (counts m),
      rw
          (
            mul_fits (length m.regions) m.region_size small,
            to_u32_small (length m.active_regions) (omega (arith, v.sizes, v.few_regions)),
            to_u32_small (length m.free_regions) (omega (arith, v.sizes, v.few_regions)),
            to_u32_small (length m.sealed_regions) (omega (arith, v.sizes, v.few_regions)),
            to_u32_small (length m.reclaiming) (omega (arith, v.sizes, v.few_regions)),
          )
          refl,
      record {
        capacity = capacity;
        append_shards = shards;
        active = active;
        free = free;
        sealed = sealed;
        reclaiming = reclaiming;
        rotations = rotations;
        records = omega (arith, add_regions-records m.regions (counts m) (omega arith));
        bytes = sum;
      },
      omega (arith, sum, inside, capacity),
      omega (arith, active, free, sealed, reclaiming, v.sizes),
    )
