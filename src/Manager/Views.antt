-- ===== src/Manager/Views.antt =====
-- What the invariant says of one shard and its Region, and what an update of these two keeps.
use cache.Base.{
  ℕ, ◌<◌, ◌≡◌, true, some, arith, get_elem?, length, hit, weight-le-total, weights-le-total,
  lt-length_of_get, get_of_lt-length,
}
use native.Mathlib.Decide.{dec_lt}
use cache.Manager.State.{ShardState, RegionDesc, Manager, is_active}
use cache.Manager.Valid.{IsValid}

-- A shard's Region exists, and is Active.
pub record ShardView (m : Manager) (s : ℕ) : Type 0 where
  pub region_id : ℕ
  pub region : RegionDesc
  pub owned : get_elem? m.active_regions s ≡ some region_id
  pub found : get_elem? m.regions region_id ≡ some region
  pub is_active_state : is_active region.state ≡ true

pub active_in_range :
    {m : Manager}
    → IsValid m
    → (s r : ℕ) → get_elem? m.active_regions s ≡ some r
    → r < length m.regions
active_in_range {m} v s r h =
    ground (arith, v.placed r, weight-le-total (hit r) m.active_regions s h)

pub active_state :
    {m : Manager}
    → IsValid m
    → (s r : ℕ) (d : RegionDesc) → get_elem? m.active_regions s ≡ some r
    → get_elem? m.regions r ≡ some d
    → is_active d.state ≡ true
active_state {m} v s r d h k =
    ground (arith, v.active_iff r d k, weight-le-total (hit r) m.active_regions s h)

-- Two shards never own one Region.
pub active_unique :
    {m : Manager}
    → IsValid m
    → (s t r : ℕ) → get_elem? m.active_regions s ≡ some r
    → get_elem? m.active_regions t ≡ some r
    → s ≡ t
active_unique {m} v s t r h k = elim (dec_lt s t) [
  | yes p ↦ ground (arith, v.placed r, weights-le-total (hit r) m.active_regions s t h k p)
  | no p ↦ elim (dec_lt t s) [
    | yes q ↦ ground (arith, v.placed r, weights-le-total (hit r) m.active_regions t s k h q)
    | no q ↦ omega arith
  ]
]

pub shard_view :
    {m : Manager}
    → IsValid m
    → (s : ℕ) (shard : ShardState) → get_elem? m.append_states s ≡ some shard
    → ShardView m s
shard_view {m} v s shard h =
    let bound : s < length m.active_regions =
      omega (arith, lt-length_of_get m.append_states s h, v.shards) in
    let (r, owned) = get_of_lt-length m.active_regions s bound in
    let (d, found) = get_of_lt-length m.regions r (active_in_range v s r owned) in
    record {
      region_id = r;
      region = d;
      owned = owned;
      found = found;
      is_active_state = active_state v s r d owned found;
    }
