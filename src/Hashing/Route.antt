-- ===== src/Hashing/Route.antt =====
-- The routing of a hash to a bucket: cache2/src/hashing.rs, `route_hash`, on a 64-bit target.
use Prim.Native.Nat.{bit_and}
use cache.Base.{
  ℕ, zero, suc, ◌-◌, ◌%◌, ◌^◌, ◌<◌, ◌≡◌, inl, inr, refl, sym, ap, ◌∙◌, true, Bool-cases, arith,
  ◌==◌, ==_iff, if◌then◌else◌,
}
use cache.Bits.{bit_and-mask}
use cache.Record.Header.{is_power_of_two}
use cache.Hashing.Map.{home, probe_index, probe_distance}
use cache.Hashing.Circle.{home_lt, probe_lt, distance-probe}

-- The count of buckets is not 0: the source panics there, and the model gives `hash % 0`.
unfoldable pub route_hash : ℕ → ℕ → ℕ
route_hash hash buckets =
    if is_power_of_two 64 buckets then bit_and hash (buckets - 1) else hash % buckets

masked :
    (w hash buckets : ℕ)
    → is_power_of_two w buckets ≡ true
    → bit_and hash (buckets - 1) ≡ hash % buckets
unfolding is_power_of_two
masked zero hash buckets h = cc
masked (suc k) hash buckets h = elim (Bool-cases (buckets == 2 ^ k)) [
  | inl same ↦
      let is : buckets ≡ 2 ^ k = (==_iff _ _).0 same in
      ap (λ b. bit_and hash (b - 1)) is ∙ bit_and-mask k hash ∙ ap (λ b. hash % b) (sym is)
  | inr other ↦ masked k hash buckets (rw other at h)
]

-- `route_hash` is the remainder of the hash by the count of buckets, also where it takes the mask.
pub route_hash-remainder : (hash buckets : ℕ) → route_hash hash buckets ≡ hash % buckets
unfolding route_hash
route_hash-remainder hash buckets = elim (Bool-cases (is_power_of_two 64 buckets)) [
  | inl power ↦ rw power (masked 64 hash buckets power)
  | inr other ↦ rw other refl
]

-- The `k`-th probe from the home of a fingerprint, for `k` below the count of slots, is a slot, and
-- `probe_distance` gives `k` back.
pub probe_distance-probe_index :
    (f slots k : ℕ)
    → k < slots
    → (probe_index (home f slots) k slots < slots)
      × (probe_distance (home f slots) (probe_index (home f slots) k slots) slots ≡ k)
probe_distance-probe_index f slots k low =
    let start : home f slots < slots = home_lt f slots (omega (arith, low)) in
    (probe_lt (home f slots) k start low, distance-probe (home f slots) k start low)
