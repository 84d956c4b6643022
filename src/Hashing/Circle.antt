-- ===== src/Hashing/Circle.antt =====
-- Distances on the circle of the slots: cache2/src/hashing.rs, `probe_index`, `probe_distance` and
-- `next_probe_index`.
use native.Mathlib.Nat.{div-lt_iff_lt-mul}
use cache.Base.{
  ℕ, ◌+◌, ◌-◌, ◌*◌, ◌%◌, ◌^◌, ◌≤◌, ◌<◌, ◌≡◌, ◌⊎◌, inl, inr, Bool-cases, refl, ap, arith, ltb, leb,
  ◌==◌,
}
use cache.Hashing.Map.{home, probe_index, next_probe_index, probe_distance}

-- The two cases of a distance.
distance_cases :
    (n a b : ℕ)
    → ((a ≤ b) × (probe_distance a b n ≡ b - a)) ⊎ ((b < a) × (probe_distance a b n ≡ n - (a - b)))
unfolding probe_distance
distance_cases n a b = elim (Bool-cases (leb a b)) [
  | inl le ↦ inl (ground (arith, le), rw le refl)
  | inr gt ↦ inr (ground (arith, gt), rw gt refl)
]

pub distance_self : (n a : ℕ) → probe_distance a a n ≡ 0
distance_self n a = ground (arith, distance_cases n a a)

module _ {n : ℕ} where
  pub distance_lt : (a b : ℕ) → a < n → b < n → probe_distance a b n < n
  distance_lt a b la lb = ground (arith, distance_cases n a b)

  pub distance_injective :
      (h a b : ℕ) → h < n → a < n → b < n → probe_distance h a n ≡ probe_distance h b n → a ≡ b
  distance_injective h a b lh la lb e = ground (arith, distance_cases n h a, distance_cases n h b)

  -- A slot on the way splits the way.
  pub distance_split :
      (h p i : ℕ)
      → h < n
      → p < n
      → i < n
      → probe_distance h p n < probe_distance h i n
      → probe_distance h i n ≡ probe_distance h p n + probe_distance p i n
  distance_split h p i lh lp li e =
      ground (arith, distance_cases n h p, distance_cases n h i, distance_cases n p i)

  pub distance_join :
      (h p i : ℕ)
      → h < n
      → p < n
      → i < n
      → probe_distance h p n + probe_distance p i n < n
      → probe_distance h i n ≡ probe_distance h p n + probe_distance p i n
  distance_join h p i lh lp li e =
      ground (arith, distance_cases n h p, distance_cases n h i, distance_cases n p i)

  pub next_lt : (c : ℕ) → c < n → next_probe_index c n < n
  unfolding next_probe_index
  next_lt c lc = ground arith

  pub distance_next :
      (h c : ℕ)
      → h < n
      → c < n
      → probe_distance h (next_probe_index c n) n ≤ probe_distance h c n + 1
  unfolding next_probe_index
  distance_next h c lh lc = elim (Bool-cases (c + 1 == n)) [
    | inl last ↦ rw last (ground (arith, last, distance_cases n h c, distance_cases n h 0))
    | inr more ↦ rw more (ground (arith, more, distance_cases n h c, distance_cases n h (c + 1)))
  ]

  pub probe_lt : (h k : ℕ) → h < n → k < n → probe_index h k n < n
  unfolding probe_index
  probe_lt h k lh lk = ground arith

  -- The probe after `k` steps has the distance `k`.
  pub distance-probe : (h k : ℕ) → h < n → k < n → probe_distance h (probe_index h k n) n ≡ k
  unfolding probe_index
  distance-probe h k lh lk = elim (Bool-cases (ltb k (n - h))) [
    | inl inside ↦ rw inside (ground (arith, inside, distance_cases n h (h + k)))
    | inr around ↦ rw around (ground (arith, around, distance_cases n h (k - (n - h))))
  ]

  pub probe-distance : (h i : ℕ) → h < n → i < n → probe_index h (probe_distance h i n) n ≡ i
  probe-distance h i lh li =
      let far : probe_distance h i n < n = distance_lt h i lh li in
      distance_injective h _ i lh (probe_lt h _ lh far) li (distance-probe h _ lh far)

product_lt : (m n k : ℕ) → m < k → 0 < n → m * n < n * k
product_lt m n k h p =
    let split : k ≡ m + 1 + (k - (m + 1)) = omega arith in
    let wide : n * k ≡ n * (m + 1 + (k - (m + 1))) = ap (λ d. n * d) split in grind (arith, wide)

-- A home is a slot.
pub home_lt : (f n : ℕ) → 0 < n → home f n < n
unfolding home
home_lt f n p =
    let low : f * 2654435769 % 2 ^ 32 < 2 ^ 32 = omega arith in
    (div-lt_iff_lt-mul (omega arith)).1 (product_lt _ n (2 ^ 32) low p)
