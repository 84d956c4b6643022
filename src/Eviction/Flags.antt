-- ===== src/Eviction/Flags.antt =====
-- The fields of the flag byte do not disturb each other: cache2/src/memory/eviction.rs.
use Prim.Native.Nat.{bit_and}
use cache.Bits.{bit_and-mask, bit_and-low, bit_or-low}
use cache.Base.{
  ℕ, zero, suc, ◌+◌, ◌<◌, min, ◌≡◌, refl, ap, ◌∙◌, inl, inr, Bool-cases, Bool, true, false, ◌&&◌,
  arith, ==_iff, ltb, ◌==◌, ◌!=◌,
}
use cache.Eviction.Slot.{
  is_main, to_bit, is_resident, s3fifo_queue, s3fifo_frequency, raised_flags, visited_flags,
}

-- A test that holds below a bound holds at each number below it.
unfoldable all_below : ℕ → (ℕ → Bool) → Bool
all_below zero p = true
all_below (suc n) p = p n && all_below n p

and-true : (a b : Bool) → (a && b) ≡ true → (a ≡ true) × (b ≡ true)
and-true a b h = ground arith

all_below_lem : (n : ℕ) (p : ℕ → Bool) → all_below n p ≡ true → (x : ℕ) → x < n → p x ≡ true
unfolding all_below
all_below_lem zero p h x lt = absurd (omega arith)
all_below_lem (suc n) p h x lt = elim (Bool-cases (x == n)) [
  | inl last ↦ ap p ((==_iff x n).0 last) ∙ (and-true (p n) (all_below n p) h).0
  | inr below ↦ all_below_lem n p (and-true (p n) (all_below n p) h).1 x (ground arith)
]

abbrev raises : ℕ → Bool
raises f =
    s3fifo_frequency (raised_flags f) == min 3 (s3fifo_frequency f + 1)
    && to_bit (is_resident (raised_flags f)) == to_bit (is_resident f)
    && to_bit (is_main (s3fifo_queue (raised_flags f))) == to_bit (is_main (s3fifo_queue f))
    && ltb (raised_flags f) 256

raises_table : all_below 256 raises ≡ true
unfolding all_below
raises_table = refl

facts :
    (a b c d e g n : ℕ)
    → (a == b && c == d && e == g && ltb n 256) ≡ true
    → (a ≡ b) × (c ≡ d) × (e ≡ g) × (n < 256)
facts a b c d e g n h = ground arith

-- A hit raises the frequency by one up to 3, keeps the resident bit and the queue, and the addition
-- on the byte does not overflow.
pub increment_lem :
    (f : ℕ)
    → f < 256
    → (s3fifo_frequency (raised_flags f) ≡ min 3 (s3fifo_frequency f + 1))
      × (to_bit (is_resident (raised_flags f)) ≡ to_bit (is_resident f))
      × (to_bit (is_main (s3fifo_queue (raised_flags f))) ≡ to_bit (is_main (s3fifo_queue f)))
      × (raised_flags f < 256)
increment_lem f h =
    let row : raises f ≡ true = all_below_lem 256 raises raises_table f h in
    facts _ _ _ _ _ _ (raised_flags f) row

pub is_resident-visited_flags : (f : ℕ) → is_resident (visited_flags f false) ≡ is_resident f
is_resident-visited_flags f =
    let g : ℕ = visited_flags f false in
    let masked : bit_and g 1 ≡ bit_and f 1 = omega (
      arith,
      bit_and-mask 1 g,
      bit_and-mask 1 f,
      bit_or-low (bit_and f 253) 0,
      bit_and-low f 253,
    ) in
    ap (λ b. b != 0) masked
