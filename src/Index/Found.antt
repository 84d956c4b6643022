-- ===== src/Index/Found.antt =====
-- What a search of the candidate slots gives: cache2/src/region/index/mod.rs, `lookup_raw`.
use mathlib.Core.Sum.{inr-injective}
use mathlib.Core.Option.{none-ne-some}
use mathlib.Core.Path.{subst}
use mathlib.Core.Bool.{false≢true}
use cache.Base.{
  ℕ, zero, suc, ◌+◌, ◌≤◌, ◌<◌, ◌≡◌, refl, sym, ap, ◌∙◌, true, false, Bool-cases, Option, none, some,
  ◌⊎◌, inl, inr, arith, ◌==◌, ==_iff,
}
use cache.Checked.{bind-inr}
use cache.Packed.Location.{PackedLocation}
use cache.Index.Slot.{SlotState, empty, value}
use cache.Index.Lookup.{
  index_fingerprint, candidate, among_earlier, token_matches, entry_of, lookup_from, lookup_raw,
}

module _ {E : Type 0} (slot_state : ℕ → E ⊎ SlotState) (hash slot_count : ℕ) where
  -- The slot of a displacement holds a location for the hash.
  abbrev pub HasLocation : ℕ → PackedLocation → Type 0
  HasLocation d l =
      slot_state (candidate hash slot_count d) ≡ inr (value (index_fingerprint hash) d l)

  -- The slot of a displacement was read, and holds nothing for the hash.
  abbrev pub Lacks : ℕ → Type 0
  Lacks d =
      (state : SlotState) × (slot_state (candidate hash slot_count d) ≡ inr state)
      × (token_matches state (index_fingerprint hash) d ≡ false)

  -- A slot that two displacements share counts for the lower one.
  abbrev pub Looked : ℕ → ℕ → Option PackedLocation → Type 0
  Looked first last none =
      (d : ℕ)
      → first ≤ d
      → d < last
      → among_earlier (candidate hash slot_count) d (candidate hash slot_count d) ≡ false
      → Lacks d
  Looked first last (some l) = (d : ℕ) × (first ≤ d) × (d < last) × HasLocation d l

  token_value :
      (state : SlotState) (f d : ℕ)
      → token_matches state f d ≡ true
      → (l : PackedLocation) × (state ≡ value f d l) × (entry_of state ≡ some l)
  token_value empty f d h = cc
  token_value (value f' d' l) f d h =
      let same : (f' ≡ f) × (d' ≡ d) = (ground (arith, h), ground (arith, h)) in
      (l, ap (λ k. value k d' l) same.0 ∙ ap (λ k. value f k l) same.1, refl)

  later-Looked :
      (first last : ℕ) (r : Option PackedLocation)
      → Looked (first + 1) last r
      → (among_earlier (candidate hash slot_count) first (candidate hash slot_count first) ≡ false
          → Lacks first)
      → Looked first last r
  later-Looked first last none rest here = λ d low high new. elim (Bool-cases (d == first)) [
    | inl now ↦
        let is : d ≡ first = (==_iff _ _).0 now in
        subst Lacks (sym is) (
          here (
            subst
              (λ k.
                among_earlier (candidate hash slot_count) k (candidate hash slot_count k) ≡ false)
              is new))
    | inr after ↦ rest d (ground (arith, after, low)) high new
  ]
  later-Looked first last (some l) rest here =
      let (d, low, high, has) = rest in (d, omega (arith, low), high, has)

  lookup_from-Looked :
      (left displacement last : ℕ) (r : Option PackedLocation)
      → displacement + left ≡ last
      → lookup_from slot_state hash slot_count left displacement ≡ inr r
      → Looked displacement last r
  unfolding lookup_from
  lookup_from-Looked zero displacement last none e h =
      λ d low high new. absurd (omega (arith, e, low, high))
  lookup_from-Looked zero displacement last (some l) e h =
      absurd (none-ne-some _ (inr-injective _ _ h))
  lookup_from-Looked (suc left) displacement last r e h =
      elim (Bool-cases (
        among_earlier (candidate hash slot_count) displacement
          (candidate hash slot_count displacement))) [
            | inl old ↦
                later-Looked displacement last r
                  (lookup_from-Looked left (displacement + 1) last r (omega (arith, e))
                    (rw old at h))
                  (λ new. absurd (false≢true (sym new ∙ old)))
            | inr new ↦
                let (state, read, h1) =
                  bind-inr (slot_state (candidate hash slot_count displacement)) _ (rw new at h) in
                elim (Bool-cases (token_matches state (index_fingerprint hash) displacement)) [
                  | inl hit ↦
                      let (l, is, entry) =
                        token_value state (index_fingerprint hash) displacement hit in
                      let found : r ≡ some l = sym (inr-injective _ _ (rw hit at h1)) ∙ entry in
                      rw found (displacement, omega arith, omega (arith, e), read ∙ ap inr is)
                  | inr miss ↦
                      later-Looked displacement last r
                        (lookup_from-Looked left (displacement + 1) last r (omega (arith, e))
                          (rw miss at h1))
                        (λ _. (state, read, miss))
                ]
          ]

-- Where the candidates can be read, a location that `lookup_raw` finds stands in the slot of one of the
-- four displacements, with the hash's fingerprint and that displacement; where it finds none, every
-- slot of a displacement, taken at the lowest one that shares it, was read and has no such value.
pub lookup_raw-Looked :
    {E : Type 0} (slot_state : ℕ → E ⊎ SlotState) (hash slot_count : ℕ) (r : Option PackedLocation)
    → lookup_raw slot_state hash slot_count ≡ inr r
    → Looked slot_state hash slot_count 0 4 r
unfolding lookup_raw
lookup_raw-Looked slot_state hash slot_count r h =
    lookup_from-Looked slot_state hash slot_count 4 0 4 r (omega arith) h
