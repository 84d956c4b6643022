-- ===== src/Checked.antt =====
-- Results without a state: a function of the source that returns a `Result`, and changes nothing.
use cache.Base.{Bool, true, false, Option, none, some, ◌≡◌, refl, ◌⊎◌, inl, inr}

module _ {E : Type 0} where
  infixl 5 ◌>>=◌ ◌>>◌
  unfoldable pub ◌>>=◌ : {A B : Type 0} → E ⊎ A → (A → E ⊎ B) → E ⊎ B
  inl e >>= f = inl e
  inr a >>= f = f a

  unfoldable pub ◌>>◌ : {B : Type 0} → E ⊎ Unit {0} → E ⊎ B → E ⊎ B
  inl e >> r = inl e
  inr u >> r = r

  -- An early `return Err(e)` where the code's condition fails.
  unfoldable pub ensure : Bool → E → E ⊎ Unit {0}
  ensure true e = inr tt
  ensure false e = inl e

  -- `ok_or`
  unfoldable pub needed : {A : Type 0} → Option A → E → E ⊎ A
  needed none e = inl e
  needed (some a) e = inr a

  -- A result that is a value comes from values.
  pub bind-inr :
      {A B : Type 0} (r : E ⊎ A) (f : A → E ⊎ B) {b : B}
      → (r >>= f) ≡ inr b
      → (a : A) × (r ≡ inr a) × (f a ≡ inr b)
  unfolding ◌>>=◌
  bind-inr (inl e) f h = cc
  bind-inr (inr a) f h = (a, refl, h)

  pub ensure-inr :
      {B : Type 0} (test : Bool) (e : E) (r : E ⊎ B) {b : B}
      → (ensure test e >> r) ≡ inr b
      → (test ≡ true) × (r ≡ inr b)
  unfolding ◌>>◌ ensure
  ensure-inr true e r h = (refl, h)
  ensure-inr false e r h = cc

  pub ensured : (test : Bool) (e : E) → ensure test e ≡ inr tt → test ≡ true
  unfolding ensure
  ensured true e h = refl
  ensured false e h = cc

  pub needed-inr :
      {A B : Type 0} (o : Option A) (e : E) (f : A → E ⊎ B) {b : B}
      → (needed o e >>= f) ≡ inr b
      → (a : A) × (o ≡ some a) × (f a ≡ inr b)
  unfolding ◌>>=◌ needed
  needed-inr none e f h = cc
  needed-inr (some a) e f h = (a, refl, h)

  pub then-inr :
      {B : Type 0} (r : E ⊎ Unit {0}) (s : E ⊎ B) {b : B}
      → (r >> s) ≡ inr b
      → (r ≡ inr tt) × (s ≡ inr b)
  unfolding ◌>>◌
  then-inr (inl e) s h = cc
  then-inr (inr tt) s h = (refl, h)

-- A test of a run unfolds these.
unfoldable pub checking : Unit {0}
unfolding ◌>>=◌ ◌>>◌ ensure needed
checking = tt
