-- ===== src/Outcome.antt =====
-- Methods that change a value and may fail: `&mut self` with a `Result`. A method that returns an
-- error hands back the state as it left it, so that changes made before the error are seen.
use mathlib.Core.Path.{subst}
use cache.Base.{Bool, true, false, Option, none, some, ◌≡◌, refl, sym, ◌⊎◌, inl, inr, if◌then◌else◌}

pub data Outcome (E S A : Type 0) : Type 0 where
  ok : A → S → Outcome E S A
  err : E → S → Outcome E S A

abbrev pub Op : Type 0 → Type 0 → Type 0 → Type 0
Op E S A = S → Outcome E S A

-- The state that a call leaves behind.
abbrev pub final : {E S A : Type 0} → Outcome E S A → S
final (ok a s) = s
final (err e s) = s

module _ {E S : Type 0} where
  infixl 5 ◌>>=◌ ◌>>◌
  unfoldable pub ◌>>=◌ : {A B : Type 0} → Op E S A → (A → Op E S B) → Op E S B
  (m >>= f) s = elim (m s) [ ok a t ↦ f a t | err e t ↦ err e t ]

  unfoldable pub ◌>>◌ : {B : Type 0} → Op E S (Unit {0}) → Op E S B → Op E S B
  (m >> k) s = elim (m s) [ ok a t ↦ k t | err e t ↦ err e t ]

  -- An early `return Err(e)` where the code's condition fails.
  unfoldable pub guard : Bool → E → Op E S (Unit {0})
  guard true e s = ok tt s
  guard false e s = err e s

  -- `o.ok_or(e)?`
  unfoldable pub need : {A : Type 0} → Option A → E → Op E S A
  need none e s = err e s
  need (some a) e s = ok a s

  -- `r?` for a result `r`
  unfoldable pub attempt : {A : Type 0} → E ⊎ A → Op E S A
  attempt (inl e) s = err e s
  attempt (inr a) s = ok a s

  unfoldable pub succeed : {A : Type 0} → A → Op E S A
  succeed a s = ok a s

  unfoldable pub fail : {A : Type 0} → E → Op E S A
  fail e s = err e s

  unfoldable pub modify : (S → S) → Op E S (Unit {0})
  modify f s = ok tt (f s)

  -- `if b { x } else { y }`
  unfoldable pub branch : {A : Type 0} → Bool → Op E S A → Op E S A → Op E S A
  branch b x y s = if b then x s else y s

-- A test of a run unfolds all of these.
unfoldable pub running : Unit {0}
unfolding ◌>>=◌ ◌>>◌ guard need attempt succeed fail modify branch
running = tt

module _ {E S : Type 0} where
  outcome_cases :
      {A : Type 0} (o : Outcome E S A)
      → ((e : E) × (t : S) × (o ≡ err e t)) ⊎ ((a : A) × (t : S) × (o ≡ ok a t))
  outcome_cases (ok a t) = inr (a, t, refl)
  outcome_cases (err e t) = inl (e, t, refl)

  pub bind_ok :
      {A B : Type 0} (op : Op E S A) (k : A → Op E S B) (s : S) {a : A} {t : S}
      → op s ≡ ok a t
      → (op >>= k) s ≡ k a t
  unfolding running
  bind_ok op k s e = rw (e, ◌>>=◌)

  pub bind_err :
      {A B : Type 0} (op : Op E S A) (k : A → Op E S B) (s : S) {e : E} {t : S}
      → op s ≡ err e t
      → (op >>= k) s ≡ err e t
  unfolding running
  bind_err op k s h = rw (h, ◌>>=◌)

  module _ {B : Type 0} (Q : Outcome E S B → Type 0) where
    -- What holds of a chain that begins with a guard: the guard is taken, or it is passed.
    pub guard-rule :
        (b : Bool) (e : E) (k : Op E S B) (s : S)
        → (b ≡ false → Q (err e s))
        → (b ≡ true → Q (k s))
        → Q ((guard b e >> k) s)
    unfolding running
    guard-rule true e k s f t = t refl
    guard-rule false e k s f t = f refl

    pub need-rule :
        {A : Type 0} (o : Option A) (e : E) (k : A → Op E S B) (s : S)
        → (o ≡ none → Q (err e s))
        → ((a : A) → o ≡ some a → Q (k a s))
        → Q ((need o e >>= k) s)
    unfolding running
    need-rule none e k s f t = f refl
    need-rule (some a) e k s f t = t a refl

    pub attempt-rule :
        {A : Type 0} (r : E ⊎ A) (k : A → Op E S B) (s : S)
        → ((e : E) → r ≡ inl e → Q (err e s))
        → ((a : A) → r ≡ inr a → Q (k a s))
        → Q ((attempt r >>= k) s)
    unfolding running
    attempt-rule (inl e) k s f t = f e refl
    attempt-rule (inr a) k s f t = t a refl

    -- A method that another one calls.
    pub call-rule :
        {A : Type 0} (op : Op E S A) (k : A → Op E S B) (s : S)
        → ((e : E) (t : S) → op s ≡ err e t → Q (err e t))
        → ((a : A) (t : S) → op s ≡ ok a t → Q (k a t))
        → Q ((op >>= k) s)
    call-rule op k s failed done = elim (outcome_cases (op s)) [
      | inl (e, t, p) ↦ subst Q (sym (bind_err op k s p)) (failed e t p)
      | inr (a, t, p) ↦ subst Q (sym (bind_ok op k s p)) (done a t p)
    ]

    pub modify-rule : (f : S → S) (k : Op E S B) (s : S) → Q (k (f s)) → Q ((modify f >> k) s)
    unfolding running
    modify-rule f k s q = q

    pub succeed-rule : (a : B) (s : S) → Q (ok a s) → Q (succeed a s)
    unfolding running
    succeed-rule a s q = q

    pub fail-rule : (e : E) (s : S) → Q (err e s) → Q (fail e s)
    unfolding running
    fail-rule e s q = q

    pub branch-rule :
        (b : Bool) (x y : Op E S B) (s : S)
        → (b ≡ true → Q (x s))
        → (b ≡ false → Q (y s))
        → Q (branch b x y s)
    unfolding branch
    branch-rule true x y s p q = p refl
    branch-rule false x y s p q = q refl

  pub modify-last :
      (Q : Outcome E S (Unit {0}) → Type 0) (f : S → S) (s : S) → Q (ok tt (f s)) → Q (modify f s)
  unfolding running
  modify-last Q f s q = q
