-- ===== src/Base/Outcome.antt =====
-- The outcome of a fallible call: its result, an error, or `stuck`, which stands for a loop that
-- does not end and for an index out of bounds.
use mathlib.Core.Path.{◌≡◌, refl}
use mathlib.Core.Option.{Option, none, some}

pub data Outcome {ℓ κ} (E : Type ℓ) (A : Type κ) : Type (ℓ ⊔ κ) where
  done : A → Outcome E A
  failed : E → Outcome E A
  stuck : Outcome E A

module _ {ℓ κ μ} {E : Type ℓ} {A : Type κ} {B : Type μ} where
  infixl 5 ◌>>=◌
  abbrev pub ◌>>=◌ : Outcome E A → (A → Outcome E B) → Outcome E B
  done a >>= f = f a
  failed e >>= f = failed e
  stuck >>= f = stuck

module _ {ℓ κ} {E : Type ℓ} {A : Type κ} where
  abbrev pub or_stuck : Option A → Outcome E A
  or_stuck none = stuck
  or_stuck (some a) = done a

module _ {ℓ κ μ} {E : Type ℓ} {A : Type κ} {B : Type μ} where
  -- Inversion of a bind that returns.
  pub >>=-eq-done :
      (m : Outcome E A) (f : A → Outcome E B) {b : B}
      → (m >>= f) ≡ done b
      → (a : A) × (m ≡ done a) × (f a ≡ done b)
  >>=-eq-done (done a) f h = (a, refl, h)
  >>=-eq-done (failed e) f h = cc
  >>=-eq-done stuck f h = cc
