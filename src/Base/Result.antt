-- ===== src/Base/Result.antt =====
-- The result of a call that ends: a value or an error.
pub data Result (E A : Type 0) : Type 0 where
  ok : A → Result E A
  err : E → Result E A

module _ {E A B : Type 0} where
  infixl 5 ◌>>=◌
  abbrev pub ◌>>=◌ : Result E A → (A → Result E B) → Result E B
  ok a >>= f = f a
  err e >>= f = err e

module _ {E D A : Type 0} where
  abbrev pub map_err : (E → D) → Result E A → Result D A
  map_err f (ok a) = ok a
  map_err f (err e) = err (f e)
