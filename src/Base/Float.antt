-- ===== src/Base/Float.antt =====
-- Floating-point numbers: a carrier with the operations that the sources call. The operations are
-- those of the language and round as they do; a theorem that needs a law names it.
use Prim.Native.Nat.{ℕ, ◌+◌, ◌-◌, ◌*◌, ◌/◌}
use wend_rag.Base.Tests.{leb, ◌==◌}
use mathlib.Core.Path.{◌≡◌}
use mathlib.Core.Logic.{◌⊎◌}
use mathlib.Core.Bool.{Bool, true}

pub record Float : Type 1 where
  pub F : Type 0
  pub of_ℕ : ℕ → F
  pub add : F → F → F
  pub sub : F → F → F
  pub mul : F → F → F
  pub div : F → F → F
  pub sqrt : F → F
  -- `x.ceil() as usize`
  pub ceil : F → ℕ
  -- `a <= b` and `a == b`, both false on a NaN
  pub le : F → F → Bool
  pub eq : F → F → Bool

-- The order on the values that are no NaN is total and transitive, and equality is that of the order.
pub record IsOrdered (f : Float) : Type 0 where
  pub le_total : (a b : f.F) → (f.le a b ≡ true) ⊎ (f.le b a ≡ true)
  pub le_trans : (a b c : f.F) → f.le a b ≡ true → f.le b c ≡ true → f.le a c ≡ true
  pub le_antisym : (a b : f.F) → f.le a b ≡ true → f.le b a ≡ true → f.eq a b ≡ true
  pub eq_le : (a b : f.F) → f.eq a b ≡ true → f.le b a ≡ true

-- Natural numbers with these operations, where the tests run.
abbrev pub naturals : Float
naturals = record {
  F = ℕ;
  of_ℕ = λ n. n;
  add = λ a b. a + b;
  sub = λ a b. a - b;
  mul = λ a b. a * b;
  div = λ a b. a / b;
  sqrt = λ a. a;
  ceil = λ a. a;
  le = leb;
  eq = λ a b. a == b;
}
