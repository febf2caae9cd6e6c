-- ===== src/Auth/ConstantTime.antt =====
-- The comparison of auth.rs that looks at every byte, against equality.
use Prim.Native.Nat.{bit_or, bit_xor, digits, differ, bit_or-bitwise, bit_xor-bitwise}
use wend_rag.Base.{
  ℕ, zero, suc, ◌/◌, ◌%◌, ◌≤◌, max, List, [], ◌∷◌, true, ◌==◌, ==_iff, length, ◌≡◌, refl, sym, ap,
  ◌∙◌, ◌↔◌, inl, inr, arith, Bool-cases,
}
use wend_rag.Auth.Keys.{diff_loop, ct_eq}

differ-zero : (x y : ℕ) → differ x y ≡ 0 → x ≡ y
differ-zero zero y h = sym h
differ-zero (suc x) zero h = h
differ-zero (suc x) (suc y) h = ap suc (differ-zero x y h)

differ_self : (x : ℕ) → differ x x ≡ 0
differ_self zero = refl
differ_self (suc x) = differ_self x

xor_digits-zero : (n a b : ℕ) → a ≤ n → digits (λ d. d) differ n a b ≡ 0 → a ≡ b
xor_digits-zero zero a b le h = omega arith
xor_digits-zero (suc n) zero b le h = sym h
xor_digits-zero (suc n) (suc a) b le h =
    let high = xor_digits-zero n (suc a / 2) (b / 2) (omega arith) (omega arith) in
    let low = differ-zero (suc a % 2) (b % 2) (omega arith) in omega arith

xor_digits_self : (n a : ℕ) → a ≤ n → digits (λ d. d) differ n a a ≡ 0
xor_digits_self zero a le = omega arith
xor_digits_self (suc n) zero le = refl
xor_digits_self (suc n) (suc a) le =
    let high = xor_digits_self n (suc a / 2) (omega arith) in
    let low = differ_self (suc a % 2) in omega arith

or_digits-zero : (n a b : ℕ) → a ≤ n → digits (λ d. d) max n a b ≡ 0 → (a ≡ 0) × (b ≡ 0)
or_digits-zero zero a b le h = (omega arith, h)
or_digits-zero (suc n) zero b le h = (refl, h)
or_digits-zero (suc n) (suc a) b le h =
    let high = or_digits-zero n (suc a / 2) (b / 2) (omega arith) (omega arith) in
    (omega (arith, high.0), omega (arith, high.0, high.1))

bit_xor-zero : (a b : ℕ) → bit_xor a b ≡ 0 → a ≡ b
bit_xor-zero a b h = xor_digits-zero a a b (omega arith) (sym (bit_xor-bitwise a b) ∙ h)

bit_xor_self : (a : ℕ) → bit_xor a a ≡ 0
bit_xor_self a = bit_xor-bitwise a a ∙ xor_digits_self a a (omega arith)

bit_or-zero : (a b : ℕ) → bit_or a b ≡ 0 → (a ≡ 0) × (b ≡ 0)
bit_or-zero a b h = or_digits-zero a a b (omega arith) (sym (bit_or-bitwise a b) ∙ h)

diff_loop-zero :
    (d : ℕ) (a b : List ℕ) → length a ≡ length b → diff_loop d a b ≡ 0 → (d ≡ 0) × (a ≡ b)
unfolding diff_loop
diff_loop-zero d [] [] e h = (h, refl)
diff_loop-zero d [] (y ∷ b) e h = absurd (omega arith)
diff_loop-zero d (x ∷ a) [] e h = absurd (omega arith)
diff_loop-zero d (x ∷ a) (y ∷ b) e h =
    let rest = diff_loop-zero (bit_or d (bit_xor x y)) a b (omega arith) h in
    let both = bit_or-zero d (bit_xor x y) rest.0 in
    let same = bit_xor-zero x y both.1 in (both.0, ap (λ t. t ∷ a) same ∙ ap (λ t. y ∷ t) rest.1)

diff_loop_self : (a : List ℕ) → diff_loop 0 a a ≡ 0
unfolding diff_loop
diff_loop_self [] = refl
diff_loop_self (x ∷ a) = rw (bit_xor_self x) (diff_loop_self a)

-- The comparison that or-s the differences of all bytes together holds of two byte strings if and
-- only if they are equal.
pub ct_eq_iff : (a b : List ℕ) → (ct_eq a b ≡ true) ↔ (a ≡ b)
unfolding ct_eq
ct_eq_iff a b = (sound, complete)
  where
    sound : ct_eq a b ≡ true → a ≡ b
    sound h = elim (Bool-cases (length a == length b)) [
      | inl e ↦
          let lens = (==_iff (length a) (length b)).0 e in
          let zero_diff : diff_loop 0 a b ≡ 0 = ground (arith, e, h) in
          (diff_loop-zero 0 a b lens zero_diff).1
      | inr e ↦ absurd (ground (arith, e, h))
    ]

    complete : a ≡ b → ct_eq a b ≡ true
    complete h = rw (sym h) (ground (arith, diff_loop_self a))
