-- ===== src/Base/Text/Laws.antt =====
-- What the text methods keep and lose.
use Prim.Native.Nat.{ℕ, ◌+◌, ◌≤◌}
use mathlib.Core.Path.{◌≡◌, refl, ◌∙◌}
use mathlib.Core.Bool.{true, not}
use mathlib.Core.Logic.{◌↔◌}
use mathlib.Core.List.{[], ◌∷◌, ◌++◌}
use native.Mathlib.Omega.{arith}
use wend_rag.Base.Lists.{length, filter, filter-append}
use wend_rag.Base.Tests.{if◌then◌else◌}
use wend_rag.Base.Text.{
  Text, is_whitespace, utf8_width, byte_len, trim, trim_start, trim_end, text_eq,
}

-- The characters that are no white space, in order.
abbrev pub ink : Text → Text
ink s = filter (λ c. not (is_whitespace c)) s

-- `trim_start` and `trim_end` with the test for white space shut.
trim_start-cons :
    (c : ℕ) (s : Text) → trim_start (c ∷ s) ≡ (if is_whitespace c then trim_start s else c ∷ s)
unfolding trim_start
trim_start-cons c s = refl

ink-trim_start : (s : Text) → ink (trim_start s) ≡ ink s
ink-trim_start [] = unfold trim_start in refl
ink-trim_start (c ∷ s) = rw trim_start-cons (ground (arith, ink-trim_start s))

trim_end-cons :
    (c : ℕ) (s : Text)
    → trim_end (c ∷ s)
      ≡ (elim (trim_end s) [ [] ↦ if is_whitespace c then [] else c ∷ [] | d ∷ r ↦ c ∷ d ∷ r ])
unfolding trim_end
trim_end-cons c s = refl

ink-trim_end : (s : Text) → ink (trim_end s) ≡ ink s
ink-trim_end [] = unfold trim_end in refl
ink-trim_end (c ∷ s) = ground (arith, trim_end-cons c s, ink-trim_end s)

-- Trimming removes white space only.
pub ink-trim : (s : Text) → ink (trim s) ≡ ink s
ink-trim s = unfold trim in ink-trim_end (trim_start s) ∙ ink-trim_start s

pub ink-append : (s t : Text) → ink (s ++ t) ≡ ink s ++ ink t
ink-append s t = filter-append (λ c. not (is_whitespace c)) s t

pub trim-nil_of_ink-nil : (s : Text) → ink s ≡ [] → trim s ≡ []
unfolding trim
trim-nil_of_ink-nil s h = end_nil (trim_start s) (start_nil s h)
  where
    start_nil : (t : Text) → ink t ≡ [] → trim_start t ≡ []
    start_nil [] e = refl
    start_nil (c ∷ t) e = rw trim_start-cons (ground (arith, start_nil t))

    end_nil : (t : Text) → t ≡ [] → trim_end t ≡ []
    end_nil [] e = refl
    end_nil (c ∷ t) e = cc

utf8_width-pos : (c : ℕ) → 1 ≤ utf8_width c
unfolding utf8_width
utf8_width-pos c = ground arith

byte_len-cons : (c : ℕ) (s : Text) → byte_len (c ∷ s) ≡ utf8_width c + byte_len s
unfolding byte_len
byte_len-cons c s = refl

pub byte_len-append : (s t : Text) → byte_len (s ++ t) ≡ byte_len s + byte_len t
byte_len-append [] t = unfold byte_len in omega arith
byte_len-append (c ∷ s) t =
    omega (arith, byte_len-cons c s, byte_len-cons c (s ++ t), byte_len-append s t)

-- A text has at least as many bytes as characters.
pub length-le-byte_len : (s : Text) → length s ≤ byte_len s
length-le-byte_len [] = omega arith
length-le-byte_len (c ∷ s) =
    omega (arith, length-le-byte_len s, byte_len-cons c s, utf8_width-pos c)

eq_of_text_eq : (s t : Text) → text_eq s t ≡ true → s ≡ t
unfolding text_eq
eq_of_text_eq [] [] h = refl
eq_of_text_eq [] (d ∷ t) h = cc
eq_of_text_eq (c ∷ s) [] h = cc
eq_of_text_eq (c ∷ s) (d ∷ t) h = ground (arith, eq_of_text_eq s t)

pub text_eq_refl : (s : Text) → text_eq s s ≡ true
unfolding text_eq
text_eq_refl [] = refl
text_eq_refl (c ∷ s) = ground (arith, text_eq_refl s)

pub text_eq_iff : (s t : Text) → (text_eq s t ≡ true) ↔ (s ≡ t)
text_eq_iff s t = (eq_of_text_eq s t, λ e. rw e (text_eq_refl t))
