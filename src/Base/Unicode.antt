-- ===== src/Base/Unicode.antt =====
-- The character tables of the standard library, which the Unicode database generates. A model takes
-- them as a parameter; `ascii` is them on ASCII text, where the tests run.
use wend_rag.Base.Tests.{leb, if◌then◌else◌}
use wend_rag.Base.Text.{Text}
use Prim.Native.Nat.{ℕ, ◌+◌}
use mathlib.Core.Bool.{Bool, ◌&&◌, ◌||◌}
use mathlib.Core.List.{map}

pub record Unicode : Type 0 where
  pub is_alphanumeric : ℕ → Bool
  pub is_uppercase : ℕ → Bool
  -- `str::to_lowercase`, which may change the number of characters
  pub to_lowercase : Text → Text

abbrev pub is_ascii_upper : ℕ → Bool
is_ascii_upper c = leb b'A' c && leb c b'Z'

abbrev pub is_ascii_lower : ℕ → Bool
is_ascii_lower c = leb b'a' c && leb c b'z'

abbrev pub is_ascii_digit : ℕ → Bool
is_ascii_digit c = leb b'0' c && leb c b'9'

abbrev pub to_ascii_lower : ℕ → ℕ
to_ascii_lower c = if is_ascii_upper c then c + 32 else c

abbrev pub ascii : Unicode
ascii = record {
  is_alphanumeric = λ c. is_ascii_upper c || is_ascii_lower c || is_ascii_digit c;
  is_uppercase = is_ascii_upper;
  to_lowercase = map to_ascii_lower;
}
