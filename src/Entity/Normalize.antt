-- ===== src/Entity/Normalize.antt =====
-- entity/normalize.rs: the keys and types by which entities are told apart.
pub mod Types
use wend_rag.Base.{
  ℕ, ◌+◌, ◌-◌, List, [], ◌∷◌, ◌++◌, Option, none, some, Bool, true, false, ◌&&◌, ◌||◌, leb,
  if◌then◌else◌, map, is_empty,
}
use wend_rag.Base.Text.{Text, codes, trim, join, is_whitespace}
use wend_rag.Base.Unicode.{Unicode}

abbrev pub default_entity_type : Text
default_entity_type = codes "CONCEPT"

-- `str::split_whitespace`; `word` is the word under way.
unfoldable pub end_word : Text → List Text → List Text
end_word [] rest = rest
end_word (c ∷ w) rest = (c ∷ w) ∷ rest

unfoldable pub words : Text → Text → List Text
unfolding is_whitespace end_word
words word [] = end_word word []
words word (c ∷ s) =
    if is_whitespace c then end_word word (words [] s) else words (word ++ c ∷ []) s

module _ (unicode : Unicode) where
  unfoldable pub normalize_entity_name : Text → Text
  unfolding words join
  normalize_entity_name value = unicode.to_lowercase (join (32 ∷ []) (words [] value))

unfoldable pub type_char : ℕ → ℕ
type_char c =
    if leb b'a' c && leb c b'z'
    then c - 32
    else if (leb b'A' c && leb c b'Z') || (leb b'0' c && leb c b'9')
    then c
    else b'_'

unfoldable pub normalize_entity_type : Text → Text
normalize_entity_type value =
    let trimmed = trim value in
    if is_empty trimmed then default_entity_type else map type_char trimmed

unfoldable pub normalize_relationship_type : Text → Text
unfolding normalize_entity_type
normalize_relationship_type value = normalize_entity_type value

unfoldable pub clean_required_text : Text → Option Text
unfolding trim
clean_required_text value =
    let trimmed = trim value in if is_empty trimmed then none else some trimmed

unfoldable pub clean_optional_text : Option Text → Option Text
unfolding clean_required_text
clean_optional_text none = none
clean_optional_text (some text) =
    let trimmed = trim text in if is_empty trimmed then none else some trimmed
