-- ===== src/Entity/Normalize/Types.antt =====
-- The canonical entity types of entity/normalize.rs.
use wend_rag.Base.{
  ℕ, [], ◌∷◌, true, false, ◌&&◌, ◌||◌, leb, ◌==◌, if◌then◌else◌, map, is_empty, All, ◌≡◌, refl, ap,
  ◌∙◌, arith, Bool-cases, inl, inr,
}
use wend_rag.Base.Text.{Text, trim, trim_start, trim_end, is_whitespace}
use wend_rag.Entity.Normalize.{type_char, normalize_entity_type}

-- A character that stays as it is and is no white space.
abbrev pub IsTypeChar : ℕ → Type 0
IsTypeChar c = ((leb b'A' c && leb c b'Z') || (leb b'0' c && leb c b'9') || c == b'_') ≡ true

abbrev pub IsEntityType : Text → Type 0
IsEntityType t = (is_empty t ≡ false) × All IsTypeChar t

type_char-IsTypeChar : (c : ℕ) → IsTypeChar (type_char c)
unfolding type_char
type_char-IsTypeChar c = ground arith

map-All : (s : Text) → All IsTypeChar (map type_char s)
map-All [] = tt
map-All (c ∷ s) = (type_char-IsTypeChar c, map-All s)

type_char-fixed : (c : ℕ) → IsTypeChar c → type_char c ≡ c
unfolding type_char
type_char-fixed c h = ground arith

not_whitespace : (c : ℕ) → IsTypeChar c → is_whitespace c ≡ false
unfolding is_whitespace
not_whitespace c h = ground arith

trim_start-fixed : (s : Text) → All IsTypeChar s → trim_start s ≡ s
trim_start-fixed [] h = unfold trim_start in refl
trim_start-fixed (c ∷ s) h = unfold trim_start in rw (not_whitespace c h.0) refl

trim_end-fixed : (s : Text) → All IsTypeChar s → trim_end s ≡ s
unfolding trim_end
trim_end-fixed [] h = refl
trim_end-fixed (c ∷ []) h = rw (not_whitespace c h.0) refl
trim_end-fixed (c ∷ d ∷ s) h =
    ap (λ t. elim t [ [] ↦ if is_whitespace c then [] else c ∷ [] | e ∷ r ↦ c ∷ e ∷ r ])
      (trim_end-fixed (d ∷ s) h.1)

map-fixed : (s : Text) → All IsTypeChar s → map type_char s ≡ s
map-fixed [] h = refl
map-fixed (c ∷ s) h = rw (type_char-fixed c h.0, map-fixed s h.1) refl

-- Whatever an extractor names it, an entity's type is a text of capital letters, digits and
-- underscores that is not empty.
pub normalize_entity_type-IsEntityType : (value : Text) → IsEntityType (normalize_entity_type value)
unfolding normalize_entity_type
normalize_entity_type-IsEntityType value = elim (Bool-cases (is_empty (trim value))) [
  | inl e ↦ rw e (refl, ground arith)
  | inr e ↦ rw e (full (trim value) e, map-All (trim value))
]
  where
    full : (s : Text) → is_empty s ≡ false → is_empty (map type_char s) ≡ false
    full [] h = h
    full (c ∷ s) h = refl

canonical : (t : Text) → IsEntityType t → normalize_entity_type t ≡ t
unfolding normalize_entity_type trim
canonical t h =
    let same : trim_end (trim_start t) ≡ t =
      ap trim_end (trim_start-fixed t h.1) ∙ trim_end-fixed t h.1 in
    rw (same, h.0) (map-fixed t h.1)

-- Bringing a type to its canonical form again changes nothing.
normalize_entity_type_idempotent :
    (value : Text)
    → normalize_entity_type (normalize_entity_type value) ≡ normalize_entity_type value
normalize_entity_type_idempotent value =
    canonical (normalize_entity_type value) (normalize_entity_type-IsEntityType value)
