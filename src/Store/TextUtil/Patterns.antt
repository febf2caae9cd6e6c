-- ===== src/Store/TextUtil/Patterns.antt =====
-- The texts that store/sqlite/text_util.rs puts into queries, read back.
use wend_rag.Base.{
  ℕ, List, [], ◌∷◌, ◌++◌, Option, none, some, Bool, true, false, ◌||◌, ◌==◌, if◌then◌else◌, map,
  filter, is_empty, concat, All, ◌↔◌, ◌≡◌, refl, sym, ap, ◌∙◌, arith, append_assoc, Bool-cases, inl,
  inr,
}
use wend_rag.Base.Text.{Text, join}
use wend_rag.Base.Unicode.{Unicode}
use wend_rag.Store.TextUtil.{
  replace, end_piece, pieces, quoted, build_fts5_query, escape_like_pattern,
}

-- A LIKE pattern with the escape character `\`, read as the one text it matches; `none` if a wildcard
-- stands in it, or an escape at its end.
abbrev pub with_char : ℕ → Option Text → Option Text
with_char c none = none
with_char c (some s) = some (c ∷ s)

abbrev pub literal : Text → Option Text
literal [] = some []
literal (c ∷ []) = if c == 92 || c == 37 || c == 95 then none else some (c ∷ [])
literal (c ∷ d ∷ s) =
    let behind = with_char d (literal s) in
    let rest = with_char c (literal (d ∷ s)) in
    if c == 92 then behind else if c == 37 || c == 95 then none else rest

abbrev pub escape_char : ℕ → Text
escape_char c = if c == 92 || c == 37 || c == 95 then 92 ∷ c ∷ [] else c ∷ []

replace-append : (c : ℕ) (by s t : Text) → replace c by (s ++ t) ≡ replace c by s ++ replace c by t
unfolding replace
replace-append c by [] t = refl
replace-append c by (x ∷ s) t =
    ap (λ r. (if x == c then by else x ∷ []) ++ r) (replace-append c by s t)
    ∙ sym (append_assoc (if x == c then by else x ∷ []) (replace c by s) (replace c by t))

escape_one : (c : ℕ) → escape_like_pattern (c ∷ []) ≡ escape_char c
unfolding escape_like_pattern replace
escape_one c = ground arith

escape_like_pattern-cons :
    (c : ℕ) (s : Text) → escape_like_pattern (c ∷ s) ≡ escape_char c ++ escape_like_pattern s
escape_like_pattern-cons c s =
    split (c ∷ []) s ∙ ap (λ t. t ++ escape_like_pattern s) (escape_one c)
  where
    split :
        (a b : Text) → escape_like_pattern (a ++ b) ≡ escape_like_pattern a ++ escape_like_pattern b
    split a b =
        unfold escape_like_pattern in
        ap (λ t. replace 95 (92 ∷ 95 ∷ []) (replace 37 (92 ∷ 37 ∷ []) t))
          (replace-append 92 (92 ∷ 92 ∷ []) a b)
        ∙ ap (replace 95 (92 ∷ 95 ∷ [])) (
            replace-append 37 (92 ∷ 37 ∷ []) (replace 92 (92 ∷ 92 ∷ []) a)
              (replace 92 (92 ∷ 92 ∷ []) b))
        ∙ replace-append 95 (92 ∷ 95 ∷ []) (replace 37 (92 ∷ 37 ∷ []) (replace 92 (92 ∷ 92 ∷ []) a))
            (replace 37 (92 ∷ 37 ∷ []) (replace 92 (92 ∷ 92 ∷ []) b))

literal-escape_char : (c : ℕ) (s : Text) → literal (escape_char c ++ s) ≡ with_char c (literal s)
literal-escape_char c [] = ground arith
literal-escape_char c (d ∷ s) = ground arith

-- Read as a LIKE pattern with `\` for an escape, an escaped text has no wildcard and matches one
-- text, the one that was escaped.
pub literal-escape_like_pattern : (value : Text) → literal (escape_like_pattern value) ≡ some value
literal-escape_like_pattern [] = unfold escape_like_pattern in unfold replace in refl
literal-escape_like_pattern (c ∷ s) =
    ap literal (escape_like_pattern-cons c s)
    ∙ literal-escape_char c (escape_like_pattern s)
    ∙ ap (with_char c) (literal-escape_like_pattern s)

concat-end_piece : (p : Text) (rest : List Text) → concat (end_piece p rest) ≡ p ++ concat rest
unfolding end_piece
concat-end_piece [] rest = refl
concat-end_piece (x ∷ p) rest = refl

-- The pieces hold all characters that pass the test, in order, and nothing else.
concat-pieces :
    (keep : ℕ → Bool) (piece s : Text) → concat (pieces keep piece s) ≡ piece ++ filter keep s
unfolding pieces
concat-pieces keep piece [] = concat-end_piece piece []
concat-pieces keep piece (c ∷ s) = elim (Bool-cases (keep c)) [
  | inl e ↦
      rw e (concat-pieces keep (piece ++ c ∷ []) s ∙ append_assoc piece (c ∷ []) (filter keep s))
  | inr e ↦
      rw e
        (concat-end_piece piece (pieces keep [] s) ∙ ap (λ t. piece ++ t) (concat-pieces keep [] s))
]

end_piece-full :
    (p : Text) (rest : List Text)
    → All (λ t. is_empty t ≡ false) rest
    → All (λ t. is_empty t ≡ false) (end_piece p rest)
unfolding end_piece
end_piece-full [] rest h = h
end_piece-full (x ∷ p) rest h = (refl, h)

pieces-full :
    (keep : ℕ → Bool) (piece s : Text) → All (λ t. is_empty t ≡ false) (pieces keep piece s)
unfolding pieces
pieces-full keep piece [] = end_piece-full piece [] tt
pieces-full keep piece (c ∷ s) = elim (Bool-cases (keep c)) [
  | inl e ↦ rw e (pieces-full keep (piece ++ c ∷ []) s)
  | inr e ↦ rw e (end_piece-full piece (pieces keep [] s) (pieces-full keep [] s))
]

nil_of_concat-nil : (ts : List Text) → All (λ t. is_empty t ≡ false) ts → concat ts ≡ [] → ts ≡ []
nil_of_concat-nil [] h e = refl
nil_of_concat-nil ([] ∷ ts) h e = absurd (ground arith)
nil_of_concat-nil ((c ∷ t) ∷ ts) h e = cc

is_empty-map : (ts : List Text) → is_empty (map quoted ts) ≡ is_empty ts
is_empty-map [] = refl
is_empty-map (t ∷ ts) = refl

-- No full-text query is built of a text if and only if no character of it is alphanumeric.
pub build_fts5_query-none_iff :
    (unicode : Unicode) (query : Text)
    → (build_fts5_query unicode query ≡ none) ↔ (filter unicode.is_alphanumeric query ≡ [])
unfolding build_fts5_query
build_fts5_query-none_iff unicode query =
    let ts = pieces unicode.is_alphanumeric [] query in
    let whole = concat-pieces unicode.is_alphanumeric [] query in
    let same = is_empty-map ts in
    (
      (λ h.
          let nil : ts ≡ [] =
            is_nil ts
              (sym same ∙ tested (is_empty (map quoted ts)) (join (32 ∷ []) (map quoted ts)) h) in
          sym whole ∙ ap concat nil),
      (λ h.
          let nil =
            nil_of_concat-nil ts (pieces-full unicode.is_alphanumeric [] query) (whole ∙ h) in
          let e : is_empty (map quoted ts) ≡ true = same ∙ ap is_empty nil in rw e refl),
    )
  where
    is_nil : (ts : List Text) → is_empty ts ≡ true → ts ≡ []
    is_nil [] h = refl
    is_nil (t ∷ ts) h = cc

    tested : (b : Bool) (t : Text) → (if b then none else some t) ≡ none → b ≡ true
    tested true t h = refl
    tested false t h = cc
