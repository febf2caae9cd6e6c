-- ===== src/Store/TextUtil.antt =====
-- store/sqlite/text_util.rs: full-text queries, LIKE patterns and trigram similarity. A hash map of
-- counts is an association list in the order of first insertion; no result depends on its order.
pub mod Patterns
pub mod Trigrams
use wend_rag.Base.{
  ℕ, zero, suc, ◌+◌, ◌*◌, min, List, [], ◌∷◌, ◌++◌, Option, none, some, Bool, true, false, ◌||◌,
  not, ◌==◌, ltb, if◌then◌else◌, length, map, filter, is_empty,
}
use wend_rag.Base.Text.{Text, text_eq, contains, join}
use wend_rag.Base.Unicode.{Unicode}
use wend_rag.Base.Float.{Float}

-- `str::replace` of a character
unfoldable pub replace : ℕ → Text → Text → Text
replace c by [] = []
replace c by (x ∷ s) = (if x == c then by else x ∷ []) ++ replace c by s

-- `str::split` at the characters that fail a test, then without the empty pieces; `piece` is the
-- piece under way.
unfoldable pub end_piece : Text → List Text → List Text
end_piece [] rest = rest
end_piece (c ∷ p) rest = (c ∷ p) ∷ rest

unfoldable pub pieces : (ℕ → Bool) → Text → Text → List Text
unfolding end_piece
pieces keep piece [] = end_piece piece []
pieces keep piece (c ∷ s) =
    if keep c then pieces keep (piece ++ c ∷ []) s else end_piece piece (pieces keep [] s)

unfoldable pub quoted : Text → Text
unfolding replace
quoted token = 34 ∷ replace 34 (34 ∷ 34 ∷ []) token ++ 34 ∷ []

module _ (unicode : Unicode) where
  unfoldable pub build_fts5_query : Text → Option Text
  build_fts5_query query =
      let tokens = map quoted (pieces unicode.is_alphanumeric [] query) in
      if is_empty tokens then none else some (join (32 ∷ []) tokens)

unfoldable pub escape_like_pattern : Text → Text
unfolding replace
escape_like_pattern value =
    replace 95 (92 ∷ 95 ∷ []) (replace 37 (92 ∷ 37 ∷ []) (replace 92 (92 ∷ 92 ∷ []) value))

abbrev pub Counts : Type 0
Counts = List (Text × ℕ)

-- `*counts.entry(trigram).or_default() += 1`
unfoldable pub count_up : Text → Counts → Counts
unfolding text_eq
count_up t [] = (t, 1) ∷ []
count_up t (p ∷ ps) = if text_eq p.0 t then (p.0, p.1 + 1) ∷ ps else p ∷ count_up t ps

-- `counts.get(trigram).copied().unwrap_or(0)`
unfoldable pub count_of : Text → Counts → ℕ
unfolding text_eq
count_of t [] = 0
count_of t (p ∷ ps) = if text_eq p.0 t then p.1 else count_of t ps

-- `chars.windows(3)`
unfoldable pub windows_3 : Text → List Text
windows_3 [] = []
windows_3 (a ∷ []) = []
windows_3 (a ∷ b ∷ []) = []
windows_3 (a ∷ b ∷ c ∷ s) = (a ∷ b ∷ c ∷ []) ∷ windows_3 (b ∷ c ∷ s)

unfoldable pub count_all : List Text → Counts → Counts
unfolding count_up
count_all [] counts = counts
count_all (t ∷ ts) counts = count_all ts (count_up t counts)

unfoldable pub build_trigram_multiset : Text → Counts
unfolding count_all windows_3
build_trigram_multiset value = count_all (windows_3 value) []

-- `values().sum()`
unfoldable pub sum_counts : Counts → ℕ
sum_counts [] = 0
sum_counts (p ∷ ps) = p.1 + sum_counts ps

unfoldable pub intersection : Counts → Counts → ℕ
unfolding count_of
intersection [] right = 0
intersection (p ∷ left) right = min p.1 (count_of p.0 right) + intersection left right

module _ (unicode : Unicode) (f : Float) where
  unfoldable pub trigram_similarity : Text → Text → f.F
  trigram_similarity left right =
      let l = unicode.to_lowercase left in
      let r = unicode.to_lowercase right in
      let lt = build_trigram_multiset l in
      let rt = build_trigram_multiset r in
      if is_empty l || is_empty r
      then f.of_ℕ 0
      else if text_eq l r
      then f.of_ℕ 1
      else if ltb (length l) 3 || ltb (length r) 3
      then if contains l r || contains r l then f.of_ℕ 1 else f.of_ℕ 0
      else f.div (f.mul (f.of_ℕ 2) (f.of_ℕ (intersection lt rt)))
          (f.of_ℕ (sum_counts lt + sum_counts rt))
