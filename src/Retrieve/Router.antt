-- ===== src/Retrieve/Router.antt =====
-- retrieve/router.rs: the rules that choose between local, global and hybrid retrieval. Lower case
-- is a parameter (`Unicode`); scores are `f32`s of `Single`.
pub mod Single
pub mod Keywords
pub mod Scopes
use wend_rag.Base.{
  ℕ, zero, suc, ◌+◌, ◌-◌, ◌*◌, ◌/◌, min, List, [], ◌∷◌, ◌++◌, Option, none, some, Bool, true, false,
  ◌&&◌, ◌||◌, not, ltb, leb, if◌then◌else◌, length, filter, any, take, concat, map,
}
use wend_rag.Base.Text.{Text, codes, is_whitespace, byte_len, contains, text_eq}
use wend_rag.Base.Unicode.{Unicode}
use Single.{round, tenths_3, tenths_5, tenths_6, tenths_7, tenths_8, one}
use Keywords.{local_keywords, global_keywords}

pub data QueryScope : Type 0 where
  to_local to_global hybrid : QueryScope

unfoldable pub uses_local : QueryScope → Bool
uses_local to_local = true
uses_local to_global = false
uses_local hybrid = true

unfoldable pub uses_global : QueryScope → Bool
uses_global to_local = false
uses_global to_global = true
uses_global hybrid = true

pub data ClassificationMethod : Type 0 where
  rule_based llm_based fallback : ClassificationMethod

pub record ClassificationConfidence : Type 0 where
  pub score : ℕ
  pub method : ClassificationMethod

pub record QueryClassification : Type 0 where
  pub scope : QueryScope
  pub confidence : ClassificationConfidence
  pub matched_keywords : List Text

pub record QueryRouterConfig : Type 0 where
  pub high_confidence_threshold : ℕ
  pub hybrid_threshold : ℕ
  pub enable_llm_fallback : Bool
  pub min_query_length : ℕ
  pub max_query_length : ℕ

abbrev pub default_config : QueryRouterConfig
default_config = record {
  high_confidence_threshold = tenths_8;
  hybrid_threshold = tenths_6;
  enable_llm_fallback = false;
  min_query_length = 3;
  max_query_length = 1000;
}

pub record RouteDecision : Type 0 where
  pub primary_scope : QueryScope
  pub secondary_scope : Option QueryScope
  pub classification : QueryClassification

-- `str::split_whitespace`; `word` is the word under way, and no word is empty.
unfoldable pub end_word : Text → List Text → List Text
end_word [] rest = rest
end_word (c ∷ w) rest = (c ∷ w) ∷ rest

unfoldable pub split_whitespace : Text → Text → List Text
unfolding is_whitespace end_word
split_whitespace word [] = end_word word []
split_whitespace word (c ∷ s) =
    if is_whitespace c
    then end_word word (split_whitespace [] s)
    else split_whitespace (word ++ c ∷ []) s

unfoldable pub phrases_in : Text → List Text → List Text
unfolding contains
phrases_in normalized keywords =
    filter (λ phrase. contains phrase (32 ∷ []) && contains normalized phrase) keywords

-- One word of the loop over the query's words, for one set of keywords.
unfoldable pub match_word : List Text → Text → List Text → List Text
unfolding contains text_eq
match_word keywords word found =
    if any (text_eq word) keywords && not (any (λ m. contains m word) found)
    then found ++ word ∷ []
    else found

unfoldable pub match_words : List Text → List Text → List Text → List Text
unfolding match_word
match_words keywords [] found = found
match_words keywords (w ∷ ws) found = match_words keywords ws (match_word keywords w found)

unfoldable pub matches_of : ℕ → Text → List Text → List Text
unfolding phrases_in match_words split_whitespace
matches_of max_query_length normalized keywords =
    match_words keywords (take (max_query_length / 5) (split_whitespace [] normalized))
      (phrases_in normalized keywords)

-- The scope and the confidence for so many local and global matches. The sums under `round` are
-- exact; of two scores the smaller one is taken from the larger, as `abs` has it.
unfoldable pub scope_for : ℕ → ℕ → QueryScope × ClassificationConfidence
scope_for local_count global_count =
    let local_score = round (local_count * tenths_3) in
    let global_score = round (global_count * tenths_3) in
    if ltb 0 local_score && ltb 0 global_score
    then (let diff = round ((local_score - global_score) + (global_score - local_score)) in
        if ltb diff tenths_3
        then (hybrid, record { score = tenths_6; method = rule_based })
        else if ltb global_score local_score
        then (
          to_local,
          record { score = round (tenths_7 + min diff tenths_3); method = rule_based },
        )
        else (
          to_global,
          record { score = round (tenths_7 + min diff tenths_3); method = rule_based },
        ))
    else if ltb 0 local_score
    then (
      to_local,
      record { score = min (round (tenths_7 + local_score)) one; method = rule_based },
    )
    else if ltb 0 global_score
    then (
      to_global,
      record { score = min (round (tenths_7 + global_score)) one; method = rule_based },
    )
    else (hybrid, record { score = tenths_5; method = fallback })

module _ (unicode : Unicode) (config : QueryRouterConfig) where
  unfoldable pub classify : Text → QueryClassification
  classify query =
      if ltb (byte_len query) config.min_query_length
      then record {
        scope = hybrid;
        confidence = record { score = tenths_5; method = fallback };
        matched_keywords = [];
      }
      else let normalized = unicode.to_lowercase query in
        let local_matches = matches_of config.max_query_length normalized local_keywords in
        let global_matches = matches_of config.max_query_length normalized global_keywords in
        let verdict = scope_for (length local_matches) (length global_matches) in
        record {
          scope = verdict.0;
          confidence = verdict.1;
          matched_keywords = local_matches ++ global_matches;
        }

  unfoldable pub decide : QueryClassification → RouteDecision
  decide c =
      if leb config.high_confidence_threshold c.confidence.score
      then record { primary_scope = c.scope; secondary_scope = none; classification = c }
      else if leb config.hybrid_threshold c.confidence.score
      then record { primary_scope = c.scope; secondary_scope = some hybrid; classification = c }
      else record { primary_scope = hybrid; secondary_scope = none; classification = c }

  unfoldable pub route : Text → RouteDecision
  route query = decide (classify query)
