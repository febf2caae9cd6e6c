-- ===== src/Ingest/Semantic/Split.antt =====
-- `semantic_split` and `build_sentence_windows` of ingest/chunker_semantic.rs. The embedder is a
-- remote service, and a parameter.
pub mod Sizes
use wend_rag.Base.{
  ℕ, zero, suc, List, [], ◌∷◌, ◌++◌, Option, some, ◌>>=◌ as bind?, Bool, leb, ltb, if◌then◌else◌,
  length, is_empty, take, map,
}
use wend_rag.Base.Float.{Float}
use wend_rag.Base.Outcome.{Outcome, done, or_stuck, ◌>>=◌}
use wend_rag.Base.Text.{Text, codes, byte_len, trim, join}
use wend_rag.Base.Unicode.{Unicode}
use wend_rag.Ingest.Window.{push_unless_blank, split_with_overlap}
use wend_rag.Ingest.Sentences.{split_sentences, filter_garbage_sentences}
use wend_rag.Ingest.Semantic.Groups.{sentence_group_size, group_sentences_at_breaks_maxmin}
use wend_rag.Ingest.Semantic.Breaks.{cosine_similarity, find_breakpoints_maxmin}

abbrev pub text_window_overlap : ℕ
text_window_overlap = 200

module _ {ℓ} {A : Type ℓ} where
  -- `slice::windows`
  unfoldable pub windows_of : ℕ → List A → List (List A)
  windows_of size [] = []
  windows_of size (x ∷ xs) =
      let rest = windows_of size xs in
      if leb size (length (x ∷ xs)) then take size (x ∷ xs) ∷ rest else []

  unfoldable pub build_sentence_windows : List A → ℕ → List (List A)
  unfolding windows_of
  build_sentence_windows sentences group_size =
      if leb (length sentences) group_size then sentences ∷ [] else windows_of group_size sentences

-- `for group in groups { … }`: the joined groups, the oversized ones cut into windows.
unfoldable pub pack_groups : ℕ → List (List Text) → Option (List Text)
pack_groups max_chunk_chars [] = some []
pack_groups max_chunk_chars (group ∷ groups) =
    let joined = join (codes " ") group in
    bind? (pack_groups max_chunk_chars groups) λ rest.
      if leb (byte_len joined) max_chunk_chars
      then some (push_unless_blank joined rest)
      else bind? (split_with_overlap joined max_chunk_chars text_window_overlap)
          λ windows. some (windows ++ rest)

module _ (u : Unicode) (f32 f64 : Float) where
  -- The similarities of consecutive embeddings.
  unfoldable pub similarities_of : List (List f32.F) → List f32.F
  similarities_of [] = []
  similarities_of (a ∷ []) = []
  similarities_of (a ∷ b ∷ rest) = cosine_similarity f32 a b ∷ similarities_of (b ∷ rest)

  module _ {E : Type 0} (embed : List Text → Outcome E (List (List f32.F))) where
    -- Steps 3 to 8, on the sentences that are left.
    unfoldable pub split_at_topics : List Text → ℕ → f64.F → ℕ → Outcome E (List Text)
    split_at_topics sentences max_chunk_chars threshold_percentile max_sentences =
        let windows = build_sentence_windows sentences sentence_group_size in
        if leb (length windows) 1 then done (join (codes " ") sentences ∷ []) else do
          embeddings ← embed (map (join (codes " ")) windows)
          if ltb (length embeddings) 2 then done (join (codes " ") sentences ∷ []) else do
            breakpoints ← or_stuck (
                find_breakpoints_maxmin f32 f64 (similarities_of embeddings) threshold_percentile
                  max_sentences)
            groups ←
                or_stuck
                  (group_sentences_at_breaks_maxmin sentences breakpoints windows max_sentences)
            or_stuck (pack_groups max_chunk_chars groups)

    unfoldable pub semantic_split : Text → ℕ → f64.F → ℕ → Bool → Outcome E (List Text)
    semantic_split text max_chunk_chars threshold_percentile max_sentences filter_garbage =
        let sentences = split_sentences u text in
        let kept = if filter_garbage then filter_garbage_sentences u sentences else sentences in
        if leb (length sentences) 1
        then done (text ∷ [])
        else if is_empty kept
        then done (text ∷ [])
        else split_at_topics kept max_chunk_chars threshold_percentile max_sentences
