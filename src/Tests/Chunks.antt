-- ===== src/Tests/Chunks.antt =====
-- ingest/chunker.rs and ingest/chunker_semantic.rs on small texts.
use wend_rag.Base.{
  true, length-map, ℕ, List, [], ◌∷◌, none, some, false, ◌≡◌, ◌≢◌, refl, length, concat, map, All,
  Any, get_elem?, arith,
}
use wend_rag.Base.Float.{naturals}
use wend_rag.Base.Unicode.{ascii}
use wend_rag.Base.Outcome.{Outcome, done}
use wend_rag.Base.Text.{
  Text, codes, is_whitespace, trim, trim_start, trim_end, ends_with, byte_len, utf8_width, text_eq,
}
use wend_rag.Base.Text.Laws.{ink}
use wend_rag.Ingest.Window.{split_with_overlap}
use wend_rag.Ingest.Window.Coverage.{CoversAt, IsWindow, split_with_overlap_covers}
use wend_rag.Ingest.Sentences.{
  split_sentences, sentence_loop, is_end_mark, push_trimmed, is_abbreviation, next_is_boundary,
}
use wend_rag.Ingest.Sentences.Ink.{NonEmpty, split_sentences_keeps_ink}
use wend_rag.Ingest.Semantic.Groups.{max_loop, group_sentences_at_breaks_maxmin}
use wend_rag.Ingest.Semantic.Groups.Partition.{
  Partitions, group_sentences-Partitions, max_loop_zero_diverges,
}
use wend_rag.Ingest.Semantic.Breaks.{threshold_of, find_breakpoints_maxmin}
use wend_rag.Ingest.Semantic.Breaks.Forced.{AreBreaks, find_breakpoints-AreBreaks}
use wend_rag.Ingest.Semantic.Split.{semantic_split}
use wend_rag.Ingest.Semantic.Split.Sizes.{IsSplit, semantic_split-IsSplit}
use wend_rag.Ingest.Chunker.{
  fixed, Chunking, RawChunk, chunk_document, max_size_of, section_loop, section_contents,
  push_chunks, with_fallback, sections_of, is_markdown, index_after,
}
use wend_rag.Ingest.Sections.{
  extract_text_sections, merge_paragraphs, split_paragraphs, is_full, push_paragraph,
}
use wend_rag.Ingest.Chunker.Numbering.{AreNumbered, chunk_document-AreNumbered}
use wend_rag.Ingest.Chunker.FixedSize.{HasShortContent, chunk_document-HasShortContent}

abbrev words : Text
words = codes "one two three"

split_with_overlap_covers_example :
    (chunks : List Text) × (split_with_overlap words 5 2 ≡ some chunks)
    × All (IsWindow 5) chunks
    × ((i c : ℕ)
        → get_elem? words i ≡ some c
        → is_whitespace c ≡ false
        → Any (CoversAt words i) chunks)
split_with_overlap_covers_example = split_with_overlap_covers words 5 2 (omega arith)

abbrev prose : Text
prose = codes "It rains. Dr. Who left! Why? Nobody knows."

split_sentences_keeps_ink_example :
    (ink (concat (split_sentences ascii prose)) ≡ ink prose)
    × All NonEmpty (split_sentences ascii prose)
split_sentences_keeps_ink_example = split_sentences_keeps_ink ascii prose

abbrev numbers : List ℕ
numbers = 1 ∷ 2 ∷ 3 ∷ 4 ∷ 5 ∷ 6 ∷ 7 ∷ []

group_sentences-Partitions_example :
    Partitions 2 (group_sentences_at_breaks_maxmin numbers (1 ∷ []) (numbers ∷ []) 2) numbers
group_sentences-Partitions_example =
    group_sentences-Partitions numbers (1 ∷ []) (numbers ∷ []) 2 (omega arith) (omega arith)

max_loop_zero_diverges_example : max_loop 100 numbers 0 7 0 ≡ none
max_loop_zero_diverges_example = max_loop_zero_diverges 100 numbers 7 0 (omega arith)

abbrev gaps : List ℕ
gaps = 9 ∷ 2 ∷ 8 ∷ 9 ∷ 9 ∷ 8 ∷ []

find_breakpoints-AreBreaks_example :
    (threshold : ℕ) × (breaks : List ℕ) × (threshold_of naturals naturals gaps 0 ≡ some threshold)
    × (find_breakpoints_maxmin naturals naturals gaps 0 7 ≡ some breaks)
    × AreBreaks naturals gaps 7 threshold breaks
find_breakpoints-AreBreaks_example =
    find_breakpoints-AreBreaks naturals naturals gaps 0 7 (omega arith)

abbrev sentences : List Text
sentences =
    codes "Cats purr."
    ∷ codes "Cats nap."
    ∷ codes "Rust is fast."
    ∷ codes "Rust is safe."
    ∷ codes "Rust compiles."
    ∷ []

-- Every window of sentences as the same small vector.
abbrev embed : List Text → Outcome Text (List (List ℕ))
embed texts = done (map (λ t. 1 ∷ 2 ∷ []) texts)

abbrev short : Text
short = codes "It rains. It pours."

two_sentences : length (split_sentences ascii short) ≡ 2
unfolding split_sentences sentence_loop is_end_mark push_trimmed is_abbreviation next_is_boundary
    ends_with trim trim_start trim_end is_whitespace
two_sentences = refl

semantic_split-IsSplit_example :
    (chunks : List Text) × (semantic_split ascii naturals naturals embed short 5 0 3 true
      ≡ done chunks)
    × IsSplit ascii naturals naturals embed short 5 true chunks
semantic_split-IsSplit_example =
    semantic_split-IsSplit ascii naturals naturals embed short 5 0 3 true (omega arith)
      (omega arith) (λ ts. (map (λ t. 1 ∷ 2 ∷ []) ts, refl, length-map (λ t. 1 ∷ 2 ∷ []) ts))

abbrev settings : Chunking ascii naturals naturals Text
settings = record {
  parse_markdown = λ t. [];
  strategy = fixed;
  embedder = none;
  semantic_threshold = 0;
  max_sentences = 3;
  filter_garbage = false;
}

abbrev one_chunk : List RawChunk
one_chunk = record { content = codes "Hi."; chunk_index = 0; section_title = none } ∷ []

chunked :
    chunk_document ascii naturals naturals settings (codes "Hi.") (codes "text") ≡ done one_chunk
unfolding chunk_document section_loop section_contents push_chunks with_fallback sections_of
    extract_text_sections merge_paragraphs split_paragraphs is_full push_paragraph trim trim_start
    trim_end is_whitespace byte_len utf8_width text_eq is_markdown index_after
chunked = refl

chunk_document-AreNumbered_example :
    AreNumbered 0 one_chunk × (trim (codes "Hi.") ≢ [] → one_chunk ≢ [])
chunk_document-AreNumbered_example =
    chunk_document-AreNumbered ascii naturals naturals settings (codes "Hi.") (codes "text") chunked

chunk_document-HasShortContent_example :
    (chunks : List RawChunk) × (chunk_document ascii naturals naturals settings words (codes "text")
      ≡ done chunks)
    × All (HasShortContent (max_size_of (codes "text"))) chunks
chunk_document-HasShortContent_example =
    chunk_document-HasShortContent ascii naturals naturals settings refl words (codes "text")
