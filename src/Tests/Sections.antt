-- ===== src/Tests/Sections.antt =====
-- ingest/chunker_sections.rs, entity/normalize.rs and store/sqlite/text_util.rs on small texts.
use wend_rag.Base.{
  ◌-◌, ◌≤◌, List, [], ◌∷◌, ◌++◌, none, some, false, ◌≡◌, ◌↔◌, ◌⊎◌, length, concat, filter, All, Any,
}
use wend_rag.Base.Unicode.{ascii}
use wend_rag.Base.Text.{Text, codes, trim, join, byte_len}
use wend_rag.Ingest.Sections.{
  Event, start_heading, end_heading, text, soft_break, start_paragraph, end_paragraph,
  paragraph_break, text_window_size, split_paragraphs, extract_text_sections,
  extract_markdown_sections,
}
use wend_rag.Ingest.Sections.Paragraphs.{bodies, kept_paragraphs, extract_text_sections_keeps}
use wend_rag.Ingest.Sections.Markdown.{extract_markdown_sections_keeps}
use wend_rag.Ingest.Sections.Outline.{titles, headings, body_text, IsSection}
use wend_rag.Entity.Normalize.{normalize_entity_type}
use wend_rag.Entity.Normalize.Types.{IsEntityType, normalize_entity_type-IsEntityType}
use wend_rag.Store.TextUtil.{
  build_fts5_query, escape_like_pattern, build_trigram_multiset, count_of, windows_3, sum_counts,
}
use wend_rag.Store.TextUtil.Patterns.{
  literal, literal-escape_like_pattern, build_fts5_query-none_iff,
}
use wend_rag.Store.TextUtil.Trigrams.{occurrences, build_trigram_multiset_counts}

abbrev events : List Event
events =
    text (codes "before")
    ∷ start_heading 1
    ∷ text (codes " A ")
    ∷ end_heading
    ∷ start_paragraph
    ∷ text (codes "a")
    ∷ soft_break
    ∷ text (codes "b")
    ∷ end_paragraph
    ∷ start_heading 2
    ∷ text (codes "B")
    ∷ end_heading
    ∷ []

extract_markdown_sections_keeps_example :
    (tail : Text) × (concat (bodies (extract_markdown_sections events)) ++ tail
      ≡ body_text false events)
    × (trim tail ≡ [])
    × (titles (extract_markdown_sections events) ≡ headings false [] events)
    × All IsSection (extract_markdown_sections events)
extract_markdown_sections_keeps_example = extract_markdown_sections_keeps events

abbrev paragraphs : Text
paragraphs = codes "First.\n\n \n\n Second. "

extract_text_sections_keeps_example :
    (join paragraph_break (bodies (extract_text_sections paragraphs))
      ≡ join paragraph_break (kept_paragraphs (split_paragraphs paragraphs [])))
    × All
        (λ s.
          (byte_len s ≤ text_window_size) ⊎ Any (λ p. s ≡ trim p) (split_paragraphs paragraphs []))
        (bodies (extract_text_sections paragraphs))
extract_text_sections_keeps_example = extract_text_sections_keeps paragraphs

normalize_entity_type-IsEntityType_example :
    IsEntityType (normalize_entity_type (codes " programming language "))
normalize_entity_type-IsEntityType_example =
    normalize_entity_type-IsEntityType (codes " programming language ")

literal-escape_like_pattern_example :
    literal (escape_like_pattern (codes "50%_\\x")) ≡ some (codes "50%_\\x")
literal-escape_like_pattern_example = literal-escape_like_pattern (codes "50%_\\x")

build_fts5_query-none_iff_example :
    (build_fts5_query ascii (codes "a-b \"c\"") ≡ none)
    ↔ (filter ascii.is_alphanumeric (codes "a-b \"c\"") ≡ [])
build_fts5_query-none_iff_example = build_fts5_query-none_iff ascii (codes "a-b \"c\"")

build_trigram_multiset_counts_example :
    (count_of (codes "aba") (build_trigram_multiset (codes "ababa"))
      ≡ occurrences (codes "aba") (windows_3 (codes "ababa")))
    × (sum_counts (build_trigram_multiset (codes "ababa")) ≡ length (codes "ababa") - 2)
build_trigram_multiset_counts_example = build_trigram_multiset_counts (codes "ababa") (codes "aba")
