-- ===== src/Ingest/Chunker.antt =====
-- ingest/chunker.rs: `chunk_document` and `split_oversized`.
pub mod Numbering
pub mod FixedSize
use wend_rag.Base.{
  ℕ, ◌+◌, ◌%◌, ◌^◌, List, [], ◌∷◌, ◌++◌, Option, none, some, Bool, not, ◌&&◌, ◌||◌, leb,
  if◌then◌else◌, length, is_empty, take,
}
use wend_rag.Base.Float.{Float}
use wend_rag.Base.Outcome.{Outcome, done, or_stuck, ◌>>=◌}
use wend_rag.Base.Text.{Text, codes, byte_len, trim, text_eq}
use wend_rag.Base.Unicode.{Unicode}
use wend_rag.Ingest.Window.{split_with_overlap}
use wend_rag.Ingest.Sentences.{filter_garbage_from_text}
use wend_rag.Ingest.Semantic.Split.{semantic_split}
use wend_rag.Ingest.Sections.{
  Event, text_window_size, extract_text_sections, extract_markdown_sections,
}

abbrev pub max_chunk_chars : ℕ
max_chunk_chars = 4000

abbrev pub text_window_overlap : ℕ
text_window_overlap = 200

-- `ChunkingStrategy` of config.rs
pub data ChunkingStrategy : Type 0 where
  fixed semantic : ChunkingStrategy

-- `chunk_index` is an `i32`, here its bit pattern.
pub record RawChunk : Type 0 where
  pub content : Text
  pub chunk_index : ℕ
  pub section_title : Option Text

-- `idx += 1`
abbrev pub next_index : ℕ → ℕ
next_index idx = (idx + 1) % 2 ^ 32

-- `chunks.push(…); idx += 1` for each content
unfoldable pub push_chunks : Option Text → ℕ → List Text → List RawChunk
push_chunks title idx [] = []
push_chunks title idx (content ∷ contents) =
    record { content = content; chunk_index = idx; section_title = title }
    ∷ push_chunks title (next_index idx) contents

unfoldable pub index_after : ℕ → List Text → ℕ
index_after idx [] = idx
index_after idx (content ∷ contents) = index_after (next_index idx) contents

-- `matches!(file_type, "markdown" | "url")`
unfoldable pub is_markdown : Text → Bool
unfolding text_eq
is_markdown file_type = text_eq file_type (codes "markdown") || text_eq file_type (codes "url")

abbrev pub max_size_of : Text → ℕ
max_size_of file_type = if is_markdown file_type then max_chunk_chars else text_window_size

-- The chunk of a text that is not blank and gave none.
unfoldable pub with_fallback : Text → ℕ → List RawChunk → List RawChunk
with_fallback text max_size chunks =
    if is_empty chunks && not (is_empty (trim text))
    then record { content = take max_size text; chunk_index = 0; section_title = none } ∷ []
    else chunks

-- What the functions are called with, besides the document. The Markdown parser and the embedder are
-- not part of the program.
pub record Chunking (u : Unicode) (f32 f64 : Float) (E : Type 0) : Type 0 where
  pub parse_markdown : Text → List Event
  pub strategy : ChunkingStrategy
  pub embedder : Option (List Text → Outcome E (List (List f32.F)))
  pub semantic_threshold : f64.F
  pub max_sentences : ℕ
  pub filter_garbage : Bool

module _ (u : Unicode) (f32 f64 : Float) {E : Type 0} where
  unfoldable pub split_by :
      Chunking u f32 f64 E
      → ChunkingStrategy
      → Option (List Text → Outcome E (List (List f32.F)))
      → Text
      → ℕ
      → Outcome E (List Text)
  split_by c semantic (some embed) text max_size =
      semantic_split u f32 f64 embed text max_size c.semantic_threshold c.max_sentences
        c.filter_garbage
  split_by c semantic none text max_size =
      or_stuck (split_with_overlap text max_size text_window_overlap)
  split_by c fixed e text max_size = or_stuck (split_with_overlap text max_size text_window_overlap)

  unfoldable pub split_oversized : Chunking u f32 f64 E → Text → ℕ → Outcome E (List Text)
  split_oversized c text max_size = split_by c c.strategy c.embedder text max_size

  -- The contents of the chunks that one section gives.
  unfoldable pub section_contents : Chunking u f32 f64 E → ℕ → Text → Outcome E (List Text)
  section_contents c max_size body =
      let trimmed = trim body in
      let clean = if c.filter_garbage then filter_garbage_from_text u trimmed else trimmed in
      if is_empty trimmed
      then done []
      else if is_empty clean
      then done []
      else if leb (byte_len clean) max_size
      then done (clean ∷ [])
      else split_oversized c clean max_size

  -- The `for` loop over the sections, from the index `idx` on.
  unfoldable pub section_loop :
      Chunking u f32 f64 E → ℕ → List (Option Text × Text) → ℕ → Outcome E (List RawChunk)
  section_loop c max_size [] idx = done []
  section_loop c max_size ((title, body) ∷ sections) idx = do
    contents ← section_contents c max_size body
    chunks ← section_loop c max_size sections (index_after idx contents)
    done (push_chunks title idx contents ++ chunks)

  unfoldable pub sections_of : Chunking u f32 f64 E → Text → Text → List (Option Text × Text)
  sections_of c text file_type =
      if is_markdown file_type
      then extract_markdown_sections (c.parse_markdown text)
      else extract_text_sections text

  unfoldable pub chunk_document : Chunking u f32 f64 E → Text → Text → Outcome E (List RawChunk)
  chunk_document c text file_type = do
    chunks ← section_loop c (max_size_of file_type) (sections_of c text file_type) 0
    done (with_fallback text (max_size_of file_type) chunks)
