-- ===== src/Ingest/Chunker/FixedSize.antt =====
-- With the fixed strategy the chunking returns, and no chunk is longer than the limit of its type.
use wend_rag.Base.{
  ℕ, ◌≤◌, List, [], ◌∷◌, ◌++◌, Option, not, if◌then◌else◌, leb, leb→le, length, is_empty,
  length-take, All, All-append, ◌≡◌, refl, arith, Bool-cases, inl, inr,
}
use native.Mathlib.Nat.{le_trans}
use wend_rag.Base.Float.{Float}
use wend_rag.Base.Outcome.{done}
use wend_rag.Base.Text.{Text, trim, byte_len}
use wend_rag.Base.Text.Laws.{length-le-byte_len}
use wend_rag.Base.Unicode.{Unicode}
use wend_rag.Ingest.Window.Coverage.{split_with_overlap_covers, IsWindow}
use wend_rag.Ingest.Sentences.{filter_garbage_from_text}
use wend_rag.Ingest.Chunker.{
  RawChunk, Chunking, fixed, text_window_overlap, push_chunks, next_index, index_after,
  section_contents, split_oversized, split_by, section_loop, with_fallback, chunk_document,
  max_size_of, sections_of,
}

-- The content has at most `n` characters.
abbrev pub IsShort : ℕ → Text → Type 0
IsShort n t = length t ≤ n

abbrev pub HasShortContent : ℕ → RawChunk → Type 0
HasShortContent n chunk = IsShort n chunk.content

All-IsShort : (n : ℕ) (ts : List Text) → All (IsWindow n) ts → All (IsShort n) ts
All-IsShort n [] h = tt
All-IsShort n (t ∷ ts) h = (h.0.0, All-IsShort n ts h.1)

All-push_chunks :
    (n : ℕ) (title : Option Text) (idx : ℕ) (contents : List Text)
    → All (IsShort n) contents
    → All (HasShortContent n) (push_chunks title idx contents)
unfolding push_chunks
All-push_chunks n title idx [] h = tt
All-push_chunks n title idx (c ∷ cs) h = (h.0, All-push_chunks n title (next_index idx) cs h.1)

All-with_fallback :
    (text : Text) (n : ℕ) (chunks : List RawChunk)
    → All (HasShortContent n) chunks
    → All (HasShortContent n) (with_fallback text n chunks)
unfolding with_fallback
All-with_fallback text n [] h = elim (Bool-cases (not (is_empty (trim text)))) [
  | inl e ↦ rw e (omega (arith, length-take n text), tt)
  | inr e ↦ rw e tt
]
All-with_fallback text n (c ∷ cs) h = h

max_size_of-pos : (file_type : Text) → 1 ≤ max_size_of file_type
max_size_of-pos file_type = ground arith

module _ (u : Unicode) (f32 f64 : Float) {E : Type 0} (c : Chunking u f32 f64 E)
    (is_fixed : c.strategy ≡ fixed) where
  split_oversized-IsShort :
      (text : Text) (n : ℕ)
      → 1 ≤ n
      → (contents : List Text) × (split_oversized u f32 f64 c text n ≡ done contents)
        × All (IsShort n) contents
  unfolding split_oversized split_by
  split_oversized-IsShort text n h =
      let (chunks, e, sizes, _) = split_with_overlap_covers text n text_window_overlap h in
      (chunks, rw (is_fixed, e), All-IsShort n chunks sizes)

  section_contents-IsShort :
      (n : ℕ) (body : Text)
      → 1 ≤ n
      → (contents : List Text) × (section_contents u f32 f64 c n body ≡ done contents)
        × All (IsShort n) contents
  unfolding section_contents
  section_contents-IsShort n body h =
      let clean = if c.filter_garbage then filter_garbage_from_text u (trim body) else trim body in
      let (windows, e, sizes) = split_oversized-IsShort clean n h in
      elim (Bool-cases (is_empty (trim body))) [
        | inl blank ↦ ([], rw blank, tt)
        | inr full ↦ elim (Bool-cases (is_empty clean)) [
          | inl blank ↦ ([], rw (full, blank), tt)
          | inr left ↦ elim (Bool-cases (leb (byte_len clean) n)) [
            | inl small ↦ (
              clean ∷ [],
              rw (full, left, small),
              (le_trans (length-le-byte_len clean) (leb→le (byte_len clean) n small), tt),
            )
            | inr big ↦ (windows, rw (full, left, big, e), sizes)
          ]
        ]
      ]

  section_loop-short :
      (n : ℕ) (sections : List (Option Text × Text)) (idx : ℕ)
      → 1 ≤ n
      → (chunks : List RawChunk) × (section_loop u f32 f64 c n sections idx ≡ done chunks)
        × All (HasShortContent n) chunks
  unfolding section_loop
  section_loop-short n [] idx h = ([], refl, tt)
  section_loop-short n ((title, body) ∷ sections) idx h =
      let (contents, ce, sizes) = section_contents-IsShort n body h in
      let (rest, re, more) = section_loop-short n sections (index_after idx contents) h in
      (
        push_chunks title idx contents ++ rest,
        rw (ce, re),
        All-append (HasShortContent n) (push_chunks title idx contents) rest
            (All-push_chunks n title idx contents sizes) more,
      )

  -- With the fixed strategy every document is chunked without an error, and no chunk has more
  -- characters than the limit of the file type: 4000 for Markdown and web pages, 1000 for text.
  pub chunk_document-HasShortContent :
      (text file_type : Text)
      → (chunks : List RawChunk) × (chunk_document u f32 f64 c text file_type ≡ done chunks)
        × All (HasShortContent (max_size_of file_type)) chunks
  unfolding chunk_document
  chunk_document-HasShortContent text file_type =
      let n = max_size_of file_type in
      let (chunks, e, sizes) =
        section_loop-short n (sections_of u f32 f64 c text file_type) 0
          (max_size_of-pos file_type) in
      (with_fallback text n chunks, rw e, All-with_fallback text n chunks sizes)
