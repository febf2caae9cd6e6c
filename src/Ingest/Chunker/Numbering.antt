-- ===== src/Ingest/Chunker/Numbering.antt =====
-- The chunks of a document are numbered from 0 on, in order.
use wend_rag.Base.{
  ℕ, ◌+◌, ◌%◌, ◌^◌, List, [], ◌∷◌, ◌++◌, Option, false, is_empty, ◌≡◌, ◌≢◌, refl, arith,
}
use wend_rag.Base.Float.{Float}
use wend_rag.Base.Outcome.{Outcome, done, >>=-eq-done}
use mathlib.Core.Path.{subst}
use wend_rag.Base.Text.{Text, trim}
use wend_rag.Base.Unicode.{Unicode}
use wend_rag.Ingest.Chunker.{
  RawChunk, Chunking, push_chunks, next_index, index_after, section_contents, section_loop,
  with_fallback, chunk_document, max_size_of, sections_of,
}

-- The chunks carry the numbers from `n` on, as `i32`s.
abbrev pub AreNumbered : ℕ → List RawChunk → Type 0
AreNumbered n [] = Unit
AreNumbered n (chunk ∷ chunks) = (chunk.chunk_index ≡ n % 2 ^ 32) × AreNumbered (n + 1) chunks

AreNumbered-append :
    (title : Option Text) (contents : List Text) (n idx : ℕ) (chunks : List RawChunk)
    → idx ≡ n % 2 ^ 32
    → ((m : ℕ) → index_after idx contents ≡ m % 2 ^ 32 → AreNumbered m chunks)
    → AreNumbered n (push_chunks title idx contents ++ chunks)
unfolding push_chunks index_after
AreNumbered-append title [] n idx chunks e h = h n e
AreNumbered-append title (c ∷ contents) n idx chunks e h =
    (e, AreNumbered-append title contents (n + 1) (next_index idx) chunks (omega arith) h)

done-injective :
    {E : Type 0} {A : Type 0} {a b : A} → ◌≡◌ {A = Outcome E A} (done a) (done b) → a ≡ b
done-injective h = cc

with_fallback-AreNumbered :
    (text : Text) (max_size : ℕ) (chunks : List RawChunk)
    → AreNumbered 0 chunks
    → AreNumbered 0 (with_fallback text max_size chunks)
unfolding with_fallback
with_fallback-AreNumbered text max_size [] h = ground arith
with_fallback-AreNumbered text max_size (c ∷ cs) h = h

full : (t : Text) → t ≢ [] → is_empty t ≡ false
full [] h = absurd (h refl)
full (c ∷ t) h = refl

with_fallback-ne_nil :
    (text : Text) (max_size : ℕ) (chunks : List RawChunk)
    → trim text ≢ []
    → with_fallback text max_size chunks ≢ []
unfolding with_fallback
with_fallback-ne_nil text max_size [] h e = ground (arith, full (trim text) h)
with_fallback-ne_nil text max_size (c ∷ cs) h e = cc

module _ (u : Unicode) (f32 f64 : Float) {E : Type 0} where
  section_loop-AreNumbered :
      (c : Chunking u f32 f64 E) (max_size : ℕ) (sections : List (Option Text × Text)) (n idx : ℕ)
      {chunks : List RawChunk}
      → idx ≡ n % 2 ^ 32
      → section_loop u f32 f64 c max_size sections idx ≡ done chunks
      → AreNumbered n chunks
  unfolding section_loop
  section_loop-AreNumbered c max_size [] n idx e h =
      let same : [] ≡ _ = done-injective h in subst (AreNumbered n) same tt
  section_loop-AreNumbered c max_size ((title, body) ∷ sections) n idx e h =
      let (contents, _, h') = >>=-eq-done (section_contents u f32 f64 c max_size body) _ h in
      let (rest, re, h'') =
        >>=-eq-done (section_loop u f32 f64 c max_size sections (index_after idx contents)) _ h' in
      subst (AreNumbered n) (done-injective h'') (
        AreNumbered-append title contents n idx rest e
          (λ m em. section_loop-AreNumbered c max_size sections m (index_after idx contents) em re))

  -- Whatever the strategy, if the chunking returns: the chunks are numbered 0, 1, 2, … in their order
  -- (as `i32`s), and a text that is not blank has a chunk.
  pub chunk_document-AreNumbered :
      (c : Chunking u f32 f64 E) (text file_type : Text) {chunks : List RawChunk}
      → chunk_document u f32 f64 c text file_type ≡ done chunks
      → AreNumbered 0 chunks × (trim text ≢ [] → chunks ≢ [])
  unfolding chunk_document
  chunk_document-AreNumbered c text file_type h =
      let (raw, re, e) =
        >>=-eq-done
          (section_loop u f32 f64 c (max_size_of file_type) (sections_of u f32 f64 c text file_type)
            0)
          _ h in
      let numbered =
        section_loop-AreNumbered c (max_size_of file_type) (sections_of u f32 f64 c text file_type)
          0 0 refl re in
      subst (λ cs. AreNumbered 0 cs × (trim text ≢ [] → cs ≢ [])) (done-injective e)
        (
          with_fallback-AreNumbered text (max_size_of file_type) raw numbered,
          with_fallback-ne_nil text (max_size_of file_type) raw,
        )
