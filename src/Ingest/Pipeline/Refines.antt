-- ===== src/Ingest/Pipeline/Refines.antt =====
-- `ingest_content` of ingest/pipeline.rs against the map from paths to what is stored under them.
use wend_rag.Base.{
  ℕ, List, Option, none, some, length, map, ◌≡◌, ◌≢◌, ◌⊎◌, inl, inr, refl, sym, ap, ◌∙◌, subst,
  Bool-cases,
}
use wend_rag.Base.Action.{Ends, Ends-call, Ends-map, map_err, resume, lift, ◌>>=◌}
use wend_rag.Base.Outcome.{Outcome, done, failed, stuck}
use wend_rag.Base.Text.{Text, text_eq}
use wend_rag.Base.Text.Laws.{text_eq_iff}
use wend_rag.Ingest.Chunker.{RawChunk}
use wend_rag.Ingest.Types.{
  External, IngestError, database, chunking, embedding, unchanged, IngestResult,
  ContentIngestRequest, CommunityConfig, IngestOptions, Services,
}
use wend_rag.Ingest.Pipeline.{
  sha256_hex, titled_text, chunk_inserts, chunks_for, document_graph, store_document,
  ingest_changed, ingest_unless_current, ingest_content,
}
use wend_rag.Ingest.Pipeline.Stored.{
  Same-Same, Holds, Same-Holds, Partly, Same-Partly, IsReport, store_document-Ends,
}
use wend_rag.Entity.Document.{DocumentEntityGraph}
use wend_rag.Store.Backend.{
  ChunkInsert, Document, StorageBackend, Entry, Index, Matches, Same, IsBackend,
}

-- The services that a request reaches return, with a result or an error.
pub record Returns (w : External) {S : Type 0}
    (db : StorageBackend S w.Database w.f32.F w.Community) (x : Services w) (o : IngestOptions w)
    (r : ContentIngestRequest) : Type 0 where
  pub chunks_return : chunks_for w db x o r ≢ stuck
  pub embed_returns : (texts : List Text) → x.embed texts ≢ stuck
  pub graph_returns : (cs : List RawChunk) → document_graph w db x o r cs ≢ stuck
  pub analysis_returns :
      (c : CommunityConfig) (g : DocumentEntityGraph w.f32.F) → x.analyze_graph c g ≢ stuck

module _ (w : External) {S : Type 0} (db : StorageBackend S w.Database w.f32.F w.Community)
    (x : Services w) (o : IngestOptions w) (r : ContentIngestRequest) where
  -- What the request is to be stored as.
  abbrev pub AreInserts : List (ChunkInsert w.f32.F) → Type 0
  AreInserts inserts =
      (cs : List RawChunk) × (vs : List (List w.f32.F)) × (chunks_for w db x o r ≡ done cs)
      × (x.embed (map titled_text cs) ≡ done vs)
      × (inserts ≡ chunk_inserts cs vs)

  abbrev pub IsCurrent : Option (Entry w.f32.F) → Type 0
  IsCurrent none = ⊥
  IsCurrent (some e) = e.content_hash ≡ sha256_hex x.sha256 r.text

  -- The result where the text is stored already.
  abbrev pub IsSkipped : Option (Entry w.f32.F) → IngestResult → Type 0
  IsSkipped none res = ⊥
  IsSkipped (some e) res =
      res
      ≡ record { document_id = e.id; file_path = r.file_path; chunk_count = 0; status = unchanged }

  module _ (Valid : S → Type 0) (index : S → Index w.f32.F) (law : IsBackend db Valid index)
      (returns : Returns w db x o r) where
    abbrev pub Ingested : S → IngestResult → S → Type 0
    Ingested s res t =
        Valid t
        × ((IsCurrent (index s r.file_path)
              × IsSkipped (index s r.file_path) res
              × Same (index s) (index t))
            ⊎ ((IsCurrent (index s r.file_path) → ⊥)
                × ((inserts : List (ChunkInsert w.f32.F)) × AreInserts inserts
                    × ((id : ℕ) × Holds w x r inserts id (index s) (index t)
                        × IsReport r id (length inserts) res))))

    abbrev pub Failed : S → IngestError w → S → Type 0
    Failed s e t =
        Valid t
        × (Same (index s) (index t)
            ⊎ ((IsCurrent (index s r.file_path) → ⊥)
                × ((inserts : List (ChunkInsert w.f32.F)) × AreInserts inserts
                    × Partly w x r inserts (index s) (index t))))

    ingest_changed-Ends :
        (s : S)
        → Valid s
        → (IsCurrent (index s r.file_path) → ⊥)
        → Ends (Ingested s) (Failed s) (ingest_changed w db x o r s)
    unfolding ingest_changed
    ingest_changed-Ends s v old = chunked (chunks_for w db x o r) refl returns.chunks_return
      where
        stored :
            (cs : List RawChunk) (vs : List (List w.f32.F))
            (g : Outcome (IngestError w) (Option (DocumentEntityGraph w.f32.F)))
            → chunks_for w db x o r ≡ done cs
            → x.embed (map titled_text cs) ≡ done vs
            → g ≢ stuck
            → Ends
                (Ingested s)
                (Failed s)
                (resume (store_document w db x o r (chunk_inserts cs vs)) (g, s))
        stored cs vs (failed e) a b n = (v, inl (λ p. refl))
        stored cs vs stuck a b n = absurd (n refl)
        stored cs vs (done g) a b n =
            let inserts = chunk_inserts cs vs in
            Ends-map (λ res t h. (h.0, inr (old, (inserts, (cs, vs, a, b, refl), h.1))))
              (λ e t h. (h.0, inr (old, (inserts, (cs, vs, a, b, refl), h.1))))
              (store_document w db x o r inserts g s)
              (store_document-Ends w db x o Valid index law returns.analysis_returns r inserts g s
                v)

        embedded :
            (cs : List RawChunk) (vs : Outcome w.Embedding (List (List w.f32.F)))
            → chunks_for w db x o r ≡ done cs
            → x.embed (map titled_text cs) ≡ vs
            → vs ≢ stuck
            → Ends (Ingested s) (Failed s) (
                resume
                  (λ embeddings.
                    lift (document_graph w db x o r cs)
                    >>= store_document w db x o r (chunk_inserts cs embeddings))
                  (map_err embedding vs, s))
        embedded cs (failed e) a b n = (v, inl (λ p. refl))
        embedded cs stuck a b n = absurd (n refl)
        embedded cs (done vs) a b n =
            stored cs vs (document_graph w db x o r cs) a b (returns.graph_returns cs)

        chunked :
            (cs : Outcome w.Embedding (List RawChunk))
            → chunks_for w db x o r ≡ cs
            → cs ≢ stuck
            → Ends (Ingested s) (Failed s) (
                resume
                  (λ raw_chunks.
                    lift (map_err embedding (x.embed (map titled_text raw_chunks)))
                    >>= λ embeddings.
                        lift (document_graph w db x o r raw_chunks)
                        >>= store_document w db x o r (chunk_inserts raw_chunks embeddings))
                  (map_err chunking cs, s))
        chunked (failed e) a n = (v, inl (λ p. refl))
        chunked stuck a n = absurd (n refl)
        chunked (done cs) a n =
            embedded cs (x.embed (map titled_text cs)) a refl
              (returns.embed_returns (map titled_text cs))

    -- A lookup comes before.
    Same-Ingested :
        (s t : S) (res : IngestResult) (v : S)
        → Same (index s) (index t)
        → Ingested t res v
        → Ingested s res v
    Same-Ingested s t res v h (ok, inl k) =
        let at = h r.file_path in
        (
          ok,
          inl (
            subst IsCurrent at k.0,
            subst (λ e. IsSkipped e res) at k.1,
            Same-Same (index s) (index t) (index v) h k.2,
          ),
        )
    Same-Ingested s t res v h (ok, inr (old, (inserts, are, (id, holds, report)))) =
        let at = h r.file_path in
        (
          ok,
          inr (
            (λ c. old (subst IsCurrent (sym at) c)),
            (
              inserts,
              are,
              (id, Same-Holds w x r inserts id (index s) (index t) (index v) h holds, report),
            ),
          ),
        )

    Same-Failed :
        (s t : S) (e : IngestError w) (v : S)
        → Same (index s) (index t)
        → Failed t e v
        → Failed s e v
    Same-Failed s t e v h (ok, inl k) = (ok, inl (Same-Same (index s) (index t) (index v) h k))
    Same-Failed s t e v h (ok, inr (old, (inserts, are, part))) = (
      ok,
      inr (
        (λ c. old (subst IsCurrent (sym (h r.file_path)) c)),
        (inserts, are, Same-Partly w x r inserts (index s) (index t) (index v) h part),
      ),
    )

    unless_current-Ends :
        (s : S) (e : Option (Entry w.f32.F)) (d : Option Document)
        → Valid s
        → index s r.file_path ≡ e
        → Matches e d
        → Ends (Ingested s) (Failed s) (ingest_unless_current w db x o r d s)
    unfolding ingest_unless_current
    unless_current-Ends s none (some d) v at m = absurd m
    unless_current-Ends s (some e) none v at m = absurd m
    unless_current-Ends s none none v at m = ingest_changed-Ends s v (λ c. subst IsCurrent at c)
    unless_current-Ends s (some e) (some d) v at m =
        let hash = sha256_hex x.sha256 r.text in
        elim (Bool-cases (text_eq d.content_hash hash)) [
          | inl q ↦
              let current : IsCurrent (some e) = sym m.1 ∙ (text_eq_iff d.content_hash hash).0 q in
              let report : ℕ → IngestResult = λ i. record {
                document_id = i;
                file_path = r.file_path;
                chunk_count = 0;
                status = unchanged;
              } in
              let skipped : IsSkipped (some e) (report d.id) = ap report m.0 in
              rw q (
                v,
                inl (
                  subst IsCurrent (sym at) current,
                  subst (λ f. IsSkipped f (report d.id)) (sym at) skipped,
                  λ p. refl,
                ),
              )
          | inr q ↦
              let old : IsCurrent (index s r.file_path) → ⊥ = λ c.
                let same : d.content_hash ≡ hash = m.1 ∙ subst IsCurrent at c in
                let yes = (text_eq_iff d.content_hash hash).1 same in cc in
              rw q (ingest_changed-Ends s v old)
        ]

    -- On a backend that keeps its contract, with services that return, an ingest returns. Where the
    -- stored hash is the text's it reports the document as unchanged and changes no entry. Else, on
    -- success, the path holds the text's hash and exactly the chunks that the chunker and the embedder
    -- give, under the document's old identifier if there was one, the report says so, and no other path
    -- changes. A failure leaves the entries as they were, or it leaves the new hash with the old chunks
    -- or with the new ones.
    pub ingest_content-Refines :
        (s : S) → Valid s → Ends (Ingested s) (Failed s) (ingest_content w db x o r s)
    unfolding ingest_content
    ingest_content-Refines s v =
        Ends-call (Ingested s) (Failed s) database (ingest_unless_current w db x o r)
          (λ d t h.
            Ends-map (λ res v'. Same-Ingested s t res v' h.1) (λ e v'. Same-Failed s t e v' h.1)
              (ingest_unless_current w db x o r d t)
              (unless_current-Ends t (index t r.file_path) d h.0 refl
                (subst (λ e. Matches e d) (sym (h.1 r.file_path)) h.2)))
          (λ e t h. (h.0, inl h.1)) (db.get_document_by_path r.file_path s)
          (law.looks_up r.file_path s v)
