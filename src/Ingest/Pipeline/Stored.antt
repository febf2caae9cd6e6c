-- ===== src/Ingest/Pipeline/Stored.antt =====
-- What the calls of ingest/pipeline.rs that write leave in a backend that keeps its contract.
use wend_rag.Base.{
  ℕ, List, Option, none, some, Bool, leb, length, ◌≡◌, ◌≢◌, ◌⊎◌, inl, inr, refl, ◌∙◌, subst,
  Bool-cases, if◌then◌else◌,
}
use wend_rag.Base.Action.{
  Ends, Ends-call, Ends-resume, Ends-best_effort, Ends-map, resume, on_error, ◌>>=◌,
}
use wend_rag.Base.Outcome.{Outcome, done, failed, stuck}
use wend_rag.Base.Text.{Text}
use wend_rag.Ingest.Types.{
  External, IngestError, database, created, updated, IngestResult, ContentIngestRequest,
  CommunityConfig, IngestOptions, Services,
}
use wend_rag.Ingest.Pipeline.{
  min_entities_for_communities, sha256_hex, store_communities, community_config_of,
  detect_communities, store_graph, upsert_of, store_document, was_update, reported,
}
use wend_rag.Entity.Document.{DocumentEntityGraph}
use wend_rag.Store.Backend.{
  ChunkInsert, StorageBackend, Index, KeepsId, chunks_of, Same, SameBut, IsBackend,
}

module _ {F : Type 0} where
  pub Same-Same : (a b c : Index F) → Same a b → Same b c → Same a c
  Same-Same a b c h k p = k p ∙ h p

  pub SameBut-Same :
      (path : Text) (a b c : Index F) → SameBut path a b → Same b c → SameBut path a c
  SameBut-Same path a b c h k p n = k p ∙ h p n

-- What an ingest of `r` makes of an index, and what a failing one may make of it.
module _ (w : External) (x : Services w) (r : ContentIngestRequest) where
  abbrev pub Entries : Type 0
  Entries = Index w.f32.F

  -- The document has the hash of the new text and the given chunks, and nothing else changes.
  abbrev pub Holds : List (ChunkInsert w.f32.F) → ℕ → Entries → Entries → Type 0
  Holds chunks id before after =
      SameBut r.file_path before after
      × KeepsId (before r.file_path) id
      × (after r.file_path
          ≡ some record { id = id; content_hash = sha256_hex x.sha256 r.text; chunks = chunks })

  pub Same-Holds :
      (chunks : List (ChunkInsert w.f32.F)) (id : ℕ) (a b c : Entries)
      → Same a b
      → Holds chunks id b c
      → Holds chunks id a c
  Same-Holds chunks id a b c h k =
      ((λ p n. k.0 p n ∙ h p), subst (λ t. KeepsId t id) (h r.file_path) k.1, k.2)

  pub Holds-Same :
      (chunks : List (ChunkInsert w.f32.F)) (id : ℕ) (a b c : Entries)
      → Holds chunks id a b
      → Same b c
      → Holds chunks id a c
  Holds-Same chunks id a b c h k = (SameBut-Same r.file_path a b c h.0 k, h.1, k r.file_path ∙ h.2)

  -- How far the writes of a failing ingest came: nothing, the hash alone, or the chunks too.
  abbrev pub Partly : List (ChunkInsert w.f32.F) → Entries → Entries → Type 0
  Partly inserts before after =
      Same before after
      ⊎ (((id : ℕ) × Holds (chunks_of (before r.file_path)) id before after)
          ⊎ ((id : ℕ) × Holds inserts id before after))

  pub Same-Partly :
      (inserts : List (ChunkInsert w.f32.F)) (a b c : Entries)
      → Same a b
      → Partly inserts b c
      → Partly inserts a c
  Same-Partly inserts a b c h (inl k) = inl (Same-Same a b c h k)
  Same-Partly inserts a b c h (inr (inr (id, k))) = inr (inr (id, Same-Holds inserts id a b c h k))
  Same-Partly inserts a b c h (inr (inl (id, k))) =
      let old = Same-Holds (chunks_of (b r.file_path)) id a b c h k in
      inr (inl (id, subst (λ e. Holds (chunks_of e) id a c) (h r.file_path) old))

-- What a stored document reports.
abbrev pub IsReport : ContentIngestRequest → ℕ → ℕ → IngestResult → Type 0
IsReport r id n res =
    (b : Bool) × (res ≡ record {
      document_id = id;
      file_path = r.file_path;
      chunk_count = n;
      status = if b then updated else created;
    })

module _ (w : External) {S : Type 0} (db : StorageBackend S w.Database w.f32.F w.Community)
    (x : Services w) (o : IngestOptions w) (Valid : S → Type 0) (index : S → Index w.f32.F)
    (law : IsBackend db Valid index)
    (analysis_returns : (c : CommunityConfig) (g : DocumentEntityGraph w.f32.F)
      → x.analyze_graph c g ≢ stuck) where
  -- A state that holds the same documents and chunks.
  abbrev Kept : S → S → Type 0
  Kept s t = Valid t × Same (index s) (index t)

  Kept-Kept : (s t v : S) → Kept s t → Kept t v → Kept s v
  Kept-Kept s t v h k = (k.0, Same-Same (index s) (index t) (index v) h.1 k.1)

  store_communities-Kept :
      (r : Outcome w.Analysis (List w.Community)) (s : S)
      → r ≢ stuck
      → Valid s
      → Ends (λ u t. Kept s t) (λ e t. Kept s t) (store_communities w db x o r s)
  unfolding store_communities
  store_communities-Kept (failed e) s n v = (v, λ p. refl)
  store_communities-Kept stuck s n v = absurd (n refl)
  store_communities-Kept (done communities) s n v =
      Ends-resume (λ u t. Kept s t) (λ e t. Kept s t) _
        (λ u t k.
          Ends-best_effort (λ t'. Kept s t') (λ e t'. Kept s t') (λ a t' k'. Kept-Kept s t t' k k')
            (λ e t' k'. Kept-Kept s t t' k k') (db.save_communities o.project communities t)
            (law.saves_communities o.project communities t k.0))
        (λ e t k. k) _
        (Ends-best_effort (λ t. Kept s t) (λ e t. Kept s t) (λ a t k. k) (λ e t k. k)
          (db.delete_project_communities o.project s) (law.clears_communities o.project s v))

  detect_communities-Kept :
      (g : DocumentEntityGraph w.f32.F) (s : S)
      → Valid s
      → Ends (λ u t. Kept s t) (λ e t. Kept s t) (detect_communities w db x o g s)
  unfolding detect_communities
  detect_communities-Kept g s v =
      elim (Bool-cases (leb min_entities_for_communities (length g.entities))) [
        | inl e ↦ rw e (
            store_communities-Kept (x.analyze_graph (community_config_of o.community_config) g) s
              (analysis_returns (community_config_of o.community_config) g) v)
        | inr e ↦ rw e (v, λ p. refl)
      ]

  store_graph-Kept :
      (id : ℕ) (g : Option (DocumentEntityGraph w.f32.F)) (s : S)
      → Valid s
      → Ends (λ u t. Kept s t) (λ e t. Kept s t) (store_graph w db x o id g s)
  unfolding store_graph
  store_graph-Kept id none s v = (v, λ p. refl)
  store_graph-Kept id (some g) s v =
      Ends-call (λ u t. Kept s t) (λ e t. Kept s t) database (detect_communities w db x o)
        (λ left t k.
          Ends-map (λ a t' k'. Kept-Kept s t t' k k') (λ e t' k'. Kept-Kept s t t' k k')
            (detect_communities w db x o left t) (detect_communities-Kept left t k.0))
        (λ e t k. k) (db.replace_document_entity_graph id g s) (law.stores_graph id g s v)

  module _ (r : ContentIngestRequest) where
    -- From a state in which the document is stored on.
    abbrev pub Reported : List (ChunkInsert w.f32.F) → S → IngestResult → S → Type 0
    Reported inserts s res t =
        Valid t
        × ((id : ℕ) × Holds w x r inserts id (index s) (index t)
            × IsReport r id (length inserts) res)

    abbrev pub Stopped : List (ChunkInsert w.f32.F) → S → IngestError w → S → Type 0
    Stopped inserts s e t = Valid t × Partly w x r inserts (index s) (index t)

    upsert-Holds :
        (s : S)
        → Valid s
        → Ends
            (λ id t. Valid t × Holds w x r (chunks_of (index s r.file_path)) id (index s) (index t))
            (λ e t. Kept s t)
            (db.upsert_document (upsert_of w db x o r) s)
    unfolding upsert_of
    upsert-Holds s v =
        Ends-map (λ id t h. (h.0, (h.1, h.2, h.3))) (λ e t h. h)
          (db.upsert_document (upsert_of w db x o r) s) (law.upserts (upsert_of w db x o r) s v)

    -- The lookup at the end.
    report-Ends :
        (inserts : List (ChunkInsert w.f32.F)) (id : ℕ) (s t : S)
        → Valid t
        → Holds w x r inserts id (index s) (index t)
        → Ends (Reported inserts s) (Stopped inserts s) (
            resume
              (reported w db x o r id inserts)
              (on_error database (db.get_document_by_path r.file_path) t))
    unfolding reported
    report-Ends inserts id s t v h =
        Ends-call (Reported inserts s) (Stopped inserts s) database (reported w db x o r id inserts)
          (λ d t' k. (
            k.0,
            (
              id,
              Holds-Same w x r inserts id (index s) (index t) (index t') h k.1,
              (was_update d, refl),
            ),
          ))
          (λ e t' k.
            (k.0, inr (inr (id, Holds-Same w x r inserts id (index s) (index t) (index t') h k.1))))
          (db.get_document_by_path r.file_path t) (law.looks_up r.file_path t v)

    graph-Ends :
        (inserts : List (ChunkInsert w.f32.F)) (graph : Option (DocumentEntityGraph w.f32.F))
        (id : ℕ) (s t : S)
        → Valid t
        → Holds w x r inserts id (index s) (index t)
        → Ends (Reported inserts s) (Stopped inserts s) (
            resume
              (λ stored.
                on_error database (db.get_document_by_path r.file_path)
                >>= reported w db x o r id inserts)
              (store_graph w db x o id graph t))
    graph-Ends inserts graph id s t v h =
        Ends-resume (Reported inserts s) (Stopped inserts s) _
          (λ u t' k.
            report-Ends inserts id s t' k.0
              (Holds-Same w x r inserts id (index s) (index t) (index t') h k.1))
          (λ e t' k.
            (k.0, inr (inr (id, Holds-Same w x r inserts id (index s) (index t) (index t') h k.1))))
          (store_graph w db x o id graph t) (store_graph-Kept id graph t v)

    chunks-Ends :
        (inserts : List (ChunkInsert w.f32.F)) (graph : Option (DocumentEntityGraph w.f32.F))
        (id : ℕ) (s t : S)
        → Valid t
        → Holds w x r (chunks_of (index s r.file_path)) id (index s) (index t)
        → Ends (Reported inserts s) (Stopped inserts s) (
            resume
              (λ replaced. store_graph w db x o id graph >>= λ stored.
                on_error database (db.get_document_by_path r.file_path)
                >>= reported w db x o r id inserts)
              (on_error database (db.replace_document_chunks id inserts) t))
    chunks-Ends inserts graph id s t v h =
        let old = chunks_of (index s r.file_path) in
        Ends-call (Reported inserts s) (Stopped inserts s) database _
          (λ u t' k. graph-Ends inserts graph id s t' k.0 ((λ p n. k.1 p n ∙ h.0 p n), h.1, k.2))
          (λ e t' k.
            (k.0, inr (inl (id, Holds-Same w x r old id (index s) (index t) (index t') h k.1))))
          (db.replace_document_chunks id inserts t) (law.replaces r.file_path _ inserts t v h.2)

    pub store_document-Ends :
        (inserts : List (ChunkInsert w.f32.F)) (graph : Option (DocumentEntityGraph w.f32.F))
        (s : S)
        → Valid s
        → Ends (Reported inserts s) (Stopped inserts s) (store_document w db x o r inserts graph s)
    unfolding store_document
    store_document-Ends inserts graph s v =
        Ends-call (Reported inserts s) (Stopped inserts s) database _
          (λ id t h. chunks-Ends inserts graph id s t h.0 h.1) (λ e t h. (h.0, inl h.1))
          (db.upsert_document (upsert_of w db x o r) s) (upsert-Holds s v)
