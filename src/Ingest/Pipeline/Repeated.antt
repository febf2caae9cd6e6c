-- ===== src/Ingest/Pipeline/Repeated.antt =====
-- `ingest_content` of ingest/pipeline.rs called again for the same request.
use wend_rag.Base.{ℕ, List, Option, none, some, ◌≡◌, ◌⊎◌, inl, inr, refl, sym, ap, ◌∙◌, subst}
use wend_rag.Base.Action.{Ends, Ends-map}
use wend_rag.Ingest.Types.{
  External, IngestError, unchanged, IngestResult, ContentIngestRequest, IngestOptions, Services,
}
use wend_rag.Ingest.Pipeline.{sha256_hex, ingest_content}
use wend_rag.Ingest.Pipeline.Stored.{Holds}
use wend_rag.Ingest.Pipeline.Refines.{
  Returns, IsCurrent, IsSkipped, Ingested, Failed, ingest_content-Refines,
}
use wend_rag.Store.Backend.{ChunkInsert, StorageBackend, Entry, Index, chunks_of, Same, IsBackend}

module _ (w : External) {S : Type 0} (db : StorageBackend S w.Database w.f32.F w.Community)
    (x : Services w) (o : IngestOptions w) (r : ContentIngestRequest) (Valid : S → Type 0)
    (index : S → Index w.f32.F) (law : IsBackend db Valid index)
    (returns : Returns w db x o r) where
  -- An ingest from here reports no change under the identifier and changes nothing, or fails and
  -- changes nothing.
  abbrev pub IsSettled : ℕ → S → Type 0
  IsSettled id s =
      Ends
        (λ res t.
          (res.status ≡ unchanged)
          × (res.chunk_count ≡ 0)
          × (res.document_id ≡ id)
          × Same (index s) (index t))
        (λ e t. Same (index s) (index t)) (ingest_content w db x o r s)

  of_skipped :
      (e : Option (Entry w.f32.F)) (f : Entry w.f32.F) (res : IngestResult)
      → e ≡ some f
      → IsSkipped w db x o r e res
      → (res.status ≡ unchanged) × (res.chunk_count ≡ 0) × (res.document_id ≡ f.id)
  of_skipped none f res h k = absurd k
  of_skipped (some e) f res h k = (
    ap (λ q. q.status) k,
    ap (λ q. q.chunk_count) k,
    ap (λ q. q.document_id) k ∙ subst (SameId e) h refl,
  )
    where
      SameId : Entry w.f32.F → Option (Entry w.f32.F) → Type 0
      SameId e none = ⊥
      SameId e (some f) = e.id ≡ f.id

  stored-IsSettled :
      (s : S) (e : Entry w.f32.F)
      → Valid s
      → index s r.file_path ≡ some e
      → e.content_hash ≡ sha256_hex x.sha256 r.text
      → IsSettled e.id s
  stored-IsSettled s e v at hash =
      let current : IsCurrent w db x o r (index s r.file_path) =
        subst (IsCurrent w db x o r) (sym at) hash in
      Ends-map (kept current) (kept_failing current) (ingest_content w db x o r s)
        (ingest_content-Refines w db x o r Valid index law returns s v)
    where
      kept :
          IsCurrent w db x o r (index s r.file_path)
          → (res : IngestResult) (t : S) → Ingested w db x o r Valid index law returns s res t
          → (res.status ≡ unchanged)
            × (res.chunk_count ≡ 0)
            × (res.document_id ≡ e.id)
            × Same (index s) (index t)
      kept c res t (ok, inl h) =
          let k = of_skipped (index s r.file_path) e res at h.1 in (k.0, k.1, k.2, h.2)
      kept c res t (ok, inr h) = absurd (h.0 c)

      kept_failing :
          IsCurrent w db x o r (index s r.file_path)
          → (err : IngestError w) (t : S) → Failed w db x o r Valid index law returns s err t
          → Same (index s) (index t)
      kept_failing c err t (ok, inl h) = h
      kept_failing c err t (ok, inr h) = absurd (h.0 c)

  -- What a failing ingest may have written, and that the next one does not write the rest.
  abbrev pub StopsShort : S → S → Type 0
  StopsShort s t =
      Same (index s) (index t)
      ⊎ (((id : ℕ) × Holds w x r (chunks_of (index s r.file_path)) id (index s) (index t)
            × IsSettled id t)
          ⊎ ((inserts : List (ChunkInsert w.f32.F)) × (id : ℕ) × Holds w x r inserts id (index s)
                (index t)
              × IsSettled id t))

  Holds-IsSettled :
      (s t : S) (inserts : List (ChunkInsert w.f32.F)) (id : ℕ)
      → Valid t
      → Holds w x r inserts id (index s) (index t)
      → IsSettled id t
  Holds-IsSettled s t inserts id v h = stored-IsSettled t _ v h.2 refl

  -- Ingesting a request again does nothing more: after a success, and where the text was stored
  -- before, the next ingest of the request reports the same document as unchanged or fails, and either
  -- way changes no entry. This holds after a failure too, unless that changed no entry: a failure that
  -- left the new hash with the document's old chunks is not made good by ingesting the request again.
  pub ingest_content-Settles :
      (s : S)
      → Valid s
      → Ends
          (λ res t. IsSettled res.document_id t)
          (λ e t. StopsShort s t)
          (ingest_content w db x o r s)
  ingest_content-Settles s v =
      Ends-map succeeded stopped (ingest_content w db x o r s)
        (ingest_content-Refines w db x o r Valid index law returns s v)
    where
      by_entry :
          (e : Option (Entry w.f32.F)) (res : IngestResult) (t : S)
          → Valid t
          → index t r.file_path ≡ e
          → IsCurrent w db x o r e
          → IsSkipped w db x o r e res
          → IsSettled res.document_id t
      by_entry none res t ok at c k = absurd c
      by_entry (some e) res t ok at c k =
          subst (λ i. IsSettled i t) (sym (ap (λ q. q.document_id) k))
            (stored-IsSettled t e ok at c)

      succeeded :
          (res : IngestResult) (t : S)
          → Ingested w db x o r Valid index law returns s res t
          → IsSettled res.document_id t
      succeeded res t (ok, inl (c, k, same)) =
          by_entry (index s r.file_path) res t ok (same r.file_path) c k
      succeeded res t (ok, inr (old, (inserts, are, (id, holds, (b, report))))) =
          subst (λ i. IsSettled i t) (sym (ap (λ q. q.document_id) report))
            (Holds-IsSettled s t inserts id ok holds)

      stopped :
          (e : IngestError w) (t : S)
          → Failed w db x o r Valid index law returns s e t
          → StopsShort s t
      stopped e t (ok, inl same) = inl same
      stopped e t (ok, inr (old, (inserts, are, inl same))) = inl same
      stopped e t (ok, inr (old, (inserts, are, inr (inl (id, h))))) =
          inr (inl (id, h, Holds-IsSettled s t (chunks_of (index s r.file_path)) id ok h))
      stopped e t (ok, inr (old, (inserts, are, inr (inr (id, h))))) =
          inr (inr (inserts, id, h, Holds-IsSettled s t inserts id ok h))
