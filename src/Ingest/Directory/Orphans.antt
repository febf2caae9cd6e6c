-- ===== src/Ingest/Directory/Orphans.antt =====
-- Which documents the clean-up of ingest/directory.rs may delete.
use wend_rag.Base.{List, [], ◌∷◌, true, false, ℕ, inl, inr, ◌≡◌, ◌≢◌, ap, refl, ◌∙◌, Bool-cases}
use wend_rag.Base.Action.{Ends, Ends-call, Ends-resume, Ends-map, Ends-catch, catch}
use wend_rag.Base.Text.{Text}
use wend_rag.Ingest.Types.{External, database, IngestOptions, Services}
use wend_rag.Ingest.Output.{IngestPathResult, is_orphan}
use wend_rag.Ingest.Directory.{
  Surroundings, record_deletion, orphan_loop, delete_orphaned_documents,
}
use wend_rag.Store.Backend.{StorageBackend, Index, IsBackend}

module _ (w : External) {S : Type 0} (db : StorageBackend S w.Database w.f32.F w.Community)
    (x : Services w) (o : IngestOptions w) (env : Surroundings w) (Valid : S → Type 0)
    (index : S → Index w.f32.F) (law : IsBackend db Valid index) (dir : Text)
    (files : List Text) where
  -- Only entries of orphans changed.
  abbrev pub Spares : S → S → Type 0
  Spares s t = Valid t × ((p : Text) → is_orphan dir files p ≡ false → index t p ≡ index s p)

  Spares-Spares : (s t v : S) → Spares s t → Spares t v → Spares s v
  Spares-Spares s t v h k = (k.0, λ p q. k.1 p q ∙ h.1 p q)

  differs :
      (p path : Text) → is_orphan dir files p ≡ false → is_orphan dir files path ≡ true → p ≢ path
  differs p path a b e =
      let same : is_orphan dir files p ≡ true = ap (is_orphan dir files) e ∙ b in cc

  orphan_loop-Spares :
      (paths : List Text) (out : IngestPathResult × ℕ) (s : S)
      → Valid s
      → Ends
          (λ r t. Spares s t)
          (λ e t. Spares s t)
          (orphan_loop w db x o env dir files paths out s)
  unfolding orphan_loop
  orphan_loop-Spares [] out s v = (v, λ p q. refl)
  orphan_loop-Spares (path ∷ paths) out s v = elim (Bool-cases (is_orphan dir files path)) [
    | inr q ↦ rw q (orphan_loop-Spares paths out s v)
    | inl q ↦ rw q (
        Ends-resume {D = λ r t. Spares s t} _ _ _
          (λ r t h.
            Ends-map (λ a t' k. Spares-Spares s t t' h k) (λ e t' k. Spares-Spares s t t' h k)
              (orphan_loop w db x o env dir files paths (record_deletion w db x o env path r out) t)
              (orphan_loop-Spares paths (record_deletion w db x o env path r out) t h.0))
          (λ e t h. h) (catch (db.delete_document path) s)
          (Ends-catch (λ r t. Spares s t) (λ e t. Spares s t)
            (λ r t h. (h.0, λ p c. h.1 p (differs p path c q))) (λ e t h. (h.0, λ p c. h.1 p))
            (db.delete_document path s) (law.deletes path s v)))
  ]

  -- The clean-up returns or fails, and either way every entry is as before but those of paths that lie
  -- below the directory and are not among the files that were found.
  pub delete_orphaned_documents-Spares :
      (out : IngestPathResult) (s : S)
      → Valid s
      → Ends
          (λ r t. Spares s t)
          (λ e t. Spares s t)
          (delete_orphaned_documents w db x o env dir files out s)
  unfolding delete_orphaned_documents
  delete_orphaned_documents-Spares out s v =
      Ends-call (λ r t. Spares s t) (λ e t. Spares s t) database _
        (λ ps t h.
          let same : Spares s t = (h.0, λ p q. h.1 p) in
          Ends-map (λ a t' k. Spares-Spares s t t' same k) (λ e t' k. Spares-Spares s t t' same k)
            (orphan_loop w db x o env dir files ps (out, 0) t)
            (orphan_loop-Spares ps (out, 0) t h.0))
        (λ e t h. (h.0, λ p q. h.1 p)) (db.list_documents s) (law.lists s v)
