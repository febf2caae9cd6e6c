-- ===== src/Store/Sqlite/Index.antt =====
-- What the tables of store/sqlite/mod.rs hold under each path.
use wend_rag.Base.{◌<◌, List, [], ◌∷◌, Option, none, some, Bool, true, false, All, ◌≡◌, ap, ◌∙◌}
use wend_rag.Base.Action.{Ends}
use wend_rag.Base.Outcome.{Outcome}
use wend_rag.Store.Backend.{Entry, Index}
use wend_rag.Store.Sqlite.{
  SqlxError, unreachable, DocumentRow, ChunkRow, Tables, find_document, reach,
}
use wend_rag.Store.EntityTables.References.{HasReferences}
use wend_rag.Store.Sqlite.Rows.{HasUniqueIds}
use wend_rag.Store.Sqlite.Chunks.{stored_chunks}

module _ {F : Type 0} where
  abbrev pub entry_for : List (ChunkRow F) → Option DocumentRow → Option (Entry F)
  entry_for rows none = none
  entry_for rows (some d) =
      some record { id = d.id; content_hash = d.content_hash; chunks = stored_chunks d.id rows }

  -- The documents and chunks under each path.
  abbrev pub index : Tables F → Index F
  index s path = entry_for s.chunks (find_document path s.documents)

  -- Identifiers are below the next one, no two documents have the same, and what mentions,
  -- relationships and members refer to is there.
  abbrev pub IsWellFormed : Tables F → Type 0
  IsWellFormed s =
      All (λ d. d.id < s.next_id) s.documents
      × All (λ c. c.document_id < s.next_id) s.chunks
      × HasUniqueIds s.documents
      × HasReferences s.graph

  pub reach-Ends :
      {A : Type 0} (D : A → Tables F → Type 0) (G : SqlxError → Tables F → Type 0)
      (f : Tables F → Outcome SqlxError A × Tables F) (s : Tables F) (bs : List Bool)
      → Ends D G (f s)
      → ((cs : List Bool) → Ends D G (f (record s { reached = cs })))
      → ((cs : List Bool) → G unreachable (record s { reached = cs }))
      → Ends D G (reach f s bs)
  unfolding reach
  reach-Ends D G f s [] h k g = h
  reach-Ends D G f s (true ∷ bs) h k g = k bs
  reach-Ends D G f s (false ∷ bs) h k g = g bs

  pub Entry_eq :
      (e f : Entry F)
      → e.id ≡ f.id
      → e.content_hash ≡ f.content_hash
      → e.chunks ≡ f.chunks
      → some e ≡ some f
  Entry_eq e f a b c =
      ap (λ i. some record { id = i; content_hash = e.content_hash; chunks = e.chunks }) a
      ∙ ap (λ h. some record { id = f.id; content_hash = h; chunks = e.chunks }) b
      ∙ ap (λ cs. some record { id = f.id; content_hash = f.content_hash; chunks = cs }) c
