-- ===== src/Store/Backend.antt =====
-- store/mod.rs: the storage backend, as the ingestion uses it, and what it promises of the documents
-- and chunks it stores. An identifier stands for a UUID, and a time is a number.
use wend_rag.Base.{ℕ, List, [], Option, none, some, ◌≡◌, ◌≢◌}
use wend_rag.Base.Action.{⊤, Action, Ends}
use wend_rag.Base.Text.{Text}
use wend_rag.Entity.Document.{DocumentEntityGraph}

pub record ChunkInsert (F : Type 0) : Type 0 where
  pub content : Text
  pub chunk_index : ℕ
  pub section_title : Option Text
  pub embedding : List F

pub record DocumentUpsert : Type 0 where
  pub file_path : Text
  pub file_name : Text
  pub file_type : Text
  pub content_hash : Text
  pub project : Option Text
  pub tags : List Text

-- `models::Document`
pub record Document : Type 0 where
  pub id : ℕ
  pub content_hash : Text
  pub created_at : ℕ
  pub updated_at : ℕ

-- The calls of the trait that the ingestion makes, on the state S of the store. Storing a graph leaves
-- it without what the backend took out of it. `Community` is what the communities are stored as.
pub record StorageBackend (S E F Community : Type 0) : Type 0 where
  pub get_document_by_path : Text → Action S E (Option Document)
  pub upsert_document : DocumentUpsert → Action S E ℕ
  pub replace_document_chunks : ℕ → List (ChunkInsert F) → Action S E ⊤
  pub replace_document_entity_graph : ℕ → DocumentEntityGraph F → Action S E (DocumentEntityGraph F)
  pub delete_project_communities : Option Text → Action S E ⊤
  pub save_communities : Option Text → List Community → Action S E ⊤
  pub list_documents : Action S E (List Text)
  pub delete_document : Text → Action S E (Option (Text × ℕ))

-- What is stored under a path.
pub record Entry (F : Type 0) : Type 0 where
  pub id : ℕ
  pub content_hash : Text
  pub chunks : List (ChunkInsert F)

abbrev pub Index : Type 0 → Type 0
Index F = Text → Option (Entry F)

module _ {F : Type 0} where
  -- The document that a lookup returns is the entry's.
  abbrev pub Matches : Option (Entry F) → Option Document → Type 0
  Matches none none = Unit
  Matches (some e) (some d) = (d.id ≡ e.id) × (d.content_hash ≡ e.content_hash)
  Matches none (some d) = ⊥
  Matches (some e) none = ⊥

  -- A document that is there keeps its identifier.
  abbrev pub KeepsId : Option (Entry F) → ℕ → Type 0
  KeepsId none id = Unit
  KeepsId (some e) id = id ≡ e.id

  -- The chunks of an entry, none without one.
  unfoldable pub chunks_of : Option (Entry F) → List (ChunkInsert F)
  chunks_of none = []
  chunks_of (some e) = e.chunks

  abbrev pub Same : Index F → Index F → Type 0
  Same before after = (p : Text) → after p ≡ before p

  abbrev pub SameBut : Text → Index F → Index F → Type 0
  SameBut path before after = (p : Text) → p ≢ path → after p ≡ before p

-- The contract: of the stored documents and chunks each call does what its name says or nothing.
module _ {S E F Community : Type 0} where
  pub record IsBackend (db : StorageBackend S E F Community) (Valid : S → Type 0)
      (index : S → Index F) : Type 0 where
    pub looks_up :
        (path : Text) (s : S)
        → Valid s
        → Ends
            (λ d t. Valid t × Same (index s) (index t) × Matches (index s path) d)
            (λ e t. Valid t × Same (index s) (index t))
            (db.get_document_by_path path s)
    pub upserts :
        (d : DocumentUpsert) (s : S)
        → Valid s
        → Ends
            (λ id t.
              Valid t
              × SameBut d.file_path (index s) (index t)
              × KeepsId (index s d.file_path) id
              × (index t d.file_path
                  ≡ some record {
                    id = id;
                    content_hash = d.content_hash;
                    chunks = chunks_of (index s d.file_path);
                  }))
            (λ e t. Valid t × Same (index s) (index t))
            (db.upsert_document d s)
    pub replaces :
        (path : Text) (e : Entry F) (chunks : List (ChunkInsert F)) (s : S)
        → Valid s
        → index s path ≡ some e
        → Ends
            (λ u t.
              Valid t
              × SameBut path (index s) (index t)
              × (index t path
                  ≡ some record { id = e.id; content_hash = e.content_hash; chunks = chunks }))
            (λ x t. Valid t × Same (index s) (index t))
            (db.replace_document_chunks e.id chunks s)
    pub stores_graph :
        (id : ℕ) (g : DocumentEntityGraph F) (s : S)
        → Valid s
        → Ends
            (λ h t. Valid t × Same (index s) (index t))
            (λ e t. Valid t × Same (index s) (index t))
            (db.replace_document_entity_graph id g s)
    pub clears_communities :
        (project : Option Text) (s : S)
        → Valid s
        → Ends
            (λ u t. Valid t × Same (index s) (index t))
            (λ e t. Valid t × Same (index s) (index t))
            (db.delete_project_communities project s)
    pub saves_communities :
        (project : Option Text) (cs : List Community) (s : S)
        → Valid s
        → Ends
            (λ u t. Valid t × Same (index s) (index t))
            (λ e t. Valid t × Same (index s) (index t))
            (db.save_communities project cs s)
    pub lists :
        (s : S)
        → Valid s
        → Ends
            (λ ps t. Valid t × Same (index s) (index t))
            (λ e t. Valid t × Same (index s) (index t))
            (db.list_documents s)
    pub deletes :
        (path : Text) (s : S)
        → Valid s
        → Ends
            (λ o t. Valid t × SameBut path (index s) (index t))
            (λ e t. Valid t × Same (index s) (index t))
            (db.delete_document path s)
