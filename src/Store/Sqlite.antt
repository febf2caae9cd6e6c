-- ===== src/Store/Sqlite.antt =====
-- store/sqlite/mod.rs: the documents and chunks of the SQLite backend, with the checks of
-- migrations/sqlite/. A chunk's own identifier and time are left out. The tables of entities and
-- communities are those of EntityTables.
pub mod Rows
pub mod Chunks
pub mod Index
pub mod Writes
pub mod Contract
use wend_rag.Base.{
  ℕ, ◌+◌, List, [], ◌∷◌, ◌++◌, Option, none, some, Bool, true, false, not, ◌&&◌, ◌||◌, ◌==◌, leb,
  if◌then◌else◌, length, is_empty, any, filter, map,
}
use wend_rag.Base.Action.{⊤, Action}
use wend_rag.Base.Outcome.{Outcome, done, failed}
use wend_rag.Base.Sort.{sort}
use wend_rag.Base.Text.{Text, text_eq, codes}
use wend_rag.Entity.Document.{DocumentEntityGraph}
use wend_rag.Store.EntityTables.{
  embedding_dimensions, EntityTables, CommunityWithSummary, forget_chunks, prune_orphan_entities,
  write_graph, store_all_communities, remove_communities,
}
use wend_rag.Store.Backend.{ChunkInsert, DocumentUpsert, Document, StorageBackend}

-- `sqlx::Error`: the database is out of reach, a check of the code or a constraint of a table.
pub data SqlxError : Type 0 where
  unreachable protocol constraint : SqlxError

pub record DocumentRow : Type 0 where
  pub id : ℕ
  pub file_path : Text
  pub file_name : Text
  pub file_type : Text
  pub content_hash : Text
  pub project : Option Text
  pub tags : List Text
  pub created_at : ℕ
  pub updated_at : ℕ

pub record ChunkRow (F : Type 0) : Type 0 where
  pub document_id : ℕ
  pub chunk : ChunkInsert F

-- The tables, the next UUID, the time, and for each of the next calls whether it reaches the database;
-- those after them do.
pub record Tables (F : Type 0) : Type 0 where
  pub documents : List DocumentRow
  pub chunks : List (ChunkRow F)
  pub graph : EntityTables F
  pub next_id : ℕ
  pub clock : ℕ
  pub reached : List Bool

unfoldable pub has_path : Text → DocumentRow → Bool
has_path path d = text_eq d.file_path path

unfoldable pub find_document : Text → List DocumentRow → Option DocumentRow
find_document path [] = none
find_document path (d ∷ ds) =
    let rest = find_document path ds in if has_path path d then some d else rest

-- `map_document_row`
unfoldable pub map_document_row : DocumentRow → Document
map_document_row d = record {
  id = d.id;
  content_hash = d.content_hash;
  created_at = d.created_at;
  updated_at = d.updated_at;
}

unfoldable pub map_found : Option DocumentRow → Option Document
map_found none = none
map_found (some d) = some (map_document_row d)

-- The `CHECK` on the column `file_type`
unfoldable pub is_storable_type : Text → Bool
is_storable_type t =
    text_eq t (codes "markdown")
    || text_eq t (codes "text")
    || text_eq t (codes "pdf")
    || text_eq t (codes "url")

unfoldable pub new_row : DocumentUpsert → ℕ → ℕ → DocumentRow
new_row d new_id now = record {
  id = new_id;
  file_path = d.file_path;
  file_name = d.file_name;
  file_type = d.file_type;
  content_hash = d.content_hash;
  project = d.project;
  tags = d.tags;
  created_at = now;
  updated_at = now;
}

-- `ON CONFLICT(file_path) DO UPDATE SET …`, which leaves the file's type
unfoldable pub update_row : DocumentUpsert → ℕ → DocumentRow → DocumentRow
update_row d now row = record row {
  file_name = d.file_name;
  content_hash = d.content_hash;
  project = d.project;
  tags = d.tags;
  updated_at = now;
}

-- The rows after the `INSERT`, and the identifier that it returns.
unfoldable pub upsert_rows : DocumentUpsert → ℕ → ℕ → List DocumentRow → List DocumentRow × ℕ
upsert_rows d new_id now [] = (new_row d new_id now ∷ [], new_id)
upsert_rows d new_id now (row ∷ rows) =
    let rest = upsert_rows d new_id now rows in
    if has_path d.file_path row
    then (update_row d now row ∷ rows, row.id)
    else (row ∷ rest.0, rest.1)

module _ {F : Type 0} where
  unfoldable pub is_of : ℕ → ChunkRow F → Bool
  is_of id row = row.document_id == id

  -- `validate_embedding_dimensions`
  unfoldable pub has_dimensions : ChunkInsert F → Bool
  has_dimensions c = length c.embedding == embedding_dimensions

  -- `UNIQUE (document_id, chunk_index)` on the rows of one document
  unfoldable pub repeats_index : List (ChunkInsert F) → Bool
  repeats_index [] = false
  repeats_index (c ∷ cs) = any (λ d. d.chunk_index == c.chunk_index) cs || repeats_index cs

  unfoldable pub rows_for : ℕ → List (ChunkInsert F) → List (ChunkRow F)
  rows_for id [] = []
  rows_for id (c ∷ cs) = record { document_id = id; chunk = c } ∷ rows_for id cs

  -- A call on the database, which fails before it changes anything when it does not reach it.
  unfoldable pub reach :
      {A : Type 0}
      → Action (Tables F) SqlxError A
      → Tables F
      → List Bool
      → Outcome SqlxError A × Tables F
  reach f s [] = f s
  reach f s (true ∷ bs) = f (record s { reached = bs })
  reach f s (false ∷ bs) = (failed unreachable, record s { reached = bs })

  unfoldable pub get_document_by_path : Text → Action (Tables F) SqlxError (Option Document)
  get_document_by_path path s =
      reach (λ t. (done (map_found (find_document path t.documents)), t)) s s.reached

  unfoldable pub insert_document : DocumentUpsert → Action (Tables F) SqlxError ℕ
  insert_document d s =
      let out = upsert_rows d s.next_id s.clock s.documents in
      if is_storable_type d.file_type
      then (
        done out.1,
        record s { documents = out.0; next_id = s.next_id + 1; clock = s.clock + 1 },
      )
      else (failed constraint, s)

  unfoldable pub upsert_document : DocumentUpsert → Action (Tables F) SqlxError ℕ
  upsert_document d s = reach (insert_document d) s s.reached

  -- In one transaction: a chunk that a check refuses leaves the old ones.
  unfoldable pub insert_chunks : ℕ → List (ChunkInsert F) → Action (Tables F) SqlxError ⊤
  insert_chunks id chunks s =
      let others = filter (λ row. not (is_of id row)) s.chunks in
      if any (λ c. not (has_dimensions c)) chunks
      then (failed protocol, s)
      else if repeats_index chunks
          || (not (is_empty chunks) && not (any (λ d. d.id == id) s.documents))
      then (failed constraint, s)
      else (
        done tt,
        record s { chunks = others ++ rows_for id chunks; graph = forget_chunks id s.graph },
      )

  unfoldable pub replace_document_chunks : ℕ → List (ChunkInsert F) → Action (Tables F) SqlxError ⊤
  replace_document_chunks id chunks s = reach (insert_chunks id chunks) s s.reached

  -- `ORDER BY d.updated_at DESC`, without the project and the type to filter by
  unfoldable pub list_documents : Action (Tables F) SqlxError (List Text)
  list_documents s =
      reach
        (λ t. (
          done (map (λ d. d.file_path) (sort (λ d e. leb e.updated_at d.updated_at) t.documents)),
          t,
        ))
        s s.reached

  -- By path; the chunks go with their document, and the entities that no chunk mentions any more.
  unfoldable pub remove_document :
      Tables F → Option DocumentRow → Outcome SqlxError (Option (Text × ℕ)) × Tables F
  remove_document s none = (done none, s)
  remove_document s (some d) = (
    done (some (d.file_path, length (filter (is_of d.id) s.chunks))),
    record s {
      documents = filter (λ e. not (e.id == d.id)) s.documents;
      chunks = filter (λ row. not (is_of d.id row)) s.chunks;
      graph = prune_orphan_entities (forget_chunks d.id s.graph);
    },
  )

  unfoldable pub delete_document : Text → Action (Tables F) SqlxError (Option (Text × ℕ))
  delete_document path s =
      reach (λ t. remove_document t (find_document path t.documents)) s s.reached

  -- The end of a transaction on the tables of entities and communities.
  unfoldable pub commit_graph :
      {A : Type 0} → A → Option (EntityTables F) → Action (Tables F) SqlxError A
  commit_graph a none s = (failed constraint, s)
  commit_graph a (some g) s = (done a, record s { graph = g; clock = s.clock + 1 })

  unfoldable pub has_chunk : List (ChunkRow F) → ℕ → ℕ → Bool
  has_chunk rows id index = any (λ row. is_of id row && row.chunk.chunk_index == index) rows

  -- The graph stays with the caller as it is.
  unfoldable pub replace_document_entity_graph :
      ℕ → DocumentEntityGraph F → Action (Tables F) SqlxError (DocumentEntityGraph F)
  replace_document_entity_graph id graph s =
      reach
        (λ t. commit_graph graph (write_graph (has_chunk t.chunks id) id t.clock graph t.graph) t) s
        s.reached

  unfoldable pub delete_project_communities : Option Text → Action (Tables F) SqlxError ⊤
  delete_project_communities project s =
      reach (λ t. commit_graph tt (some (remove_communities project t.graph)) t) s s.reached

  unfoldable pub save_communities :
      Option Text → List (CommunityWithSummary F) → Action (Tables F) SqlxError ⊤
  save_communities project communities s =
      if is_empty communities
      then (done tt, s)
      else reach
          (λ t. commit_graph tt (store_all_communities project t.clock communities t.graph) t) s
          s.reached

abbrev pub sqlite_backend :
    (F : Type 0) → StorageBackend (Tables F) SqlxError F (CommunityWithSummary F)
sqlite_backend F = record {
  get_document_by_path = get_document_by_path;
  upsert_document = upsert_document;
  replace_document_chunks = replace_document_chunks;
  replace_document_entity_graph = replace_document_entity_graph;
  delete_project_communities = delete_project_communities;
  save_communities = save_communities;
  list_documents = list_documents;
  delete_document = delete_document;
}
