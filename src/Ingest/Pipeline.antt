-- ===== src/Ingest/Pipeline.antt =====
-- ingest/pipeline.rs: `ingest_content` on a storage backend. The entity extraction stops at the first
-- chunk that fails; the order in which up to four calls of it overlap is not modelled.
pub mod Stored
pub mod Refines
pub mod Repeated
use wend_rag.Base.{
  ℕ, List, [], ◌∷◌, ◌++◌, Option, none, some, Bool, ◌==◌, not, leb, if◌then◌else◌, length, map,
}
use wend_rag.Base.Action.{⊤, Action, pure, lift, on_error, best_effort, map_err, ◌>>=◌}
use wend_rag.Base.Outcome.{Outcome, done, failed, stuck}
use wend_rag.Base.Text.{Text, text_eq}
use wend_rag.Auth.Keys.{as_bytes, hex}
use wend_rag.Ingest.Chunker.{RawChunk, Chunking, chunk_document}
use wend_rag.Ingest.Types.{
  IngestError, embedding, database, chunking, entity_extraction, entity_graph_build, IngestStatus,
  created, updated, unchanged, IngestResult, ContentIngestRequest, CommunityConfig,
  default_community_config, EntityExtractionInput, IngestOptions, Services, External,
}
use wend_rag.Entity.Document.{
  ChunkEntityExtraction, DocumentEntityGraph, EntityGraphBuildError, build_document_entity_graph,
}
use wend_rag.Store.Backend.{ChunkInsert, DocumentUpsert, Document, StorageBackend}

-- Of community_manager.rs.
abbrev pub min_entities_for_communities : ℕ
min_entities_for_communities = 5

unfoldable pub sha256_hex : (List ℕ → List ℕ) → Text → Text
sha256_hex sha256 text = hex (sha256 (as_bytes text))

-- What is embedded of a chunk: its title, a blank line and its content.
unfoldable pub titled_text : RawChunk → Text
titled_text c = elim c.section_title [
  | none ↦ c.content
  | some title ↦ title ++ 10 ∷ 10 ∷ c.content
]

-- `raw_chunks.into_iter().zip(embeddings).map(…)`
unfoldable pub chunk_inserts : {F : Type 0} → List RawChunk → List (List F) → List (ChunkInsert F)
chunk_inserts [] embeddings = []
chunk_inserts (c ∷ cs) [] = []
chunk_inserts (c ∷ cs) (v ∷ embeddings) =
    record {
      content = c.content;
      chunk_index = c.chunk_index;
      section_title = c.section_title;
      embedding = v;
    }
    ∷ chunk_inserts cs embeddings

-- `d.created_at != d.updated_at`, false without a document
unfoldable pub was_update : Option Document → Bool
was_update none = Bool.false
was_update (some d) = not (d.created_at == d.updated_at)

unfoldable pub community_config_of : Option CommunityConfig → CommunityConfig
community_config_of none = default_community_config
community_config_of (some c) = c

module _ (w : External) {S : Type 0} (db : StorageBackend S w.Database w.f32.F w.Community)
    (x : Services w) (o : IngestOptions w) where
  unfoldable pub chunking_of : Chunking w.u w.f32 w.f64 w.Embedding
  chunking_of = record {
    parse_markdown = x.parse_markdown;
    strategy = o.chunking_strategy;
    embedder = some x.embed;
    semantic_threshold = o.semantic_threshold;
    max_sentences = o.max_sentences;
    filter_garbage = o.filter_garbage;
  }

  unfoldable pub chunks_for : ContentIngestRequest → Outcome w.Embedding (List RawChunk)
  chunks_for r = chunk_document w.u w.f32 w.f64 chunking_of r.text r.file_type

  unfoldable pub extraction_input : ContentIngestRequest → RawChunk → EntityExtractionInput
  extraction_input r c = record {
    file_name = r.file_name;
    file_type = r.file_type;
    chunk_index = c.chunk_index;
    section_title = c.section_title;
    content = c.content;
  }

  unfoldable pub extract_all :
      (EntityExtractionInput → Outcome w.Extraction (ChunkEntityExtraction w.f32.F))
      → ContentIngestRequest
      → List RawChunk
      → Outcome w.Extraction (List (ChunkEntityExtraction w.f32.F))
  extract_all extract r [] = done []
  extract_all extract r (c ∷ cs) =
      let rest = extract_all extract r cs in
      elim (extract (extraction_input r c)) [
        | done first ↦ elim rest [
          | done others ↦ done (first ∷ others)
          | failed e ↦ failed e
          | stuck ↦ stuck
        ]
        | failed e ↦ failed e
        | stuck ↦ stuck
      ]

  -- The graph of the chunks, none without an extractor.
  unfoldable pub built_graph :
      Outcome w.Extraction (List (ChunkEntityExtraction w.f32.F))
      → Outcome (IngestError w) (Option (DocumentEntityGraph w.f32.F))
  built_graph (failed e) = failed (entity_extraction e)
  built_graph stuck = stuck
  built_graph (done extractions) =
      elim (build_document_entity_graph w.u w.f32 w.tenth x.embed extractions) [
        | done g ↦ done (some g)
        | failed e ↦ failed (entity_graph_build e)
        | stuck ↦ stuck
      ]

  unfoldable pub document_graph :
      ContentIngestRequest
      → List RawChunk
      → Outcome (IngestError w) (Option (DocumentEntityGraph w.f32.F))
  document_graph r cs = elim o.entity_extractor [
    | none ↦ done none
    | some extract ↦ built_graph (extract_all extract r cs)
  ]

  -- Both calls run, whatever the first comes to.
  unfoldable pub store_communities :
      Outcome w.Analysis (List w.Community) → Action S (IngestError w) ⊤
  store_communities (failed e) = pure tt
  store_communities stuck = lift stuck
  store_communities (done communities) = do
    cleared ← best_effort (db.delete_project_communities o.project)
    best_effort (db.save_communities o.project communities)

  unfoldable pub detect_communities : DocumentEntityGraph w.f32.F → Action S (IngestError w) ⊤
  detect_communities g =
      if leb min_entities_for_communities (length g.entities)
      then store_communities (x.analyze_graph (community_config_of o.community_config) g)
      else pure tt

  unfoldable pub store_graph : ℕ → Option (DocumentEntityGraph w.f32.F) → Action S (IngestError w) ⊤
  store_graph id none = pure tt
  store_graph id (some g) = do
    left ← on_error database (db.replace_document_entity_graph id g)
    detect_communities left

  unfoldable pub upsert_of : ContentIngestRequest → DocumentUpsert
  upsert_of r = record {
    file_path = r.file_path;
    file_name = r.file_name;
    file_type = r.file_type;
    content_hash = sha256_hex x.sha256 r.text;
    project = o.project;
    tags = o.tags;
  }

  unfoldable pub reported :
      ContentIngestRequest
      → ℕ
      → List (ChunkInsert w.f32.F)
      → Option Document
      → Action S (IngestError w) IngestResult
  reported r id inserts document = pure record {
    document_id = id;
    file_path = r.file_path;
    chunk_count = length inserts;
    status = if was_update document then updated else created;
  }

  -- The calls that write, and the lookup that tells an update from a creation.
  unfoldable pub store_document :
      ContentIngestRequest
      → List (ChunkInsert w.f32.F)
      → Option (DocumentEntityGraph w.f32.F)
      → Action S (IngestError w) IngestResult
  store_document r inserts graph = do
    id ← on_error database (db.upsert_document (upsert_of r))
    replaced ← on_error database (db.replace_document_chunks id inserts)
    stored ← store_graph id graph
    document ← on_error database (db.get_document_by_path r.file_path)
    reported r id inserts document

  unfoldable pub ingest_changed : ContentIngestRequest → Action S (IngestError w) IngestResult
  ingest_changed r = do
    raw_chunks ← lift (map_err chunking (chunks_for r))
    embeddings ← lift (map_err embedding (x.embed (map titled_text raw_chunks)))
    graph ← lift (document_graph r raw_chunks)
    store_document r (chunk_inserts raw_chunks embeddings) graph

  unfoldable pub ingest_unless_current :
      ContentIngestRequest → Option Document → Action S (IngestError w) IngestResult
  ingest_unless_current r none = ingest_changed r
  ingest_unless_current r (some existing) =
      if text_eq existing.content_hash (sha256_hex x.sha256 r.text)
      then pure record {
        document_id = existing.id;
        file_path = r.file_path;
        chunk_count = 0;
        status = unchanged;
      }
      else ingest_changed r

  unfoldable pub ingest_content : ContentIngestRequest → Action S (IngestError w) IngestResult
  ingest_content r = do
    found ← on_error database (db.get_document_by_path r.file_path)
    ingest_unless_current r found
