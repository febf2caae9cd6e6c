-- ===== src/Ingest/Types.antt =====
-- ingest/types.rs: the requests, options, results and errors of the ingestion; and what it calls that
-- is not part of it.
use wend_rag.Base.{ℕ, List, Option, Bool, false}
use wend_rag.Base.Float.{Float}
use wend_rag.Base.Outcome.{Outcome}
use wend_rag.Base.Text.{Text, codes}
use wend_rag.Base.Unicode.{Unicode}
use wend_rag.Ingest.Chunker.{ChunkingStrategy}
use wend_rag.Ingest.Sections.{Event}
use wend_rag.Entity.Document.{ChunkEntityExtraction, DocumentEntityGraph, EntityGraphBuildError}

-- The types that stand in other libraries, the Unicode tables and the two kinds of numbers; `tenth` is
-- 0.1.
pub record External : Type 1 where
  pub u : Unicode
  pub f32 : Float
  pub f64 : Float
  pub tenth : f32.F
  pub Read : Type 0
  pub Embedding : Type 0
  pub Database : Type 0
  pub Extraction : Type 0
  pub Analysis : Type 0
  pub Community : Type 0

pub data IngestError (w : External) : Type 0 where
  unsupported_type : Text → IngestError w
  invalid_path : Text → IngestError w
  invalid_glob_pattern : Text → IngestError w
  read : w.Read → IngestError w
  embedding : w.Embedding → IngestError w
  database : w.Database → IngestError w
  chunking : w.Embedding → IngestError w
  entity_extraction : w.Extraction → IngestError w
  entity_graph_build : EntityGraphBuildError w.Embedding → IngestError w

pub data IngestStatus : Type 0 where
  created updated unchanged : IngestStatus

unfoldable pub status_text : IngestStatus → Text
status_text created = codes "created"
status_text updated = codes "updated"
status_text unchanged = codes "unchanged"

pub record IngestResult : Type 0 where
  pub document_id : ℕ
  pub file_path : Text
  pub chunk_count : ℕ
  pub status : IngestStatus

pub record ContentIngestRequest : Type 0 where
  pub file_path : Text
  pub file_name : Text
  pub file_type : Text
  pub text : Text

-- `CommunityConfig` of config.rs, and its default
pub record CommunityConfig : Type 0 where
  pub llm_summaries_enabled : Bool
  pub llm_base_url : Text
  pub llm_model : Text
  pub llm_api_key : Text

abbrev pub default_community_config : CommunityConfig
default_community_config = record {
  llm_summaries_enabled = false;
  llm_base_url = List.[];
  llm_model = List.[];
  llm_api_key = List.[];
}

pub record EntityExtractionInput : Type 0 where
  pub file_name : Text
  pub file_type : Text
  pub chunk_index : ℕ
  pub section_title : Option Text
  pub content : Text

-- Without `enforce_ssrf`, which only the reader looks at.
pub record IngestOptions (w : External) : Type 0 where
  pub project : Option Text
  pub tags : List Text
  pub entity_extractor :
      Option (EntityExtractionInput → Outcome w.Extraction (ChunkEntityExtraction w.f32.F))
  pub community_config : Option CommunityConfig
  pub chunking_strategy : ChunkingStrategy
  pub semantic_threshold : w.f64.F
  pub max_sentences : ℕ
  pub filter_garbage : Bool

-- The embedder, the Markdown parser, SHA-256 and the community manager.
pub record Services (w : External) : Type 0 where
  pub embed : List Text → Outcome w.Embedding (List (List w.f32.F))
  pub parse_markdown : Text → List Event
  pub sha256 : List ℕ → List ℕ
  pub analyze_graph :
      CommunityConfig → DocumentEntityGraph w.f32.F → Outcome w.Analysis (List w.Community)
