-- ===== src/Ingest.antt =====
-- ingest/: from a document's text to its chunks.
pub mod UrlGuard
pub mod Window
pub mod Sentences
pub mod Semantic
pub mod Sections
pub mod Chunker
pub mod Types
pub mod Reader
pub mod Output
pub mod Directory
pub mod Pipeline
