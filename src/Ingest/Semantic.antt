-- ===== src/Ingest/Semantic.antt =====
-- ingest/chunker_semantic.rs: chunking at the points where neighbouring sentences differ.
pub mod Groups
pub mod Breaks
pub mod Split
