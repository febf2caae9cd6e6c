-- ===== src/Memory.antt =====
-- memory/: the session and memory layer.
pub mod Types
pub mod Buffer
