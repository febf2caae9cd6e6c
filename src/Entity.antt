-- ===== src/Entity.antt =====
-- entity/: the entities extracted from chunks.
pub mod Normalize
pub mod Graph
pub mod Document
pub mod Community
