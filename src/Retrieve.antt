-- ===== src/Retrieve.antt =====
-- retrieve/: which retrieval a query gets, and how ranked lists are merged.
pub mod Router
pub mod Fusion
pub mod Branches
pub mod Hybrid
