-- ===== src/Tests.antt =====
-- The theorems at concrete inputs.
pub mod Chunks
pub mod Sections
pub mod Sessions
pub mod Access
pub mod Search
pub mod Guard
pub mod Graphs
pub mod Pipeline
pub mod Paths
