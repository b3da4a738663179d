-- ===== src/Orchestration.antt =====
-- The orchestration service: src/internal/orchestration.
pub mod Validation
pub mod Indexing
pub mod Chunking
pub mod Resilience
pub mod Fanout
pub mod Reindex
pub mod Dependencies
mod Tests
mod FanoutTests
mod IndexingTests
mod ValidationTests
