-- ===== src/Orchestration/Indexing.antt =====
-- What the indexing handlers keep of a repository and how they bring it up to date:
-- src/internal/orchestration/handlers_indexing.go.
pub mod FileDiff
pub mod Remote
pub mod Tables
pub mod Screening
pub mod Below
pub mod VectorIds
pub mod Priority
pub mod Discovery
