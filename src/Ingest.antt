-- ===== src/Ingest.antt =====
-- internal/ingest: files split into chunks, and the chunk sets of the store.
pub mod Chunk
pub mod Engines
pub mod Lang
pub mod Windows
pub mod Complete
pub mod Contain
pub mod Reconcile
pub mod Sync
