-- ===== src/Storage.antt =====
-- internal/storage: at-rest encryption, the metadata store, and the embedding store.
pub mod Box
pub mod Bolt
pub mod Meta
pub mod Cas
pub mod Words
pub mod Embeddings
pub mod Interfaces
