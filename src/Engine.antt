-- ===== src/Engine.antt =====
-- internal/engine: the engine's public API over the stores.
pub mod State
pub mod Open
pub mod Push
pub mod Relations
pub mod Branch
pub mod Admin
pub mod Api
pub mod Integrity
pub mod Supersession
pub mod Provenance
pub mod Visibility
pub mod Reading
pub mod Rollup
pub mod Ranking
pub mod Query
