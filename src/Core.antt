-- ===== src/Core.antt =====
-- internal/core: the domain types, the identifiers and the confidence verdict.
pub mod Types
pub mod Utf8
pub mod Ulid
pub mod Floats
pub mod Confidence
pub mod Maps
