-- ===== src/Examples.antt =====
-- Concrete libraries and stores, and the theorems applied to them.
pub mod Formats
pub mod Records
pub mod Libraries
pub mod Witnesses
pub mod Daemon
pub mod Verdicts
pub mod Reads
pub mod Runs
pub mod Stores
pub mod Queries
pub mod Chunks
pub mod Remote
