-- ===== src/Runtime.antt =====
-- internal/runtime: the daemon that serves one engine to several clients.
pub mod Frames
pub mod Methods
pub mod Json
pub mod Wire
pub mod Keeps
pub mod Calls
pub mod Client
pub mod Server
pub mod Access
