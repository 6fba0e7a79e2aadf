-- ===== src/Formats.antt =====
-- internal/iocfmt: what the commands read and write.
pub mod Parse
pub mod Out
