-- ===== src/Files.antt =====
-- src/storage/files.rs: the files that blocks are written to, each a ring of bytes between `tail`
-- and `head`, and the round robin between them. Gauges are left out.
pub mod File
pub mod Region
pub mod Layout
pub mod Full
pub mod Pick
mod Tests
