-- ===== src/Blocks.antt =====
-- src/storage/blocks.rs: the stored blocks, a ring of fixed size in the writer thread, and the
-- replica of it in each reader thread.
pub mod Block
pub mod Write
pub mod Read
pub mod Ring
pub mod Ends
pub mod Push
pub mod Pop
pub mod Refine
pub mod Scan
pub mod Recent
pub mod Load
pub mod Index
pub mod Times
pub mod Lower
pub mod Mirror
pub mod ToRead
pub mod Location
pub mod Tests
