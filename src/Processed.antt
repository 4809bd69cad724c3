-- ===== src/Processed.antt =====
-- `StorageProcessed` (src/storage/read.rs): what a reader thread keeps of the newest blocks.
pub mod State
pub mod Heights
pub mod Recent
pub mod Statuses
pub mod Answers
mod Tests
