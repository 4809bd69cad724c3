-- ===== src/Stream.antt =====
-- src/source/stream.rs: the blocks that are put together from the updates of a stream.
pub mod Slot
pub mod Poll
pub mod Made
pub mod Once
pub mod Blocks
pub mod Received
pub mod Entries
pub mod Complete
pub mod History
pub mod Whole
mod Tests
