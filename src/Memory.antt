-- ===== src/Memory.antt =====
-- src/storage/memory.rs: blocks from the source wait here until they are confirmed, and leave one slot
-- at a time.
pub mod Memory
pub mod Run
pub mod Add
pub mod Pop
mod Tests
