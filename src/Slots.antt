-- ===== src/Slots.antt =====
-- src/storage/slots.rs: the slots that the storage has reached, and the quorum of reader threads
-- that moves them. The atomics are fields of a record; a method returns the new record.
-- A gauge is the last number given to it, before it becomes a float.
pub mod Stored
pub mod Readers
pub mod Bounds
pub mod Quorum
pub mod Ready
mod Tests
