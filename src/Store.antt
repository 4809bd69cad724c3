-- ===== src/Store.antt =====
-- src/storage/rocksdb.rs: the write side. The index, the ring of stored blocks and the files change
-- together.
pub mod Db
pub mod Write
pub mod Agree
pub mod Push
pub mod Checks
pub mod Pops
pub mod Runs
pub mod FrontRuns
pub mod Room
pub mod Restart
pub mod Tests
