-- ===== src/Codec.antt =====
-- src/storage/rocksdb.rs: the keys and values of the column families, as bytes.
pub mod Bytes
pub mod Reader
pub mod Varints
pub mod Keys
pub mod Basic
pub mod Extra
pub mod Sfa
pub mod Transaction
pub mod Reward
pub mod Tests
mod StatusTests
