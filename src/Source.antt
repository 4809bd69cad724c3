-- ===== src/Source.antt =====
-- src/source/block.rs, src/source/sfa.rs and src/source/transaction.rs: a block with its bytes and its
-- index entries.
pub mod Transaction
pub mod Encode
pub mod Proto
pub mod Lengths
pub mod Offsets
pub mod Block
pub mod Addresses
pub mod Convert
pub mod Owners
pub mod Tests
