-- ===== src/Fees.antt =====
-- src/source/fees.rs: the compute budget of a transaction and the fees of a block.
pub mod Budget
pub mod Accounts
pub mod Prices
pub mod Percentile
pub mod Collect
mod Tests
