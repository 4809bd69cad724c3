-- ===== src/Http.antt =====
-- `HttpBlocks` (src/storage/write.rs): the requests for blocks that the writer keeps in flight.
pub mod Fetch
pub mod Requests
mod Tests
