-- ===== src/Lib.antt =====
-- Verification of alpamayo, a server that stores the blocks of a Solana node and answers RPC requests
-- from them.
--
-- The program. A writer thread takes confirmed blocks in slot order, appends the bytes of each one to a
-- file (src/storage/files.rs), puts its place into RocksDB (src/storage/rocksdb.rs) and into a ring
-- of stored blocks (src/storage/blocks.rs), and tells the reader threads by messages
-- (src/storage/sync.rs). Each reader keeps a replica of the ring, with which it finds blocks by slot
-- and by time. When the ring is full the oldest blocks leave at its back; a backfill adds blocks there.
-- What the readers have seen is counted per slot (src/storage/slots.rs) to publish the processed,
-- confirmed and finalized slots. Blocks that are not yet confirmed wait in memory
-- (src/storage/memory.rs). The fees of recent blocks come from src/source/fees.rs.
--
-- The files.
-- - Blocks: src/storage/blocks.rs. Block has StoredBlock and StorageBlocksBoundaries; Write has
--   StoredBlocksWrite and its operations; Read has StoredBlocksRead, the replica, and the queries.
--   Ring, Ends, Scan, Index and Times are about the places of the ring and the index by time;
--   Load, Push, Pop, Recent, Refine, Mirror, ToRead, Location and Lower about the operations.
-- - Slots: src/storage/slots.rs. Stored has StoredSlots, Readers has StoredSlotsRead: the clones of
--   one are one record, with a ready flag for each.
-- - Files: src/storage/files.rs. File has StorageFile and StorageFilesWrite; Region, Layout, Full and
--   Pick are about the bytes in use, the stored blocks and the choice of the file.
-- - Memory: src/storage/memory.rs. Memory has StorageMemory; Run, Add and Pop are about its slots.
-- - Codec: src/storage/rocksdb.rs, the keys and values of the column families as lists of bytes:
--   Keys, Basic (SlotBasicIndexValue), Extra (SlotExtraIndexValue), Transaction
--   (TransactionIndexValue), Sfa (SfaIndexValue), Reward (InflationRewardAddressValue).
-- - Fees: src/source/fees.rs. Budget and Prices have the compute budget instructions, Percentile the
--   fee of a set of accounts and Accounts is about it, Collect the fees of a block.
-- - Store: src/storage/rocksdb.rs, the pushes and pops of the writer over index, ring and files. Db has
--   the column families and the write requests, Write the calls of RocksdbWrite; Agree, Push, Checks,
--   Pops, Runs, FrontRuns and Room are about one call, Restart about runs of calls and the loading.
-- - Source: src/source/block.rs, src/source/sfa.rs and src/source/transaction.rs. Encode and Proto have
--   the bytes of a block, Block has BlockWithBinary::new; Lengths, Offsets and Addresses are about them.
--   Convert has the entries of TransactionWithBinary::new and Owners is about them.
-- - Stream: src/source/stream.rs. Slot has SlotInfo, Poll the updates and poll_next; Once, Blocks and
--   Complete are about the blocks that are reported, Made, Received, Entries, History and Whole about
--   what they are made of.
-- - Processed: src/storage/read.rs, StorageProcessed. State has its operations, Statuses the requests
--   for statuses of signatures and Answers those of the transactions of a new block; Heights and Recent are about runs of messages and the recent blocks.
-- - Http: src/storage/write.rs, HttpBlocks. Fetch has the task of one request with its retries, Requests
--   the slots in progress.
-- - Prelude: lists over the native numbers, signed integers, results, indices that go round, and
--   maps as lists in key order.
--
-- State and errors. A method on `&mut self` is a function from the record before to the record after,
-- with its result; where the state is left changed by a failing call, the function returns it. An
-- `anyhow` error is a constructor or `none`, a panic is a constructor. Messages that a call sends are a
-- list in the record. Numbers are natural numbers; where the source casts or saturates, so does the
-- model.
--
-- Loops. A loop around the ring has the number of places as fuel, and every such loop visits a place
-- at most once. The search for a file has the number of files. The walk over parents in
-- `pop_confirmed` has one round more than the index it starts at, and a parent is at a lower
-- index. The loop that makes room for a new block has the number of places and one more, and every
-- round takes a block away. The retries of a fetch are its fuel, as in the source. Other loops follow
-- their lists.
--
-- Parameters. The varints of prost and the serialization of bincode are records with their round
-- trips as laws (Codec.Reader); the program id test, the decoding of an instruction and the limits of
-- the Solana crates are arguments (Fees.Budget); whether a write reaches the disk is an argument of
-- the writes (Files.File), and whether a write request succeeds one of the calls (Store.Write). The
-- encoding functions of prost are a record with their lengths as laws (Source.Encode); the conversion
-- of a received transaction or reward is an argument (Stream.Poll), and so is the parsing of an owner
-- (Source.Convert).
--
-- Not modelled: the select loops of the threads (src/storage/read.rs, src/storage/write.rs) and the
-- requests of the readers other than that for statuses, the iterators of RocksDB that serve reads,
-- the HTTP client (src/source/http.rs) and the restarts of the stream (src/storage/source.rs), the RPC
-- servers (src/rpc), configuration, metrics and the binaries. Of the modelled files: opening the files,
-- the inflation rewards of an epoch, the hashes of the keys, which fee a transaction has, and which
-- addresses it names.
pub mod Prelude
pub mod Slots
pub mod Blocks
pub mod Files
pub mod Memory
pub mod Codec
pub mod Fees
pub mod Store
pub mod Source
pub mod Stream
pub mod Processed
pub mod Http
