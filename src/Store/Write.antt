-- ===== src/Store/Write.antt =====
-- `RocksdbWrite` (src/storage/rocksdb.rs): pushes and pops of blocks. The requests of a call are
-- answered before it returns, so they stand in order; the two sides of `try_join!` write to a file and
-- to other rows than any removal, and stand one after the other. After an error the writer ends, so no
-- state is returned with one.
use alpamayo.Prelude.{
  ℕ, zero, suc, ◌+◌, ◌-◌, ◌%◌, ◌^◌, Option, none, some, Bool, true, false, [], ◌∷◌, ◌++◌, ◌==◌,
  if◌then◌else◌, length, Result, ok, err,
}
use alpamayo.Blocks.Block.{VecSide, back, front, StoredBlock}
use alpamayo.Blocks.Write.{
  StoredBlocksWrite, Error, pop_back, pop_front, get_back_slot, get_front_slot, get_back_height,
  get_front_height, is_full, push_block_back_dead, push_block_back_confirmed, push_block_front_dead,
  push_block_front_confirmed, pop_block_back, pop_block_front,
}
use alpamayo.Files.File
use alpamayo.Files.File.{StorageFilesWrite, FileError, push_block}
use alpamayo.Store.Db.{BlockWithBinary, Db, add_indexes, slot_add, remove_slot}

pub data StoreError : Type 0 where
  invalid_slot invalid_height missing_height no_blocks slot_not_found database out_of_fuel :
      StoreError
  ring_error : Error → StoreError
  file_error : FileError → StoreError

pub record Store (E : Type 0) : Type 0 where
  pub ring : StoredBlocksWrite
  pub files : StorageFilesWrite
  pub db : Db E

-- Whether the writes of a call succeed: to the file, and the three kinds of request to RocksDB.
pub record Io : Type 0 where
  pub file : Bool
  pub indexes : Bool
  pub slot : Bool
  pub removal : Bool

infixl 5 ◌>>=◌ ◌>>◌
abbrev pub ◌>>=◌ {ℓ κ} :
    {A : Type ℓ} {B : Type κ}
    → Result StoreError A
    → (A → Result StoreError B)
    → Result StoreError B
ok a >>= f = f a
err e >>= f = err e

abbrev pub ◌>>◌ {ℓ} :
    {B : Type ℓ} → Result StoreError (Unit {0}) → Result StoreError B → Result StoreError B
m >> k = m >>= λ _. k

abbrev pub ensure : Bool → StoreError → Result StoreError (Unit {0})
ensure true e = ok tt
ensure false e = err e

abbrev pub from_option {ℓ} : {A : Type ℓ} → Option A → StoreError → Result StoreError A
from_option none e = err e
from_option (some a) e = ok a

abbrev pub from_ring {ℓ} : {A : Type ℓ} → Result Error A → Result StoreError A
from_ring (ok a) = ok a
from_ring (err e) = err (ring_error e)

abbrev pub from_files {ℓ} : {A : Type ℓ} → Result FileError A → Result StoreError A
from_files (ok a) = ok a
from_files (err e) = err (file_error e)

-- A call on the ring that returns the new ring and its result.
abbrev pub ring_after :
    StoredBlocksWrite × Result Error (Unit {0}) → Result StoreError StoredBlocksWrite
ring_after (ring, ok _) = ok ring
ring_after (ring, err e) = err (ring_error e)

-- The `u64` below; 0 wraps.
abbrev pub below_u64 : ℕ → ℕ
below_u64 slot = (slot + (2 ^ 64 - 1)) % 2 ^ 64

-- The checks of the slot and of the height, against the end that the block goes to.
unfoldable pub check_slot : Option ℕ → ℕ → Result StoreError (Unit {0})
check_slot none slot = ok tt
check_slot (some expected) slot = ensure (expected == slot) invalid_slot

unfoldable pub pop_ring : VecSide → StoredBlocksWrite → StoredBlocksWrite × Option StoredBlock
pop_ring back ring =
    let (r, b) = pop_block_back ring in (record r { sync_tx = r.sync_tx ++ (pop_back ∷ []) }, b)
pop_ring front ring =
    let (r, b) = pop_block_front ring in (record r { sync_tx = r.sync_tx ++ (pop_front ∷ []) }, b)

unfoldable pub pop_files :
    StoredBlock → VecSide → StorageFilesWrite → Result StoreError StorageFilesWrite
pop_files block side files =
    let (f, r) = File.pop_block block side files in
    if block.size == 0 then ok files else (from_files r >>= λ _. ok f)

module _ {E : Type 0} where
  unfoldable pub check_height :
      VecSide → Option (ℕ × ℕ) → Option (BlockWithBinary E) → Result StoreError (Unit {0})
  check_height side none block = ok tt
  check_height side (some _) none = ok tt
  check_height side (some (slot, height)) (some block) = do
    own ← from_option block.block_height missing_height
    ensure (elim side [ back ↦ own + 1 == height | front ↦ height + 1 == own ]) invalid_height

  -- `RocksdbWrite::pop_block`. The message is sent only if there was a block.
  unfoldable pub pop_block : VecSide → Io → Store E → Result StoreError (Store E)
  unfolding pop_ring pop_files
  pop_block side io s =
      let (ring, popped) = pop_ring side s.ring in
      do
        block ← from_option popped no_blocks
        ensure io.removal database
        db ← from_option (remove_slot block.slot block.dead s.db) slot_not_found
        files ← pop_files block side s.files
        ok (record { ring = ring; files = files; db = db })

  -- `SlotAdd` and the push into the ring.
  unfoldable pub store_dead : VecSide → ℕ → Io → Store E → Result StoreError (Store E)
  store_dead side slot io s = do
    ensure io.slot database
    ring ← ring_after (elim side [
      | back ↦ push_block_back_dead slot s.ring
      | front ↦ push_block_front_dead slot s.ring
    ])
    ok (record s { ring = ring; db = slot_add slot none s.db })

  unfoldable pub store_block :
      VecSide → ℕ → BlockWithBinary E → ℕ → ℕ → Io → Store E → Result StoreError (Store E)
  store_block side slot block storage_id offset io s = do
    ensure io.slot database
    ring ← ring_after (elim side [
      | back ↦
          push_block_back_confirmed slot block.block_time block.block_height storage_id offset
            block.len s.ring
      | front ↦
          push_block_front_confirmed slot block.block_time block.block_height storage_id offset
            block.len s.ring
    ])
    ok (record s { ring = ring; db = slot_add slot (some (block, storage_id, offset)) s.db })

  -- The result says whether the block was stored. A block that finds no room in the files leaves its
  -- indexes behind.
  unfoldable pub push_block_back :
      ℕ → Option (BlockWithBinary E) → Io → Store E → Result StoreError (Store E × Bool)
  unfolding check_slot check_height store_dead store_block
  push_block_back slot block io s = do
    check_slot (elim (get_back_slot s.ring) [ none ↦ none | some low ↦ some (below_u64 low) ]) slot
    height ← from_ring (get_back_height s.ring)
    check_height back height block
    if is_full s.ring then ok (s, false) else elim block [
      | none ↦ store_dead back slot io s >>= λ t. ok (t, true)
      | some block ↦
          let (files, written) = push_block block.len io.file back s.files in
          from_files written >>= λ location. ensure io.indexes database >> elim location [
            | none ↦ ok (record s { files = files; db = add_indexes slot block s.db }, false)
            | some (storage_id, offset) ↦
                store_block back slot block storage_id offset io
                  (record s { files = files; db = add_indexes slot block s.db })
                >>= λ t. ok (t, true)
          ]
    ]

  -- The loop of `push_block_front`: blocks leave at the back until a file has room.
  unfoldable pub make_room : ℕ → ℕ → Io → Store E → Result StoreError (Store E × ℕ × ℕ)
  unfolding pop_block
  make_room zero len io s = err out_of_fuel
  make_room (suc fuel) len io s =
      let (files, written) = push_block len io.file front s.files in
      from_files written >>= λ location. elim location [
        | some (storage_id, offset) ↦ ok (record s { files = files }, storage_id, offset)
        | none ↦ pop_block back io (record s { files = files }) >>= λ t. make_room fuel len io t
      ]

  unfoldable pub push_block_front :
      ℕ → Option (BlockWithBinary E) → Io → Store E → Result StoreError (Store E)
  unfolding check_slot check_height pop_block store_dead store_block make_room
  push_block_front slot block io s = do
    check_slot (elim (get_front_slot s.ring) [ none ↦ none | some high ↦ some (high + 1) ]) slot
    height ← from_ring (get_front_height s.ring)
    check_height front height block
    s ← if is_full s.ring then pop_block back io s else ok s
    elim block [
      | none ↦ store_dead front slot io s
      | some block ↦ do
        (t, storage_id, offset) ← make_room (length s.ring.blocks + 1) block.len io s
        ensure io.indexes database
        store_block front slot block storage_id offset io
            (record t { db = add_indexes slot block t.db })
    ]
