-- ===== src/Store/Tests.antt =====
-- `RocksdbWrite` (src/storage/rocksdb.rs) at a concrete store.
use alpamayo.Prelude.{ℕ, ◌≡◌, ◌≢◌, refl, true, some, none, List, [], ◌∷◌, arith, length, ok, err}
use alpamayo.Prelude.Cyclic.{cyc, window}
use alpamayo.Slots.Stored.{slots_default}
use alpamayo.Blocks.Block.{front, StoredBlock}
use alpamayo.Blocks.Write.{
  get_back_slot, get_front_slot, get_back_height, get_front_height, scan_back, is_full,
  push_block_back_dead, push_block_back_confirmed, push_block_back2, push_block_front_confirmed,
  push_block_front2, pop_block_back, pop_block_front, update_total, StoredBlocksWrite, new,
}
use alpamayo.Blocks.Ring.{contents}
use alpamayo.Blocks.Scan.{ring_of}
use alpamayo.Blocks.Tests.{b10, b11, wrapped, wrapped-Holds}
use alpamayo.Files.File
use alpamayo.Files.File.{StorageFilesWrite, push_block}
use alpamayo.Prelude.TreeMap.{get}
use alpamayo.Store.Db.{remove_slot, slot_add, BlockWithBinary, spawn_slots}
use alpamayo.Store.Write.{pop_block, out_of_fuel, Store, Io, push_block_back, push_block_front}
use alpamayo.Store.Agree.{value_of}
use alpamayo.Store.Pops.{Stores}
use alpamayo.Store.Runs.{Added, AfterBack, push_block_back-AfterBack}
use alpamayo.Store.FrontRuns.{EndOf, push_block_front-Added}
use alpamayo.Store.Room.{push_block_front_ends}
use alpamayo.Store.Restart.{Call, push_back, push_front, pop, run_calls, restart}

abbrev io : Io
io = record { file = true; indexes = true; slot = true; removal = true }

abbrev block : ℕ → ℕ → BlockWithBinary Unit
block height len = record {
  block_time = none;
  block_height = some height;
  len = len;
  txs_offset = [];
  sfa = [];
}

-- A file of 120 bytes with the blocks of the slots 10 and 11.
abbrev one_file : StorageFilesWrite
one_file = record {
  files = record { id = 1; tail = 0; head = 110; size = 120; new_blocks = true } ∷ [];
  id2file = (1, 0) ∷ [];
  next_file = 0;
}

abbrev two_blocks : Store Unit
two_blocks = record {
  ring = wrapped;
  files = one_file;
  db = record {
    slot_basic_index = (10, value_of b10) ∷ (11, value_of b11) ∷ [];
    slot_extra_index =
        (10, record { transactions = []; sfa = [] })
        ∷ (11, record { transactions = []; sfa = [] })
        ∷ [];
    tx_index = [];
    sfa_index = [];
  };
}

two_blocks-Stores : Stores two_blocks 3 (b10 ∷ b11 ∷ [])
unfolding contents window cyc
two_blocks-Stores = (
  record {
    first = 10;
    holds = wrapped-Holds;
    run_is = refl;
    run = (refl, refl, (refl, refl, tt));
    rows_are = refl;
    below = omega arith;
  },
  refl,
)

-- The block of slot 10 leaves before one of 45 bytes.
abbrev pushed_front : Store Unit
pushed_front = elim (push_block_front 12 (some (block 9 45)) io two_blocks) [
  | ok t ↦ t
  | err e ↦ two_blocks
]

front_runs : push_block_front 12 (some (block 9 45)) io two_blocks ≡ ok pushed_front
unfolding push_block_front get_front_slot get_front_height is_full push_block
    push_block_front_confirmed push_block_front2 pop_block_back remove_slot get File.pop_block
front_runs = refl

push_block_front-Added_example :
    (rest : List StoredBlock) × EndOf rest (b10 ∷ b11 ∷ [])
    × Added front 12 (some (block 9 45)) pushed_front 3 rest
push_block_front-Added_example =
    push_block_front-Added 12 (some (block 9 45)) io two_blocks (b10 ∷ b11 ∷ []) two_blocks-Stores
      (omega arith) front_runs

push_block_front_ends_example :
    push_block_front 12 (some (block 9 45)) io two_blocks ≢ err out_of_fuel
push_block_front_ends_example =
    push_block_front_ends 12 (some (block 9 45)) io two_blocks (b10 ∷ b11 ∷ []) two_blocks-Stores

abbrev pushed_back : Store Unit
pushed_back = elim (push_block_back 9 (some (block 6 6)) io two_blocks) [
  | ok (t, _) ↦ t
  | err e ↦ two_blocks
]

back_runs : push_block_back 9 (some (block 6 6)) io two_blocks ≡ ok (pushed_back, true)
unfolding push_block_back get_back_slot scan_back get_back_height is_full push_block
    push_block_back_confirmed push_block_back2
back_runs = refl

push_block_back-AfterBack_example :
    AfterBack 9 (some (block 6 6)) 3 (b10 ∷ b11 ∷ []) pushed_back true
push_block_back-AfterBack_example =
    push_block_back-AfterBack 9 (some (block 6 6)) io two_blocks (b10 ∷ b11 ∷ []) two_blocks-Stores
      (omega arith) back_runs

abbrev calls : List (Call Unit)
calls = push_back 9 none io ∷ pop front io ∷ push_front 11 (some (block 8 20)) io ∷ []

abbrev at_stop : Store Unit
at_stop = elim (run_calls calls two_blocks) [ ok t ↦ t | err e ↦ two_blocks ]

calls_run : run_calls calls two_blocks ≡ ok at_stop
unfolding run_calls push_block_back get_back_slot scan_back get_back_height is_full
    push_block_back_dead push_block_back2 pop_block pop_block_front update_total remove_slot get
    slot_add File.pop_block push_block_front get_front_slot get_front_height push_block
    push_block_front_confirmed push_block_front2
calls_run = refl

restart_example :
    (bs : List StoredBlock) × (ring : StoredBlocksWrite) × (contents
        (ring_of at_stop.ring)
        (length bs)
      ≡ bs)
    × (spawn_slots at_stop.db ≡ some bs)
    × (new bs 3 slots_default [] ≡ ok ring)
    × Stores (record at_stop { ring = ring }) 3 bs
restart_example =
    restart calls two_blocks 3 (b10 ∷ b11 ∷ []) slots_default [] two_blocks-Stores
      (omega arith, (omega arith, tt)) calls_run
