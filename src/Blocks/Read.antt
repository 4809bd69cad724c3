-- ===== src/Blocks/Read.antt =====
-- `StoredBlocksRead` (src/storage/blocks.rs): the replica of the ring in a reader thread.
use alpamayo.Prelude.{
  ◌*◌, ℕ, zero, suc, ◌+◌, ◌-◌, ◌%◌, ◌^◌, Option, none, some, Bool, false, not, ◌&&◌, ◌||◌, List, [],
  ◌∷◌, ◌++◌, ltb, leb, ◌==◌, if◌then◌else◌, length, set, Result, ok, err, min, reverse, find,
}
use alpamayo.Prelude.Int.{ℤ, ltb_ℤ, leb_ℤ}
use mathlib.Core.Option
use alpamayo.Blocks.Block.{StoredBlock, new_noexists}
use alpamayo.Blocks.Write.{StoredBlocksWrite, at, next, prev, is_confirmed}

-- A key of `block_time_index`; the index is the list of its keys in the order of `BTreeMap`.
abbrev pub Key : Type 0
Key = ℤ × ℕ

abbrev pub key_lt : Key → Key → Bool
key_lt (t, s) (u, v) = ltb_ℤ t u || (leb_ℤ t u && ltb s v)

unfoldable pub key_insert : Key → List Key → List Key
key_insert k [] = k ∷ []
key_insert k (x ∷ xs) =
    let rest = key_insert k xs in
    if key_lt k x then k ∷ x ∷ xs else if key_lt x k then x ∷ rest else k ∷ xs

unfoldable pub key_remove : Key → List Key → List Key
key_remove k [] = []
key_remove k (x ∷ xs) =
    let rest = key_remove k xs in if key_lt k x || key_lt x k then x ∷ rest else rest

pub record StoredBlocksRead : Type 0 where
  pub blocks : List StoredBlock
  pub tail : ℕ
  pub head : ℕ
  pub block_time_index : List Key

abbrev pub index_add : Option ℤ → ℕ → List Key → List Key
index_add none slot index = index
index_add (some bt) slot index = key_insert (bt, slot) index

abbrev pub index_drop : Option ℤ → ℕ → List Key → List Key
index_drop none slot index = index
index_drop (some bt) slot index = key_remove (bt, slot) index

-- The loop of `to_read`, from `idx` to the head.
unfoldable pub to_read_loop : ℕ → List StoredBlock → ℕ → ℕ → List Key → List Key
to_read_loop zero blocks head idx index = index
to_read_loop (suc fuel) blocks head idx index =
    let block = at blocks idx in
    let index' =
      if is_confirmed block then index_add block.block_time block.slot index else index in
    let rest = to_read_loop fuel blocks head (next (length blocks) idx) index' in
    if idx == head then index' else rest

-- `StoredBlocksWrite::to_read`
unfoldable pub to_read : StoredBlocksWrite → StoredBlocksRead
unfolding to_read_loop
to_read s = record {
  blocks = s.blocks;
  tail = s.tail;
  head = s.head;
  block_time_index =
      if (at s.blocks s.tail).exists
      then to_read_loop (length s.blocks) s.blocks s.head s.tail []
      else [];
}

unfoldable pub pop_block_back : StoredBlocksRead → StoredBlocksRead
pop_block_back s =
    let old = at s.blocks s.tail in
    record {
      blocks = set s.blocks s.tail new_noexists;
      tail = next (length s.blocks) s.tail;
      head = s.head;
      block_time_index =
          if old.exists && not old.dead
          then index_drop old.block_time old.slot s.block_time_index
          else s.block_time_index;
    }

unfoldable pub pop_block_front : StoredBlocksRead → StoredBlocksRead
pop_block_front s =
    let old = at s.blocks s.head in
    record {
      blocks = set s.blocks s.head new_noexists;
      tail = s.tail;
      head = prev (length s.blocks) s.head;
      block_time_index =
          if old.exists && not old.dead
          then index_drop old.block_time old.slot s.block_time_index
          else s.block_time_index;
    }

-- `StoredBlockPushSync` is a block.
unfoldable pub push_block_back : StoredBlock → StoredBlocksRead → StoredBlocksRead
push_block_back block s =
    let tail = prev (length s.blocks) s.tail in
    record {
      blocks = set s.blocks tail block;
      tail = tail;
      head = s.head;
      block_time_index =
          if not block.dead
          then index_add block.block_time block.slot s.block_time_index
          else s.block_time_index;
    }

unfoldable pub push_block_front : StoredBlock → StoredBlocksRead → StoredBlocksRead
push_block_front block s =
    let head = next (length s.blocks) s.head in
    record {
      blocks = set s.blocks head block;
      tail = s.tail;
      head = head;
      block_time_index =
          if not block.dead
          then index_add block.block_time block.slot s.block_time_index
          else s.block_time_index;
    }

abbrev pub slot_max : ℕ
slot_max = 2 ^ 64 - 1

-- `range((gte, 0)..).next()` and `range(..=(lte, Slot::MAX)).next_back()`
unfoldable pub block_time_to_slot_lower : ℤ → StoredBlocksRead → Option ℕ
block_time_to_slot_lower gte s =
    Option.map (λ (k : Key). k.1) (find (λ k. not (key_lt k (gte, 0))) s.block_time_index)

unfoldable pub block_time_to_slot_upper : ℤ → StoredBlocksRead → Option ℕ
block_time_to_slot_upper lte s =
    Option.map (λ (k : Key). k.1)
      (find (λ k. not (key_lt (lte, slot_max) k)) (reverse s.block_time_index))

unfoldable pub get_back_slot : StoredBlocksRead → Option ℕ
get_back_slot s = let tail = at s.blocks s.tail in if tail.exists then some tail.slot else none

pub data StorageBlockLocationResult : Type 0 where
  removed dead not_available slot_mismatch : StorageBlockLocationResult
  found : StoredBlock → StorageBlockLocationResult

unfoldable pub get_block_location : ℕ → StoredBlocksRead → StorageBlockLocationResult
get_block_location slot s =
    let tail = at s.blocks s.tail in
    let head = at s.blocks s.head in
    let block = at s.blocks ((s.tail + (slot - tail.slot)) % length s.blocks) in
    if not tail.exists || ltb slot tail.slot
    then removed
    else if not head.exists || ltb head.slot slot
    then not_available
    else if block.exists && block.slot == slot
    then (if block.dead then dead else found block)
    else slot_mismatch

-- `RpcRequestBlocksUntil` (src/rpc/api_jsonrpc.rs)
pub data RpcRequestBlocksUntil : Type 0 where
  end_slot limit : ℕ → RpcRequestBlocksUntil

pub data GetBlocksError : Type 0 where
  start_slot_removed end_slot_out_of_limit capacity_overflow : GetBlocksError

abbrev pub scan_end : RpcRequestBlocksUntil → ℕ → ℕ
scan_end (end_slot requested) last = min last requested
scan_end (limit _) last = last

abbrev pub limit_reached : RpcRequestBlocksUntil → ℕ → Bool
limit_reached (end_slot _) count = false
limit_reached (limit n) count = count == n

-- The loop of `get_blocks`; the fuel is the number of places.
unfoldable pub get_blocks_loop :
    ℕ → List StoredBlock → ℕ → RpcRequestBlocksUntil → ℕ → List ℕ → ℕ → List ℕ
get_blocks_loop zero blocks head until last acc index = acc
get_blocks_loop (suc fuel) blocks head until last acc index =
    let block = at blocks index in
    let acc' = if block.dead then acc else acc ++ (block.slot ∷ []) in
    let rest = get_blocks_loop fuel blocks head until last acc' (next (length blocks) index) in
    if not block.exists || ltb last block.slot
    then acc
    else if limit_reached until (length acc)
    then acc
    else if index == head
    then acc'
    else rest

-- The capacity that is asked for. With the requested end below the start the subtraction goes round,
-- as in a build without overflow checks.
abbrev pub capacity : RpcRequestBlocksUntil → ℕ → ℕ
capacity (end_slot requested) start =
    if ltb requested start then 2 ^ 64 + requested - start else requested - start
capacity (limit n) start = n

-- `with_capacity` panics when the slots, of 8 bytes each, are more than `isize::MAX` bytes. It is
-- called after the checks.
unfoldable pub get_blocks :
    ℕ → ℕ → RpcRequestBlocksUntil → StoredBlocksRead → Result GetBlocksError (List ℕ)
get_blocks start last until s =
    let tail = at s.blocks s.tail in
    let head = at s.blocks s.head in
    let slots =
      get_blocks_loop (length s.blocks) s.blocks s.head until (scan_end until last) []
        ((s.tail + (start - tail.slot)) % length s.blocks) in
    if not (tail.exists && leb tail.slot start)
    then err start_slot_removed
    else if not (head.exists && leb last head.slot)
    then err end_slot_out_of_limit
    else if ltb (2 ^ 63 - 1) (8 * capacity until start)
    then err capacity_overflow
    else ok slots
