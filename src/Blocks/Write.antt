-- ===== src/Blocks/Write.antt =====
-- `StoredBlocksWrite` (src/storage/blocks.rs). A method with `&mut self` returns the new state. The
-- broadcast channel is the list of the messages sent on it, oldest first.
use alpamayo.Prelude.{
  ℕ, zero, suc, ◌+◌, ◌-◌, ◌%◌, Option, none, some, Bool, true, false, not, ◌&&◌, ◌||◌, List, [],
  ◌∷◌, ◌++◌, reverse, ltb, leb, ◌==◌, if◌then◌else◌, length, get_or, set, replicate, Result, ok,
  err, unwrap_or,
}
use alpamayo.Prelude.Int.{ℤ}
use alpamayo.Prelude.TreeMap.{get, insert}
use mathlib.Core.Option
use alpamayo.Slots.Stored.{StoredSlots, first_available_store, set_total}
use alpamayo.Blocks.Block.{
  VecSide, back, front, StoredBlock, new_noexists, new_dead, new_confirmed, StorageBlocksBoundaries,
  no_boundaries, update,
}

-- The messages of `ReadWriteSyncMessage` (src/storage/sync.rs) that carry changes of the ring.
pub data RingMessage : Type 0 where
  pop_back pop_front : RingMessage
  push_back push_front : StoredBlock → RingMessage

pub record StoredBlocksWrite : Type 0 where
  pub blocks : List StoredBlock
  pub tail : ℕ
  pub head : ℕ
  pub stored_slots : StoredSlots
  pub sync_tx : List RingMessage

-- `anyhow` errors and panics of this file.
pub data Error : Type 0 where
  shrinking no_free_slot_back no_free_slot_front should_have_height index_out_of_bounds : Error

-- `self.blocks[index]`; every index stays below the length (`Ring.IsValid`).
abbrev pub at : List StoredBlock → ℕ → StoredBlock
at blocks index = get_or blocks index new_noexists

-- `(index + 1) % len` and `index.checked_sub(1).unwrap_or(len - 1)`
abbrev pub next : ℕ → ℕ → ℕ
next n index = (index + 1) % n

abbrev pub prev : ℕ → ℕ → ℕ
prev n index = if index == 0 then n - 1 else index - 1

-- `min_by_key` over the blocks that exist: the index of the first of the lowest.
unfoldable pub lowest : ℕ → Option (ℕ × ℕ) → List StoredBlock → Option (ℕ × ℕ)
lowest index best [] = best
lowest index best (b ∷ bs) =
    lowest (index + 1)
      (if b.exists
        then elim best [
          | none ↦ some (index, b.slot)
          | some (i, s) ↦ if ltb b.slot s then some (index, b.slot) else some (i, s)
        ]
        else best)
      bs

-- `max_by_key`: the index of the last of the highest.
unfoldable pub highest : ℕ → Option (ℕ × ℕ) → List StoredBlock → Option (ℕ × ℕ)
highest index best [] = best
highest index best (b ∷ bs) =
    highest (index + 1)
      (if b.exists
        then elim best [
          | none ↦ some (index, b.slot)
          | some (i, s) ↦ if leb s b.slot then some (index, b.slot) else some (i, s)
        ]
        else best)
      bs

-- The loop of `get_back`, from `index` to `head`; the fuel is the number of places.
unfoldable pub scan_back : ℕ → List StoredBlock → ℕ → (StoredBlock → Bool) → ℕ → Option StoredBlock
scan_back zero blocks head filter index = none
scan_back (suc fuel) blocks head filter index =
    let rest = scan_back fuel blocks head filter (next (length blocks) index) in
    let block = at blocks index in
    if filter block then some block else if index == head then none else rest

unfoldable pub get_back : (StoredBlock → Bool) → StoredBlocksWrite → Option StoredBlock
get_back filter s =
    if (at s.blocks s.tail).exists && (at s.blocks s.head).exists
    then scan_back (length s.blocks) s.blocks s.head filter s.tail
    else none

unfoldable pub get_back_slot : StoredBlocksWrite → Option ℕ
unfolding get_back
get_back_slot s =
    Option.map (λ (b : StoredBlock). b.slot) (get_back (λ (b : StoredBlock). b.exists) s)

-- `map` with `expect("should have height")`
abbrev pub slot_and_height : Option StoredBlock → Result Error (Option (ℕ × ℕ))
slot_and_height none = ok none
slot_and_height (some b) = elim b.block_height [
  | none ↦ err should_have_height
  | some height ↦ ok (some (b.slot, height))
]

abbrev pub is_confirmed : StoredBlock → Bool
is_confirmed b = b.exists && not b.dead

unfoldable pub get_back_height : StoredBlocksWrite → Result Error (Option (ℕ × ℕ))
unfolding get_back
get_back_height s = slot_and_height (get_back is_confirmed s)

unfoldable pub get_front_slot : StoredBlocksWrite → Option ℕ
get_front_slot s = let block = at s.blocks s.head in if block.exists then some block.slot else none

-- The loop of `get_front_height`, from `index` down to `tail`.
unfoldable pub scan_front : ℕ → List StoredBlock → ℕ → ℕ → Option StoredBlock
scan_front zero blocks tail index = none
scan_front (suc fuel) blocks tail index =
    let rest = scan_front fuel blocks tail (prev (length blocks) index) in
    let block = at blocks index in
    if is_confirmed block then some block else if index == tail then none else rest

unfoldable pub get_front_height : StoredBlocksWrite → Result Error (Option (ℕ × ℕ))
unfolding scan_front
get_front_height s = slot_and_height (scan_front (length s.blocks) s.blocks s.tail s.head)

-- `MAX_RECENT_BLOCKHASHES` of the `solana_clock` crate is the argument `limit`. The blocks are
-- pushed at the end of a vector, which is then reversed.
unfoldable pub recent_loop : ℕ → List StoredBlock → ℕ → ℕ → List StoredBlock → ℕ → List StoredBlock
recent_loop zero blocks tail limit acc index = acc
recent_loop (suc fuel) blocks tail limit acc index =
    let block = at blocks index in
    let rest =
      recent_loop fuel blocks tail limit (if block.dead then acc else acc ++ (block ∷ []))
        (prev (length blocks) index) in
    if ltb (length acc) limit && not (index == tail) && block.exists then rest else acc

unfoldable pub get_recent_blocks : ℕ → StoredBlocksWrite → List StoredBlock
unfolding recent_loop
get_recent_blocks limit s = reverse (recent_loop (length s.blocks) s.blocks s.tail limit [] s.head)

unfoldable pub is_full : StoredBlocksWrite → Bool
is_full s = (at s.blocks (next (length s.blocks) s.head)).exists

unfoldable pub boundaries_loop :
    List StoredBlock → List (ℕ × StorageBlocksBoundaries) → List (ℕ × StorageBlocksBoundaries)
boundaries_loop [] m = m
boundaries_loop (b ∷ bs) m = boundaries_loop bs (
    if is_confirmed b
    then insert b.storage_id (update (unwrap_or (get b.storage_id m) no_boundaries) b) m
    else m)

unfoldable pub get_stored_boundaries : StoredBlocksWrite → List (ℕ × StorageBlocksBoundaries)
unfolding boundaries_loop
get_stored_boundaries s = boundaries_loop s.blocks []

abbrev pub is_back : VecSide → Bool
is_back back = true
is_back front = false

unfoldable pub total : StoredBlocksWrite → ℕ
total s = if leb s.tail s.head then s.head - s.tail + 1 else (length s.blocks - s.tail) + s.head + 1

unfoldable pub update_total : VecSide → StoredBlocksWrite → StoredBlocksWrite
unfolding total
update_total side s =
    let slots = set_total (total s) s.stored_slots in
    record s {
      stored_slots =
          if is_back side || (s.tail == 0 && s.head == 0)
          then first_available_store (get_back_slot s) slots
          else slots;
    }

-- The error is returned after `tail` has moved.
unfoldable pub push_block_back2 :
    StoredBlock → StoredBlocksWrite → StoredBlocksWrite × Result Error (Unit {0})
push_block_back2 block s =
    let tail = prev (length s.blocks) s.tail in
    if (at s.blocks tail).exists then (record s { tail = tail }, err no_free_slot_back) else (
      update_total back (record s {
        tail = tail;
        sync_tx = s.sync_tx ++ (push_back block ∷ []);
        blocks = set s.blocks tail block;
      }),
      ok tt,
    )

unfoldable pub push_block_back_dead :
    ℕ → StoredBlocksWrite → StoredBlocksWrite × Result Error (Unit {0})
push_block_back_dead slot s = push_block_back2 (new_dead slot) s

unfoldable pub push_block_back_confirmed :
    ℕ
    → Option ℤ
    → Option ℕ
    → ℕ
    → ℕ
    → ℕ
    → StoredBlocksWrite
    → StoredBlocksWrite × Result Error (Unit {0})
push_block_back_confirmed slot block_time block_height storage_id offset block_size s =
    push_block_back2 (new_confirmed slot block_time block_height storage_id offset block_size) s

unfoldable pub push_block_front2 :
    StoredBlock → StoredBlocksWrite → StoredBlocksWrite × Result Error (Unit {0})
push_block_front2 block s =
    let head = next (length s.blocks) s.head in
    if (at s.blocks head).exists then (record s { head = head }, err no_free_slot_front) else (
      update_total front (record s {
        head = head;
        sync_tx = s.sync_tx ++ (push_front block ∷ []);
        blocks = set s.blocks head block;
      }),
      ok tt,
    )

unfoldable pub push_block_front_dead :
    ℕ → StoredBlocksWrite → StoredBlocksWrite × Result Error (Unit {0})
push_block_front_dead slot s = push_block_front2 (new_dead slot) s

unfoldable pub push_block_front_confirmed :
    ℕ
    → Option ℤ
    → Option ℕ
    → ℕ
    → ℕ
    → ℕ
    → StoredBlocksWrite
    → StoredBlocksWrite × Result Error (Unit {0})
push_block_front_confirmed slot block_time block_height storage_id offset block_size s =
    push_block_front2 (new_confirmed slot block_time block_height storage_id offset block_size) s

unfoldable pub pop_block_back : StoredBlocksWrite → StoredBlocksWrite × Option StoredBlock
pop_block_back s =
    let block = at s.blocks s.tail in
    let s' : StoredBlocksWrite = record s {
      blocks = set s.blocks s.tail new_noexists;
      tail = next (length s.blocks) s.tail;
    } in
    if block.exists
    then (
      record s' { stored_slots = first_available_store (get_back_slot s') s'.stored_slots },
      some block,
    )
    else (s, none)

unfoldable pub pop_block_front : StoredBlocksWrite → StoredBlocksWrite × Option StoredBlock
pop_block_front s =
    let block = at s.blocks s.head in
    if block.exists
    then (
      record s { blocks = set s.blocks s.head new_noexists; head = prev (length s.blocks) s.head },
      some block,
    )
    else (s, none)

-- `blocks.resize(max, …)` after the check of the length. With `max` 0 and no block,
-- `blocks[tail]` is out of bounds.
unfoldable pub new :
    List StoredBlock → ℕ → StoredSlots → List RingMessage → Result Error StoredBlocksWrite
unfolding lowest highest
new loaded limit stored_slots sync_tx =
    let blocks = loaded ++ replicate (limit - length loaded) new_noexists in
    let s : StoredBlocksWrite = record {
      blocks = blocks;
      tail = unwrap_or (Option.map (λ p. p.0) (lowest 0 none blocks)) 0;
      head = unwrap_or (Option.map (λ p. p.0) (highest 0 none blocks)) (length blocks - 1);
      stored_slots = stored_slots;
      sync_tx = sync_tx;
    } in
    if ltb limit (length loaded)
    then err shrinking
    else if limit == 0
    then err index_out_of_bounds
    else ok (record s { stored_slots = first_available_store (get_back_slot s) stored_slots })
