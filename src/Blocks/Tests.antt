-- ===== src/Blocks/Tests.antt =====
-- src/storage/blocks.rs at concrete rings, and the theorems at inputs that meet their hypotheses.
use alpamayo.Prelude.{
  ℕ, zero, suc, ◌<◌, ◌≤◌, ◌≡◌, refl, some, true, false, ◌&&◌, [], ◌∷◌, ◌++◌, arith, length, reverse,
  take, drop, filter, find, ◌==◌, if◌then◌else◌, ok,
}
use alpamayo.Prelude.Int.{pos}
use alpamayo.Prelude.Cyclic.{cyc, window}
use alpamayo.Slots.Stored.{slots_default}
use alpamayo.Blocks.Block.{back, front, StoredBlock, new_noexists, new_dead, new_confirmed}
use alpamayo.Blocks.Write.{
  StoredBlocksWrite, next, push_front, new, get_recent_blocks, get_back_slot, get_front_slot,
  is_full, push_block_front2, slot_and_height, is_confirmed, get_back_height, get_front_height,
}
use alpamayo.Blocks.Read
use alpamayo.Blocks.Read.{StoredBlocksRead, to_read, get_block_location, block_time_to_slot_lower}
use alpamayo.Blocks.Ring.{nth, Holds, contents}
use alpamayo.Blocks.Ends.{add_front}
use alpamayo.Blocks.Scan.{ring_of, ends-eq}
use alpamayo.Blocks.Recent.{is_alive, get_recent_blocks-eq}
use alpamayo.Blocks.Push.{Pushed, push_block_front2-Pushed}
use alpamayo.Blocks.Refine.{push, pop, dead, run, queue_run, Agrees, run-refines}
use alpamayo.Blocks.Load.{Contiguous, new-loads}
use alpamayo.Blocks.Mirror.{Mirrors, apply, push_front-Mirrors}
use alpamayo.Blocks.ToRead.{to_read-Mirrors}
use alpamayo.Blocks.Location.{replica_ring, locate, get_block_location-locate}
use alpamayo.Blocks.Lower.{LowestFrom, block_time_to_slot_lower-LowestFrom}

abbrev pub b10 : StoredBlock
b10 = new_confirmed 10 (some (pos 1000)) (some 7) 1 0 50

abbrev pub b11 : StoredBlock
b11 = new_confirmed 11 (some (pos 1001)) (some 8) 1 50 60

abbrev b12 : StoredBlock
b12 = new_dead 12

-- Slot 10 stands at index 2 and slot 11 at index 0.
abbrev pub wrapped : StoredBlocksWrite
wrapped = record {
  blocks = b11 ∷ new_noexists ∷ b10 ∷ [];
  tail = 2;
  head = 0;
  stored_slots = slots_default;
  sync_tx = [];
}

pub wrapped-Holds : Holds (ring_of wrapped) 2
unfolding cyc
wrapped-Holds = record {
  tail_in = omega arith;
  head_in = omega arith;
  count = omega arith;
  ends = refl;
  live = live;
  free = free;
}
  where
    live : (i : ℕ) → i < 2 → (nth (ring_of wrapped) i).exists ≡ true
    live zero h = refl
    live (suc zero) h = refl
    live (suc (suc i)) h = absurd (omega arith)

    free : (i : ℕ) → 2 ≤ i → i < 3 → (nth (ring_of wrapped) i).exists ≡ false
    free zero h l = absurd (omega arith)
    free (suc zero) h l = absurd (omega arith)
    free (suc (suc zero)) h l = refl
    free (suc (suc (suc i))) h l = absurd (omega arith)

wrapped_run : contents (ring_of wrapped) 2 ≡ b10 ∷ b11 ∷ []
unfolding contents window cyc
wrapped_run = refl

wrapped-Contiguous : Contiguous 10 (contents (ring_of wrapped) 2)
unfolding contents window cyc
wrapped-Contiguous = (refl, refl, (refl, refl, tt))

wrapped_mirror : Mirrors wrapped (to_read wrapped) 2
wrapped_mirror = to_read-Mirrors wrapped 2 wrapped-Holds

run-refines_example :
    Agrees
      (run wrapped (push front (dead 12) ∷ pop back ∷ []))
      (queue_run 3 (contents (ring_of wrapped) 2) (push front (dead 12) ∷ pop back ∷ []))
run-refines_example = run-refines (push front (dead 12) ∷ pop back ∷ []) wrapped 2 wrapped-Holds

push_block_front2-Pushed_example :
    let (s', r) = push_block_front2 b12 wrapped in
    (r ≡ ok tt)
    × Pushed wrapped s' 2
        (add_front (ring_of wrapped) b12)
        (contents (ring_of wrapped) 2 ++ (b12 ∷ []))
        (push_front b12)
        (if 2 == 0 && next 3 0 == 0 then 12 else (wrapped.stored_slots).first_available)
push_block_front2-Pushed_example =
    push_block_front2-Pushed b12 wrapped wrapped-Holds refl (omega arith)

-- With all three places taken.
abbrev full : StoredBlocksWrite
full = record wrapped { blocks = b11 ∷ b12 ∷ b10 ∷ []; head = 1 }

full-Holds : Holds (ring_of full) 3
unfolding cyc
full-Holds = record {
  tail_in = omega arith;
  head_in = omega arith;
  count = omega arith;
  ends = refl;
  live = live;
  free = λ i h l. absurd (omega arith);
}
  where
    live : (i : ℕ) → i < 3 → (nth (ring_of full) i).exists ≡ true
    live zero h = refl
    live (suc zero) h = refl
    live (suc (suc zero)) h = refl
    live (suc (suc (suc i))) h = absurd (omega arith)

ends-eq_example :
    let q = contents (ring_of wrapped) 2 in
    (get_back_slot wrapped ≡ some 10)
    × (get_front_slot wrapped ≡ some 11)
    × (get_back_height wrapped ≡ slot_and_height (find is_confirmed q))
    × (get_front_height wrapped ≡ slot_and_height (find is_confirmed (reverse q)))
    × (is_full wrapped ≡ false)
ends-eq_example = ends-eq wrapped 2 wrapped-Holds

get_recent_blocks-eq_example :
    get_recent_blocks 150 wrapped
    ≡ reverse (take 150 (filter is_alive (reverse (drop 1 (contents (ring_of wrapped) 2)))))
get_recent_blocks-eq_example = get_recent_blocks-eq wrapped 150 wrapped-Holds

-- The block at the tail is left out.
recent_without_tail : get_recent_blocks 150 wrapped ≡ b11 ∷ []
unfolding get_recent_blocks
recent_without_tail = refl

new-loads_example :
    (s : StoredBlocksWrite) × (new (b10 ∷ b11 ∷ []) 4 slots_default [] ≡ ok s)
    × Holds (ring_of s) 2
    × (contents (ring_of s) 2 ≡ b10 ∷ b11 ∷ [])
    × (length s.blocks ≡ 4)
    × (s.stored_slots.first_available ≡ 10)
    × (s.sync_tx ≡ [])
new-loads_example =
    new-loads 10 4 (b10 ∷ b11 ∷ []) slots_default [] (refl, refl, (refl, refl, tt)) (omega arith)
      (omega arith)

to_read-Mirrors_example : Mirrors wrapped (to_read wrapped) 2
to_read-Mirrors_example = to_read-Mirrors wrapped 2 wrapped-Holds

push_front-Mirrors_example :
    Mirrors (push_block_front2 b12 wrapped).0 (apply (push_front b12) (to_read wrapped)) 3
push_front-Mirrors_example =
    push_front-Mirrors b12 wrapped (to_read wrapped) 2 wrapped-Holds refl (omega arith)
      wrapped_mirror

abbrev replica : StoredBlocksRead
replica = record {
  blocks = wrapped.blocks;
  tail = 2;
  head = 0;
  block_time_index = (pos 1000, 10) ∷ (pos 1001, 11) ∷ [];
}

replica_is : to_read wrapped ≡ replica
unfolding to_read Read.key_insert
replica_is = refl

get_block_location-locate_example :
    get_block_location 11 replica ≡ locate 10 (contents (replica_ring replica) 2) 11
get_block_location-locate_example =
    get_block_location-locate replica 2 10 11 wrapped-Holds wrapped-Contiguous

block_time_to_slot_lower-LowestFrom_example :
    LowestFrom
      (pos 1001)
      (contents (ring_of wrapped) 2)
      (block_time_to_slot_lower (pos 1001) (to_read wrapped))
block_time_to_slot_lower-LowestFrom_example =
    block_time_to_slot_lower-LowestFrom (pos 1001) (to_read wrapped) (contents (ring_of wrapped) 2)
      wrapped_mirror.times
