-- ===== src/Blocks/Pop.antt =====
-- `StoredBlocksWrite::pop_block_back` and `pop_block_front` (src/storage/blocks.rs).
use alpamayo.Prelude.{
  ℕ, suc, ◌≡◌, refl, ap, ◌∙◌, true, none, some, ◌∷◌, ◌++◌, [], arith, ltb, if◌then◌else◌, length,
  set, unwrap_or, length-set,
}
use alpamayo.Slots.Stored.{u64_max, first_available_store}
use alpamayo.Blocks.Block.{new_noexists}
use alpamayo.Blocks.Write.{StoredBlocksWrite, at, next, pop_block_back, pop_block_front}
use alpamayo.Blocks.Ring.{Holds, contents, tail-exists, head-exists}
use alpamayo.Blocks.Ends.{
  drop_back-Holds, contents-drop_back, drop_front-Holds, contents-drop_front,
}
use alpamayo.Blocks.Scan.{ring_of, get_back_slot-eq}

-- A pop at the back takes the first block of the run, and `first_available` becomes the slot of the
-- block that is then first, or `u64::MAX` if none is left. No message is sent here.
pub pop_block_back-eq :
    (s : StoredBlocksWrite) {k : ℕ}
    → Holds (ring_of s) (suc k)
    → let (s', popped) = pop_block_back s in
      (popped ≡ some (at s.blocks s.tail))
      × Holds (ring_of s') k
      × (length s'.blocks ≡ length s.blocks)
      × (contents (ring_of s) (suc k) ≡ at s.blocks s.tail ∷ contents (ring_of s') k)
      × (s'.stored_slots.first_available
          ≡ (if ltb 0 k then (at s'.blocks s'.tail).slot else u64_max))
      × (s'.sync_tx ≡ s.sync_tx)
unfolding pop_block_back first_available_store
pop_block_back-eq s {k} h =
    let live : (at s.blocks s.tail).exists ≡ true = tail-exists h ∙ ground arith in
    let s1 : StoredBlocksWrite = record s {
      blocks = set s.blocks s.tail new_noexists;
      tail = next (length s.blocks) s.tail;
    } in
    let first = get_back_slot-eq s1 (drop_back-Holds h) in
    rw live (
      refl,
      drop_back-Holds h,
      length-set s.blocks s.tail new_noexists,
      contents-drop_back h,
      ap (λ o. unwrap_or o u64_max) first ∙ ground arith,
      refl,
    )

-- A pop at the front takes the last block of the run. It changes neither the slots nor the messages.
pub pop_block_front-eq :
    (s : StoredBlocksWrite) {k : ℕ}
    → Holds (ring_of s) (suc k)
    → let (s', popped) = pop_block_front s in
      (popped ≡ some (at s.blocks s.head))
      × Holds (ring_of s') k
      × (length s'.blocks ≡ length s.blocks)
      × (contents (ring_of s) (suc k) ≡ contents (ring_of s') k ++ (at s.blocks s.head ∷ []))
      × (s'.stored_slots ≡ s.stored_slots)
      × (s'.sync_tx ≡ s.sync_tx)
unfolding pop_block_front
pop_block_front-eq s {k} h =
    let live : (at s.blocks s.head).exists ≡ true = head-exists h ∙ ground arith in
    rw live (
      refl,
      drop_front-Holds h,
      length-set s.blocks s.head new_noexists,
      contents-drop_front h,
      refl,
      refl,
    )

-- On an empty ring both pops return nothing and change nothing.
pub pop-empty :
    (s : StoredBlocksWrite)
    → Holds (ring_of s) 0
    → (pop_block_back s ≡ (s, none)) × (pop_block_front s ≡ (s, none))
unfolding pop_block_back pop_block_front
pop-empty s h = (rw (tail-exists h), rw (head-exists h))
