-- ===== src/Blocks/Push.antt =====
-- `push_block_back2`, `push_block_front2` and `update_total` (src/storage/blocks.rs).
use alpamayo.Prelude.{
  ℕ, suc, ◌-◌, ◌<◌, ◌≡◌, refl, ap, length-set, ◌∙◌, some, true, false, ◌&&◌, ◌||◌, List, [], ◌∷◌,
  ◌++◌, arith, ◌==◌, if◌then◌else◌, inl, inr, length, set, ok, err, Bool-cases,
}
use alpamayo.Prelude.Cyclic.{cyc-cases}
use alpamayo.Slots.Stored.{first_available_store, set_total}
use alpamayo.Blocks.Block.{StoredBlock, new_noexists, VecSide, back, front}
use alpamayo.Blocks.Write.{
  RingMessage, push_back, push_front, StoredBlocksWrite, no_free_slot_back, no_free_slot_front, at,
  next, prev, total, update_total, is_back, push_block_back2, push_block_front2,
}
use alpamayo.Blocks.Ring.{
  Ring, prev-cases, next-cases, Holds, contents, head-place, next-exists, prev-exists,
  get_or-set_self,
}
use alpamayo.Blocks.Ends.{
  add_back, add_front, add_front-Holds, contents-add_front, add_back-Holds, contents-add_back,
}
use alpamayo.Blocks.Scan.{ring_of, get_back_slot-eq}

-- The gauge of `update_total` is the number of stored blocks.
total-eq : (s : StoredBlocksWrite) (k : ℕ) → Holds (ring_of s) (suc k) → total s ≡ suc k
unfolding total
total-eq s k h =
    let n = length s.blocks in
    let hd = head-place h (omega arith) in
    ground (
      arith,
      hd,
      h.count,
      h.tail_in,
      cyc-cases n s.tail (suc k - 1) h.tail_in (omega (arith, h.count)),
    )

-- `first_available` after `update_total`: the slot at the tail after a push at the back, or after
-- a push at the front if that block alone stands at index 0, and the old one otherwise.
abbrev pub first_after : VecSide → StoredBlocksWrite → ℕ
first_after side s =
    if is_back side || (s.tail == 0 && s.head == 0)
    then (at s.blocks s.tail).slot
    else s.stored_slots.first_available

update_total-eq :
    (side : VecSide) (s : StoredBlocksWrite) (k : ℕ)
    → Holds (ring_of s) (suc k)
    → let s' = update_total side s in
      (ring_of s' ≡ ring_of s)
      × (s'.sync_tx ≡ s.sync_tx)
      × (s'.stored_slots.first_available ≡ first_after side s)
      × (s'.stored_slots.metrics.total ≡ some (suc k))
unfolding update_total first_available_store set_total
update_total-eq side s k h =
    let first = get_back_slot-eq s h in
    let count = total-eq s k h in
    elim (Bool-cases (is_back side || (s.tail == 0 && s.head == 0))) [
      | inl e ↦ rw (e, first, count) (refl, refl, ground arith, refl)
      | inr e ↦ rw (e, count) (refl, refl, refl, refl)
    ]

-- What a push leaves behind: the given ring with `k + 1` blocks with the given contents, one message more, the new
-- `first_available`, and the number of blocks in the gauge.
pub record Pushed (s s' : StoredBlocksWrite) (k : ℕ) (ring : Ring) (run : List StoredBlock)
    (m : RingMessage) (first : ℕ) : Type 0 where
  pub ring_is : ring_of s' ≡ ring
  pub holds : Holds (ring_of s') (suc k)
  pub places : length s'.blocks ≡ length s.blocks
  pub run_is : contents (ring_of s') (suc k) ≡ run
  pub sent : s'.sync_tx ≡ s.sync_tx ++ (m ∷ [])
  pub first_is : s'.stored_slots.first_available ≡ first
  pub total_is : s'.stored_slots.metrics.total ≡ some (suc k)

-- With a free place, a push at the back succeeds: the block becomes the first of the run, the
-- readers are sent it, `first_available` is its slot and the gauge counts it.
pub push_block_back2-Pushed :
    (b : StoredBlock) (s : StoredBlocksWrite) {k : ℕ}
    → Holds (ring_of s) k
    → b.exists ≡ true
    → k < length s.blocks
    → let (s', r) = push_block_back2 b s in
      (r ≡ ok tt)
      × Pushed s s' k (add_back (ring_of s) b) (b ∷ contents (ring_of s) k) (push_back b) b.slot
unfolding push_block_back2
push_block_back2-Pushed b s {k} h e room =
    let n = length s.blocks in
    let tail = prev n s.tail in
    let s1 : StoredBlocksWrite = record s {
      tail = tail;
      sync_tx = s.sync_tx ++ (push_back b ∷ []);
      blocks = set s.blocks tail b;
    } in
    let kept : Holds (ring_of s1) (suc k) = add_back-Holds b h room e in
    let done = update_total-eq back s1 k kept in
    let vacant : (at s.blocks tail).exists ≡ false = prev-exists h ∙ ground (arith, room) in
    let inside : tail < n = omega (arith, prev-cases n s.tail h.tail_in, h.tail_in) in
    rw vacant (
      refl,
      record {
        ring_is = done.0;
        holds = rw done.0 kept;
        places = ap (λ (x : Ring). length x.blocks) done.0 ∙ length-set s.blocks tail b;
        run_is = rw done.0 (contents-add_back b h room);
        sent = done.1;
        first_is =
            done.2 ∙ ap StoredBlock.slot (get_or-set_self s.blocks tail b new_noexists inside);
        total_is = done.3;
      },
    )

-- With a free place, a push at the front succeeds: the block becomes the last of the run, the
-- readers are sent it, and the gauge counts it. `first_available` becomes its slot only if the
-- block and the tail both stand at index 0.
pub push_block_front2-Pushed :
    (b : StoredBlock) (s : StoredBlocksWrite) {k : ℕ}
    → Holds (ring_of s) k
    → b.exists ≡ true
    → k < length s.blocks
    → let (s', r) = push_block_front2 b s in
      (r ≡ ok tt)
      × Pushed s s' k
          (add_front (ring_of s) b)
          (contents (ring_of s) k ++ (b ∷ []))
          (push_front b)
          (if s.tail == 0 && next (length s.blocks) s.head == 0
            then b.slot
            else s.stored_slots.first_available)
unfolding push_block_front2
push_block_front2-Pushed b s {k} h e room =
    let n = length s.blocks in
    let head = next n s.head in
    let s1 : StoredBlocksWrite = record s {
      head = head;
      sync_tx = s.sync_tx ++ (push_front b ∷ []);
      blocks = set s.blocks head b;
    } in
    let kept : Holds (ring_of s1) (suc k) = add_front-Holds b h room e in
    let done = update_total-eq front s1 k kept in
    let vacant : (at s.blocks head).exists ≡ false = next-exists h ∙ ground (arith, room) in
    let inside : head < n = omega (arith, next-cases n s.head h.head_in, h.head_in) in
    let written = get_or-set_self s.blocks head b new_noexists inside in
    let first : (s.tail ≡ head → (at s1.blocks s.tail).slot ≡ b.slot)
        → first_after front s1
          ≡ (if s.tail == 0 && head == 0 then b.slot else s.stored_slots.first_available) =
      λ same. elim (Bool-cases (s.tail == 0 && head == 0)) [
        | inl t ↦ rw t (same (ground arith))
        | inr f ↦ rw f
      ] in
    rw vacant (
      refl,
      record {
        ring_is = done.0;
        holds = rw done.0 kept;
        places = ap (λ (x : Ring). length x.blocks) done.0 ∙ length-set s.blocks head b;
        run_is = rw done.0 (contents-add_front b h room);
        sent = done.1;
        first_is = done.2 ∙ first (λ same. rw same (ap StoredBlock.slot written));
        total_is = done.3;
      },
    )

-- On a full ring a push at either end fails. The blocks, the messages and the slots stay as they
-- were, but the index of that end has moved.
pub push-full :
    (b : StoredBlock) (s : StoredBlocksWrite)
    → Holds (ring_of s) (length s.blocks)
    → (push_block_back2 b s
        ≡ (record s { tail = prev (length s.blocks) s.tail }, err no_free_slot_back))
      × (push_block_front2 b s
          ≡ (record s { head = next (length s.blocks) s.head }, err no_free_slot_front))
unfolding push_block_back2 push_block_front2
push-full b s h =
    let here : (length s.blocks == length s.blocks) ≡ true = ground arith in
    (rw (prev-exists h ∙ here), rw (next-exists h ∙ here))
