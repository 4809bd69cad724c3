-- ===== src/Blocks/Mirror.antt =====
-- src/storage/blocks.rs: a replica that applies the messages of the writer stays equal to its ring.
use alpamayo.Prelude.{ℕ, suc, ◌<◌, ◌≡◌, ap, sym, ◌∙◌, true, arith, length}
use alpamayo.Blocks.Block.{StoredBlock}
use alpamayo.Blocks.Write
use alpamayo.Blocks.Write.{
  RingMessage, pop_back, pop_front, push_back, push_front, StoredBlocksWrite, at, next, prev,
  push_block_back2, push_block_front2, is_confirmed,
}
use alpamayo.Blocks.Read
use alpamayo.Blocks.Read.{StoredBlocksRead, Key, to_read, to_read_loop, index_add}
use alpamayo.Blocks.Ring.{Ring, Holds, contents, tail-exists, head-exists}
use alpamayo.Blocks.Ends.{add_back, add_front, drop_back, drop_front}
use alpamayo.Blocks.Scan.{ring_of}
use alpamayo.Blocks.Push.{push_block_back2-Pushed, push_block_front2-Pushed}
use alpamayo.Blocks.Pop.{pop_block_back-eq, pop_block_front-eq}
use alpamayo.Blocks.Load.{Contiguous}
use alpamayo.Blocks.Location.{replica_ring}
use alpamayo.Blocks.Times.{
  Indexed, push_back-index, push_front-index, pop_back-index, pop_front-index, add_back-Indexed,
  add_front-Indexed, drop_back-Indexed, drop_front-Indexed,
}

-- The method of the replica that each message calls.
pub apply : RingMessage → StoredBlocksRead → StoredBlocksRead
apply pop_back r = Read.pop_block_back r
apply pop_front r = Read.pop_block_front r
apply (push_back b) r = Read.push_block_back b r
apply (push_front b) r = Read.push_block_front b r

-- The replica has the ring of the writer, and its index has just the times of the `k` blocks.
pub record Mirrors (s : StoredBlocksWrite) (r : StoredBlocksRead) (k : ℕ) : Type 0 where
  pub same : replica_ring r ≡ ring_of s
  pub times : Indexed r.block_time_index (contents (ring_of s) k)

-- With a free place: if the replica mirrors the writer, it does so again after the writer has pushed
-- a block at the back and the replica has applied the message of it.
pub push_back-Mirrors :
    (b : StoredBlock) (s : StoredBlocksWrite) (r : StoredBlocksRead) (k : ℕ)
    → Holds (ring_of s) k
    → b.exists ≡ true
    → k < length s.blocks
    → Mirrors s r k
    → Mirrors (push_block_back2 b s).0 (apply (push_back b) r) (suc k)
unfolding apply Read.push_block_back
push_back-Mirrors b s r k h e room m =
    let p = (push_block_back2-Pushed b s h e room).1 in
    record {
      same = ap (λ x. add_back x b) m.same ∙ sym p.ring_is;
      times =
          rw (push_back-index b r, p.run_is)
            (add_back-Indexed r.block_time_index (contents (ring_of s) k) b e m.times);
    }

-- With a free place: if the replica mirrors the writer, it does so again after the writer has pushed
-- a block at the front and the replica has applied the message of it.
pub push_front-Mirrors :
    (b : StoredBlock) (s : StoredBlocksWrite) (r : StoredBlocksRead) (k : ℕ)
    → Holds (ring_of s) k
    → b.exists ≡ true
    → k < length s.blocks
    → Mirrors s r k
    → Mirrors (push_block_front2 b s).0 (apply (push_front b) r) (suc k)
unfolding apply Read.push_block_front
push_front-Mirrors b s r k h e room m =
    let p = (push_block_front2-Pushed b s h e room).1 in
    record {
      same = ap (λ x. add_front x b) m.same ∙ sym p.ring_is;
      times =
          rw (push_front-index b r, p.run_is)
            (add_front-Indexed r.block_time_index (contents (ring_of s) k) b e m.times);
    }

pop_back-ring :
    (s : StoredBlocksWrite) (k : ℕ)
    → Holds (ring_of s) (suc k)
    → ring_of (Write.pop_block_back s).0 ≡ drop_back (ring_of s)
unfolding Write.pop_block_back
pop_back-ring s k h =
    let live : (at s.blocks s.tail).exists ≡ true = tail-exists h ∙ ground arith in rw live

pop_front-ring :
    (s : StoredBlocksWrite) (k : ℕ)
    → Holds (ring_of s) (suc k)
    → ring_of (Write.pop_block_front s).0 ≡ drop_front (ring_of s)
unfolding Write.pop_block_front
pop_front-ring s k h =
    let live : (at s.blocks s.head).exists ≡ true = head-exists h ∙ ground arith in rw live

-- With consecutive slots: if the replica mirrors the writer, it does so again after the writer has
-- popped the block at the back and the replica has applied that pop.
pub pop_back-Mirrors :
    (s : StoredBlocksWrite) (r : StoredBlocksRead) (k c : ℕ)
    → Holds (ring_of s) (suc k)
    → Contiguous c (contents (ring_of s) (suc k))
    → Mirrors s r (suc k)
    → Mirrors (Write.pop_block_back s).0 (apply pop_back r) k
unfolding apply Read.pop_block_back
pop_back-Mirrors s r k c h q m =
    let s' = (Write.pop_block_back s).0 in
    let b = at s.blocks s.tail in
    let left = (pop_block_back-eq s h).3 in
    let same_block : at r.blocks r.tail ≡ b = ap (λ (x : Ring). at x.blocks x.tail) m.same in
    record {
      same = ap drop_back m.same ∙ sym (pop_back-ring s k h);
      times =
          rw (pop_back-index r, same_block)
            (drop_back-Indexed r.block_time_index (contents (ring_of s') k) b c (rw left at q)
              (rw left at m.times));
    }

-- With consecutive slots: if the replica mirrors the writer, it does so again after the writer has
-- popped the block at the front and the replica has applied that pop.
pub pop_front-Mirrors :
    (s : StoredBlocksWrite) (r : StoredBlocksRead) (k c : ℕ)
    → Holds (ring_of s) (suc k)
    → Contiguous c (contents (ring_of s) (suc k))
    → Mirrors s r (suc k)
    → Mirrors (Write.pop_block_front s).0 (apply pop_front r) k
unfolding apply Read.pop_block_front
pop_front-Mirrors s r k c h q m =
    let s' = (Write.pop_block_front s).0 in
    let b = at s.blocks s.head in
    let left = (pop_block_front-eq s h).3 in
    let same_block : at r.blocks r.head ≡ b = ap (λ (x : Ring). at x.blocks x.head) m.same in
    record {
      same = ap drop_front m.same ∙ sym (pop_front-ring s k h);
      times =
          rw (pop_front-index r, same_block)
            (drop_front-Indexed r.block_time_index (contents (ring_of s') k) b c (rw left at q)
              (rw left at m.times));
    }
