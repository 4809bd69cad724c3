-- ===== src/Blocks/ToRead.antt =====
-- `StoredBlocksWrite::to_read` (src/storage/blocks.rs): the replica that a reader starts from.
use alpamayo.Prelude.{
  ℕ, zero, suc, ◌+◌, ◌-◌, ◌<◌, ◌≡◌, ◌≢◌, refl, ap, sym, ◌∙◌, true, false, List, [], arith, ◌==◌,
  if◌then◌else◌, length,
}
use mathlib.Core.Path.{subst}
use alpamayo.Prelude.Cyclic.{window, window_snoc, cyc-ne}
use alpamayo.Blocks.Block.{StoredBlock}
use alpamayo.Blocks.Write.{StoredBlocksWrite, at, is_confirmed}
use alpamayo.Blocks.Read.{Key, to_read, to_read_loop, index_add}
use alpamayo.Blocks.Ring.{
  Ring, place, nth, Holds, contents, cyc-zero, next-cyc, tail-exists, head-place,
}
use alpamayo.Blocks.Scan.{ring_of}
use alpamayo.Blocks.Times.{Indexed, add_time, add_front-Indexed}
use alpamayo.Blocks.Mirror.{Mirrors}

-- One block of the loop.
abbrev visit : StoredBlock → List Key → List Key
visit b index = if is_confirmed b then index_add b.block_time b.slot index else index

visit-eq : (b : StoredBlock) (index : List Key) → b.exists ≡ true → visit b index ≡ add_time b index
unfolding add_time
visit-eq b index e = rw e

module _ {r : Ring} {k : ℕ} (h : Holds r k) where
  visit-Indexed :
      (i : ℕ) (index : List Key)
      → i < k
      → Indexed index (window (nth r) i)
      → Indexed (visit (nth r i) index) (window (nth r) (suc i))
  visit-Indexed i index hi x =
      let live = h.live i hi in
      rw (visit-eq (nth r i) index live, window_snoc (nth r) i)
        (add_front-Indexed index (window (nth r) i) (nth r i) live x)

  to_read_loop-Indexed :
      (fuel i m : ℕ) (index : List Key)
      → m < fuel
      → i + suc m ≡ k
      → Indexed index (window (nth r) i)
      → Indexed (to_read_loop fuel r.blocks r.head (place r i) index) (window (nth r) k)
  unfolding to_read_loop
  to_read_loop-Indexed zero i m index hf e x = absurd (omega arith)
  to_read_loop-Indexed (suc fuel) i zero index hf e x =
      let last : suc i ≡ k = omega arith in
      let here : place r i ≡ r.head =
        ap (place r) (omega arith) ∙ sym (head-place h (omega arith)) in
      let done : (place r i == r.head) ≡ true = ground (arith, here) in
      rw done (
        subst (λ j. Indexed (visit (nth r i) index) (window (nth r) j)) last
          (visit-Indexed i index (omega arith) x))
  to_read_loop-Indexed (suc fuel) i (suc m) index hf e x =
      let n = length r.blocks in
      let ne : place r i ≢ r.head = rw (head-place h (omega arith)) (
        cyc-ne n r.tail i (k - 1) h.tail_in (omega (arith, h.count)) (omega (arith, h.count))
          (omega arith)) in
      let more : (place r i == r.head) ≡ false = ground (arith, ne) in
      let step = next-cyc n r.tail i h.tail_in (omega (arith, h.count)) in
      rw (more, step)
        (to_read_loop-Indexed fuel (suc i) m (visit (nth r i) index) (omega arith) (omega arith)
          (visit-Indexed i index (omega arith) x))

-- From a ring with `k` blocks, `to_read` makes a replica with that ring, whose index has just the
-- times of its confirmed blocks.
pub to_read-Mirrors :
    (s : StoredBlocksWrite) (k : ℕ) → Holds (ring_of s) k → Mirrors s (to_read s) k
unfolding to_read contents window
to_read-Mirrors s zero h = record {
  same = refl;
  times = rw (tail-exists h) (record { order = tt; keys = λ k. refl });
}
to_read-Mirrors s (suc k) h =
    let r = ring_of s in
    let n = length s.blocks in
    let live : (at s.blocks s.tail).exists ≡ true = tail-exists h ∙ ground arith in
    let full =
      to_read_loop-Indexed h n 0 k [] (omega (arith, h.count)) (omega arith)
        (record { order = tt; keys = λ k. refl }) in
    record {
      same = refl;
      times = rw live (
          subst (λ i. Indexed (to_read_loop n s.blocks s.head i []) (window (nth r) (suc k)))
            (cyc-zero n s.tail h.tail_in) full);
    }
