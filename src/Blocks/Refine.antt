-- ===== src/Blocks/Refine.antt =====
-- src/storage/blocks.rs: any sequence of calls on the writer's ring against a double-ended queue.
use alpamayo.Prelude.{
  ℕ, zero, suc, ◌<◌, ◌≡◌, refl, ap₂, Option, none, some, true, false, List, ◌∷◌, ◌++◌, [], arith,
  ◌==◌, if◌then◌else◌, length, Result, ok, err,
}
use mathlib.Core.Path.{subst, subst₂}
use native.Mathlib.Decide.{ℕ_discrete}
use alpamayo.Prelude.Int.{ℤ}
use alpamayo.Prelude.Cyclic.{window, length-window}
use alpamayo.Blocks.Block.{VecSide, back, front, StoredBlock, new_dead, new_confirmed}
use alpamayo.Blocks.Write.{
  StoredBlocksWrite, Error, no_free_slot_back, no_free_slot_front, push_block_back_dead,
  push_block_back_confirmed, push_block_front_dead, push_block_front_confirmed, push_block_back2,
  push_block_front2, pop_block_back, pop_block_front,
}
use alpamayo.Blocks.Ring.{Ring, Holds, contents, nth}
use alpamayo.Blocks.Scan.{ring_of}
use alpamayo.Blocks.Push.{push_block_back2-Pushed, push_block_front2-Pushed, push-full}
use alpamayo.Blocks.Pop.{pop_block_back-eq, pop_block_front-eq, pop-empty}

-- What a caller stores: a dead slot, or a confirmed block with its time, height and location.
pub data Entry : Type 0 where
  dead : ℕ → Entry
  confirmed : ℕ → Option ℤ → Option ℕ → ℕ → ℕ → ℕ → Entry

pub data Op : Type 0 where
  push : VecSide → Entry → Op
  pop : VecSide → Op

-- The public method that each call is.
pub push_op : VecSide → Entry → StoredBlocksWrite → StoredBlocksWrite × Result Error (Unit {0})
push_op back (dead slot) s = push_block_back_dead slot s
push_op back (confirmed slot time height id offset size) s =
    push_block_back_confirmed slot time height id offset size s
push_op front (dead slot) s = push_block_front_dead slot s
push_op front (confirmed slot time height id offset size) s =
    push_block_front_confirmed slot time height id offset size s

pub pop_op : VecSide → StoredBlocksWrite → StoredBlocksWrite × Option StoredBlock
pop_op back s = pop_block_back s
pop_op front s = pop_block_front s

-- The calls in order, with what each pop returns; the first error ends the run, as `?` does.
pub run : StoredBlocksWrite → List Op → Result Error (List (Option StoredBlock) × StoredBlocksWrite)
run s [] = ok ([], s)
run s (push side entry ∷ ops) =
    let (s', r) = push_op side entry s in
    let rest = run s' ops in elim r [ err e ↦ err e | ok _ ↦ rest ]
run s (pop side ∷ ops) =
    let (s', popped) = pop_op side s in
    elim (run s' ops) [ err e ↦ err e | ok (out, t) ↦ ok (popped ∷ out, t) ]

-- The block that a call stores.
abbrev pub block_of : Entry → StoredBlock
block_of (dead slot) = new_dead slot
block_of (confirmed slot time height id offset size) = new_confirmed slot time height id offset size

block_of-exists : (e : Entry) → (block_of e).exists ≡ true
block_of-exists (dead slot) = refl
block_of-exists (confirmed slot time height id offset size) = refl

pub split_last : List StoredBlock → Option (List StoredBlock × StoredBlock)
split_last [] = none
split_last (x ∷ xs) = elim (split_last xs) [
  | none ↦ some ([], x)
  | some (start, last) ↦ some (x ∷ start, last)
]

split_last-append :
    (xs : List StoredBlock) (x : StoredBlock) → split_last (xs ++ (x ∷ [])) ≡ some (xs, x)
unfolding split_last
split_last-append [] x = refl
split_last-append (y ∷ xs) x = rw (split_last-append xs x)

-- A double-ended queue of at most `n` blocks: an independent description of the calls.
abbrev add_entry : VecSide → StoredBlock → List StoredBlock → List StoredBlock
add_entry back b q = b ∷ q
add_entry front b q = q ++ (b ∷ [])

abbrev no_room : VecSide → Error
no_room back = no_free_slot_back
no_room front = no_free_slot_front

take_back : List StoredBlock → List StoredBlock × Option StoredBlock
take_back [] = ([], none)
take_back (x ∷ q) = (q, some x)

take_front : List StoredBlock → List StoredBlock × Option StoredBlock
take_front q = elim (split_last q) [ none ↦ (q, none) | some (start, last) ↦ (start, some last) ]

take_front_nil : take_front [] ≡ ([], none)
unfolding take_front split_last
take_front_nil = refl

take_front_snoc :
    (xs : List StoredBlock) (x : StoredBlock) → take_front (xs ++ (x ∷ [])) ≡ (xs, some x)
unfolding take_front
take_front_snoc xs x = rw (split_last-append xs x, take_front)

take_entry : VecSide → List StoredBlock → List StoredBlock × Option StoredBlock
take_entry back q = take_back q
take_entry front q = take_front q

pub queue_run :
    ℕ → List StoredBlock → List Op → Result Error (List (Option StoredBlock) × List StoredBlock)
queue_run n q [] = ok ([], q)
queue_run n q (push side entry ∷ ops) =
    let rest = queue_run n (add_entry side (block_of entry) q) ops in
    if length q == n then err (no_room side) else rest
queue_run n q (pop side ∷ ops) =
    let (q', taken) = take_entry side q in
    elim (queue_run n q' ops) [ err e ↦ err e | ok (out, t) ↦ ok (taken ∷ out, t) ]

-- The same error, or the same answers and a ring that holds the queue.
abbrev pub Agrees :
    Result Error (List (Option StoredBlock) × StoredBlocksWrite)
    → Result Error (List (Option StoredBlock) × List StoredBlock)
    → Type 0
Agrees (ok (out, s)) (ok (out', q)) =
    (out ≡ out') × ((k : ℕ) × Holds (ring_of s) k × (contents (ring_of s) k ≡ q))
Agrees (err e) (err e') = e ≡ e'
Agrees (ok _) (err _) = ⊥
Agrees (err _) (ok _) = ⊥

pub length-contents : (r : Ring) (k : ℕ) → length (contents r k) ≡ k
unfolding contents
length-contents r k = length-window (nth r) k

push_op-back :
    (e : Entry) (s : StoredBlocksWrite) → push_op back e s ≡ push_block_back2 (block_of e) s
unfolding push_op push_block_back_dead push_block_back_confirmed
push_op-back (dead slot) s = refl
push_op-back (confirmed slot time height id offset size) s = refl

push_op-front :
    (e : Entry) (s : StoredBlocksWrite) → push_op front e s ≡ push_block_front2 (block_of e) s
unfolding push_op push_block_front_dead push_block_front_confirmed
push_op-front (dead slot) s = refl
push_op-front (confirmed slot time height id offset size) s = refl

empty_run : (r : Ring) → contents r 0 ≡ []
unfolding contents window
empty_run r = refl

-- One push, whichever end and entry.
push_op-fits :
    (side : VecSide) (e : Entry) (s : StoredBlocksWrite) {k : ℕ}
    → Holds (ring_of s) k
    → k < length s.blocks
    → let (s', r) = push_op side e s in
      (r ≡ ok tt)
      × Holds (ring_of s') (suc k)
      × (length s'.blocks ≡ length s.blocks)
      × (contents (ring_of s') (suc k) ≡ add_entry side (block_of e) (contents (ring_of s) k))
push_op-fits back e s h room =
    let (r, p) = push_block_back2-Pushed (block_of e) s h (block_of-exists e) room in
    rw push_op-back (r, p.holds, p.places, p.run_is)
push_op-fits front e s h room =
    let (r, p) = push_block_front2-Pushed (block_of e) s h (block_of-exists e) room in
    rw push_op-front (r, p.holds, p.places, p.run_is)

push_op-full :
    (side : VecSide) (e : Entry) (s : StoredBlocksWrite)
    → Holds (ring_of s) (length s.blocks)
    → (push_op side e s).1 ≡ err (no_room side)
push_op-full back e s h = rw (push_op-back, (push-full (block_of e) s h).0)
push_op-full front e s h = rw (push_op-front, (push-full (block_of e) s h).1)

-- What a pop hands over and leaves.
abbrev Pops :
    StoredBlocksWrite
    → StoredBlocksWrite × Option StoredBlock
    → List StoredBlock × Option StoredBlock
    → Type 0
Pops s (s', popped) (q, taken) =
    (popped ≡ taken)
    × ((k : ℕ) × Holds (ring_of s') k × (contents (ring_of s') k ≡ q))
    × (length s'.blocks ≡ length s.blocks)

pop_op-Pops :
    (side : VecSide) (s : StoredBlocksWrite) (k : ℕ)
    → Holds (ring_of s) k
    → Pops s (pop_op side s) (take_entry side (contents (ring_of s) k))
unfolding pop_op take_entry take_back
pop_op-Pops back s zero h =
    rw ((pop-empty s h).0, empty_run (ring_of s)) (refl, (0, h, empty_run (ring_of s)), refl)
pop_op-Pops front s zero h =
    rw ((pop-empty s h).1, empty_run (ring_of s), take_front_nil)
      (refl, (0, h, empty_run (ring_of s)), refl)
pop_op-Pops back s (suc k) h =
    let (popped, held, places, run, first, sent) = pop_block_back-eq s h in
    rw run (popped, (k, held, refl), places)
pop_op-Pops front s (suc k) h =
    let (popped, held, places, run, slots, sent) = pop_block_front-eq s h in
    rw (run, take_front_snoc) (popped, (k, held, refl), places)

Agrees-push :
    (side : VecSide) (r : Result Error (Unit {0}))
    (a : Result Error (List (Option StoredBlock) × StoredBlocksWrite))
    (b : Result Error (List (Option StoredBlock) × List StoredBlock))
    → r ≡ ok tt
    → Agrees a b
    → Agrees (elim r [ err e ↦ err e | ok _ ↦ a ]) b
Agrees-push side r a b e h = rw e h

Agrees-fail :
    (r : Result Error (Unit {0})) (a : Result Error (List (Option StoredBlock) × StoredBlocksWrite))
    (e : Error)
    → r ≡ err e
    → Agrees (elim r [ err e ↦ err e | ok _ ↦ a ]) (err e)
Agrees-fail r a e same = rw same refl

Agrees-pop :
    (o o' : Option StoredBlock) (a : Result Error (List (Option StoredBlock) × StoredBlocksWrite))
    (b : Result Error (List (Option StoredBlock) × List StoredBlock))
    → o ≡ o'
    → Agrees a b
    → Agrees
        (elim a [ err e ↦ err e | ok (out, t) ↦ ok (o ∷ out, t) ])
        (elim b [ err e ↦ err e | ok (out, t) ↦ ok (o' ∷ out, t) ])
Agrees-pop o o' (ok (out, s)) (ok (out', q)) e (same, held) = (ap₂ ◌∷◌ e same, held)
Agrees-pop o o' (ok x) (err e') e h = elim h [ ]
Agrees-pop o o' (err x) (ok y) e h = elim h [ ]
Agrees-pop o o' (err x) (err y) e h = h

-- On a ring that holds `k` blocks, any sequence of pushes and pops at both ends does what it does on
-- a double-ended queue of the ring's size: the same pops return the same blocks, the first push
-- without room fails with the same error, and otherwise the ring ends up holding the queue.
pub run-refines :
    (ops : List Op) (s : StoredBlocksWrite) (k : ℕ)
    → Holds (ring_of s) k
    → Agrees (run s ops) (queue_run (length s.blocks) (contents (ring_of s) k) ops)
unfolding run queue_run
run-refines [] s k h = (refl, (k, h, refl))
run-refines (push side e ∷ ops) s k h = elim (ℕ_discrete k (length s.blocks)) [
  | yes same ↦
      let full : (length (contents (ring_of s) k) == length s.blocks) ≡ true =
        ground (arith, length-contents (ring_of s) k) in
      rw full (
        Agrees-fail (push_op side e s).1 (run (push_op side e s).0 ops) (no_room side)
          (push_op-full side e s (subst (Holds (ring_of s)) same h)))
  | no other ↦
      let room : (length (contents (ring_of s) k) == length s.blocks) ≡ false =
        ground (arith, length-contents (ring_of s) k) in
      let (fits, held, places, grown) = push_op-fits side e s h (omega (arith, h.count)) in
      let rest = run-refines ops (push_op side e s).0 (suc k) held in
      let s' = (push_op side e s).0 in
      let q = add_entry side (block_of e) (contents (ring_of s) k) in
      rw room (
        Agrees-push side (push_op side e s).1 (run s' ops) (queue_run (length s.blocks) q ops) fits
          (subst₂ (λ n q. Agrees (run s' ops) (queue_run n q ops)) places grown rest))
]
run-refines (pop side ∷ ops) s k h =
    let (same, (k', held, left), places) = pop_op-Pops side s k h in
    let s' = (pop_op side s).0 in
    let q = contents (ring_of s) k in
    let rest = run-refines ops s' k' held in
    Agrees-pop (pop_op side s).1 (take_entry side q).1 (run s' ops)
      (queue_run (length s.blocks) (take_entry side q).0 ops) same
      (subst₂ (λ n q. Agrees (run s' ops) (queue_run n q ops)) places left rest)
