-- ===== src/Blocks/Location.antt =====
-- `StoredBlocksRead::get_block_location` (src/storage/blocks.rs) against a lookup in the run.
use alpamayo.Prelude.{
  ℕ, zero, suc, ◌+◌, ◌-◌, ◌<◌, ◌≤◌, ◌≡◌, refl, ap, sym, ◌∙◌, Option, none, some, true, false, ◌||◌,
  List, ◌∷◌, [], arith, ltb, ◌==◌, if◌then◌else◌, length, get_elem?, inl, inr, Bool-cases,
}
use alpamayo.Prelude.Cyclic.{cyc, window}
use alpamayo.Blocks.Block.{StoredBlock}
use alpamayo.Blocks.Write.{at}
use alpamayo.Blocks.Read.{
  StoredBlocksRead, StorageBlockLocationResult, removed, dead, not_available, found,
  get_block_location,
}
use alpamayo.Blocks.Ring.{
  Ring, nth, Holds, contents, cyc-zero, head-place, tail-exists, head-exists,
}
use alpamayo.Blocks.Refine.{length-contents}
use alpamayo.Blocks.Load.{Contiguous}

abbrev pub replica_ring : StoredBlocksRead → Ring
replica_ring r = record { blocks = r.blocks; tail = r.tail; head = r.head }

window-slot :
    (f : ℕ → StoredBlock) (k c i : ℕ) → Contiguous c (window f k) → i < k → (f i).slot ≡ c + i
unfolding window
window-slot f zero c i h hi = absurd (omega arith)
window-slot f (suc k) c zero h hi = omega (arith, h.1)
window-slot f (suc k) c (suc i) h hi =
    omega (arith, window-slot (λ j. f (suc j)) k (suc c) i h.2 (omega arith))

get_elem?-window : (f : ℕ → StoredBlock) (k i : ℕ) → i < k → get_elem? (window f k) i ≡ some (f i)
unfolding window
get_elem?-window f zero i hi = absurd (omega arith)
get_elem?-window f (suc k) zero hi = refl
get_elem?-window f (suc k) (suc i) hi = get_elem?-window (λ j. f (suc j)) k i (omega arith)

pub nth-slot :
    (r : Ring) {k : ℕ} (c i : ℕ) → Contiguous c (contents r k) → i < k → (nth r i).slot ≡ c + i
unfolding contents
nth-slot r {k} c i h hi = window-slot (nth r) k c i h hi

pub tail-slot :
    {r : Ring} {k : ℕ} (c : ℕ)
    → Holds r k
    → Contiguous c (contents r k)
    → 0 < k
    → (at r.blocks r.tail).slot ≡ c
tail-slot {r} c h q pos =
    ap (λ i. (at r.blocks i).slot) (sym (cyc-zero (length r.blocks) r.tail h.tail_in))
    ∙ nth-slot r c 0 q pos
    ∙ omega arith

pub head-slot :
    {r : Ring} {k : ℕ} (c : ℕ)
    → Holds r k
    → Contiguous c (contents r k)
    → 0 < k
    → (at r.blocks r.head).slot ≡ c + (k - 1)
head-slot {r} {k} c h q pos =
    ap (λ i. (at r.blocks i).slot) (head-place h pos) ∙ nth-slot r c (k - 1) q (omega arith)

-- Where a slot is, by the run of stored blocks from slot `c` on.
abbrev pub answer : Option StoredBlock → StorageBlockLocationResult
answer none = not_available
answer (some b) = if b.dead then dead else found b

abbrev pub locate : ℕ → List StoredBlock → ℕ → StorageBlockLocationResult
locate c q slot = if length q == 0 || ltb slot c then removed else answer (get_elem? q (slot - c))

get_elem?-past {ℓ} : {A : Type ℓ} (xs : List A) (i : ℕ) → length xs ≤ i → get_elem? xs i ≡ none
get_elem?-past [] i h = refl
get_elem?-past (x ∷ xs) zero h = absurd (omega arith)
get_elem?-past (x ∷ xs) (suc i) h = get_elem?-past xs i (omega arith)

get_elem?-contents : (r : Ring) (k i : ℕ) → i < k → get_elem? (contents r k) i ≡ some (nth r i)
unfolding contents
get_elem?-contents r k i hi = get_elem?-window (nth r) k i hi

-- On a replica that holds `k` blocks with consecutive slots from `c` on, `get_block_location`
-- answers what a lookup in the run of blocks answers, for every slot: removed below `c` and when
-- nothing is stored, not available past the last block, and otherwise the block of that slot, or
-- dead. The answer `SlotMismatch` never occurs.
pub get_block_location-locate :
    (r : StoredBlocksRead) (k c slot : ℕ)
    → Holds (replica_ring r) k
    → Contiguous c (contents (replica_ring r) k)
    → get_block_location slot r ≡ locate c (contents (replica_ring r) k) slot
unfolding get_block_location cyc
get_block_location-locate r zero c slot h q =
    let none_stored : (length (contents (replica_ring r) 0) == 0) ≡ true =
      ground (arith, length-contents (replica_ring r) 0) in
    rw (tail-exists h, none_stored)
get_block_location-locate r (suc k) c slot h q =
    let ring = replica_ring r in
    let run = contents ring (suc k) in
    let some_stored : (length run == 0) ≡ false = ground (arith, length-contents ring (suc k)) in
    let tl : (at r.blocks r.tail).exists ≡ true = tail-exists h ∙ ground arith in
    let hd : (at r.blocks r.head).exists ≡ true = head-exists h ∙ ground arith in
    let first = tail-slot c h q (omega arith) in
    let last : (at r.blocks r.head).slot ≡ c + k = head-slot c h q (omega arith) ∙ omega arith in
    elim (Bool-cases (ltb slot c)) [
      | inl below ↦ rw (tl, first, some_stored, below)
      | inr from ↦ elim (Bool-cases (ltb (c + k) slot)) [
        | inl past ↦
            let gone =
              get_elem?-past run (slot - c) (ground (arith, length-contents ring (suc k))) in
            rw (tl, hd, first, last, some_stored, from, past, gone)
        | inr within ↦
            let here : slot - c < suc k = ground arith in
            let there = get_elem?-contents ring (suc k) (slot - c) here in
            let live = h.live (slot - c) here in
            let exact : ((nth ring (slot - c)).slot == slot) ≡ true =
              ground (arith, nth-slot ring c (slot - c) q here) in
            rw (tl, hd, first, last, some_stored, from, within, live, exact, there)
      ]
    ]
