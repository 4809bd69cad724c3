-- ===== src/Store/Push.antt =====
-- src/storage/blocks.rs with the slot index of src/storage/rocksdb.rs: a block that enters or leaves the
-- ring at either end, and its row.
use alpamayo.Prelude.{
  ℕ, suc, ◌+◌, ◌-◌, ◌%◌, ◌^◌, ◌<◌, ◌≡◌, refl, sym, ap, ap₂, ◌∙◌, true, some, List, [], ◌∷◌, ◌++◌,
  arith, length, length-append, ok,
}
use alpamayo.Prelude.Cyclic.{mod-cases}
use alpamayo.Prelude.TreeMap.{insert, remove}
use alpamayo.Blocks.Block.{VecSide, back, front, StoredBlock}
use alpamayo.Blocks.Write.{
  StoredBlocksWrite, at, push_block_back2, push_block_front2, pop_block_back, pop_block_front,
}
use alpamayo.Blocks.Ring.{Ring, contents}
use alpamayo.Blocks.Scan.{ring_of}
use alpamayo.Blocks.Push.{push_block_back2-Pushed, push_block_front2-Pushed}
use alpamayo.Blocks.Pop.{pop_block_back-eq, pop_block_front-eq}
use alpamayo.Codec.Basic.{SlotBasicIndexValue}
use alpamayo.Store.Write.{ring_after}
use alpamayo.Store.Agree.{
  value_of, Agrees, rows-append, Contiguous-append, append-Contiguous, insert-last, insert-first,
  remove-first, remove-last,
}

below-pos : (n x : ℕ) → 0 < x → x < n → (x + (n - 1)) % n ≡ x - 1
below-pos n x p l = omega (arith, mod-cases n (x + (n - 1)) (omega arith))

-- The slots that the checks admit: any, if there is no block, else the one below the first or above the last.
abbrev pub Below : ℕ → List StoredBlock → Type 0
Below slot [] = Unit
Below slot (b ∷ bs) = suc slot ≡ b.slot

abbrev pub AboveLast : ℕ → List StoredBlock → Type 0
AboveLast slot [] = Unit
AboveLast slot (b ∷ bs) = slot ≡ b.slot + length (b ∷ bs)

-- The run with the number that the new slot asks for, which is free if there is no block.
rebase-Below :
    (slot : ℕ) {r : Ring} {index : List (ℕ × SlotBasicIndexValue)} (bs : List StoredBlock)
    → suc slot < 2 ^ 64
    → Below slot bs
    → Agrees r index bs
    → (h : Agrees r index bs) × (h.first ≡ suc slot)
rebase-Below slot [] l q h = (record h { first = suc slot; run = tt; below = omega arith }, refl)
rebase-Below slot (b ∷ bs) l q h = (h, omega (arith, h.run.1))

rebase-AboveLast :
    (slot : ℕ) {r : Ring} {index : List (ℕ × SlotBasicIndexValue)} (bs : List StoredBlock)
    → suc slot < 2 ^ 64
    → AboveLast slot bs
    → Agrees r index bs
    → (h : Agrees r index bs) × (h.first + length bs ≡ slot)
rebase-AboveLast slot [] l q h =
    (record h { first = slot; run = tt; below = omega arith }, omega arith)
rebase-AboveLast slot (b ∷ bs) l q h = (h, omega (arith, h.run.1))

∷-inj : {x y : StoredBlock} {xs ys : List StoredBlock} → x ∷ xs ≡ y ∷ ys → (x ≡ y) × (xs ≡ ys)
∷-inj e = (cc, cc)

snoc-inj :
    {x y : StoredBlock} (xs ys : List StoredBlock)
    → xs ++ (x ∷ []) ≡ ys ++ (y ∷ [])
    → (x ≡ y) × (xs ≡ ys)
snoc-inj [] [] e = ((∷-inj e).0, refl)
snoc-inj {x} {y} [] (z ∷ ys) e = absurd (omega (arith, ap length e, length-append ys (y ∷ [])))
snoc-inj {x} {y} (z ∷ xs) [] e = absurd (omega (arith, ap length e, length-append xs (x ∷ [])))
snoc-inj (x ∷ xs) (y ∷ ys) e =
    let rest = snoc-inj xs ys (∷-inj e).1 in (rest.0, ap₂ ◌∷◌ (∷-inj e).0 rest.1)

module _ (b : StoredBlock) (s : StoredBlocksWrite) (index : List (ℕ × SlotBasicIndexValue))
    (bs : List StoredBlock) (agrees : Agrees (ring_of s) index bs) (e : b.exists ≡ true)
    (room : length bs < length s.blocks) (l : suc b.slot < 2 ^ 64) where
  pub push_back-Agrees :
      Below b.slot bs
      → let (s', r) = push_block_back2 b s in
        (r ≡ ok tt)
        × (length s'.blocks ≡ length s.blocks)
        × Agrees (ring_of s') (insert b.slot (value_of b) index) (b ∷ bs)
  push_back-Agrees q =
      let (h, c) = rebase-Below b.slot bs l q agrees in
      let p = push_block_back2-Pushed b s h.holds e room in
      (
        p.0,
        p.1.places,
        record {
          first = b.slot;
          holds = p.1.holds;
          run_is = p.1.run_is ∙ ap (λ l. b ∷ l) h.run_is;
          run = (e, refl, rw (sym c) h.run);
          rows_are = rw h.rows_are (insert-first h.first b.slot (value_of b) bs (sym c) h.run);
          below = omega (arith, h.below);
        },
      )

  pub push_front-Agrees :
      AboveLast b.slot bs
      → let (s', r) = push_block_front2 b s in
        (r ≡ ok tt)
        × (length s'.blocks ≡ length s.blocks)
        × Agrees (ring_of s') (insert b.slot (value_of b) index) (bs ++ (b ∷ []))
  push_front-Agrees q =
      let (h, c) = rebase-AboveLast b.slot bs l q agrees in
      let p = push_block_front2-Pushed b s h.holds e room in
      let n : length (bs ++ (b ∷ [])) ≡ suc (length bs) = length-append bs (b ∷ []) ∙ omega arith in
      (
        p.0,
        p.1.places,
        record {
          first = h.first;
          holds = rw n p.1.holds;
          run_is = rw n (p.1.run_is ∙ ap (λ l. l ++ (b ∷ [])) h.run_is);
          run = Contiguous-append h.first bs b e (sym c) h.run;
          rows_are =
              rw (h.rows_are, rows-append)
                (insert-last h.first b.slot (value_of b) bs (sym c) h.run);
          below = omega (arith, h.below, n);
        },
      )

module _ (s : StoredBlocksWrite) {index : List (ℕ × SlotBasicIndexValue)} (b : StoredBlock)
    (bs : List StoredBlock) where
  pub pop_back-Agrees :
      Agrees (ring_of s) index (b ∷ bs)
      → let (s', r) = pop_block_back s in
        (r ≡ some b)
        × (length s'.blocks ≡ length s.blocks)
        × Agrees (ring_of s') (remove b.slot index) bs
  pop_back-Agrees h =
      let p = pop_block_back-eq s h.holds in
      let both : at s.blocks s.tail ∷ contents (ring_of (pop_block_back s).0) (length bs) ≡ b ∷ bs =
        sym p.3 ∙ h.run_is in
      (
        p.0 ∙ ap some (∷-inj both).0,
        p.2,
        record {
          first = suc h.first;
          holds = p.1;
          run_is = (∷-inj both).1;
          run = h.run.2;
          rows_are = rw h.rows_are (remove-first h.first b bs h.run);
          below = omega (arith, h.below);
        },
      )

  pub pop_front-Agrees :
      Agrees (ring_of s) index (bs ++ (b ∷ []))
      → let (s', r) = pop_block_front s in
        (r ≡ some b)
        × (length s'.blocks ≡ length s.blocks)
        × Agrees (ring_of s') (remove b.slot index) bs
  pop_front-Agrees h =
      let n : length (bs ++ (b ∷ [])) ≡ suc (length bs) = length-append bs (b ∷ []) ∙ omega arith in
      let p = pop_block_front-eq s (rw n at h.holds) in
      let both : contents (ring_of (pop_block_front s).0) (length bs) ++ (at s.blocks s.head ∷ [])
          ≡ bs ++ (b ∷ []) =
        sym p.3 ∙ (rw n at h.run_is) in
      let two = snoc-inj (contents (ring_of (pop_block_front s).0) (length bs)) bs both in
      (
        p.0 ∙ ap some two.0,
        p.2,
        record {
          first = h.first;
          holds = p.1;
          run_is = two.1;
          run = (append-Contiguous h.first bs b h.run).0;
          rows_are = rw h.rows_are (remove-last h.first bs b h.run);
          below = omega (arith, h.below, n);
        },
      )

-- The run with a block more at one end, and the slots that may be put there.
abbrev pub add : VecSide → StoredBlock → List StoredBlock → List StoredBlock
add back b bs = b ∷ bs
add front b bs = bs ++ (b ∷ [])

abbrev pub Fits : VecSide → ℕ → List StoredBlock → Type 0
Fits back slot bs = Below slot bs
Fits front slot bs = AboveLast slot bs

-- Either push into a ring with a free place.
pub push-Agrees :
    (side : VecSide) (b : StoredBlock) (s : StoredBlocksWrite)
    (index : List (ℕ × SlotBasicIndexValue)) (bs : List StoredBlock)
    → Agrees (ring_of s) index bs
    → b.exists ≡ true
    → length bs < length s.blocks
    → suc b.slot < 2 ^ 64
    → Fits side b.slot bs
    → (s' : StoredBlocksWrite) × (ring_after
          (elim side [ back ↦ push_block_back2 b s | front ↦ push_block_front2 b s ])
        ≡ ok s')
      × (length s'.blocks ≡ length s.blocks)
      × Agrees (ring_of s') (insert b.slot (value_of b) index) (add side b bs)
push-Agrees back b s index bs h e room l q =
    let p = push_back-Agrees b s index bs h e room l q in
    ((push_block_back2 b s).0, rw p.0, p.1, p.2)
push-Agrees front b s index bs h e room l q =
    let p = push_front-Agrees b s index bs h e room l q in
    ((push_block_front2 b s).0, rw p.0, p.1, p.2)
