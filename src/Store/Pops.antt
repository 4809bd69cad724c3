-- ===== src/Store/Pops.antt =====
-- `RocksdbWrite::pop_block` (src/storage/rocksdb.rs): the ring and the slot index together, and the run of
-- blocks that they stand for.
use alpamayo.Prelude.{
  ℕ, ◌≡◌, refl, sym, ap, ◌∙◌, ◌⊎◌, inl, inr, Bool, true, false, ◌≢◌, some, none, List, [], ◌∷◌,
  ◌++◌, arith, length, ok,
}
use alpamayo.Prelude.TreeMap.{remove}
use alpamayo.Blocks.Block.{VecSide, back, front, StoredBlock}
use alpamayo.Blocks.Scan.{ring_of}
use alpamayo.Store.Db.{Db, remove_slot}
use alpamayo.Store.Write.{
  database, slot_not_found, Store, Io, ensure, from_option, pop_ring, pop_files, pop_block,
}
use alpamayo.Store.Agree.{Agrees}
use alpamayo.Blocks.Pop.{pop-empty}
use alpamayo.Store.Push.{add, add, pop_back-Agrees, pop_front-Agrees}
use alpamayo.Store.Checks.{bind-ok, ok-inj, from_option-ok}

snoc-cases :
    (bs : List StoredBlock)
    → (bs ≡ []) ⊎ ((b : StoredBlock) × (rest : List StoredBlock) × (bs ≡ rest ++ (b ∷ [])))
snoc-cases [] = inl refl
snoc-cases (a ∷ bs) = elim (snoc-cases bs) [
  | inl e ↦ inr (a, [], ap (λ l. a ∷ l) e)
  | inr (b, rest, e) ↦ inr (b, a ∷ rest, ap (λ l. a ∷ l) e)
]

module _ {E : Type 0} where
  remove_slot-basic :
      (slot : ℕ) (dead : Bool) (db : Db E) {t : Db E}
      → remove_slot slot dead db ≡ some t
      → t.slot_basic_index ≡ remove slot db.slot_basic_index
  unfolding remove_slot
  remove_slot-basic slot true db e = ground arith
  remove_slot-basic slot false db e = ground arith

  -- The store keeps just the given blocks, in a ring of `n` places.
  abbrev pub Stores : Store E → ℕ → List StoredBlock → Type 0
  Stores s n bs = Agrees (ring_of s.ring) s.db.slot_basic_index bs × (length s.ring.blocks ≡ n)

  -- A pop at either end that succeeds takes the block at that end of the run.
  popped-Stores :
      (side : VecSide) (io : Io) (s : Store E) {t : Store E} {n : ℕ} (b : StoredBlock)
      (rest : List StoredBlock)
      → (pop_ring side s.ring).1 ≡ some b
      → length (pop_ring side s.ring).0.blocks ≡ n
      → Agrees (ring_of (pop_ring side s.ring).0) (remove b.slot s.db.slot_basic_index) rest
      → pop_block side io s ≡ ok t
      → Stores t n rest
  unfolding pop_block
  popped-Stores side io s b rest popped places kept e =
      let e1 = rw popped at e in
      bind-ok (ensure io.removal database) _ e1 λ _ _ e2.
        bind-ok (from_option (remove_slot b.slot b.dead s.db) slot_not_found) _ e2 λ db found e3.
          bind-ok (pop_files b side s.files) _ e3 λ files _ e4.
            let gone =
              remove_slot-basic b.slot b.dead s.db
                (from_option-ok (remove_slot b.slot b.dead s.db) slot_not_found found) in
            rw (sym (ok-inj e4), gone) (kept, places)

  nothing_popped :
      (side : VecSide) (io : Io) (s : Store E) {t : Store E}
      → (pop_ring side s.ring).1 ≡ none
      → pop_block side io s ≢ ok t
  unfolding pop_block
  nothing_popped side io s none_left e = let e1 = rw none_left at e in ground arith

  pub pop_block_back-Stores :
      (io : Io) (s : Store E) {t : Store E} {n : ℕ} (bs : List StoredBlock)
      → Stores s n bs
      → pop_block back io s ≡ ok t
      → (b : StoredBlock) × (rest : List StoredBlock) × (bs ≡ b ∷ rest) × Stores t n rest
  unfolding pop_ring
  pop_block_back-Stores io s [] (h, l) e =
      absurd (nothing_popped back io s (ap (λ p. p.1) (pop-empty s.ring h.holds).0) e)
  pop_block_back-Stores io s (b ∷ rest) (h, l) e =
      let (popped, places, kept) = pop_back-Agrees s.ring b rest h in
      (b, rest, refl, popped-Stores back io s b rest popped (places ∙ l) kept e)

  pop_block_front-Stores :
      (io : Io) (s : Store E) {t : Store E} {n : ℕ} (bs : List StoredBlock)
      → Stores s n bs
      → pop_block front io s ≡ ok t
      → (b : StoredBlock) × (rest : List StoredBlock) × (bs ≡ rest ++ (b ∷ [])) × Stores t n rest
  unfolding pop_ring
  pop_block_front-Stores io s bs (h, l) e = elim (snoc-cases bs) [
    | inl z ↦
        let h1 : Agrees (ring_of s.ring) s.db.slot_basic_index [] = rw z at h in
        absurd (nothing_popped front io s (ap (λ p. p.1) (pop-empty s.ring h1.holds).1) e)
    | inr (b, rest, z) ↦
        let (popped, places, kept) = pop_front-Agrees s.ring b rest (rw z at h) in
        (b, rest, z, popped-Stores front io s b rest popped (places ∙ l) kept e)
  ]

  pub pop_block-Stores :
      (side : VecSide) (io : Io) (s : Store E) {t : Store E} {n : ℕ} (bs : List StoredBlock)
      → Stores s n bs
      → pop_block side io s ≡ ok t
      → (b : StoredBlock) × (rest : List StoredBlock) × (bs ≡ add side b rest) × Stores t n rest
  pop_block-Stores back io s bs h e = pop_block_back-Stores io s bs h e
  pop_block-Stores front io s bs h e = pop_block_front-Stores io s bs h e
