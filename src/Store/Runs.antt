-- ===== src/Store/Runs.antt =====
-- `RocksdbWrite::push_block_back` (src/storage/rocksdb.rs) on the run of the stored blocks, and the end of
-- either push.
use alpamayo.Prelude.{
  ℕ, suc, ◌^◌, ◌<◌, ◌≡◌, refl, sym, ◌∙◌, inl, inr, Bool, true, false, Option, some, none, List,
  Option-cases, not, is_some, arith, length, Result, ok, Bool-cases,
}
use alpamayo.Blocks.Block.{VecSide, back, StoredBlock, new_dead, new_confirmed}
use alpamayo.Blocks.Write.{
  get_back_slot, is_full, push_block_back_dead, push_block_back_confirmed, push_block_front_dead,
  push_block_front_confirmed, get_back_height,
}
use alpamayo.Blocks.Scan.{is_full-eq}
use alpamayo.Store.Db.{BlockWithBinary, slot_add, add_indexes}
use alpamayo.Store.Write.{
  StoreError, database, Store, Io, ◌>>=◌, ◌>>◌, ensure, from_ring, from_files, check_slot,
  check_height, below_u64, store_dead, store_block, push_block_back,
}
use alpamayo.Files.File.{push_block}
use alpamayo.Store.Push.{Below, add, Fits, push-Agrees, add, Fits, push-Agrees, Below}
use alpamayo.Store.Checks.{bind-ok, ok-inj, back_slot-Below}
use alpamayo.Store.Pops.{Stores}

module _ {E : Type 0} where
  -- A push at the back that succeeds puts the block before the run.
  pub store_dead-Stores :
      (side : VecSide) (slot : ℕ) (io : Io) (s : Store E) {t : Store E} {n : ℕ}
      (bs : List StoredBlock)
      → Stores s n bs
      → length bs < n
      → suc slot < 2 ^ 64
      → Fits side slot bs
      → store_dead side slot io s ≡ ok t
      → Stores t n (add side (new_dead slot) bs)
  unfolding store_dead push_block_back_dead push_block_front_dead slot_add
  store_dead-Stores side slot io s bs (h, l) room small fits e =
      let p =
        push-Agrees side (new_dead slot) s.ring s.db.slot_basic_index bs h refl (omega arith) small
          fits in
      bind-ok (ensure io.slot database) _ e
        λ _ _ e1. let e2 = rw p.1 at e1 in rw (sym (ok-inj e2)) (p.3, p.2 ∙ l)

  pub store_block-Stores :
      (side : VecSide) (slot : ℕ) (block : BlockWithBinary E) (storage_id offset : ℕ) (io : Io)
      (s : Store E) {t : Store E} {n : ℕ} (bs : List StoredBlock)
      → Stores s n bs
      → length bs < n
      → suc slot < 2 ^ 64
      → Fits side slot bs
      → store_block side slot block storage_id offset io s ≡ ok t
      → Stores t n (
          add side
            (new_confirmed slot block.block_time block.block_height storage_id offset block.len)
            bs)
  unfolding store_block push_block_back_confirmed push_block_front_confirmed slot_add
  store_block-Stores side slot block storage_id offset io s bs (h, l) room small fits e =
      let b = new_confirmed slot block.block_time block.block_height storage_id offset block.len in
      let p = push-Agrees side b s.ring s.db.slot_basic_index bs h refl (omega arith) small fits in
      bind-ok (ensure io.slot database) _ e
        λ _ _ e1. let e2 = rw p.1 at e1 in rw (sym (ok-inj e2)) (p.3, p.2 ∙ l)

  -- A block at one end of the run, with the slot of the call, and dead if the call gives none.
  abbrev pub Added :
      VecSide → ℕ → Option (BlockWithBinary E) → Store E → ℕ → List StoredBlock → Type 0
  Added side slot block t n bs =
      (b : StoredBlock) × (b.slot ≡ slot)
      × (b.dead ≡ not (is_some block))
      × Stores t n (add side b bs)

  -- What `push_block_back` leaves behind, by its result.
  abbrev pub AfterBack :
      ℕ → Option (BlockWithBinary E) → ℕ → List StoredBlock → Store E → Bool → Type 0
  AfterBack slot block n bs t true = Added back slot block t n bs
  AfterBack slot block n bs t false = Stores t n bs

  pub room-back :
      (s : Store E) {n : ℕ} (bs : List StoredBlock)
      → Stores s n bs
      → is_full s.ring ≡ false
      → length bs < n
  room-back s bs (h, l) e = let full = is_full-eq s.ring h.holds in ground (arith, h.holds.count)

  AfterBack-same :
      (slot : ℕ) (block : Option (BlockWithBinary E)) (n : ℕ) (bs : List StoredBlock)
      {p q : Store E × Bool}
      → p ≡ q
      → AfterBack slot block n bs p.0 p.1
      → AfterBack slot block n bs q.0 q.1
  AfterBack-same slot block n bs e h = rw (sym e) h

  -- After the checks, with a free place in the ring.
  abbrev back_rest :
      ℕ → Option (BlockWithBinary E) → Io → Store E → Result StoreError (Store E × Bool)
  back_rest slot block io s = elim block [
    | none ↦ store_dead back slot io s >>= λ t. ok (t, true)
    | some block ↦
        let (files, written) = push_block block.len io.file back s.files in
        from_files written >>= λ location. ensure io.indexes database >> elim location [
          | none ↦ ok (record s { files = files; db = add_indexes slot block s.db }, false)
          | some (storage_id, offset) ↦
              store_block back slot block storage_id offset io
                (record s { files = files; db = add_indexes slot block s.db })
              >>= λ t. ok (t, true)
        ]
  ]

  stored-back :
      (slot : ℕ) (block : Option (BlockWithBinary E)) (io : Io) (s : Store E) {t : Store E}
      {stored : Bool} {n : ℕ} (bs : List StoredBlock)
      → Stores s n bs
      → length bs < n
      → suc slot < 2 ^ 64
      → Below slot bs
      → back_rest slot block io s ≡ ok (t, stored)
      → AfterBack slot block n bs t stored
  unfolding add_indexes
  stored-back slot none io s bs h room small fits e =
      bind-ok (store_dead back slot io s) _ e λ u made e1.
        AfterBack-same slot none _ bs (ok-inj e1)
          (new_dead slot, refl, refl, store_dead-Stores back slot io s bs h room small fits made)
  stored-back slot (some block) io s bs h room small fits e =
      let files = (push_block block.len io.file back s.files).0 in
      let s1 : Store E = record s { files = files; db = add_indexes slot block s.db } in
      bind-ok (from_files (push_block block.len io.file back s.files).1) _ e λ location _ e1.
        bind-ok (ensure io.indexes database) _ e1 λ _ _ e2. elim (Option-cases location) [
          | inl f ↦ let e3 = rw f at e2 in AfterBack-same slot (some block) _ bs (ok-inj e3) h
          | inr ((storage_id, offset), f) ↦
              let e3 = rw f at e2 in
              bind-ok (store_block back slot block storage_id offset io s1) _ e3 λ u made e4.
                AfterBack-same slot (some block) _ bs (ok-inj e4) (
                  new_confirmed slot block.block_time block.block_height storage_id offset
                      block.len,
                  refl,
                  refl,
                  store_block-Stores back slot block storage_id offset io s1 bs h room small fits
                      made,
                )
        ]

  -- A push at the back that succeeds, of a slot below u64::MAX: if it returns true, the new
  -- block stands before the run of the stored ones, in the ring and in the slot index, with the
  -- slot of the call, and dead just if the call gives no block; if it returns false, the ring
  -- and the slot index hold the same run as before.
  pub push_block_back-AfterBack :
      (slot : ℕ) (block : Option (BlockWithBinary E)) (io : Io) (s : Store E) {t : Store E}
      {stored : Bool} {n : ℕ} (bs : List StoredBlock)
      → Stores s n bs
      → suc slot < 2 ^ 64
      → push_block_back slot block io s ≡ ok (t, stored)
      → AfterBack slot block n bs t stored
  unfolding push_block_back
  push_block_back-AfterBack slot block io s {t} {stored} {n} bs h small e =
      bind-ok
        (check_slot (elim (get_back_slot s.ring) [ none ↦ none | some low ↦ some (below_u64 low) ])
          slot)
        _ e
        λ _ c e1. bind-ok (from_ring (get_back_height s.ring)) _ e1 λ height _ e2.
          bind-ok (check_height back height block) _ e2 λ _ _ e3.
            let fits = back_slot-Below s.ring s.db.slot_basic_index bs slot h.0 small c in
            elim (Bool-cases (is_full s.ring)) as (λ _. AfterBack slot block n bs t stored) [
              | inl f ↦ let e4 = rw f at e3 in AfterBack-same slot block n bs (ok-inj e4) h
              | inr f ↦
                  let e4 = rw f at e3 in
                  stored-back slot block io s {t = t} {stored = stored} bs h (room-back s bs h f)
                    small fits e4
            ]
