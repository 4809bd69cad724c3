-- ===== src/Store/FrontRuns.antt =====
-- `push_block_front` (src/storage/rocksdb.rs): the blocks that leave at the back for the new one.
use alpamayo.Prelude.{
  ℕ, zero, suc, ◌+◌, ◌^◌, ◌<◌, ◌≡◌, refl, sym, ap, ◌∙◌, inl, inr, Option, some, none, List, [], ◌∷◌,
  ◌++◌, Option-cases, arith, if◌then◌else◌, length, length-append, Result, ok, Bool-cases,
}
use alpamayo.Blocks.Block.{back, front, StoredBlock, new_dead, new_confirmed}
use alpamayo.Blocks.Write.{get_front_slot, get_front_height, is_full}
use alpamayo.Blocks.Load.{Contiguous}
use alpamayo.Files.File.{push_block}
use alpamayo.Store.Db.{BlockWithBinary, add_indexes}
use alpamayo.Store.Write.{
  StoreError, Store, Io, ◌>>=◌, ◌>>◌, ensure, from_ring, from_files, database, check_slot,
  check_height, pop_block, store_dead, store_block, push_block_front, make_room,
}
use alpamayo.Store.Push.{AboveLast}
use alpamayo.Store.Checks.{bind-ok, ok-inj, front_slot-AboveLast}
use alpamayo.Store.Pops.{Stores, pop_block_back-Stores}
use alpamayo.Store.Runs.{Added, store_dead-Stores, store_block-Stores, room-back}

-- The blocks are the last ones of a run.
abbrev pub EndOf : List StoredBlock → List StoredBlock → Type 0
EndOf rest bs = (gone : List StoredBlock) × (bs ≡ gone ++ rest)

AboveLast-rest :
    (slot c : ℕ) (b : StoredBlock) (rest : List StoredBlock)
    → Contiguous c (b ∷ rest)
    → AboveLast slot (b ∷ rest)
    → AboveLast slot rest
AboveLast-rest slot c b [] q a = tt
AboveLast-rest slot c b (d ∷ rest) q a = omega (arith, q.1, q.2.1)

AboveLast-split :
    (slot c : ℕ) (bs : List StoredBlock) (b : StoredBlock) (rest : List StoredBlock)
    → bs ≡ b ∷ rest
    → Contiguous c bs
    → AboveLast slot bs
    → AboveLast slot rest
AboveLast-split slot c bs b rest e q a = AboveLast-rest slot c b rest (rw e at q) (rw e at a)

module _ {E : Type 0} where
  pub make_room-EndOf :
      (fuel len : ℕ) (io : Io) (s : Store E) {t : Store E} {id offset : ℕ} {n : ℕ} (slot : ℕ)
      (bs : List StoredBlock)
      → Stores s n bs
      → AboveLast slot bs
      → make_room fuel len io s ≡ ok (t, id, offset)
      → (rest : List StoredBlock) × EndOf rest bs × Stores t n rest × AboveLast slot rest
  unfolding make_room
  make_room-EndOf zero len io s slot bs h a e = absurd (ground arith)
  make_room-EndOf (suc fuel) len io s {t} {id} {offset} {n} slot bs h a e =
      let s1 : Store E = record s { files = (push_block len io.file front s.files).0 } in
      bind-ok (from_files (push_block len io.file front s.files).1) _ e λ location _ e1.
        elim (Option-cases location) [
          | inr (at_file', f) ↦
              let e2 = rw f at e1 in
              (bs, ([], refl), rw (sym (ap (λ (p : Store E × ℕ × ℕ). p.0) (ok-inj e2))) h, a)
          | inl f ↦
              let e2 = rw f at e1 in
              bind-ok (pop_block back io s1) _ e2 λ u popped e3.
                let (b, rest, split, kept) = pop_block_back-Stores io s1 bs h popped in
                let (rest', (gone, split'), kept', a') =
                  make_room-EndOf fuel len io u slot rest kept
                    (AboveLast-split slot h.0.first bs b rest split h.0.run a) e3 in
                (rest', (b ∷ gone, split ∙ ap (λ l. b ∷ l) split'), kept', a')
        ]

  -- After the checks and, on a full ring, the pop.
  abbrev pub front_rest :
      ℕ → Option (BlockWithBinary E) → Io → Store E → Result StoreError (Store E)
  front_rest slot block io s = elim block [
    | none ↦ store_dead front slot io s
    | some block ↦ make_room (length s.ring.blocks + 1) block.len io s >>= λ r.
        ensure io.indexes database
        >> store_block front slot block r.1 r.2 io
            (record r.0 { db = add_indexes slot block r.0.db })
  ]

  stored-front :
      (slot : ℕ) (block : Option (BlockWithBinary E)) (io : Io) (s : Store E) {t : Store E} {n : ℕ}
      (bs : List StoredBlock)
      → Stores s n bs
      → length bs < n
      → suc slot < 2 ^ 64
      → AboveLast slot bs
      → front_rest slot block io s ≡ ok t
      → (rest : List StoredBlock) × EndOf rest bs × Added front slot block t n rest
  unfolding add_indexes
  stored-front slot none io s bs h room small fits e = (
    bs,
    ([], refl),
    (new_dead slot, refl, refl, store_dead-Stores front slot io s bs h room small fits e),
  )
  stored-front slot (some block) io s {t} {n} bs h room small fits e =
      bind-ok (make_room (length s.ring.blocks + 1) block.len io s) _ e λ r made e1.
        bind-ok (ensure io.indexes database) _ e1 λ _ _ e2.
          let (rest, (gone, split), kept, fits') =
            make_room-EndOf (length s.ring.blocks + 1) block.len io s slot bs h fits made in
          let shorter : length rest < n =
            omega (arith, room, ap length split, length-append gone rest) in
          (
            rest,
            (gone, split),
            (
              new_confirmed slot block.block_time block.block_height r.1 r.2 block.len,
              refl,
              refl,
              store_block-Stores front slot block r.1 r.2 io
                  (record r.0 { db = add_indexes slot block r.0.db }) rest kept shorter small fits'
                  e2,
            ),
          )

  -- A push at the front that succeeds, of a slot below u64::MAX: what is left of the stored
  -- blocks is an end of their run, so blocks have left at the back only, and the new block, with
  -- the slot of the call, stands after them, in the ring and in the slot index. It is dead just
  -- if the call gives no block.
  pub push_block_front-Added :
      (slot : ℕ) (block : Option (BlockWithBinary E)) (io : Io) (s : Store E) {t : Store E} {n : ℕ}
      (bs : List StoredBlock)
      → Stores s n bs
      → suc slot < 2 ^ 64
      → push_block_front slot block io s ≡ ok t
      → (rest : List StoredBlock) × EndOf rest bs × Added front slot block t n rest
  unfolding push_block_front
  push_block_front-Added slot block io s {t} {n} bs h small e =
      bind-ok
        (check_slot (elim (get_front_slot s.ring) [ none ↦ none | some high ↦ some (high + 1) ])
          slot)
        _ e
        λ _ c e1. bind-ok (from_ring (get_front_height s.ring)) _ e1 λ height _ e2.
          bind-ok (check_height front height block) _ e2 λ _ _ e3.
            bind-ok (if is_full s.ring then pop_block back io s else ok s) _ e3 λ u left e4.
              let fits = front_slot-AboveLast s.ring s.db.slot_basic_index bs slot h.0 c in
              elim (Bool-cases (is_full s.ring)) [
                | inl f ↦
                    let (b, rest, split, kept) = pop_block_back-Stores io s bs h (rw f at left) in
                    let room : length rest < n =
                      omega (arith, ap length split, h.0.holds.count, h.1) in
                    let fits' = AboveLast-split slot h.0.first bs b rest split h.0.run fits in
                    let (rest', (gone, split'), added) =
                      stored-front slot block io u rest kept room small fits' e4 in
                    (rest', (b ∷ gone, split ∙ ap (λ l. b ∷ l) split'), added)
                | inr f ↦
                    let same = ok-inj (rw f at left) in
                    stored-front slot block io u bs (rw (sym same) h) (room-back s bs h f) small
                      fits e4
              ]
