-- ===== src/Store/Room.antt =====
-- The loop of `push_block_front` (src/storage/rocksdb.rs): it ends.
use alpamayo.Prelude.{
  ℕ, zero, suc, ◌+◌, ◌<◌, ◌≡◌, ◌≢◌, refl, ap, inl, inr, Bool, Option, some, none, List,
  Option-cases, arith, length, Result, ok, err, Bool-cases,
}
use alpamayo.Blocks.Write.{
  Error, StoredBlocksWrite, push_block_back_dead, push_block_front_dead, push_block_front_confirmed,
  get_front_slot, get_front_height, is_full,
}
use alpamayo.Blocks.Block.{VecSide, back, front, StoredBlock}
use alpamayo.Files.File.{push_block, FileError, StorageFilesWrite}
use alpamayo.Store.Db.{remove_slot, BlockWithBinary, add_indexes}
use alpamayo.Store.Write.{
  StoreError, out_of_fuel, Store, Io, ◌>>=◌, ensure, ring_after, from_ring, from_files, from_option,
  database, check_slot, check_height, pop_block, store_dead, store_block, push_block_front,
  make_room, pop_files, pop_ring, slot_not_found, no_blocks,
}
use alpamayo.Store.FrontRuns.{front_rest}
use alpamayo.Store.Pops.{Stores, pop_block_back-Stores}

err-inj : {A : Type 0} {x y : StoreError} → ◌≡◌ {A = Result StoreError A} (err x) (err y) → x ≡ y
err-inj e = cc

-- A call ends otherwise than with the given error if its first step and the rest do.
bind-≢ :
    {A B : Type 0} (m : Result StoreError A) (f : A → Result StoreError B) (x : StoreError)
    → (m ≢ err x)
    → ((a : A) → m ≡ ok a → f a ≢ err x)
    → (m >>= f) ≢ err x
bind-≢ (ok a) f x h k e = k a refl e
bind-≢ (err y) f x h k e = h (ap err (err-inj e))

from_files-≢ : {A : Type 0} (r : Result FileError A) → from_files r ≢ err out_of_fuel
from_files-≢ r e = ground arith

pop_files-≢ :
    (b : StoredBlock) (side : VecSide) (files : StorageFilesWrite)
    → pop_files b side files ≢ err out_of_fuel
unfolding pop_files
pop_files-≢ b side files e = ground arith

from_option-≢ : {A : Type 0} (o : Option A) → from_option o no_blocks ≢ err out_of_fuel
from_option-≢ o e = ground arith

slot_found-≢ : {A : Type 0} (o : Option A) → from_option o slot_not_found ≢ err out_of_fuel
slot_found-≢ o e = ground arith

ensure-≢ : (b : Bool) → ensure b database ≢ err out_of_fuel
ensure-≢ b e = ground arith

ring_after-≢ : (p : StoredBlocksWrite × Result Error (Unit {0})) → ring_after p ≢ err out_of_fuel
ring_after-≢ p e = ground arith

from_ring-≢ : {A : Type 0} (r : Result Error A) → from_ring r ≢ err out_of_fuel
from_ring-≢ r e = ground arith

check_slot-≢ : (o : Option ℕ) (slot : ℕ) → check_slot o slot ≢ err out_of_fuel
unfolding check_slot
check_slot-≢ o slot e = ground arith

module _ {E : Type 0} where
  check_height-≢ :
      (side : VecSide) (height : Option (ℕ × ℕ)) (block : Option (BlockWithBinary E))
      → check_height side height block ≢ err out_of_fuel
  unfolding check_height
  check_height-≢ side height block e = ground arith

  store_dead-≢ :
      (side : VecSide) (slot : ℕ) (io : Io) (s : Store E)
      → store_dead side slot io s ≢ err out_of_fuel
  unfolding store_dead
  store_dead-≢ side slot io s =
      bind-≢ (ensure io.slot database) _ out_of_fuel (ensure-≢ io.slot) λ _ _.
        bind-≢
          (ring_after (elim side [
            | back ↦ push_block_back_dead slot s.ring
            | front ↦ push_block_front_dead slot s.ring
          ]))
          _ out_of_fuel
          (ring_after-≢ (elim side [
            | back ↦ push_block_back_dead slot s.ring
            | front ↦ push_block_front_dead slot s.ring
          ]))
          λ _ _ e. ground arith

  store_block-≢ :
      (slot : ℕ) (block : BlockWithBinary E) (storage_id offset : ℕ) (io : Io) (s : Store E)
      → store_block front slot block storage_id offset io s ≢ err out_of_fuel
  unfolding store_block
  store_block-≢ slot block storage_id offset io s =
      let pushed =
        push_block_front_confirmed slot block.block_time block.block_height storage_id offset
          block.len s.ring in
      bind-≢ (ensure io.slot database) _ out_of_fuel (ensure-≢ io.slot)
        λ _ _. bind-≢ (ring_after pushed) _ out_of_fuel (ring_after-≢ pushed) λ _ _ e. ground arith

  pop_block-≢ : (side : VecSide) (io : Io) (s : Store E) → pop_block side io s ≢ err out_of_fuel
  unfolding pop_block
  pop_block-≢ side io s =
      bind-≢ (from_option (pop_ring side s.ring).1 no_blocks) _ out_of_fuel
        (from_option-≢ (pop_ring side s.ring).1)
        λ b _. bind-≢ (ensure io.removal database) _ out_of_fuel (ensure-≢ io.removal) λ _ _.
          bind-≢ (from_option (remove_slot b.slot b.dead s.db) slot_not_found) _ out_of_fuel
            (slot_found-≢ (remove_slot b.slot b.dead s.db))
            λ _ _.
              bind-≢ (pop_files b side s.files) _ out_of_fuel (pop_files-≢ b side s.files)
                λ _ _ e. ground arith

  make_room-≢ :
      (fuel len : ℕ) (io : Io) (s : Store E) {n : ℕ} (bs : List StoredBlock)
      → Stores s n bs
      → length bs < fuel
      → make_room fuel len io s ≢ err out_of_fuel
  unfolding make_room
  make_room-≢ zero len io s bs h l = absurd (omega arith)
  make_room-≢ (suc fuel) len io s {n} bs h l =
      let s1 : Store E = record s { files = (push_block len io.file front s.files).0 } in
      bind-≢ (from_files (push_block len io.file front s.files).1) _ out_of_fuel
        (from_files-≢ (push_block len io.file front s.files).1)
        λ location _ e. elim (Option-cases location) [
          | inr (_, f) ↦ let e1 = rw f at e in ground arith
          | inl f ↦
              let e1 = rw f at e in
              bind-≢ (pop_block back io s1) _ out_of_fuel (pop_block-≢ back io s1)
                (λ u popped.
                  let (b, rest, split, kept) = pop_block_back-Stores io s1 bs h popped in
                  make_room-≢ fuel len io u rest kept (omega (arith, ap length split)))
                e1
        ]

  front_rest-≢ :
      (slot : ℕ) (block : Option (BlockWithBinary E)) (io : Io) (s : Store E) {n : ℕ}
      (bs : List StoredBlock)
      → Stores s n bs
      → front_rest slot block io s ≢ err out_of_fuel
  front_rest-≢ slot none io s bs h = store_dead-≢ front slot io s
  front_rest-≢ slot (some block) io s bs h =
      bind-≢ (make_room (length s.ring.blocks + 1) block.len io s) _ out_of_fuel
        (make_room-≢ (length s.ring.blocks + 1) block.len io s bs h
          (omega (arith, h.0.holds.count)))
        λ r _. bind-≢ (ensure io.indexes database) _ out_of_fuel (ensure-≢ io.indexes) λ _ _.
          store_block-≢ slot block r.1 r.2 io (record r.0 { db = add_indexes slot block r.0.db })

  -- On a store whose slot index is the rows of the run in its ring, push_block_front does not
  -- run out of the fuel of its loop, which is one more than the number of places: every round
  -- that finds no room in the files takes a block away, or ends with an error.
  pub push_block_front_ends :
      (slot : ℕ) (block : Option (BlockWithBinary E)) (io : Io) (s : Store E) {n : ℕ}
      (bs : List StoredBlock)
      → Stores s n bs
      → push_block_front slot block io s ≢ err out_of_fuel
  unfolding push_block_front
  push_block_front_ends slot block io s bs h =
      let asked : Option ℕ = elim (get_front_slot s.ring) [
        | none ↦ none
        | some high ↦ some (high + 1)
      ] in
      bind-≢ (check_slot asked slot) _ out_of_fuel (check_slot-≢ asked slot) λ _ _.
        bind-≢ (from_ring (get_front_height s.ring)) _ out_of_fuel
          (from_ring-≢ (get_front_height s.ring))
          λ height _.
            bind-≢ (check_height front height block) _ out_of_fuel
              (check_height-≢ front height block)
              λ _ _. elim (Bool-cases (is_full s.ring)) [
                | inl f ↦ rw f (
                    bind-≢ (pop_block back io s) _ out_of_fuel (pop_block-≢ back io s) λ u popped.
                      let (b, rest, split, kept) = pop_block_back-Stores io s bs h popped in
                      front_rest-≢ slot block io u rest kept)
                | inr f ↦ rw f (front_rest-≢ slot block io s bs h)
              ]
