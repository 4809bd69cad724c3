-- ===== src/Store/Agree.antt =====
-- src/storage/rocksdb.rs and src/storage/blocks.rs: the rows of the slot index against the ring.
use alpamayo.Prelude.{
  ℕ, suc, ◌+◌, ◌<◌, ◌≡◌, refl, ap, true, List, [], ◌∷◌, ◌++◌, arith, ◌^◌, length,
}
use alpamayo.Prelude.TreeMap.{insert, remove}
use alpamayo.Blocks.Block.{StoredBlock}
use alpamayo.Blocks.Ring.{Ring, Holds, contents}
use alpamayo.Blocks.Load.{Contiguous}
use alpamayo.Codec.Basic.{SlotBasicIndexValue}

abbrev pub value_of : StoredBlock → SlotBasicIndexValue
value_of b = record {
  dead = b.dead;
  block_time = b.block_time;
  block_height = b.block_height;
  storage_id = b.storage_id;
  offset = b.offset;
  size = b.size;
}

-- The rows of a run of blocks.
abbrev pub rows : List StoredBlock → List (ℕ × SlotBasicIndexValue)
rows [] = []
rows (b ∷ bs) = (b.slot, value_of b) ∷ rows bs

-- The ring holds just the given blocks, which have consecutive slots below `u64::MAX`, and the slot
-- index has just their rows.
pub record Agrees (ring : Ring) (index : List (ℕ × SlotBasicIndexValue)) (bs : List StoredBlock)
    : Type 0 where
  pub first : ℕ
  pub holds : Holds ring (length bs)
  pub run_is : contents ring (length bs) ≡ bs
  pub run : Contiguous first bs
  pub rows_are : index ≡ rows bs
  pub below : first + length bs < 2 ^ 64

pub rows-append :
    (bs : List StoredBlock) (b : StoredBlock)
    → rows (bs ++ (b ∷ [])) ≡ rows bs ++ ((b.slot, value_of b) ∷ [])
rows-append [] b = refl
rows-append (a ∷ bs) b = ap (λ m. (a.slot, value_of a) ∷ m) (rows-append bs b)

pub Contiguous-append :
    (c : ℕ) (bs : List StoredBlock) (b : StoredBlock)
    → b.exists ≡ true
    → b.slot ≡ c + length bs
    → Contiguous c bs
    → Contiguous c (bs ++ (b ∷ []))
Contiguous-append c [] b e s q = (e, omega arith, tt)
Contiguous-append c (a ∷ bs) b e s (x, y, q) =
    (x, y, Contiguous-append (suc c) bs b e (omega arith) q)

pub append-Contiguous :
    (c : ℕ) (bs : List StoredBlock) (b : StoredBlock)
    → Contiguous c (bs ++ (b ∷ []))
    → Contiguous c bs × (b.slot ≡ c + length bs)
append-Contiguous c [] b q = (tt, omega (arith, q.1))
append-Contiguous c (a ∷ bs) b (x, y, q) =
    let rest = append-Contiguous (suc c) bs b q in ((x, y, rest.0), omega (arith, rest.1))

pub insert-last :
    (c slot : ℕ) (v : SlotBasicIndexValue) (bs : List StoredBlock)
    → slot ≡ c + length bs
    → Contiguous c bs
    → insert slot v (rows bs) ≡ rows bs ++ ((slot, v) ∷ [])
unfolding insert
insert-last c slot v [] e q = refl
insert-last c slot v (b ∷ bs) e (x, y, q) =
    ground (arith, insert-last (suc c) slot v bs (omega arith) q)

pub insert-first :
    (c slot : ℕ) (v : SlotBasicIndexValue) (bs : List StoredBlock)
    → suc slot ≡ c
    → Contiguous c bs
    → insert slot v (rows bs) ≡ (slot, v) ∷ rows bs
unfolding insert
insert-first c slot v [] e q = refl
insert-first c slot v (b ∷ bs) e (x, y, q) = ground arith

remove-absent :
    (c slot : ℕ) (bs : List StoredBlock)
    → slot < c
    → Contiguous c bs
    → remove slot (rows bs) ≡ rows bs
unfolding remove
remove-absent c slot [] l q = refl
remove-absent c slot (b ∷ bs) l (x, y, q) =
    ground (arith, remove-absent (suc c) slot bs (omega arith) q)

pub remove-first :
    (c : ℕ) (b : StoredBlock) (bs : List StoredBlock)
    → Contiguous c (b ∷ bs)
    → remove b.slot (rows (b ∷ bs)) ≡ rows bs
unfolding remove
remove-first c b bs (x, y, q) = ground (arith, remove-absent (suc c) b.slot bs (omega arith) q)

pub remove-last :
    (c : ℕ) (bs : List StoredBlock) (b : StoredBlock)
    → Contiguous c (bs ++ (b ∷ []))
    → remove b.slot (rows (bs ++ (b ∷ []))) ≡ rows bs
unfolding remove
remove-last c [] b q = ground arith
remove-last c (a ∷ bs) b (x, y, q) =
    ground (arith, remove-last (suc c) bs b q, append-Contiguous (suc c) bs b q)
