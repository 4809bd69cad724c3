-- ===== src/Store/Restart.antt =====
-- `Rocksdb::spawn_slots` (src/storage/rocksdb.rs) and `StoredBlocksWrite::new` (src/storage/blocks.rs):
-- a run of calls, and the ring that a restart builds from the slot index.
use alpamayo.Prelude.{
  ℕ, suc, ◌+◌, ◌^◌, ◌<◌, ◌≡◌, refl, sym, ap, Bool, true, false, Option, some, none, List, [], ◌∷◌,
  ◌++◌, arith, ◌==◌, length, Result, ok,
}
use alpamayo.Slots.Stored.{StoredSlots}
use alpamayo.Blocks.Block.{VecSide, StoredBlock}
use alpamayo.Blocks.Write.{RingMessage, StoredBlocksWrite, new}
use alpamayo.Blocks.Ring.{contents}
use alpamayo.Blocks.Scan.{ring_of}
use alpamayo.Blocks.Load.{Contiguous, new-loads}
use alpamayo.Store.Db.{BlockWithBinary, stored_block, slots_loop, spawn_slots}
use alpamayo.Store.Write.{
  StoreError, Store, Io, ◌>>=◌, pop_block, push_block_back, push_block_front,
}
use alpamayo.Store.Agree.{value_of, rows}
use alpamayo.Store.Checks.{bind-ok, ok-inj}
use alpamayo.Store.Pops.{Stores, pop_block-Stores}
use alpamayo.Store.Runs.{AfterBack, push_block_back-AfterBack}
use alpamayo.Store.FrontRuns.{push_block_front-Added}

same_block : (b : StoredBlock) → b.exists ≡ true → stored_block b.slot (value_of b) ≡ b
same_block b e = ap (λ x. record b { exists = x }) (sym e)

slots_loop-rows :
    (c last : ℕ) (bs : List StoredBlock)
    → suc last ≡ c
    → Contiguous c bs
    → slots_loop (some last) (rows bs) ≡ some bs
unfolding slots_loop
slots_loop-rows c last [] l q = refl
slots_loop-rows c last (b ∷ bs) l (e, x, q) =
    let next : (last + 1 == b.slot) ≡ true = ground arith in
    rw (slots_loop-rows (suc c) b.slot bs (omega arith) q, next, same_block b e)

spawn_slots-rows :
    (c : ℕ) (bs : List StoredBlock) → Contiguous c bs → slots_loop none (rows bs) ≡ some bs
unfolding slots_loop
spawn_slots-rows c [] q = refl
spawn_slots-rows c (b ∷ bs) (e, x, q) =
    rw (slots_loop-rows (suc c) b.slot bs (omega arith) q, same_block b e)

-- The calls of the writer, each with how its writes end.
pub data Call (E : Type 0) : Type 0 where
  push_back push_front : (slot : ℕ) → Option (BlockWithBinary E) → Io → Call E
  pop : VecSide → Io → Call E

module _ {E : Type 0} where
  -- A restart after any stop between two calls: the loaded blocks are the stored ones, and the new ring
  -- holds them.
  pub restart-Stores :
      (s : Store E) (n : ℕ) (bs : List StoredBlock) (stored : StoredSlots) (tx : List RingMessage)
      → Stores s n bs
      → (spawn_slots s.db ≡ some bs)
        × ((ring : StoredBlocksWrite) × (new bs n stored tx ≡ ok ring)
            × Stores (record s { ring = ring }) n bs)
  unfolding spawn_slots
  restart-Stores s n bs stored tx (h, l) =
      let (ring, made, holds, run_is, places, _, _) =
        new-loads h.first n bs stored tx h.run (omega (arith, h.holds.count))
          (omega (arith, h.holds.tail_in)) in
      (
        rw h.rows_are (spawn_slots-rows h.first bs h.run),
        (
          ring,
          made,
          (
            record {
              first = h.first;
              holds = holds;
              run_is = run_is;
              run = h.run;
              rows_are = h.rows_are;
              below = h.below;
            },
            places,
          ),
        ),
      )

  unfoldable pub run_call : Call E → Store E → Result StoreError (Store E)
  run_call (push_back slot block io) s = push_block_back slot block io s >>= λ r. ok r.0
  run_call (push_front slot block io) s = push_block_front slot block io s
  run_call (pop side io) s = pop_block side io s

  unfoldable pub run_calls : List (Call E) → Store E → Result StoreError (Store E)
  unfolding run_call
  run_calls [] s = ok s
  run_calls (c ∷ calls) s = run_call c s >>= λ t. run_calls calls t

  -- The slots of the pushes are below `u64::MAX`.
  abbrev pub Slots : List (Call E) → Type 0
  Slots [] = Unit
  Slots (push_back slot block io ∷ calls) = (suc slot < 2 ^ 64) × Slots calls
  Slots (push_front slot block io ∷ calls) = (suc slot < 2 ^ 64) × Slots calls
  Slots (pop side io ∷ calls) = Slots calls

  run_call-Stores :
      (c : Call E) (calls : List (Call E)) (s : Store E) {t : Store E} {n : ℕ}
      (bs : List StoredBlock)
      → Stores s n bs
      → Slots (c ∷ calls)
      → run_call c s ≡ ok t
      → (bs' : List StoredBlock) × Stores t n bs'
  unfolding run_call
  run_call-Stores (push_back slot block io) calls s {t} {n} bs h l e =
      bind-ok (push_block_back slot block io s) _ e λ r done e1.
        let kept =
          after r.0 r.1
            (push_block_back-AfterBack slot block io s {t = r.0} {stored = r.1} bs h l.0 done) in
        (kept.0, rw (sym (ok-inj e1)) kept.1)
    where
      after :
          (u : Store E) (stored : Bool)
          → AfterBack slot block n bs u stored
          → (bs' : List StoredBlock) × Stores u n bs'
      after u true (b, _, _, kept) = (b ∷ bs, kept)
      after u false kept = (bs, kept)
  run_call-Stores (push_front slot block io) calls s bs h l e =
      let (rest, _, (b, _, _, kept)) = push_block_front-Added slot block io s bs h l.0 e in
      (rest ++ (b ∷ []), kept)
  run_call-Stores (pop side io) calls s bs h l e =
      let (b, rest, _, kept) = pop_block-Stores side io s bs h e in (rest, kept)

  run_calls-Stores :
      (calls : List (Call E)) (s : Store E) {t : Store E} {n : ℕ} (bs : List StoredBlock)
      → Stores s n bs
      → Slots calls
      → run_calls calls s ≡ ok t
      → (bs' : List StoredBlock) × Stores t n bs'
  unfolding run_calls
  run_calls-Stores [] s bs h l e = (bs, rw (sym (ok-inj e)) h)
  run_calls-Stores (c ∷ calls) s bs h l e = bind-ok (run_call c s) _ e λ u done e1.
      let (bs', kept) = run_call-Stores c calls s bs h l done in
      run_calls-Stores calls u bs' kept (Slots-rest c calls l) e1
    where
      Slots-rest : (c : Call E) (calls : List (Call E)) → Slots (c ∷ calls) → Slots calls
      Slots-rest (push_back slot block io) calls l = l.1
      Slots-rest (push_front slot block io) calls l = l.1
      Slots-rest (pop side io) calls l = l

  -- From a store whose slot index is the rows of the run of blocks in its ring, after any calls
  -- that succeed, pushes of slots below u64::MAX and pops at either end: there is a run of
  -- blocks that the ring holds, spawn_slots loads exactly this run, StoredBlocksWrite::new makes
  -- a ring of it without error, and that ring with the same index is such a store again.
  pub restart :
      (calls : List (Call E)) (s : Store E) {t : Store E} (n : ℕ) (bs : List StoredBlock)
      (stored : StoredSlots) (tx : List RingMessage)
      → Stores s n bs
      → Slots calls
      → run_calls calls s ≡ ok t
      → (bs' : List StoredBlock) × (ring : StoredBlocksWrite) × (contents
            (ring_of t.ring)
            (length bs')
          ≡ bs')
        × (spawn_slots t.db ≡ some bs')
        × (new bs' n stored tx ≡ ok ring)
        × Stores (record t { ring = ring }) n bs'
  restart calls s {t} n bs stored tx h l e =
      let (bs', kept) = run_calls-Stores calls s bs h l e in
      let (loaded, (ring, made, again)) = restart-Stores t n bs' stored tx kept in
      (bs', ring, kept.0.run_is, loaded, made, again)
