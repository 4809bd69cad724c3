-- ===== src/Stream/Complete.antt =====
-- src/source/stream.rs: what a reported block is made of.
use alpamayo.Prelude.{
  Result-cases, ℕ, ◌≡◌, ◌≢◌, refl, sym, ap, ◌∙◌, Option, none, some, true, false, [], ◌∷◌, ◌++◌,
  length, ok, arith, Bool-cases, Option-cases, inl, inr,
}
use alpamayo.Source.Transaction.{TransactionWithBinary}
use alpamayo.Source.Encode.{Prost, Reward}
use alpamayo.Source.Block.{NewBlock}
use alpamayo.Stream.Slot.{
  SlotStatusProto, slot_processed, slot_confirmed, slot_finalized, slot_first_shred_received,
  slot_completed, slot_created_bank, slot_dead, SubscribeUpdateBlockMeta, SlotInfo, try_build_block,
}
use alpamayo.Stream.Poll.{
  add_transaction, report, dropped, StreamSource, Update, failed, missing, ping, account,
  transaction_status, full_block, pong, entry, block_footer, entry_update_parent, slot_update,
  transaction, block_meta, block, Outcome, slot_info, on_update, on_slot, on_transaction,
  on_block_meta, see_bank, finalize, is_above, if_above, created_bank, dead_or_confirmed,
}
use alpamayo.Stream.Made.{MadeOf}
use alpamayo.Stream.Once.{
  try_build_block-sealed, reported, created_bank-quiet, dead_or_confirmed-quiet,
}

module _ {E R : Type 0} where
  if_above-quiet :
      (slot j : ℕ) (t : StreamSource E R) (r : StreamSource E R × Outcome E)
      → reported slot r.1 ≡ 0
      → reported slot (if_above j t r).1 ≡ 0
  if_above-quiet slot j t r h = elim (Bool-cases (is_above j t)) [
    | inl a ↦ rw (if_above, a) h
    | inr a ↦ rw (if_above, a)
  ]

  on_slot-quiet :
      (slot j : ℕ) (parent : Option ℕ) (status : Option SlotStatusProto) (s : StreamSource E R)
      → reported slot (on_slot j parent status s).1 ≡ 0
  unfolding on_slot
  on_slot-quiet slot j parent none s = refl
  on_slot-quiet slot j parent (some slot_processed) s = refl
  on_slot-quiet slot j parent (some slot_first_shred_received) s = refl
  on_slot-quiet slot j parent (some slot_completed) s = refl
  on_slot-quiet slot j parent (some slot_created_bank) s =
      let t = see_bank j s in
      if_above-quiet slot j t (created_bank j parent t) (created_bank-quiet slot j parent t).0
  on_slot-quiet slot j none (some slot_finalized) s =
      if_above-quiet slot j s (finalize j none s) refl
  on_slot-quiet slot j (some q) (some slot_finalized) s =
      if_above-quiet slot j s (finalize j (some q) s) refl
  on_slot-quiet slot j parent (some slot_dead) s =
      if_above-quiet slot j s (dead_or_confirmed true j s) (dead_or_confirmed-quiet slot j true s).0
  on_slot-quiet slot j parent (some slot_confirmed) s =
      if_above-quiet slot j s (dead_or_confirmed false j s)
        (dead_or_confirmed-quiet slot j false s).0

reported-none :
    {E : Type 0} (slot : ℕ) {o : Outcome E} {b : NewBlock E}
    → reported slot o ≡ 0
    → o ≢ some (ok (block slot b))
reported-none slot h e = let one = rw e at h in ground arith

block-inj :
    {E : Type 0} {i j : ℕ} {a b : NewBlock E}
    → ◌≡◌ {A = Outcome E} (some (ok (block i a))) (some (ok (block j b)))
    → (i ≡ j) × (a ≡ b)
block-inj e = (cc, cc)

module _ (p : Prost) {E R T : Type 0} (create_reward : R → Option Reward)
    (create : ℕ → T → ℕ → Option (TransactionWithBinary E)) where
  -- The report of a block of the slot from the given entry.
  abbrev pub Complete : ℕ → SlotInfo E R → StreamSource E R → NewBlock E → Type 0
  Complete slot info s b =
      (dropped slot s ≡ false)
      × (info.sealed ≡ false)
      × ((m : SubscribeUpdateBlockMeta R) × (info.block_meta ≡ some m)
          × (m.executed_transaction_count ≡ length info.transactions)
          × MadeOf create_reward p info.index_vote m info.transactions b)

  -- The entry of the slot with what the update brings.
  abbrev pub Received : Update T R → StreamSource E R → ℕ → SlotInfo E R → Type 0
  Received u s slot info = elim u [
    | transaction received j ↦ elim received [
      | none ↦ ⊥
      | some (index, tx) ↦
          (j ≡ slot)
          × ((t : TransactionWithBinary E) × (create j tx index ≡ some t)
              × (info ≡ record (slot_info j s) {
                transactions = (slot_info j s).transactions ++ ((index, t) ∷ []);
              }))
    ]
    | block_meta m ↦ (m.slot ≡ slot) × (info ≡ record (slot_info m.slot s) { block_meta = some m })
    | _ ↦ ⊥
  ]

  report-block :
      (j slot : ℕ) (info : SlotInfo E R) (s : StreamSource E R) {b : NewBlock E}
      → (report p create_reward j info s).1 ≡ some (ok (block slot b))
      → (j ≡ slot) × Complete slot info s b
  report-block j slot info s {b} e = elim (Bool-cases (dropped j s)) [
    | inl d ↦ let e1 = rw (report, d) at e in absurd (ground arith)
    | inr d ↦ elim (Option-cases (try_build_block p create_reward info).1) [
      | inl r ↦ let e1 = rw (report, d, r) at e in absurd (ground arith)
      | inr (a, r) ↦ elim (Result-cases a) [
        | inr (x, f) ↦ let e1 = rw (report, d, r, f) at e in absurd (ground arith)
        | inl (b', f) ↦
            let e1 = rw (report, d, r, f) at e in
            let same = block-inj e1 in
            let (unsealed, _, (m, given, all, made)) =
              try_build_block-sealed p create_reward info (r ∙ ap some f) in
            (
              same.0,
              (
                ap (λ k. dropped k s) (sym same.0) ∙ d,
                unsealed,
                (m, given, all, rw (sym same.1) made),
              ),
            )
      ]
    ]
  ]

  add_transaction-Complete :
      (index : ℕ) (tx : T) (j slot : ℕ) (s : StreamSource E R) (b : NewBlock E)
      (o : Option (TransactionWithBinary E))
      → create j tx index ≡ o
      → (add_transaction p create_reward create o index j s).1 ≡ some (ok (block slot b))
      → (info : SlotInfo E R) × Received (transaction (some (index, tx)) j) s slot info
        × Complete slot info s b
  add_transaction-Complete index tx j slot s b none f e = absurd (ground arith)
  add_transaction-Complete index tx j slot s b (some t) f e =
      let info : SlotInfo E R = record (slot_info j s) {
        transactions = (slot_info j s).transactions ++ ((index, t) ∷ []);
      } in
      let done = report-block j slot info s e in (info, (done.0, (t, f, refl)), done.1)

  -- A block is reported at the update that completes it: its slot is not at or below the first processed
  -- one and was not sealed, its meta is there, with the number of the transactions received, that of the
  -- update included; and the block is made of this meta, of its rewards converted, and of these
  -- transactions, each of them once, in the order of their indexes.
  pub on_update-Complete :
      (u : Update T R) (s : StreamSource E R) (slot : ℕ) (b : NewBlock E)
      → (on_update p create_reward create u s).1 ≡ some (ok (block slot b))
      → (info : SlotInfo E R) × Received u s slot info × Complete slot info s b
  unfolding on_update on_transaction on_block_meta
  on_update-Complete failed s slot b e = absurd (ground arith)
  on_update-Complete missing s slot b e = absurd (ground arith)
  on_update-Complete ping s slot b e = absurd (ground arith)
  on_update-Complete account s slot b e = absurd (ground arith)
  on_update-Complete transaction_status s slot b e = absurd (ground arith)
  on_update-Complete full_block s slot b e = absurd (ground arith)
  on_update-Complete pong s slot b e = absurd (ground arith)
  on_update-Complete entry s slot b e = absurd (ground arith)
  on_update-Complete block_footer s slot b e = absurd (ground arith)
  on_update-Complete entry_update_parent s slot b e = absurd (ground arith)
  on_update-Complete (slot_update j parent status) s slot b e =
      absurd (reported-none slot (on_slot-quiet slot j parent status s) e)
  on_update-Complete (transaction none j) s slot b e = absurd (ground arith)
  on_update-Complete (transaction (some (index, tx)) j) s slot b e =
      add_transaction-Complete index tx j slot s b (create j tx index) refl e
  on_update-Complete (block_meta m) s slot b e =
      let info : SlotInfo E R = record (slot_info m.slot s) { block_meta = some m } in
      let done = report-block m.slot slot info s e in (info, (done.0, refl), done.1)
