-- ===== src/Stream/Blocks.antt =====
-- src/source/stream.rs: the blocks that a run of updates reports.
use alpamayo.Prelude.{
  ℕ, ◌+◌, ◌≤◌, ◌≡◌, refl, ap, ◌∙◌, Option, none, some, true, false, List, [], ◌∷◌, ◌++◌, ltb,
  unwrap_or, arith, Bool-cases, inl, inr,
}
use alpamayo.Source.Transaction.{TransactionWithBinary}
use alpamayo.Source.Encode.{Prost, Reward}
use alpamayo.Stream.Slot
use alpamayo.Stream.Slot.{
  SlotStatusProto, slot_processed, slot_confirmed, slot_finalized, slot_first_shred_received,
  slot_completed, slot_created_bank, slot_dead, RecvError, SubscribeUpdateBlockMeta, SlotInfo,
  block_of, try_build_block,
}
use alpamayo.Stream.Poll.{
  add_transaction, StreamSource, Update, failed, missing, ping, account, transaction_status,
  full_block, pong, entry, block_footer, entry_update_parent, slot_update, transaction, block_meta,
  Outcome, slot_info, on_update, on_slot, on_transaction, on_block_meta, see_bank, finalize,
  is_above, if_above, created_bank, dead_or_confirmed,
}
use alpamayo.Stream.Once.{
  one_if, reported, is_sealed, outdates, report-once, created_bank-quiet, dead_or_confirmed-quiet,
  see_bank-sealed, get-drop_outdated, put_same,
}

module _ {E R : Type 0} where
  -- A step keeps the count of the reports of a slot below its seal.
  abbrev Counted : ℕ → StreamSource E R → StreamSource E R × Outcome E → Type 0
  Counted slot s r = reported slot r.1 + one_if (is_sealed slot s) ≤ one_if (is_sealed slot r.0)

  quiet-Counted :
      (slot : ℕ) (s : StreamSource E R) (r : StreamSource E R × Outcome E)
      → (reported slot r.1 ≡ 0) × (is_sealed slot r.0 ≡ is_sealed slot s)
      → Counted slot s r
  quiet-Counted slot s r (a, b) = rw (a, b) (omega arith)

  if_above-Counted :
      (slot j : ℕ) (s t : StreamSource E R) (r : StreamSource E R × Outcome E)
      → is_sealed slot t ≡ is_sealed slot s
      → Counted slot s r
      → Counted slot s (if_above j t r)
  if_above-Counted slot j s t r e h = elim (Bool-cases (is_above j t)) [
    | inl a ↦ rw (if_above, a) h
    | inr a ↦ rw (if_above, a, e) (omega arith)
  ]

  finalize-Counted :
      (slot j : ℕ) (parent : Option ℕ) (s : StreamSource E R)
      → ltb slot j ≡ false
      → Counted slot s (finalize j parent s)
  finalize-Counted slot j parent s l = quiet-Counted slot s (finalize j parent s) (
    no_block parent,
    ap (λ o. (unwrap_or o (Slot.new slot s.index_vote)).sealed)
        (get-drop_outdated slot j s.slots (ground arith)),
  )
    where
      no_block : (parent : Option ℕ) → reported slot (finalize j parent s).1 ≡ 0
      no_block none = refl
      no_block (some q) = refl

  on_slot-Counted :
      (T : Type 0) (slot j : ℕ) (parent : Option ℕ) (status : Option SlotStatusProto)
      (s : StreamSource E R)
      → outdates {T = T} {R = R} slot (slot_update j parent status) ≡ false
      → Counted slot s (on_slot j parent status s)
  unfolding on_slot
  on_slot-Counted T slot j parent none s h = omega arith
  on_slot-Counted T slot j parent (some slot_processed) s h = omega arith
  on_slot-Counted T slot j parent (some slot_first_shred_received) s h = omega arith
  on_slot-Counted T slot j parent (some slot_completed) s h = omega arith
  on_slot-Counted T slot j parent (some slot_created_bank) s h =
      let t = see_bank j s in
      let quiet = created_bank-quiet slot j parent t in
      let seen = see_bank-sealed slot j s in
      if_above-Counted slot j s t (created_bank j parent t) seen
        (quiet-Counted slot s (created_bank j parent t) (quiet.0, quiet.1 ∙ seen))
  on_slot-Counted T slot j parent (some slot_finalized) s h =
      if_above-Counted slot j s s (finalize j parent s) refl (finalize-Counted slot j parent s h)
  on_slot-Counted T slot j parent (some slot_dead) s h =
      if_above-Counted slot j s s (dead_or_confirmed true j s) refl
        (quiet-Counted slot s (dead_or_confirmed true j s) (dead_or_confirmed-quiet slot j true s))
  on_slot-Counted T slot j parent (some slot_confirmed) s h =
      if_above-Counted slot j s s (dead_or_confirmed false j s) refl (
        quiet-Counted slot s (dead_or_confirmed false j s) (dead_or_confirmed-quiet slot j false s))

module _ (p : Prost) {E R T : Type 0} (create_reward : R → Option Reward)
    (create : ℕ → T → ℕ → Option (TransactionWithBinary E)) where
  add_transaction-Counted :
      (o : Option (TransactionWithBinary E)) (index slot j : ℕ) (s : StreamSource E R)
      → Counted slot s (add_transaction p create_reward create o index j s)
  add_transaction-Counted none index slot j s =
      rw (put_same slot j (slot_info j s) s refl) (omega arith)
  add_transaction-Counted (some t) index slot j s =
      report-once p create_reward slot j
        (record (slot_info j s) {
          transactions = (slot_info j s).transactions ++ ((index, t) ∷ []);
        })
        s refl

  on_update-Counted :
      (slot : ℕ) (u : Update T R) (s : StreamSource E R)
      → outdates slot u ≡ false
      → Counted slot s (on_update p create_reward create u s)
  unfolding on_update on_transaction on_block_meta
  on_update-Counted slot failed s h = omega arith
  on_update-Counted slot missing s h = omega arith
  on_update-Counted slot ping s h = omega arith
  on_update-Counted slot account s h = omega arith
  on_update-Counted slot transaction_status s h = omega arith
  on_update-Counted slot full_block s h = omega arith
  on_update-Counted slot pong s h = omega arith
  on_update-Counted slot entry s h = omega arith
  on_update-Counted slot block_footer s h = omega arith
  on_update-Counted slot entry_update_parent s h = omega arith
  on_update-Counted slot (slot_update j parent status) s h =
      on_slot-Counted T slot j parent status s h
  on_update-Counted slot (transaction none j) s h = omega arith
  on_update-Counted slot (transaction (some (index, tx)) j) s h =
      add_transaction-Counted (create j tx index) index slot j s
  on_update-Counted slot (block_meta m) s h =
      report-once p create_reward slot m.slot (record (slot_info m.slot s) { block_meta = some m })
        s refl

  -- How often a run of updates reports the block of a slot.
  unfoldable pub reports : ℕ → List (Update T R) → StreamSource E R → ℕ
  reports slot [] s = 0
  reports slot (u ∷ updates) s =
      reported slot (on_update p create_reward create u s).1
      + reports slot updates (on_update p create_reward create u s).0

  abbrev pub Kept : ℕ → List (Update T R) → Type 0
  Kept slot [] = Unit
  Kept slot (u ∷ updates) = (outdates slot u ≡ false) × Kept slot updates

  reports-sealed :
      (slot : ℕ) (updates : List (Update T R)) (s : StreamSource E R)
      → Kept slot updates
      → reports slot updates s + one_if (is_sealed slot s) ≤ 1
  unfolding reports
  reports-sealed slot [] s h = ground arith
  reports-sealed slot (u ∷ updates) s (h, k) = omega (
    arith,
    on_update-Counted slot u s h,
    reports-sealed slot updates (on_update p create_reward create u s).0 k,
  )

  -- In any run of updates of which none finalizes a higher slot, the block of a slot is reported at most
  -- once, and not at all if the slot is sealed at the start.
  pub reports-once :
      (slot : ℕ) (updates : List (Update T R)) (s : StreamSource E R)
      → Kept slot updates
      → (reports slot updates s ≤ 1) × (is_sealed slot s ≡ true → reports slot updates s ≡ 0)
  reports-once slot updates s h =
      let count = reports-sealed slot updates s h in
      (omega (arith, count), λ e. let sealed = rw e at count in omega (arith, sealed))
