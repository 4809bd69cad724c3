-- ===== src/Processed/Answers.antt =====
-- src/storage/read.rs: the status of the transactions of a block that has been processed.
use alpamayo.Prelude.{
  true, false, ==_iff, ◌==◌, ℕ, ◌+◌, ◌-◌, ◌≡◌, refl, ap, ◌∙◌, Option, none, some, List, [], ◌∷◌,
  map, ◌&&◌, ltb, leb, ◌==◌, if◌then◌else◌, arith, Bool-cases, Option-cases, inl, inr,
}
use alpamayo.Prelude.TreeMap.{get, insert, get-insert}
use alpamayo.Processed.State.{
  Block, RecentBlock, SignatureStatus, StorageProcessed, insert_statuses, add_signatures,
  last_block, update_processed, add_processed_block, set_finalized,
}
use alpamayo.Processed.Statuses.{
  TransactionStatus, confirmed, finalized, get_signature_status, get_signature_status-eq,
}

module _ {E : Type 0} where
  -- The error, if any, of the last transaction with the signature.
  abbrev pub last_error : ℕ → List (ℕ × Option E) → Option (Option E)
  last_error signature [] = none
  last_error signature ((s, error) ∷ transactions) = elim (last_error signature transactions) [
    | some e ↦ some e
    | none ↦ if s == signature then some error else none
  ]

  -- The status of a transaction in a block of the slot and height.
  abbrev pub answer :
      (finalized_height confirmed_height slot height : ℕ) → Option E → TransactionStatus E
  answer finalized_height confirmed_height slot height error =
      let is_confirmed = ltb finalized_height height && leb height confirmed_height in
      record {
        slot = slot;
        confirmations = if is_confirmed then some (confirmed_height - height + 1) else none;
        error = error;
        confirmation_status = if is_confirmed then confirmed else finalized;
      }

  get-insert_statuses :
      (slot height signature : ℕ) (transactions : List (ℕ × Option E))
      (m : List (ℕ × SignatureStatus E))
      → get signature (insert_statuses slot height transactions m)
        ≡ elim (last_error signature transactions) as (λ _. Option (SignatureStatus E)) [
          | none ↦ get signature m
          | some error ↦ some (record { slot = slot; block_height = height; error = error })
        ]
  unfolding insert_statuses
  get-insert_statuses slot height signature [] m = refl
  get-insert_statuses slot height signature ((s, error) ∷ transactions) m =
      let v : SignatureStatus E = record { slot = slot; block_height = height; error = error } in
      let rest = get-insert_statuses slot height signature transactions (insert s v m) in
      rest ∙ elim (Option-cases (last_error signature transactions)) [
        | inr (e, found) ↦ rw found
        | inl n ↦
            rw (n, get-insert s signature v m)
              (elim (Bool-cases (s == signature)) [ inl q ↦ rw q | inr q ↦ rw q ])
      ]

  update_processed-maps :
      (s : StorageProcessed E)
      → ((update_processed s).signature_statuses ≡ s.signature_statuses)
        × ((update_processed s).recent_blocks ≡ s.recent_blocks)
        × ((update_processed s).confirmed_height ≡ s.confirmed_height)
        × ((update_processed s).finalized_height ≡ s.finalized_height)
  unfolding update_processed
  update_processed-maps s = elim (Option-cases (last_block s.blocks)) [
    | inl e ↦ rw (update_processed, e) (refl, refl, refl, refl)
    | inr ((slot, height), e) ↦ rw (update_processed, e) (refl, refl, refl, refl)
  ]

  -- The state with a new block, before the processed slot is updated.
  abbrev recent_row : ℕ → Block E → RecentBlock
  recent_row height b = record {
    blockhash = b.blockhash;
    block_height = height;
    signatures = map (λ tx. tx.0) b.transactions;
    fees = b.fees;
  }

  abbrev with_block : ℕ → ℕ → Block E → StorageProcessed E → StorageProcessed E
  with_block slot height b s = record s {
    blocks = insert slot (some b) s.blocks;
    signature_statuses = insert_statuses slot height b.transactions s.signature_statuses;
    recent_blocks = insert slot (recent_row height b) s.recent_blocks;
    block_heights = insert b.blockhash height s.block_heights;
  }

  add_processed_block-eq :
      (slot height : ℕ) (b : Block E) (s : StorageProcessed E)
      → get slot s.blocks ≡ none
      → b.block_height ≡ some height
      → add_processed_block slot b s ≡ update_processed (with_block slot height b s)
  unfolding add_processed_block add_signatures
  add_processed_block-eq slot height b s new_slot h = rw (new_slot, h, new_slot)

  status_of :
      (signature : ℕ) (s : StorageProcessed E) (o : Option (SignatureStatus E))
      → get signature s.signature_statuses ≡ o
      → get_signature_status signature s ≡ elim o as (λ _. Option (TransactionStatus E)) [
        | none ↦ none
        | some v ↦ some (answer s.finalized_height s.confirmed_height v.slot v.block_height v.error)
      ]
  unfolding get_signature_status
  status_of signature s none e = rw (get_signature_status, e)
  status_of signature s (some v) e = get_signature_status-eq signature s v e

  -- The status of a signature just after a block was added, from the state before it.
  abbrev pub after_block :
      ℕ → (slot height : ℕ) → Block E → StorageProcessed E → Option (TransactionStatus E)
  after_block signature slot height b s = elim (last_error signature b.transactions) [
    | none ↦ get_signature_status signature s
    | some error ↦ some (answer s.finalized_height s.confirmed_height slot height error)
  ]

  with_rows :
      (signature slot height : ℕ) (b : Block E) (s t : StorageProcessed E)
      → t.signature_statuses ≡ insert_statuses slot height b.transactions s.signature_statuses
      → t.confirmed_height ≡ s.confirmed_height
      → t.finalized_height ≡ s.finalized_height
      → get_signature_status signature t ≡ after_block signature slot height b s
  with_rows signature slot height b s t rows c f =
      let found =
        ap (get signature) rows
        ∙ get-insert_statuses slot height signature b.transactions s.signature_statuses in
      elim (Option-cases (last_error signature b.transactions)) [
        | inr (error, e) ↦ rw (after_block, status_of signature t _ found, e, c, f)
        | inl e ↦
            let same : get signature t.signature_statuses ≡ get signature s.signature_statuses =
              rw e at found in
            elim (Option-cases (get signature s.signature_statuses)) [
              | inl n ↦ rw (
                after_block,
                e,
                status_of signature t none (same ∙ n),
                status_of signature s none n,
              )
              | inr (v, n) ↦ rw (
                after_block,
                e,
                status_of signature t (some v) (same ∙ n),
                status_of signature s (some v) n,
                c,
                f,
              )
            ]
      ]

  -- The status of a signature once the slot of the block is finalized.
  abbrev pub after_finalized :
      ℕ → (slot height : ℕ) → Block E → StorageProcessed E → Option (TransactionStatus E)
  after_finalized signature slot height b s = elim (last_error signature b.transactions) [
    | none ↦ get_signature_status signature (record s { finalized_height = height })
    | some error ↦ some (record {
      slot = slot;
      confirmations = none;
      error = error;
      confirmation_status = finalized;
    })
  ]

  finalized_block :
      (signature slot height : ℕ) (b : Block E) (s : StorageProcessed E)
      → after_block signature slot height b (record s { finalized_height = height })
        ≡ after_finalized signature slot height b s
  finalized_block signature slot height b s =
      elim (Option-cases (last_error signature b.transactions)) [
        | inl e ↦ rw (after_block, after_finalized, e)
        | inr (error, e) ↦
            let not_above : ltb height height ≡ false = ground arith in
            rw (after_block, after_finalized, e, not_above)
      ]

  set_finalized-block :
      (slot height : ℕ) (b : Block E) (s : StorageProcessed E)
      → let t = update_processed (with_block slot height b s) in
        ((set_finalized slot t).signature_statuses ≡ t.signature_statuses)
        × ((set_finalized slot t).finalized_height ≡ height)
        × ((set_finalized slot t).confirmed_height ≡ t.confirmed_height)
  unfolding set_finalized
  set_finalized-block slot height b s =
      let maps = update_processed-maps (with_block slot height b s) in
      let same : (slot == slot) ≡ true = (==_iff slot slot).1 refl in
      let hit : (if slot == slot then some (recent_row height b) else get slot s.recent_blocks)
          ≡ some (recent_row height b) =
        rw same in
      let row =
        ap (get slot) maps.1 ∙ get-insert slot slot (recent_row height b) s.recent_blocks ∙ hit in
      rw (set_finalized, row) (refl, refl, refl)

  -- When a reader gets a new block with a height, for a slot that it has no block of, every transaction of
  -- the block is known by its signature, with the slot and its error (of several with one signature, that
  -- of the last), and all other statuses are as before. Up to the finalized height such a transaction is
  -- finalized; above it and up to the confirmed height it is confirmed, with one confirmation more than
  -- the blocks on top of it; above both heights it is reported as finalized too, and never as processed.
  -- Once the slot is finalized next, all transactions of the block are finalized, and the other statuses
  -- are those by the new finalized height.
  pub add_processed_block-statuses :
      (signature slot height : ℕ) (b : Block E) (s : StorageProcessed E)
      → get slot s.blocks ≡ none
      → b.block_height ≡ some height
      → let t = add_processed_block slot b s in
        (get_signature_status signature t ≡ after_block signature slot height b s)
        × (get_signature_status signature (set_finalized slot t)
            ≡ after_finalized signature slot height b s)
  add_processed_block-statuses signature slot height b s new_slot h =
      let u = update_processed (with_block slot height b s) in
      let maps = update_processed-maps (with_block slot height b s) in
      let ends = set_finalized-block slot height b s in
      rw (add_processed_block-eq slot height b s new_slot h) (
        with_rows signature slot height b s u maps.0 maps.2 maps.3,
        with_rows signature slot height b (record s { finalized_height = height })
              (set_finalized slot u) (ends.0 ∙ maps.0) (ends.2 ∙ maps.2) ends.1
            ∙ finalized_block signature slot height b s,
      )
