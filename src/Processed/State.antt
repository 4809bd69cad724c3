-- ===== src/Processed/State.antt =====
-- `StorageProcessed` (src/storage/read.rs). A map is the list of its rows in key order; a signature and a
-- blockhash are numbers, and `E` is the transaction error. `MAX_RECENT_BLOCKHASHES` of the `solana_clock`
-- crate is the argument `limit`.
use alpamayo.Prelude.{
  ℕ, ◌-◌, Option, none, some, Bool, List, [], ◌∷◌, ◌++◌, reverse, leb, ◌==◌, if◌then◌else◌, is_some,
  length, map, max, unwrap_or,
}
use mathlib.Core.Option
use alpamayo.Prelude.TreeMap.{get, insert, remove, prune}
use alpamayo.Fees.Percentile.{TransactionsFees, get_fee}

-- The parts of `BlockWithBinary` that are read here.
pub record Block (E : Type 0) : Type 0 where
  pub blockhash : ℕ
  pub block_height : Option ℕ
  pub transactions : List (ℕ × Option E)
  pub fees : TransactionsFees

pub record SignatureStatus (E : Type 0) : Type 0 where
  pub slot : ℕ
  pub block_height : ℕ
  pub error : Option E

pub record RecentBlock : Type 0 where
  pub blockhash : ℕ
  pub block_height : ℕ
  pub signatures : List ℕ
  pub fees : TransactionsFees

pub record StorageProcessed (E : Type 0) : Type 0 where
  pub processed_slot : ℕ
  pub processed_height : ℕ
  pub confirmed_slot : ℕ
  pub confirmed_height : ℕ
  pub finalized_slot : ℕ
  pub finalized_height : ℕ
  pub blocks : List (ℕ × Option (Block E))
  pub signature_statuses : List (ℕ × SignatureStatus E)
  pub recent_blocks : List (ℕ × RecentBlock)
  pub block_heights : List (ℕ × ℕ)

unfoldable pub remove_all {ℓ} : {V : Type ℓ} → List ℕ → List (ℕ × V) → List (ℕ × V)
remove_all [] m = m
remove_all (k ∷ keys) m = remove_all keys (remove k m)

-- The test of the loop over the recent blocks; `checked_sub` with `unwrap_or_default` stops at 0.
abbrev pub is_old : ℕ → ℕ → RecentBlock → Bool
is_old limit confirmed_height b = leb limit (confirmed_height - b.block_height)

-- The loop of `get_fees`, over the recent blocks from the last to the first.
unfoldable pub fees_loop : List ℕ → Option ℕ → List (ℕ × RecentBlock) → List (ℕ × ℕ) → List (ℕ × ℕ)
fees_loop pubkeys percentile [] fees = fees
fees_loop pubkeys percentile ((slot, b) ∷ m) fees =
    let next = fees ++ ((slot, get_fee pubkeys percentile b.fees) ∷ []) in
    let rest = fees_loop pubkeys percentile m next in if length next == 150 then next else rest

module _ {E : Type 0} where
  -- `StorageProcessed::default`.
  abbrev pub empty : StorageProcessed E
  empty = record {
    processed_slot = 0;
    processed_height = 0;
    confirmed_slot = 0;
    confirmed_height = 0;
    finalized_slot = 0;
    finalized_height = 0;
    blocks = [];
    signature_statuses = [];
    recent_blocks = [];
    block_heights = [];
  }

  unfoldable pub insert_statuses :
      ℕ → ℕ → List (ℕ × Option E) → List (ℕ × SignatureStatus E) → List (ℕ × SignatureStatus E)
  insert_statuses slot height [] m = m
  insert_statuses slot height ((signature, error) ∷ txs) m =
      insert_statuses slot height txs
        (insert signature (record { slot = slot; block_height = height; error = error }) m)

  -- A block without a height is logged as an error.
  unfoldable pub add_signatures : ℕ → Block E → StorageProcessed E → StorageProcessed E
  unfolding insert_statuses
  add_signatures slot b s = if is_some (get slot s.blocks) then s else elim b.block_height [
    | none ↦ s
    | some height ↦ record s {
      signature_statuses = insert_statuses slot height b.transactions s.signature_statuses;
      recent_blocks =
          insert slot
            (record {
              blockhash = b.blockhash;
              block_height = height;
              signatures = map (λ tx. tx.0) b.transactions;
              fees = b.fees;
            })
            s.recent_blocks;
      block_heights = insert b.blockhash height s.block_heights;
    }
  ]

  unfoldable pub remove_signatures : RecentBlock → StorageProcessed E → StorageProcessed E
  unfolding remove_all
  remove_signatures b s = record s {
    signature_statuses = remove_all b.signatures s.signature_statuses;
    block_heights = remove b.blockhash s.block_heights;
  }

  -- The highest slot with a block that is not dead.
  unfoldable pub last_block : List (ℕ × Option (Block E)) → Option (ℕ × Option ℕ)
  last_block [] = none
  last_block ((slot, b) ∷ m) = elim (last_block m) [
    | some p ↦ some p
    | none ↦ elim b [ none ↦ none | some b ↦ some (slot, b.block_height) ]
  ]

  unfoldable pub update_processed : StorageProcessed E → StorageProcessed E
  unfolding last_block
  update_processed s = elim (last_block s.blocks) [
    | some (slot, height) ↦ record s {
      processed_slot = max s.processed_slot slot;
      processed_height = max s.processed_height (unwrap_or height 0);
    }
    | none ↦ record s {
      processed_slot = max s.processed_slot s.confirmed_slot;
      processed_height = max s.processed_height s.confirmed_height;
    }
  ]

  unfoldable pub add_processed_block : ℕ → Block E → StorageProcessed E → StorageProcessed E
  unfolding add_signatures update_processed
  add_processed_block slot b s =
      let t = add_signatures slot b s in
      update_processed (
        if is_some (get slot t.blocks)
        then t
        else record t { blocks = insert slot (some b) t.blocks })

  -- The recent block goes only if the slot was known.
  unfoldable pub mark_dead : ℕ → StorageProcessed E → StorageProcessed E
  unfolding remove_signatures update_processed
  mark_dead slot s =
      let t = record s { blocks = insert slot none s.blocks } in
      update_processed (
        if is_some (get slot s.blocks)
        then elim (get slot s.recent_blocks) [
          | none ↦ t
          | some b ↦ remove_signatures b (record t { recent_blocks = remove slot s.recent_blocks })
        ]
        else t)

  -- The loop over the recent blocks, which it takes from the first on.
  unfoldable pub drop_old : ℕ → List (ℕ × RecentBlock) → StorageProcessed E → StorageProcessed E
  unfolding remove_signatures
  drop_old limit [] s = record s { recent_blocks = [] }
  drop_old limit ((slot, b) ∷ m) s =
      let rest = drop_old limit m (remove_signatures b s) in
      if is_old limit s.confirmed_height b then rest else record s { recent_blocks = (slot, b) ∷ m }

  unfoldable pub set_confirmed : ℕ → ℕ → Option (Block E) → StorageProcessed E → StorageProcessed E
  unfolding add_signatures update_processed drop_old
  set_confirmed limit slot block s =
      let t : StorageProcessed E = elim block [ none ↦ s | some b ↦ add_signatures slot b s ] in
      let u = update_processed (record t {
        confirmed_slot = slot;
        confirmed_height =
            unwrap_or (Option.map (λ (b : RecentBlock). b.block_height) (get slot t.recent_blocks))
              t.confirmed_height;
        blocks = prune slot t.blocks;
      }) in
      drop_old limit u.recent_blocks u

  unfoldable pub set_finalized : ℕ → StorageProcessed E → StorageProcessed E
  set_finalized slot s = elim (get slot s.recent_blocks) [
    | none ↦ s
    | some b ↦ record s { finalized_slot = slot; finalized_height = b.block_height }
  ]

  unfoldable pub is_ready : ℕ → StorageProcessed E → Bool
  is_ready limit s = leb limit (length s.recent_blocks)

  unfoldable pub get_processed_block : ℕ → StorageProcessed E → Option (Block E)
  get_processed_block slot s = unwrap_or (get slot s.blocks) none

  unfoldable pub get_recent_block : ℕ → StorageProcessed E → Option RecentBlock
  get_recent_block slot s = get slot s.recent_blocks

  unfoldable pub get_block_height_by_blockhash : ℕ → StorageProcessed E → Option ℕ
  get_block_height_by_blockhash blockhash s = get blockhash s.block_heights

  unfoldable pub get_fees : List ℕ → Option ℕ → StorageProcessed E → List (ℕ × ℕ)
  unfolding fees_loop
  get_fees pubkeys percentile s =
      reverse (fees_loop pubkeys percentile (reverse s.recent_blocks) [])
