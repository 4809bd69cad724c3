-- ===== src/Stream/Slot.antt =====
-- `SlotInfo` (src/source/stream.rs). `E` is the transaction error, and `R` the reward of an update, which
-- `create_reward` converts. The warning of `Drop` and the times are left out.
use alpamayo.Prelude.{
  ℕ, Option, none, some, Bool, true, false, List, [], ◌∷◌, leb, ◌==◌, ◌||◌, not, if◌then◌else◌,
  length, map, Result, ok, err,
}
use alpamayo.Prelude.Int.{ℤ}
use alpamayo.Source.Transaction.{TransactionWithBinary}
use alpamayo.Source.Encode.{Prost, Reward}
use alpamayo.Source.Block
use alpamayo.Source.Block.{NewBlock}

pub data SlotStatusProto : Type 0 where
  slot_processed slot_confirmed slot_finalized slot_first_shred_received : SlotStatusProto
  slot_completed slot_created_bank slot_dead : SlotStatusProto

-- A receive error, and a failed conversion, have their own message.
pub data RecvError : Type 0 where
  recv missed_field unexpected_message unknown_commitment_level : RecvError
  transaction_with_meta_failed rewards_failed : RecvError
  missed_parent : ℕ → RecvError
  unexpected_commitment : SlotStatusProto → SlotStatusProto → RecvError

-- The rewards come with the number of partitions.
pub record SubscribeUpdateBlockMeta (R : Type 0) : Type 0 where
  pub slot : ℕ
  pub blockhash : List ℕ
  pub rewards : Option (List R × Option ℕ)
  pub block_time : Option ℤ
  pub block_height : Option ℕ
  pub parent_slot : ℕ
  pub parent_blockhash : List ℕ
  pub executed_transaction_count : ℕ

pub record SlotInfo (E R : Type 0) : Type 0 where
  pub slot : ℕ
  pub status : SlotStatusProto
  pub parent : Option ℕ
  pub transactions : List (ℕ × TransactionWithBinary E)
  pub block_meta : Option (SubscribeUpdateBlockMeta R)
  pub sealed : Bool
  pub index_vote : Bool

-- `collect` into a `Result`.
unfoldable pub collect {ℓ κ} : {A : Type ℓ} {B : Type κ} → (A → Option B) → List A → Option (List B)
collect f [] = some []
collect f (a ∷ rest_of) =
    let rest = collect f rest_of in
    elim (f a) [ none ↦ none | some b ↦ elim rest [ none ↦ none | some bs ↦ some (b ∷ bs) ] ]

module _ {A : Type 0} where
  -- `sort_unstable_by_key`, on the index.
  unfoldable pub insert_by_index : ℕ × A → List (ℕ × A) → List (ℕ × A)
  insert_by_index x [] = x ∷ []
  insert_by_index x (y ∷ ys) =
      let rest = insert_by_index x ys in if leb x.0 y.0 then x ∷ y ∷ ys else y ∷ rest

  unfoldable pub sort_by_index : List (ℕ × A) → List (ℕ × A)
  unfolding insert_by_index
  sort_by_index [] = []
  sort_by_index (x ∷ xs) = insert_by_index x (sort_by_index xs)

abbrev pub convert_rewards :
    {R : Type 0}
    → (R → Option Reward)
    → Option (List R × Option ℕ)
    → Option (List Reward × Option ℕ)
convert_rewards create_reward none = some ([], none)
convert_rewards create_reward (some (rewards, partitions)) = elim (collect create_reward rewards) [
  | none ↦ none
  | some rewards ↦ some (rewards, partitions)
]

module _ {E R : Type 0} where
  abbrev pub new : ℕ → Bool → SlotInfo E R
  new slot index_vote = record {
    slot = slot;
    status = slot_created_bank;
    parent = none;
    transactions = [];
    block_meta = none;
    sealed = false;
    index_vote = index_vote;
  }

  -- The block of a meta with the transactions in the order of their indexes.
  abbrev pub block_of :
      Prost
      → Bool
      → SubscribeUpdateBlockMeta R
      → List (ℕ × TransactionWithBinary E)
      → List Reward × Option ℕ
      → NewBlock E
  block_of p index_vote m transactions (rewards, partitions) = Block.new p index_vote (record {
    previous_blockhash = m.parent_blockhash;
    blockhash = m.blockhash;
    parent_slot = m.parent_slot;
    transactions = map (λ x. x.1) (sort_by_index transactions);
    rewards = rewards;
    num_partitions = partitions;
    block_time = m.block_time;
    block_height = m.block_height;
  })

  -- With all of its transactions, a slot that is not sealed is sealed. Its meta is taken before the
  -- rewards are converted, its transactions only after.
  unfoldable pub try_build_block :
      Prost
      → (R → Option Reward)
      → SlotInfo E R
      → SlotInfo E R × Option (Result RecvError (NewBlock E))
  unfolding collect sort_by_index
  try_build_block p create_reward s = elim s.block_meta [
    | none ↦ (s, none)
    | some m ↦
        if s.sealed || not (m.executed_transaction_count == length s.transactions)
        then (s, none)
        else elim (convert_rewards create_reward m.rewards) [
          | none ↦ (record s { sealed = true; block_meta = none }, some (err rewards_failed))
          | some rewards ↦ (
            record s { sealed = true; block_meta = none; transactions = [] },
            some (ok (block_of p s.index_vote m s.transactions rewards)),
          )
        ]
  ]
