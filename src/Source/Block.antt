-- ===== src/Source/Block.antt =====
-- `BlockWithBinary::new` (src/source/block.rs). The maps by address and by signature are their rows; the
-- order of a `HashMap` is not used. The entries of the kept transactions are drained. Clones and times
-- of arrival are left out.
use alpamayo.Prelude.{
  ℕ, Option, none, some, Bool, not, List, [], ◌∷◌, reverse, filter, map, if◌then◌else◌,
}
use alpamayo.Prelude.Int.{ℤ}
use alpamayo.Prelude.TreeMap.{get, insert}
use alpamayo.Fees.Percentile.{TransactionsFees}
use alpamayo.Fees.Collect
use alpamayo.Store.Db.{BlockTransactionOffset, SignaturesForAddress}
use alpamayo.Source.Transaction
use alpamayo.Source.Transaction.{SignatureForAddress, TransactionWithBinary, merge}
use alpamayo.Source.Encode.{Prost, Reward}
use alpamayo.Source.Proto.{encode_with_tx_offsets}

-- A block as its source gives it, and as `new` makes it.
pub record Parts (E : Type 0) : Type 0 where
  pub previous_blockhash : List ℕ
  pub blockhash : List ℕ
  pub parent_slot : ℕ
  pub transactions : List (TransactionWithBinary E)
  pub rewards : List Reward
  pub num_partitions : Option ℕ
  pub block_time : Option ℤ
  pub block_height : Option ℕ

pub record NewBlock (E : Type 0) : Type 0 where
  pub blockhash : List ℕ
  pub parent_slot : ℕ
  pub block_time : Option ℤ
  pub block_height : Option ℕ
  pub protobuf : List ℕ
  pub txs_offset : List (BlockTransactionOffset E)
  pub transactions : List (List ℕ × TransactionWithBinary E)
  pub sfa : List (ℕ × SignaturesForAddress E)
  pub fees : TransactionsFees

module _ {E : Type 0} where
  -- `entry` with `merge` or `insert`.
  unfoldable pub add_sfa :
      SignatureForAddress E → List (ℕ × SignaturesForAddress E) → List (ℕ × SignaturesForAddress E)
  add_sfa s m = elim (get s.address m) [
    | some all ↦ insert s.address (merge s all) m
    | none ↦ insert s.address (Transaction.new s) m
  ]

  unfoldable pub add_all :
      List (SignatureForAddress E)
      → List (ℕ × SignaturesForAddress E)
      → List (ℕ × SignaturesForAddress E)
  unfolding add_sfa
  add_all [] m = m
  add_all (s ∷ rest) m = add_all rest (add_sfa s m)

  -- The loop, over the transactions from the last to the first.
  unfoldable pub collect_sfa :
      List (TransactionWithBinary E)
      → List (ℕ × SignaturesForAddress E)
      → List (ℕ × SignaturesForAddress E)
  unfolding add_all
  collect_sfa [] m = m
  collect_sfa (tx ∷ txs) m = collect_sfa txs (add_all tx.sfa m)

  -- `retain`, without the votes.
  abbrev pub retained : Bool → List (TransactionWithBinary E) → List (TransactionWithBinary E)
  retained index_vote txs =
      if index_vote then txs else filter (λ (tx : TransactionWithBinary E). not tx.is_vote) txs

  unfoldable pub new : Prost → Bool → Parts E → NewBlock E
  unfolding collect_sfa
  new p index_vote b =
      let txs = retained index_vote b.transactions in
      let (protobuf, txs_offset) = encode_with_tx_offsets p (record {
        previous_blockhash = b.previous_blockhash;
        blockhash = b.blockhash;
        parent_slot = b.parent_slot;
        transactions = txs;
        rewards = b.rewards;
        block_time = b.block_time;
        block_height = b.block_height;
        num_partitions = b.num_partitions;
      }) in
      record {
        blockhash = b.blockhash;
        parent_slot = b.parent_slot;
        block_time = b.block_time;
        block_height = b.block_height;
        protobuf = protobuf;
        txs_offset = txs_offset;
        transactions =
            map (λ (tx : TransactionWithBinary E). (tx.signature, record tx { sfa = [] })) txs;
        sfa = collect_sfa (reverse txs) [];
        fees = Collect.new (map (λ (tx : TransactionWithBinary E). tx.fees) txs);
      }
