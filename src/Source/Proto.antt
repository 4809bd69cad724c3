-- ===== src/Source/Proto.antt =====
-- `ConfirmedBlockProtoRef` (src/source/block.rs).
use alpamayo.Prelude.{ℕ, ◌+◌, ◌*◌, Option, List, [], ◌∷◌, ◌++◌, ◌==◌, if◌then◌else◌, length, map}
use alpamayo.Prelude.Int.{ℤ}
use alpamayo.Store.Db.{BlockTransactionOffset}
use alpamayo.Source.Transaction.{TransactionWithBinary}
use alpamayo.Source.Encode.{
  Prost, Reward, unless_empty, map_or, sum, bytes_encode, bytes_encoded_len, encode_raw, reward_len,
}

pub record ConfirmedBlockProtoRef (E : Type 0) : Type 0 where
  pub previous_blockhash : List ℕ
  pub blockhash : List ℕ
  pub parent_slot : ℕ
  pub transactions : List (TransactionWithBinary E)
  pub rewards : List Reward
  pub block_time : Option ℤ
  pub block_height : Option ℕ
  pub num_partitions : Option ℕ

-- The loop over the rewards.
unfoldable pub put_rewards : Prost → List Reward → List ℕ
unfolding encode_raw reward_len
put_rewards p [] = []
put_rewards p (r ∷ rs) = p.message_encode 5 (reward_len p r) (encode_raw p r) ++ put_rewards p rs

module _ (p : Prost) {E : Type 0} where
  -- The loop over the transactions: the buffer, and the offsets pushed.
  unfoldable pub put_all :
      List (TransactionWithBinary E)
      → List ℕ
      → List (BlockTransactionOffset E)
      → List ℕ × List (BlockTransactionOffset E)
  put_all [] buf offsets = (buf, offsets)
  put_all (tx ∷ txs) buf offsets =
      let head = buf ++ (p.encode_key 4 ++ p.encode_varint (length tx.protobuf)) in
      put_all txs (head ++ tx.protobuf) (
        offsets
        ++ ((record {
          key = tx.key;
          offset = length head;
          size = length tx.protobuf;
          error = tx.error;
          index = tx.index;
        })
            ∷ []))

  -- The fields before and after the transactions.
  unfoldable pub first_fields : ConfirmedBlockProtoRef E → List ℕ
  unfolding bytes_encode
  first_fields b =
      unless_empty b.previous_blockhash [] (bytes_encode p 1 b.previous_blockhash)
      ++ (unless_empty b.blockhash [] (bytes_encode p 2 b.blockhash)
          ++ (if b.parent_slot == 0 then [] else p.uint64_encode 3 b.parent_slot))

  unfoldable pub last_fields : ConfirmedBlockProtoRef E → List ℕ
  unfolding put_rewards
  last_fields b =
      put_rewards p b.rewards
      ++ (map_or b.block_time [] (p.timestamp_encode 6)
          ++ (map_or b.block_height [] (p.height_encode 7)
              ++ map_or b.num_partitions [] (p.partitions_encode 8)))

  unfoldable pub encode_with_tx_offsets :
      ConfirmedBlockProtoRef E → List ℕ × List (BlockTransactionOffset E)
  unfolding first_fields last_fields put_all
  encode_with_tx_offsets b =
      let (buf, offsets) = put_all b.transactions (first_fields b) [] in
      (buf ++ last_fields b, offsets)

  unfoldable pub encoded_len : ConfirmedBlockProtoRef E → ℕ
  unfolding bytes_encoded_len reward_len
  encoded_len b =
      unless_empty b.previous_blockhash 0 (bytes_encoded_len p 1 b.previous_blockhash)
      + unless_empty b.blockhash 0 (bytes_encoded_len p 2 b.blockhash)
      + (if b.parent_slot == 0 then 0 else p.uint64_len 3 b.parent_slot)
      + (p.key_len 4 * length b.transactions
          + sum (
              map
                (λ (tx : TransactionWithBinary E).
                  length tx.protobuf + p.encoded_len_varint (length tx.protobuf))
                b.transactions))
      + (p.key_len 5 * length b.rewards
          + sum (
              map (λ (r : Reward). reward_len p r + p.encoded_len_varint (reward_len p r))
                b.rewards))
      + map_or b.block_time 0 (p.timestamp_len 6)
      + map_or b.block_height 0 (p.height_len 7)
      + map_or b.num_partitions 0 (p.partitions_len 8)
