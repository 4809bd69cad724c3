-- ===== src/Source/Lengths.antt =====
-- src/source/block.rs: `encoded_len` against the bytes.
use alpamayo.Prelude.{
  ℕ, ◌+◌, ◌*◌, ◌≡◌, refl, Option, none, some, List, [], ◌∷◌, ◌++◌, arith, ◌==◌, if◌then◌else◌,
  length, length-append, map,
}
use alpamayo.Prelude.Int.{ℤ, pos, negsuc}
use alpamayo.Source.Transaction.{TransactionWithBinary}
use alpamayo.Store.Db.{BlockTransactionOffset}
use alpamayo.Source.Encode.{
  Prost, Laws, Reward, unless_empty, unless_zero, map_or, sum, bytes_encode, bytes_encoded_len,
  encode_raw, reward_len, reward_type_as_i32, u8_to_static_str,
}
use alpamayo.Source.Proto.{
  ConfirmedBlockProtoRef, put_all, put_rewards, first_fields, last_fields, encode_with_tx_offsets,
  encoded_len,
}

length-unless_empty :
    (s bs : List ℕ) (n : ℕ) → length bs ≡ n → length (unless_empty s [] bs) ≡ unless_empty s 0 n
length-unless_empty [] bs n e = refl
length-unless_empty (_ ∷ _) bs n e = e

length-unless_zero :
    (z : ℤ) (bs : List ℕ) (n : ℕ) → length bs ≡ n → length (unless_zero z [] bs) ≡ unless_zero z 0 n
length-unless_zero (pos n) bs m e = ground arith
length-unless_zero (negsuc n) bs m e = e

length-if :
    (n : ℕ) (bs : List ℕ) (m : ℕ)
    → length bs ≡ m
    → length (if n == 0 then [] else bs) ≡ (if n == 0 then 0 else m)
length-if n bs m e = ground arith

length-map_or :
    {A : Type 0} (o : Option A) (f : A → List ℕ) (g : A → ℕ)
    → ((a : A) → length (f a) ≡ g a)
    → length (map_or o [] f) ≡ map_or o 0 g
length-map_or none f g e = refl
length-map_or (some a) f g e = e a

module _ (p : Prost) (laws : Laws p) where
  length-bytes_encode :
      (tag : ℕ) (v : List ℕ) → length (bytes_encode p tag v) ≡ bytes_encoded_len p tag v
  unfolding bytes_encode bytes_encoded_len
  length-bytes_encode tag v = omega (
    arith,
    length-append (p.encode_key tag) (p.encode_varint (length v) ++ v),
    length-append (p.encode_varint (length v)) v,
    laws.key_lem tag,
    laws.varint_lem (length v),
  )

  pub length-encode_raw : (r : Reward) → length (encode_raw p r) ≡ reward_len p r
  unfolding encode_raw reward_len
  length-encode_raw r =
      let f1 = unless_empty r.pubkey [] (p.string_encode 1 r.pubkey) in
      let f2 = unless_zero r.lamports [] (p.int64_encode 2 r.lamports) in
      let f3 : List ℕ = if r.post_balance == 0 then [] else p.uint64_encode 3 r.post_balance in
      let f4 : List ℕ =
        map_or r.reward_type [] (λ t. p.int32_encode 4 (reward_type_as_i32 (some t))) in
      let f5 : List ℕ = map_or r.commission [] (λ c. bytes_encode p 5 (u8_to_static_str c)) in
      let f6 : List ℕ = map_or r.commission_bps [] (λ c. bytes_encode p 6 (p.to_string c)) in
      omega (
        arith,
        length-append f1 (f2 ++ (f3 ++ (f4 ++ (f5 ++ f6)))),
        length-append f2 (f3 ++ (f4 ++ (f5 ++ f6))),
        length-append f3 (f4 ++ (f5 ++ f6)),
        length-append f4 (f5 ++ f6),
        length-append f5 f6,
        length-unless_empty r.pubkey (p.string_encode 1 r.pubkey) (p.string_len 1 r.pubkey)
            (laws.string_lem 1 r.pubkey),
        length-unless_zero r.lamports (p.int64_encode 2 r.lamports) (p.int64_len 2 r.lamports)
            (laws.int64_lem 2 r.lamports),
        length-if r.post_balance (p.uint64_encode 3 r.post_balance) (p.uint64_len 3 r.post_balance)
            (laws.uint64_lem 3 r.post_balance),
        length-map_or r.reward_type (λ t. p.int32_encode 4 (reward_type_as_i32 (some t)))
            (λ t. p.int32_len 4 (reward_type_as_i32 (some t)))
            (λ t. laws.int32_lem 4 (reward_type_as_i32 (some t))),
        length-map_or r.commission (λ c. bytes_encode p 5 (u8_to_static_str c))
            (λ c. bytes_encoded_len p 5 (u8_to_static_str c))
            (λ c. length-bytes_encode 5 (u8_to_static_str c)),
        length-map_or r.commission_bps (λ c. bytes_encode p 6 (p.to_string c))
            (λ c. bytes_encoded_len p 6 (p.to_string c))
            (λ c. length-bytes_encode 6 (p.to_string c)),
      )

  length-put_rewards :
      (rs : List Reward)
      → length (put_rewards p rs)
        ≡ p.key_len 5 * length rs
          + sum (map (λ (r : Reward). reward_len p r + p.encoded_len_varint (reward_len p r)) rs)
  unfolding put_rewards
  length-put_rewards [] = omega arith
  length-put_rewards (r ∷ rs) = grind (
    arith,
    length-append (p.message_encode 5 (reward_len p r) (encode_raw p r)) (put_rewards p rs),
    laws.message_lem 5 (reward_len p r) (encode_raw p r),
    length-encode_raw r,
    length-put_rewards rs,
  )

  length-put_all :
      {E : Type 0} (txs : List (TransactionWithBinary E)) (buf : List ℕ)
      (offsets : List (BlockTransactionOffset E))
      → length (put_all p txs buf offsets).0
        ≡ length buf
          + (p.key_len 4 * length txs
              + sum (
                  map
                    (λ (tx : TransactionWithBinary E).
                      length tx.protobuf + p.encoded_len_varint (length tx.protobuf))
                    txs))
  unfolding put_all
  length-put_all [] buf offsets = omega arith
  length-put_all {E} (tx ∷ txs) buf offsets =
      let header = p.encode_key 4 ++ p.encode_varint (length tx.protobuf) in
      let o : BlockTransactionOffset E = record {
        key = tx.key;
        offset = length (buf ++ header);
        size = length tx.protobuf;
        error = tx.error;
        index = tx.index;
      } in
      grind (
        arith,
        length-put_all txs ((buf ++ header) ++ tx.protobuf) (offsets ++ (o ∷ [])),
        length-append (buf ++ header) tx.protobuf,
        length-append buf header,
        length-append (p.encode_key 4) (p.encode_varint (length tx.protobuf)),
        laws.key_lem 4,
        laws.varint_lem (length tx.protobuf),
      )

  length-first_fields :
      {E : Type 0} (b : ConfirmedBlockProtoRef E)
      → length (first_fields p b)
        ≡ unless_empty b.previous_blockhash 0 (bytes_encoded_len p 1 b.previous_blockhash)
          + unless_empty b.blockhash 0 (bytes_encoded_len p 2 b.blockhash)
          + (if b.parent_slot == 0 then 0 else p.uint64_len 3 b.parent_slot)
  unfolding first_fields
  length-first_fields b =
      let f1 = unless_empty b.previous_blockhash [] (bytes_encode p 1 b.previous_blockhash) in
      let f2 = unless_empty b.blockhash [] (bytes_encode p 2 b.blockhash) in
      let f3 : List ℕ = if b.parent_slot == 0 then [] else p.uint64_encode 3 b.parent_slot in
      omega (
        arith,
        length-append f1 (f2 ++ f3),
        length-append f2 f3,
        length-unless_empty b.previous_blockhash (bytes_encode p 1 b.previous_blockhash)
            (bytes_encoded_len p 1 b.previous_blockhash)
            (length-bytes_encode 1 b.previous_blockhash),
        length-unless_empty b.blockhash (bytes_encode p 2 b.blockhash)
            (bytes_encoded_len p 2 b.blockhash) (length-bytes_encode 2 b.blockhash),
        length-if b.parent_slot (p.uint64_encode 3 b.parent_slot) (p.uint64_len 3 b.parent_slot)
            (laws.uint64_lem 3 b.parent_slot),
      )

  length-last_fields :
      {E : Type 0} (b : ConfirmedBlockProtoRef E)
      → length (last_fields p b)
        ≡ length (put_rewards p b.rewards)
          + map_or b.block_time 0 (p.timestamp_len 6)
          + map_or b.block_height 0 (p.height_len 7)
          + map_or b.num_partitions 0 (p.partitions_len 8)
  unfolding last_fields
  length-last_fields b =
      let f1 = put_rewards p b.rewards in
      let f2 : List ℕ = map_or b.block_time [] (p.timestamp_encode 6) in
      let f3 : List ℕ = map_or b.block_height [] (p.height_encode 7) in
      let f4 : List ℕ = map_or b.num_partitions [] (p.partitions_encode 8) in
      omega (
        arith,
        length-append f1 (f2 ++ (f3 ++ f4)),
        length-append f2 (f3 ++ f4),
        length-append f3 f4,
        length-map_or b.block_time (p.timestamp_encode 6) (p.timestamp_len 6)
            (laws.timestamp_lem 6),
        length-map_or b.block_height (p.height_encode 7) (p.height_len 7) (laws.height_lem 7),
        length-map_or b.num_partitions (p.partitions_encode 8) (p.partitions_len 8)
            (laws.partitions_lem 8),
      )

  -- Under the laws of `prost`, `encoded_len` is the number of bytes that `encode_with_tx_offsets` puts, so
  -- the buffer never grows past the capacity that it is made with; and so is that of a reward.
  pub encoded_len-length :
      {E : Type 0} (b : ConfirmedBlockProtoRef E)
      → (length (encode_with_tx_offsets p b).0 ≡ encoded_len p b)
        × ((r : Reward) → length (encode_raw p r) ≡ reward_len p r)
  unfolding encode_with_tx_offsets encoded_len
  encoded_len-length b = (
    omega (
      arith,
      length-append (put_all p b.transactions (first_fields p b) []).0 (last_fields p b),
      length-put_all b.transactions (first_fields p b) [],
      length-first_fields b,
      length-last_fields b,
      length-put_rewards b.rewards,
    ),
    length-encode_raw,
  )
