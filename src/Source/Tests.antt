-- ===== src/Source/Tests.antt =====
-- src/source/block.rs at a concrete block.
use alpamayo.Prelude.{
  ℕ, ◌+◌, ◌*◌, ◌≡◌, refl, Option, none, some, Bool, true, false, List, [], ◌∷◌, arith, length,
  reverse, ◌||◌, ◌++◌, ◌==◌, if◌then◌else◌,
}
use alpamayo.Prelude.Int.{pos}
use alpamayo.Prelude.TreeMap.{get}
use alpamayo.Source.Transaction.{SignatureForAddress, TransactionWithBinary}
use alpamayo.Source.Encode.{Prost, Laws, Reward, voting, encode_raw, reward_len}
use alpamayo.Source.Proto.{ConfirmedBlockProtoRef, encode_with_tx_offsets, encoded_len}
use alpamayo.Source.Lengths.{encoded_len-length}
use alpamayo.Source.Offsets.{Located}
use alpamayo.Source.Block
use alpamayo.Source.Block.{Parts, retained}
use alpamayo.Source.Convert.{Meta, contains, sfa_of}
use alpamayo.Source.Owners.{has_entry, owned, sfa_of-addressed}
use alpamayo.Source.Addresses.{signatures_of, all_entries, new-Located}

-- Numbers in one byte each.
abbrev pub small : Prost
small = record {
  encode_key = λ tag. (tag * 8 + 2) ∷ [];
  key_len = λ _. 1;
  encode_varint = λ n. n ∷ [];
  encoded_len_varint = λ _. 1;
  uint64_encode = λ tag n. tag * 8 ∷ n ∷ [];
  uint64_len = λ _ _. 2;
  int64_encode = λ tag z. tag * 8 ∷ 0 ∷ [];
  int64_len = λ _ _. 2;
  int32_encode = λ tag n. tag * 8 ∷ n ∷ [];
  int32_len = λ _ _. 2;
  string_encode = λ tag s. (tag * 8 + 2) ∷ length s ∷ s;
  string_len = λ _ s. 2 + length s;
  message_encode = λ tag len raw. (tag * 8 + 2) ∷ len ∷ raw;
  timestamp_encode = λ tag z. (tag * 8 + 2) ∷ 2 ∷ 8 ∷ 0 ∷ [];
  timestamp_len = λ _ _. 4;
  height_encode = λ tag n. (tag * 8 + 2) ∷ 2 ∷ 8 ∷ n ∷ [];
  height_len = λ _ _. 4;
  partitions_encode = λ tag n. (tag * 8 + 2) ∷ 2 ∷ 8 ∷ n ∷ [];
  partitions_len = λ _ _. 4;
  to_string = λ n. (48 + n) ∷ [];
}

small-Laws : Laws small
small-Laws = record {
  key_lem = λ _. refl;
  varint_lem = λ _. refl;
  uint64_lem = λ _ _. refl;
  int64_lem = λ _ _. refl;
  int32_lem = λ _ _. refl;
  string_lem = λ _ s. omega arith;
  message_lem = λ _ _ raw. omega arith;
  timestamp_lem = λ _ _. refl;
  height_lem = λ _ _. refl;
  partitions_lem = λ _ _. refl;
}

abbrev entry : ℕ → ℕ → SignatureForAddress Unit
entry address signature = record {
  key = address * 100;
  address_hash = address;
  address = address;
  signature = signature ∷ [];
  error = none;
  memo = none;
  transaction_index = 0;
  is_token_owner = false;
  token_balance_changed = false;
}

abbrev pub tx : ℕ → Bool → List (SignatureForAddress Unit) → List ℕ → TransactionWithBinary Unit
tx signature is_vote sfa protobuf = record {
  key = signature;
  signature = signature ∷ [];
  is_vote = is_vote;
  error = none;
  sfa = sfa;
  fees = none;
  protobuf = protobuf;
  index = 0;
}

abbrev parts : Parts Unit
parts = record {
  previous_blockhash = 1 ∷ 2 ∷ [];
  blockhash = 3 ∷ [];
  parent_slot = 9;
  transactions =
      tx 1 false (entry 7 1 ∷ entry 8 1 ∷ []) (50 ∷ 51 ∷ [])
      ∷ tx 2 true [] (60 ∷ [])
      ∷ tx 3 false (entry 7 3 ∷ []) (70 ∷ 71 ∷ 72 ∷ [])
      ∷ [];
  rewards = [];
  num_partitions = none;
  block_time = some (pos 5);
  block_height = some 6;
}

abbrev proto : ConfirmedBlockProtoRef Unit
proto = record {
  previous_blockhash = 1 ∷ 2 ∷ [];
  blockhash = [];
  parent_slot = 9;
  transactions = parts.transactions;
  rewards =
      record {
        pubkey = 4 ∷ [];
        lamports = pos 0;
        post_balance = 8;
        reward_type = some voting;
        commission = some 5;
        commission_bps = none;
      }
      ∷ [];
  block_time = none;
  block_height = some 6;
  num_partitions = none;
}

encoded_len-length_example :
    (length (encode_with_tx_offsets small proto).0 ≡ encoded_len small proto)
    × ((r : Reward) → length (encode_raw small r) ≡ reward_len small r)
encoded_len-length_example = encoded_len-length small small-Laws proto

new-Located_example :
    Located
      (Block.new small false parts).protobuf
      (retained false parts.transactions)
      (Block.new small false parts).txs_offset
    × ((address : ℕ)
        → signatures_of (get address (Block.new small false parts).sfa)
          ≡ all_entries address (reverse (retained false parts.transactions)))
new-Located_example = new-Located small false parts

-- Two account keys, and the balances of two owners, of which one does not parse.
abbrev moved : Meta ℕ
moved = record {
  account_keys = 3 ∷ 5 ∷ [];
  error = none;
  memo = none;
  pre_token_balances = record { account_index = 0; amount = 7; owner = 4 } ∷ [];
  post_token_balances =
      record { account_index = 0; amount = 6; owner = 4 }
      ∷ record { account_index = 1; amount = 2; owner = 9 }
      ∷ [];
}

abbrev parse_small : ℕ → Option ℕ
parse_small owner = if owner == 9 then none else some (owner + 10)

sfa_of-addressed_example :
    has_entry 14 (sfa_of (λ a s. a * 100 + s) (λ a. a * 2) parse_small 8 (1 ∷ []) 0 moved) ≡ (
      contains 14 moved.account_keys
      || owned parse_small 14 (moved.pre_token_balances ++ moved.post_token_balances))
sfa_of-addressed_example =
    sfa_of-addressed (λ a s. a * 100 + s) (λ a. a * 2) parse_small 8 (1 ∷ []) 0 moved 14
