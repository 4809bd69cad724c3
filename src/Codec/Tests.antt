-- ===== src/Codec/Tests.antt =====
-- Concrete keys and values for src/storage/rocksdb.rs. The varint here writes a number as one byte,
-- whatever its size: it has the behaviour that the values rely on.
use alpamayo.Prelude.{ℕ, ◌≡◌, refl, inl, Option, none, some, true, false, List, [], ◌∷◌, arith}
use alpamayo.Prelude.Int.{ℤ, pos, negsuc}
use alpamayo.Codec.Reader.{Varint, Bincode}
use alpamayo.Codec.Basic
use alpamayo.Codec.Basic.{
  InI64, SlotBasicIndexValue, encode_basic, decode_basic, decode_basic-encode_basic,
}
use alpamayo.Codec.Transaction
use alpamayo.Codec.Transaction.{
  TransactionIndexValue, encode_transaction, decode_transaction, place_bytes, error_bytes, shown,
  decode_transaction-encode_transaction, decode_transaction-old,
}
use alpamayo.Codec.Reward
use alpamayo.Codec.Reward.{
  RpcInflationReward, encode_reward_value, decode_reward_value,
  decode_reward_value-encode_reward_value,
}

abbrev read_one : List ℕ → Option (ℕ × List ℕ)
read_one [] = none
read_one (n ∷ rest) = some (n, rest)

abbrev pub one_byte : Varint
one_byte = record {
  encode_varint = λ n. n ∷ [];
  decode_varint = read_one;
  decode-encode = λ n rest h. refl;
  encode_small = λ n h. refl;
}

abbrev read_code : List ℕ → Option ℕ
read_code [] = none
read_code (n ∷ rest) = some n

abbrev pub code : Bincode ℕ
code = record {
  serialize = λ e. e ∷ 0 ∷ [];
  deserialize = read_code;
  deserialize-serialize = λ e. refl;
  serialize_some = λ e. omega arith;
}

abbrev pub some_hash : List ℕ
some_hash = 1 ∷ 2 ∷ 3 ∷ 4 ∷ 5 ∷ 6 ∷ 7 ∷ 8 ∷ []

abbrev live_value : SlotBasicIndexValue
live_value = record {
  dead = false;
  block_time = some (negsuc 4);
  block_height = some 9;
  storage_id = 3;
  offset = 1000;
  size = 70;
}

time_is : (t : ℤ) → some (negsuc 4) ≡ some t → InI64 t
time_is (pos n) e = ground (arith, e)
time_is (negsuc n) e = ground (arith, e)

live_value-Fits : Basic.Fits live_value
live_value-Fits = record {
  time_fits = time_is;
  height_fits = λ h e. ground (arith, e);
  id_fits = omega arith;
  offset_fits = omega arith;
  size_fits = omega arith;
}

decode_basic-encode_basic_example :
    decode_basic one_byte (encode_basic one_byte live_value) ≡ some live_value
decode_basic-encode_basic_example =
    decode_basic-encode_basic one_byte live_value live_value-Fits (inl refl)

abbrev failed : TransactionIndexValue ℕ
failed = record { slot = 5; offset = 60; size = 7; error = some 2; index = 1 }

failed-Fits : Transaction.Fits one_byte code failed
failed-Fits = record {
  slot_fits = omega arith;
  offset_fits = omega arith;
  size_fits = omega arith;
  index_fits = omega arith;
  error_fits = λ e q. omega arith;
}

decode_transaction-encode_transaction_example :
    decode_transaction one_byte code true (encode_transaction one_byte code failed) ≡ some failed
decode_transaction-encode_transaction_example =
    decode_transaction-encode_transaction one_byte code true failed failed-Fits

abbrev old : TransactionIndexValue ℕ
old = record { slot = 5; offset = 60; size = 7; error = some 2; index = 0 }

old-Fits : Transaction.Fits one_byte code old
old-Fits = record {
  slot_fits = omega arith;
  offset_fits = omega arith;
  size_fits = omega arith;
  index_fits = omega arith;
  error_fits = λ e q. omega arith;
}

abbrev reward : RpcInflationReward
reward = record {
  epoch = 700;
  effective_slot = 300;
  amount = 5;
  post_balance = 50;
  commission = some 7;
  commission_bps = some 700;
}

reward-Fits : Reward.Fits one_byte reward
reward-Fits = record {
  epoch_fits = omega arith;
  slot_fits = omega arith;
  amount_fits = omega arith;
  balance_fits = omega arith;
}
