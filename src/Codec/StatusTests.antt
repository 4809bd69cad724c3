-- ===== src/Codec/StatusTests.antt =====
-- Concrete values for the lists of src/storage/rocksdb.rs.
use alpamayo.Prelude.{ℕ, ◌≡◌, refl, none, some, Bool, true, false, List, [], ◌∷◌, arith, replicate}
use alpamayo.Codec.Tests.{one_byte, code, some_hash}
use alpamayo.Codec.Extra.{SlotExtraIndexValue}
use alpamayo.Codec.Sfa
use alpamayo.Codec.Sfa.{SignatureStatus, encode_statuses, decode_next, decode_next-encode_statuses}

abbrev two_hashes : SlotExtraIndexValue
two_hashes = record { transactions = some_hash ∷ some_hash ∷ []; sfa = some_hash ∷ [] }

abbrev all_text : List ℕ → Bool
all_text bytes = true

abbrev status : SignatureStatus ℕ
status = record {
  signature = replicate 64 7;
  error = some 3;
  memo = some (104 ∷ 105 ∷ []);
  transaction_index = 70000;
  is_token_owner = true;
  token_balance_changed = false;
}

status-Fits : Sfa.Fits one_byte code all_text status
status-Fits = record {
  signature_fits = refl;
  index_fits = omega arith;
  error_fits = λ e q. omega arith;
  memo_fits = λ m q. (ground (arith, q), refl);
}

decode_next-encode_statuses_example :
    (decode_next one_byte code all_text (encode_statuses one_byte code all_text (status ∷ []))
      ≡ some (some status, encode_statuses one_byte code all_text []))
    × (decode_next one_byte code all_text (encode_statuses one_byte code all_text [])
        ≡ some (none, []))
decode_next-encode_statuses_example =
    decode_next-encode_statuses one_byte code all_text status [] status-Fits
