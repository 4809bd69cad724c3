-- ===== src/Source/Transaction.antt =====
-- `SignatureForAddress`, `SignaturesForAddress` (src/source/sfa.rs) and `TransactionWithBinary`
-- (src/source/transaction.rs). Hashes, keys and addresses are numbers, `E` is the transaction error.
use alpamayo.Prelude.{ℕ, Option, Bool, List, [], ◌∷◌, ◌++◌}
use alpamayo.Codec.Sfa.{SignatureStatus}
use alpamayo.Fees.Collect.{TransactionFees}
use alpamayo.Store.Db.{SignaturesForAddress}

pub record SignatureForAddress (E : Type 0) : Type 0 where
  pub key : ℕ
  pub address_hash : ℕ
  pub address : ℕ
  pub signature : List ℕ
  pub error : Option E
  pub memo : Option (List ℕ)
  pub transaction_index : ℕ
  pub is_token_owner : Bool
  pub token_balance_changed : Bool

pub record TransactionWithBinary (E : Type 0) : Type 0 where
  pub key : ℕ
  pub signature : List ℕ
  pub is_vote : Bool
  pub error : Option E
  pub sfa : List (SignatureForAddress E)
  pub fees : Option TransactionFees
  pub protobuf : List ℕ
  pub index : ℕ

module _ {E : Type 0} where
  -- The status that both `SignaturesForAddress::new` and `merge` build.
  abbrev pub status : SignatureForAddress E → SignatureStatus E
  status s = record {
    signature = s.signature;
    error = s.error;
    memo = s.memo;
    transaction_index = s.transaction_index;
    is_token_owner = s.is_token_owner;
    token_balance_changed = s.token_balance_changed;
  }

  abbrev pub new : SignatureForAddress E → SignaturesForAddress E
  new s = record { key = s.key; address_hash = s.address_hash; signatures = status s ∷ [] }

  abbrev pub merge : SignatureForAddress E → SignaturesForAddress E → SignaturesForAddress E
  merge s all = record all { signatures = all.signatures ++ (status s ∷ []) }
