-- ===== src/Source/Convert.antt =====
-- `TransactionWithBinary::new` (src/source/transaction.rs) and the constructors of `SignatureForAddress`
-- (src/source/sfa.rs), for a transaction with its metadata. An address, a string of an owner and a string of an amount are numbers.
use alpamayo.Prelude.{
  ℕ, Option, none, some, Bool, true, false, ◌||◌, List, [], ◌∷◌, ◌++◌, map, ◌==◌, if◌then◌else◌,
}
use alpamayo.Prelude.TreeMap.{get, insert}
use alpamayo.Source.Transaction.{SignatureForAddress}

pub record TransactionTokenBalance : Type 0 where
  pub account_index : ℕ
  pub amount : ℕ
  pub owner : ℕ

-- The parts of a transaction with its metadata that become entries.
pub record Meta (E : Type 0) : Type 0 where
  pub account_keys : List ℕ
  pub error : Option E
  pub memo : Option (List ℕ)
  pub pre_token_balances : List TransactionTokenBalance
  pub post_token_balances : List TransactionTokenBalance

-- `HashSet::contains`
abbrev pub contains : ℕ → List ℕ → Bool
contains x [] = false
contains x (y ∷ ys) = (y == x) || contains x ys

-- `collect` into a map: a later amount of an account replaces an earlier one.
unfoldable pub amounts : List TransactionTokenBalance → List (ℕ × ℕ) → List (ℕ × ℕ)
amounts [] m = m
amounts (b ∷ bs) m = amounts bs (insert b.account_index b.amount m)

abbrev pub same_amount : Option ℕ → Option ℕ → Bool
same_amount none none = true
same_amount none (some b) = false
same_amount (some a) none = false
same_amount (some a) (some b) = a == b

-- The owners of the balances that changed.
unfoldable pub changed : List (ℕ × ℕ) → List (ℕ × ℕ) → List TransactionTokenBalance → List ℕ
changed pre post [] = []
changed pre post (b ∷ bs) =
    let rest = changed pre post bs in
    if same_amount (get b.account_index pre) (get b.account_index post)
    then rest
    else b.owner ∷ rest

-- The loop over the owners with those seen, of which `parse` is `parse::<Pubkey>`: the addresses that
-- get an entry, and whether a balance of the owner changed.
unfoldable pub owners :
    (ℕ → Option ℕ) → List ℕ → List ℕ → List ℕ → List TransactionTokenBalance → List (ℕ × Bool)
owners parse direct owner_changed seen [] = []
owners parse direct owner_changed seen (b ∷ bs) =
    let rest = owners parse direct owner_changed (b.owner ∷ seen) bs in
    if contains b.owner seen
    then owners parse direct owner_changed seen bs
    else elim (parse b.owner) [
      | none ↦ rest
      | some address ↦
          if contains address direct then rest else (address, contains b.owner owner_changed) ∷ rest
    ]

-- `encode` and `address_hash` are those of `SfaIndex`.
module _ {E : Type 0} (encode : ℕ → ℕ → ℕ) (address_hash : ℕ → ℕ) (parse : ℕ → Option ℕ) where
  abbrev pub new : ℕ → ℕ → List ℕ → Option E → Option (List ℕ) → ℕ → SignatureForAddress E
  new slot address signature error memo transaction_index = record {
    key = encode address slot;
    address_hash = address_hash address;
    address = address;
    signature = signature;
    error = error;
    memo = memo;
    transaction_index = transaction_index;
    is_token_owner = false;
    token_balance_changed = false;
  }

  abbrev pub new_token_owner :
      ℕ → ℕ → List ℕ → Option E → Option (List ℕ) → ℕ → Bool → SignatureForAddress E
  new_token_owner slot address signature error memo transaction_index balance_changed =
      record (new slot address signature error memo transaction_index) {
        is_token_owner = true;
        token_balance_changed = balance_changed;
      }

  unfoldable pub sfa_of : ℕ → List ℕ → ℕ → Meta E → List (SignatureForAddress E)
  unfolding amounts changed owners
  sfa_of slot signature transaction_index m =
      let balances = m.pre_token_balances ++ m.post_token_balances in
      let owner_changed =
        changed (amounts m.pre_token_balances []) (amounts m.post_token_balances []) balances in
      map (λ address. new slot address signature m.error m.memo transaction_index) m.account_keys
      ++ map (λ p. new_token_owner slot p.0 signature m.error m.memo transaction_index p.1)
          (owners parse m.account_keys owner_changed [] balances)
