-- ===== src/Fees/Collect.antt =====
-- src/source/fees.rs: `TransactionsFees::new`, from the fees of the transactions of a block.
use alpamayo.Prelude.{ℕ, Option, none, some, List, [], ◌∷◌, ◌++◌, leb, if◌then◌else◌, unwrap_or}
use alpamayo.Prelude.TreeMap.{get, insert}
use alpamayo.Fees.Percentile.{TransactionsFees}

pub record TransactionFees : Type 0 where
  pub unit_price : ℕ
  pub account_keys : List ℕ

-- `sort_unstable`, on numbers.
unfoldable pub insert_fee : ℕ → List ℕ → List ℕ
insert_fee x [] = x ∷ []
insert_fee x (y ∷ ys) = let rest = insert_fee x ys in if leb x y then x ∷ y ∷ ys else y ∷ rest

unfoldable pub sort_fees : List ℕ → List ℕ
unfolding insert_fee
sort_fees [] = []
sort_fees (x ∷ xs) = insert_fee x (sort_fees xs)

unfoldable pub push_accounts : ℕ → List ℕ → List (ℕ × List ℕ) → List (ℕ × List ℕ)
push_accounts price [] m = m
push_accounts price (account ∷ accounts) m =
    push_accounts price accounts (insert account (unwrap_or (get account m) [] ++ (price ∷ [])) m)

unfoldable pub push_fees : List (Option TransactionFees) → TransactionsFees → TransactionsFees
unfolding push_accounts
push_fees [] t = t
push_fees (none ∷ txs) t = push_fees txs t
push_fees (some tx ∷ txs) t = push_fees txs (record {
  fees = t.fees ++ (tx.unit_price ∷ []);
  writable_account_fees = push_accounts tx.unit_price tx.account_keys t.writable_account_fees;
})

unfoldable pub sort_accounts : List (ℕ × List ℕ) → List (ℕ × List ℕ)
unfolding sort_fees
sort_accounts [] = []
sort_accounts ((account, fees) ∷ m) = (account, sort_fees fees) ∷ sort_accounts m

unfoldable pub new : List (Option TransactionFees) → TransactionsFees
unfolding push_fees sort_fees sort_accounts
new txs =
    let t = push_fees txs (record { fees = []; writable_account_fees = [] }) in
    record {
      fees = sort_fees t.fees;
      writable_account_fees = sort_accounts t.writable_account_fees;
    }
