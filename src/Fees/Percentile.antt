-- ===== src/Fees/Percentile.antt =====
-- `TransactionsFees` (src/source/fees.rs): the fee of a set of accounts.
use alpamayo.Prelude.{
  ℕ, zero, suc, ◌*◌, ◌/◌, ◌≤◌, ◌<◌, ◌≡◌, refl, ◌⊎◌, inl, inr, min, max, Option, none, some, List,
  [], ◌∷◌, arith, length, get_elem?, head?, unwrap_or,
}
use native.Mathlib.Nat.{mul-le-mul_right}
use alpamayo.Prelude.TreeMap.{get}

pub record TransactionsFees : Type 0 where
  pub fees : List ℕ
  pub writable_account_fees : List (ℕ × List ℕ)

unfoldable pub get_percentile : List ℕ → ℕ → Option ℕ
get_percentile fees percentile = get_elem? fees (min percentile 9999 * length fees / 10000)

unfoldable pub get_with_percentile : List ℕ → Option ℕ → ℕ
unfolding get_percentile
get_with_percentile fees none = unwrap_or (head? fees) 0
get_with_percentile fees (some percentile) = unwrap_or (get_percentile fees percentile) 0

-- `filter_map` over the accounts.
unfoldable pub account_fees : TransactionsFees → Option ℕ → List ℕ → List ℕ
account_fees t percentile [] = []
account_fees t percentile (account ∷ accounts) =
    let rest = account_fees t percentile accounts in
    elim (get account t.writable_account_fees) [
      | none ↦ rest
      | some fees ↦ get_with_percentile fees percentile ∷ rest
    ]

abbrev pub fold_max : ℕ → List ℕ → ℕ
fold_max fee [] = fee
fold_max fee (x ∷ xs) = fold_max (max fee x) xs

-- `reduce`.
abbrev pub reduce_max : List ℕ → Option ℕ
reduce_max [] = none
reduce_max (x ∷ xs) = some (fold_max x xs)

unfoldable pub get_fee : List ℕ → Option ℕ → TransactionsFees → ℕ
unfolding account_fees get_with_percentile
get_fee accounts percentile t =
    let fee = get_with_percentile t.fees percentile in
    elim (reduce_max (account_fees t percentile accounts)) [ none ↦ fee | some afee ↦ max fee afee ]

-- The number is one of the list.
abbrev pub In : ℕ → List ℕ → Type 0
In x [] = ⊥
In x (y ∷ ys) = (x ≡ y) ⊎ In x ys

-- The number is the greatest of the list.
pub record Greatest (m : ℕ) (xs : List ℕ) : Type 0 where
  pub one_of : In m xs
  pub above_all : (x : ℕ) → In x xs → x ≤ m

Greatest-one : (x : ℕ) → Greatest x (x ∷ [])
Greatest-one x = record { one_of = inl refl; above_all = λ y i. ground (arith, i) }

Greatest-max : (x y m : ℕ) (xs : List ℕ) → Greatest m (max x y ∷ xs) → Greatest m (x ∷ y ∷ xs)
Greatest-max x y m xs g = record {
  one_of = ground (arith, g.one_of);
  above_all = λ z i. ground (arith, i, g.above_all z, g.above_all (max x y) (inl refl));
}

fold_max-Greatest : (x : ℕ) (xs : List ℕ) → Greatest (fold_max x xs) (x ∷ xs)
fold_max-Greatest x [] = Greatest-one x
fold_max-Greatest x (y ∷ xs) =
    Greatest-max x y (fold_max (max x y) xs) xs (fold_max-Greatest (max x y) xs)

reduced :
    (fee : ℕ) (xs : List ℕ)
    → Greatest (elim (reduce_max xs) as (λ _. ℕ) [ none ↦ fee | some a ↦ max fee a ]) (fee ∷ xs)
reduced fee [] = Greatest-one fee
reduced fee (x ∷ xs) =
    let g = fold_max-Greatest x xs in
    record {
      one_of = ground (arith, g.one_of);
      above_all = λ y i. ground (arith, i, g.above_all y);
    }

-- The fee of a set of accounts is the greatest of the fee of the block and the fees of those of the
-- accounts that a transaction of the block could write, each at the percentile.
pub get_fee-Greatest :
    (accounts : List ℕ) (percentile : Option ℕ) (t : TransactionsFees)
    → Greatest
        (get_fee accounts percentile t)
        (get_with_percentile t.fees percentile ∷ account_fees t percentile accounts)
unfolding get_fee
get_fee-Greatest accounts percentile t =
    reduced (get_with_percentile t.fees percentile) (account_fees t percentile accounts)

below : (p n : ℕ) → 0 < n → min p 9999 * n / 10000 < n
below p n h = omega (arith, mul_le p n)
  where
    mul_le : (p n : ℕ) → min p 9999 * n ≤ 9999 * n
    mul_le p n = mul-le-mul_right {m = min p 9999} {n = 9999} n (omega arith)

get_elem?-lt : (xs : List ℕ) (i : ℕ) → i < length xs → (x : ℕ) × (get_elem? xs i ≡ some x) × In x xs
get_elem?-lt [] i l = absurd (omega arith)
get_elem?-lt (x ∷ xs) zero l = (x, refl, inl refl)
get_elem?-lt (x ∷ xs) (suc i) l = let (y, e, m) = get_elem?-lt xs i (omega arith) in (y, e, inr m)

-- With at least one fee, every percentile, also above the maximum of 9,999, gives one of the fees.
pub get_percentile-In :
    (fees : List ℕ) (percentile : ℕ)
    → 0 < length fees
    → (fee : ℕ) × (get_percentile fees percentile ≡ some fee) × In fee fees
unfolding get_percentile
get_percentile-In fees percentile h =
    get_elem?-lt fees (min percentile 9999 * length fees / 10000) (below percentile (length fees) h)
