-- ===== src/Fees/Accounts.antt =====
-- `TransactionsFees::get_fee` (src/source/fees.rs) for a set of accounts.
use alpamayo.Prelude.{
  ℕ, zero, suc, ◌+◌, ◌*◌, ◌/◌, ◌≤◌, ◌<◌, ◌≡◌, refl, sym, ap, ◌⊎◌, inl, inr, min, Option, none, some,
  List, [], ◌∷◌, ◌++◌, arith, length, get_elem?, Option-cases,
}
use native.Mathlib.Nat.{mul-le-mul_right}
use alpamayo.Prelude.TreeMap.{get}
use alpamayo.Fees.Percentile.{
  TransactionsFees, get_percentile, get_with_percentile, account_fees, get_fee, In,
  get_fee-Greatest,
}

-- The fee that stands at the percentile in a list of fees: 0 without fees, the first fee without a
-- percentile, and else the fee that has the part of the list in front of it.
abbrev pub AtPercentile : List ℕ → Option ℕ → ℕ → Type 0
AtPercentile [] percentile fee = fee ≡ 0
AtPercentile (x ∷ fees) none fee = fee ≡ x
AtPercentile (x ∷ fees) (some percentile) fee =
    (before after : List ℕ) × (x ∷ fees ≡ before ++ (fee ∷ after))
    × (length before * 10000 ≤ min percentile 9999 * length (x ∷ fees))
    × (min percentile 9999 * length (x ∷ fees) < (length before + 1) * 10000)

get_elem?-split :
    (xs : List ℕ) (i : ℕ)
    → i < length xs
    → (before : List ℕ) × (x : ℕ) × (after : List ℕ) × (get_elem? xs i ≡ some x)
      × (xs ≡ before ++ (x ∷ after))
      × (length before ≡ i)
get_elem?-split [] i l = absurd (omega arith)
get_elem?-split (x ∷ xs) zero l = ([], x, xs, refl, refl, refl)
get_elem?-split (x ∷ xs) (suc i) l =
    let (before, y, after, e, split, n) = get_elem?-split xs i (omega arith) in
    (x ∷ before, y, after, e, ap (◌∷◌ x) split, ap suc n)

index_bounds :
    (p n : ℕ)
    → 0 < n
    → (min p 9999 * n / 10000 < n)
      × (min p 9999 * n / 10000 * 10000 ≤ min p 9999 * n)
      × (min p 9999 * n < (min p 9999 * n / 10000 + 1) * 10000)
index_bounds p n h = (omega (arith, under), omega arith, omega arith)
  where
    under : min p 9999 * n ≤ 9999 * n
    under = mul-le-mul_right {m = min p 9999} {n = 9999} n (omega arith)

get_with_percentile-At :
    (fees : List ℕ) (percentile : Option ℕ)
    → AtPercentile fees percentile (get_with_percentile fees percentile)
unfolding get_with_percentile get_percentile
get_with_percentile-At [] none = refl
get_with_percentile-At [] (some p) = refl
get_with_percentile-At (x ∷ fees) none = refl
get_with_percentile-At (x ∷ fees) (some p) =
    let n = length (x ∷ fees) in
    let bounds = index_bounds p n (omega arith) in
    let (before, fee, after, found, split, i) =
      get_elem?-split (x ∷ fees) (min p 9999 * n / 10000) bounds.0 in
    rw (found) (before, after, split, rw i bounds.1, rw i bounds.2)

account_fees-given :
    (account : ℕ) (accounts : List ℕ) (percentile : Option ℕ) (t : TransactionsFees) {fees : List ℕ}
    → In account accounts
    → get account t.writable_account_fees ≡ some fees
    → In (get_with_percentile fees percentile) (account_fees t percentile accounts)
unfolding account_fees
account_fees-given account [] percentile t i e = i
account_fees-given account (a ∷ accounts) percentile t (inl same) e =
    rw (account_fees, sym same, e) (inl refl)
account_fees-given account (a ∷ accounts) percentile t (inr i) e =
    let rest = account_fees-given account accounts percentile t i e in
    elim (Option-cases (get a t.writable_account_fees)) [
      | inl f ↦ rw (account_fees, f) rest
      | inr (fees, f) ↦ rw (account_fees, f) (inr rest)
    ]

-- The fee is that of one of the accounts.
abbrev OfAccount : List ℕ → Option ℕ → TransactionsFees → ℕ → Type 0
OfAccount accounts percentile t fee =
    (account : ℕ) × (fees : List ℕ) × In account accounts
    × (get account t.writable_account_fees ≡ some fees)
    × AtPercentile fees percentile fee

later :
    (a fee : ℕ) (accounts : List ℕ) (percentile : Option ℕ) (t : TransactionsFees)
    → OfAccount accounts percentile t fee
    → OfAccount (a ∷ accounts) percentile t fee
later a fee accounts percentile t (account, fees, i, e, stands) = (account, fees, inr i, e, stands)

account_fees-OfAccount :
    (accounts : List ℕ) (percentile : Option ℕ) (t : TransactionsFees) (fee : ℕ)
    → In fee (account_fees t percentile accounts)
    → OfAccount accounts percentile t fee
unfolding account_fees
account_fees-OfAccount [] percentile t fee i = absurd i
account_fees-OfAccount (a ∷ accounts) percentile t fee i =
    elim (Option-cases (get a t.writable_account_fees)) [
      | inl f ↦
          let j = rw (account_fees, f) at i in
          later a fee accounts percentile t (account_fees-OfAccount accounts percentile t fee j)
      | inr (fees, f) ↦
          let j = rw (account_fees, f) at i in
          elim j [
            | inl e ↦ (a, fees, inl refl, f, rw e (get_with_percentile-At fees percentile))
            | inr k ↦
                later a fee accounts percentile t
                  (account_fees-OfAccount accounts percentile t fee k)
          ]
    ]

-- What the fee of a set of accounts is.
pub record Highest (accounts : List ℕ) (percentile : Option ℕ) (t : TransactionsFees) (fee : ℕ)
    : Type 0 where
  pub one_of : AtPercentile t.fees percentile fee ⊎ OfAccount accounts percentile t fee
  pub above_block : (x : ℕ) × AtPercentile t.fees percentile x × (x ≤ fee)
  pub above_account :
      (account : ℕ) (fees : List ℕ)
      → In account accounts
      → get account t.writable_account_fees ≡ some fees
      → (x : ℕ) × AtPercentile fees percentile x × (x ≤ fee)

-- The fee of a set of accounts stands at the percentile in the fees of the block, or in those of one of
-- the accounts that has fees in it; and it is not below the fee at the percentile of the block nor of any
-- such account. At a percentile, the part of the list in front of the fee is that of the percentile of
-- 10,000, rounded down, and a percentile above 9,999 counts as 9,999; without a percentile it is the
-- first fee, and in an empty list 0.
pub get_fee-Highest :
    (accounts : List ℕ) (percentile : Option ℕ) (t : TransactionsFees)
    → Highest accounts percentile t (get_fee accounts percentile t)
get_fee-Highest accounts percentile t =
    let g = get_fee-Greatest accounts percentile t in
    let block = get_with_percentile-At t.fees percentile in
    record {
      one_of = elim g.one_of [
        | inl e ↦ inl (rw e block)
        | inr i ↦ inr (account_fees-OfAccount accounts percentile t _ i)
      ];
      above_block = (get_with_percentile t.fees percentile, block, g.above_all _ (inl refl));
      above_account = λ account fees i e. (
        get_with_percentile fees percentile,
        get_with_percentile-At fees percentile,
        g.above_all _ (inr (account_fees-given account accounts percentile t i e)),
      );
    }
