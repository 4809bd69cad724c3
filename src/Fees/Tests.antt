-- ===== src/Fees/Tests.antt =====
-- Concrete transactions and fees for src/source/fees.rs.
use alpamayo.Prelude.{
  ℕ, ◌≤◌, ◌≡◌, refl, ◌⊎◌, min, Option, none, some, Bool, true, false, List, [], ◌∷◌, arith, ok,
}
use alpamayo.Prelude.TreeMap.{get, insert}
use alpamayo.Fees.Collect.{new}
use alpamayo.Fees.Budget.{
  ComputeBudgetInstruction, set_compute_unit_limit, set_compute_unit_price, Limits,
  ComputeBudgetLimits, process_compute_budget_instructions,
}
use alpamayo.Fees.Prices.{asked, price_of, limit_of, process_compute_budget_instructions-asked}
use alpamayo.Fees.Percentile.{TransactionsFees, get_percentile, get_fee, In, get_percentile-In}
use alpamayo.Fees.Accounts.{Highest, get_fee-Highest}

abbrev limits : Limits
limits = record {
  default_instruction_compute_unit_limit = 200000;
  max_compute_unit_limit = 1400000;
  min_heap_frame_bytes = 32768;
  max_heap_frame_bytes = 262144;
}

abbrev decode : Option ComputeBudgetInstruction → Option ComputeBudgetInstruction
decode c = c

abbrev priced : List (Bool × Option ComputeBudgetInstruction)
priced =
    (true, some (set_compute_unit_limit 3000000))
    ∷ (true, some (set_compute_unit_price 42))
    ∷ (false, none)
    ∷ []

abbrev priced_limits : ComputeBudgetLimits
priced_limits = record { compute_unit_limit = 1400000; compute_unit_price = 42 }

priced_runs : process_compute_budget_instructions limits (λ p. p) decode priced ≡ ok priced_limits
unfolding process_compute_budget_instructions
priced_runs = refl

process_compute_budget_instructions-asked_example :
    (((asked limits (λ p. p) decode price_of priced ≡ []) × (priced_limits.compute_unit_price ≡ 0))
      ⊎ ((n : ℕ) × (asked limits (λ p. p) decode price_of priced ≡ n ∷ [])
          × (priced_limits.compute_unit_price ≡ n)))
    × (priced_limits.compute_unit_limit ≤ 1400000)
    × ((asked limits (λ p. p) decode limit_of priced ≡ [])
        ⊎ ((n : ℕ) × (asked limits (λ p. p) decode limit_of priced ≡ n ∷ [])
            × (priced_limits.compute_unit_limit ≡ min n 1400000)))
process_compute_budget_instructions-asked_example =
    process_compute_budget_instructions-asked limits (λ p. p) decode priced priced_limits
      priced_runs

abbrev block_fees : TransactionsFees
block_fees = record {
  fees = 0 ∷ 10 ∷ 20 ∷ [];
  writable_account_fees = (7, 10 ∷ 20 ∷ []) ∷ (9, 0 ∷ []) ∷ [];
}

get_fee-Highest_example :
    Highest (7 ∷ 8 ∷ []) (some 5000) block_fees (get_fee (7 ∷ 8 ∷ []) (some 5000) block_fees)
get_fee-Highest_example = get_fee-Highest (7 ∷ 8 ∷ []) (some 5000) block_fees

get_percentile-In_example :
    (fee : ℕ) × (get_percentile (0 ∷ 10 ∷ 20 ∷ []) 12000 ≡ some fee) × In fee (0 ∷ 10 ∷ 20 ∷ [])
get_percentile-In_example = get_percentile-In (0 ∷ 10 ∷ 20 ∷ []) 12000 (omega arith)

collected :
    new (
      some (record { unit_price = 20; account_keys = 7 ∷ [] })
      ∷ none
      ∷ some (record { unit_price = 10; account_keys = 7 ∷ 9 ∷ [] })
      ∷ [])
    ≡ record { fees = 10 ∷ 20 ∷ []; writable_account_fees = (7, 10 ∷ 20 ∷ []) ∷ (9, 10 ∷ []) ∷ [] }
unfolding new get insert
collected = refl
