-- ===== src/Fees/Prices.antt =====
-- src/source/fees.rs: which compute budget instructions a successful run has read.
use alpamayo.Prelude.{
  ℕ, ◌+◌, ◌≤◌, ◌≡◌, refl, sym, ◌∙◌, ◌⊎◌, inl, inr, min, Option, none, some, Bool, List, [], ◌∷◌,
  ◌++◌, arith, if◌then◌else◌, Result, ok, err, Bool-cases, Result-cases,
}
use alpamayo.Fees.Budget.{
  ComputeBudgetInstruction, request_heap_frame, set_compute_unit_limit, set_compute_unit_price,
  set_loaded_accounts_data_size_limit, unused, TransactionError, Limits, ComputeBudgetLimits,
  Budget, start, budget_step, step, budget_loop, finish, process_compute_budget_instructions,
}

abbrev pub limit_of : Option ComputeBudgetInstruction → List ℕ
limit_of (some (set_compute_unit_limit n)) = n ∷ []
limit_of _ = []

abbrev pub price_of : Option ComputeBudgetInstruction → List ℕ
price_of (some (set_compute_unit_price n)) = n ∷ []
price_of _ = []

abbrev pub to_list : Option ℕ → List ℕ
to_list none = []
to_list (some n) = n ∷ []

module _ (limits : Limits) {P D : Type 0} (check_id : P → Bool)
    (decode : D → Option ComputeBudgetInstruction) where
  -- What the compute budget instructions of a transaction ask for.
  unfoldable pub asked : (Option ComputeBudgetInstruction → List ℕ) → List (P × D) → List ℕ
  asked of [] = []
  asked of ((program_id, data_bytes) ∷ rest) =
      (if check_id program_id then of (decode data_bytes) else []) ++ asked of rest

  -- The price and the limit after a part of the instructions.
  record Read (b b' : Budget) (limit price : List ℕ) : Type 0 where
    limit_read :
        to_list b'.updated_compute_unit_limit ≡ to_list b.updated_compute_unit_limit ++ limit
    price_read :
        to_list b'.updated_compute_unit_price ≡ to_list b.updated_compute_unit_price ++ price

  budget_step-Read :
      (i : ℕ) (c : Option ComputeBudgetInstruction) (b b' : Budget)
      → budget_step limits i c b ≡ ok b'
      → Read b b' (limit_of c) (price_of c)
  unfolding budget_step
  budget_step-Read i (some (request_heap_frame n)) b b' e = record {
    limit_read = ground (arith, e);
    price_read = ground (arith, e);
  }
  budget_step-Read i (some (set_compute_unit_limit n)) b b' e = record {
    limit_read = ground (arith, e);
    price_read = ground (arith, e);
  }
  budget_step-Read i (some (set_compute_unit_price n)) b b' e = record {
    limit_read = ground (arith, e);
    price_read = ground (arith, e);
  }
  budget_step-Read i (some (set_loaded_accounts_data_size_limit n)) b b' e = record {
    limit_read = ground (arith, e);
    price_read = ground (arith, e);
  }
  budget_step-Read i (some unused) b b' e = ground (arith, e)
  budget_step-Read i none b b' e = ground (arith, e)

  abbrev accepted : Budget → Result TransactionError Budget
  accepted b = ok b

  step-Read :
      (i : ℕ) (program_id : P) (data_bytes : D) (b b' : Budget)
      → step limits check_id decode i program_id data_bytes b ≡ ok b'
      → Read b b'
          (if check_id program_id then limit_of (decode data_bytes) else [])
          (if check_id program_id then price_of (decode data_bytes) else [])
  unfolding step
  step-Read i program_id data_bytes b b' e = elim (Bool-cases (check_id program_id)) [
    | inl p ↦ rw p (budget_step-Read i (decode data_bytes) b b' (rw p at e))
    | inr p ↦ rw p (skipped (rw p at e))
  ]
    where
      skipped :
          accepted (record b {
            num_non_compute_budget_instructions =
                min (b.num_non_compute_budget_instructions + 1) 4294967295;
          })
            ≡ ok b'
          → Read b b' [] []
      skipped e = record { limit_read = ground (arith, e); price_read = ground (arith, e) }

  append_assoc : (xs ys zs : List ℕ) → (xs ++ ys) ++ zs ≡ xs ++ (ys ++ zs)
  append_assoc [] ys zs = refl
  append_assoc (x ∷ xs) ys zs = rw (append_assoc xs ys zs)

  refused : {b' : Budget} (x : TransactionError) → ¬ (err x ≡ accepted b')
  refused x e = ground (arith, e)

  budget_loop-Read :
      (i : ℕ) (xs : List (P × D)) (b b' : Budget)
      → budget_loop limits check_id decode i xs b ≡ ok b'
      → Read b b' (asked limit_of xs) (asked price_of xs)
  unfolding budget_loop asked
  budget_loop-Read i [] b b' e = record {
    limit_read = ground (arith, e);
    price_read = ground (arith, e);
  }
  budget_loop-Read i ((program_id, data_bytes) ∷ rest) b b' e =
      elim (Result-cases (step limits check_id decode i program_id data_bytes b)) [
        | inr (x, q) ↦ absurd (refused x (rw (budget_loop, q) at e))
        | inl (m, q) ↦
            let first = step-Read i program_id data_bytes b m q in
            let others = budget_loop-Read (i + 1) rest m b' (rw (budget_loop, q) at e) in
            record {
              limit_read =
                  others.limit_read
                  ∙ rw first.limit_read (
                      append_assoc (to_list b.updated_compute_unit_limit)
                        (if check_id program_id then limit_of (decode data_bytes) else [])
                        (asked limit_of rest));
              price_read =
                  others.price_read
                  ∙ rw first.price_read (
                      append_assoc (to_list b.updated_compute_unit_price)
                        (if check_id program_id then price_of (decode data_bytes) else [])
                        (asked price_of rest));
            }
      ]

  one_or_none :
      (o : Option ℕ) (asked : List ℕ)
      → to_list o ≡ asked
      → ((asked ≡ []) × (o ≡ none)) ⊎ ((n : ℕ) × (asked ≡ n ∷ []) × (o ≡ some n))
  one_or_none none asked e = inl (sym e, refl)
  one_or_none (some n) asked e = inr (n, sym e, refl)

  abbrev limits_of : ComputeBudgetLimits → Result TransactionError ComputeBudgetLimits
  limits_of r = ok r

  no_limits : {r : ComputeBudgetLimits} (x : TransactionError) → ¬ (err x ≡ limits_of r)
  no_limits x e = ground (arith, e)

  same_limits : {q r : ComputeBudgetLimits} → limits_of q ≡ limits_of r → q ≡ r
  same_limits {q} {r} e = ground (arith, e)

  min_le : (a m : ℕ) → min a m ≤ m
  min_le a m = omega arith

  price_known :
      (b : Budget) {asks : List ℕ}
      → to_list b.updated_compute_unit_price ≡ asks
      → ((asks ≡ []) × ((finish limits b).compute_unit_price ≡ 0))
        ⊎ ((n : ℕ) × (asks ≡ n ∷ []) × ((finish limits b).compute_unit_price ≡ n))
  unfolding finish
  price_known b {asks} h = elim (one_or_none b.updated_compute_unit_price asks h) [
    | inl (a, o) ↦ inl (a, rw o)
    | inr (n, a, o) ↦ inr (n, a, rw o)
  ]

  limit_known :
      (b : Budget) {asks : List ℕ}
      → to_list b.updated_compute_unit_limit ≡ asks
      → (asks ≡ [])
        ⊎ ((n : ℕ) × (asks ≡ n ∷ [])
            × ((finish limits b).compute_unit_limit ≡ min n limits.max_compute_unit_limit))
  unfolding finish
  limit_known b {asks} h = elim (one_or_none b.updated_compute_unit_limit asks h) [
    | inl (a, o) ↦ inl a
    | inr (n, a, o) ↦ inr (n, a, rw o)
  ]

  -- If the instructions of a transaction are accepted, at most one of them sets the compute unit
  -- price and at most one the limit: the price is the one asked for, or 0, and the limit is at most
  -- the maximum and, when one is asked for, the lesser of the two.
  pub process_compute_budget_instructions-asked :
      (xs : List (P × D)) (r : ComputeBudgetLimits)
      → process_compute_budget_instructions limits check_id decode xs ≡ ok r
      → (((asked price_of xs ≡ []) × (r.compute_unit_price ≡ 0))
          ⊎ ((n : ℕ) × (asked price_of xs ≡ n ∷ []) × (r.compute_unit_price ≡ n)))
        × (r.compute_unit_limit ≤ limits.max_compute_unit_limit)
        × ((asked limit_of xs ≡ [])
            ⊎ ((n : ℕ) × (asked limit_of xs ≡ n ∷ [])
                × (r.compute_unit_limit ≡ min n limits.max_compute_unit_limit)))
  unfolding process_compute_budget_instructions finish
  process_compute_budget_instructions-asked xs r e =
      elim (Result-cases (budget_loop limits check_id decode 0 xs start)) [
        | inr (x, q) ↦ absurd (no_limits x (rw (process_compute_budget_instructions, q) at e))
        | inl (b, q) ↦
            let read = budget_loop-Read 0 xs start b q in
            let done : finish limits b ≡ r =
              same_limits (rw (process_compute_budget_instructions, q) at e) in
            rw (← done) (price_known b read.price_read, min_le _ _, limit_known b read.limit_read)
      ]
