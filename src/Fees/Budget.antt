-- ===== src/Fees/Budget.antt =====
-- `compute_budget_processor` (src/source/fees.rs). The program id test, the borsh decoding of an
-- instruction and the limits come from the Solana crates: they are parameters.
use alpamayo.Prelude.{
  ℕ, ◌+◌, ◌-◌, ◌*◌, ◌%◌, ◌^◌, min, Option, none, some, Bool, ◌&&◌, List, [], ◌∷◌, leb, ◌==◌,
  if◌then◌else◌, is_some, unwrap_or, Result, ok, err,
}

pub data ComputeBudgetInstruction : Type 0 where
  request_heap_frame set_compute_unit_limit set_compute_unit_price : ℕ → ComputeBudgetInstruction
  set_loaded_accounts_data_size_limit : ℕ → ComputeBudgetInstruction
  unused : ComputeBudgetInstruction

pub data TransactionError : Type 0 where
  invalid_instruction_data duplicate_instruction : ℕ → TransactionError

pub record Limits : Type 0 where
  pub default_instruction_compute_unit_limit : ℕ
  pub max_compute_unit_limit : ℕ
  pub min_heap_frame_bytes : ℕ
  pub max_heap_frame_bytes : ℕ

pub record ComputeBudgetLimits : Type 0 where
  pub compute_unit_limit : ℕ
  pub compute_unit_price : ℕ

-- The variables of the loop.
pub record Budget : Type 0 where
  pub num_non_compute_budget_instructions : ℕ
  pub updated_compute_unit_limit : Option ℕ
  pub updated_compute_unit_price : Option ℕ
  pub requested_heap_size : Option ℕ
  pub updated_loaded_accounts_data_size_limit : Option ℕ

abbrev pub start : Budget
start = record {
  num_non_compute_budget_instructions = 0;
  updated_compute_unit_limit = none;
  updated_compute_unit_price = none;
  requested_heap_size = none;
  updated_loaded_accounts_data_size_limit = none;
}

abbrev pub saturating_u32 : ℕ → ℕ
saturating_u32 n = min n (2 ^ 32 - 1)

module _ (limits : Limits) where
  unfoldable pub sanitize_requested_heap_size : ℕ → Bool
  sanitize_requested_heap_size bytes =
      leb limits.min_heap_frame_bytes bytes
      && leb bytes limits.max_heap_frame_bytes
      && (bytes % 1024 == 0)

  -- A compute budget instruction; the index is cast to `u8`.
  unfoldable pub budget_step :
      ℕ → Option ComputeBudgetInstruction → Budget → Result TransactionError Budget
  unfolding sanitize_requested_heap_size
  budget_step i (some (request_heap_frame bytes)) b =
      if is_some b.requested_heap_size
      then err (duplicate_instruction (i % 256))
      else if sanitize_requested_heap_size bytes
      then ok (record b { requested_heap_size = some bytes })
      else err (invalid_instruction_data (i % 256))
  budget_step i (some (set_compute_unit_limit limit)) b =
      if is_some b.updated_compute_unit_limit
      then err (duplicate_instruction (i % 256))
      else ok (record b { updated_compute_unit_limit = some limit })
  budget_step i (some (set_compute_unit_price price)) b =
      if is_some b.updated_compute_unit_price
      then err (duplicate_instruction (i % 256))
      else ok (record b { updated_compute_unit_price = some price })
  budget_step i (some (set_loaded_accounts_data_size_limit bytes)) b =
      if is_some b.updated_loaded_accounts_data_size_limit
      then err (duplicate_instruction (i % 256))
      else ok (record b { updated_loaded_accounts_data_size_limit = some bytes })
  budget_step i (some unused) b = err (invalid_instruction_data (i % 256))
  budget_step i none b = err (invalid_instruction_data (i % 256))

  -- After the loop.
  unfoldable pub finish : Budget → ComputeBudgetLimits
  finish b = record {
    compute_unit_limit =
        min
          (unwrap_or b.updated_compute_unit_limit (
            saturating_u32 (
              b.num_non_compute_budget_instructions
              * limits.default_instruction_compute_unit_limit)))
          limits.max_compute_unit_limit;
    compute_unit_price = unwrap_or b.updated_compute_unit_price 0;
  }

  module _ {P D : Type 0} (check_id : P → Bool) (decode : D → Option ComputeBudgetInstruction) where
    unfoldable pub step : ℕ → P → D → Budget → Result TransactionError Budget
    unfolding budget_step
    step i program_id data_bytes b =
        if check_id program_id
        then budget_step i (decode data_bytes) b
        else ok (record b {
          num_non_compute_budget_instructions =
              saturating_u32 (b.num_non_compute_budget_instructions + 1);
        })

    unfoldable pub budget_loop : ℕ → List (P × D) → Budget → Result TransactionError Budget
    unfolding step
    budget_loop i [] b = ok b
    budget_loop i ((program_id, data_bytes) ∷ rest) b = elim (step i program_id data_bytes b) [
      | err e ↦ err e
      | ok b' ↦ budget_loop (i + 1) rest b'
    ]

    unfoldable pub process_compute_budget_instructions :
        List (P × D) → Result TransactionError ComputeBudgetLimits
    unfolding budget_loop finish
    process_compute_budget_instructions instructions = elim (budget_loop 0 instructions start) [
      | err e ↦ err e
      | ok b ↦ ok (finish b)
    ]
