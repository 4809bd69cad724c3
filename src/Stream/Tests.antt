-- ===== src/Stream/Tests.antt =====
-- src/source/stream.rs on a short stream.
use alpamayo.Prelude.TreeMap.{get, insert}
use alpamayo.Prelude.{
  ◌==◌, if◌then◌else◌, ℕ, ◌≤◌, ◌≡◌, refl, Option, none, some, true, false, List, [], ◌∷◌, ◌++◌, ok,
}
use alpamayo.Prelude.Int.{pos}
use alpamayo.Source.Transaction.{TransactionWithBinary}
use alpamayo.Source.Encode.{Reward}
use alpamayo.Source.Block
use alpamayo.Source.Block.{NewBlock}
use alpamayo.Source.Tests.{small, tx}
use alpamayo.Stream.Slot.{SubscribeUpdateBlockMeta, slot_created_bank, slot_confirmed}
use alpamayo.Stream.Poll.{
  StreamSource, Update, slot_update, transaction, block_meta, block, dropped, on_update,
}
use alpamayo.Stream.Once.{is_sealed}
use alpamayo.Stream.Blocks.{reports, reports-once}
use alpamayo.Stream.History.{run_all}
use alpamayo.Stream.Whole.{Whole, run_all-Whole}

abbrev reward : ℕ → Option Reward
reward n = none

-- The transaction 9 has no metadata that converts.
abbrev make : ℕ → ℕ → ℕ → Option (TransactionWithBinary Unit)
make slot n index = if n == 9 then none else some (tx n false [] (n ∷ []))

abbrev meta : SubscribeUpdateBlockMeta ℕ
meta = record {
  slot = 6;
  blockhash = 1 ∷ [];
  rewards = none;
  block_time = some (pos 3);
  block_height = some 2;
  parent_slot = 5;
  parent_blockhash = 2 ∷ [];
  executed_transaction_count = 2;
}

abbrev opened : StreamSource Unit ℕ
opened = record { slots = []; first_processed = none; index_vote = false }

abbrev updates : List (Update ℕ ℕ)
updates =
    slot_update 5 (some 4) (some slot_created_bank)
    ∷ transaction (some (1, 7)) 6
    ∷ block_meta meta
    ∷ transaction (some (0, 8)) 6
    ∷ transaction (some (0, 8)) 6
    ∷ slot_update 6 (some 5) (some slot_confirmed)
    ∷ []

reports-once_example :
    (reports small reward make 6 updates opened ≤ 1)
    × (is_sealed 6 opened ≡ true → reports small reward make 6 updates opened ≡ 0)
reports-once_example =
    reports-once small reward make 6 updates opened
      (refl, (refl, (refl, (refl, (refl, (refl, tt))))))

abbrev before : List (Update ℕ ℕ)
before =
    slot_update 5 (some 4) (some slot_created_bank)
    ∷ transaction (some (1, 7)) 6
    ∷ transaction (some (2, 9)) 6
    ∷ block_meta meta
    ∷ []

abbrev completes : Update ℕ ℕ
completes = transaction (some (0, 8)) 6

-- The block that the second transaction completes.
abbrev completed : NewBlock Unit
completed =
    elim (on_update small reward make completes (run_all small reward make before opened)).1 [
      | some (ok (block slot b)) ↦ b
      | _ ↦ Block.new small false (record {
        previous_blockhash = [];
        blockhash = [];
        parent_slot = 0;
        transactions = [];
        rewards = [];
        num_partitions = none;
        block_time = none;
        block_height = none;
      })
    ]

completed_run :
    (on_update small reward make completes (run_all small reward make before opened)).1
    ≡ some (ok (block 6 completed))
unfolding on_update get run_all insert
completed_run = refl

no_entry : get 6 opened.slots ≡ none
unfolding get
no_entry = refl

run_all-Whole_example :
    Whole small reward make false 6 (before ++ (completes ∷ [])) completed
    × (dropped 6 (run_all small reward make before opened) ≡ false)
run_all-Whole_example =
    run_all-Whole small reward make before completes opened 6 completed tt no_entry completed_run
