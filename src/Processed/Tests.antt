-- ===== src/Processed/Tests.antt =====
-- src/storage/read.rs: `StorageProcessed` at concrete blocks.
use alpamayo.Prelude.{
  ℕ, ◌≡◌, refl, none, some, List, [], ◌∷◌, ◌++◌, arith, if◌then◌else◌, length, get_elem?, unwrap_or,
}
use mathlib.Core.Option
use alpamayo.Prelude.TreeMap.{get}
use alpamayo.Fees.Percentile.{TransactionsFees}
use alpamayo.Processed.State.{
  Block, RecentBlock, StorageProcessed, empty, set_confirmed, add_processed_block, set_finalized,
}
use alpamayo.Processed.Heights.{
  Message, block_new, block_dead, slot_finalized, block_confirmed, IsValid, Grows, apply_all,
  apply_all-Grows,
}
use alpamayo.Processed.Recent.{Fresh, Outdated, added, set_confirmed-Fresh}
use alpamayo.Processed.Statuses.{get_signature_status, create_result, asked, create_result-eq}
use alpamayo.Processed.Answers.{after_block, after_finalized, add_processed_block-statuses}

abbrev no_fees : TransactionsFees
no_fees = record { fees = []; writable_account_fees = [] }

abbrev block : ℕ → ℕ → Block Unit
block hash height = record {
  blockhash = hash;
  block_height = some height;
  transactions = (hash, none) ∷ [];
  fees = no_fees;
}

abbrev recent : ℕ → ℕ → RecentBlock
recent hash height = record {
  blockhash = hash;
  block_height = height;
  signatures = hash ∷ [];
  fees = no_fees;
}

-- Slot 30 is processed above the confirmed slot 20.
abbrev state : StorageProcessed Unit
state = record empty {
  processed_slot = 30;
  processed_height = 13;
  confirmed_slot = 20;
  confirmed_height = 12;
  finalized_slot = 10;
  finalized_height = 11;
  blocks = (30, some (block 3 13)) ∷ [];
  signature_statuses = (3, record { slot = 30; block_height = 13; error = none }) ∷ [];
  recent_blocks = (10, recent 1 11) ∷ (20, recent 2 12) ∷ (30, recent 3 13) ∷ [];
}

state-IsValid : IsValid state
state-IsValid = record { in_order = (tt, tt); confirmed_below = omega arith }

abbrev messages : List (Message Unit)
messages =
    block_new 31 (block 4 14)
    ∷ block_dead 30
    ∷ block_confirmed 31 (some (block 4 14))
    ∷ slot_finalized 20
    ∷ []

apply_all-Grows_example : Grows state (apply_all 2 messages state)
apply_all-Grows_example = apply_all-Grows 2 messages state state-IsValid

set_confirmed-Fresh_example :
    let t = set_confirmed 2 30 none state in
    let u = added 30 none state in
    (t.confirmed_height
      ≡ unwrap_or
          (Option.map (λ (b : RecentBlock). b.block_height) (get 30 u.recent_blocks))
          u.confirmed_height)
    × Fresh 2 t.confirmed_height t.recent_blocks
    × ((gone : List (ℕ × RecentBlock)) × (u.recent_blocks ≡ gone ++ t.recent_blocks)
        × Outdated 2 t.confirmed_height gone)
set_confirmed-Fresh_example =
    set_confirmed-Fresh 2 30 none state
      ((omega arith, (omega arith, tt)), ((omega arith, tt), (tt, tt)))

new_slot : get 31 state.blocks ≡ none
unfolding get
new_slot = refl

-- The block of slot 31 is above the confirmed height.
add_processed_block-statuses_example :
    (get_signature_status 4 (add_processed_block 31 (block 4 14) state)
      ≡ after_block 4 31 14 (block 4 14) state)
    × (get_signature_status 4 (set_finalized 31 (add_processed_block 31 (block 4 14) state))
        ≡ after_finalized 4 31 14 (block 4 14) state)
add_processed_block-statuses_example =
    add_processed_block-statuses 4 31 14 (block 4 14) state new_slot refl

abbrev two_rows : List (ℕ × ℕ)
two_rows = (5, 50) ∷ (6, 60) ∷ []

abbrev two_asked : List ℕ
two_asked = 5 ∷ 6 ∷ []

create_result-eq_example :
    get_elem? (create_result (two_asked ++ (5 ∷ [])) two_rows) (length two_asked)
    ≡ some (if asked 5 two_asked then none else get 5 two_rows)
create_result-eq_example = create_result-eq two_asked 5 [] two_rows
