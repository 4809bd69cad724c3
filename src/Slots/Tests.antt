-- ===== src/Slots/Tests.antt =====
-- src/storage/slots.rs at concrete reports, and the theorems at inputs that meet their hypotheses.
use alpamayo.Prelude.{ℕ, ◌≤◌, ◌≡◌, ◌≢◌, refl, none, true, false, List, [], ◌∷◌, arith}
use alpamayo.Prelude.TreeMap.{get}
use alpamayo.Slots.Stored.{slots_default}
use alpamayo.Slots.Readers.{SharedSlots, new, report}
use alpamayo.Slots.Quorum.{report_all, report_all-quorum, MapsSorted}
use alpamayo.Slots.Bounds
use alpamayo.Slots.Bounds.{processed, confirmed, finalized, run-ordered}

get_empty : get {V = List ℕ} 7 [] ≡ none
unfolding get
get_empty = refl

default_le : slots_default.confirmed ≤ slots_default.processed
unfolding slots_default
default_le = omega arith

default_flag : slots_default.max_recent_blockhashes ≡ false
unfolding slots_default
default_flag = refl

-- Reader 1 reports twice, then reader 0.
report_all-quorum_example :
    let (m, flags) = report_all 2 7 [] (1 ∷ 1 ∷ 0 ∷ []) in
    (flags ≡ false ∷ false ∷ true ∷ []) × (get 7 m ≡ none) × ((j : ℕ) → j ≢ 7 → get j m ≡ get j [])
report_all-quorum_example = report_all-quorum 2 7 0 (1 ∷ 1 ∷ []) [] get_empty (omega arith) refl

abbrev waiting : SharedSlots
waiting = record (new slots_default 1) { slots_processed = (5, 0 ∷ []) ∷ (9, 0 ∷ []) ∷ [] }

waiting-MapsSorted : MapsSorted waiting
unfolding new
waiting-MapsSorted = record { processed = omega arith; confirmed = tt; finalized = tt }

reported : (report waiting.total_readers 0 7 waiting.slots_finalized).1 ≡ true
unfolding report new get
reported = refl

run-ordered_example :
    let s = Bounds.run (new slots_default 2) (confirmed 0 7 ∷ confirmed 1 7 ∷ finalized 0 7 ∷ []) in
    (slots_default.processed ≤ s.stored_slots.processed)
    × (s.stored_slots.confirmed ≤ s.stored_slots.processed)
    × (s.stored_slots.first_available ≡ slots_default.first_available)
    × MapsSorted s
run-ordered_example =
    run-ordered slots_default 2 (confirmed 0 7 ∷ confirmed 1 7 ∷ finalized 0 7 ∷ []) default_le
