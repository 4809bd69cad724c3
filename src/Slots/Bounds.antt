-- ===== src/Slots/Bounds.antt =====
-- src/storage/slots.rs: what holds of the slots after any reports of the readers.
use alpamayo.Prelude.{ℕ, ◌≤◌, ◌≡◌, refl, List, [], ◌∷◌, arith, ◌∙◌}
use alpamayo.Slots.Stored.{StoredSlots, processed_store_max, confirmed_store, finalized_store}
use alpamayo.Slots.Readers.{SharedSlots, new, set_processed, set_confirmed, set_finalized}
use alpamayo.Slots.Quorum.{
  MapsSorted, set_processed-MapsSorted, set_confirmed-MapsSorted, set_finalized-MapsSorted,
}

-- A call of one reader thread: its index and the slot.
pub data Call : Type 0 where
  processed confirmed finalized : ℕ → ℕ → Call

pub step : SharedSlots → Call → SharedSlots
step s (processed i slot) = set_processed i slot s
step s (confirmed i slot) = set_confirmed i slot s
step s (finalized i slot) = set_finalized i slot s

pub run : SharedSlots → List Call → SharedSlots
run s [] = s
run s (c ∷ cs) = run (step s c) cs

step-MapsSorted : (s : SharedSlots) (c : Call) → MapsSorted s → MapsSorted (step s c)
unfolding step
step-MapsSorted s (processed i slot) h = set_processed-MapsSorted i slot s h
step-MapsSorted s (confirmed i slot) h = set_confirmed-MapsSorted i slot s h
step-MapsSorted s (finalized i slot) h = set_finalized-MapsSorted i slot s h

abbrev Grows : StoredSlots → StoredSlots → Type 0
Grows s t = (s.processed ≤ t.processed) × (s.confirmed ≤ s.processed → t.confirmed ≤ t.processed)

step-Grows : (s : SharedSlots) (c : Call) → Grows s.stored_slots (step s c).stored_slots
unfolding step set_processed set_confirmed set_finalized processed_store_max confirmed_store
    finalized_store
step-Grows s (processed i slot) = ground arith
step-Grows s (confirmed i slot) = ground arith
step-Grows s (finalized i slot) = ground arith

run-Grows : (s : SharedSlots) (cs : List Call) → Grows s.stored_slots (run s cs).stored_slots
unfolding run
run-Grows s [] = omega arith
run-Grows s (c ∷ cs) =
    let first = step-Grows s c in
    let later = run-Grows (step s c) cs in (omega (arith, first, later), λ h. later.1 (first.1 h))

run-MapsSorted : (s : SharedSlots) (cs : List Call) → MapsSorted s → MapsSorted (run s cs)
unfolding run
run-MapsSorted s [] h = h
run-MapsSorted s (c ∷ cs) h = run-MapsSorted (step s c) cs (step-MapsSorted s c h)

first-step :
    (s : SharedSlots) (c : Call)
    → (step s c).stored_slots.first_available ≡ s.stored_slots.first_available
unfolding step set_processed set_confirmed set_finalized processed_store_max confirmed_store
    finalized_store
first-step s (processed i slot) = ground arith
first-step s (confirmed i slot) = ground arith
first-step s (finalized i slot) = ground arith

first-run :
    (s : SharedSlots) (cs : List Call)
    → (run s cs).stored_slots.first_available ≡ s.stored_slots.first_available
unfolding run
first-run s [] = refl
first-run s (c ∷ cs) = first-run (step s c) cs ∙ first-step s c

-- Whatever the reader threads report, in any interleaving, from the state of a new
-- `StoredSlotsRead` over slots whose confirmed slot is at most the processed one: the processed slot
-- never falls, the confirmed slot stays at most the processed one, `first_available` is not touched,
-- and the three maps stay in key order.
pub run-ordered :
    (stored : StoredSlots) (total : ℕ) (cs : List Call)
    → stored.confirmed ≤ stored.processed
    → let s = run (new stored total) cs in
      (stored.processed ≤ s.stored_slots.processed)
      × (s.stored_slots.confirmed ≤ s.stored_slots.processed)
      × (s.stored_slots.first_available ≡ stored.first_available)
      × MapsSorted s
unfolding new
run-ordered stored total cs h =
    let grows = run-Grows (new stored total) cs in
    (
      grows.0,
      grows.1 h,
      first-run (new stored total) cs,
      run-MapsSorted (new stored total) cs
          (record { processed = tt; confirmed = tt; finalized = tt }),
    )
