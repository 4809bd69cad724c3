-- ===== src/Slots/Readers.antt =====
-- `StoredSlotsRead` (src/storage/slots.rs). Its clones share all but one field: the shared part is
-- one record, and `max_recent_blockhashes_ready` is a flag for each clone.
use alpamayo.Prelude.{
  ℕ, ◌+◌, Bool, true, false, not, ◌&&◌, ◌||◌, List, [], ◌∷◌, ◌==◌, if◌then◌else◌, unwrap_or, length,
}
use alpamayo.Prelude.TreeMap.{get, insert, remove, prune}
use alpamayo.Slots.Stored.{StoredSlots, processed_store_max, confirmed_store, finalized_store}

-- `BTreeMap<Slot, HashSet<usize>>`; a hash set is a list with no index twice.
abbrev pub Reports : Type 0
Reports = List (ℕ × List ℕ)

pub record SharedSlots : Type 0 where
  pub stored_slots : StoredSlots
  pub slots_processed : Reports
  pub slots_confirmed : Reports
  pub slots_finalized : Reports
  pub max_recent_blockhashes : ℕ
  pub total_readers : ℕ

-- `StoredSlotsRead::new`
unfoldable pub new : StoredSlots → ℕ → SharedSlots
new stored_slots total_readers = record {
  stored_slots = stored_slots;
  slots_processed = [];
  slots_confirmed = [];
  slots_finalized = [];
  max_recent_blockhashes = 0;
  total_readers = total_readers;
}

-- `HashSet::contains` and `HashSet::insert`
abbrev pub contains : ℕ → List ℕ → Bool
contains a [] = false
contains a (x ∷ xs) = x == a || contains a xs

abbrev pub add : ℕ → List ℕ → List ℕ
add a xs = if contains a xs then xs else a ∷ xs

-- `StoredSlotsRead::set`: the new map, and whether every reader has reported the slot.
unfoldable pub report : ℕ → ℕ → ℕ → Reports → Reports × Bool
report total index slot m =
    let entry = add index (unwrap_or (get slot m) []) in
    if length entry == total
    then (remove slot (insert slot entry m), true)
    else (insert slot entry m, false)

unfoldable pub set_processed : ℕ → ℕ → SharedSlots → SharedSlots
set_processed index slot s =
    let (m, all) = report s.total_readers index slot s.slots_processed in
    let s' : SharedSlots = record s { slots_processed = m } in
    if all then record s' { stored_slots = processed_store_max slot s.stored_slots } else s'

unfoldable pub set_confirmed : ℕ → ℕ → SharedSlots → SharedSlots
set_confirmed index slot s =
    let (m, all) = report s.total_readers index slot s.slots_confirmed in
    let s' : SharedSlots = record s { slots_confirmed = m } in
    if all
    then record s' { stored_slots = confirmed_store slot (processed_store_max slot s.stored_slots) }
    else s'

unfoldable pub set_finalized : ℕ → ℕ → SharedSlots → SharedSlots
set_finalized index slot s =
    let (m, all) = report s.total_readers index slot s.slots_finalized in
    if all
    then record s {
      stored_slots = finalized_store slot s.stored_slots;
      slots_processed = prune slot s.slots_processed;
      slots_confirmed = prune slot s.slots_confirmed;
      slots_finalized = prune slot m;
    }
    else record s { slots_finalized = m }

-- `set_ready` of one clone, whose own flag is passed and returned.
unfoldable pub set_ready : Bool → Bool → SharedSlots → SharedSlots × Bool
set_ready ready flag s =
    let count = s.max_recent_blockhashes + 1 in
    if ready && not flag
    then (
      record s {
        max_recent_blockhashes = count;
        stored_slots =
            if count == s.total_readers
            then record (s.stored_slots) { max_recent_blockhashes = true }
            else s.stored_slots;
      },
      true,
    )
    else (s, flag)
