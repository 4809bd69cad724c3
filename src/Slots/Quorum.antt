-- ===== src/Slots/Quorum.antt =====
-- src/storage/slots.rs: a slot moves at the report that completes the set of readers.
use alpamayo.Prelude.{
  ℕ, ◌≤◌, ◌<◌, ◌≡◌, ◌≢◌, refl, ◌∙◌, inl, inr, none, Bool, true, false, List, [], ◌∷◌, ◌++◌, arith,
  leb, ◌==◌, if◌then◌else◌, unwrap_or, length, replicate, Bool-cases,
}
use alpamayo.Prelude.TreeMap.{
  get, insert, remove, IsSorted, get-insert, get-remove, get-prune, insert-IsSorted,
  remove-IsSorted, prune-IsSorted,
}
use alpamayo.Slots.Stored
use alpamayo.Slots.Readers.{
  Reports, SharedSlots, add, report, set_processed, set_confirmed, set_finalized,
}

-- The readers that have reported, after `acc` and then each of a list.
abbrev pub seen : List ℕ → List ℕ → List ℕ
seen acc [] = acc
seen acc (i ∷ is) = seen (add i acc) is

-- A run of reports of one slot: the last map, and the answer to each.
pub report_all : ℕ → ℕ → Reports → List ℕ → Reports × List Bool
report_all total slot m [] = (m, [])
report_all total slot m (i ∷ is) =
    let (m', all) = report total i slot m in
    let (m'', flags) = report_all total slot m' is in (m'', all ∷ flags)

le-length-add : (a : ℕ) (xs : List ℕ) → length xs ≤ length (add a xs)
le-length-add a xs = ground arith

le-length-seen : (acc is : List ℕ) → length acc ≤ length (seen acc is)
le-length-seen acc [] = omega arith
le-length-seen acc (i ∷ is) = omega (arith, le-length-add i acc, le-length-seen (add i acc) is)

report-pending :
    (total i slot : ℕ) (m : Reports)
    → let entry = add i (unwrap_or (get slot m) []) in
      length entry < total → report total i slot m ≡ (insert slot entry m, false)
unfolding report
report-pending total i slot m h = ground arith

report_complete :
    (total i slot : ℕ) (m : Reports)
    → let entry = add i (unwrap_or (get slot m) []) in
      length entry ≡ total → report total i slot m ≡ (remove slot (insert slot entry m), true)
unfolding report
report_complete total i slot m h = ground arith

-- Reports of a slot leave every other slot as it is.
report-ne :
    (total i slot j : ℕ) (m : Reports) → j ≢ slot → get j (report total i slot m).0 ≡ get j m
unfolding report
report-ne total i slot j m ne =
    let entry = add i (unwrap_or (get slot m) []) in
    ground (arith, get-insert slot j entry m, get-remove slot j (insert slot entry m))

report_all-ne :
    (total slot j : ℕ) (m : Reports) (is : List ℕ)
    → j ≢ slot
    → get j (report_all total slot m is).0 ≡ get j m
unfolding report_all
report_all-ne total slot j m [] ne = refl
report_all-ne total slot j m (i ∷ is) ne =
    ground
      (arith, report-ne total i slot j m, report_all-ne total slot j (report total i slot m).0 is)

report_all_from :
    (total slot i : ℕ) (is acc : List ℕ) (m : Reports)
    → unwrap_or (get slot m) [] ≡ acc
    → length (seen acc is) < total
    → length (seen acc (is ++ (i ∷ []))) ≡ total
    → let (m', flags) = report_all total slot m (is ++ (i ∷ [])) in
      (flags ≡ replicate (length is) false ++ (true ∷ [])) × (get slot m' ≡ none)
unfolding report_all
report_all_from total slot i [] acc m a h e =
    let entry = add i (unwrap_or (get slot m) []) in
    let done = report_complete total i slot m (rw a e) in
    rw done (refl, get-remove slot slot (insert slot entry m) ∙ ground arith)
report_all_from total slot i (k ∷ is) acc m a h e =
    let entry = add k (unwrap_or (get slot m) []) in
    let kept : length entry < total = rw a (omega (arith, le-length-seen (add k acc) is)) in
    let step = report-pending total k slot m kept in
    let here : unwrap_or (get slot (insert slot entry m)) [] ≡ add k acc =
      ground (arith, get-insert slot slot entry m) in
    let ih = report_all_from total slot i is (add k acc) (insert slot entry m) here h e in
    ground (arith, step, ih)

-- Readers report a slot that has no entry yet, in any order and any number of times. If the reports
-- before the last come from fewer readers than there are, and the last one makes them all, then
-- only the last report is answered with true, the entry of the slot is gone afterwards, and the
-- entries of all other slots are as before.
pub report_all-quorum :
    (total slot i : ℕ) (is : List ℕ) (m : Reports)
    → get slot m ≡ none
    → length (seen [] is) < total
    → length (seen [] (is ++ (i ∷ []))) ≡ total
    → let (m', flags) = report_all total slot m (is ++ (i ∷ [])) in
      (flags ≡ replicate (length is) false ++ (true ∷ []))
      × (get slot m' ≡ none)
      × ((j : ℕ) → j ≢ slot → get j m' ≡ get j m)
report_all-quorum total slot i is m a h e =
    let r = report_all_from total slot i is [] m (rw a) h e in
    (r.0, r.1, λ j ne. report_all-ne total slot j m (is ++ (i ∷ [])) ne)

report-IsSorted : (total i slot : ℕ) (m : Reports) → IsSorted m → IsSorted (report total i slot m).0
unfolding report
report-IsSorted total i slot m s =
    let entry = add i (unwrap_or (get slot m) []) in
    ground (arith, insert-IsSorted slot entry m s, remove-IsSorted slot (insert slot entry m))

-- The three maps are in key order.
pub record MapsSorted (s : SharedSlots) : Type 0 where
  pub processed : IsSorted s.slots_processed
  pub confirmed : IsSorted s.slots_confirmed
  pub finalized : IsSorted s.slots_finalized

pub set_processed-MapsSorted :
    (i slot : ℕ) (s : SharedSlots) → MapsSorted s → MapsSorted (set_processed i slot s)
unfolding set_processed
set_processed-MapsSorted i slot s h =
    let kept = report-IsSorted s.total_readers i slot s.slots_processed h.processed in
    elim (Bool-cases (report s.total_readers i slot s.slots_processed).1) [
      | inl t ↦ rw t (record { processed = kept; confirmed = h.confirmed; finalized = h.finalized })
      | inr f ↦ rw f (record { processed = kept; confirmed = h.confirmed; finalized = h.finalized })
    ]

pub set_confirmed-MapsSorted :
    (i slot : ℕ) (s : SharedSlots) → MapsSorted s → MapsSorted (set_confirmed i slot s)
unfolding set_confirmed
set_confirmed-MapsSorted i slot s h =
    let kept = report-IsSorted s.total_readers i slot s.slots_confirmed h.confirmed in
    elim (Bool-cases (report s.total_readers i slot s.slots_confirmed).1) [
      | inl t ↦ rw t (record { processed = h.processed; confirmed = kept; finalized = h.finalized })
      | inr f ↦ rw f (record { processed = h.processed; confirmed = kept; finalized = h.finalized })
    ]

pub set_finalized-MapsSorted :
    (i slot : ℕ) (s : SharedSlots) → MapsSorted s → MapsSorted (set_finalized i slot s)
unfolding set_finalized
set_finalized-MapsSorted i slot s h =
    let kept = report-IsSorted s.total_readers i slot s.slots_finalized h.finalized in
    elim (Bool-cases (report s.total_readers i slot s.slots_finalized).1) [
      | inl t ↦ rw t (record {
        processed = prune-IsSorted slot s.slots_processed h.processed;
        confirmed = prune-IsSorted slot s.slots_confirmed h.confirmed;
        finalized = prune-IsSorted slot (report s.total_readers i slot s.slots_finalized).0 kept;
      })
      | inr f ↦ rw f (record { processed = h.processed; confirmed = h.confirmed; finalized = kept })
    ]

get-report :
    (total i slot j : ℕ) (m : Reports)
    → (report total i slot m).1 ≡ true
    → get j (report total i slot m).0 ≡ (if slot == j then none else get j m)
unfolding report
get-report total i slot j m h =
    let entry = add i (unwrap_or (get slot m) []) in
    ground (arith, get-insert slot j entry m, get-remove slot j (insert slot entry m))

-- When the last reader reports a slot as finalized, the three maps lose all entries at or below
-- that slot and keep every other entry (of the finalized map: all but the one reported), and
-- `finalized` becomes the slot unless it lies before the first available one.
pub set_finalized-prunes :
    (i slot j : ℕ) (s : SharedSlots)
    → MapsSorted s
    → (report s.total_readers i slot s.slots_finalized).1 ≡ true
    → let s' = set_finalized i slot s in
      (get j s'.slots_processed ≡ (if leb j slot then none else get j s.slots_processed))
      × (get j s'.slots_confirmed ≡ (if leb j slot then none else get j s.slots_confirmed))
      × (get j s'.slots_finalized ≡ (if leb j slot then none else get j s.slots_finalized))
      × (s'.stored_slots.finalized
          ≡ (if leb s.stored_slots.first_available slot then slot else s.stored_slots.finalized))
unfolding set_finalized Stored.finalized_store
set_finalized-prunes i slot j s h all =
    let m = (report s.total_readers i slot s.slots_finalized).0 in
    let kept = report-IsSorted s.total_readers i slot s.slots_finalized h.finalized in
    rw all (
      get-prune slot j s.slots_processed h.processed,
      get-prune slot j s.slots_confirmed h.confirmed,
      get-prune slot j m kept
          ∙ ground (arith, get-report s.total_readers i slot j s.slots_finalized all),
      ground arith,
    )
