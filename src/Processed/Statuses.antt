-- ===== src/Processed/Statuses.antt =====
-- src/storage/read.rs: the statuses of signatures, `get_signature_status` and the request for several.
use alpamayo.Prelude.{
  Bool-cases, inl, inr, ◌&&◌, ℕ, ◌+◌, ◌-◌, ◌≡◌, refl, ap, ◌∙◌, Option, none, some, Bool, false,
  List, [], ◌∷◌, ◌++◌, arith, ltb, leb, ◌==◌, ◌||◌, if◌then◌else◌, length, get_elem?,
}
use alpamayo.Prelude.TreeMap.{get, insert, remove, get-remove}
use alpamayo.Processed.State.{StorageProcessed, SignatureStatus}

pub data TransactionConfirmationStatus : Type 0 where
  processed confirmed finalized : TransactionConfirmationStatus

-- `status` holds the same error as `err`.
pub record TransactionStatus (E : Type 0) : Type 0 where
  pub slot : ℕ
  pub confirmations : Option ℕ
  pub error : Option E
  pub confirmation_status : TransactionConfirmationStatus

-- `checked_sub`, and 1 more.
abbrev pub confirmations_of : ℕ → ℕ → ℕ → Option ℕ
confirmations_of height confirmed_height finalized_height =
    if ltb finalized_height height
    then (if leb height confirmed_height then some (confirmed_height - height + 1) else none)
    else none

abbrev pub confirmation_status_of : Option ℕ → TransactionConfirmationStatus
confirmation_status_of none = finalized
confirmation_status_of (some n) = if n == 0 then processed else confirmed

-- The loop over the asked signatures, with `found.remove`.
unfoldable pub create_result {ℓ} : {A : Type ℓ} → List ℕ → List (ℕ × A) → List (Option A)
create_result [] found = []
create_result (signature ∷ rest) found =
    get signature found ∷ create_result rest (remove signature found)

abbrev pub asked : ℕ → List ℕ → Bool
asked signature [] = false
asked signature (s ∷ rest) = (s == signature) || asked signature rest

module _ {E : Type 0} where
  unfoldable pub get_signature_status : ℕ → StorageProcessed E → Option (TransactionStatus E)
  get_signature_status signature s = elim (get signature s.signature_statuses) [
    | none ↦ none
    | some status ↦
        let confirmations =
          confirmations_of status.block_height s.confirmed_height s.finalized_height in
        some (record {
          slot = status.slot;
          confirmations = confirmations;
          error = status.error;
          confirmation_status = confirmation_status_of confirmations;
        })
  ]

  -- The loop over the asked signatures: those found, and those left for the history.
  unfoldable pub find_statuses :
      Bool
      → List ℕ
      → StorageProcessed E
      → List (ℕ × TransactionStatus E)
      → List (ℕ × TransactionStatus E) × List ℕ
  unfolding get_signature_status
  find_statuses search_history [] s found = (found, [])
  find_statuses search_history (signature ∷ rest) s found =
      elim (get_signature_status signature s) [
        | some status ↦ find_statuses search_history rest s (insert signature status found)
        | none ↦
            let (m, history) = find_statuses search_history rest s found in
            (m, if search_history then signature ∷ history else history)
      ]

  -- The statuses read from the index, each with the slot and the error; those above the finalized slot
  -- are left out.
  unfoldable pub add_history :
      ℕ → List (ℕ × ℕ × Option E) → List (ℕ × TransactionStatus E) → List (ℕ × TransactionStatus E)
  add_history finalized_slot [] found = found
  add_history finalized_slot ((signature, slot, error) ∷ rest) found =
      add_history finalized_slot rest (
        if leb slot finalized_slot
        then insert signature
            (record {
              slot = slot;
              confirmations = none;
              error = error;
              confirmation_status = finalized;
            })
            found
        else found)

  -- A known signature has the slot and the error of its row. Up to the
  -- finalized height it is finalized; above it and up to the confirmed height it is confirmed, with one
  -- confirmation more than the blocks on top of it; above both heights it is reported as finalized too.
  -- It is never reported as processed.
  pub get_signature_status-eq :
      (signature : ℕ) (s : StorageProcessed E) (status : SignatureStatus E)
      → get signature s.signature_statuses ≡ some status
      → get_signature_status signature s
        ≡ some (record {
          slot = status.slot;
          confirmations =
              if ltb s.finalized_height status.block_height
                && leb status.block_height s.confirmed_height
              then some (s.confirmed_height - status.block_height + 1)
              else none;
          error = status.error;
          confirmation_status =
              if ltb s.finalized_height status.block_height
                && leb status.block_height s.confirmed_height
              then confirmed
              else finalized;
        })
  unfolding get_signature_status
  get_signature_status-eq signature s status e =
      rw (get_signature_status, e)
        (elim (Bool-cases (ltb s.finalized_height status.block_height)) [
          | inr low ↦ rw low
          | inl high ↦ elim (Bool-cases (leb status.block_height s.confirmed_height)) [
            | inl under ↦
                let some_left : (s.confirmed_height - status.block_height + 1 == 0) ≡ false =
                  ground arith in
                rw (high, under, some_left)
            | inr above ↦ rw (high, above)
          ]
        ])

-- The answers come in the order of the asked signatures. The first time that a signature is asked for
-- its answer is what was found; every later time it is nothing.
pub create_result-eq :
    {A : Type 0} (before : List ℕ) (signature : ℕ) (after : List ℕ) (found : List (ℕ × A))
    → get_elem? (create_result (before ++ (signature ∷ after)) found) (length before)
      ≡ some (if asked signature before then none else get signature found)
unfolding create_result
create_result-eq [] signature after found = refl
create_result-eq (s ∷ before) signature after found =
    create_result-eq before signature after (remove s found)
    ∙ ap some (ground (arith, get-remove s signature found))
