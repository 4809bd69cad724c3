-- ===== src/Stream/Received.antt =====
-- src/source/stream.rs: what a run of updates has brought for a slot.
use alpamayo.Prelude.{
  ℕ, ◌≡◌, refl, ap, ◌∙◌, ◌⊎◌, inl, inr, none, some, Bool, List, [], ◌∷◌, ◌++◌, ltb, ◌==◌, ==_iff,
  if◌then◌else◌, unwrap_or, arith, Bool-cases,
}
use alpamayo.Prelude.TreeMap.{get, get-insert, Above, IsSorted, get-Above}
use alpamayo.Source.Transaction.{TransactionWithBinary}
use alpamayo.Stream.Slot
use alpamayo.Stream.Slot.{
  SlotStatusProto, slot_processed, slot_confirmed, slot_finalized, slot_first_shred_received,
  slot_completed, slot_created_bank, slot_dead, SubscribeUpdateBlockMeta, SlotInfo, try_build_block,
  convert_rewards,
}
use alpamayo.Stream.Poll.{StreamSource, slot_info, put, drop_outdated}

-- What is known of the entry of a slot: its transactions are the last of those received, and its meta
-- is a received one.
pub record Tracks {E R : Type 0} (index_vote : Bool) (received : List (ℕ × TransactionWithBinary E))
    (Given : SubscribeUpdateBlockMeta R → Type 0) (info : SlotInfo E R) : Type 0 where
  pub earlier : List (ℕ × TransactionWithBinary E)
  pub are_last : earlier ++ info.transactions ≡ received
  pub meta_given : (m : SubscribeUpdateBlockMeta R) → info.block_meta ≡ some m → Given m
  pub same_vote : info.index_vote ≡ index_vote

module _ {E R : Type 0} where
  pub slot_info-put :
      (slot j : ℕ) (info : SlotInfo E R) (s : StreamSource E R)
      → slot_info slot (put j info s) ≡ (if j == slot then info else slot_info slot s)
  slot_info-put slot j info s =
      ap (λ o. unwrap_or o (Slot.new slot s.index_vote)) (get-insert j slot info s.slots)
      ∙ elim (Bool-cases (j == slot)) [ inl e ↦ rw e | inr e ↦ rw e ]

  -- The entry of the slot as it was, or no entry.
  pub get-drop_outdated_or :
      (slot j : ℕ) (m : List (ℕ × SlotInfo E R))
      → IsSorted m
      → (get slot (drop_outdated j m) ≡ get slot m) ⊎ (get slot (drop_outdated j m) ≡ none)
  unfolding get drop_outdated
  get-drop_outdated_or slot j [] h = inl refl
  get-drop_outdated_or slot j ((k, info) ∷ m) h = elim (Bool-cases (ltb k j)) [
    | inr e ↦ inl (rw (drop_outdated, e) refl)
    | inl e ↦ elim (Bool-cases (k == slot)) [
      | inr d ↦ rw (drop_outdated, e, d) (get-drop_outdated_or slot j m h.1)
      | inl q ↦
          let same : k ≡ slot = (==_iff k slot).0 q in
          let gone : get slot m ≡ none = get-Above k slot m (omega (arith, same)) h.0 in
          rw (drop_outdated, e)
            (elim (get-drop_outdated_or slot j m h.1) [ inl a ↦ inr (a ∙ gone) | inr a ↦ inr a ])
    ]
  ]

  Above-drop : (k j : ℕ) (m : List (ℕ × SlotInfo E R)) → Above k m → Above k (drop_outdated j m)
  unfolding drop_outdated
  Above-drop k j [] a = a
  Above-drop k j ((i, info) ∷ m) a = ground (arith, Above-drop k j m a.1)

  pub drop_outdated-IsSorted :
      (j : ℕ) (m : List (ℕ × SlotInfo E R)) → IsSorted m → IsSorted (drop_outdated j m)
  unfolding drop_outdated
  drop_outdated-IsSorted j [] h = h
  drop_outdated-IsSorted j ((i, info) ∷ m) h = ground (arith, drop_outdated-IsSorted j m h.1)
