-- ===== src/Stream/Poll.antt =====
-- `StreamSource` (src/source/stream.rs): an update of the stream, and `poll_next`.
use alpamayo.Prelude.{
  ℕ, Option, none, some, Bool, true, false, List, [], ◌∷◌, ◌++◌, ltb, leb, if◌then◌else◌, Result,
  ok, err, unwrap_or,
}
use alpamayo.Prelude.TreeMap.{get, insert}
use alpamayo.Source.Transaction.{TransactionWithBinary}
use alpamayo.Source.Encode.{Prost, Reward}
use alpamayo.Source.Block.{NewBlock}
use alpamayo.Stream.Slot
use alpamayo.Stream.Slot.{
  SlotStatusProto, slot_processed, slot_confirmed, slot_finalized, slot_first_shred_received,
  slot_completed, slot_created_bank, slot_dead, RecvError, recv, missed_field, unexpected_message,
  unknown_commitment_level, transaction_with_meta_failed, missed_parent, unexpected_commitment,
  SubscribeUpdateBlockMeta, SlotInfo, try_build_block,
}

pub data StreamSourceSlotStatus : Type 0 where
  dead confirmed finalized : StreamSourceSlotStatus

-- The messages that `poll_next` makes; `Start` and `CatchupRequired` come from the caller.
pub data StreamSourceMessage (E : Type 0) : Type 0 where
  block : (slot : ℕ) → NewBlock E → StreamSourceMessage E
  slot_status : (slot parent : ℕ) → StreamSourceSlotStatus → StreamSourceMessage E

-- What the stream yields: an error, or `update_oneof`. A status is `none` if it is unknown. `T` is the
-- transaction of an update, with its index.
pub data Update (T R : Type 0) : Type 0 where
  failed missing ping : Update T R
  account transaction_status full_block pong entry block_footer entry_update_parent : Update T R
  slot_update : (slot : ℕ) → Option ℕ → Option SlotStatusProto → Update T R
  transaction : Option (ℕ × T) → (slot : ℕ) → Update T R
  block_meta : SubscribeUpdateBlockMeta R → Update T R

pub record StreamSource (E R : Type 0) : Type 0 where
  pub slots : List (ℕ × SlotInfo E R)
  pub first_processed : Option ℕ
  pub index_vote : Bool

-- The `continue` of the loop, or what it returns.
abbrev pub Outcome : Type 0 → Type 0
Outcome E = Option (Result RecvError (StreamSourceMessage E))

module _ {E R : Type 0} where
  -- `entry(slot).or_insert_with`.
  abbrev pub slot_info : ℕ → StreamSource E R → SlotInfo E R
  slot_info slot s = unwrap_or (get slot s.slots) (Slot.new slot s.index_vote)

  abbrev pub put : ℕ → SlotInfo E R → StreamSource E R → StreamSource E R
  put slot info s = record s { slots = insert slot info s.slots }

  -- Slots up to the first processed one are not reported. If no bank was seen, blocks are, slot
  -- statuses are not.
  abbrev pub dropped : ℕ → StreamSource E R → Bool
  dropped slot s = elim s.first_processed [ none ↦ false | some first ↦ leb slot first ]

  -- The first slots, while they are below the finalized one.
  unfoldable pub drop_outdated : ℕ → List (ℕ × SlotInfo E R) → List (ℕ × SlotInfo E R)
  drop_outdated slot [] = []
  drop_outdated slot ((j, info) ∷ m) =
      let rest = drop_outdated slot m in if ltb j slot then rest else (j, info) ∷ m

  -- A new bank of a slot above the first processed one.
  unfoldable pub created_bank : ℕ → Option ℕ → StreamSource E R → StreamSource E R × Outcome E
  created_bank slot parent s =
      let info = slot_info slot s in
      let refused : StreamSource E R × Outcome E =
        (put slot info s, some (err (unexpected_commitment info.status slot_created_bank))) in
      elim info.parent [
        | some _ ↦ refused
        | none ↦ elim info.status [
          | slot_created_bank ↦ elim parent [
            | some parent ↦ (put slot (record info { parent = some parent }) s, none)
            | none ↦ refused
          ]
          | _ ↦ refused
        ]
      ]

  abbrev pub finalize : ℕ → Option ℕ → StreamSource E R → StreamSource E R × Outcome E
  finalize slot parent s = (
    record s { slots = drop_outdated slot s.slots },
    some (elim parent [
      | some parent ↦ ok (slot_status slot parent finalized)
      | none ↦ err (missed_parent slot)
    ]),
  )

  unfoldable pub dead_or_confirmed : Bool → ℕ → StreamSource E R → StreamSource E R × Outcome E
  dead_or_confirmed is_dead slot s =
      let info = slot_info slot s in
      let status = if is_dead then slot_dead else slot_confirmed in
      let refused : StreamSource E R × Outcome E =
        (put slot info s, some (err (unexpected_commitment info.status status))) in
      elim info.parent [
        | none ↦ refused
        | some parent ↦ elim info.status [
          | slot_created_bank ↦ (
            put slot (record info { status = status }) s,
            some (ok (slot_status slot parent (if is_dead then dead else confirmed))),
          )
          | slot_confirmed ↦ if is_dead then refused else (put slot info s, none)
          | _ ↦ refused
        ]
      ]

  -- The first new bank is the first processed slot.
  abbrev pub see_bank : ℕ → StreamSource E R → StreamSource E R
  see_bank slot s = elim s.first_processed [
    | none ↦ record s { first_processed = some slot }
    | some _ ↦ s
  ]

  -- Whether a slot is above the first processed one.
  abbrev pub is_above : ℕ → StreamSource E R → Bool
  is_above slot s = elim s.first_processed [ none ↦ false | some first ↦ ltb first slot ]

  abbrev pub if_above :
      ℕ → StreamSource E R → StreamSource E R × Outcome E → StreamSource E R × Outcome E
  if_above slot s next = if is_above slot s then next else (s, none)

  unfoldable pub on_slot :
      ℕ → Option ℕ → Option SlotStatusProto → StreamSource E R → StreamSource E R × Outcome E
  unfolding created_bank dead_or_confirmed drop_outdated
  on_slot slot parent none s = (s, some (err unknown_commitment_level))
  on_slot slot parent (some slot_processed) s = (s, none)
  on_slot slot parent (some slot_first_shred_received) s = (s, none)
  on_slot slot parent (some slot_completed) s = (s, none)
  on_slot slot parent (some slot_created_bank) s =
      if_above slot (see_bank slot s) (created_bank slot parent (see_bank slot s))
  on_slot slot parent (some slot_finalized) s = if_above slot s (finalize slot parent s)
  on_slot slot parent (some slot_dead) s = if_above slot s (dead_or_confirmed true slot s)
  on_slot slot parent (some slot_confirmed) s = if_above slot s (dead_or_confirmed false slot s)

  -- A slot whose block may be complete now.
  abbrev pub report :
      Prost
      → (R → Option Reward)
      → ℕ
      → SlotInfo E R
      → StreamSource E R
      → StreamSource E R × Outcome E
  report p create_reward slot info s = if dropped slot s then (put slot info s, none) else (
    put slot (try_build_block p create_reward info).0 s,
    elim (try_build_block p create_reward info).1 [
      | none ↦ none
      | some (ok b) ↦ some (ok (block slot b))
      | some (err e) ↦ some (err e)
    ],
  )

-- `create` is `create_tx_with_meta` and then `TransactionWithBinary::new`.
module _ (p : Prost) {E R T : Type 0} (create_reward : R → Option Reward)
    (create : ℕ → T → ℕ → Option (TransactionWithBinary E)) where
  -- The entry of the slot is made before the transaction is converted.
  abbrev pub add_transaction :
      Option (TransactionWithBinary E) → ℕ → ℕ → StreamSource E R → StreamSource E R × Outcome E
  add_transaction none index slot s =
      (put slot (slot_info slot s) s, some (err transaction_with_meta_failed))
  add_transaction (some t) index slot s =
      report p create_reward slot
        (record (slot_info slot s) {
          transactions = (slot_info slot s).transactions ++ ((index, t) ∷ []);
        })
        s

  unfoldable pub on_transaction :
      Option (ℕ × T) → ℕ → StreamSource E R → StreamSource E R × Outcome E
  on_transaction none slot s = (s, some (err missed_field))
  on_transaction (some (index, tx)) slot s = add_transaction (create slot tx index) index slot s

  unfoldable pub on_block_meta :
      SubscribeUpdateBlockMeta R → StreamSource E R → StreamSource E R × Outcome E
  unfolding try_build_block
  on_block_meta m s =
      report p create_reward m.slot (record (slot_info m.slot s) { block_meta = some m }) s

  unfoldable pub on_update : Update T R → StreamSource E R → StreamSource E R × Outcome E
  unfolding on_slot on_transaction on_block_meta
  on_update failed s = (s, some (err recv))
  on_update missing s = (s, some (err missed_field))
  on_update ping s = (s, none)
  on_update account s = (s, some (err unexpected_message))
  on_update transaction_status s = (s, some (err unexpected_message))
  on_update full_block s = (s, some (err unexpected_message))
  on_update pong s = (s, some (err unexpected_message))
  on_update entry s = (s, some (err unexpected_message))
  on_update block_footer s = (s, some (err unexpected_message))
  on_update entry_update_parent s = (s, some (err unexpected_message))
  on_update (slot_update slot parent status) s = on_slot slot parent status s
  on_update (transaction tx slot) s = on_transaction tx slot s
  on_update (block_meta m) s = on_block_meta m s

  -- The loop: the updates left, the new state, and what is returned; `none` when the stream has ended or
  -- has no more updates yet.
  unfoldable pub poll_next :
      List (Update T R) → StreamSource E R → List (Update T R) × StreamSource E R × Outcome E
  unfolding on_update
  poll_next [] s = ([], s, none)
  poll_next (u ∷ updates) s =
      let rest = poll_next updates (on_update u s).0 in
      elim (on_update u s).1 [ none ↦ rest | some r ↦ (updates, (on_update u s).0, some r) ]
