-- ===== src/Stream/Once.antt =====
-- src/source/stream.rs: a block is reported once, with all of its transactions.
use alpamayo.Prelude.{
  Result-cases, ==_iff, ℕ, ◌+◌, ◌≤◌, ◌≡◌, refl, sym, ap, ◌∙◌, Option, none, some, Bool, true, false,
  List, [], ◌∷◌, ltb, ◌==◌, ◌||◌, not, if◌then◌else◌, length, Result, ok, err, unwrap_or, arith,
  Bool-cases, Option-cases, inl, inr,
}
use alpamayo.Prelude.TreeMap.{get, get-insert}
use alpamayo.Source.Encode.{Prost, Reward}
use alpamayo.Source.Block.{NewBlock}
use alpamayo.Stream.Slot
use alpamayo.Stream.Slot.{
  convert_rewards, SlotStatusProto, slot_finalized, slot_dead, slot_confirmed, RecvError,
  SubscribeUpdateBlockMeta, SlotInfo, block_of, try_build_block,
}
use alpamayo.Stream.Made.{MadeOf, block_of-MadeOf}
use alpamayo.Stream.Poll.{
  see_bank, drop_outdated, slot_update, report, dropped, created_bank, dead_or_confirmed,
  StreamSource, Update, block, slot_status, Outcome, slot_info, put,
}

pub some_ok-inj :
    {A : Type 0} {a b : A}
    → ◌≡◌ {A = Option (Result RecvError A)} (some (ok a)) (some (ok b))
    → a ≡ b
some_ok-inj e = cc

-- What a report of a block says about the slot before and after it.
module _ (p : Prost) {E R : Type 0} (create_reward : R → Option Reward) where
  pub try_build_block-sealed :
      (s : SlotInfo E R) {b : NewBlock E}
      → (try_build_block p create_reward s).1 ≡ some (ok b)
      → (s.sealed ≡ false)
        × ((try_build_block p create_reward s).0.sealed ≡ true)
        × ((m : SubscribeUpdateBlockMeta R) × (s.block_meta ≡ some m)
            × (m.executed_transaction_count ≡ length s.transactions)
            × MadeOf create_reward p s.index_vote m s.transactions b)
  unfolding try_build_block
  try_build_block-sealed s e = elim (Option-cases s.block_meta) [
    | inl none_yet ↦ let e1 = rw none_yet at e in absurd (ground arith)
    | inr (m, found) ↦
        elim (Bool-cases
          (s.sealed || not (m.executed_transaction_count == length s.transactions))) [
            | inl c ↦ let e1 = rw (found, c) at e in absurd (ground arith)
            | inr c ↦ elim (Option-cases (convert_rewards create_reward m.rewards)) [
              | inl r ↦ let e1 = rw (found, c, r) at e in absurd (ground arith)
              | inr (rewards, r) ↦
                  let e1 = rw (found, c, r) at e in
                  (
                    ground (arith, c),
                    rw (found, c, r),
                    (
                      m,
                      found,
                      ground (arith, c),
                      rw (sym (some_ok-inj e1))
                          (block_of-MadeOf create_reward p s.index_vote m s.transactions rewards r),
                    ),
                  )
            ]
          ]
  ]

abbrev pub one_if : Bool → ℕ
one_if true = 1
one_if false = 0

-- How often an outcome reports the block of a slot.
abbrev pub reported : {E : Type 0} → ℕ → Outcome E → ℕ
reported slot (some (ok (block j b))) = one_if (j == slot)
reported slot (some (ok (slot_status j parent status))) = 0
reported slot (some (err e)) = 0
reported slot none = 0

module _ {E R : Type 0} where
  abbrev pub is_sealed : ℕ → StreamSource E R → Bool
  is_sealed slot s = (slot_info slot s).sealed

  put-sealed :
      (slot j : ℕ) (info : SlotInfo E R) (s : StreamSource E R)
      → is_sealed slot (put j info s) ≡ (if j == slot then info.sealed else is_sealed slot s)
  put-sealed slot j info s =
      ap (λ o. (unwrap_or o (Slot.new slot s.index_vote)).sealed) (get-insert j slot info s.slots)
      ∙ elim (Bool-cases (j == slot)) [ inl e ↦ rw e | inr e ↦ rw e ]

  -- An entry that is put back with its seal.
  pub put_same :
      (slot j : ℕ) (info : SlotInfo E R) (s : StreamSource E R)
      → info.sealed ≡ is_sealed j s
      → is_sealed slot (put j info s) ≡ is_sealed slot s
  put_same slot j info s e = put-sealed slot j info s ∙ elim (Bool-cases (j == slot)) [
    | inl q ↦ rw q (e ∙ ap (λ k. is_sealed k s) ((==_iff j slot).0 q))
    | inr q ↦ rw q
  ]

  pub created_bank-quiet :
      (slot j : ℕ) (parent : Option ℕ) (s : StreamSource E R)
      → (reported slot (created_bank j parent s).1 ≡ 0)
        × (is_sealed slot (created_bank j parent s).0 ≡ is_sealed slot s)
  unfolding created_bank
  created_bank-quiet slot j none s = ground (arith, put_same slot j (slot_info j s) s refl)
  created_bank-quiet slot j (some q) s = ground (
    arith,
    put_same slot j (slot_info j s) s refl,
    put_same slot j (record (slot_info j s) { parent = some q }) s refl,
  )

  pub dead_or_confirmed-quiet :
      (slot j : ℕ) (is_dead : Bool) (s : StreamSource E R)
      → (reported slot (dead_or_confirmed is_dead j s).1 ≡ 0)
        × (is_sealed slot (dead_or_confirmed is_dead j s).0 ≡ is_sealed slot s)
  unfolding dead_or_confirmed
  dead_or_confirmed-quiet slot j true s = ground (
    arith,
    put_same slot j (slot_info j s) s refl,
    put_same slot j (record (slot_info j s) { status = slot_dead }) s refl,
  )
  dead_or_confirmed-quiet slot j false s = ground (
    arith,
    put_same slot j (slot_info j s) s refl,
    put_same slot j (record (slot_info j s) { status = slot_confirmed }) s refl,
  )

  pub see_bank-sealed :
      (slot j : ℕ) (s : StreamSource E R) → is_sealed slot (see_bank j s) ≡ is_sealed slot s
  see_bank-sealed slot j s = elim (Option-cases s.first_processed) [
    | inl e ↦ rw (see_bank, e)
    | inr (_, e) ↦ rw (see_bank, e)
  ]

  pub get-drop_outdated :
      (slot j : ℕ) (m : List (ℕ × SlotInfo E R))
      → j ≤ slot
      → get slot (drop_outdated j m) ≡ get slot m
  unfolding get drop_outdated
  get-drop_outdated slot j [] l = refl
  get-drop_outdated slot j ((k, info) ∷ m) l = ground (arith, get-drop_outdated slot j m l)

-- Whether an update drops the slot as outdated.
abbrev pub outdates : {T R : Type 0} → ℕ → Update T R → Bool
outdates slot (slot_update j parent status) = elim status [
  | none ↦ false
  | some status ↦ elim status [ slot_finalized ↦ ltb slot j | _ ↦ false ]
]
outdates slot u = false

-- The seal of one entry before and after a write to an entry, which may be that one.
seal_kept :
    (same before info done after : Bool)
    → after ≡ (if same then done else before)
    → (same ≡ true → before ≡ info)
    → (info ≡ true → done ≡ true)
    → one_if before ≤ one_if after
seal_kept same before info done after a h k = ground (arith, a, h, k)

seal_set :
    (same before info done after : Bool)
    → after ≡ (if same then done else before)
    → (same ≡ true → before ≡ info)
    → info ≡ false
    → done ≡ true
    → one_if same + one_if before ≤ one_if after
seal_set same before info done after a h k l = ground (arith, a, h, k, l)

module _ (p : Prost) {E R : Type 0} (create_reward : R → Option Reward) where
  try_build_block-keeps :
      (info : SlotInfo E R)
      → info.sealed ≡ true
      → (try_build_block p create_reward info).0.sealed ≡ true
  unfolding try_build_block
  try_build_block-keeps info e = ground (arith, e)

  pub report-once :
      (slot j : ℕ) (info : SlotInfo E R) (s : StreamSource E R)
      → info.sealed ≡ is_sealed j s
      → reported slot (report p create_reward j info s).1 + one_if (is_sealed slot s)
        ≤ one_if (is_sealed slot (report p create_reward j info s).0)
  report-once slot j info s e =
      let done = (try_build_block p create_reward info).0 in
      let unbuilt = put_same slot j info s e in
      let built = put-sealed slot j done s in
      let here : (j == slot) ≡ true → is_sealed slot s ≡ info.sealed =
        λ q. ap (λ k. is_sealed k s) (sym ((==_iff j slot).0 q)) ∙ sym e in
      let keeps =
        seal_kept (j == slot) (is_sealed slot s) info.sealed done.sealed
          (is_sealed slot (put j done s)) built here (try_build_block-keeps info) in
      elim (Bool-cases (dropped j s)) [
        | inl d ↦ rw (d, unbuilt) (omega arith)
        | inr d ↦ elim (Option-cases (try_build_block p create_reward info).1) [
          | inl quiet ↦ rw (d, quiet) (omega (arith, keeps))
          | inr (a, out) ↦ elim (Result-cases a) [
            | inr (x, failed) ↦ rw (d, out, failed) (omega (arith, keeps))
            | inl (b, made) ↦
                let sealing = try_build_block-sealed p create_reward info (out ∙ ap some made) in
                rw (d, out, made)
                  (seal_set (j == slot) (is_sealed slot s) info.sealed done.sealed
                    (is_sealed slot (put j done s)) built here sealing.0 sealing.1)
          ]
        ]
      ]
