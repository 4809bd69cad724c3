-- ===== src/Stream/Entries.antt =====
-- src/source/stream.rs: the entry of a slot over one update.
use alpamayo.Prelude.{
  ℕ, ◌≡◌, refl, ap, inl, inr, Option, none, some, Bool, true, false, List, [], ◌∷◌, ◌++◌, ◌==◌,
  ==_iff, if◌then◌else◌, not, ◌||◌, length, arith, Bool-cases, Option-cases,
}
use alpamayo.Prelude.TreeMap.{IsSorted, insert-IsSorted}
use alpamayo.Source.Transaction.{TransactionWithBinary}
use alpamayo.Source.Encode.{Prost, Reward}
use alpamayo.Stream.Slot
use alpamayo.Stream.Slot.{
  SlotStatusProto, slot_processed, slot_confirmed, slot_finalized, slot_first_shred_received,
  slot_completed, slot_created_bank, slot_dead, SubscribeUpdateBlockMeta, SlotInfo, try_build_block,
  convert_rewards,
}
use alpamayo.Stream.Poll.{
  StreamSource, Outcome, slot_info, put, created_bank, dead_or_confirmed, see_bank, finalize,
  is_above, if_above, report, dropped, on_slot,
}
use alpamayo.Stream.Received.{Tracks, slot_info-put, get-drop_outdated_or, drop_outdated-IsSorted}

pub append_nil : {A : Type 0} (xs : List A) → xs ++ [] ≡ xs
append_nil [] = refl
append_nil (x ∷ xs) = ap (◌∷◌ x) (append_nil xs)

pub append_assoc : {A : Type 0} (xs ys zs : List A) → (xs ++ ys) ++ zs ≡ xs ++ (ys ++ zs)
append_assoc [] ys zs = refl
append_assoc (x ∷ xs) ys zs = ap (◌∷◌ x) (append_assoc xs ys zs)

module _ {E R : Type 0} (v : Bool) (r : List (ℕ × TransactionWithBinary E))
    (G : SubscribeUpdateBlockMeta R → Type 0) where
  pub new-Tracks : (slot : ℕ) → Tracks v r G (Slot.new {E = E} {R = R} slot v)
  new-Tracks slot = record {
    earlier = r;
    are_last = append_nil r;
    meta_given = λ m e. absurd (ground (arith, e));
    same_vote = refl;
  }

  -- The state with the entry of the slot.
  abbrev pub Good : ℕ → StreamSource E R → Type 0
  Good slot s = IsSorted s.slots × (s.index_vote ≡ v) × Tracks v r G (slot_info slot s)

  pub put-Good :
      (slot j : ℕ) (info : SlotInfo E R) (s : StreamSource E R)
      → IsSorted s.slots
      → s.index_vote ≡ v
      → (j ≡ slot → Tracks v r G info)
      → ((j == slot) ≡ false → Tracks v r G (slot_info slot s))
      → Good slot (put j info s)
  put-Good slot j info s sorted vote here there = (
    insert-IsSorted j info s.slots sorted,
    vote,
    rw (slot_info-put slot j info s) (elim (Bool-cases (j == slot)) [
      | inl e ↦ rw e (here ((==_iff j slot).0 e))
      | inr e ↦ rw e (there e)
    ]),
  )

  parent-Tracks :
      (info : SlotInfo E R) (parent : Option ℕ)
      → Tracks v r G info
      → Tracks v r G (record info { parent = parent })
  parent-Tracks info parent t = record {
    earlier = t.earlier;
    are_last = t.are_last;
    meta_given = t.meta_given;
    same_vote = t.same_vote;
  }

  status-Tracks :
      (info : SlotInfo E R) (status : SlotStatusProto)
      → Tracks v r G info
      → Tracks v r G (record info { status = status })
  status-Tracks info status t = record {
    earlier = t.earlier;
    are_last = t.are_last;
    meta_given = t.meta_given;
    same_vote = t.same_vote;
  }

  pub entry_of :
      (slot j : ℕ) (s : StreamSource E R) → Good slot s → j ≡ slot → Tracks v r G (slot_info j s)
  entry_of slot j s g e = rw e g.2

  created_bank-Good :
      (slot j : ℕ) (parent : Option ℕ) (s : StreamSource E R)
      → Good slot s
      → Good slot (created_bank j parent s).0
  unfolding created_bank
  created_bank-Good slot j none s g =
      ground (arith, put-Good slot j (slot_info j s) s g.0 g.1 (entry_of slot j s g) (λ _. g.2))
  created_bank-Good slot j (some q) s g = ground (
    arith,
    put-Good slot j (slot_info j s) s g.0 g.1 (entry_of slot j s g) (λ _. g.2),
    put-Good slot j (record (slot_info j s) { parent = some q }) s g.0 g.1
        (λ e. parent-Tracks (slot_info j s) (some q) (entry_of slot j s g e)) (λ _. g.2),
  )

  dead_or_confirmed-Good :
      (slot j : ℕ) (is_dead : Bool) (s : StreamSource E R)
      → Good slot s
      → Good slot (dead_or_confirmed is_dead j s).0
  unfolding dead_or_confirmed
  dead_or_confirmed-Good slot j is_dead s g = ground (
    arith,
    put-Good slot j (slot_info j s) s g.0 g.1 (entry_of slot j s g) (λ _. g.2),
    put-Good slot j
        (record (slot_info j s) { status = if is_dead then slot_dead else slot_confirmed }) s g.0
        g.1
        (λ e.
          status-Tracks (slot_info j s) (if is_dead then slot_dead else slot_confirmed)
            (entry_of slot j s g e))
        (λ _. g.2),
  )

  see_bank-Good : (slot j : ℕ) (s : StreamSource E R) → Good slot s → Good slot (see_bank j s)
  see_bank-Good slot j s g = elim (Option-cases s.first_processed) [
    | inl e ↦ rw (see_bank, e) g
    | inr (_, e) ↦ rw (see_bank, e) g
  ]

  if_above-Good :
      (slot j : ℕ) (s : StreamSource E R) (next : StreamSource E R × Outcome E)
      → Good slot s
      → Good slot next.0
      → Good slot (if_above j s next).0
  if_above-Good slot j s next g h = elim (Bool-cases (is_above j s)) [
    | inl a ↦ rw (if_above, a) h
    | inr a ↦ rw (if_above, a) g
  ]

  try_build_block-Tracks :
      (p : Prost) (create_reward : R → Option Reward) (info : SlotInfo E R)
      → Tracks v r G info
      → Tracks v r G (try_build_block p create_reward info).0
  unfolding try_build_block
  try_build_block-Tracks p create_reward info t = elim (Option-cases info.block_meta) [
    | inl none_yet ↦ rw (try_build_block, none_yet) t
    | inr (m, found) ↦
        elim (Bool-cases
          (info.sealed || not (m.executed_transaction_count == length info.transactions))) [
            | inl c ↦ rw (try_build_block, found, c) t
            | inr c ↦ elim (Option-cases (convert_rewards create_reward m.rewards)) [
              | inl e ↦
                  rw (try_build_block, found, c, e)
                    (record {
                      earlier = t.earlier;
                      are_last = t.are_last;
                      meta_given = λ m e. absurd (ground (arith, e));
                      same_vote = t.same_vote;
                    })
              | inr (rewards, e) ↦
                  rw (try_build_block, found, c, e)
                    (record {
                      earlier = r;
                      are_last = append_nil r;
                      meta_given = λ m e. absurd (ground (arith, e));
                      same_vote = t.same_vote;
                    })
            ]
          ]
  ]

  pub report-Good :
      (p : Prost) (create_reward : R → Option Reward) (slot j : ℕ) (info : SlotInfo E R)
      (s : StreamSource E R)
      → IsSorted s.slots
      → s.index_vote ≡ v
      → (j ≡ slot → Tracks v r G info)
      → ((j == slot) ≡ false → Tracks v r G (slot_info slot s))
      → Good slot (report p create_reward j info s).0
  report-Good p create_reward slot j info s sorted vote here there =
      elim (Bool-cases (dropped j s)) [
        | inl d ↦ rw (report, d) (put-Good slot j info s sorted vote here there)
        | inr d ↦
            rw (report, d)
              (put-Good slot j (try_build_block p create_reward info).0 s sorted vote
                (λ e. try_build_block-Tracks p create_reward info (here e)) there)
      ]

  finalize-Good :
      (slot j : ℕ) (parent : Option ℕ) (s : StreamSource E R)
      → Good slot s
      → Good slot (finalize j parent s).0
  finalize-Good slot j parent s (sorted, vote, t) = (
    drop_outdated-IsSorted j s.slots sorted,
    vote,
    elim (get-drop_outdated_or slot j s.slots sorted) [
      | inl e ↦ rw e t
      | inr e ↦ rw (e, vote) (new-Tracks slot)
    ],
  )

  pub on_slot-Good :
      (slot j : ℕ) (parent : Option ℕ) (status : Option SlotStatusProto) (s : StreamSource E R)
      → Good slot s
      → Good slot (on_slot j parent status s).0
  unfolding on_slot
  on_slot-Good slot j parent none s g = g
  on_slot-Good slot j parent (some slot_processed) s g = g
  on_slot-Good slot j parent (some slot_first_shred_received) s g = g
  on_slot-Good slot j parent (some slot_completed) s g = g
  on_slot-Good slot j parent (some slot_created_bank) s g =
      let t = see_bank j s in
      let h = see_bank-Good slot j s g in
      if_above-Good slot j t (created_bank j parent t) h (created_bank-Good slot j parent t h)
  on_slot-Good slot j parent (some slot_finalized) s g =
      if_above-Good slot j s (finalize j parent s) g (finalize-Good slot j parent s g)
  on_slot-Good slot j parent (some slot_dead) s g =
      if_above-Good slot j s (dead_or_confirmed true j s) g (dead_or_confirmed-Good slot j true s g)
  on_slot-Good slot j parent (some slot_confirmed) s g =
      if_above-Good slot j s (dead_or_confirmed false j s) g
        (dead_or_confirmed-Good slot j false s g)
