-- ===== src/Stream/History.antt =====
-- src/source/stream.rs: a reported block and the updates before it.
use alpamayo.Prelude.{
  ℕ, ◌≡◌, refl, sym, ap, ◌∙◌, ◌⊎◌, inl, inr, Option, none, some, Bool, true, false, List, [], ◌∷◌,
  ◌++◌, ◌==◌, ==_iff, if◌then◌else◌, Bool-cases,
}
use alpamayo.Source.Transaction.{TransactionWithBinary}
use alpamayo.Source.Encode.{Prost, Reward}
use alpamayo.Stream.Slot.{SubscribeUpdateBlockMeta, SlotInfo}
use alpamayo.Stream.Poll.{StreamSource, Update, transaction, block_meta, slot_info, on_update}
use alpamayo.Stream.Received.{Tracks}
use alpamayo.Stream.Entries.{Good, append_nil, append_assoc}

-- The meta of the slot is one of the updates.
abbrev pub MetaIn : {T R : Type 0} → ℕ → SubscribeUpdateBlockMeta R → List (Update T R) → Type 0
MetaIn slot m [] = ⊥
MetaIn slot m (u ∷ updates) = ((u ≡ block_meta m) × (m.slot ≡ slot)) ⊎ MetaIn slot m updates

MetaIn-++ :
    {T R : Type 0} (slot : ℕ) (m : SubscribeUpdateBlockMeta R) (past more : List (Update T R))
    → MetaIn slot m past ⊎ MetaIn slot m more
    → MetaIn slot m (past ++ more)
MetaIn-++ slot m [] more (inl i) = absurd i
MetaIn-++ slot m [] more (inr i) = i
MetaIn-++ slot m (u ∷ past) more (inl (inl e)) = inl e
MetaIn-++ slot m (u ∷ past) more (inl (inr i)) = inr (MetaIn-++ slot m past more (inl i))
MetaIn-++ slot m (u ∷ past) more (inr i) = inr (MetaIn-++ slot m past more (inr i))

some_inj : {A : Type 0} {a b : A} → ◌≡◌ {A = Option A} (some a) (some b) → a ≡ b
some_inj e = cc

module _ (p : Prost) {E R T : Type 0} (create_reward : R → Option Reward)
    (create : ℕ → T → ℕ → Option (TransactionWithBinary E)) where
  -- The transaction that an update brings for a slot, with its index, if it converts.
  abbrev pub brought : ℕ → Update T R → List (ℕ × TransactionWithBinary E)
  brought slot u = elim u [
    | transaction received j ↦ elim received [
      | none ↦ []
      | some (index, tx) ↦
          if j == slot
          then elim (create j tx index) [ none ↦ [] | some t ↦ (index, t) ∷ [] ]
          else []
    ]
    | _ ↦ []
  ]

  -- All transactions that the updates bring for a slot.
  abbrev pub received : ℕ → List (Update T R) → List (ℕ × TransactionWithBinary E)
  received slot [] = []
  received slot (u ∷ updates) = brought slot u ++ received slot updates

  pub received-++ :
      (slot : ℕ) (past more : List (Update T R))
      → received slot (past ++ more) ≡ received slot past ++ received slot more
  received-++ slot [] more = refl
  received-++ slot (u ∷ past) more =
      ap (◌++◌ (brought slot u)) (received-++ slot past more)
      ∙ sym (append_assoc (brought slot u) (received slot past) (received slot more))

  -- The state of the source after the updates.
  unfoldable pub run_all : List (Update T R) → StreamSource E R → StreamSource E R
  run_all [] s = s
  run_all (u ∷ updates) s = run_all updates (on_update p create_reward create u s).0

  -- What the updates before have brought for the slot is what its entry has.
  abbrev pub Follows : Bool → ℕ → List (Update T R) → StreamSource E R → Type 0
  Follows v slot past s = Good v (received slot past) (λ m. MetaIn slot m past) slot s

  module _ (v : Bool) (slot : ℕ) (past : List (Update T R)) where
    one_more :
        (u : Update T R) → received slot (past ++ (u ∷ [])) ≡ received slot past ++ brought slot u
    one_more u =
        received-++ slot past (u ∷ [])
        ∙ ap (◌++◌ (received slot past)) (append_nil (brought slot u))

    -- An entry that an update leaves alone, and that it brings nothing for.
    pub later-Tracks :
        (u : Update T R) (info : SlotInfo E R)
        → brought slot u ≡ []
        → Tracks v (received slot past) (λ m. MetaIn slot m past) info
        → Tracks v (received slot (past ++ (u ∷ []))) (λ m. MetaIn slot m (past ++ (u ∷ []))) info
    later-Tracks u info nothing t = record {
      earlier = t.earlier;
      are_last =
          t.are_last
          ∙ sym (
              one_more u
              ∙ ap (◌++◌ (received slot past)) nothing
              ∙ append_nil (received slot past));
      meta_given = λ m e. MetaIn-++ slot m past (u ∷ []) (inl (t.meta_given m e));
      same_vote = t.same_vote;
    }

    pub later-Good :
        (u : Update T R) (s : StreamSource E R)
        → brought slot u ≡ []
        → Follows v slot past s
        → Follows v slot (past ++ (u ∷ [])) s
    later-Good u s nothing g = (g.0, g.1, later-Tracks u (slot_info slot s) nothing g.2)

    pub meta-Tracks :
        (m : SubscribeUpdateBlockMeta R) (info : SlotInfo E R)
        → m.slot ≡ slot
        → Tracks v (received slot past) (λ n. MetaIn slot n past) info
        → Tracks v
            (received slot (past ++ (block_meta m ∷ [])))
            (λ n. MetaIn slot n (past ++ (block_meta m ∷ [])))
            (record info { block_meta = some m })
    meta-Tracks m info same t =
        let still = later-Tracks (block_meta m) info refl t in
        record {
          earlier = still.earlier;
          are_last = still.are_last;
          meta_given = λ n e.
              let one : m ≡ n = some_inj e in
              MetaIn-++ slot n past (block_meta m ∷ [])
                (inr (inl (ap block_meta one, ap (λ k. k.slot) (sym one) ∙ same)));
          same_vote = t.same_vote;
        }

    pub brought-same :
        (index j : ℕ) (tx : T) {t : TransactionWithBinary E}
        → create j tx index ≡ some t
        → j ≡ slot
        → brought slot (transaction (some (index, tx)) j) ≡ (index, t) ∷ []
    brought-same index j tx made same =
        let hit : (j == slot) ≡ true = (==_iff j slot).1 same in rw (brought, hit, made)

    pub brought-other :
        (index j : ℕ) (tx : T)
        → ((j == slot) ≡ false) ⊎ (create j tx index ≡ none)
        → brought slot (transaction (some (index, tx)) j) ≡ []
    brought-other index j tx (inl e) = rw (brought, e)
    brought-other index j tx (inr e) = elim (Bool-cases (j == slot)) [
      | inl d ↦ rw (brought, d, e)
      | inr d ↦ rw (brought, d)
    ]

    pub transaction-Tracks :
        (index j : ℕ) (tx : T) (t : TransactionWithBinary E) (info : SlotInfo E R)
        → create j tx index ≡ some t
        → j ≡ slot
        → Tracks v (received slot past) (λ n. MetaIn slot n past) info
        → Tracks v
            (received slot (past ++ (transaction (some (index, tx)) j ∷ [])))
            (λ n. MetaIn slot n (past ++ (transaction (some (index, tx)) j ∷ [])))
            (record info { transactions = info.transactions ++ ((index, t) ∷ []) })
    transaction-Tracks index j tx t info made same k =
        let u : Update T R = transaction (some (index, tx)) j in
        record {
          earlier = k.earlier;
          are_last =
              sym (append_assoc k.earlier info.transactions ((index, t) ∷ []))
              ∙ ap (λ l. l ++ ((index, t) ∷ [])) k.are_last
              ∙ ap (◌++◌ (received slot past)) (sym (brought-same index j tx made same))
              ∙ sym (one_more u);
          meta_given = λ m e. MetaIn-++ slot m past (u ∷ []) (inl (k.meta_given m e));
          same_vote = k.same_vote;
        }
