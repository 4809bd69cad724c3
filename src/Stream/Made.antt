-- ===== src/Stream/Made.antt =====
-- src/source/stream.rs: what `try_build_block` makes a block of.
use alpamayo.Prelude.{
  ℕ, ◌≤◌, ◌≡◌, refl, sym, ap, ◌∙◌, Option, none, some, Bool, List, [], ◌∷◌, map, leb, arith,
  Bool-cases, Option-cases, inl, inr,
}
use mathlib.Core.List.{Perm}
use mathlib.Core.List.Perm
use alpamayo.Source.Transaction.{TransactionWithBinary}
use alpamayo.Source.Encode.{Prost, Reward}
use alpamayo.Source.Block
use alpamayo.Source.Block.{NewBlock}
use alpamayo.Stream.Slot.{
  SubscribeUpdateBlockMeta, collect, insert_by_index, sort_by_index, convert_rewards, block_of,
}

module _ {A : Type 0} where
  abbrev AtLeast : ℕ → List (ℕ × A) → Type 0
  AtLeast k [] = Unit
  AtLeast k (y ∷ ys) = (k ≤ y.0) × AtLeast k ys

  -- No transaction comes before one of a lower index.
  abbrev pub InOrder : List (ℕ × A) → Type 0
  InOrder [] = Unit
  InOrder (x ∷ xs) = AtLeast x.0 xs × InOrder xs

  AtLeast-weaken : (k j : ℕ) (xs : List (ℕ × A)) → k ≤ j → AtLeast j xs → AtLeast k xs
  AtLeast-weaken k j [] l h = tt
  AtLeast-weaken k j (x ∷ xs) l h = (omega (arith, h.0), AtLeast-weaken k j xs l h.1)

  AtLeast-insert :
      (k : ℕ) (x : ℕ × A) (xs : List (ℕ × A))
      → k ≤ x.0
      → AtLeast k xs
      → AtLeast k (insert_by_index x xs)
  unfolding insert_by_index
  AtLeast-insert k x [] l h = (l, tt)
  AtLeast-insert k x (y ∷ ys) l h = elim (Bool-cases (leb x.0 y.0)) [
    | inl e ↦ rw (insert_by_index, e) (l, h)
    | inr e ↦ rw (insert_by_index, e) (h.0, AtLeast-insert k x ys l h.1)
  ]

  insert_by_index-InOrder :
      (x : ℕ × A) (xs : List (ℕ × A)) → InOrder xs → InOrder (insert_by_index x xs)
  unfolding insert_by_index
  insert_by_index-InOrder x [] h = (tt, tt)
  insert_by_index-InOrder x (y ∷ ys) h = elim (Bool-cases (leb x.0 y.0)) [
    | inl e ↦
        let low : x.0 ≤ y.0 = ground (arith, e) in
        rw (insert_by_index, e) ((low, AtLeast-weaken x.0 y.0 ys low h.0), h)
    | inr e ↦
        let low : y.0 ≤ x.0 = ground (arith, e) in
        rw (insert_by_index, e) (AtLeast-insert y.0 x ys low h.0, insert_by_index-InOrder x ys h.1)
  ]

  sort_by_index-InOrder : (xs : List (ℕ × A)) → InOrder (sort_by_index xs)
  unfolding sort_by_index
  sort_by_index-InOrder [] = tt
  sort_by_index-InOrder (x ∷ xs) =
      insert_by_index-InOrder x (sort_by_index xs) (sort_by_index-InOrder xs)

  insert_by_index-Perm : (x : ℕ × A) (xs : List (ℕ × A)) → Perm (insert_by_index x xs) (x ∷ xs)
  unfolding insert_by_index
  insert_by_index-Perm x [] = Perm.refl (x ∷ [])
  insert_by_index-Perm x (y ∷ ys) = elim (Bool-cases (leb x.0 y.0)) [
    | inl e ↦ rw (insert_by_index, e) (Perm.refl (x ∷ y ∷ ys))
    | inr e ↦
        rw (insert_by_index, e)
          (Perm.trans (Perm.cons y (insert_by_index-Perm x ys)) (Perm.swap x y ys))
  ]

  sort_by_index-Perm : (xs : List (ℕ × A)) → Perm (sort_by_index xs) xs
  unfolding sort_by_index
  sort_by_index-Perm [] = Perm.refl []
  sort_by_index-Perm (x ∷ xs) =
      Perm.trans (insert_by_index-Perm x (sort_by_index xs)) (Perm.cons x (sort_by_index-Perm xs))

module _ {R : Type 0} (create_reward : R → Option Reward) where
  -- The rewards of a meta, each converted, with the number of partitions.
  abbrev pub Converted : Option (List R × Option ℕ) → List Reward → Option ℕ → Type 0
  Converted none rewards partitions = (rewards ≡ []) × (partitions ≡ none)
  Converted (some (given, number)) rewards partitions =
      (map create_reward given ≡ map (λ r. some r) rewards) × (partitions ≡ number)

  collect-map :
      (given : List R) (rewards : List Reward)
      → collect create_reward given ≡ some rewards
      → map create_reward given ≡ map (λ r. some r) rewards
  unfolding collect
  collect-map [] [] e = refl
  collect-map [] (r ∷ rewards) e = absurd (ground arith)
  collect-map (g ∷ given) rewards e = elim (Option-cases (create_reward g)) [
    | inl a ↦ let f = rw (collect, a) at e in absurd (ground arith)
    | inr (r, a) ↦ elim (Option-cases (collect create_reward given)) [
      | inl c ↦ let f = rw (collect, a, c) at e in absurd (ground arith)
      | inr (rest, c) ↦
          let f : some (r ∷ rest) ≡ some rewards = rw (collect, a, c) at e in
          let all : r ∷ rest ≡ rewards = cc in rw (sym all, a, collect-map given rest c)
    ]
  ]

  convert_rewards-Converted :
      (given : Option (List R × Option ℕ)) (rewards : List Reward) (partitions : Option ℕ)
      → convert_rewards create_reward given ≡ some (rewards, partitions)
      → Converted given rewards partitions
  convert_rewards-Converted none rewards partitions e = (cc, cc)
  convert_rewards-Converted (some (given, number)) rewards partitions e =
      elim (Option-cases (collect create_reward given)) [
        | inl c ↦ let f = rw (convert_rewards, c) at e in absurd (ground arith)
        | inr (rs, c) ↦
            let f : ◌≡◌ {A = Option (List Reward × Option ℕ)} (some (rs, number))
                (some (rewards, partitions)) =
              rw (convert_rewards, c) at e in
            let same : rs ≡ rewards = cc in
            let count : number ≡ partitions = cc in
            (collect-map given rewards (c ∙ ap (λ l. some l) same), sym count)
      ]

  -- The block is that of the meta, with the received transactions in the order of their indexes and
  -- the rewards of the meta converted.
  pub record MadeOf {E : Type 0} (p : Prost) (index_vote : Bool) (m : SubscribeUpdateBlockMeta R)
      (received : List (ℕ × TransactionWithBinary E)) (b : NewBlock E) : Type 0 where
    pub ordered : List (ℕ × TransactionWithBinary E)
    pub rewards : List Reward
    pub partitions : Option ℕ
    pub in_order : InOrder ordered
    pub same_transactions : Perm ordered received
    pub converted : Converted m.rewards rewards partitions
    pub block_is :
        b
        ≡ Block.new p index_vote (record {
          previous_blockhash = m.parent_blockhash;
          blockhash = m.blockhash;
          parent_slot = m.parent_slot;
          transactions = map (λ x. x.1) ordered;
          rewards = rewards;
          num_partitions = partitions;
          block_time = m.block_time;
          block_height = m.block_height;
        })

  pub block_of-MadeOf :
      {E : Type 0} (p : Prost) (index_vote : Bool) (m : SubscribeUpdateBlockMeta R)
      (received : List (ℕ × TransactionWithBinary E)) (rewards : List Reward × Option ℕ)
      → convert_rewards create_reward m.rewards ≡ some rewards
      → MadeOf p index_vote m received (block_of p index_vote m received rewards)
  block_of-MadeOf p index_vote m received (rewards, partitions) e = record {
    ordered = sort_by_index received;
    rewards = rewards;
    partitions = partitions;
    in_order = sort_by_index-InOrder received;
    same_transactions = sort_by_index-Perm received;
    converted = convert_rewards-Converted m.rewards rewards partitions e;
    block_is = refl;
  }
