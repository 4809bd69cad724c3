-- ===== src/Stream/Whole.antt =====
-- src/source/stream.rs: a reported block has the last transactions that came for its slot.
use alpamayo.Prelude.{
  ℕ, ◌≡◌, refl, sym, inl, inr, Option, none, some, Bool, false, List, [], ◌∷◌, ◌++◌, length, ok,
}
use alpamayo.Prelude.TreeMap.{get, IsSorted}
use alpamayo.Source.Transaction.{TransactionWithBinary}
use alpamayo.Source.Encode.{Prost, Reward}
use alpamayo.Source.Block.{NewBlock}
use alpamayo.Stream.Slot.{SubscribeUpdateBlockMeta, SlotInfo}
use alpamayo.Stream.Poll.{
  StreamSource, Update, failed, missing, ping, account, transaction_status, full_block, pong, entry,
  block_footer, entry_update_parent, slot_update, transaction, block_meta, block, slot_info,
  dropped, add_transaction, on_transaction, on_block_meta, on_update,
}
use alpamayo.Stream.Made.{MadeOf}
use alpamayo.Stream.Received.{Tracks}
use alpamayo.Stream.Entries.{
  append_nil, append_assoc, new-Tracks, put-Good, report-Good, on_slot-Good, entry_of,
}
use alpamayo.Stream.Complete.{Received, on_update-Complete}
use alpamayo.Stream.History.{
  MetaIn, brought, received, run_all, Follows, later-Good, meta-Tracks, brought-other,
  transaction-Tracks,
}

module _ (p : Prost) {E R T : Type 0} (create_reward : R → Option Reward)
    (create : ℕ → T → ℕ → Option (TransactionWithBinary E)) where
  module _ (v : Bool) (slot : ℕ) (past : List (Update T R)) where
    abbrev After : Update T R → StreamSource E R → Type 0
    After u s = Follows p create_reward create v slot (past ++ (u ∷ [])) s

    quiet :
        (u : Update T R) (s : StreamSource E R)
        → brought p create_reward create slot u ≡ []
        → Follows p create_reward create v slot past s
        → After u s
    quiet u s = later-Good p create_reward create v slot past u s

    add_transaction-Follows :
        (index j : ℕ) (tx : T) (s : StreamSource E R) (o : Option (TransactionWithBinary E))
        → create j tx index ≡ o
        → Follows p create_reward create v slot past s
        → After
            (transaction (some (index, tx)) j)
            (add_transaction p create_reward create o index j s).0
    add_transaction-Follows index j tx s none e g =
        let u : Update T R = transaction (some (index, tx)) j in
        let h = quiet u s (brought-other p create_reward create v slot past index j tx (inr e)) g in
        put-Good v (received p create_reward create slot (past ++ (u ∷ [])))
          (λ m. MetaIn slot m (past ++ (u ∷ []))) slot j (slot_info j s) s h.0 h.1
          (entry_of v _ _ slot j s h) (λ _. h.2)
    add_transaction-Follows index j tx s (some t) e g =
        let u : Update T R = transaction (some (index, tx)) j in
        report-Good v (received p create_reward create slot (past ++ (u ∷ [])))
          (λ m. MetaIn slot m (past ++ (u ∷ []))) p create_reward slot j
          (record (slot_info j s) {
            transactions = (slot_info j s).transactions ++ ((index, t) ∷ []);
          })
          s g.0 g.1
          (λ same.
            transaction-Tracks p create_reward create v slot past index j tx t (slot_info j s) e
              same (entry_of v _ _ slot j s g same))
          (λ other.
            (quiet u s (brought-other p create_reward create v slot past index j tx (inl other))
              g).2)

    on_update-Follows :
        (u : Update T R) (s : StreamSource E R)
        → Follows p create_reward create v slot past s
        → After u (on_update p create_reward create u s).0
    unfolding on_update on_transaction on_block_meta
    on_update-Follows failed s g = quiet failed s refl g
    on_update-Follows missing s g = quiet missing s refl g
    on_update-Follows ping s g = quiet ping s refl g
    on_update-Follows account s g = quiet account s refl g
    on_update-Follows transaction_status s g = quiet transaction_status s refl g
    on_update-Follows full_block s g = quiet full_block s refl g
    on_update-Follows pong s g = quiet pong s refl g
    on_update-Follows entry s g = quiet entry s refl g
    on_update-Follows block_footer s g = quiet block_footer s refl g
    on_update-Follows entry_update_parent s g = quiet entry_update_parent s refl g
    on_update-Follows (slot_update j parent status) s g =
        on_slot-Good v _ _ slot j parent status s (quiet (slot_update j parent status) s refl g)
    on_update-Follows (transaction none j) s g = quiet (transaction none j) s refl g
    on_update-Follows (transaction (some (index, tx)) j) s g =
        add_transaction-Follows index j tx s (create j tx index) refl g
    on_update-Follows (block_meta m) s g =
        report-Good v (received p create_reward create slot (past ++ (block_meta m ∷ [])))
          (λ n. MetaIn slot n (past ++ (block_meta m ∷ []))) p create_reward slot m.slot
          (record (slot_info m.slot s) { block_meta = some m }) s g.0 g.1
          (λ same.
            meta-Tracks p create_reward create v slot past m (slot_info m.slot s) same
              (entry_of v _ _ slot m.slot s g same))
          (λ _. (quiet (block_meta m) s refl g).2)

    -- What an update that completes a block leaves of the entry it is made of.
    Received-Tracks :
        (u : Update T R) (s : StreamSource E R) (info : SlotInfo E R)
        → Follows p create_reward create v slot past s
        → Received p create_reward create u s slot info
        → Tracks v
            (received p create_reward create slot (past ++ (u ∷ [])))
            (λ n. MetaIn slot n (past ++ (u ∷ [])))
            info
    Received-Tracks (transaction (some (index, tx)) j) s info g (same, (t, made, is)) = rw is (
        transaction-Tracks p create_reward create v slot past index j tx t (slot_info j s) made same
          (entry_of v _ _ slot j s g same))
    Received-Tracks (block_meta m) s info g (same, is) = rw is (
        meta-Tracks p create_reward create v slot past m (slot_info m.slot s) same
          (entry_of v _ _ slot m.slot s g same))
    Received-Tracks (transaction none j) s info g x = absurd x
    Received-Tracks failed s info g x = absurd x
    Received-Tracks missing s info g x = absurd x
    Received-Tracks ping s info g x = absurd x
    Received-Tracks account s info g x = absurd x
    Received-Tracks transaction_status s info g x = absurd x
    Received-Tracks full_block s info g x = absurd x
    Received-Tracks pong s info g x = absurd x
    Received-Tracks entry s info g x = absurd x
    Received-Tracks block_footer s info g x = absurd x
    Received-Tracks entry_update_parent s info g x = absurd x
    Received-Tracks (slot_update j parent status) s info g x = absurd x

  run_all-Follows :
      (v : Bool) (slot : ℕ) (past updates : List (Update T R)) (s : StreamSource E R)
      → Follows p create_reward create v slot past s
      → Follows p create_reward create v slot
          (past ++ updates)
          (run_all p create_reward create updates s)
  unfolding run_all
  run_all-Follows v slot past [] s g = rw (append_nil past) g
  run_all-Follows v slot past (u ∷ updates) s g =
      let rest =
        run_all-Follows v slot (past ++ (u ∷ [])) updates (on_update p create_reward create u s).0
          (on_update-Follows v slot past u s g) in
      rw (append_assoc past (u ∷ []) updates) at rest

  -- What the block of a slot is made of, after these updates.
  pub record Whole (v : Bool) (slot : ℕ) (updates : List (Update T R)) (b : NewBlock E)
      : Type 0 where
    pub of_meta : SubscribeUpdateBlockMeta R
    pub earlier : List (ℕ × TransactionWithBinary E)
    pub last : List (ℕ × TransactionWithBinary E)
    pub meta_given : MetaIn slot of_meta updates
    pub all_received : received p create_reward create slot updates ≡ earlier ++ last
    pub count_is : length last ≡ of_meta.executed_transaction_count
    pub made : MadeOf create_reward p v of_meta last b

  -- Over any updates, from a state with its entries in the order of their slots and none for the slot:
  -- when an update makes the source report the block of the slot, one of the updates brought a meta for
  -- the slot, and the block is what `BlockWithBinary::new` makes of this meta, of its rewards converted,
  -- and of the last transactions that the updates brought for the slot, as many as the meta says, each
  -- once and in the order of their indexes. The slot is then not at or below the first processed one.
  pub run_all-Whole :
      (updates : List (Update T R)) (u : Update T R) (s : StreamSource E R) (slot : ℕ)
      (b : NewBlock E)
      → IsSorted s.slots
      → get slot s.slots ≡ none
      → (on_update p create_reward create u (run_all p create_reward create updates s)).1
        ≡ some (ok (block slot b))
      → Whole s.index_vote slot (updates ++ (u ∷ [])) b
        × (dropped slot (run_all p create_reward create updates s) ≡ false)
  run_all-Whole updates u s slot b sorted absent e =
      let t = run_all p create_reward create updates s in
      let start : Follows p create_reward create s.index_vote slot [] s = (
        sorted,
        refl,
        rw absent (new-Tracks s.index_vote [] (λ m. MetaIn {T = T} slot m []) slot),
      ) in
      let g = run_all-Follows s.index_vote slot [] updates s start in
      let (info, brings, (above, _, (m, given, count, made))) =
        on_update-Complete p create_reward create u t slot b e in
      let k = Received-Tracks s.index_vote slot updates u t info g brings in
      (
        record {
          of_meta = m;
          earlier = k.earlier;
          last = info.transactions;
          meta_given = k.meta_given m given;
          all_received = sym k.are_last;
          count_is = sym count;
          made = rw (k.same_vote) at made;
        },
        above,
      )
