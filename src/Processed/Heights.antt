-- ===== src/Processed/Heights.antt =====
-- src/storage/read.rs: the slots and heights of `StorageProcessed` over any messages.
use alpamayo.Prelude.{
  ℕ, ◌≤◌, ◌<◌, ◌≡◌, refl, ◌∙◌, Option, none, some, List, [], ◌∷◌, arith, is_some, unwrap_or,
  Bool-cases, Option-cases, inl, inr,
}
use mathlib.Core.Option
use alpamayo.Prelude.TreeMap.{
  remove, Above-weaken, get, insert, prune, IsSorted, Above, insert-IsSorted, prune-IsSorted,
}
use alpamayo.Processed.State.{
  Block, RecentBlock, StorageProcessed, add_signatures, remove_signatures, last_block,
  update_processed, add_processed_block, mark_dead, drop_old, set_confirmed, set_finalized, is_old,
}

first-inj :
    {A : Type 0} {i j : ℕ} {a b : A} → ◌≡◌ {A = Option (ℕ × A)} (some (i, a)) (some (j, b)) → i ≡ j
first-inj e = cc

prune-Above : {V : Type 0} (k : ℕ) (m : List (ℕ × V)) → IsSorted m → Above k (prune k m)
unfolding prune
prune-Above k [] h = tt
prune-Above k ((j, w) ∷ m) h = ground (arith, prune-Above k m h.1, Above-weaken k j m)

module _ {E : Type 0} where
  -- The fields that an operation on the maps leaves alone.
  record SameSlots (s t : StorageProcessed E) : Type 0 where
    pub slot_is : t.processed_slot ≡ s.processed_slot
    pub height_is : t.processed_height ≡ s.processed_height
    pub confirmed_is : t.confirmed_slot ≡ s.confirmed_slot
    pub blocks_are : t.blocks ≡ s.blocks

  add_signatures-SameSlots :
      (slot : ℕ) (b : Block E) (s : StorageProcessed E) → SameSlots s (add_signatures slot b s)
  unfolding add_signatures
  add_signatures-SameSlots slot b s = elim (Bool-cases (is_some (get slot s.blocks))) [
    | inl e ↦
        rw (add_signatures, e)
          (record { slot_is = refl; height_is = refl; confirmed_is = refl; blocks_are = refl })
    | inr e ↦ elim (Option-cases b.block_height) [
      | inl h ↦
          rw (add_signatures, e, h)
            (record { slot_is = refl; height_is = refl; confirmed_is = refl; blocks_are = refl })
      | inr (height, h) ↦
          rw (add_signatures, e, h)
            (record { slot_is = refl; height_is = refl; confirmed_is = refl; blocks_are = refl })
    ]
  ]

  drop_old-SameSlots :
      (limit : ℕ) (m : List (ℕ × RecentBlock)) (s : StorageProcessed E)
      → SameSlots s (drop_old limit m s)
  unfolding drop_old remove_signatures
  drop_old-SameSlots limit [] s = record {
    slot_is = refl;
    height_is = refl;
    confirmed_is = refl;
    blocks_are = refl;
  }
  drop_old-SameSlots limit ((slot, b) ∷ m) s =
      let rest = drop_old-SameSlots limit m (remove_signatures b s) in
      elim (Bool-cases (is_old limit s.confirmed_height b)) [
        | inl e ↦
            rw (drop_old, e)
              (record {
                slot_is = rest.slot_is;
                height_is = rest.height_is;
                confirmed_is = rest.confirmed_is;
                blocks_are = rest.blocks_are;
              })
        | inr e ↦
            rw (drop_old, e)
              (record { slot_is = refl; height_is = refl; confirmed_is = refl; blocks_are = refl })
      ]

  last_block-Above :
      (k : ℕ) (m : List (ℕ × Option (Block E))) {slot : ℕ} {height : Option ℕ}
      → Above k m
      → last_block m ≡ some (slot, height)
      → k < slot
  unfolding last_block
  last_block-Above k [] a e = absurd (ground arith)
  last_block-Above k ((j, b) ∷ m) a e = elim (Option-cases (last_block m)) [
    | inr (p, q) ↦ let e1 = rw (last_block, q) at e in last_block-Above k m a.1 (q ∙ e1)
    | inl q ↦
        let e1 = rw (last_block, q) at e in
        elim (Option-cases b) [
          | inl z ↦ let e2 = rw z at e1 in absurd (ground arith)
          | inr (b', z) ↦ let e2 = rw z at e1 in omega (arith, a.0, first-inj e2)
        ]
  ]

  -- The state after `update_processed`, from the one before.
  update-Grows :
      (s : StorageProcessed E)
      → let t = update_processed s in
        (s.processed_slot ≤ t.processed_slot)
        × (s.processed_height ≤ t.processed_height)
        × (t.confirmed_slot ≡ s.confirmed_slot)
        × (t.blocks ≡ s.blocks)
        × (Above s.confirmed_slot s.blocks → s.confirmed_slot ≤ t.processed_slot)
  unfolding update_processed
  update-Grows s = elim (Option-cases (last_block s.blocks)) [
    | inl q ↦ rw (update_processed, q) (omega arith, omega arith, refl, refl, λ a. omega arith)
    | inr ((slot, height), q) ↦
        rw (update_processed, q)
          (
            omega arith,
            omega arith,
            refl,
            refl,
            λ a. omega (arith, last_block-Above s.confirmed_slot s.blocks a q),
          )
  ]

  -- The blocks are in the order of their slots, and the confirmed slot is not above the processed one.
  pub record IsValid (s : StorageProcessed E) : Type 0 where
    pub in_order : IsSorted s.blocks
    pub confirmed_below : s.confirmed_slot ≤ s.processed_slot

  -- What a message leaves valid, and what it does not lower.
  abbrev pub Grows : StorageProcessed E → StorageProcessed E → Type 0
  Grows s t =
      IsValid t × (s.processed_slot ≤ t.processed_slot) × (s.processed_height ≤ t.processed_height)

  update-IsValid :
      (s t : StorageProcessed E)
      → IsValid s
      → t.processed_slot ≡ s.processed_slot
      → t.processed_height ≡ s.processed_height
      → t.confirmed_slot ≡ s.confirmed_slot
      → IsSorted t.blocks
      → Grows s (update_processed t)
  update-IsValid s t h a b c sorted =
      let g = update-Grows t in
      (
        record {
          in_order = rw g.3 sorted;
          confirmed_below = omega (arith, h.confirmed_below, g.0, g.2, a, c);
        },
        omega (arith, g.0, a),
        omega (arith, g.1, b),
      )

  add_processed_block-Grows :
      (slot : ℕ) (b : Block E) (s : StorageProcessed E)
      → IsValid s
      → Grows s (add_processed_block slot b s)
  unfolding add_processed_block
  add_processed_block-Grows slot b s h =
      let t = add_signatures slot b s in
      let same = add_signatures-SameSlots slot b s in
      let sorted : IsSorted t.blocks = rw same.blocks_are h.in_order in
      elim (Bool-cases (is_some (get slot t.blocks))) [
        | inl e ↦ rw e (update-IsValid s t h same.slot_is same.height_is same.confirmed_is sorted)
        | inr e ↦ rw e (
            update-IsValid s (record t { blocks = insert slot (some b) t.blocks }) h same.slot_is
              same.height_is same.confirmed_is (insert-IsSorted slot (some b) t.blocks sorted))
      ]

  mark_dead-Grows : (slot : ℕ) (s : StorageProcessed E) → IsValid s → Grows s (mark_dead slot s)
  unfolding mark_dead remove_signatures
  mark_dead-Grows slot s h =
      let sorted = insert-IsSorted slot none s.blocks h.in_order in
      let t : StorageProcessed E = record s { blocks = insert slot none s.blocks } in
      elim (Bool-cases (is_some (get slot s.blocks))) [
        | inr e ↦ rw (mark_dead, e) (update-IsValid s t h refl refl refl sorted)
        | inl e ↦ elim (Option-cases (get slot s.recent_blocks)) [
          | inl f ↦ rw (mark_dead, e, f) (update-IsValid s t h refl refl refl sorted)
          | inr (b, f) ↦
              rw (mark_dead, e, f)
                (update-IsValid s
                  (remove_signatures b (record t { recent_blocks = remove slot s.recent_blocks })) h
                  refl refl refl sorted)
        ]
      ]

  -- The state of `set_confirmed` before the recent blocks are dropped, from the one with the signatures.
  confirmed-Grows :
      (slot height : ℕ) (s t : StorageProcessed E)
      → IsValid s
      → SameSlots s t
      → Grows s (
          update_processed (record t {
            confirmed_slot = slot;
            confirmed_height = height;
            blocks = prune slot t.blocks;
          }))
  confirmed-Grows slot height s t h same =
      let u : StorageProcessed E = record t {
        confirmed_slot = slot;
        confirmed_height = height;
        blocks = prune slot t.blocks;
      } in
      let sorted : IsSorted t.blocks = rw same.blocks_are h.in_order in
      let g = update-Grows u in
      (
        record {
          in_order = rw g.3 (prune-IsSorted slot t.blocks sorted);
          confirmed_below = omega (arith, g.2, g.4 (prune-Above slot t.blocks sorted));
        },
        omega (arith, g.0, same.slot_is),
        omega (arith, g.1, same.height_is),
      )

  same-Grows : (s t u : StorageProcessed E) → Grows s t → SameSlots t u → Grows s u
  same-Grows s t u g same = (
    record {
      in_order = rw same.blocks_are g.0.in_order;
      confirmed_below = omega (arith, same.slot_is, same.confirmed_is, g.0.confirmed_below);
    },
    omega (arith, same.slot_is, g.1),
    omega (arith, same.height_is, g.2),
  )

  set_confirmed-Grows :
      (limit slot : ℕ) (block : Option (Block E)) (s : StorageProcessed E)
      → IsValid s
      → Grows s (set_confirmed limit slot block s)
  unfolding set_confirmed
  set_confirmed-Grows limit slot none s h =
      let height =
        unwrap_or (Option.map (λ (b : RecentBlock). b.block_height) (get slot s.recent_blocks))
          s.confirmed_height in
      let u = update_processed (record s {
        confirmed_slot = slot;
        confirmed_height = height;
        blocks = prune slot s.blocks;
      }) in
      let still : SameSlots s s = record {
        slot_is = refl;
        height_is = refl;
        confirmed_is = refl;
        blocks_are = refl;
      } in
      same-Grows s u (drop_old limit u.recent_blocks u) (confirmed-Grows slot height s s h still)
        (drop_old-SameSlots limit u.recent_blocks u)
  set_confirmed-Grows limit slot (some b) s h =
      let t = add_signatures slot b s in
      let height =
        unwrap_or (Option.map (λ (b : RecentBlock). b.block_height) (get slot t.recent_blocks))
          t.confirmed_height in
      let u = update_processed (record t {
        confirmed_slot = slot;
        confirmed_height = height;
        blocks = prune slot t.blocks;
      }) in
      same-Grows s u (drop_old limit u.recent_blocks u)
        (confirmed-Grows slot height s t h (add_signatures-SameSlots slot b s))
        (drop_old-SameSlots limit u.recent_blocks u)

  set_finalized-Grows :
      (slot : ℕ) (s : StorageProcessed E) → IsValid s → Grows s (set_finalized slot s)
  unfolding set_finalized
  set_finalized-Grows slot s h = elim (Option-cases (get slot s.recent_blocks)) [
    | inl e ↦ rw (set_finalized, e) (h, omega arith, omega arith)
    | inr (b, e) ↦
        rw (set_finalized, e)
          (
            record { in_order = h.in_order; confirmed_below = h.confirmed_below },
            omega arith,
            omega arith,
          )
  ]

-- The messages of the writer that the dispatch of `start2` gives to `StorageProcessed`.
pub data Message (E : Type 0) : Type 0 where
  block_new : (slot : ℕ) → Block E → Message E
  block_dead slot_finalized : (slot : ℕ) → Message E
  block_confirmed : (slot : ℕ) → Option (Block E) → Message E

module _ {E : Type 0} (limit : ℕ) where
  unfoldable pub apply : Message E → StorageProcessed E → StorageProcessed E
  apply (block_new slot b) s = add_processed_block slot b s
  apply (block_dead slot) s = mark_dead slot s
  apply (slot_finalized slot) s = set_finalized slot s
  apply (block_confirmed slot b) s = set_confirmed limit slot b s

  unfoldable pub apply_all : List (Message E) → StorageProcessed E → StorageProcessed E
  unfolding apply
  apply_all [] s = s
  apply_all (m ∷ messages) s = apply_all messages (apply m s)

  apply-Grows : (m : Message E) (s : StorageProcessed E) → IsValid s → Grows s (apply m s)
  unfolding apply
  apply-Grows (block_new slot b) s h = add_processed_block-Grows slot b s h
  apply-Grows (block_dead slot) s h = mark_dead-Grows slot s h
  apply-Grows (slot_finalized slot) s h = set_finalized-Grows slot s h
  apply-Grows (block_confirmed slot b) s h = set_confirmed-Grows limit slot b s h

  -- Over any messages, from a valid state: the blocks stay in the order of their slots, the processed slot
  -- is never below the confirmed one, and neither the processed slot nor the processed height falls.
  pub apply_all-Grows :
      (messages : List (Message E)) (s : StorageProcessed E)
      → IsValid s
      → Grows s (apply_all messages s)
  unfolding apply_all
  apply_all-Grows [] s h = (h, omega arith, omega arith)
  apply_all-Grows (m ∷ messages) s h =
      let one = apply-Grows m s h in
      let rest = apply_all-Grows messages (apply m s) one.0 in
      (rest.0, omega (arith, one.1, rest.1), omega (arith, one.2, rest.2))
