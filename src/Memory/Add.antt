-- ===== src/Memory/Add.antt =====
-- src/storage/memory.rs: `add_slot` and the three operations that use it.
use alpamayo.Prelude.{
  ℕ, zero, suc, ◌+◌, ◌-◌, ◌≤◌, ◌<◌, ◌≡◌, refl, ◌⊎◌, inl, inr, none, some, true, List, [], ◌∷◌,
  arith, ltb, ◌==◌, if◌then◌else◌, length, set, ok, err, Bool-cases, lt→ltb, length-set,
}
use alpamayo.Memory.Memory.{
  BlockInfo, StorageMemory, confirmed_as_dead, dead_as_confirmed, new, info_at, extend, add_slot,
  add_processed, set_dead, set_confirmed, update_at,
}
use alpamayo.Memory.Run.{
  PlaceOf, Run, run_at, run_set, new-PlaceOf, PlaceOf-at, push_front_loop-Run, push_back_loop-Run,
  length-push_front_loop, length-push_back_loop,
}

module _ {B : Type 0} (parent_slot : B → ℕ) where
  abbrev first_slot : List (BlockInfo B) → ℕ
  first_slot bs = (info_at bs 0).slot

  -- The stored slots are consecutive from the first one on, each block has an earlier parent, and the
  -- next slot to report is set and not after them.
  pub record IsValid (m : StorageMemory B) : Type 0 where
    pub run : Run parent_slot (info_at m.blocks 0).slot m.blocks
    pub started : 0 < length m.blocks → 0 < m.gen_next_slot
    pub unreported : 0 < length m.blocks → m.gen_next_slot ≤ (info_at m.blocks 0).slot

  record Extended (slot : ℕ) (bs bs' : List (BlockInfo B)) (first : ℕ) : Type 0 where
    run : Run parent_slot first bs'
    low : first ≤ slot
    high : slot < first + length bs'
    above : (g : ℕ) → g ≤ slot → (0 < length bs → g ≤ first_slot bs) → g ≤ first

  last_slot :
      (b : BlockInfo B) (bs : List (BlockInfo B))
      → Run parent_slot b.slot (b ∷ bs)
      → (info_at (b ∷ bs) (length (b ∷ bs) - 1)).slot ≡ b.slot + length bs
  last_slot b bs h =
      omega
        (arith, (run_at parent_slot b.slot (length (b ∷ bs) - 1) (b ∷ bs) h (omega arith)).slot_is)

  run_one : (slot : ℕ) → Run parent_slot slot (new slot ∷ [])
  unfolding Run
  run_one slot = (new-PlaceOf parent_slot slot, tt)

  extend-Extended :
      (slot : ℕ) (bs : List (BlockInfo B))
      → Run parent_slot (first_slot bs) bs
      → (first : ℕ) × Extended slot bs (extend slot bs) first
  unfolding extend
  extend-Extended slot [] h = (
    slot,
    record { run = run_one slot; low = omega arith; high = omega arith; above = λ g l f. l },
  )
  extend-Extended slot (b ∷ bs) h = elim (Bool-cases (ltb slot b.slot)) [
    | inl p ↦ rw p (
      slot,
      record {
        run = push_front_loop-Run parent_slot (b.slot - slot) slot b.slot (b ∷ bs) (ground arith) h;
        low = omega arith;
        high = ground (arith, length-push_front_loop parent_slot (b.slot - slot) slot (b ∷ bs));
        above = λ g l f. l;
      },
    )
    | inr p ↦
        rw (p, last_slot b bs h)
          (elim (Bool-cases (ltb (b.slot + length bs) slot)) [
            | inl q ↦ rw q (
              b.slot,
              record {
                run =
                    push_back_loop-Run parent_slot (slot - (b.slot + length bs))
                      (b.slot + length bs + 1) b.slot (b ∷ bs) (omega arith) h;
                low = ground arith;
                high = ground (
                  arith,
                  length-push_back_loop parent_slot (slot - (b.slot + length bs))
                      (b.slot + length bs + 1) (b ∷ bs),
                );
                above = λ g l f. f (omega arith);
              },
            )
            | inr q ↦ rw q (
              b.slot,
              record {
                run = h;
                low = ground arith;
                high = ground arith;
                above = λ g l f. f (omega arith);
              },
            )
          ])
  ]

  -- The slot has a place in the new state.
  pub record Placed (slot : ℕ) (m m' : StorageMemory B) (index : ℕ) : Type 0 where
    pub returns : add_slot slot m ≡ ok (m', some index)
    pub valid : IsValid m'
    pub in_range : index < length m'.blocks
    pub place : (info_at m'.blocks 0).slot + index ≡ slot
    pub confirmed_kept : m'.confirmed ≡ m.confirmed

  add_slot-Placed :
      (slot gen first : ℕ) (m : StorageMemory B)
      → 0 < slot
      → IsValid m
      → gen ≡ (if m.gen_next_slot == 0 then slot else m.gen_next_slot)
      → gen ≤ slot
      → Extended slot m.blocks (extend slot m.blocks) first
      → Placed slot m
          (record m { gen_next_slot = gen; blocks = extend slot m.blocks })
          (slot - (info_at (extend slot m.blocks) 0).slot)
  unfolding add_slot
  add_slot-Placed slot gen first m pos v e l x = record {
    returns = ground (arith, e, at_first, x.low, x.high);
    valid = record {
      run = rw at_first x.run;
      started = λ p. ground (arith, e);
      unreported = λ p. omega (arith, at_first, above);
    };
    in_range = omega (arith, at_first, x.low, x.high);
    place = omega (arith, at_first, x.low, x.high);
    confirmed_kept = refl;
  }
    where
      at_first : (info_at (extend slot m.blocks) 0).slot ≡ first
      at_first = omega (
        arith,
        (run_at parent_slot first 0 (extend slot m.blocks) x.run
            (omega (arith, x.low, x.high))).slot_is,
      )

      above : gen ≤ first
      above = x.above gen l (λ q. ground (arith, e, v.started q, v.unreported q))

  pub add_slot-cases :
      (slot : ℕ) (m : StorageMemory B)
      → 0 < slot
      → IsValid m
      → ((slot < m.gen_next_slot) × (add_slot slot m ≡ ok (m, none)))
        ⊎ ((m' : StorageMemory B) × (index : ℕ) × Placed slot m m' index)
  unfolding add_slot
  add_slot-cases slot m pos v =
      let (first, x) = extend-Extended slot m.blocks v.run in
      elim (Bool-cases (m.gen_next_slot == 0)) [
        | inl p ↦
            inr (_, _, add_slot-Placed slot slot first m pos v (ground (arith, p)) (omega arith) x)
        | inr p ↦ elim (Bool-cases (ltb slot m.gen_next_slot)) [
          | inl q ↦ inl (ground (arith, q), rw (p, q))
          | inr q ↦ inr (
            _,
            _,
            add_slot-Placed slot m.gen_next_slot first m pos v (rw p) (ground (arith, q)) x,
          )
        ]
      ]

  first_set :
      (bs : List (BlockInfo B)) (i : ℕ) (b : BlockInfo B)
      → b.slot ≡ first_slot bs + i
      → i < length bs
      → first_slot (set bs i b) ≡ first_slot bs
  first_set [] i b e l = refl
  first_set (c ∷ bs) zero b e l = omega (arith, e)
  first_set (c ∷ bs) (suc i) b e l = refl

  update_at-IsValid :
      {slot index : ℕ} {m m' : StorageMemory B} (f : BlockInfo B → BlockInfo B)
      → Placed slot m m' index
      → ((b : BlockInfo B) → PlaceOf parent_slot slot b → PlaceOf parent_slot slot (f b))
      → IsValid (update_at index f m')
  update_at-IsValid {slot} {index} {m} {m'} f p h = record {
    run = rw kept (
        run_set parent_slot (first_slot m'.blocks) index m'.blocks _ p.valid.run
          (PlaceOf-at parent_slot changed (omega (arith, p.place))));
    started = λ l. p.valid.started (omega (arith, same_length));
    unreported = λ l. omega (arith, kept, p.valid.unreported (omega (arith, same_length)));
  }
    where
      changed : PlaceOf parent_slot slot (f (info_at m'.blocks index))
      changed = h (info_at m'.blocks index) (
          PlaceOf-at parent_slot
            (run_at parent_slot (first_slot m'.blocks) index m'.blocks p.valid.run p.in_range)
            p.place)

      same_length : length (set m'.blocks index (f (info_at m'.blocks index))) ≡ length m'.blocks
      same_length = length-set m'.blocks index (f (info_at m'.blocks index))

      kept : first_slot (set m'.blocks index (f (info_at m'.blocks index))) ≡ first_slot m'.blocks
      kept = first_set m'.blocks index _ (omega (arith, changed.slot_is, p.place)) p.in_range

  confirmed_is :
      (slot : ℕ) {m : StorageMemory B} → IsValid m → IsValid (record m { confirmed = slot })
  confirmed_is slot v = record { run = v.run; started = v.started; unreported = v.unreported }

  -- On a valid state `add_processed` of a block with an earlier parent returns, without an index out
  -- of bounds, and leaves a valid state: the slots stay consecutive and none is reported twice.
  pub add_processed-IsValid :
      (slot : ℕ) (block : B) (m : StorageMemory B)
      → 0 < slot
      → parent_slot block < slot
      → IsValid m
      → (m' : StorageMemory B) × (add_processed slot block m ≡ ok m') × IsValid m'
  unfolding add_processed
  add_processed-IsValid slot block m pos l v = elim (add_slot-cases slot m pos v) [
    | inl (below, e) ↦ (m, rw (add_processed, e), v)
    | inr (m', index, p) ↦ (
      _,
      rw (add_processed, p.returns),
      update_at-IsValid (λ b. record b { block = some block }) p
          (λ b q. record { slot_is = q.slot_is; parent = λ own e. ground (arith, e) }),
    )
  ]

  -- On a valid state `set_dead` either leaves a valid state or panics because the slot is confirmed.
  pub set_dead-IsValid :
      (slot : ℕ) (m : StorageMemory B)
      → 0 < slot
      → IsValid m
      → ((m' : StorageMemory B) × (set_dead slot m ≡ ok m') × IsValid m')
        ⊎ (set_dead slot m ≡ err confirmed_as_dead)
  unfolding set_dead
  set_dead-IsValid slot m pos v = elim (add_slot-cases slot m pos v) [
    | inl (below, e) ↦ inl (m, rw (set_dead, e), v)
    | inr (m', index, p) ↦ elim (Bool-cases (info_at m'.blocks index).confirmed) [
      | inl q ↦ inr (rw (set_dead, p.returns, q))
      | inr q ↦ inl (
        _,
        rw (set_dead, p.returns, q),
        update_at-IsValid (λ b. record b { dead = true }) p
            (λ b q. record { slot_is = q.slot_is; parent = q.parent }),
      )
    ]
  ]

  -- On a valid state `set_confirmed` of a slot above the last confirmed one either leaves a valid state
  -- or panics because the slot is dead.
  pub set_confirmed-IsValid :
      (slot : ℕ) (m : StorageMemory B)
      → m.confirmed < slot
      → IsValid m
      → ((m' : StorageMemory B) × (set_confirmed slot m ≡ ok m') × IsValid m')
        ⊎ (set_confirmed slot m ≡ err dead_as_confirmed)
  unfolding set_confirmed
  set_confirmed-IsValid slot m pos v = elim (add_slot-cases slot m (omega arith) v) [
    | inl (below, e) ↦ inl (m, rw (e, lt→ltb _ _ pos), v)
    | inr (m', index, p) ↦ elim (Bool-cases (info_at m'.blocks index).dead) [
      | inl q ↦ inr (rw (p.returns, q, lt→ltb _ _ pos))
      | inr q ↦ inl (
        _,
        rw (p.returns, q, lt→ltb _ _ pos),
        confirmed_is slot (
            update_at-IsValid (λ b. record b { confirmed = true }) p
              (λ b q. record { slot_is = q.slot_is; parent = q.parent })),
      )
    ]
  ]
