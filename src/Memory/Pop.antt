-- ===== src/Memory/Pop.antt =====
-- src/storage/memory.rs: `pop_confirmed`.
use alpamayo.Prelude.{
  ℕ, zero, suc, ◌+◌, ◌-◌, ◌≤◌, ◌<◌, ◌≡◌, refl, sym, ◌∙◌, ◌⊎◌, inl, inr, none, some, Bool, true,
  false, List, [], ◌∷◌, arith, ltb, leb, ◌==◌, length, ok, Bool-cases, Option-cases, lt→ltb, ◌||◌,
}
use alpamayo.Memory.Memory.{
  BlockInfo, StorageMemory, MemoryConfirmedBlock, constructed, missed, dead_slot, missed_or_dead,
  get_slot, info_at, first_confirmed, forget, walk, take_next, pop_confirmed,
}
use alpamayo.Memory.Run.{PlaceOf, Run, run_at, run_forget, PlaceOf-at}
use alpamayo.Memory.Add.{IsValid}

ge_test : {a b : ℕ} → a ≡ b → ltb a b ≡ false
ge_test e = ground (arith, e)

eq_test : {a b : ℕ} → a ≡ b → (a == b) ≡ true
eq_test e = ground (arith, e)

above_test : {a b : ℕ} → b < a → leb a b ≡ false
above_test l = ground (arith, l)

module _ {B : Type 0} (parent_slot : B → ℕ) where
  -- From the place `i`, through blocks and their stored parents, to the place `j`.
  pub data Ancestor (first : ℕ) (bs : List (BlockInfo B)) (j : ℕ) : ℕ → Type 0 where
    itself : Ancestor first bs j j
    through :
        (i : ℕ) (own : B)
        → (info_at bs i).block ≡ some own
        → first ≤ parent_slot own
        → Ancestor first bs j (parent_slot own - first)
        → Ancestor first bs j i

  -- Where the walk ends: no block, or one whose parent is before the first slot.
  abbrev pub Stops : ℕ → List (BlockInfo B) → ℕ → Type 0
  Stops first bs j =
      ((info_at bs j).block ≡ none)
      ⊎ ((own : B) × ((info_at bs j).block ≡ some own) × (parent_slot own < first))

  first_confirmed-lt :
      (bs : List (BlockInfo B)) (i : ℕ) → first_confirmed bs ≡ some i → i < length bs
  unfolding first_confirmed
  first_confirmed-lt [] i e = ground arith
  first_confirmed-lt (b ∷ bs) i e = elim (Option-cases (first_confirmed bs)) [
    | inl n ↦ ground (arith, n)
    | inr (k, n) ↦ ground (arith, n, first_confirmed-lt bs k n)
  ]

  record Walked (fuel first : ℕ) (bs : List (BlockInfo B)) (i j : ℕ) : Type 0 where
    ends : walk parent_slot fuel bs first i ≡ ok j
    stop : Stops first bs j
    in_range : j < length bs
    back : Ancestor first bs j i

  walk-Walked :
      (fuel first : ℕ) (bs : List (BlockInfo B)) (i : ℕ)
      → Run parent_slot first bs
      → i < length bs
      → i < fuel
      → (j : ℕ) × Walked fuel first bs i j
  unfolding walk
  walk-Walked zero first bs i h l f = absurd (omega arith)
  walk-Walked (suc fuel) first bs i h l f = elim (Option-cases (info_at bs i).block) [
    | inl e ↦
        (i, record { ends = rw (walk, lt→ltb _ _ l, e); stop = inl e; in_range = l; back = itself })
    | inr (own, e) ↦
        let before = (run_at parent_slot first i bs h l).parent own e in
        elim (Bool-cases (leb first (parent_slot own))) [
          | inl p ↦
              let (j, w) =
                walk-Walked fuel first bs (parent_slot own - first) h (ground arith)
                  (ground arith) in
              (
                j,
                record {
                  ends = rw (walk, lt→ltb _ _ l, e, p) w.ends;
                  stop = w.stop;
                  in_range = w.in_range;
                  back = through i own e (ground (arith, p)) w.back;
                },
              )
          | inr p ↦ (
            i,
            record {
              ends = rw (walk, lt→ltb _ _ l, e, p);
              stop = inr (own, e, ground (arith, p));
              in_range = l;
              back = itself;
            },
          )
        ]
  ]

  -- What leaves: the blocks stay, or the first place is taken.
  record Taken (gen first j : ℕ) (bs rest : List (BlockInfo B)) (reported : MemoryConfirmedBlock B)
      : Type 0 where
    takes : take_next parent_slot gen first j bs ≡ ok (rest, reported)
    slot_is : get_slot reported ≡ gen
    left : ((gen < first) × (rest ≡ bs)) ⊎ ((gen ≡ first) × Run parent_slot (suc first) rest)
    only_first :
        (slot : ℕ) (own : B)
        → reported ≡ constructed slot own
        → (j ≡ 0) × ((info_at bs 0).block ≡ some own)

  get_slot-missed_or_dead :
      (slot : ℕ) (dead : Bool) → get_slot {B = B} (missed_or_dead slot dead) ≡ slot
  get_slot-missed_or_dead slot true = refl
  get_slot-missed_or_dead slot false = refl

  missed_or_dead-ne :
      (slot : ℕ) (dead : Bool) (s : ℕ) (own : B) → ¬ (missed_or_dead slot dead ≡ constructed s own)
  missed_or_dead-ne slot true s own q = ground arith
  missed_or_dead-ne slot false s own q = ground arith

  take_empty :
      (gen first j : ℕ) (c : BlockInfo B) (cs : List (BlockInfo B))
      → PlaceOf parent_slot first c
      → Run parent_slot (suc first) cs
      → (info_at (c ∷ cs) j).block ≡ none
      → gen ≡ first
      → Taken gen first j (c ∷ cs) cs (missed_or_dead c.slot c.dead)
  unfolding take_next forget
  take_empty gen first j c cs h r e l = record {
    takes = rw (take_next, e, ge_test l, eq_test l);
    slot_is = get_slot-missed_or_dead c.slot c.dead ∙ h.slot_is ∙ sym l;
    left = inr (l, r);
    only_first = λ slot own q. absurd (missed_or_dead-ne c.slot c.dead slot own q);
  }

  take_block :
      (gen first j : ℕ) (c : BlockInfo B) (cs : List (BlockInfo B)) (own : B)
      → PlaceOf parent_slot first c
      → Run parent_slot (suc first) cs
      → (info_at (c ∷ cs) j).block ≡ some own
      → parent_slot own < first
      → gen ≡ first
      → (rest : List (BlockInfo B)) × (reported : MemoryConfirmedBlock B) × Taken gen first j
          (c ∷ cs)
          rest
          reported
  unfolding take_next forget
  take_block gen first zero c cs own h r e p l =
      let own_is : c.block ≡ some own = e in
      (
        cs,
        constructed c.slot own,
        record {
          takes = rw (
            take_next,
            e,
            above_test {a = gen} {b = parent_slot own} (omega (arith, p, l)),
            ge_test l,
            eq_test l,
            forget,
            own_is,
          );
          slot_is = h.slot_is ∙ sym l;
          left = inr (l, r);
          only_first = λ slot other q. (refl, e ∙ ground (arith, q));
        },
      )
  take_block gen first (suc j) c cs own h r e p l = (
    forget j cs,
    dead_slot c.slot,
    record {
      takes = rw (
        take_next,
        e,
        above_test {a = gen} {b = parent_slot own} (omega (arith, p, l)),
        ge_test l,
        eq_test l,
        forget,
      );
      slot_is = h.slot_is ∙ sym l;
      left = inr (l, run_forget parent_slot (suc first) j cs r);
      only_first = λ slot other q. ground (arith, q);
    },
  )

  take_next-Taken :
      (gen first j : ℕ) (c : BlockInfo B) (cs : List (BlockInfo B))
      → PlaceOf parent_slot first c
      → Run parent_slot (suc first) cs
      → Stops first (c ∷ cs) j
      → gen ≤ first
      → (rest : List (BlockInfo B)) × (reported : MemoryConfirmedBlock B) × Taken gen first j
          (c ∷ cs)
          rest
          reported
  unfolding take_next forget
  take_next-Taken gen first j c cs h r (inl e) l = elim (Bool-cases (ltb gen first)) [
    | inl p ↦ (
      c ∷ cs,
      missed gen,
      record {
        takes = rw (take_next, e, p);
        slot_is = refl;
        left = inl (ground (arith, p), refl);
        only_first = λ slot own q. ground (arith, q);
      },
    )
    | inr p ↦ (_, _, take_empty gen first j c cs h r e (ground (arith, p)))
  ]
  take_next-Taken gen first j c cs h r (inr (own, e, before)) l =
      elim (Bool-cases (leb gen (parent_slot own))) [
        | inl p ↦ (
          c ∷ cs,
          missed gen,
          record {
            takes = rw (take_next, e, p);
            slot_is = refl;
            left = inl (ground (arith, p), refl);
            only_first = λ slot own q. ground (arith, q);
          },
        )
        | inr p ↦ elim (Bool-cases (ltb gen first)) [
          | inl q ↦ (
            c ∷ cs,
            dead_slot gen,
            record {
              takes = rw (take_next, e, p, q);
              slot_is = refl;
              left = inl (ground (arith, q), refl);
              only_first = λ slot own q. ground (arith, q);
            },
          )
          | inr q ↦ take_block gen first j c cs own h r e before (ground (arith, q))
        ]
      ]

  run_first :
      (first : ℕ) (bs : List (BlockInfo B))
      → Run parent_slot first bs
      → Run parent_slot (info_at bs 0).slot bs × (0 < length bs → (info_at bs 0).slot ≡ first)
  unfolding Run
  run_first first [] h = (tt, λ l. absurd (omega arith))
  run_first first (b ∷ bs) h =
      ((PlaceOf-at parent_slot h.0 (sym h.0.slot_is), rw h.0.slot_is h.1), λ l. h.0.slot_is)

  head_place :
      (b : BlockInfo B) (bs : List (BlockInfo B))
      → Run parent_slot b.slot (b ∷ bs)
      → PlaceOf parent_slot b.slot b
  unfolding Run
  head_place b bs h = h.0

  tail_run :
      (b : BlockInfo B) (bs : List (BlockInfo B))
      → Run parent_slot b.slot (b ∷ bs)
      → Run parent_slot (suc b.slot) bs
  unfolding Run
  tail_run b bs h = h.1

  back_to :
      {first i j : ℕ} {bs : List (BlockInfo B)}
      → Ancestor first bs j i
      → j ≡ 0
      → Ancestor first bs 0 i
  back_to a e = rw (← e) a

  pop_keeps :
      (c g : ℕ) (b : BlockInfo B) (bs rest : List (BlockInfo B))
      → IsValid parent_slot (record { blocks = b ∷ bs; confirmed = c; gen_next_slot = g })
      → ((g < b.slot) × (rest ≡ b ∷ bs)) ⊎ ((g ≡ b.slot) × Run parent_slot (suc b.slot) rest)
      → IsValid parent_slot (record { blocks = rest; confirmed = c; gen_next_slot = g + 1 })
  pop_keeps c g b bs rest v (inl (l, e)) =
      rw e (record { run = v.run; started = λ p. omega arith; unreported = λ p. omega arith })
  pop_keeps c g b bs rest v (inr (l, r)) = record {
    run = (run_first (suc b.slot) rest r).0;
    started = λ p. omega arith;
    unreported = λ p. omega (arith, (run_first (suc b.slot) rest r).1 p);
  }

  -- A report of `pop_confirmed` and the state after it.
  pub record Reported (m : StorageMemory B) (rest : List (BlockInfo B))
      (reported : MemoryConfirmedBlock B) : Type 0 where
    pub pops :
        pop_confirmed parent_slot m
        ≡ ok (record m { blocks = rest; gen_next_slot = m.gen_next_slot + 1 }, some reported)
    pub in_order : get_slot reported ≡ m.gen_next_slot
    pub valid :
        IsValid parent_slot (record m { blocks = rest; gen_next_slot = m.gen_next_slot + 1 })
    pub on_chain :
        (slot : ℕ) (own : B)
        → reported ≡ constructed slot own
        → ((info_at m.blocks 0).block ≡ some own)
          × ((i : ℕ) × (first_confirmed m.blocks ≡ some i)
              × Ancestor (info_at m.blocks 0).slot m.blocks 0 i)

  pops_at :
      (c g : ℕ) (bs : List (BlockInfo B))
      → IsValid parent_slot (record { blocks = bs; confirmed = c; gen_next_slot = g })
      → (pop_confirmed parent_slot (record { blocks = bs; confirmed = c; gen_next_slot = g })
          ≡ ok (record { blocks = bs; confirmed = c; gen_next_slot = g }, none))
        ⊎ ((rest : List (BlockInfo B)) × (reported : MemoryConfirmedBlock B) × Reported
              (record { blocks = bs; confirmed = c; gen_next_slot = g })
              rest
              reported)
  unfolding pop_confirmed
  pops_at c g [] v = inl (ground arith)
  pops_at c g (b ∷ bs) v = elim (Bool-cases ((c == 0) || (g == 0))) [
    | inl p ↦ inl (rw p)
    | inr p ↦ elim (Option-cases (first_confirmed (b ∷ bs))) [
      | inl n ↦ inl (rw (p, n))
      | inr (i, n) ↦
          let (j, w) =
            walk-Walked (suc i) b.slot (b ∷ bs) i v.run (first_confirmed-lt (b ∷ bs) i n)
              (omega arith) in
          let (rest, reported, t) =
            take_next-Taken g b.slot j b bs (head_place b bs v.run) (tail_run b bs v.run) w.stop
              (v.unreported (omega arith)) in
          inr (
            rest,
            reported,
            record {
              pops = rw (p, n, w.ends, t.takes);
              in_order = t.slot_is;
              valid = pop_keeps c g b bs rest v t.left;
              on_chain = λ slot own q.
                  ((t.only_first slot own q).1, (i, n, back_to w.back (t.only_first slot own q).0));
            },
          )
    ]
  ]

  -- On a valid state `pop_confirmed` does not panic and its walk over the parents ends. Either it
  -- returns `none` and changes nothing, or it reports the slot `gen_next_slot`, raises
  -- `gen_next_slot` by one and leaves a valid state. A block is reported only if it is at the front
  -- and an ancestor of the first confirmed one, or that one itself.
  pub pop_confirmed-cases :
      (m : StorageMemory B)
      → IsValid parent_slot m
      → (pop_confirmed parent_slot m ≡ ok (m, none))
        ⊎ ((rest : List (BlockInfo B)) × (reported : MemoryConfirmedBlock B) × Reported m rest
              reported)
  pop_confirmed-cases m v = pops_at m.confirmed m.gen_next_slot m.blocks v
