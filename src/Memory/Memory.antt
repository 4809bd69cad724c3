-- ===== src/Memory/Memory.antt =====
-- `StorageMemory` (src/storage/memory.rs). `B` is the type of a block with `parent_slot`, the one
-- field of it that is read here. A panic is a value, and the state after it is not used.
use alpamayo.Prelude.{
  ℕ, zero, suc, ◌+◌, ◌-◌, Option, none, some, Bool, true, false, ◌||◌, List, [], ◌∷◌, ◌++◌, ltb,
  leb, ◌==◌, if◌then◌else◌, length, get_or, set, Result, ok, err,
}

pub data MemoryConfirmedBlock (B : Type 0) : Type 0 where
  missed : (slot : ℕ) → MemoryConfirmedBlock B
  dead_slot : (slot : ℕ) → MemoryConfirmedBlock B
  constructed : (slot : ℕ) (block : B) → MemoryConfirmedBlock B

pub data Panic : Type 0 where
  index_out_of_bounds confirmed_as_dead dead_as_confirmed backward_confirmed existed no_next_block
        endless_loop :
      Panic

pub record BlockInfo (B : Type 0) : Type 0 where
  pub slot : ℕ
  pub block : Option B
  pub dead : Bool
  pub confirmed : Bool

pub record StorageMemory (B : Type 0) : Type 0 where
  pub blocks : List (BlockInfo B)
  pub confirmed : ℕ
  pub gen_next_slot : ℕ

module _ {B : Type 0} where
  abbrev pub missed_or_dead : ℕ → Bool → MemoryConfirmedBlock B
  missed_or_dead slot true = dead_slot slot
  missed_or_dead slot false = missed slot

  abbrev pub get_slot : MemoryConfirmedBlock B → ℕ
  get_slot (missed slot) = slot
  get_slot (dead_slot slot) = slot
  get_slot (constructed slot block) = slot

  abbrev pub new : ℕ → BlockInfo B
  new slot = record { slot = slot; block = none; dead = false; confirmed = false }

  abbrev pub empty : StorageMemory B
  empty = record { blocks = []; confirmed = 0; gen_next_slot = 0 }

  abbrev pub info_at : List (BlockInfo B) → ℕ → BlockInfo B
  info_at blocks index = get_or blocks index (new 0)

  -- `for slot in (low..low + count).rev()`
  unfoldable pub push_front_loop : ℕ → ℕ → List (BlockInfo B) → List (BlockInfo B)
  push_front_loop zero low blocks = blocks
  push_front_loop (suc count) low blocks = push_front_loop count low (new (low + count) ∷ blocks)

  -- `for slot in next..next + count`
  unfoldable pub push_back_loop : ℕ → ℕ → List (BlockInfo B) → List (BlockInfo B)
  push_back_loop zero next blocks = blocks
  push_back_loop (suc count) next blocks =
      push_back_loop count (next + 1) (blocks ++ (new next ∷ []))

  unfoldable pub extend : ℕ → List (BlockInfo B) → List (BlockInfo B)
  unfolding push_front_loop push_back_loop
  extend slot [] = new slot ∷ []
  extend slot (b ∷ bs) =
      let last = (info_at (b ∷ bs) (length (b ∷ bs) - 1)).slot in
      if ltb slot b.slot
      then push_front_loop (b.slot - slot) slot (b ∷ bs)
      else if ltb last slot
      then push_back_loop (slot - last) (last + 1) (b ∷ bs)
      else b ∷ bs

  -- The index of the place for the slot in place of a reference to it.
  unfoldable pub add_slot : ℕ → StorageMemory B → Result Panic (StorageMemory B × Option ℕ)
  unfolding extend
  add_slot slot m =
      let gen_next_slot = if m.gen_next_slot == 0 then slot else m.gen_next_slot in
      let blocks = extend slot m.blocks in
      let index = slot - (info_at blocks 0).slot in
      if ltb slot gen_next_slot
      then ok (record m { gen_next_slot = gen_next_slot }, none)
      else if ltb index (length blocks)
      then ok (record m { gen_next_slot = gen_next_slot; blocks = blocks }, some index)
      else err index_out_of_bounds

  abbrev pub update_at : ℕ → (BlockInfo B → BlockInfo B) → StorageMemory B → StorageMemory B
  update_at index f m = record m { blocks = set m.blocks index (f (info_at m.blocks index)) }

  unfoldable pub add_processed : ℕ → B → StorageMemory B → Result Panic (StorageMemory B)
  unfolding add_slot
  add_processed slot block m = elim (add_slot slot m) [
    | err p ↦ err p
    | ok (m', none) ↦ ok m'
    | ok (m', some index) ↦ ok (update_at index (λ b. record b { block = some block }) m')
  ]

  unfoldable pub set_dead : ℕ → StorageMemory B → Result Panic (StorageMemory B)
  unfolding add_slot
  set_dead slot m = elim (add_slot slot m) [
    | err p ↦ err p
    | ok (m', none) ↦ ok m'
    | ok (m', some index) ↦
        if (info_at m'.blocks index).confirmed
        then err confirmed_as_dead
        else ok (update_at index (λ b. record b { dead = true }) m')
  ]

  unfoldable pub set_confirmed : ℕ → StorageMemory B → Result Panic (StorageMemory B)
  unfolding add_slot
  set_confirmed slot m =
      let done : Result Panic (StorageMemory B) = elim (add_slot slot m) [
        | err p ↦ err p
        | ok (m', none) ↦ ok m'
        | ok (m', some index) ↦
            if (info_at m'.blocks index).dead
            then err dead_as_confirmed
            else ok (record (update_at index (λ b. record b { confirmed = true }) m') {
              confirmed = slot;
            })
      ] in
      if ltb m.confirmed slot then done else err backward_confirmed

  unfoldable pub first_confirmed : List (BlockInfo B) → Option ℕ
  first_confirmed [] = none
  first_confirmed (b ∷ bs) =
      let rest = first_confirmed bs in
      if b.confirmed then some 0 else elim rest [ none ↦ none | some i ↦ some (suc i) ]

  -- `for index in 0..count`
  unfoldable pub forget : ℕ → List (BlockInfo B) → List (BlockInfo B)
  forget zero bs = bs
  forget (suc count) [] = []
  forget (suc count) (b ∷ bs) = record b { block = none; dead = true } ∷ forget count bs

module _ {B : Type 0} (parent_slot : B → ℕ) where
  -- The `continue` of the loop: to the parent as long as it is stored; the index where it stops.
  unfoldable pub walk : ℕ → List (BlockInfo B) → ℕ → ℕ → Result Panic ℕ
  walk zero blocks first_slot index = err endless_loop
  walk (suc fuel) blocks first_slot index = elim (ltb index (length blocks)) [
    | false ↦ err index_out_of_bounds
    | true ↦ elim (info_at blocks index).block [
      | none ↦ ok index
      | some block ↦ elim (leb first_slot (parent_slot block)) [
        | true ↦ walk fuel blocks first_slot (parent_slot block - first_slot)
        | false ↦ ok index
      ]
    ]
  ]

  -- The rest of the loop's body: what is left of the blocks, and the report.
  unfoldable pub take_next :
      ℕ → ℕ → ℕ → List (BlockInfo B) → Result Panic (List (BlockInfo B) × MemoryConfirmedBlock B)
  unfolding forget
  take_next gen_next_slot first_slot index blocks = elim (info_at blocks index).block [
    | some block ↦
        if leb gen_next_slot (parent_slot block)
        then ok (blocks, missed gen_next_slot)
        else if ltb gen_next_slot first_slot
        then ok (blocks, dead_slot gen_next_slot)
        else if gen_next_slot == first_slot
        then elim (forget index blocks) [
          | [] ↦ err existed
          | b ∷ rest ↦ ok (
            rest,
            elim b.block [
              | some own ↦ constructed b.slot own
              | none ↦ missed_or_dead b.slot b.dead
            ],
          )
        ]
        else err no_next_block
    | none ↦
        if ltb gen_next_slot first_slot
        then ok (blocks, missed gen_next_slot)
        else if gen_next_slot == first_slot
        then elim blocks [ [] ↦ err existed | b ∷ rest ↦ ok (rest, missed_or_dead b.slot b.dead) ]
        else err no_next_block
  ]

  -- The loop gets one round per index from the confirmed one down.
  unfoldable pub pop_confirmed :
      StorageMemory B → Result Panic (StorageMemory B × Option (MemoryConfirmedBlock B))
  unfolding first_confirmed walk take_next
  pop_confirmed m =
      if (m.confirmed == 0) || (m.gen_next_slot == 0) then ok (m, none) else elim m.blocks [
        | [] ↦ ok (m, none)
        | b ∷ bs ↦ elim (first_confirmed (b ∷ bs)) [
          | none ↦ ok (m, none)
          | some confirmed_index ↦
              elim (walk (suc confirmed_index) (b ∷ bs) b.slot confirmed_index) [
                | err p ↦ err p
                | ok index ↦ elim (take_next m.gen_next_slot b.slot index (b ∷ bs)) [
                  | err p ↦ err p
                  | ok (blocks, reported) ↦ ok (
                    record m { blocks = blocks; gen_next_slot = m.gen_next_slot + 1 },
                    some reported,
                  )
                ]
              ]
        ]
      ]
