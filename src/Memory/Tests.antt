-- ===== src/Memory/Tests.antt =====
-- Concrete states for src/storage/memory.rs. A block is its parent's slot.
use alpamayo.Prelude.{ℕ, ◌≡◌, refl, ◌⊎◌, none, some, true, false, List, [], ◌∷◌, arith, ok}
use alpamayo.Memory.Memory.{
  BlockInfo, StorageMemory, MemoryConfirmedBlock, constructed, add_processed, pop_confirmed,
}
use alpamayo.Memory.Run.{Run}
use alpamayo.Memory.Add.{IsValid, add_processed-IsValid}
use alpamayo.Memory.Pop.{Reported, pop_confirmed-cases}

abbrev parent_of : ℕ → ℕ
parent_of parent = parent

abbrev two_slots : StorageMemory ℕ
two_slots = record {
  blocks =
      record { slot = 5; block = some 4; dead = false; confirmed = false }
      ∷ record { slot = 6; block = some 5; dead = false; confirmed = true }
      ∷ [];
  confirmed = 6;
  gen_next_slot = 5;
}

two_slots-IsValid : IsValid parent_of two_slots
unfolding Run
two_slots-IsValid = record {
  run = (
    record { slot_is = refl; parent = λ own e. ground (arith, e) },
    (record { slot_is = refl; parent = λ own e. ground (arith, e) }, tt),
  );
  started = λ l. omega arith;
  unreported = λ l. omega arith;
}

add_processed-IsValid_example :
    (m' : StorageMemory ℕ) × (add_processed 8 6 two_slots ≡ ok m') × IsValid parent_of m'
add_processed-IsValid_example =
    add_processed-IsValid parent_of 8 6 two_slots (omega arith) (omega arith) two_slots-IsValid

pop_confirmed-cases_example :
    (pop_confirmed parent_of two_slots ≡ ok (two_slots, none))
    ⊎ ((rest : List (BlockInfo ℕ)) × (reported : MemoryConfirmedBlock ℕ) × Reported parent_of
          two_slots rest reported)
pop_confirmed-cases_example = pop_confirmed-cases parent_of two_slots two_slots-IsValid

-- The ancestor of the confirmed block leaves first.
pops_ancestor :
    pop_confirmed parent_of two_slots
    ≡ ok (
      record {
        blocks = record { slot = 6; block = some 5; dead = false; confirmed = true } ∷ [];
        confirmed = 6;
        gen_next_slot = 6;
      },
      some (constructed 5 4),
    )
unfolding pop_confirmed
pops_ancestor = refl
