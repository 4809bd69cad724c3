-- ===== src/Memory/Run.antt =====
-- src/storage/memory.rs: the blocks of a `StorageMemory` have consecutive slots.
use alpamayo.Prelude.{
  ℕ, zero, suc, ◌+◌, ◌<◌, ◌≡◌, refl, some, List, [], ◌∷◌, ◌++◌, arith, length, set, length-append,
}
use alpamayo.Memory.Memory.{BlockInfo, new, info_at, push_front_loop, push_back_loop, forget}

module _ {B : Type 0} (parent_slot : B → ℕ) where
  -- The place belongs to the slot, and its block, if it has one, has an earlier parent.
  pub record PlaceOf (slot : ℕ) (b : BlockInfo B) : Type 0 where
    pub slot_is : b.slot ≡ slot
    pub parent : (own : B) → b.block ≡ some own → parent_slot own < slot

  unfoldable pub Run : ℕ → List (BlockInfo B) → Type 0
  Run first [] = Unit
  Run first (b ∷ bs) = PlaceOf first b × Run (suc first) bs

  pub new-PlaceOf : (slot : ℕ) → PlaceOf slot (new slot)
  new-PlaceOf slot = record { slot_is = refl; parent = λ own e. ground arith }

  pub PlaceOf-at : {s t : ℕ} {b : BlockInfo B} → PlaceOf s b → s ≡ t → PlaceOf t b
  PlaceOf-at p e = rw (← e) p

  pub run_at :
      (first i : ℕ) (bs : List (BlockInfo B))
      → Run first bs
      → i < length bs
      → PlaceOf (first + i) (info_at bs i)
  unfolding Run
  run_at first i [] h l = absurd (omega arith)
  run_at first zero (b ∷ bs) h l = PlaceOf-at h.0 (omega arith)
  run_at first (suc i) (b ∷ bs) h l =
      PlaceOf-at (run_at (suc first) i bs h.1 (omega arith)) (omega arith)

  pub run_append :
      (first slot : ℕ) (bs : List (BlockInfo B))
      → slot ≡ first + length bs
      → Run first bs
      → Run first (bs ++ (new slot ∷ []))
  unfolding Run
  run_append first slot [] e h = (PlaceOf-at (new-PlaceOf slot) (omega arith), tt)
  run_append first slot (b ∷ bs) e h = (h.0, run_append (suc first) slot bs (omega arith) h.1)

  pub run_set :
      (first i : ℕ) (bs : List (BlockInfo B)) (b : BlockInfo B)
      → Run first bs
      → PlaceOf (first + i) b
      → Run first (set bs i b)
  unfolding Run
  run_set first i [] b h p = tt
  run_set first zero (c ∷ bs) b h p = (PlaceOf-at p (omega arith), h.1)
  run_set first (suc i) (c ∷ bs) b h p =
      (h.0, run_set (suc first) i bs b h.1 (PlaceOf-at p (omega arith)))

  pub run_forget : (first n : ℕ) (bs : List (BlockInfo B)) → Run first bs → Run first (forget n bs)
  unfolding Run forget
  run_forget first zero bs h = h
  run_forget first (suc n) [] h = tt
  run_forget first (suc n) (b ∷ bs) h = (
    record { slot_is = h.0.slot_is; parent = λ own e. ground arith },
    run_forget (suc first) n bs h.1,
  )

  pub push_front_loop-Run :
      (count low first : ℕ) (bs : List (BlockInfo B))
      → first ≡ low + count
      → Run first bs
      → Run low (push_front_loop count low bs)
  unfolding push_front_loop Run
  push_front_loop-Run zero low first bs e h = rw (cast e) at h
    where
      cast : first ≡ low + 0 → first ≡ low
      cast e = omega (arith, e)
  push_front_loop-Run (suc count) low first bs e h =
      push_front_loop-Run count low (low + count) (new (low + count) ∷ bs) refl
        (new-PlaceOf (low + count), rest)
    where
      next : first ≡ suc (low + count)
      next = omega (arith, e)

      rest : Run (suc (low + count)) bs
      rest = rw next at h

  pub push_back_loop-Run :
      (count next first : ℕ) (bs : List (BlockInfo B))
      → next ≡ first + length bs
      → Run first bs
      → Run first (push_back_loop count next bs)
  unfolding push_back_loop
  push_back_loop-Run zero next first bs e h = h
  push_back_loop-Run (suc count) next first bs e h =
      push_back_loop-Run count (next + 1) first (bs ++ (new next ∷ []))
        (ground (arith, e, length-append bs (new next ∷ []))) (run_append first next bs e h)

  pub length-push_front_loop :
      (count low : ℕ) (bs : List (BlockInfo B))
      → length (push_front_loop count low bs) ≡ count + length bs
  unfolding push_front_loop
  length-push_front_loop zero low bs = omega arith
  length-push_front_loop (suc count) low bs =
      omega (arith, length-push_front_loop count low (new (low + count) ∷ bs))

  pub length-push_back_loop :
      (count next : ℕ) (bs : List (BlockInfo B))
      → length (push_back_loop count next bs) ≡ count + length bs
  unfolding push_back_loop
  length-push_back_loop zero next bs = omega arith
  length-push_back_loop (suc count) next bs = omega (
    arith,
    length-push_back_loop count (next + 1) (bs ++ (new next ∷ [])),
    length-append bs (new next ∷ []),
  )
