-- ===== src/Prelude/TreeMap.antt =====
-- `BTreeMap<u64, V>` as the list of its entries in key order, with the operations the code calls.
use Prim.Native.Nat.{ℕ, ◌<◌, ◌≤◌}
use mathlib.Core.Path.{◌≡◌, refl}
use mathlib.Core.Option.{Option, none, some}
use mathlib.Core.List.{List, [], ◌∷◌}
use native.Mathlib.Omega.{arith}
use alpamayo.Prelude.Tests.{ltb, leb, ◌==◌, if◌then◌else◌}

module _ {ℓ} {V : Type ℓ} where
  unfoldable pub get : ℕ → List (ℕ × V) → Option V
  get k [] = none
  get k ((j, v) ∷ m) = if j == k then some v else get k m

  unfoldable pub insert : ℕ → V → List (ℕ × V) → List (ℕ × V)
  insert k v [] = (k, v) ∷ []
  insert k v ((j, w) ∷ m) =
      let rest = insert k v m in
      if ltb k j then (k, v) ∷ (j, w) ∷ m else if j == k then (k, v) ∷ m else (j, w) ∷ rest

  unfoldable pub remove : ℕ → List (ℕ × V) → List (ℕ × V)
  remove k [] = []
  remove k ((j, w) ∷ m) = let rest = remove k m in if j == k then rest else (j, w) ∷ rest

  -- `first_key_value` and `remove` of that key, until the first key is above `k`.
  unfoldable pub prune : ℕ → List (ℕ × V) → List (ℕ × V)
  prune k [] = []
  prune k ((j, w) ∷ m) = let rest = prune k m in if leb j k then rest else (j, w) ∷ m

  -- Every key of the list is above `k`.
  abbrev pub Above : ℕ → List (ℕ × V) → Type 0
  Above k [] = Unit
  Above k ((j, w) ∷ m) = (k < j) × Above k m

  abbrev pub IsSorted : List (ℕ × V) → Type 0
  IsSorted [] = Unit
  IsSorted ((j, w) ∷ m) = Above j m × IsSorted m

  pub get-insert :
      (k j : ℕ) (v : V) (m : List (ℕ × V))
      → get j (insert k v m) ≡ (if k == j then some v else get j m)
  unfolding get insert
  get-insert k j v [] = refl
  get-insert k j v ((i, w) ∷ m) = ground (arith, get-insert k j v m)

  pub get-remove :
      (k j : ℕ) (m : List (ℕ × V)) → get j (remove k m) ≡ (if k == j then none else get j m)
  unfolding get remove
  get-remove k j [] = ground arith
  get-remove k j ((i, w) ∷ m) = ground (arith, get-remove k j m)

  pub Above-weaken : (k j : ℕ) (m : List (ℕ × V)) → k ≤ j → Above j m → Above k m
  Above-weaken k j [] h a = a
  Above-weaken k j ((i, w) ∷ m) h a = (omega arith, Above-weaken k j m h a.1)

  Above-insert : (l k : ℕ) (v : V) (m : List (ℕ × V)) → l < k → Above l m → Above l (insert k v m)
  unfolding insert
  Above-insert l k v [] h a = (h, a)
  Above-insert l k v ((j, w) ∷ m) h a = ground (arith, Above-insert l k v m h a.1)

  pub insert-IsSorted : (k : ℕ) (v : V) (m : List (ℕ × V)) → IsSorted m → IsSorted (insert k v m)
  unfolding insert
  insert-IsSorted k v [] s = (tt, tt)
  insert-IsSorted k v ((j, w) ∷ m) s =
      ground (arith, insert-IsSorted k v m s.1, Above-insert j k v m, Above-weaken k j m)

  Above-remove : (l k : ℕ) (m : List (ℕ × V)) → Above l m → Above l (remove k m)
  unfolding remove
  Above-remove l k [] a = a
  Above-remove l k ((j, w) ∷ m) a = ground (arith, Above-remove l k m a.1)

  pub remove-IsSorted : (k : ℕ) (m : List (ℕ × V)) → IsSorted m → IsSorted (remove k m)
  unfolding remove
  remove-IsSorted k [] s = s
  remove-IsSorted k ((j, w) ∷ m) s = ground (arith, remove-IsSorted k m s.1, Above-remove j k m s.0)

  pub prune-IsSorted : (k : ℕ) (m : List (ℕ × V)) → IsSorted m → IsSorted (prune k m)
  unfolding prune
  prune-IsSorted k [] s = s
  prune-IsSorted k ((j, w) ∷ m) s = ground (arith, prune-IsSorted k m s.1)

  pub get-Above : (k j : ℕ) (m : List (ℕ × V)) → j ≤ k → Above k m → get j m ≡ none
  unfolding get
  get-Above k j [] h a = refl
  get-Above k j ((i, w) ∷ m) h a = ground (arith, get-Above k j m h a.1)

  -- What is left has just the keys above `k`.
  pub get-prune :
      (k j : ℕ) (m : List (ℕ × V))
      → IsSorted m
      → get j (prune k m) ≡ (if leb j k then none else get j m)
  unfolding get prune
  get-prune k j [] s = ground arith
  get-prune k j ((i, w) ∷ m) s = ground (arith, get-prune k j m s.1, get-Above i j m)
