-- ===== src/Blocks/Lower.antt =====
-- `StoredBlocksRead::block_time_to_slot_lower` (src/storage/blocks.rs): which slot it returns.
use mathlib.Core.Bool.{false≢true}
use alpamayo.Prelude.{Option-cases}
use alpamayo.Prelude.{
  ℕ, ◌≡◌, sym, ◌∙◌, Option, none, some, Bool, true, false, not, ◌&&◌, ◌||◌, List, ◌∷◌, [], arith,
  find, Bool-cases, inl, inr,
}
use alpamayo.Prelude.Int.{ℤ, ◌≤ℤ◌}
use alpamayo.Blocks.Block.{StoredBlock}
use alpamayo.Blocks.Read.{Key, key_lt, StoredBlocksRead, block_time_to_slot_lower}
use alpamayo.Blocks.Index.{key_eq, mem, InOrder, AllAbove}
use alpamayo.Blocks.Times.{has_key, Indexed}

some_eq : {a b : Key} → some a ≡ some b → a ≡ b
some_eq h = cc

key_lt-not : (a b : Key) → key_lt a b ≡ true → key_lt b a ≡ false
key_lt-not (a, i) (b, j) h = ground arith

key_lt-eq_right : (x y j : Key) → key_eq y j ≡ true → key_lt x y ≡ key_lt x j
key_lt-eq_right (x, a) (y, b) (j, c) h = ground arith

mem-above : (x j : Key) (xs : List Key) → AllAbove x xs → mem j xs ≡ true → key_lt x j ≡ true
mem-above x j [] a m = cc
mem-above x j (y ∷ xs) a m = elim (Bool-cases (key_eq y j)) [
  | inl t ↦ sym (key_lt-eq_right x y j t) ∙ a.0
  | inr f ↦ mem-above x j xs a.1 (rw f at m)
]

key_eq_refl : (k : Key) → key_eq k k ≡ true
key_eq_refl (t, s) = ground arith

-- The first key that passes an upward closed test, in a list in order.
module _ (p : Key → Bool) (respects : (x j : Key) → key_eq x j ≡ true → p x ≡ p j) where
  first_from :
      (xs : List Key) (k : Key)
      → InOrder xs
      → find p xs ≡ some k
      → (mem k xs ≡ true)
        × (p k ≡ true)
        × ((j : Key) → mem j xs ≡ true → p j ≡ true → key_lt j k ≡ false)
  first_from [] k o e = cc
  first_from (x ∷ xs) k o e = elim (Bool-cases (p x)) [
    | inl t ↦
        let found : some x ≡ some k = rw t at e in
        let same : x ≡ k = some_eq found in
        rw (← same) (
          rw (key_eq_refl x),
          t,
          λ j m pj. elim (Bool-cases (key_eq x j)) [
            | inl q ↦ and_right (key_lt x j) (key_lt j x) q
            | inr q ↦ key_lt-not x j (mem-above x j xs o.0 (rw q at m))
          ],
        )
    | inr f ↦
        let (m, pk, least) = first_from xs k o.1 (rw f at e) in
        (
          or_right (key_eq x k) (mem k xs) m,
          pk,
          λ j mj pj. elim (Bool-cases (key_eq x j)) [
            | inl q ↦ absurd (false≢true (sym f ∙ respects x j q ∙ pj))
            | inr q ↦ least j (rw q at mj) pj
          ],
        )
  ]
    where
      and_right : (a b : Bool) → (not a && not b) ≡ true → b ≡ false
      and_right a b h = ground arith

      or_right : (a b : Bool) → b ≡ true → (a || b) ≡ true
      or_right a b h = ground arith

  none_from : (xs : List Key) → find p xs ≡ none → (j : Key) → mem j xs ≡ true → p j ≡ false
  none_from [] e j m = cc
  none_from (x ∷ xs) e j m = elim (Bool-cases (p x)) [
    | inl t ↦ cc (sym (rw t at e))
    | inr f ↦ elim (Bool-cases (key_eq x j)) [
      | inl q ↦ sym (respects x j q) ∙ f
      | inr q ↦ none_from xs (rw f at e) j (rw q at m)
    ]
  ]

from : ℤ → Key → Bool
from gte k = not (key_lt k (gte, 0))

from-respects : (gte : ℤ) (x j : Key) → key_eq x j ≡ true → from gte x ≡ from gte j
unfolding from
from-respects gte (x, a) (j, b) h = ground arith

from-le : (gte t : ℤ) (s : ℕ) → from gte (t, s) ≡ true → gte ≤ℤ t
unfolding from
from-le gte t s h = ground arith

le-from : (gte t : ℤ) (s : ℕ) → gte ≤ℤ t → from gte (t, s) ≡ true
unfolding from
le-from gte t s h = ground arith

abbrev pub LowestFrom : ℤ → List StoredBlock → Option ℕ → Type 0
LowestFrom gte q none = (t : ℤ) (s : ℕ) → has_key (t, s) q ≡ true → ¬ (gte ≤ℤ t)
LowestFrom gte q (some slot) =
    (t : ℤ) × (has_key (t, slot) q ≡ true)
    × (gte ≤ℤ t)
    × ((u : ℤ) (s : ℕ) → has_key (u, s) q ≡ true → gte ≤ℤ u → key_lt (u, s) (t, slot) ≡ false)

-- With an index that holds just the times of the stored blocks, `block_time_to_slot_lower` returns
-- the slot of the confirmed block that is first in the order of time and then slot among those with
-- a time of at least `gte`, and nothing exactly when no confirmed block has such a time.
pub block_time_to_slot_lower-LowestFrom :
    (gte : ℤ) (r : StoredBlocksRead) (q : List StoredBlock)
    → Indexed r.block_time_index q
    → LowestFrom gte q (block_time_to_slot_lower gte r)
unfolding block_time_to_slot_lower from
block_time_to_slot_lower-LowestFrom gte r q h =
    elim (Option-cases (find (from gte) r.block_time_index)) [
      | inl e ↦ rw e (λ t s m le.
          let out =
            none_from (from gte) (from-respects gte) r.block_time_index e (t, s)
              (h.keys (t, s) ∙ m) in
          false≢true (sym out ∙ le-from gte t s le))
      | inr (k, e) ↦
          let (m, pk, least) =
            first_from (from gte) (from-respects gte) r.block_time_index k h.order e in
          rw e (
            k.0,
            sym (h.keys k) ∙ m,
            from-le gte k.0 k.1 pk,
            λ u s mu le. least (u, s) (h.keys (u, s) ∙ mu) (le-from gte u s le),
          )
    ]
