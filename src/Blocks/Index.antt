-- ===== src/Blocks/Index.antt =====
-- src/storage/blocks.rs: the keys of `block_time_index` as a set in order.
use alpamayo.Prelude.{
  ◌≡◌, refl, ap, ◌∙◌, Bool, true, false, not, ◌&&◌, ◌||◌, List, ◌∷◌, [], arith, Bool-cases, inl,
  inr,
}
use alpamayo.Blocks.Read.{Key, key_lt, key_insert, key_remove}

abbrev pub key_eq : Key → Key → Bool
key_eq a b = not (key_lt a b) && not (key_lt b a)

abbrev pub mem : Key → List Key → Bool
mem k [] = false
mem k (x ∷ xs) = key_eq x k || mem k xs

abbrev pub AllAbove : Key → List Key → Type 0
AllAbove k [] = Unit
AllAbove k (x ∷ xs) = (key_lt k x ≡ true) × AllAbove k xs

abbrev pub InOrder : List Key → Type 0
InOrder [] = Unit
InOrder (x ∷ xs) = AllAbove x xs × InOrder xs

key_lt_trans : (a b c : Key) → key_lt a b ≡ true → key_lt b c ≡ true → key_lt a c ≡ true
key_lt_trans (a, i) (b, j) (c, k) p q = ground arith

key_lt-eq : (a b c : Key) → key_lt a b ≡ false → key_lt b a ≡ false → key_lt a c ≡ key_lt b c
key_lt-eq (a, i) (b, j) (c, k) p q = ground arith

key_eq-eq : (a b c : Key) → key_lt a b ≡ false → key_lt b a ≡ false → key_eq a c ≡ key_eq b c
key_eq-eq (a, i) (b, j) (c, k) p q = ground arith

or_swap : (a b c : Bool) → (a || (b || c)) ≡ (b || (a || c))
or_swap a b c = ground arith

or_same : (a b : Bool) → (a || b) ≡ (a || (a || b))
or_same a b = ground arith

pub mem-key_insert :
    (k j : Key) (xs : List Key) → mem j (key_insert k xs) ≡ (key_eq k j || mem j xs)
unfolding key_insert
mem-key_insert k j [] = refl
mem-key_insert k j (x ∷ xs) = elim (Bool-cases (key_lt k x)) [
  | inl p ↦ rw p
  | inr p ↦ elim (Bool-cases (key_lt x k)) [
    | inl q ↦
        rw (p, q)
          (ap (λ b. key_eq x j || b) (mem-key_insert k j xs)
            ∙ or_swap (key_eq x j) (key_eq k j) (mem j xs))
    | inr q ↦
        rw (p, q)
          (or_same (key_eq k j) (mem j xs)
            ∙ ap (λ b. key_eq k j || (b || mem j xs)) (key_eq-eq k x j p q))
  ]
]

and_keep : (a b c : Bool) → (a ≡ true → b ≡ false) → (b || (not a && c)) ≡ (not a && (b || c))
and_keep true true c h = cc (h refl)
and_keep true false c h = refl
and_keep false b c h = refl

and_gone : (a c : Bool) → (not a && c) ≡ (not a && (a || c))
and_gone a c = ground arith

key_ne-eq :
    (k x j : Key) → (key_lt k x || key_lt x k) ≡ true → key_eq k j ≡ true → key_eq x j ≡ false
key_ne-eq (k, i) (x, y) (j, z) h e = ground arith

pub mem-key_remove :
    (k j : Key) (xs : List Key) → mem j (key_remove k xs) ≡ (not (key_eq k j) && mem j xs)
unfolding key_remove
mem-key_remove k j [] = ground arith
mem-key_remove k j (x ∷ xs) = elim (Bool-cases (key_lt k x || key_lt x k)) [
  | inl p ↦ rw p (
      ap (λ b. key_eq x j || b) (mem-key_remove k j xs)
      ∙ and_keep (key_eq k j) (key_eq x j) (mem j xs) (key_ne-eq k x j p))
  | inr p ↦
      let (a, b) = neither (key_lt k x) (key_lt x k) p in
      rw p (
        mem-key_remove k j xs
        ∙ and_gone (key_eq k j) (mem j xs)
        ∙ ap (λ b. not (key_eq k j) && (b || mem j xs)) (key_eq-eq k x j a b))
]
  where
    neither : (a b : Bool) → (a || b) ≡ false → (a ≡ false) × (b ≡ false)
    neither a b h = ground arith

AllAbove-insert :
    (l k : Key) (xs : List Key) → key_lt l k ≡ true → AllAbove l xs → AllAbove l (key_insert k xs)
unfolding key_insert
AllAbove-insert l k [] h a = (h, a)
AllAbove-insert l k (x ∷ xs) h a =
    let ih = AllAbove-insert l k xs h a.1 in
    elim (Bool-cases (key_lt k x)) [
      | inl p ↦ rw p (h, a)
      | inr p ↦ elim (Bool-cases (key_lt x k)) [
        | inl q ↦ rw (p, q) (a.0, ih)
        | inr q ↦ rw (p, q) (h, a.1)
      ]
    ]

AllAbove-weaken : (l k : Key) (xs : List Key) → key_lt l k ≡ true → AllAbove k xs → AllAbove l xs
AllAbove-weaken l k [] h a = a
AllAbove-weaken l k (x ∷ xs) h a = (key_lt_trans l k x h a.0, AllAbove-weaken l k xs h a.1)

AllAbove-same :
    (k x : Key) (xs : List Key)
    → key_lt k x ≡ false
    → key_lt x k ≡ false
    → AllAbove x xs
    → AllAbove k xs
AllAbove-same k x [] p q a = a
AllAbove-same k x (y ∷ xs) p q a = (key_lt-eq k x y p q ∙ a.0, AllAbove-same k x xs p q a.1)

pub key_insert-InOrder : (k : Key) (xs : List Key) → InOrder xs → InOrder (key_insert k xs)
unfolding key_insert
key_insert-InOrder k [] o = (tt, tt)
key_insert-InOrder k (x ∷ xs) o = elim (Bool-cases (key_lt k x)) [
  | inl p ↦ rw p ((p, AllAbove-weaken k x xs p o.0), o)
  | inr p ↦ elim (Bool-cases (key_lt x k)) [
    | inl q ↦ rw (p, q) (AllAbove-insert x k xs q o.0, key_insert-InOrder k xs o.1)
    | inr q ↦ rw (p, q) (AllAbove-same k x xs p q o.0, o.1)
  ]
]

AllAbove-remove : (l k : Key) (xs : List Key) → AllAbove l xs → AllAbove l (key_remove k xs)
unfolding key_remove
AllAbove-remove l k [] a = a
AllAbove-remove l k (x ∷ xs) a = elim (Bool-cases (key_lt k x || key_lt x k)) [
  | inl p ↦ rw p (a.0, AllAbove-remove l k xs a.1)
  | inr p ↦ rw p (AllAbove-remove l k xs a.1)
]

pub key_remove-InOrder : (k : Key) (xs : List Key) → InOrder xs → InOrder (key_remove k xs)
unfolding key_remove
key_remove-InOrder k [] o = o
key_remove-InOrder k (x ∷ xs) o = elim (Bool-cases (key_lt k x || key_lt x k)) [
  | inl p ↦ rw p (AllAbove-remove x k xs o.0, key_remove-InOrder k xs o.1)
  | inr p ↦ rw p (key_remove-InOrder k xs o.1)
]
