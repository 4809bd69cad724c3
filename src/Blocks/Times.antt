-- ===== src/Blocks/Times.antt =====
-- src/storage/blocks.rs: `block_time_index` holds just the times of the stored blocks.
use alpamayo.Prelude.{
  ℕ, suc, ◌+◌, ◌<◌, ◌≤◌, ◌≡◌, refl, ap, sym, ◌∙◌, Option, none, some, Bool, true, false, not, ◌&&◌,
  ◌||◌, List, ◌∷◌, ◌++◌, [], arith, if◌then◌else◌, Bool-cases, inl, inr, length,
}
use alpamayo.Prelude.Int.{ℤ}
use alpamayo.Blocks.Block.{StoredBlock}
use alpamayo.Blocks.Write.{at, is_confirmed}
use alpamayo.Blocks.Read.{
  Key, StoredBlocksRead, index_add, index_drop, pop_block_back, pop_block_front, push_block_back,
  push_block_front,
}
use alpamayo.Blocks.Index.{
  key_eq, mem, InOrder, mem-key_insert, mem-key_remove, key_insert-InOrder, key_remove-InOrder,
}
use alpamayo.Blocks.Load.{Contiguous}

-- Whether a key is the time and slot of the block, and of one of the blocks.
abbrev pub is_key : Key → StoredBlock → Bool
is_key k b = is_confirmed b && elim b.block_time [ none ↦ false | some bt ↦ key_eq (bt, b.slot) k ]

abbrev pub has_key : Key → List StoredBlock → Bool
has_key k [] = false
has_key k (b ∷ bs) = is_key k b || has_key k bs

-- The index is in order, and its keys are the times of the confirmed blocks of a run.
pub record Indexed (index : List Key) (q : List StoredBlock) : Type 0 where
  pub order : InOrder index
  pub keys : (k : Key) → mem k index ≡ has_key k q

has_key-append :
    (k : Key) (xs : List StoredBlock) (b : StoredBlock)
    → has_key k (xs ++ (b ∷ [])) ≡ (is_key k b || has_key k xs)
has_key-append k [] b = refl
has_key-append k (x ∷ xs) b =
    ap (λ c. is_key k x || c) (has_key-append k xs b)
    ∙ swap (is_key k x) (is_key k b) (has_key k xs)
  where
    swap : (a b c : Bool) → (a || (b || c)) ≡ (b || (a || c))
    swap a b c = ground arith

unfoldable pub add_time : StoredBlock → List Key → List Key
add_time b index = if not b.dead then index_add b.block_time b.slot index else index

pub drop_time : StoredBlock → List Key → List Key
drop_time b index = if b.exists && not b.dead then index_drop b.block_time b.slot index else index

add_time-mem :
    (k : Key) (b : StoredBlock) (index : List Key)
    → b.exists ≡ true
    → mem k (add_time b index) ≡ (is_key k b || mem k index)
unfolding add_time
add_time-mem k b index e = elim (Bool-cases b.dead) [
  | inl d ↦ rw (d, e)
  | inr d ↦ rw (d, e) (added b.block_time)
]
  where
    added :
        (bt : Option ℤ)
        → mem k (index_add bt b.slot index)
          ≡ ((elim bt [ none ↦ false | some t ↦ key_eq (t, b.slot) k ]) || mem k index)
    added none = refl
    added (some t) = mem-key_insert (t, b.slot) k index

add_time-InOrder : (b : StoredBlock) (index : List Key) → InOrder index → InOrder (add_time b index)
unfolding add_time
add_time-InOrder b index o = elim (Bool-cases b.dead) [
  | inl d ↦ rw d o
  | inr d ↦ rw d (added b.block_time)
]
  where
    added : (bt : Option ℤ) → InOrder (index_add bt b.slot index)
    added none = o
    added (some t) = key_insert-InOrder (t, b.slot) index o

drop_time-mem :
    (k : Key) (b : StoredBlock) (index : List Key)
    → mem k (drop_time b index) ≡ (not (is_key k b) && mem k index)
unfolding drop_time
drop_time-mem k b index = elim (Bool-cases (b.exists && not b.dead)) [
  | inl d ↦ rw d (dropped b.block_time)
  | inr d ↦ rw d
]
  where
    dropped :
        (bt : Option ℤ)
        → mem k (index_drop bt b.slot index)
          ≡ (not (elim bt [ none ↦ false | some t ↦ key_eq (t, b.slot) k ]) && mem k index)
    dropped none = refl
    dropped (some t) = mem-key_remove (t, b.slot) k index

drop_time-InOrder :
    (b : StoredBlock) (index : List Key) → InOrder index → InOrder (drop_time b index)
unfolding drop_time
drop_time-InOrder b index o = elim (Bool-cases (b.exists && not b.dead)) [
  | inl d ↦ rw d (dropped b.block_time)
  | inr d ↦ rw d o
]
  where
    dropped : (bt : Option ℤ) → InOrder (index_drop bt b.slot index)
    dropped none = o
    dropped (some t) = key_remove-InOrder (t, b.slot) index o

-- Blocks of other slots have other keys.
is_key-slot : (k : Key) (b : StoredBlock) → is_key k b ≡ true → b.slot ≡ k.1
is_key-slot (t, s) b h = ground (arith, same b.block_time)
  where
    same :
        (bt : Option ℤ)
        → (elim bt [ none ↦ false | some u ↦ key_eq (u, b.slot) (t, s) ]) ≡ true
        → b.slot ≡ s
    same none e = cc
    same (some u) e = ground arith

has_key-above :
    (k : Key) (c : ℕ) (q : List StoredBlock) → Contiguous c q → k.1 < c → has_key k q ≡ false
has_key-above k c [] q h = refl
has_key-above k c (b ∷ bs) (e, at_slot, q) h = elim (Bool-cases (is_key k b)) [
  | inl t ↦ absurd (omega (arith, is_key-slot k b t))
  | inr f ↦ rw f (has_key-above k (suc c) bs q (omega arith))
]

has_key-below :
    (k : Key) (c : ℕ) (q : List StoredBlock)
    → Contiguous c q
    → c + length q ≤ k.1
    → has_key k q ≡ false
has_key-below k c [] q h = refl
has_key-below k c (b ∷ bs) (e, at_slot, q) h = elim (Bool-cases (is_key k b)) [
  | inl t ↦ absurd (omega (arith, is_key-slot k b t))
  | inr f ↦ rw f (has_key-below k (suc c) bs q (omega arith))
]

pub Contiguous-append :
    (c : ℕ) (q : List StoredBlock) (b : StoredBlock)
    → Contiguous c (q ++ (b ∷ []))
    → Contiguous c q × (b.slot ≡ c + length q)
Contiguous-append c [] b h = (tt, omega (arith, h.1))
Contiguous-append c (x ∷ q) b (e, at_slot, h) =
    let (rest, last) = Contiguous-append (suc c) q b h in ((e, at_slot, rest), omega (arith, last))

only_rest : (a b : Bool) → (a ≡ true → b ≡ false) → (not a && (a || b)) ≡ b
only_rest true b h = sym (h refl)
only_rest false b h = refl

-- The index after each of the four changes of the ring.
module _ (index : List Key) (q : List StoredBlock) (b : StoredBlock) where
  pub add_back-Indexed : b.exists ≡ true → Indexed index q → Indexed (add_time b index) (b ∷ q)
  add_back-Indexed e h = record {
    order = add_time-InOrder b index h.order;
    keys = λ k. add_time-mem k b index e ∙ ap (λ c. is_key k b || c) (h.keys k);
  }

  pub add_front-Indexed :
      b.exists ≡ true → Indexed index q → Indexed (add_time b index) (q ++ (b ∷ []))
  add_front-Indexed e h = record {
    order = add_time-InOrder b index h.order;
    keys = λ k.
        add_time-mem k b index e
        ∙ ap (λ c. is_key k b || c) (h.keys k)
        ∙ sym (has_key-append k q b);
  }

  pub drop_back-Indexed :
      (c : ℕ) → Contiguous c (b ∷ q) → Indexed index (b ∷ q) → Indexed (drop_time b index) q
  drop_back-Indexed c (e, at_slot, others) h = record {
    order = drop_time-InOrder b index h.order;
    keys = λ k.
        drop_time-mem k b index
        ∙ ap (λ x. not (is_key k b) && x) (h.keys k)
        ∙ only_rest (is_key k b) (has_key k q)
            (λ t. has_key-above k (suc c) q others (omega (arith, is_key-slot k b t)));
  }

  pub drop_front-Indexed :
      (c : ℕ)
      → Contiguous c (q ++ (b ∷ []))
      → Indexed index (q ++ (b ∷ []))
      → Indexed (drop_time b index) q
  drop_front-Indexed c run h =
      let (others, last) = Contiguous-append c q b run in
      record {
        order = drop_time-InOrder b index h.order;
        keys = λ k.
            drop_time-mem k b index
            ∙ ap (λ x. not (is_key k b) && x) (h.keys k ∙ has_key-append k q b)
            ∙ only_rest (is_key k b) (has_key k q)
                (λ t. has_key-below k c q others (omega (arith, last, is_key-slot k b t)));
      }

-- The four methods of the replica change its index so.
pub push_back-index :
    (b : StoredBlock) (r : StoredBlocksRead)
    → (push_block_back b r).block_time_index ≡ add_time b r.block_time_index
unfolding push_block_back add_time
push_back-index b r = refl

pub push_front-index :
    (b : StoredBlock) (r : StoredBlocksRead)
    → (push_block_front b r).block_time_index ≡ add_time b r.block_time_index
unfolding push_block_front add_time
push_front-index b r = refl

pub pop_back-index :
    (r : StoredBlocksRead)
    → (pop_block_back r).block_time_index ≡ drop_time (at r.blocks r.tail) r.block_time_index
unfolding pop_block_back drop_time
pop_back-index r = refl

pub pop_front-index :
    (r : StoredBlocksRead)
    → (pop_block_front r).block_time_index ≡ drop_time (at r.blocks r.head) r.block_time_index
unfolding pop_block_front drop_time
pop_front-index r = refl
