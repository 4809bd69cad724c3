-- ===== src/Store/Checks.antt =====
-- The steps of a call of `RocksdbWrite` (src/storage/rocksdb.rs) that succeeds, and what the checks of the
-- slot say of the run of the stored blocks.
use alpamayo.Prelude.{
  ==_iff, ℕ, suc, ◌+◌, ◌-◌, ◌^◌, ◌<◌, ◌≡◌, refl, sym, ap, ◌∙◌, Bool, true, false, Option, some,
  none, List, [], ◌∷◌, ◌++◌, arith, ltb, ◌==◌, length, Result, ok, err,
}
use alpamayo.Blocks.Load.{Contiguous}
use alpamayo.Prelude.Cyclic.{length-window, mod-cases}
use alpamayo.Codec.Basic.{SlotBasicIndexValue}
use alpamayo.Blocks.Block.{StoredBlock}
use alpamayo.Blocks.Write.{StoredBlocksWrite, pop_block_front, at, get_back_slot, get_front_slot}
use alpamayo.Blocks.Ring.{Ring, contents, nth}
use alpamayo.Blocks.Scan.{ring_of, get_back_slot-eq, get_front_slot-eq}
use alpamayo.Store.Write.{
  StoreError, invalid_slot, ◌>>=◌, ensure, from_option, check_slot, below_u64,
}
use alpamayo.Store.Agree.{append-Contiguous, Agrees}
use alpamayo.Blocks.Pop.{pop_block_back-eq, pop_block_front-eq}
use alpamayo.Store.Push.{Below, AboveLast, pop_back-Agrees}

-- A call that succeeds: its first step does, and so does the rest.
pub bind-ok {ℓ} :
    {A B : Type 0} {R : Type ℓ} (m : Result StoreError A) (f : A → Result StoreError B) {t : B}
    → (m >>= f) ≡ ok t
    → ((a : A) → m ≡ ok a → f a ≡ ok t → R)
    → R
bind-ok (ok a) f e k = k a refl e
bind-ok (err x) f e k = absurd (ground arith)

pub ok-inj : {A : Type 0} {a b : A} → ◌≡◌ {A = Result StoreError A} (ok a) (ok b) → a ≡ b
ok-inj e = cc

pub from_option-ok :
    {A : Type 0} (o : Option A) (x : StoreError) {a : A} → from_option o x ≡ ok a → o ≡ some a
from_option-ok none x e = absurd (ground arith)
from_option-ok (some a) x e = ground arith

pub ensure-ok : (b : Bool) (x : StoreError) {u : Unit {0}} → ensure b x ≡ ok u → b ≡ true
ensure-ok true x e = refl
ensure-ok false x e = absurd (ground arith)

some-inj : {A : Type 0} {a b : A} → some a ≡ some b → a ≡ b
some-inj e = cc

below_u64-eq : (n : ℕ) → 0 < n → n < 2 ^ 64 → below_u64 n ≡ n - 1
below_u64-eq n p l = omega (arith, mod-cases (2 ^ 64) (n + (2 ^ 64 - 1)) (omega arith))

below_zero : below_u64 0 ≡ 2 ^ 64 - 1
below_zero = refl

pub back_slot-Below :
    (s : StoredBlocksWrite) (index : List (ℕ × SlotBasicIndexValue)) (bs : List StoredBlock)
    (slot : ℕ) {u : Unit {0}}
    → Agrees (ring_of s) index bs
    → suc slot < 2 ^ 64
    → check_slot (elim (get_back_slot s) [ none ↦ none | some low ↦ some (below_u64 low) ]) slot
      ≡ ok u
    → Below slot bs
unfolding check_slot
back_slot-Below s index [] slot h l e = tt
back_slot-Below s index (b ∷ bs) slot h l e =
    let at_tail : (at s.blocks s.tail).slot ≡ b.slot =
      ap StoredBlock.slot
        (some-inj (sym (pop_block_back-eq s h.holds).0 ∙ (pop_back-Agrees s b bs h).0)) in
    let pos : ltb 0 (length (b ∷ bs)) ≡ true = ground arith in
    let e1 = rw (get_back_slot-eq s h.holds, at_tail, pos) at e in
    let same =
      (==_iff (below_u64 b.slot) slot).0 (ensure-ok (below_u64 b.slot == slot) invalid_slot e1) in
    omega (arith, h.below, below_u64-eq b.slot, below_zero, h.run.1)

length-contents : (r : Ring) (k : ℕ) → length (contents r k) ≡ k
unfolding contents
length-contents r k = length-window (nth r) k

-- The slot of the block at the head, which is the last of the run.
front_slot :
    (s : StoredBlocksWrite) {index : List (ℕ × SlotBasicIndexValue)} (b : StoredBlock)
    (bs : List StoredBlock)
    → Agrees (ring_of s) index (b ∷ bs)
    → (at s.blocks s.head).slot ≡ b.slot + length bs
front_slot s b bs h =
    let p = pop_block_front-eq s h.holds in
    let r : Ring = ring_of (pop_block_front s).0 in
    let split = sym h.run_is ∙ p.3 in
    let run : Contiguous h.first (contents r (length bs) ++ (at s.blocks s.head ∷ [])) =
      rw (sym split) h.run in
    let last = append-Contiguous h.first (contents r (length bs)) (at s.blocks s.head) run in
    omega (arith, last.1, h.run.1, length-contents r (length bs))

pub front_slot-AboveLast :
    (s : StoredBlocksWrite) (index : List (ℕ × SlotBasicIndexValue)) (bs : List StoredBlock)
    (slot : ℕ) {u : Unit {0}}
    → Agrees (ring_of s) index bs
    → check_slot (elim (get_front_slot s) [ none ↦ none | some high ↦ some (high + 1) ]) slot ≡ ok u
    → AboveLast slot bs
unfolding check_slot
front_slot-AboveLast s index [] slot h e = tt
front_slot-AboveLast s index (b ∷ bs) slot h e =
    let at_head : (at s.blocks s.head).slot ≡ b.slot + length bs = front_slot s b bs h in
    let pos : ltb 0 (length (b ∷ bs)) ≡ true = ground arith in
    let e1 = rw (get_front_slot-eq s h.holds, at_head, pos) at e in
    let same =
      (==_iff (b.slot + length bs + 1) slot).0
        (ensure-ok (b.slot + length bs + 1 == slot) invalid_slot e1) in
    omega arith
