-- ===== src/Blocks/Ends.antt =====
-- src/storage/blocks.rs: what a write at either end of the ring does to the run of its blocks.
use alpamayo.Prelude.{
  ℕ, zero, suc, ◌-◌, ◌<◌, ◌≡◌, ◌≢◌, ap, sym, ap₂, ◌∙◌, true, [], ◌∷◌, ◌++◌, arith, length, set,
  length-set, ltb,
}
use native.Mathlib.Decide.{ℕ_discrete, dec_lt}
use alpamayo.Prelude.Cyclic.{cyc, cyc-cases, cyc-lt, cyc-ne, window_ext, window_snoc, window_cons}
use alpamayo.Blocks.Block.{StoredBlock, new_noexists}
use alpamayo.Blocks.Write.{at, next, prev}
use alpamayo.Blocks.Ring.{
  Ring, place, nth, Holds, contents, get_or-set_self, get_or-set_ne, next-cases, prev-cases,
  Holds-of, nth-exists, next-cyc, cyc-next, cyc-prev, next-prev, cyc-zero, head-place,
}

module _ (r : Ring) (b : StoredBlock) where
  abbrev pub add_front : Ring
  add_front = record {
    blocks = set r.blocks (next (length r.blocks) r.head) b;
    tail = r.tail;
    head = next (length r.blocks) r.head;
  }

  abbrev pub add_back : Ring
  add_back = record {
    blocks = set r.blocks (prev (length r.blocks) r.tail) b;
    tail = prev (length r.blocks) r.tail;
    head = r.head;
  }

module _ (r : Ring) where
  abbrev pub drop_back : Ring
  drop_back = record {
    blocks = set r.blocks r.tail new_noexists;
    tail = next (length r.blocks) r.tail;
    head = r.head;
  }

  abbrev pub drop_front : Ring
  drop_front = record {
    blocks = set r.blocks r.head new_noexists;
    tail = r.tail;
    head = prev (length r.blocks) r.head;
  }

-- A write at one place leaves the blocks at the other places.
nth-set_ne :
    (r : Ring) (i j : ℕ) (b : StoredBlock)
    → r.tail < length r.blocks
    → i < length r.blocks
    → j < length r.blocks
    → i ≢ j
    → at (set r.blocks (place r i) b) (place r j) ≡ nth r j
nth-set_ne r i j b ht hi hj ne =
    get_or-set_ne r.blocks (place r i) (place r j) b new_noexists
      (cyc-ne (length r.blocks) r.tail i j ht hi hj ne)

nth-set_self :
    (r : Ring) (i : ℕ) (b : StoredBlock)
    → r.tail < length r.blocks
    → i < length r.blocks
    → at (set r.blocks (place r i) b) (place r i) ≡ b
nth-set_self r i b ht hi =
    get_or-set_self r.blocks (place r i) b new_noexists
      (cyc-lt (length r.blocks) r.tail i ht (omega arith))

-- A block written over the place after the head.
module _ {r : Ring} {k : ℕ} (b : StoredBlock) (h : Holds r k) (room : k < length r.blocks) where
  front-ne : (i : ℕ) → i < length r.blocks → i ≢ k → nth (add_front r b) i ≡ nth r i
  front-ne i hi ne =
      rw (length-set, h.ends) (nth-set_ne r k i b h.tail_in room hi (λ e. ne (sym e)))

  front_self : nth (add_front r b) k ≡ b
  front_self = rw (length-set, h.ends) (nth-set_self r k b h.tail_in room)

  front-exists :
      b.exists ≡ true
      → (i : ℕ) → i < length r.blocks
      → (nth (add_front r b) i).exists ≡ ltb i (suc k)
  front-exists e i hi = elim (ℕ_discrete i k) [
    | yes p ↦ rw p (ap StoredBlock.exists front_self ∙ e ∙ ground arith)
    | no p ↦ ap StoredBlock.exists (front-ne i hi p) ∙ nth-exists i h hi ∙ ground arith
  ]

  -- The ring then holds one block more, at the end.
  pub add_front-Holds : b.exists ≡ true → Holds (add_front r b) (suc k)
  add_front-Holds e =
      Holds-of (rw length-set h.tail_in)
        (rw (length-set, h.ends) (cyc-lt (length r.blocks) r.tail k h.tail_in h.count))
        (rw length-set room)
        (rw (length-set, h.ends) (next-cyc (length r.blocks) r.tail k h.tail_in room))
        (λ i hi. front-exists e i (rw length-set at hi))

  pub contents-add_front : contents (add_front r b) (suc k) ≡ contents r k ++ (b ∷ [])
  unfolding contents
  contents-add_front =
      window_snoc (nth (add_front r b)) k
      ∙ ap₂ ◌++◌
          (window_ext (nth (add_front r b)) (nth r) k
            (λ i hi. front-ne i (omega arith) (omega arith)))
          (ap (λ x. x ∷ []) front_self)

-- A block written over the place before the tail.
module _ {r : Ring} {k : ℕ} (b : StoredBlock) (h : Holds r k) (room : k < length r.blocks) where
  before : Ring
  before = record { blocks = r.blocks; tail = prev (length r.blocks) r.tail; head = r.head }

  before_in : prev (length r.blocks) r.tail < length r.blocks
  before_in = omega (arith, prev-cases (length r.blocks) r.tail h.tail_in, h.tail_in)

  back_self : nth (add_back r b) 0 ≡ b
  back_self =
      rw (length-set, cyc-zero (length r.blocks) (prev (length r.blocks) r.tail) before_in)
        (get_or-set_self r.blocks (prev (length r.blocks) r.tail) b new_noexists before_in)

  back-suc : (i : ℕ) → suc i < length r.blocks → nth (add_back r b) (suc i) ≡ nth r i
  back-suc i hi =
      let n = length r.blocks in
      rw (length-set, cyc-prev n r.tail i h.tail_in (omega arith))
        (get_or-set_ne r.blocks (prev n r.tail) (cyc n r.tail i) b new_noexists (
          omega
            (arith, prev-cases n r.tail h.tail_in, cyc-cases n r.tail i h.tail_in (omega arith))))

  back-exists :
      b.exists ≡ true
      → (i : ℕ) → i < length r.blocks
      → (nth (add_back r b) i).exists ≡ ltb i (suc k)
  back-exists e zero hi = ap StoredBlock.exists back_self ∙ e ∙ ground arith
  back-exists e (suc i) hi =
      ap StoredBlock.exists (back-suc i hi) ∙ nth-exists i h (omega arith) ∙ ground arith

  -- The ring then holds one block more, at the start.
  pub add_back-Holds : b.exists ≡ true → Holds (add_back r b) (suc k)
  add_back-Holds e =
      let n = length r.blocks in
      Holds-of (rw length-set before_in) (rw length-set h.head_in) (rw length-set room)
        (rw length-set (h.ends ∙ sym (cyc-prev n r.tail k h.tail_in room)))
        (λ i hi. back-exists e i (rw length-set at hi))

  pub contents-add_back : contents (add_back r b) (suc k) ≡ b ∷ contents r k
  unfolding contents
  contents-add_back =
      window_cons (nth (add_back r b)) k
      ∙ ap₂ ◌∷◌ back_self (
          window_ext (λ i. nth (add_back r b) (suc i)) (nth r) k (λ i hi. back-suc i (omega arith)))

-- The block at the tail taken away.
module _ {r : Ring} {k : ℕ} (h : Holds r (suc k)) where
  after_in : next (length r.blocks) r.tail < length r.blocks
  after_in = omega (arith, next-cases (length r.blocks) r.tail h.tail_in)

  drop_back-suc : (i : ℕ) → suc i < length r.blocks → nth (drop_back r) i ≡ nth r (suc i)
  drop_back-suc i hi =
      let n = length r.blocks in
      rw (length-set, cyc-next n r.tail i h.tail_in (omega arith))
        (get_or-set_ne r.blocks r.tail (cyc n r.tail (suc i)) new_noexists new_noexists
          (omega (arith, cyc-cases n r.tail (suc i) h.tail_in (omega arith))))

  drop_back-last : nth (drop_back r) (length r.blocks - 1) ≡ new_noexists
  drop_back-last =
      let n = length r.blocks in
      let here : cyc n (next n r.tail) (n - 1) ≡ r.tail = omega (
        arith,
        h.tail_in,
        next-cases n r.tail h.tail_in,
        cyc-cases n (next n r.tail) (n - 1) after_in (omega arith),
      ) in
      rw (length-set, here) (get_or-set_self r.blocks r.tail new_noexists new_noexists h.tail_in)

  drop_back-exists : (i : ℕ) → i < length r.blocks → (nth (drop_back r) i).exists ≡ ltb i k
  drop_back-exists i hi = elim (dec_lt (suc i) (length r.blocks)) [
    | yes p ↦ ap StoredBlock.exists (drop_back-suc i p) ∙ nth-exists (suc i) h p ∙ ground arith
    | no p ↦
        let e : i ≡ length r.blocks - 1 = omega arith in
        rw e (ap StoredBlock.exists drop_back-last ∙ ground (arith, h.count))
  ]

  pub drop_back-Holds : Holds (drop_back r) k
  drop_back-Holds =
      let n = length r.blocks in
      Holds-of (rw length-set after_in) (rw length-set h.head_in)
        (rw length-set (omega (arith, h.count)))
        (rw length-set (h.ends ∙ sym (cyc-next n r.tail k h.tail_in (omega (arith, h.count)))))
        (λ i hi. drop_back-exists i (rw length-set at hi))

  -- What is left is the run without its first block.
  pub contents-drop_back : contents r (suc k) ≡ at r.blocks r.tail ∷ contents (drop_back r) k
  unfolding contents
  contents-drop_back =
      let n = length r.blocks in
      window_cons (nth r) k
      ∙ ap₂ ◌∷◌ (ap (at r.blocks) (cyc-zero n r.tail h.tail_in)) (
          window_ext (λ i. nth r (suc i)) (nth (drop_back r)) k
            (λ i hi. sym (drop_back-suc i (omega (arith, h.count)))))

-- The block at the head taken away.
module _ {r : Ring} {k : ℕ} (h : Holds r (suc k)) where
  head_last : r.head ≡ place r k
  head_last = head-place h (omega arith) ∙ ap (place r) (omega arith)

  drop_front-ne : (i : ℕ) → i < length r.blocks → i ≢ k → nth (drop_front r) i ≡ nth r i
  drop_front-ne i hi ne =
      rw (length-set, head_last)
        (nth-set_ne r k i new_noexists h.tail_in (omega (arith, h.count)) hi (λ e. ne (sym e)))

  drop_front_self : nth (drop_front r) k ≡ new_noexists
  drop_front_self =
      rw (length-set, head_last) (nth-set_self r k new_noexists h.tail_in (omega (arith, h.count)))

  drop_front-exists : (i : ℕ) → i < length r.blocks → (nth (drop_front r) i).exists ≡ ltb i k
  drop_front-exists i hi = elim (ℕ_discrete i k) [
    | yes p ↦ rw p (ap StoredBlock.exists drop_front_self ∙ ground arith)
    | no p ↦ ap StoredBlock.exists (drop_front-ne i hi p) ∙ nth-exists i h hi ∙ ground arith
  ]

  pub drop_front-Holds : Holds (drop_front r) k
  drop_front-Holds =
      let n = length r.blocks in
      Holds-of (rw length-set h.tail_in)
        (rw length-set (omega (arith, prev-cases n r.head h.head_in, h.head_in)))
        (rw length-set (omega (arith, h.count)))
        (rw length-set (next-prev n r.head h.head_in ∙ head_last))
        (λ i hi. drop_front-exists i (rw length-set at hi))

  -- What is left is the run without its last block.
  pub contents-drop_front :
      contents r (suc k) ≡ contents (drop_front r) k ++ (at r.blocks r.head ∷ [])
  unfolding contents
  contents-drop_front =
      window_snoc (nth r) k
      ∙ ap₂ ◌++◌
          (window_ext (nth r) (nth (drop_front r)) k
            (λ i hi. sym (drop_front-ne i (omega (arith, h.count)) (omega arith))))
          (ap (λ x. at r.blocks x ∷ []) (sym head_last))
