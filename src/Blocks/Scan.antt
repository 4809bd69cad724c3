-- ===== src/Blocks/Scan.antt =====
-- src/storage/blocks.rs: what the loops of `StoredBlocksWrite` find in the ring.
use mathlib.Core.List.{reverse-append}
use alpamayo.Prelude.{
  ℕ, zero, suc, ◌+◌, ◌-◌, ◌≤◌, ◌<◌, ◌≡◌, ◌≢◌, refl, ap, sym, ap₂, ◌∙◌, none, some, Bool, true,
  false, List, [], ◌∷◌, arith, ltb, ◌==◌, if◌then◌else◌, inl, inr, length, find, reverse,
  Bool-cases,
}
use alpamayo.Prelude.Cyclic.{
  cyc, cyc-cases, cyc-lt, cyc-ne, window, window_ext, window_snoc, window_cons,
}
use alpamayo.Blocks.Block.{StoredBlock}
use alpamayo.Blocks.Write.{get_back_height, get_front_height, slot_and_height}
use alpamayo.Blocks.Write.{
  StoredBlocksWrite, at, next, prev, scan_back, get_back, get_back_slot, get_front_slot, is_full,
  is_confirmed, scan_front,
}
use alpamayo.Blocks.Ring.{
  Ring, place, nth, Holds, contents, next-cyc, prev-cases, cyc-zero, head-place, head-place_empty,
  tail-exists, head-exists, next-exists,
}

abbrev pub ring_of : StoredBlocksWrite → Ring
ring_of s = record { blocks = s.blocks; tail = s.tail; head = s.head }

-- The blocks from the `i`th on.
abbrev later : Ring → ℕ → ℕ → List StoredBlock
later r i m = window (λ j. nth r (i + j)) m

later_cons : (r : Ring) (i m : ℕ) → later r i (suc m) ≡ nth r i ∷ later r (suc i) m
later_cons r i m =
    window_cons (λ j. nth r (i + j)) m
    ∙ ap₂ ◌∷◌ (ap (nth r) (omega arith)) (
        window_ext (λ j. nth r (i + suc j)) (λ j. nth r (suc i + j)) m
          (λ j hj. ap (nth r) (omega arith)))

later_one : (r : Ring) (i : ℕ) → later r i 1 ≡ nth r i ∷ []
unfolding window
later_one r i = later_cons r i 0

module _ {r : Ring} {k : ℕ} (h : Holds r k) (p : StoredBlock → Bool) where
  scan_back_lem :
      (fuel i m : ℕ)
      → m < fuel
      → i + suc m ≡ k
      → scan_back fuel r.blocks r.head p (place r i) ≡ find p (later r i (suc m))
  unfolding scan_back
  scan_back_lem zero i m hf e = absurd (omega arith)
  scan_back_lem (suc fuel) i zero hf e =
      let e' : k - 1 ≡ i = omega arith in
      let here : r.head ≡ place r i = head-place h (omega arith) ∙ ap (place r) e' in
      rw (later_one, ← here) (ground arith)
  scan_back_lem (suc fuel) i (suc m) hf e =
      let n = length r.blocks in
      let ih = scan_back_lem fuel (suc i) m (omega arith) (omega arith) in
      let step : next n (place r i) ≡ place r (suc i) =
        next-cyc n r.tail i h.tail_in (omega (arith, h.count)) in
      let ne : place r i ≢ r.head = rw (head-place h (omega arith)) (
        cyc-ne n r.tail i (k - 1) h.tail_in (omega (arith, h.count)) (omega (arith, h.count))
          (omega arith)) in
      rw (later_cons, step, ih) (ground (arith, ne))

  -- On a ring with `k` blocks, any fuel of at least `k` finds the first block of the run that
  -- passes the test, if one does.
  pub scan_back-find :
      (fuel : ℕ)
      → 0 < k
      → k ≤ fuel
      → scan_back fuel r.blocks r.head p r.tail ≡ find p (contents r k)
  unfolding contents
  scan_back-find fuel pos hf =
      let e : suc (k - 1) ≡ k = omega arith in
      let start = scan_back_lem fuel 0 (k - 1) (omega arith) (omega arith) in
      let whole : later r 0 (suc (k - 1)) ≡ window (nth r) k =
        window_ext (λ j. nth r (0 + j)) (nth r) (suc (k - 1)) (λ j hj. ap (nth r) (omega arith))
        ∙ ap (window (nth r)) e in
      ap (scan_back fuel r.blocks r.head p) (sym (cyc-zero (length r.blocks) r.tail h.tail_in))
      ∙ start
      ∙ ap (find p) whole

module _ (s : StoredBlocksWrite) {k : ℕ} (h : Holds (ring_of s) k) where
  pub get_back-find : (p : StoredBlock → Bool) → get_back p s ≡ find p (contents (ring_of s) k)
  unfolding get_back contents window
  get_back-find p = elim (Bool-cases (ltb 0 k)) [
    | inl e ↦
        let tl = tail-exists h ∙ e in
        let hd = head-exists h ∙ e in
        rw (tl, hd) (scan_back-find h p (length s.blocks) (ground arith) h.count)
    | inr e ↦ let tl = tail-exists h ∙ e in let z : k ≡ 0 = ground arith in rw (tl, z)
  ]

-- The first `i` blocks, the last of them first.
abbrev earlier : Ring → ℕ → List StoredBlock
earlier r i = reverse (window (nth r) i)

earlier_cons : (r : Ring) (i : ℕ) → earlier r (suc i) ≡ nth r i ∷ earlier r i
earlier_cons r i =
    ap reverse (window_snoc (nth r) i) ∙ reverse-append (window (nth r) i) (nth r i ∷ [])

earlier_one : (r : Ring) → earlier r 1 ≡ nth r 0 ∷ []
unfolding window
earlier_one r = earlier_cons r 0

pub prev-cyc : (n t i : ℕ) → t < n → suc i < n → prev n (cyc n t (suc i)) ≡ cyc n t i
prev-cyc n t i ht hi = omega (
  arith,
  prev-cases n (cyc n t (suc i)) (cyc-lt n t (suc i) ht (omega arith)),
  cyc-cases n t i ht (omega arith),
  cyc-cases n t (suc i) ht (omega arith),
)

-- The loop of `get_front_height` goes down from any place of the round to the tail.
scan_front_lem :
    (r : Ring) (fuel i : ℕ)
    → r.tail < length r.blocks
    → i < length r.blocks
    → i < fuel
    → scan_front fuel r.blocks r.tail (place r i) ≡ find is_confirmed (earlier r (suc i))
unfolding scan_front
scan_front_lem r zero i ht hi hf = absurd (omega arith)
scan_front_lem r (suc fuel) zero ht hi hf =
    rw (earlier_one, cyc-zero (length r.blocks) r.tail ht) (ground arith)
scan_front_lem r (suc fuel) (suc i) ht hi hf =
    let n = length r.blocks in
    let ih = scan_front_lem r fuel i ht (omega arith) (omega arith) in
    let ne : place r (suc i) ≢ r.tail =
      omega (arith, cyc-cases n r.tail (suc i) ht (omega arith)) in
    rw (earlier_cons, prev-cyc n r.tail i ht hi, ih) (ground (arith, ne))

find-none :
    (p : StoredBlock → Bool) (r : Ring) (n : ℕ)
    → ((i : ℕ) → i < n → p (nth r i) ≡ false)
    → find p (earlier r n) ≡ none
unfolding window
find-none p r zero h = refl
find-none p r (suc n) h =
    ap (find p) (earlier_cons r n)
    ∙ ground (arith, h n (omega arith), find-none p r n (λ i hi. h i (omega arith)))

scan_back_first :
    (fuel : ℕ) (blocks : List StoredBlock) (head : ℕ) (p : StoredBlock → Bool) (i : ℕ)
    → 0 < fuel
    → p (at blocks i) ≡ true
    → scan_back fuel blocks head p i ≡ some (at blocks i)
unfolding scan_back
scan_back_first zero blocks head p i pos e = absurd (omega arith)
scan_back_first (suc fuel) blocks head p i pos e = rw e

-- The ends of a ring with `k` blocks.
module _ (s : StoredBlocksWrite) {k : ℕ} (h : Holds (ring_of s) k) where
  pub scan_front-find :
      scan_front (length s.blocks) s.blocks s.tail s.head
      ≡ find is_confirmed (reverse (contents (ring_of s) k))
  unfolding contents window
  scan_front-find =
      let r = ring_of s in
      let n = length s.blocks in
      let from : (i : ℕ)
          → i < n
          → s.head ≡ place r i
          → scan_front n s.blocks s.tail s.head ≡ find is_confirmed (earlier r (suc i)) =
        λ i hi e. ap (scan_front n s.blocks s.tail) e ∙ scan_front_lem r n i h.tail_in hi hi in
      elim (Bool-cases (ltb 0 k)) [
        | inl e ↦
            from (k - 1) (ground (arith, h.count)) (head-place h (ground arith))
            ∙ ap (λ j. find is_confirmed (earlier r j)) {x = suc (k - 1)} {y = k} (ground arith)
        | inr e ↦
            let z : k ≡ 0 = ground arith in
            from (n - 1) (omega (arith, h.tail_in)) (head-place_empty h z)
            ∙ ap (λ j. find is_confirmed (earlier r j)) {x = suc (n - 1)} {y = n}
                (omega (arith, h.tail_in))
            ∙ find-none is_confirmed r n (λ i hi. ground (arith, h.free i (omega arith) hi))
            ∙ ap (λ j. find is_confirmed (earlier r j)) (sym z)
      ]

  pub is_full-eq : is_full s ≡ (k == length s.blocks)
  unfolding is_full
  is_full-eq = next-exists h

  pub get_back_slot-eq :
      get_back_slot s ≡ (if ltb 0 k then some (at s.blocks s.tail).slot else none)
  unfolding get_back_slot get_back
  get_back_slot-eq = elim (Bool-cases (ltb 0 k)) [
    | inl e ↦
        let tl = tail-exists h ∙ e in
        let hd = head-exists h ∙ e in
        let first =
          scan_back_first (length s.blocks) s.blocks s.head (λ (b : StoredBlock). b.exists) s.tail
            (omega (arith, h.tail_in)) tl in
        rw (tl, hd, e, first)
    | inr e ↦ let tl = tail-exists h ∙ e in rw (tl, e)
  ]

  pub get_front_slot-eq :
      get_front_slot s ≡ (if ltb 0 k then some (at s.blocks s.head).slot else none)
  unfolding get_front_slot
  get_front_slot-eq = rw (head-exists h)

-- On a ring with `k` blocks: the back and front slots are those of the first and the last block, the
-- two heights are those of the first and the last block that is confirmed and not dead (with the
-- panic of `expect` if it has no height), and the ring is full exactly when it has a block at every
-- place.
pub ends-eq :
    (s : StoredBlocksWrite) (k : ℕ)
    → Holds (ring_of s) k
    → let q = contents (ring_of s) k in
      (get_back_slot s ≡ (if ltb 0 k then some (at s.blocks s.tail).slot else none))
      × (get_front_slot s ≡ (if ltb 0 k then some (at s.blocks s.head).slot else none))
      × (get_back_height s ≡ slot_and_height (find is_confirmed q))
      × (get_front_height s ≡ slot_and_height (find is_confirmed (reverse q)))
      × (is_full s ≡ (k == length s.blocks))
unfolding get_back_height get_front_height
ends-eq s k h = (
  get_back_slot-eq s h,
  get_front_slot-eq s h,
  ap slot_and_height (get_back-find s h is_confirmed),
  ap slot_and_height (scan_front-find s h),
  is_full-eq s h,
)
