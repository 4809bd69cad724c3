-- ===== src/Blocks/Ring.antt =====
-- src/storage/blocks.rs: the ring behind `StoredBlocksWrite` and `StoredBlocksRead`, as the run of
-- the blocks from `tail` to `head`.
use alpamayo.Prelude.{
  ℕ, zero, suc, ◌+◌, ◌-◌, ◌≤◌, ◌<◌, ◌≡◌, ◌≢◌, refl, ap, sym, Bool-cases, ◌∙◌, Bool, true, false,
  List, [], ◌∷◌, arith, ◌==◌, ltb, length, set, get_or, inl, inr, ◌⊎◌,
}
use alpamayo.Prelude.Cyclic.{cyc, cyc-cases, cyc-lt, mod-cases, window}
use alpamayo.Blocks.Block.{StoredBlock}
use alpamayo.Blocks.Write.{at, next, prev}

-- The three fields that the writer and its replicas share.
pub record Ring : Type 0 where
  pub blocks : List StoredBlock
  pub tail : ℕ
  pub head : ℕ

-- The place of the `i`th block from the tail, and that block.
abbrev pub place : Ring → ℕ → ℕ
place r i = cyc (length r.blocks) r.tail i

abbrev pub nth : Ring → ℕ → StoredBlock
nth r i = at r.blocks (place r i)

-- The ring holds `k` blocks: those from the tail to the head exist, and no other does.
pub record Holds (r : Ring) (k : ℕ) : Type 0 where
  pub tail_in : r.tail < length r.blocks
  pub head_in : r.head < length r.blocks
  pub count : k ≤ length r.blocks
  pub ends : next (length r.blocks) r.head ≡ place r k
  pub live : (i : ℕ) → i < k → (nth r i).exists ≡ true
  pub free : (i : ℕ) → k ≤ i → i < length r.blocks → (nth r i).exists ≡ false

-- The stored blocks, the lowest slot first.
unfoldable pub contents : Ring → ℕ → List StoredBlock
contents r k = window (nth r) k

module _ {ℓ} {A : Type ℓ} where
  pub get_or-set_self :
      (xs : List A) (i : ℕ) (v d : A) → i < length xs → get_or (set xs i v) i d ≡ v
  get_or-set_self [] i v d h = absurd (omega arith)
  get_or-set_self (x ∷ xs) zero v d h = refl
  get_or-set_self (x ∷ xs) (suc i) v d h = get_or-set_self xs i v d (omega arith)

  pub get_or-set_ne :
      (xs : List A) (i j : ℕ) (v d : A) → i ≢ j → get_or (set xs i v) j d ≡ get_or xs j d
  get_or-set_ne [] i j v d h = refl
  get_or-set_ne (x ∷ xs) zero zero v d h = absurd (h refl)
  get_or-set_ne (x ∷ xs) zero (suc j) v d h = refl
  get_or-set_ne (x ∷ xs) (suc i) zero v d h = refl
  get_or-set_ne (x ∷ xs) (suc i) (suc j) v d h = get_or-set_ne xs i j v d (λ e. h (ap suc e))

pub next-cases :
    (n t : ℕ) → t < n → ((t + 1 < n) × (next n t ≡ t + 1)) ⊎ ((t + 1 ≡ n) × (next n t ≡ 0))
next-cases n t h = elim (mod-cases n (t + 1) (omega arith)) [
  | inl p ↦ inl (p.0, p.1)
  | inr p ↦ inr (omega arith, omega (arith, p))
]

pub prev-cases : (n t : ℕ) → t < n → ((0 < t) × (prev n t ≡ t - 1)) ⊎ ((t ≡ 0) × (prev n t ≡ n - 1))
prev-cases n t h = ground arith

pub next-cyc : (n t i : ℕ) → t < n → i < n → next n (cyc n t i) ≡ cyc n t (suc i)
next-cyc n t i ht hi = omega (
  arith,
  next-cases n (cyc n t i) (cyc-lt n t i ht (omega arith)),
  cyc-cases n t i ht (omega arith),
  cyc-cases n t (suc i) ht (omega arith),
)

pub cyc-next : (n t i : ℕ) → t < n → i < n → cyc n (next n t) i ≡ cyc n t (suc i)
cyc-next n t i ht hi = omega (
  arith,
  next-cases n t ht,
  cyc-cases n (next n t) i (omega (arith, next-cases n t ht)) (omega arith),
  cyc-cases n t (suc i) ht (omega arith),
)

pub cyc-prev : (n t i : ℕ) → t < n → i < n → cyc n (prev n t) (suc i) ≡ cyc n t i
cyc-prev n t i ht hi = omega (
  arith,
  prev-cases n t ht,
  cyc-cases n (prev n t) (suc i) (omega (arith, prev-cases n t ht)) (omega arith),
  cyc-cases n t i ht (omega arith),
)

pub next-prev : (n t : ℕ) → t < n → next n (prev n t) ≡ t
next-prev n t ht =
    omega (arith, prev-cases n t ht, next-cases n (prev n t) (omega (arith, prev-cases n t ht)))

pub cyc-zero : (n t : ℕ) → t < n → cyc n t 0 ≡ t
cyc-zero n t ht = omega (arith, cyc-cases n t 0 ht (omega arith))

pub cyc-round : (n t : ℕ) → t < n → cyc n t n ≡ t
cyc-round n t ht = omega (arith, cyc-cases n t n ht (omega arith))

-- Where the head stands: on the last block, if there is one.
pub head-place : {r : Ring} {k : ℕ} → Holds r k → 0 < k → r.head ≡ place r (k - 1)
head-place {r} {k} h pos =
    let n = length r.blocks in
    omega (
      arith,
      h.ends,
      next-cases n r.head h.head_in,
      cyc-cases n r.tail k h.tail_in h.count,
      cyc-cases n r.tail (k - 1) h.tail_in (omega (arith, h.count)),
    )

pub head-place_empty :
    {r : Ring} {k : ℕ} → Holds r k → k ≡ 0 → r.head ≡ place r (length r.blocks - 1)
head-place_empty {r} {k} h e =
    let n = length r.blocks in
    omega (
      arith,
      h.ends,
      next-cases n r.head h.head_in,
      cyc-cases n r.tail k h.tail_in h.count,
      cyc-cases n r.tail (n - 1) h.tail_in (omega arith),
    )

pub nth-exists :
    {r : Ring} {k : ℕ} (i : ℕ) → Holds r k → i < length r.blocks → (nth r i).exists ≡ ltb i k
nth-exists {r} {k} i h hi = elim (Bool-cases (ltb i k)) [
  | inl e ↦ h.live i (ground arith) ∙ sym e
  | inr e ↦ h.free i (ground arith) hi ∙ sym e
]

-- One equation for every place says which blocks exist.
pub Holds-of :
    {r : Ring} {k : ℕ}
    → r.tail < length r.blocks
    → r.head < length r.blocks
    → k ≤ length r.blocks
    → next (length r.blocks) r.head ≡ place r k
    → ((i : ℕ) → i < length r.blocks → (nth r i).exists ≡ ltb i k)
    → Holds r k
Holds-of ht hh hk e f = record {
  tail_in = ht;
  head_in = hh;
  count = hk;
  ends = e;
  live = λ i hi. f i (omega arith) ∙ ground arith;
  free = λ i hi hn. f i hn ∙ ground arith;
}

abbrev exists_at : Ring → ℕ → Bool
exists_at r i = (at r.blocks i).exists

pub tail-exists : {r : Ring} {k : ℕ} → Holds r k → (at r.blocks r.tail).exists ≡ ltb 0 k
tail-exists {r} {k} h =
    ap (exists_at r) (sym (cyc-zero (length r.blocks) r.tail h.tail_in))
    ∙ nth-exists 0 h (omega (arith, h.tail_in))

pub head-exists : {r : Ring} {k : ℕ} → Holds r k → (at r.blocks r.head).exists ≡ ltb 0 k
head-exists {r} {k} h = elim (Bool-cases (ltb 0 k)) [
  | inl e ↦ ap (exists_at r) (head-place h (ground arith)) ∙ h.live (k - 1) (ground arith) ∙ sym e
  | inr e ↦
      ap (exists_at r) (head-place_empty h (ground arith))
      ∙ h.free (length r.blocks - 1) (ground arith) (omega (arith, h.tail_in))
      ∙ sym e
]

-- The place that follows the head holds a block exactly when the ring is full.
pub next-exists :
    {r : Ring} {k : ℕ}
    → Holds r k
    → (at r.blocks (next (length r.blocks) r.head)).exists ≡ (k == length r.blocks)
next-exists {r} {k} h = elim (Bool-cases (k == length r.blocks)) [
  | inl e ↦ ap (exists_at r) (h.ends ∙ full e) ∙ tail-exists h ∙ ground (arith, h.tail_in)
  | inr e ↦ ap (exists_at r) h.ends ∙ h.free k (omega arith) (ground (arith, h.count)) ∙ sym e
]
  where
    full : (k == length r.blocks) ≡ true → place r k ≡ r.tail
    full e =
        let e' : k ≡ length r.blocks = ground arith in
        ap (place r) e' ∙ cyc-round (length r.blocks) r.tail h.tail_in

-- So does the place before the tail.
pub prev-exists :
    {r : Ring} {k : ℕ}
    → Holds r k
    → (at r.blocks (prev (length r.blocks) r.tail)).exists ≡ (k == length r.blocks)
prev-exists {r} {k} h =
    let n = length r.blocks in
    let here : prev n r.tail ≡ place r (n - 1) =
      omega (
        arith,
        prev-cases n r.tail h.tail_in,
        cyc-cases n r.tail (n - 1) h.tail_in (omega arith),
      ) in
    ap (exists_at r) here
    ∙ nth-exists (n - 1) h (omega (arith, h.tail_in))
    ∙ ground (arith, h.count, h.tail_in)
