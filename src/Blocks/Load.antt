-- ===== src/Blocks/Load.antt =====
-- `StoredBlocksWrite::new` (src/storage/blocks.rs): the ring that is built from the loaded blocks.
use alpamayo.Prelude.{
  ℕ, zero, suc, ◌+◌, ◌-◌, ◌≤◌, ◌<◌, ◌≡◌, refl, ap, sym, ◌∙◌, none, some, true, false, List, ◌∷◌,
  ◌++◌, [], arith, ltb, leb, ◌==◌, if◌then◌else◌, length, length-append, length-replicate,
  replicate, get_or, ok, unwrap_or,
}
use alpamayo.Prelude.{Bool-cases, inl, inr}
use alpamayo.Prelude.Cyclic.{cyc, cyc-cases, window, window_ext}
use alpamayo.Slots.Stored.{StoredSlots, u64_max, first_available_store}
use alpamayo.Blocks.Block.{StoredBlock, new_noexists}
use alpamayo.Blocks.Write.{
  RingMessage, StoredBlocksWrite, at, next, lowest, highest, new, get_back_slot,
}
use alpamayo.Blocks.Ring.{Ring, Holds, Holds-of, contents, nth, next-cases}
use alpamayo.Blocks.Scan.{ring_of, get_back_slot-eq}

-- Blocks that exist and have consecutive slots, from the given one on.
abbrev pub Contiguous : ℕ → List StoredBlock → Type 0
Contiguous slot [] = Unit
Contiguous slot (b ∷ bs) = (b.exists ≡ true) × (b.slot ≡ slot) × Contiguous (suc slot) bs

lowest-free :
    (index i s m : ℕ) → lowest index (some (i, s)) (replicate m new_noexists) ≡ some (i, s)
unfolding lowest
lowest-free index i s zero = refl
lowest-free index i s (suc m) = lowest-free (index + 1) i s m

lowest-keeps :
    (index i s m c : ℕ) (bs : List StoredBlock)
    → s < c
    → Contiguous c bs
    → lowest index (some (i, s)) (bs ++ replicate m new_noexists) ≡ some (i, s)
unfolding lowest
lowest-keeps index i s m c [] h q = lowest-free index i s m
lowest-keeps index i s m c (b ∷ bs) h (e, at_slot, q) =
    let above : ltb b.slot s ≡ false = ground arith in
    rw (e, above) (lowest-keeps (index + 1) i s m (suc c) bs (omega arith) q)

highest-free :
    (index i s m : ℕ) → highest index (some (i, s)) (replicate m new_noexists) ≡ some (i, s)
unfolding highest
highest-free index i s zero = refl
highest-free index i s (suc m) = highest-free (index + 1) i s m

highest-last :
    (i s m : ℕ) (bs : List StoredBlock)
    → Contiguous (suc s) bs
    → highest (i + 1) (some (i, s)) (bs ++ replicate m new_noexists)
      ≡ some (i + length bs, s + length bs)
unfolding highest
highest-last i s m [] q = highest-free (i + 1) i s m ∙ ground arith
highest-last i s m (b ∷ bs) (e, at_slot, q) =
    let rest = bs ++ replicate m new_noexists in
    let above : leb s b.slot ≡ true = ground arith in
    rw (e, above)
      (ap (λ (slot : ℕ). highest (i + 1 + 1) (some (i + 1, slot)) rest) at_slot
        ∙ highest-last (i + 1) (suc s) m bs q
        ∙ ground arith)

module _ {ℓ} {A : Type ℓ} where
  get_or-append_left :
      (xs ys : List A) (i : ℕ) (d : A) → i < length xs → get_or (xs ++ ys) i d ≡ get_or xs i d
  get_or-append_left [] ys i d h = absurd (omega arith)
  get_or-append_left (x ∷ xs) ys zero d h = refl
  get_or-append_left (x ∷ xs) ys (suc i) d h = get_or-append_left xs ys i d (omega arith)

  get_or-append_free :
      (xs : List A) (m i : ℕ) (d : A) → length xs ≤ i → get_or (xs ++ replicate m d) i d ≡ d
  get_or-append_free [] zero i d h = refl
  get_or-append_free [] (suc m) zero d h = refl
  get_or-append_free [] (suc m) (suc i) d h = get_or-append_free [] m i d (omega arith)
  get_or-append_free (x ∷ xs) m zero d h = absurd (omega arith)
  get_or-append_free (x ∷ xs) m (suc i) d h = get_or-append_free xs m i d (omega arith)

  window-get_or : (xs ys : List A) (d : A) → window (λ i. get_or (xs ++ ys) i d) (length xs) ≡ xs
  unfolding window
  window-get_or [] ys d = refl
  window-get_or (x ∷ xs) ys d = ap (λ l. x ∷ l) (window-get_or xs ys d)

get_or-exists :
    (c i : ℕ) (bs : List StoredBlock)
    → Contiguous c bs
    → i < length bs
    → (get_or bs i new_noexists).exists ≡ true
get_or-exists c i [] q h = absurd (omega arith)
get_or-exists c zero (b ∷ bs) q h = q.0
get_or-exists c (suc i) (b ∷ bs) q h = get_or-exists (suc c) i bs q.2 (omega arith)

-- The index and the slot of the lowest and the highest of the loaded blocks.
module _ (slot limit : ℕ) (b : StoredBlock) (bs : List StoredBlock)
    (q : Contiguous slot (b ∷ bs)) where
  lowest-loaded : lowest 0 none (b ∷ bs ++ replicate limit new_noexists) ≡ some (0, slot)
  unfolding lowest
  lowest-loaded = rw q.0 (
      ap (λ (s : ℕ). lowest 1 (some (0, s)) (bs ++ replicate limit new_noexists)) q.1
      ∙ lowest-keeps 1 0 slot limit (suc slot) bs (omega arith) q.2)

  highest-loaded :
      highest 0 none (b ∷ bs ++ replicate limit new_noexists)
      ≡ some (0 + length bs, slot + length bs)
  unfolding highest
  highest-loaded = rw q.0 (
      ap (λ (s : ℕ). highest 1 (some (0, s)) (bs ++ replicate limit new_noexists)) q.1
      ∙ highest-last 0 slot limit bs q.2)

-- The ring over loaded blocks, with the tail at the first place and the head at the last block.
loaded_ring : List StoredBlock → ℕ → ℕ → Ring
loaded_ring q limit head = record {
  blocks = q ++ replicate (limit - length q) new_noexists;
  tail = 0;
  head = head;
}

length-loaded :
    (q : List StoredBlock) (limit : ℕ)
    → length q ≤ limit
    → length (q ++ replicate (limit - length q) new_noexists) ≡ limit
length-loaded q limit h = omega (
  arith,
  length-append q (replicate (limit - length q) new_noexists),
  length-replicate (limit - length q) new_noexists,
)

module _ (slot limit head : ℕ) (q : List StoredBlock) (c : Contiguous slot q)
    (fits : length q ≤ limit) (pos : 0 < limit) where
  abbrev ring : Ring
  ring = record { blocks = q ++ replicate (limit - length q) new_noexists; tail = 0; head = head }

  nth-loaded : (i : ℕ) → i < limit → nth ring i ≡ at ring.blocks i
  nth-loaded i hi = ap (at ring.blocks) (
      omega (
        arith,
        length-loaded q limit fits,
        cyc-cases (length ring.blocks) 0 i (omega (arith, length-loaded q limit fits))
            (omega (arith, length-loaded q limit fits)),
      ))

  loaded-exists : (i : ℕ) → i < limit → (nth ring i).exists ≡ ltb i (length q)
  loaded-exists i hi =
      ap StoredBlock.exists (nth-loaded i hi) ∙ elim (Bool-cases (ltb i (length q))) [
        | inl t ↦
            ap StoredBlock.exists (
              get_or-append_left q (replicate (limit - length q) new_noexists) i new_noexists
                (ground arith))
            ∙ get_or-exists slot i q c (ground arith)
            ∙ sym t
        | inr f ↦
            ap StoredBlock.exists
              (get_or-append_free q (limit - length q) i new_noexists (ground arith))
            ∙ sym f
      ]

  contents-loaded : contents ring (length q) ≡ q
  unfolding contents
  contents-loaded =
      window_ext (nth ring) (at ring.blocks) (length q) (λ i hi. nth-loaded i (omega arith))
      ∙ window-get_or q (replicate (limit - length q) new_noexists) new_noexists

  loaded-Holds : head < limit → next limit head ≡ cyc limit 0 (length q) → Holds ring (length q)
  loaded-Holds hh e =
      let n = length-loaded q limit fits in
      Holds-of (omega (arith, n)) (omega (arith, n)) (omega (arith, n)) (rw n e)
        (λ i hi. loaded-exists i (omega (arith, n)))

lowest-none : (index m : ℕ) → lowest index none (replicate m new_noexists) ≡ none
unfolding lowest
lowest-none index zero = refl
lowest-none index (suc m) = lowest-none (index + 1) m

highest-none : (index m : ℕ) → highest index none (replicate m new_noexists) ≡ none
unfolding highest
highest-none index zero = refl
highest-none index (suc m) = highest-none (index + 1) m

-- The state before and after `first_available_store`.
raw : List StoredBlock → ℕ → StoredSlots → List RingMessage → ℕ → StoredBlocksWrite
raw q limit stored tx head = record {
  blocks = q ++ replicate (limit - length q) new_noexists;
  tail = 0;
  head = head;
  stored_slots = stored;
  sync_tx = tx;
}

made : List StoredBlock → ℕ → StoredSlots → List RingMessage → ℕ → StoredBlocksWrite
unfolding raw
made q limit stored tx head =
    let s = raw q limit stored tx head in
    record s { stored_slots = first_available_store (get_back_slot s) stored }

head_of : List StoredBlock → ℕ → ℕ
head_of [] limit = limit - 1
head_of (b ∷ bs) limit = length bs

new-made :
    (slot limit : ℕ) (q : List StoredBlock) (stored : StoredSlots) (tx : List RingMessage)
    → Contiguous slot q
    → length q ≤ limit
    → 0 < limit
    → new q limit stored tx ≡ ok (made q limit stored tx (head_of q limit))
unfolding new made head_of
new-made slot limit [] stored tx c h pos =
    let fits : ltb limit 0 ≡ false = ground arith in
    let some_places : (limit == 0) ≡ false = ground arith in
    let n : length (replicate (limit - 0) new_noexists) ≡ limit = length-loaded [] limit h in
    rw (lowest-none 0 (limit - 0), highest-none 0 (limit - 0), n, fits, some_places)
new-made slot limit (b ∷ bs) stored tx c h pos =
    let fits : ltb limit (length (b ∷ bs)) ≡ false = ground arith in
    let some_places : (limit == 0) ≡ false = ground arith in
    let m = limit - length (b ∷ bs) in
    let last : 0 + length bs ≡ length bs = omega arith in
    rw (lowest-loaded slot m b bs c, highest-loaded slot m b bs c, fits, some_places, last)

head_of-lt :
    (q : List StoredBlock) (limit : ℕ) → length q ≤ limit → 0 < limit → head_of q limit < limit
unfolding head_of
head_of-lt [] limit h pos = omega arith
head_of-lt (b ∷ bs) limit h pos = omega arith

next-head_of :
    (q : List StoredBlock) (limit : ℕ)
    → length q ≤ limit
    → 0 < limit
    → next limit (head_of q limit) ≡ cyc limit 0 (length q)
unfolding head_of
next-head_of [] limit h pos =
    omega (arith, next-cases limit (limit - 1) (omega arith), cyc-cases limit 0 0 pos (omega arith))
next-head_of (b ∷ bs) limit h pos =
    omega
      (arith, next-cases limit (length bs) (omega arith), cyc-cases limit 0 (length (b ∷ bs)) pos h)

-- The slot of the first of the loaded blocks, and `u64::MAX` if there is none.
abbrev pub first_of : List StoredBlock → ℕ
first_of [] = u64_max
first_of (b ∷ bs) = b.slot

-- Blocks with consecutive slots, not more than the positive number of places, load without error.
-- The ring then has that many places and holds just these blocks in order, `first_available` is
-- the slot of the first of them (`u64::MAX` if there is none), and no message has been sent.
pub new-loads :
    (slot limit : ℕ) (q : List StoredBlock) (stored : StoredSlots) (tx : List RingMessage)
    → Contiguous slot q
    → length q ≤ limit
    → 0 < limit
    → (s : StoredBlocksWrite) × (new q limit stored tx ≡ ok s)
      × Holds (ring_of s) (length q)
      × (contents (ring_of s) (length q) ≡ q)
      × (length s.blocks ≡ limit)
      × (s.stored_slots.first_available ≡ first_of q)
      × (s.sync_tx ≡ tx)
unfolding made raw first_available_store
new-loads slot limit q stored tx c h pos =
    let head = head_of q limit in
    let held =
      loaded-Holds slot limit head q c h pos (head_of-lt q limit h pos)
        (next-head_of q limit h pos) in
    (
      made q limit stored tx head,
      new-made slot limit q stored tx c h pos,
      held,
      contents-loaded slot limit head q c h pos,
      length-loaded q limit h,
      ap (λ o. unwrap_or o u64_max) (get_back_slot-eq (raw q limit stored tx head) held) ∙ first q,
      refl,
    )
  where
    first :
        (q : List StoredBlock)
        → unwrap_or
            (if ltb 0 (length q)
              then some (at (q ++ replicate (limit - length q) new_noexists) 0).slot
              else none)
            u64_max
          ≡ first_of q
    first [] = refl
    first (b ∷ bs) = ground arith
