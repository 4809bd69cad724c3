-- ===== src/Blocks/Recent.antt =====
-- `StoredBlocksWrite::get_recent_blocks` (src/storage/blocks.rs).
use mathlib.Core.List.{reverse-append, append-nil, append_assoc}
use alpamayo.Prelude.{
  ℕ, zero, suc, ◌-◌, ◌≤◌, ◌<◌, ◌≡◌, ◌≢◌, refl, ap, ◌∙◌, Bool, true, false, not, List, [], ◌∷◌, ◌++◌,
  arith, ltb, ◌==◌, if◌then◌else◌, inl, inr, length, filter, length-append, take, drop, reverse,
  Bool-cases,
}
use alpamayo.Prelude.Cyclic.{cyc-cases, window, window_snoc}
use alpamayo.Blocks.Block.{StoredBlock}
use alpamayo.Blocks.Write.{StoredBlocksWrite, at, prev, recent_loop, get_recent_blocks}
use alpamayo.Blocks.Ring.{Ring, place, nth, Holds, contents, cyc-zero, head-place, head-exists}
use alpamayo.Blocks.Scan.{ring_of, prev-cyc}

abbrev pub is_alive : StoredBlock → Bool
is_alive b = not b.dead

-- The blocks after the tail up to the `i`th, the last of them first.
abbrev downto : Ring → ℕ → List StoredBlock
downto r i = reverse (window (λ j. nth r (suc j)) i)

downto_cons : (r : Ring) (i : ℕ) → downto r (suc i) ≡ nth r (suc i) ∷ downto r i
downto_cons r i =
    ap reverse (window_snoc (λ j. nth r (suc j)) i)
    ∙ reverse-append (window (λ j. nth r (suc j)) i) (nth r (suc i) ∷ [])

downto_zero : (r : Ring) → downto r 0 ≡ []
unfolding window
downto_zero r = refl

take_zero {ℓ} : {A : Type ℓ} (n : ℕ) (xs : List A) → n ≡ 0 → take n xs ≡ []
take_zero zero xs e = refl
take_zero (suc n) xs e = absurd (omega arith)

take_nil {ℓ} : (A : Type ℓ) (n : ℕ) → take {A = A} n [] ≡ []
take_nil A zero = refl
take_nil A (suc n) = refl

take_cons {ℓ} :
    {A : Type ℓ} (n : ℕ) (x : A) (xs : List A) → 0 < n → take n (x ∷ xs) ≡ x ∷ take (n - 1) xs
take_cons zero x xs h = absurd (omega arith)
take_cons (suc n) x xs h = ap (λ m. x ∷ take m xs) (omega arith)

recent_go :
    (fuel : ℕ) (blocks : List StoredBlock) (tail limit : ℕ) (acc : List StoredBlock) (index : ℕ)
    → ltb (length acc) limit ≡ true
    → index ≢ tail
    → (at blocks index).exists ≡ true
    → recent_loop (suc fuel) blocks tail limit acc index
      ≡ recent_loop fuel blocks tail limit
          (if (at blocks index).dead then acc else acc ++ (at blocks index ∷ []))
          (prev (length blocks) index)
unfolding recent_loop
recent_go fuel blocks tail limit acc index go ne live =
    let other : (index == tail) ≡ false = ground (arith, ne) in rw (go, other, live)

recent_stop :
    (fuel : ℕ) (blocks : List StoredBlock) (tail limit : ℕ) (acc : List StoredBlock) (index : ℕ)
    → (at blocks index).exists ≡ false
    → recent_loop fuel blocks tail limit acc index ≡ acc
unfolding recent_loop
recent_stop zero blocks tail limit acc index e = refl
recent_stop (suc fuel) blocks tail limit acc index e = ground (arith, e)

module _ {r : Ring} {k : ℕ} (h : Holds r k) (limit : ℕ) where
  recent_loop_lem :
      (fuel i : ℕ) (acc : List StoredBlock)
      → i < k
      → i ≤ fuel
      → recent_loop fuel r.blocks r.tail limit acc (place r i)
        ≡ acc ++ take (limit - length acc) (filter is_alive (downto r i))
  unfolding recent_loop
  recent_loop_lem zero zero acc hi hf = rw (downto_zero, take_nil, append-nil)
  recent_loop_lem zero (suc i) acc hi hf = absurd (omega arith)
  recent_loop_lem (suc fuel) zero acc hi hf =
      rw (downto_zero, take_nil, append-nil, cyc-zero (length r.blocks) r.tail h.tail_in)
        (ground arith)
  recent_loop_lem (suc fuel) (suc i) acc hi hf =
      let n = length r.blocks in
      let b = nth r (suc i) in
      let live = h.live (suc i) hi in
      let ne : place r (suc i) ≢ r.tail =
        omega (arith, cyc-cases n r.tail (suc i) h.tail_in (omega (arith, h.count))) in
      let step : prev n (place r (suc i)) ≡ place r i =
        prev-cyc n r.tail i h.tail_in (omega (arith, h.count)) in
      let keep = recent_loop_lem fuel i acc (omega arith) (omega arith) in
      let more = recent_loop_lem fuel i (acc ++ (b ∷ [])) (omega arith) (omega arith) in
      elim (Bool-cases (ltb (length acc) limit)) [
        | inr stop ↦ rw (
          stop,
          take_zero (limit - length acc) (filter is_alive (downto r (suc i))) (ground arith),
          append-nil,
        )
        | inl go ↦
            let first = recent_go fuel r.blocks r.tail limit acc (place r (suc i)) go ne live in
            first
            ∙ rw step (elim (Bool-cases b.dead) [
              | inl d ↦ rw d (keep ∙ rw (downto_cons, d))
              | inr d ↦ rw d (more ∙ grown acc i go d)
            ])
      ]
    where
      grown :
          (acc : List StoredBlock) (i : ℕ)
          → ltb (length acc) limit ≡ true
          → (nth r (suc i)).dead ≡ false
          → (acc ++ (nth r (suc i) ∷ []))
              ++ take (limit - length (acc ++ (nth r (suc i) ∷ []))) (filter is_alive (downto r i))
            ≡ acc ++ take (limit - length acc) (filter is_alive (downto r (suc i)))
      grown acc i go d =
          let b = nth r (suc i) in
          let others = filter is_alive (downto r i) in
          let short : limit - length (acc ++ (b ∷ [])) ≡ limit - length acc - 1 =
            omega (arith, length-append acc (b ∷ [])) in
          rw (
            downto_cons,
            d,
            short,
            append_assoc,
            take_cons (limit - length acc) b others (ground arith),
          )

-- On a ring with `k` blocks: of the blocks after the tail, those that are not dead, and of these
-- the last `limit`, in the order of the ring. The block at the tail is never among them.
pub get_recent_blocks-eq :
    (s : StoredBlocksWrite) (limit : ℕ) {k : ℕ}
    → Holds (ring_of s) k
    → get_recent_blocks limit s
      ≡ reverse (take limit (filter is_alive (reverse (drop 1 (contents (ring_of s) k)))))
unfolding get_recent_blocks contents window
get_recent_blocks-eq s limit {k = zero} h =
    rw (recent_stop (length s.blocks) s.blocks s.tail limit [] s.head (head-exists h))
      (rw (take_nil StoredBlock limit))
get_recent_blocks-eq s limit {k = suc k} h =
    let r = ring_of s in
    let start : s.head ≡ place r k = head-place h (omega arith) ∙ ap (place r) (omega arith) in
    let fuel : k ≤ length s.blocks = omega (arith, h.count) in
    ap reverse (
      ap (recent_loop (length s.blocks) s.blocks s.tail limit []) start
      ∙ recent_loop_lem h limit (length s.blocks) k [] (omega arith) fuel
      ∙ ap (λ m. take m (filter is_alive (downto r k))) (omega arith))
