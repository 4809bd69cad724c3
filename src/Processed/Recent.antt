-- ===== src/Processed/Recent.antt =====
-- src/storage/read.rs: the window of recent blocks after `set_confirmed`.
use alpamayo.Prelude.{
  ℕ, ◌-◌, ◌≤◌, ◌<◌, ◌≡◌, refl, sym, ap, ◌∙◌, Option, none, some, List, [], ◌∷◌, ◌++◌, arith,
  unwrap_or, Bool-cases, Option-cases, inl, inr,
}
use mathlib.Core.Option
use alpamayo.Prelude.TreeMap.{get, prune}
use alpamayo.Processed.State.{
  Block, RecentBlock, StorageProcessed, add_signatures, remove_signatures, last_block,
  update_processed, drop_old, set_confirmed, is_old,
}

-- No height is below the given one; the heights rise with the slots.
abbrev pub AtLeast : ℕ → List (ℕ × RecentBlock) → Type 0
AtLeast height [] = Unit
AtLeast height ((slot, b) ∷ m) = (height ≤ b.block_height) × AtLeast height m

abbrev pub Rising : List (ℕ × RecentBlock) → Type 0
Rising [] = Unit
Rising ((slot, b) ∷ m) = AtLeast b.block_height m × Rising m

-- Less than `limit` below the given height, and at least that.
abbrev pub Fresh : ℕ → ℕ → List (ℕ × RecentBlock) → Type 0
Fresh limit height [] = Unit
Fresh limit height ((slot, b) ∷ m) = (height - b.block_height < limit) × Fresh limit height m

abbrev pub Outdated : ℕ → ℕ → List (ℕ × RecentBlock) → Type 0
Outdated limit height [] = Unit
Outdated limit height ((slot, b) ∷ m) = (limit ≤ height - b.block_height) × Outdated limit height m

AtLeast-Fresh :
    (limit height low : ℕ) (m : List (ℕ × RecentBlock))
    → height - low < limit
    → AtLeast low m
    → Fresh limit height m
AtLeast-Fresh limit height low [] h a = tt
AtLeast-Fresh limit height low ((slot, b) ∷ m) h a =
    (omega arith, AtLeast-Fresh limit height low m h a.1)

module _ {E : Type 0} where
  -- What `drop_old` makes of the recent blocks of a list: the ones at the front go while they are old.
  pub drop_old-Fresh :
      (limit : ℕ) (m : List (ℕ × RecentBlock)) (s : StorageProcessed E)
      → Rising m
      → let t = drop_old limit m s in
        (t.confirmed_height ≡ s.confirmed_height)
        × Fresh limit s.confirmed_height t.recent_blocks
        × ((gone : List (ℕ × RecentBlock)) × (m ≡ gone ++ t.recent_blocks)
            × Outdated limit s.confirmed_height gone)
  unfolding drop_old remove_signatures
  drop_old-Fresh limit [] s r = (refl, tt, ([], refl, tt))
  drop_old-Fresh limit ((slot, b) ∷ m) s r = elim (Bool-cases (is_old limit s.confirmed_height b)) [
    | inl e ↦
        let (height, fresh, (gone, split, old)) =
          drop_old-Fresh limit m (remove_signatures b s) r.1 in
        rw (drop_old, e)
          (height, fresh, ((slot, b) ∷ gone, ap (λ l. (slot, b) ∷ l) split, (ground arith, old)))
    | inr e ↦
        let near : s.confirmed_height - b.block_height < limit = ground arith in
        rw (drop_old, e)
          (
            refl,
            (near, AtLeast-Fresh limit s.confirmed_height b.block_height m near r.0),
            ([], refl, tt),
          )
  ]

  update-recent :
      (s : StorageProcessed E)
      → ((update_processed s).recent_blocks ≡ s.recent_blocks)
        × ((update_processed s).confirmed_height ≡ s.confirmed_height)
  unfolding update_processed
  update-recent s = elim (Option-cases (last_block s.blocks)) [
    | inl q ↦ rw (update_processed, q) (refl, refl)
    | inr (p, q) ↦ rw (update_processed, q) (refl, refl)
  ]

  abbrev pub added : ℕ → Option (Block E) → StorageProcessed E → StorageProcessed E
  added slot none s = s
  added slot (some b) s = add_signatures slot b s

  confirmed-Fresh :
      (limit slot : ℕ) (s : StorageProcessed E)
      → Rising s.recent_blocks
      → let height =
          unwrap_or
            (Option.map (λ (b : RecentBlock). b.block_height) (get slot s.recent_blocks))
            s.confirmed_height in
        let u = update_processed (record s {
          confirmed_slot = slot;
          confirmed_height = height;
          blocks = prune slot s.blocks;
        }) in
        let t = drop_old limit u.recent_blocks u in
        (t.confirmed_height ≡ height)
        × Fresh limit t.confirmed_height t.recent_blocks
        × ((gone : List (ℕ × RecentBlock)) × (s.recent_blocks ≡ gone ++ t.recent_blocks)
            × Outdated limit t.confirmed_height gone)
  confirmed-Fresh limit slot s r =
      let height =
        unwrap_or (Option.map (λ (b : RecentBlock). b.block_height) (get slot s.recent_blocks))
          s.confirmed_height in
      let w : StorageProcessed E = record s {
        confirmed_slot = slot;
        confirmed_height = height;
        blocks = prune slot s.blocks;
      } in
      let u = update_processed w in
      let same = update-recent w in
      let rising : Rising u.recent_blocks = rw same.0 r in
      let (kept, fresh, (gone, split, old)) = drop_old-Fresh limit u.recent_blocks u rising in
      (kept ∙ same.1, rw kept fresh, (gone, sym same.0 ∙ split, rw kept old))

  -- If the heights of the recent blocks rise with their slots, then after a slot is confirmed, with its
  -- block if it comes with the message, the recent blocks are those less than `limit` below the confirmed
  -- height, every one dropped was at least that, and the confirmed height is that of the recent block of
  -- the slot, if there is one, and else the old one.
  pub set_confirmed-Fresh :
      (limit slot : ℕ) (block : Option (Block E)) (s : StorageProcessed E)
      → Rising (added slot block s).recent_blocks
      → let t = set_confirmed limit slot block s in
        let u = added slot block s in
        (t.confirmed_height
          ≡ unwrap_or
              (Option.map (λ (b : RecentBlock). b.block_height) (get slot u.recent_blocks))
              u.confirmed_height)
        × Fresh limit t.confirmed_height t.recent_blocks
        × ((gone : List (ℕ × RecentBlock)) × (u.recent_blocks ≡ gone ++ t.recent_blocks)
            × Outdated limit t.confirmed_height gone)
  unfolding set_confirmed
  set_confirmed-Fresh limit slot none s r = confirmed-Fresh limit slot s r
  set_confirmed-Fresh limit slot (some b) s r =
      confirmed-Fresh limit slot (add_signatures slot b s) r
