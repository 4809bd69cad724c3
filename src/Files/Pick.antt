-- ===== src/Files/Pick.antt =====
-- src/storage/files.rs: the round robin of `get_file_index_for_new_block`.
use alpamayo.Prelude.{
  ℕ, zero, suc, ◌+◌, ◌%◌, ◌<◌, ◌≡◌, refl, ap, ◌∙◌, ◌⊎◌, inl, inr, ◌≢◌, Option, none, some, true,
  false, List, arith, ◌==◌, length, Bool-cases,
}
use native.Mathlib.Decide.{ℕ_discrete, dec_lt}
use alpamayo.Prelude.Cyclic.{cyc, mod-cases, cyc-cases, cyc-lt}
use alpamayo.Files.File.{
  StorageFile, StorageFilesWrite, accepts, file_at, pick_loop, get_file_index_for_new_block,
}

-- The `i`-th file from `start` on, going round.
abbrev pub file_after : List StorageFile → ℕ → ℕ → StorageFile
file_after files start i = file_at files (cyc (length files) start i)

-- The first `n` files from `start` on have no room.
abbrev pub NoneAccepts : ℕ → List StorageFile → ℕ → ℕ → Type 0
NoneAccepts size files start n = (i : ℕ) → i < n → accepts size (file_after files start i) ≡ false

-- The `i`-th file from `start` on was found, the first with room; the next search starts after it.
pub record FoundAt (size : ℕ) (files : List StorageFile) (start next i : ℕ) (found : Option ℕ)
    : Type 0 where
  pub in_range : i < length files
  pub is_found : found ≡ some (cyc (length files) start i)
  pub has_room : accepts size (file_after files start i) ≡ true
  pub next_is : next ≡ cyc (length files) start (i + 1)
  pub first : NoneAccepts size files start i

-- Otherwise no file has room, and the next search starts where this one did.
abbrev pub FirstFrom : ℕ → List StorageFile → ℕ → ℕ × Option ℕ → Type 0
FirstFrom size files start r =
    ((i : ℕ) × FoundAt size files start r.0 i r.1)
    ⊎ ((r.1 ≡ none) × (r.0 ≡ start) × NoneAccepts size files start (length files))

following-cyc : (n t k : ℕ) → t < n → k < n → (cyc n t k + 1) % n ≡ cyc n t (k + 1)
following-cyc n t k ht hk = omega (
  arith,
  cyc-cases n t k ht (omega arith),
  cyc-cases n t (k + 1) ht (omega arith),
  mod-cases n (cyc n t k + 1) (omega (arith, cyc-lt n t k ht (omega arith))),
)

none-snoc :
    (size : ℕ) (files : List StorageFile) (t k : ℕ)
    → NoneAccepts size files t k
    → accepts size (file_after files t k) ≡ false
    → NoneAccepts size files t (k + 1)
none-snoc size files t k h e i l = elim (dec_lt i k) [
  | yes p ↦ h i p
  | no p ↦ ap (λ j. accepts size (file_after files t j)) {x = i} {y = k} (omega arith) ∙ e
]

eq_test : {a b : ℕ} → a ≡ b → (a == b) ≡ true
eq_test h = ground (arith, h)

ne_test : {a b : ℕ} → a ≢ b → (a == b) ≡ false
ne_test h = ground (arith, h)

round_done : (n t k : ℕ) → t < n → k < n → cyc n t (k + 1) ≡ t → n ≡ k + 1
round_done n t k ht hk q = omega (arith, cyc-cases n t (k + 1) ht (omega arith))

round_more : (n t k : ℕ) → t < n → k < n → cyc n t (k + 1) ≢ t → k + 1 < n
round_more n t k ht hk q = omega (arith, cyc-cases n t (k + 1) ht (omega arith))

module _ (size : ℕ) (files : List StorageFile) (t : ℕ) (ht : t < length files) where
  -- One round of the loop.
  pick_loop-step :
      (fuel k : ℕ)
      → k + suc fuel ≡ length files
      → NoneAccepts size files t k
      → (k + 1 < length files
          → NoneAccepts size files t (k + 1)
          → FirstFrom size files t (pick_loop fuel files size t (cyc (length files) t (k + 1))))
      → FirstFrom size files t (pick_loop (suc fuel) files size t (cyc (length files) t k))
  unfolding pick_loop
  pick_loop-step fuel k e h rest = elim (Bool-cases (accepts size (file_after files t k))) [
    | inl p ↦
        rw (p, following-cyc (length files) t k ht (omega arith))
          (inl (
            k,
            record {
              in_range = omega arith;
              is_found = refl;
              has_room = p;
              next_is = refl;
              first = h;
            },
          ))
    | inr p ↦
        rw (p, following-cyc (length files) t k ht (omega arith))
          (elim (ℕ_discrete (cyc (length files) t (k + 1)) t) [
            | yes q ↦ rw (eq_test q) (
                inr (
                  refl,
                  q,
                  λ i l.
                      none-snoc size files t k h p i
                        (omega (arith, round_done _ t k ht (omega arith) q)),
                ))
            | no q ↦
                rw (ne_test q)
                  (rest (round_more _ t k ht (omega arith) q) (none-snoc size files t k h p))
          ])
  ]

  pub pick_loop-first :
      (fuel k : ℕ)
      → k + suc fuel ≡ length files
      → NoneAccepts size files t k
      → FirstFrom size files t (pick_loop (suc fuel) files size t (cyc (length files) t k))
  pick_loop-first zero k e h = pick_loop-step 0 k e h (λ l. absurd (omega arith))
  pick_loop-first (suc fuel) k e h =
      pick_loop-step (suc fuel) k e h (λ l h'. pick_loop-first fuel (k + 1) (omega arith) h')

cyc_zero : (n t : ℕ) → t < n → cyc n t 0 ≡ t
cyc_zero n t h = omega (arith, cyc-cases n t 0 h (omega arith))

pick_loop-start :
    (size n t : ℕ) (files : List StorageFile)
    → t < length files
    → n ≡ length files
    → FirstFrom size files t (pick_loop n files size t t)
pick_loop-start size zero t files h e = absurd (omega arith)
pick_loop-start size (suc fuel) t files h e =
    let started =
      pick_loop-first size files t h fuel 0 (omega arith) (λ i l. absurd (omega arith)) in
    rw (cyc_zero (length files) t h) at started

-- With `next_file` the index of a file, `get_file_index_for_new_block` returns the first file with
-- `new_blocks` set and enough free space, counted from `next_file` on and going round, and makes
-- the file after it the next; it returns `none` only if none of the files qualifies, and then
-- `next_file` stays. The files do not change.
pub get_file_index_for_new_block-FirstFrom :
    (size : ℕ) (w : StorageFilesWrite)
    → w.next_file < length w.files
    → FirstFrom size w.files w.next_file
        ((get_file_index_for_new_block size w).0.next_file, (get_file_index_for_new_block size w).1)
      × ((get_file_index_for_new_block size w).0.files ≡ w.files)
unfolding get_file_index_for_new_block
get_file_index_for_new_block-FirstFrom size w h =
    (pick_loop-start size (length w.files) w.next_file w.files h refl, refl)
