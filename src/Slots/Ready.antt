-- ===== src/Slots/Ready.antt =====
-- src/storage/slots.rs: the storage is ready when every reader has said so.
use alpamayo.Prelude.{
  ℕ, zero, suc, ◌≤◌, ◌<◌, ◌≡◌, refl, ap, Bool, true, false, ◌&&◌, List, [], ◌∷◌, arith, ◌==◌,
  length, get_or, set, replicate, length-set, length-replicate, sym, ◌∙◌,
}
use alpamayo.Slots.Stored.{StoredSlots}
use alpamayo.Slots.Readers.{SharedSlots, new, set_ready}

-- The shared part, and each clone's own flag.
pub record Clones : Type 0 where
  pub shared : SharedSlots
  pub flags : List Bool

-- The clone at `index` calls `set_ready`; an index past the end is no clone.
pub clone_ready : ℕ → Bool → Clones → Clones
clone_ready index ready c =
    let (shared, flag) = set_ready ready (get_or c.flags index true) c.shared in
    record { shared = shared; flags = set c.flags index flag }

pub run : Clones → List (ℕ × Bool) → Clones
run c [] = c
run c ((index, ready) ∷ calls) = run (clone_ready index ready c) calls

abbrev pub count_true : List Bool → ℕ
count_true [] = 0
count_true (true ∷ bs) = suc (count_true bs)
count_true (false ∷ bs) = count_true bs

count_true-le : (bs : List Bool) → count_true bs ≤ length bs
count_true-le [] = omega arith
count_true-le (true ∷ bs) = omega (arith, count_true-le bs)
count_true-le (false ∷ bs) = omega (arith, count_true-le bs)

count_true-set :
    (bs : List Bool) (i : ℕ)
    → get_or bs i true ≡ false
    → count_true (set bs i true) ≡ suc (count_true bs)
count_true-set [] i h = cc
count_true-set (true ∷ bs) zero h = cc
count_true-set (false ∷ bs) zero h = refl
count_true-set (true ∷ bs) (suc i) h = omega (arith, count_true-set bs i h)
count_true-set (false ∷ bs) (suc i) h = count_true-set bs i h

set-same : (bs : List Bool) (i : ℕ) → set bs i (get_or bs i true) ≡ bs
set-same [] i = refl
set-same (b ∷ bs) zero = refl
set-same (b ∷ bs) (suc i) = ap (λ l. b ∷ l) (set-same bs i)

record Counted (n : ℕ) (c : Clones) : Type 0 where
  clones : length c.flags ≡ n
  readers : c.shared.total_readers ≡ n
  count : c.shared.max_recent_blockhashes ≡ count_true c.flags
  raised : c.shared.stored_slots.max_recent_blockhashes ≡ (count_true c.flags == length c.flags)

clone_ready-Counted :
    (i : ℕ) (ready : Bool) {n : ℕ} (c : Clones) → Counted n c → Counted n (clone_ready i ready c)
unfolding clone_ready set_ready
clone_ready-Counted i ready c h = ground (
  arith,
  count_true-set c.flags i,
  set-same c.flags i,
  length-set c.flags i true,
  count_true-le (set c.flags i true),
)

run-Counted : (c : Clones) (calls : List (ℕ × Bool)) {n : ℕ} → Counted n c → Counted n (run c calls)
unfolding run
run-Counted c [] h = h
run-Counted c ((i, ready) ∷ calls) h =
    run-Counted (clone_ready i ready c) calls (clone_ready-Counted i ready c h)

count_true-replicate : (n : ℕ) → count_true (replicate n false) ≡ 0
count_true-replicate zero = refl
count_true-replicate (suc n) = count_true-replicate n

abbrev pub all_true : List Bool → Bool
all_true [] = true
all_true (b ∷ bs) = b && all_true bs

all_true-count : (bs : List Bool) → all_true bs ≡ (count_true bs == length bs)
all_true-count [] = refl
all_true-count (true ∷ bs) = ground (arith, all_true-count bs)
all_true-count (false ∷ bs) = ground (arith, count_true-le bs)

-- `n` clones of a new `StoredSlotsRead` (at least one) call `set_ready` in any order, as often as
-- they like, and with either argument. The count of ready clones is then the number of flags that
-- are set, it is at most `n`, and `StoredSlots::max_recent_blockhashes` is raised exactly when all
-- `n` flags are set.
pub run-ready :
    (stored : StoredSlots) (n : ℕ) (calls : List (ℕ × Bool))
    → stored.max_recent_blockhashes ≡ false
    → 0 < n
    → let c = run (record { shared = new stored n; flags = replicate n false }) calls in
      (c.shared.max_recent_blockhashes ≡ count_true c.flags)
      × (c.shared.max_recent_blockhashes ≤ n)
      × (c.shared.stored_slots.max_recent_blockhashes ≡ all_true c.flags)
unfolding new
run-ready stored n calls fresh pos =
    let start : Clones = record { shared = new stored n; flags = replicate n false } in
    let begun : Counted n start = record {
      clones = length-replicate n false;
      readers = refl;
      count = sym (count_true-replicate n);
      raised = ground (arith, count_true-replicate n, length-replicate n false);
    } in
    let h = run-Counted start calls begun in
    (
      h.count,
      omega (arith, count_true-le (run start calls).flags),
      h.raised ∙ sym (all_true-count (run start calls).flags),
    )
