-- ===== src/Http/Requests.antt =====
-- `HttpBlocks` (src/storage/write.rs): the slots that are asked for. A task is its slot, and the set
-- `inprogress` a list.
use alpamayo.Prelude.{
  ap, ==_iff, ℕ, ◌+◌, ◌-◌, ◌≤◌, ◌≡◌, Bool, List, [], ◌∷◌, arith, ltb, leb, ◌==◌, if◌then◌else◌,
  length, Bool-cases, inl, inr,
}

pub record HttpBlocks : Type 0 where
  pub concurrency : ℕ
  pub inprogress : List ℕ
  pub requests : List ℕ

abbrev pub count : ℕ → List ℕ → ℕ
count slot [] = 0
count slot (s ∷ slots) = (if s == slot then 1 else 0) + count slot slots

unfoldable pub discard : ℕ → List ℕ → List ℕ
discard slot [] = []
discard slot (s ∷ slots) = let rest = discard slot slots in if s == slot then rest else s ∷ rest

-- A finished task leaves `FuturesUnordered`.
unfoldable pub take_out : ℕ → List ℕ → List ℕ
take_out slot [] = []
take_out slot (s ∷ slots) = let rest = take_out slot slots in if s == slot then slots else s ∷ rest

-- `HttpBlocks::new`.
abbrev pub new : ℕ → HttpBlocks
new concurrency = record { concurrency = concurrency; inprogress = []; requests = [] }

unfoldable pub is_full : HttpBlocks → Bool
is_full h = leb h.concurrency (length h.requests)

unfoldable pub fetch : ℕ → HttpBlocks → HttpBlocks
fetch slot h =
    if ltb 0 (count slot h.inprogress)
    then h
    else record h { inprogress = slot ∷ h.inprogress; requests = slot ∷ h.requests }

-- How a task ends: with an answer, or with an error.
pub data Outcome : Type 0 where
  answered failed : Outcome

-- `poll_next`, when the task of a slot has ended. After an error its slot stays in progress.
unfoldable pub poll_next : ℕ → Outcome → HttpBlocks → HttpBlocks
unfolding discard take_out
poll_next slot answered h = record h {
  inprogress = discard slot h.inprogress;
  requests = take_out slot h.requests;
}
poll_next slot failed h = record h { requests = take_out slot h.requests }

pub data Call : Type 0 where
  ask : ℕ → Call
  end : ℕ → Outcome → Call

unfoldable pub run : List Call → HttpBlocks → HttpBlocks
unfolding fetch poll_next
run [] h = h
run (ask slot ∷ calls) h = run calls (fetch slot h)
run (end slot outcome ∷ calls) h = run calls (poll_next slot outcome h)

-- No slot is asked for twice at once, and each slot asked for is in progress.
abbrev pub Single : ℕ → HttpBlocks → Type 0
Single slot h = (count slot h.requests ≤ count slot h.inprogress) × (count slot h.inprogress ≤ 1)

count-discard :
    (k slot : ℕ) (l : List ℕ) → count k (discard slot l) ≡ (if slot == k then 0 else count k l)
unfolding discard
count-discard k slot [] = ground arith
count-discard k slot (s ∷ l) = ground (arith, count-discard k slot l)

count-take_out :
    (k slot : ℕ) (l : List ℕ)
    → count k (take_out slot l) ≡ (if slot == k then count k l - 1 else count k l)
unfolding take_out
count-take_out k slot [] = ground arith
count-take_out k slot (s ∷ l) = ground (arith, count-take_out k slot l)

fetch-Single : (k slot : ℕ) (h : HttpBlocks) → Single k h → Single k (fetch slot h)
unfolding fetch
fetch-Single k slot h (a, b) = elim (Bool-cases (ltb 0 (count slot h.inprogress))) [
  | inl e ↦ rw (fetch, e) (a, b)
  | inr e ↦
      rw (fetch, e)
        (elim (Bool-cases (slot == k)) [
          | inr q ↦ rw q (omega arith, omega arith)
          | inl q ↦
              let same : count slot h.inprogress ≡ count k h.inprogress =
                ap (λ j. count j h.inprogress) ((==_iff slot k).0 q) in
              let free : count slot h.inprogress ≡ 0 = ground arith in
              rw q (omega arith, omega arith)
        ])
]

poll_next-Single :
    (k slot : ℕ) (outcome : Outcome) (h : HttpBlocks)
    → Single k h
    → Single k (poll_next slot outcome h)
unfolding poll_next
poll_next-Single k slot answered h (a, b) =
    rw (count-discard k slot h.inprogress, count-take_out k slot h.requests)
      (elim (Bool-cases (slot == k)) [
        | inl q ↦ rw q (omega arith, omega arith)
        | inr q ↦ rw q (a, b)
      ])
poll_next-Single k slot failed h (a, b) =
    rw (count-take_out k slot h.requests)
      (elim (Bool-cases (slot == k)) [ inl q ↦ rw q (omega arith, b) | inr q ↦ rw q (a, b) ])

-- From a state in which each slot is asked for at most once at a time, and only while it is in progress,
-- this holds after any calls of fetch and any ends of tasks, with answers or with errors.
pub run-Single : (calls : List Call) (k : ℕ) (h : HttpBlocks) → Single k h → Single k (run calls h)
unfolding run
run-Single [] k h v = v
run-Single (ask slot ∷ calls) k h v = run-Single calls k (fetch slot h) (fetch-Single k slot h v)
run-Single (end slot outcome ∷ calls) k h v =
    run-Single calls k (poll_next slot outcome h) (poll_next-Single k slot outcome h v)
