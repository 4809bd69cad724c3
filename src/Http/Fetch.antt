-- ===== src/Http/Fetch.antt =====
-- The task of `HttpBlocks::fetch` (src/storage/write.rs). The answers of `get_block` are a function of the
-- number of the call, `B` is a block and `X` another error.
use alpamayo.Prelude.{
  sym, ℕ, zero, suc, ◌+◌, ◌-◌, ◌*◌, ◌≤◌, ◌<◌, ◌≡◌, refl, ap, ◌∙◌, Option, none, some, List, [], ◌∷◌,
  arith, length, Result, ok, err,
}

pub data Answer (B X : Type 0) : Type 0 where
  block : B → Answer B X
  slot_skipped send_error : Answer B X
  failed : X → Answer B X

pub data FetchError (X : Type 0) : Type 0 where
  not_sent : FetchError X
  given_up : X → FetchError X

-- The result, the number of calls, and the waits between them.
pub record Fetched (B X : Type 0) : Type 0 where
  pub result : Result (FetchError X) (Option B)
  pub calls : ℕ
  pub waits : List ℕ

-- Waits that double, from the given one on.
abbrev pub Doubling : ℕ → List ℕ → Type 0
Doubling wait [] = Unit
Doubling wait (w ∷ ws) = (w ≡ wait) × Doubling (wait * 2) ws

module _ {B X : Type 0} where
  -- The result of an answer at which the loop ends.
  abbrev pub result_of : Answer B X → Result (FetchError X) (Option B)
  result_of (block b) = ok (some b)
  result_of slot_skipped = ok none
  result_of send_error = err not_sent
  result_of (failed x) = err (given_up x)

  abbrev pub stop : Answer B X → Fetched B X
  stop a = record { result = result_of a; calls = 1; waits = [] }

  -- A failed call with retries left is followed by a wait and the rest of the loop.
  abbrev pub go_on : Answer B X → ℕ → Fetched B X → Fetched B X
  go_on (failed x) wait rest = record {
    result = rest.result;
    calls = suc rest.calls;
    waits = wait ∷ rest.waits;
  }
  go_on (block b) wait rest = stop (block b)
  go_on slot_skipped wait rest = stop slot_skipped
  go_on send_error wait rest = stop send_error

  -- The loop, from the given call on, with the retries left and the next wait.
  unfoldable pub fetch_loop : (ℕ → Answer B X) → ℕ → ℕ → ℕ → Fetched B X
  fetch_loop get_block zero call wait = stop (get_block call)
  fetch_loop get_block (suc retries) call wait =
      go_on (get_block call) wait (fetch_loop get_block retries (suc call) (wait * 2))

  unfoldable pub fetch_task : (ℕ → Answer B X) → (max_retries backoff_init : ℕ) → Fetched B X
  unfolding fetch_loop
  fetch_task get_block max_retries backoff_init = fetch_loop get_block max_retries 0 backoff_init

  abbrev pub Failed : Answer B X → Type 0
  Failed (failed x) = Unit
  Failed (block b) = ⊥
  Failed slot_skipped = ⊥
  Failed send_error = ⊥

  -- What a loop does that starts at the given call: the call that gives the result is the last one, those
  -- before it failed, and it failed itself only if no retry was left.
  pub record Ended (get_block : ℕ → Answer B X) (retries call wait : ℕ) (f : Fetched B X)
      : Type 0 where
    pub some_call : 0 < f.calls
    pub bounded : f.calls ≤ suc retries
    pub result_is : f.result ≡ result_of (get_block (call + (f.calls - 1)))
    pub before : (i : ℕ) → suc i < f.calls → Failed (get_block (call + i))
    pub gave_up : Failed (get_block (call + (f.calls - 1))) → f.calls ≡ suc retries
    pub one_less : suc (length f.waits) ≡ f.calls
    pub doubling : Doubling wait f.waits

  module _ (get_block : ℕ → Answer B X) where
    at_call : (call : ℕ) → get_block (call + 0) ≡ get_block call
    at_call call = ap get_block (omega arith)

    stop-Ended :
        (retries call wait : ℕ) (a : Answer B X)
        → get_block call ≡ a
        → (Failed a → retries ≡ 0)
        → Ended get_block retries call wait (stop a)
    stop-Ended retries call wait a e h =
        let here : get_block (call + 0) ≡ a = at_call call ∙ e in
        record {
          some_call = omega arith;
          bounded = omega arith;
          result_is = ap result_of (sym here);
          before = λ i l. absurd (omega arith);
          gave_up = λ q. let fail = h (rw here at q) in omega arith;
          one_less = refl;
          doubling = tt;
        }

    go_on-Ended :
        (retries call wait : ℕ) (rest : Fetched B X) (a : Answer B X)
        → get_block call ≡ a
        → Ended get_block retries (suc call) (wait * 2) rest
        → Ended get_block (suc retries) call wait (go_on a wait rest)
    go_on-Ended retries call wait rest (failed x) e h =
        let last : call + (suc rest.calls - 1) ≡ suc call + (rest.calls - 1) =
          omega (arith, h.some_call) in
        record {
          some_call = omega arith;
          bounded = omega (arith, h.bounded);
          result_is = h.result_is ∙ ap (λ n. result_of (get_block n)) (sym last);
          before = earlier;
          gave_up = λ q. ap suc (h.gave_up (rw last at q));
          one_less = ap suc h.one_less;
          doubling = (refl, h.doubling);
        }
      where
        earlier : (i : ℕ) → suc i < suc rest.calls → Failed (get_block (call + i))
        earlier zero l = rw (at_call call, e) tt
        earlier (suc i) l =
            let shifted : call + suc i ≡ suc call + i = omega arith in
            rw shifted (h.before i (omega arith))
    go_on-Ended retries call wait rest (block b) e h =
        stop-Ended (suc retries) call wait (block b) e (λ q. absurd q)
    go_on-Ended retries call wait rest slot_skipped e h =
        stop-Ended (suc retries) call wait slot_skipped e (λ q. absurd q)
    go_on-Ended retries call wait rest send_error e h =
        stop-Ended (suc retries) call wait send_error e (λ q. absurd q)

    fetch_loop-Ended :
        (retries call wait : ℕ)
        → Ended get_block retries call wait (fetch_loop get_block retries call wait)
    unfolding fetch_loop
    fetch_loop-Ended zero call wait = stop-Ended zero call wait (get_block call) refl (λ q. refl)
    fetch_loop-Ended (suc retries) call wait =
        go_on-Ended retries call wait (fetch_loop get_block retries (suc call) (wait * 2))
          (get_block call) refl (fetch_loop-Ended retries (suc call) (wait * 2))

    -- Whatever the server answers, the task ends after at most one call more than the retries. Its
    -- result is that of its last call, every call before it failed, and it failed itself only if no
    -- retry was left. Between two calls it waits, first as long as given, then each time twice as long.
    pub fetch_task-Ended :
        (max_retries backoff_init : ℕ)
        → Ended get_block max_retries 0 backoff_init (fetch_task get_block max_retries backoff_init)
    unfolding fetch_task
    fetch_task-Ended max_retries backoff_init = fetch_loop-Ended max_retries 0 backoff_init
