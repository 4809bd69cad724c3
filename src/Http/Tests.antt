-- ===== src/Http/Tests.antt =====
-- `HttpBlocks` (src/storage/write.rs) at concrete answers and calls.
use alpamayo.Prelude.{ℕ, ltb, if◌then◌else◌, List, [], ◌∷◌, arith}
use alpamayo.Http.Fetch.{Answer, block, failed, Ended, fetch_task, fetch_task-Ended}
use alpamayo.Http.Requests
use alpamayo.Http.Requests.{HttpBlocks, Call, ask, end, answered, Single, new, run, run-Single}

-- The third call is answered.
abbrev answers : ℕ → Answer ℕ ℕ
answers n = if ltb n 2 then failed n else block 7

fetch_task-Ended_example : Ended answers 4 0 100 (fetch_task answers 4 100)
fetch_task-Ended_example = fetch_task-Ended answers 4 100

abbrev calls : List Call
calls = ask 5 ∷ ask 6 ∷ ask 5 ∷ end 5 Requests.failed ∷ end 6 answered ∷ ask 5 ∷ ask 6 ∷ []

run-Single_example : Single 5 (run calls (new 2))
run-Single_example = run-Single calls 5 (new 2) (omega arith, omega arith)
