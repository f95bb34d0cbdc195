-- ===== src/Examples/Queue.antt =====
-- A queue of two places and two attempts (backend/app/core/workload_governor.py).
use crypto_arc_v.Prelude.{
  ℕ, ◌+◌, ◌-◌, ◌<◌, ◌≡◌, ◌≢◌, ◌↔◌, refl, String, true, List, [], ◌∷◌, ◌++◌, length,
}
use crypto_arc_v.Prelude.Int.{pos}
use crypto_arc_v.Workload.Queue.{QueueJob, BoundedWorkQueue, new, enqueue}
use crypto_arc_v.Workload.Queue.Invariant.{IsValid, places}
use crypto_arc_v.Workload.Queue.Calls.{
  Call, enqueue_call, claim_call, fail_call, run, new-run-IsValid, enqueue_iff,
}
use crypto_arc_v.Workload.Queue.Phases.{absent, phases, trace, Moves}
use crypto_arc_v.Workload.Queue.Phases.Refinement.{new-run-Moves}
use crypto_arc_v.Workload.Queue.Retry.{attempts_of, attempts_of_exhausted}

abbrev calls : List (Call ℕ)
calls = enqueue_call "a" 1 ∷ enqueue_call "b" 2 ∷ claim_call ∷ []

-- "b" waits and "a" is claimed.
abbrev busy : BoundedWorkQueue ℕ
busy = run calls (new (pos 2) (pos 2))

busy-IsValid : IsValid busy
busy-IsValid = new-run-IsValid (pos 2) (pos 2) calls

new-run-IsValid_example :
    IsValid (run (fail_call "a" "late" ∷ claim_call ∷ calls) (new {P = ℕ} (pos 2) (pos 2)))
new-run-IsValid_example =
    new-run-IsValid (pos 2) (pos 2) (fail_call "a" "late" ∷ claim_call ∷ calls)

enqueue_iff_example : ((enqueue "c" 3 busy).1 ≡ true) ↔ (
    (◌≢◌ {A = String} "c" "")
    × (places busy "c" ≡ 0)
    × (length busy.queued + length busy.claimed < busy.max_items))
enqueue_iff_example = enqueue_iff "c" 3 busy busy-IsValid

abbrev waiting : BoundedWorkQueue ℕ
waiting = run (enqueue_call "a" 1 ∷ enqueue_call "b" 2 ∷ []) (new (pos 2) (pos 2))

abbrev job_a : QueueJob ℕ
job_a = record { identity = "a"; payload = 1; attempts = 0 }

abbrev job_b : QueueJob ℕ
job_b = record { identity = "b"; payload = 2; attempts = 0 }

waiting-queued : waiting.queued ≡ job_a ∷ job_b ∷ []
unfolding run new enqueue
waiting-queued = refl

attempts_of_exhausted_example :
    attempts_of (waiting.retry_limit - 0) "lost" waiting ≡ record waiting {
      queued = job_b ∷ [];
      dead = waiting.dead ++ (record job_a { attempts = waiting.retry_limit } ∷ []);
    }
attempts_of_exhausted_example =
    attempts_of_exhausted "lost" job_a (job_b ∷ []) waiting
      (new-run-IsValid (pos 2) (pos 2) (enqueue_call "a" 1 ∷ enqueue_call "b" 2 ∷ []))
      waiting-queued

new-run-Moves_example :
    Moves
      (new {P = ℕ} (pos 2) (pos 2)).retry_limit
      (phases (run (fail_call "a" "late" ∷ claim_call ∷ calls) (new {P = ℕ} (pos 2) (pos 2))))
      (trace (fail_call "a" "late" ∷ claim_call ∷ calls) (new {P = ℕ} (pos 2) (pos 2)))
      (λ a. absent)
new-run-Moves_example = new-run-Moves (pos 2) (pos 2) (fail_call "a" "late" ∷ claim_call ∷ calls)
