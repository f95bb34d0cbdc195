-- ===== src/Workload/Queue/Retry.antt =====
-- How often a job of the queue is tried: claiming and failing it again and again ends.
use crypto_arc_v.Prelude.{
  ℕ, zero, suc, ◌+◌, ◌<◌, ◌≡◌, refl, String, Option, none, some, List, [], ◌∷◌, ◌++◌, eq_iff, arith,
  if◌then◌else◌, eq_refl, leb, ◌-◌, subst, All,
}
use crypto_arc_v.Prelude.Dict.{Dict, lookup, insert, erase, lookup-insert}
use crypto_arc_v.Workload.Queue.{QueueJob, BoundedWorkQueue, claim, fail}
use crypto_arc_v.Workload.Queue.Invariant.{IsValid, IsWaiting, claimed_free}

module _ {P : Type 0} where
  fail_first : Option (QueueJob P) → String → BoundedWorkQueue P → BoundedWorkQueue P
  fail_first none error q = q
  fail_first (some job) error q = (fail job.identity error q).0

  -- A worker takes the next job and fails at it.
  pub attempt : String → BoundedWorkQueue P → BoundedWorkQueue P
  attempt error q = let (q', job) = claim q in fail_first job error q'

  pub attempts_of : ℕ → String → BoundedWorkQueue P → BoundedWorkQueue P
  attempts_of zero error q = q
  attempts_of (suc n) error q = attempts_of n error (attempt error q)

  erase-insert :
      (k : String) (v : QueueJob P) (d : Dict (QueueJob P))
      → lookup k d ≡ none
      → erase k (insert k v d) ≡ d
  unfolding lookup insert erase
  erase-insert k v [] h = ground (arith, eq_iff k k)
  erase-insert k v ((j, w) ∷ d) h = ground (arith, erase-insert k v d, eq_iff j k)

  attempt_lem :
      (error : String) (j : QueueJob P) (rest : List (QueueJob P)) (q : BoundedWorkQueue P)
      → q.queued ≡ j ∷ rest
      → lookup j.identity q.claimed ≡ none
      → let j' : QueueJob P = record j { attempts = j.attempts + 1 } in
        attempt error q ≡ (
          if leb q.retry_limit (j.attempts + 1)
          then record q { queued = rest; dead = q.dead ++ (j' ∷ []) }
          else record q { queued = j' ∷ rest })
  unfolding attempt fail_first claim fail
  attempt_lem error j rest q e free =
      let job : QueueJob P = record j { attempts = j.attempts + 1 } in
      ground (
        arith,
        erase-insert j.identity job q.claimed free,
        lookup-insert j.identity j.identity job q.claimed,
        eq_refl j.identity,
      )

  attempts_of-dead :
      (n : ℕ) (error : String) (j : QueueJob P) (rest : List (QueueJob P)) (q : BoundedWorkQueue P)
      → q.queued ≡ j ∷ rest
      → lookup j.identity q.claimed ≡ none
      → j.attempts < q.retry_limit
      → j.attempts + n ≡ q.retry_limit
      → attempts_of n error q
        ≡ record q { queued = rest; dead = q.dead ++ (record j { attempts = q.retry_limit } ∷ []) }
  unfolding attempts_of
  attempts_of-dead zero error j rest q e free h k = absurd (omega arith)
  attempts_of-dead (suc zero) error j rest q e free h k =
      ground (arith, attempt_lem error j rest q e free)
  attempts_of-dead (suc (suc n)) error j rest q e free h k =
      let job : QueueJob P = record j { attempts = j.attempts + 1 } in
      let q' : BoundedWorkQueue P = record q { queued = job ∷ rest } in
      let first : attempt error q ≡ q' = ground (arith, attempt_lem error j rest q e free) in
      rw first (attempts_of-dead (suc n) error job rest q' refl free (omega arith) (omega arith))

  -- A job that is next in a valid queue and fails each time it is claimed is claimed exactly
  -- `retry_limit - attempts` times more: it then lies among the dead letters with `retry_limit`
  -- attempts, the jobs behind it have kept their order, and nothing else has changed.
  pub attempts_of_exhausted :
      (error : String) (j : QueueJob P) (rest : List (QueueJob P)) (q : BoundedWorkQueue P)
      → IsValid q
      → q.queued ≡ j ∷ rest
      → attempts_of (q.retry_limit - j.attempts) error q
        ≡ record q { queued = rest; dead = q.dead ++ (record j { attempts = q.retry_limit } ∷ []) }
  attempts_of_exhausted error j rest q v e =
      let wait : All (IsWaiting q.retry_limit) (j ∷ rest) = subst (All (IsWaiting _)) e v.waiting in
      attempts_of-dead (q.retry_limit - j.attempts) error j rest q e (claimed_free j rest q e v)
        wait.0 (omega (arith, wait.0))
