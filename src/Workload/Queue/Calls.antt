-- ===== src/Workload/Queue/Calls.antt =====
-- Sequences of calls of a `BoundedWorkQueue`, and when `enqueue` accepts a job.
use crypto_arc_v.Prelude.{
  ◌+◌, ◌<◌, ◌≡◌, ◌↔◌, ◌≢◌, inl, inr, String, true, List, [], ◌∷◌, eq_iff, arith, false≢true, refl,
  length, count, Option-cases, contains-eq_false, contains-eq_true, count-discard,
}
use crypto_arc_v.Prelude.Int.{ℤ}
use crypto_arc_v.Prelude.Dict.{lookup, length-erase}
use crypto_arc_v.Workload.Queue.{BoundedWorkQueue, new, enqueue, claim, finish_job, finish, fail}
use crypto_arc_v.Workload.Queue.Invariant.{
  IsValid, places, new-IsValid, enqueue-IsValid, claim-IsValid, finish-IsValid, fail-IsValid,
}

pub data Call (P : Type 0) : Type 0 where
  enqueue_call : String → P → Call P
  claim_call : Call P
  finish_call : String → Call P
  fail_call : String → String → Call P

module _ {P : Type 0} where
  unfoldable pub step : Call P → BoundedWorkQueue P → BoundedWorkQueue P
  step (enqueue_call k p) q = (enqueue k p q).0
  step claim_call q = (claim q).0
  step (finish_call k) q = (finish k q).0
  step (fail_call k e) q = (fail k e q).0

  unfoldable pub run : List (Call P) → BoundedWorkQueue P → BoundedWorkQueue P
  unfolding step
  run [] q = q
  run (c ∷ cs) q = run cs (step c q)

  pub step-IsValid : (c : Call P) (q : BoundedWorkQueue P) → IsValid q → IsValid (step c q)
  unfolding step
  step-IsValid (enqueue_call k p) q v = enqueue-IsValid k p q v
  step-IsValid claim_call q v = claim-IsValid q v
  step-IsValid (finish_call k) q v = finish-IsValid k q v
  step-IsValid (fail_call k e) q v = fail-IsValid k e q v

  pub run-IsValid : (cs : List (Call P)) (q : BoundedWorkQueue P) → IsValid q → IsValid (run cs q)
  unfolding run
  run-IsValid [] q v = v
  run-IsValid (c ∷ cs) q v = run-IsValid cs (step c q) (step-IsValid c q v)

  -- After any calls of a new queue, whatever its limits: waiting and claimed jobs together are at
  -- most `max_items`; every known identity stands in exactly one of the three places, once; the
  -- empty text is no identity; a waiting job has attempts left, a claimed one has been tried at
  -- least once and at most `retry_limit` times and stands under its own identity, and a dead one
  -- has used up exactly `retry_limit` attempts.
  pub new-run-IsValid :
      (max_items retry_limit : ℤ) (cs : List (Call P))
      → IsValid (run cs (new max_items retry_limit))
  new-run-IsValid m r cs = run-IsValid cs (new m r) (new-IsValid m r)

  -- In a valid queue `enqueue` accepts a job exactly when its identity is not empty, stands in none
  -- of the three places (a dead letter still blocks its identity), and there is room.
  pub enqueue_iff :
      (k : String) (p : P) (q : BoundedWorkQueue P)
      → IsValid q
      → ((enqueue k p q).1 ≡ true)
        ↔ ((k ≢ "") × (places q k ≡ 0) × (length q.queued + length q.claimed < q.max_items))
  unfolding enqueue
  enqueue_iff k p q v = (
    λ h. ground (arith, eq_iff k "", contains-eq_false k q.identities, v.accounted k),
    λ h. ground (arith, eq_iff k "", contains-eq_true k q.identities, v.accounted k),
  )

  finish_frees :
      (k : String) (q : BoundedWorkQueue P)
      → (finish k q).1 ≡ true
      → let q' = (finish k q).0 in
        (count k q'.identities ≡ 0)
        × (length q'.queued + length q'.claimed + 1 ≡ length q.queued + length q.claimed)
        × (q'.max_items ≡ q.max_items)
  unfolding finish
  finish_frees k q h = elim (Option-cases (lookup k q.claimed)) [
    | inl e ↦ absurd (false≢true (rw (e, finish_job) at h))
    | inr (j, e) ↦
        rw (e, finish_job)
          (
            ground (arith, count-discard k k q.identities, eq_iff k k),
            omega (arith, length-erase k j q.claimed e),
            refl,
          )
  ]

  -- An identity that `finish` has retired is accepted again: the queue of a finished job always has
  -- room for it.
  pub enqueue-finish :
      (k : String) (p : P) (q : BoundedWorkQueue P)
      → IsValid q
      → k ≢ ""
      → (finish k q).1 ≡ true
      → (enqueue k p (finish k q).0).1 ≡ true
  enqueue-finish k p q v named h =
      let v' = finish-IsValid k q v in
      let f = finish_frees k q h in
      (enqueue_iff k p (finish k q).0 v').1
        (named, omega (arith, v'.accounted k, f.0), omega (arith, v.capacity, f.1, f.2))
