-- ===== src/Workload/Queue/Phases/Refinement.antt =====
-- `BoundedWorkQueue` implements the abstract queue.
use crypto_arc_v.Prelude.{
  ◌+◌, ◌≤◌, ◌≡◌, refl, sym, ap, ◌∙◌, inl, inr, String, true, false, ◌||◌, Option, none, some, List,
  [], ◌∷◌, ◌++◌, if◌then◌else◌, leb, str_eq, eq_iff, eq_refl, arith, length, count, contains,
  Bool-cases, contains-eq_false, is_empty, All, subst, discard,
}
use crypto_arc_v.Prelude.Int.{ℤ}
use crypto_arc_v.Prelude.Dict.{
  keys, lookup, insert, erase, lookup-eq_none, lookup-insert, All-lookup,
}
use crypto_arc_v.Workload.Queue.{
  QueueJob, BoundedWorkQueue, new, enqueue, claim_from, claim, finish_job, finish, fail_job, fail,
}
use crypto_arc_v.Workload.Queue.Invariant.{
  ids, IsValid, IsRunning, IsWaiting, claimed_free, new-IsValid,
}
use crypto_arc_v.Workload.Queue.Calls.{
  Call, enqueue_call, claim_call, finish_call, fail_call, step, run, step-IsValid,
}
use crypto_arc_v.Workload.Queue.Phases.{
  absent, dead_letter, waiting, running, Move, accept, refuse, take, rest, retire, miss, retry,
  bury, stale, Moves, IsUnclaimed, enqueued, claimed, finished, failed, outcome, trace,
  phase_of-IsIdle, phase_of-IsUnclaimed, done, first, find_job, phase_of, phases, other_way,
  contains_none, find_job-none, find_job-append, find_job-append_other, contains-ids-append,
  lookup-erase, lookup-erase_other, waiting_phase, running_phase, phases-eq, phases-same, updated,
}

module _ {P : Type 0} where
  enqueue-Move :
      (k : String) (p : P) (q : BoundedWorkQueue P)
      → IsValid q
      → Move q.retry_limit
          (phases q)
          (phases (enqueue k p q).0)
          (enqueue_call k p)
          (enqueued (enqueue k p q).1)
  unfolding enqueue phase_of
  enqueue-Move k p q v =
      elim (Bool-cases (
        is_empty k
        || contains k q.identities
        || leb q.max_items (length q.queued + length q.claimed))) [
          | inl e ↦ rw e (refuse k p (λ a. refl))
          | inr e ↦
              let job : QueueJob P = record { identity = k; payload = p; attempts = 0 } in
              let next : BoundedWorkQueue P = record q {
                queued = q.queued ++ (job ∷ []);
                identities = k ∷ q.identities;
              } in
              let new_id : contains k q.identities ≡ false = ground (arith, e) in
              let zero_count : count k q.identities ≡ 0 = contains-eq_false k q.identities new_id in
              let free : count k (ids q.queued) ≡ 0 = omega (arith, zero_count, v.accounted k) in
              let unclaimed : lookup k q.claimed ≡ none =
                lookup-eq_none k q.claimed (omega (arith, zero_count, v.accounted k)) in
              let alive : contains k (ids q.dead) ≡ false =
                contains_none k (ids q.dead) (omega (arith, zero_count, v.accounted k)) in
              rw e (
                accept k p (phases-eq q k (find_job-none k q.queued free) unclaimed alive) (
                  updated k (waiting 0) q next
                    (waiting_phase k job next (
                      find_job-append k q.queued job free
                      ∙ ap (λ b. if b then some job else none) (eq_refl k)))
                    (λ a o.
                      phases-same q next a (find_job-append_other a q.queued job (other_way a k o))
                        refl refl)))
        ]

  claim_from-Move :
      (js : List (QueueJob P)) (q : BoundedWorkQueue P)
      → q.queued ≡ js
      → IsValid q
      → Move q.retry_limit
          (phases q)
          (phases (claim_from js q).0)
          claim_call
          (claimed (claim_from js q).1)
  unfolding claim_from phase_of find_job
  claim_from-Move [] q e v =
      rest
        (λ a n h.
          phase_of-IsIdle (lookup a q.claimed) (contains a (ids q.dead)) n
            (sym (phases-eq q a (ap (find_job a) e) refl refl) ∙ h))
        (λ a. refl)
  claim_from-Move (j ∷ js) q e v =
      let job : QueueJob P = record j { attempts = j.attempts + 1 } in
      let next : BoundedWorkQueue P = record q {
        queued = js;
        claimed = insert j.identity job q.claimed;
      } in
      let free = claimed_free j js q e v in
      let wait : All (IsWaiting q.retry_limit) (j ∷ js) = subst (All (IsWaiting _)) e v.waiting in
      let placed : count j.identity (ids (j ∷ js))
            + count j.identity (keys q.claimed)
            + count j.identity (ids q.dead)
          ≤ 1 =
        subst
          (λ xs.
            count j.identity (ids xs)
              + count j.identity (keys q.claimed)
              + count j.identity (ids q.dead)
            ≤ 1)
          e (omega (arith, v.accounted j.identity, v.distinct j.identity)) in
      let self = eq_refl j.identity in
      let gone : count j.identity (ids js) ≡ 0 = ground (arith, placed, self) in
      let alive : contains j.identity (ids q.dead) ≡ false =
        contains_none j.identity (ids q.dead) (ground (arith, placed, self)) in
      take job j.attempts (waiting_phase j.identity j q (rw e (rw self refl))) wait.0 refl (
        updated j.identity (running (j.attempts + 1)) q next
          (phases-eq next j.identity (find_job-none j.identity js gone)
            (lookup-insert j.identity j.identity job q.claimed
              ∙ ap (λ b. if b then some job else lookup j.identity q.claimed) self)
            alive)
          (λ a o.
            let other = other_way a j.identity o in
            phases-same q next a (sym (ap (find_job a) e ∙ rw other refl))
              (lookup-insert j.identity a job q.claimed ∙ rw other refl) refl))

  claim-Move :
      (q : BoundedWorkQueue P)
      → IsValid q
      → Move q.retry_limit (phases q) (phases (claim q).0) claim_call (claimed (claim q).1)
  unfolding claim
  claim-Move q v = claim_from-Move q.queued q refl v

  phases-IsUnclaimed :
      (k : String) (q : BoundedWorkQueue P) → lookup k q.claimed ≡ none → IsUnclaimed k (phases q)
  phases-IsUnclaimed k q h n e =
      phase_of-IsUnclaimed (find_job k q.queued) (contains k (ids q.dead)) n
        (sym (phases-eq q k refl h refl) ∙ e)

  finish_job-Move :
      (k : String) (found : Option (QueueJob P)) (q : BoundedWorkQueue P)
      → lookup k q.claimed ≡ found
      → IsValid q
      → Move {P = P} q.retry_limit
          (phases q)
          (phases (finish_job k found q).0)
          (finish_call k)
          (finished (finish_job k found q).1)
  unfolding finish_job phase_of
  finish_job-Move k none q h v = miss k (phases-IsUnclaimed k q h) (λ a. refl)
  finish_job-Move k (some j) q h v =
      let (phase, free, alive, once) = running_phase k j q v h in
      let next : BoundedWorkQueue P = record q {
        claimed = erase k q.claimed;
        identities = discard k q.identities;
      } in
      retire k j.attempts phase (
        updated k absent q next
          (phases-eq next k (find_job-none k q.queued free) (lookup-erase k q.claimed once)
            (contains_none k (ids q.dead) alive))
          (λ a o. phases-same q next a refl (lookup-erase_other k a q.claimed o) refl))

  fail_job-Move :
      (k error : String) (found : Option (QueueJob P)) (q : BoundedWorkQueue P)
      → lookup k q.claimed ≡ found
      → IsValid q
      → Move {P = P} q.retry_limit
          (phases q)
          (phases (fail_job k found q).0)
          (fail_call k error)
          (failed (fail_job k found q).1)
  unfolding fail_job phase_of find_job
  fail_job-Move k error none q h v = stale k error (phases-IsUnclaimed k q h) (λ a. refl)
  fail_job-Move k error (some j) q h v =
      let (phase, free, alive, once) = running_phase k j q v h in
      let at = All-lookup (IsRunning q.retry_limit) k j q.claimed h v.running in
      let (_, bounded, named) = at in
      let self : str_eq j.identity k ≡ true = (eq_iff j.identity k).1 (sym named) in
      let other : (a : String) → str_eq a k ≡ false → str_eq j.identity a ≡ false =
        λ a o. ap (λ x. str_eq x a) (sym named) ∙ other_way a k o in
      elim (Bool-cases (leb q.retry_limit j.attempts)) [
        | inl e ↦
            let next : BoundedWorkQueue P = record q {
              claimed = erase k q.claimed;
              dead = q.dead ++ (j ∷ []);
            } in
            let spent : j.attempts ≡ q.retry_limit = ground (arith, e, bounded) in
            rw e (
              bury k error (phase ∙ ap running spent) (
                updated k dead_letter q next
                  (phases-eq next k (find_job-none k q.queued free) (lookup-erase k q.claimed once)
                    (contains-ids-append k q.dead j ∙ ap (λ b. b || contains k (ids q.dead)) self))
                  (λ a o.
                    phases-same q next a refl (lookup-erase_other k a q.claimed o)
                      (contains-ids-append a q.dead j ∙ rw (other a o) refl))))
        | inr e ↦
            let next : BoundedWorkQueue P = record q {
              claimed = erase k q.claimed;
              queued = j ∷ q.queued;
            } in
            rw e (
              retry k error j.attempts phase (ground (arith, e)) (
                updated k (waiting j.attempts) q next (waiting_phase k j next (rw self refl))
                  (λ a o.
                    phases-same q next a (rw (other a o) refl) (lookup-erase_other k a q.claimed o)
                      refl)))
      ]

  step-Move :
      (c : Call P) (q : BoundedWorkQueue P)
      → IsValid q
      → Move q.retry_limit (phases q) (phases (step c q)) c (outcome c q)
  unfolding step outcome finish fail
  step-Move (enqueue_call k p) q v = enqueue-Move k p q v
  step-Move claim_call q v = claim-Move q v
  step-Move (finish_call k) q v = finish_job-Move k (lookup k q.claimed) q refl v
  step-Move (fail_call k error) q v = fail_job-Move k error (lookup k q.claimed) q refl v

  step-retry_limit : (c : Call P) (q : BoundedWorkQueue P) → (step c q).retry_limit ≡ q.retry_limit
  unfolding step enqueue claim claim_from finish finish_job fail fail_job
  step-retry_limit (enqueue_call k p) q = ground arith
  step-retry_limit claim_call q = from q.queued
    where
      from : (js : List (QueueJob P)) → (claim_from js q).0.retry_limit ≡ q.retry_limit
      from [] = refl
      from (j ∷ js) = refl
  step-retry_limit (finish_call k) q = ground arith
  step-retry_limit (fail_call k error) q = ground arith

  run-Moves :
      (cs : List (Call P)) (q : BoundedWorkQueue P)
      → IsValid q
      → Moves q.retry_limit (phases (run cs q)) (trace cs q) (phases q)
  unfolding run trace
  run-Moves [] q v = done
  run-Moves (c ∷ cs) q v = first (step-Move c q v) (
      subst
        (λ limit.
          Moves limit (phases (run cs (step c q))) (trace cs (step c q)) (phases (step c q)))
        (step-retry_limit c q) (run-Moves cs (step c q) (step-IsValid c q v)))

  -- The queue implements the abstract queue, call by call: any calls of a new queue, with their answers,
  -- are a run of the abstract queue from no jobs at all to the phases of the queue that is left. A job that
  -- is accepted was absent and waits with no attempts; `claim` answers a job that waited with attempts
  -- left, which runs with one more, and answers nothing only if no job waits; a job that is finished was
  -- running and is absent; one that failed was running and waits again with its attempts as they were if
  -- some are left, and is buried if none is, as the answer says; no other identity changes, and none does
  -- at a call that is refused.
  pub new-run-Moves :
      (max_items retry_limit : ℤ) (cs : List (Call P))
      → Moves
          (new {P = P} max_items retry_limit).retry_limit
          (phases (run cs (new max_items retry_limit)))
          (trace cs (new max_items retry_limit))
          (λ a. absent)
  unfolding new phases phase_of find_job lookup
  new-run-Moves m r cs = run-Moves cs (new m r) (new-IsValid m r)
