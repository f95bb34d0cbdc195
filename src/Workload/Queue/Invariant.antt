-- ===== src/Workload/Queue/Invariant.antt =====
-- What holds of a `BoundedWorkQueue` between two calls, whatever the calls are.
use crypto_arc_v.Prelude.{
  ℕ, ◌+◌, ◌≤◌, ◌<◌, ◌≡◌, refl, inl, inr, String, false, none, some, List, [], ◌∷◌, ◌++◌, str_eq,
  eq_iff, eq_refl, arith, length, count, contains, All, subst, discard, Option-cases, length-append,
  contains-eq_false, count-discard, All-append,
}
use crypto_arc_v.Prelude.Int.{ℤ}
use crypto_arc_v.Prelude.Dict.{
  keys, lookup, erase, lookup-eq_none, count-keys-pos, count-keys-insert, length-insert,
  count-keys-erase, length-erase, All-insert, All-erase, All-lookup,
}
use crypto_arc_v.Workload.Queue.{
  QueueJob, BoundedWorkQueue, new, enqueue, claim_from, claim, finish_job, finish, fail_job, fail,
}

module _ {P : Type 0} where
  abbrev pub ids : List (QueueJob P) → List String
  ids [] = []
  ids (j ∷ js) = j.identity ∷ ids js

  abbrev pub IsWaiting : ℕ → QueueJob P → Type 0
  IsWaiting limit j = j.attempts < limit

  abbrev pub IsRunning : ℕ → String × QueueJob P → Type 0
  IsRunning limit e = (1 ≤ e.1.attempts) × (e.1.attempts ≤ limit) × (e.0 ≡ e.1.identity)

  abbrev pub IsSpent : ℕ → QueueJob P → Type 0
  IsSpent limit j = j.attempts ≡ limit

  -- How often an identity stands in the three places together.
  abbrev pub places : BoundedWorkQueue P → String → ℕ
  places q a = count a (ids q.queued) + count a (keys q.claimed) + count a (ids q.dead)

  pub record IsValid (q : BoundedWorkQueue P) : Type 0 where
    pub limit_pos : 1 ≤ q.retry_limit
    pub capacity : length q.queued + length q.claimed ≤ q.max_items
    pub accounted : (a : String) → places q a ≡ count a q.identities
    pub distinct : (a : String) → count a q.identities ≤ 1
    pub named : count "" q.identities ≡ 0
    pub waiting : All (IsWaiting q.retry_limit) q.queued
    pub running : All (IsRunning q.retry_limit) q.claimed
    pub spent : All (IsSpent q.retry_limit) q.dead

  ids-append :
      (a : String) (xs ys : List (QueueJob P))
      → count a (ids (xs ++ ys)) ≡ count a (ids xs) + count a (ids ys)
  ids-append a [] ys = omega arith
  ids-append a (x ∷ xs) ys = omega (arith, ids-append a xs ys)

  pub new-IsValid : (m r : ℤ) → IsValid (new m r)
  unfolding new
  new-IsValid m r = record {
    limit_pos = omega arith;
    capacity = omega arith;
    accounted = λ a. refl;
    distinct = λ a. omega arith;
    named = refl;
    waiting = tt;
    running = tt;
    spent = tt;
  }

  abbrev fresh_job : String → P → QueueJob P
  fresh_job identity payload = record { identity = identity; payload = payload; attempts = 0 }

  -- An accepted job: `a` is a new identity and there is room.
  added-IsValid :
      (k : String) (p : P) (q : BoundedWorkQueue P)
      → str_eq k "" ≡ false
      → contains k q.identities ≡ false
      → length q.queued + length q.claimed < q.max_items
      → IsValid q
      → IsValid
          (record q { queued = q.queued ++ (fresh_job k p ∷ []); identities = k ∷ q.identities })
  added-IsValid k p q named new room v = record {
    limit_pos = v.limit_pos;
    capacity = omega (arith, length-append q.queued (fresh_job k p ∷ []));
    accounted = λ a. ground (arith, v.accounted a, ids-append a q.queued (fresh_job k p ∷ []));
    distinct = λ a. ground (arith, v.distinct a, contains-eq_false k q.identities new, eq_iff k a);
    named = ground (arith, v.named);
    waiting = All-append (IsWaiting q.retry_limit) q.queued _ v.waiting (v.limit_pos, tt);
    running = v.running;
    spent = v.spent;
  }

  pub enqueue-IsValid :
      (k : String) (p : P) (q : BoundedWorkQueue P) → IsValid q → IsValid (enqueue k p q).0
  unfolding enqueue
  enqueue-IsValid k p q v = ground (arith, added-IsValid k p q)

  -- A job that waits is in no other place.
  pub claimed_free :
      (j : QueueJob P) (rest : List (QueueJob P)) (q : BoundedWorkQueue P)
      → q.queued ≡ j ∷ rest
      → IsValid q
      → lookup j.identity q.claimed ≡ none
  claimed_free j rest q e v =
      lookup-eq_none j.identity q.claimed
        (ground (arith, v.accounted j.identity, v.distinct j.identity, eq_refl j.identity))

  claim_from-IsValid :
      (js : List (QueueJob P)) (q : BoundedWorkQueue P)
      → q.queued ≡ js
      → IsValid q
      → IsValid (claim_from js q).0
  unfolding claim_from
  claim_from-IsValid [] q e v = v
  claim_from-IsValid (j ∷ rest) q e v =
      let job : QueueJob P = record j { attempts = j.attempts + 1 } in
      let free = claimed_free j rest q e v in
      let wait : All (IsWaiting q.retry_limit) (j ∷ rest) = subst (All (IsWaiting _)) e v.waiting in
      record {
        limit_pos = v.limit_pos;
        capacity = ground (arith, v.capacity, length-insert j.identity job q.claimed free);
        accounted =
            λ a. ground (arith, v.accounted a, count-keys-insert j.identity job q.claimed a free);
        distinct = v.distinct;
        named = v.named;
        waiting = wait.1;
        running =
            All-insert (IsRunning q.retry_limit) j.identity job q.claimed free
              (omega arith, omega (arith, wait.0), refl) v.running;
        spent = v.spent;
      }

  pub claim-IsValid : (q : BoundedWorkQueue P) → IsValid q → IsValid (claim q).0
  unfolding claim
  claim-IsValid q v = claim_from-IsValid q.queued q refl v

  -- A claimed job leaves the dict.
  finished-IsValid :
      (k : String) (j : QueueJob P) (q : BoundedWorkQueue P)
      → lookup k q.claimed ≡ some j
      → IsValid q
      → IsValid (record q { claimed = erase k q.claimed; identities = discard k q.identities })
  finished-IsValid k j q e v = record {
    limit_pos = v.limit_pos;
    capacity = omega (arith, v.capacity, length-erase k j q.claimed e);
    accounted = λ a. ground (
      arith,
      v.accounted a,
      v.distinct a,
      v.accounted k,
      v.distinct k,
      count-keys-erase k j q.claimed a e,
      count-keys-pos k j q.claimed e,
      count-discard k a q.identities,
      eq_iff k a,
    );
    distinct = λ a. ground (arith, v.distinct a, count-discard k a q.identities);
    named = ground (arith, v.named, count-discard k "" q.identities);
    waiting = v.waiting;
    running = All-erase (IsRunning q.retry_limit) k q.claimed v.running;
    spent = v.spent;
  }

  pub finish-IsValid : (k : String) (q : BoundedWorkQueue P) → IsValid q → IsValid (finish k q).0
  unfolding finish
  finish-IsValid k q v = elim (Option-cases (lookup k q.claimed)) [
    | inl e ↦ rw (e, finish_job) v
    | inr (j, e) ↦ rw (e, finish_job) (finished-IsValid k j q e v)
  ]

  module _ (k : String) (j : QueueJob P) (q : BoundedWorkQueue P) (e : lookup k q.claimed ≡ some j)
      (v : IsValid q) where
    run : IsRunning q.retry_limit (k, j)
    run = All-lookup (IsRunning q.retry_limit) k j q.claimed e v.running

    -- Out of attempts: the job is kept among the dead letters, and its identity with it.
    buried-IsValid :
        q.retry_limit ≤ j.attempts
        → IsValid (record q { claimed = erase k q.claimed; dead = q.dead ++ (j ∷ []) })
    buried-IsValid h = record {
      limit_pos = v.limit_pos;
      capacity = omega (arith, v.capacity, length-erase k j q.claimed e);
      accounted = λ a. ground (
        arith,
        v.accounted a,
        run,
        ids-append a q.dead (j ∷ []),
        count-keys-erase k j q.claimed a e,
      );
      distinct = v.distinct;
      named = v.named;
      waiting = v.waiting;
      running = All-erase (IsRunning q.retry_limit) k q.claimed v.running;
      spent = All-append (IsSpent q.retry_limit) q.dead _ v.spent (omega (arith, run.1), tt);
    }

    -- Otherwise it goes back to the front.
    requeued-IsValid :
        j.attempts < q.retry_limit
        → IsValid (record q { claimed = erase k q.claimed; queued = j ∷ q.queued })
    requeued-IsValid h = record {
      limit_pos = v.limit_pos;
      capacity = omega (arith, v.capacity, length-erase k j q.claimed e);
      accounted = λ a. ground (arith, v.accounted a, run, count-keys-erase k j q.claimed a e);
      distinct = v.distinct;
      named = v.named;
      waiting = (h, v.waiting);
      running = All-erase (IsRunning q.retry_limit) k q.claimed v.running;
      spent = v.spent;
    }

    failed-IsValid : (error : String) → IsValid (fail k error q).0
    unfolding fail
    failed-IsValid error = rw (e, fail_job) (ground (arith, buried-IsValid, requeued-IsValid))

  pub fail-IsValid :
      (k error : String) (q : BoundedWorkQueue P) → IsValid q → IsValid (fail k error q).0
  fail-IsValid k error q v = elim (Option-cases (lookup k q.claimed)) [
    | inl e ↦ stale k error q e v
    | inr (j, e) ↦ failed-IsValid k j q e v error
  ]
    where
      stale :
          (k error : String) (q : BoundedWorkQueue P)
          → lookup k q.claimed ≡ none
          → IsValid q
          → IsValid (fail k error q).0
      stale k error q e v = unfold fail in (rw (e, fail_job) v)
