-- ===== src/Workload/Queue/Phases.antt =====
-- The life of one identity in a `BoundedWorkQueue`: an abstract queue that forgets the order and the payloads.
pub mod Refinement
use crypto_arc_v.Prelude.{
  ℕ, suc, ◌+◌, ◌≤◌, ◌<◌, ◌≡◌, ◌≢◌, refl, sym, ap, ◌∙◌, inl, inr, String, Bool, true, false, ◌||◌,
  Option, none, some, List, [], ◌∷◌, ◌++◌, if◌then◌else◌, leb, str_eq, eq_iff, eq_refl, arith,
  length, count, contains, Option-cases, Bool-cases, contains-eq_true, contains-eq_false,
  contains_of_count, is_empty, All, subst, discard,
}
use crypto_arc_v.Prelude.Int.{ℤ}
use crypto_arc_v.Prelude.Dict.{
  Dict, keys, lookup, insert, erase, lookup-eq_none, lookup-insert, count-keys-pos,
  count-keys-erase, All-lookup,
}
use crypto_arc_v.Workload.Queue.{
  QueueJob, BoundedWorkQueue, new, enqueue, claim_from, claim, finish_job, finish, fail_job, fail,
}
use crypto_arc_v.Workload.Queue.Invariant.{
  ids, IsValid, IsRunning, IsWaiting, places, claimed_free, new-IsValid,
}
use crypto_arc_v.Workload.Queue.Calls.{
  Call, enqueue_call, claim_call, finish_call, fail_call, step, run, step-IsValid,
}

pub data Phase : Type 0 where
  absent dead_letter : Phase
  -- with the attempts so far
  waiting running : ℕ → Phase

abbrev pub Phases : Type 0
Phases = String → Phase

-- One identity changes, and no other.
abbrev pub IsUpdate : String → Phase → Phases → Phases → Type 0
IsUpdate k phase s next = (a : String) → next a ≡ (if str_eq a k then phase else s a)

abbrev pub IsSame : Phases → Phases → Type 0
IsSame s next = (a : String) → next a ≡ s a

abbrev pub IsIdle : Phases → Type 0
IsIdle s = (a : String) (n : ℕ) → s a ≢ waiting n

abbrev pub IsUnclaimed : String → Phases → Type 0
IsUnclaimed k s = (n : ℕ) → s k ≢ running n

-- What a call answers.
pub data Outcome (P : Type 0) : Type 0 where
  enqueued finished : Bool → Outcome P
  claimed : Option (QueueJob P) → Outcome P
  failed : String → Outcome P

module _ {P : Type 0} where
  unfoldable pub outcome : Call P → BoundedWorkQueue P → Outcome P
  outcome (enqueue_call k p) q = enqueued (enqueue k p q).1
  outcome claim_call q = claimed (claim q).1
  outcome (finish_call k) q = finished (finish k q).1
  outcome (fail_call k error) q = failed (fail k error q).1

  -- The calls with their answers.
  unfoldable pub trace : List (Call P) → BoundedWorkQueue P → List (Call P × Outcome P)
  trace [] q = []
  trace (c ∷ cs) q = (c, outcome c q) ∷ trace cs (step c q)

  -- What each call with each answer does to an abstract queue whose jobs have `limit` attempts.
  pub data Move (limit : ℕ) (s next : Phases) : Call P → Outcome P → Type 0 where
    accept :
        (k : String) (p : P)
        → s k ≡ absent
        → IsUpdate k (waiting 0) s next
        → Move limit s next (enqueue_call k p) (enqueued true)
    refuse :
        (k : String) (p : P) → IsSame s next → Move limit s next (enqueue_call k p) (enqueued false)
    take :
        (job : QueueJob P) (n : ℕ)
        → s job.identity ≡ waiting n
        → n < limit
        → job.attempts ≡ n + 1
        → IsUpdate job.identity (running (n + 1)) s next
        → Move limit s next claim_call (claimed (some job))
    rest : IsIdle s → IsSame s next → Move limit s next claim_call (claimed none)
    retire :
        (k : String) (n : ℕ)
        → s k ≡ running n
        → IsUpdate k absent s next
        → Move limit s next (finish_call k) (finished true)
    miss :
        (k : String)
        → IsUnclaimed k s
        → IsSame s next
        → Move limit s next (finish_call k) (finished false)
    retry :
        (k error : String) (n : ℕ)
        → s k ≡ running n
        → n < limit
        → IsUpdate k (waiting n) s next
        → Move limit s next (fail_call k error) (failed "queued")
    bury :
        (k error : String)
        → s k ≡ running limit
        → IsUpdate k dead_letter s next
        → Move limit s next (fail_call k error) (failed "dead_letter")
    stale :
        (k error : String)
        → IsUnclaimed k s
        → IsSame s next
        → Move limit s next (fail_call k error) (failed "stale_claim")

  -- A run of the abstract queue, call by call.
  pub data Moves (limit : ℕ) (last : Phases) : List (Call P × Outcome P) → Phases → Type 0 where
    done : Moves limit last [] last
    first :
        {s mid : Phases} {c : Call P} {o : Outcome P} {cs : List (Call P × Outcome P)}
        → Move limit s mid c o
        → Moves limit last cs mid
        → Moves limit last ((c, o) ∷ cs) s

pub other_way : (a k : String) → str_eq a k ≡ false → str_eq k a ≡ false
other_way a k h = ground (arith, h, eq_iff a k, eq_iff k a)

pub contains_none : (k : String) (xs : List String) → count k xs ≡ 0 → contains k xs ≡ false
contains_none k [] h = refl
contains_none k (x ∷ xs) h = ground (arith, h, contains_none k xs)

module _ {P : Type 0} where
  unfoldable pub find_job : String → List (QueueJob P) → Option (QueueJob P)
  find_job k [] = none
  find_job k (j ∷ js) = if str_eq j.identity k then some j else find_job k js

  unfoldable pub phase_of : Option (QueueJob P) → Option (QueueJob P) → Bool → Phase
  phase_of (some j) _ _ = waiting j.attempts
  phase_of none (some j) _ = running j.attempts
  phase_of none none true = dead_letter
  phase_of none none false = absent

  -- The abstract queue of a queue.
  unfoldable pub phases : BoundedWorkQueue P → Phases
  unfolding find_job phase_of
  phases q k = phase_of (find_job k q.queued) (lookup k q.claimed) (contains k (ids q.dead))

  pub phase_of-IsIdle :
      (claimed : Option (QueueJob P)) (dead : Bool) (n : ℕ) → phase_of none claimed dead ≢ waiting n
  unfolding phase_of
  phase_of-IsIdle (some j) dead n e = absurd (cc)
  phase_of-IsIdle none true n e = absurd (cc)
  phase_of-IsIdle none false n e = absurd (cc)

  pub phase_of-IsUnclaimed :
      (queued : Option (QueueJob P)) (dead : Bool) (n : ℕ) → phase_of queued none dead ≢ running n
  unfolding phase_of
  phase_of-IsUnclaimed (some j) dead n e = absurd (cc)
  phase_of-IsUnclaimed none true n e = absurd (cc)
  phase_of-IsUnclaimed none false n e = absurd (cc)

  pub find_job-none :
      (k : String) (js : List (QueueJob P)) → count k (ids js) ≡ 0 → find_job k js ≡ none
  unfolding find_job
  find_job-none k [] h = refl
  find_job-none k (j ∷ js) h = ground (arith, find_job-none k js, h)

  pub find_job-append :
      (k : String) (js : List (QueueJob P)) (j : QueueJob P)
      → count k (ids js) ≡ 0
      → find_job k (js ++ (j ∷ [])) ≡ (if str_eq j.identity k then some j else none)
  unfolding find_job
  find_job-append k [] j h = refl
  find_job-append k (i ∷ js) j h = ground (arith, find_job-append k js j, h)

  pub find_job-append_other :
      (k : String) (js : List (QueueJob P)) (j : QueueJob P)
      → str_eq j.identity k ≡ false
      → find_job k (js ++ (j ∷ [])) ≡ find_job k js
  unfolding find_job
  find_job-append_other k [] j h = rw h refl
  find_job-append_other k (i ∷ js) j h = ground (arith, find_job-append_other k js j h)

  pub contains-ids-append :
      (k : String) (js : List (QueueJob P)) (j : QueueJob P)
      → contains k (ids (js ++ (j ∷ []))) ≡ (str_eq j.identity k || contains k (ids js))
  contains-ids-append k [] j = refl
  contains-ids-append k (i ∷ js) j = ground (arith, contains-ids-append k js j)

module _ {V : Type 0} where
  pub lookup-erase : (k : String) (d : Dict V) → count k (keys d) ≤ 1 → lookup k (erase k d) ≡ none
  unfolding lookup erase
  lookup-erase k [] h = refl
  lookup-erase k ((j, v) ∷ d) h = elim (Bool-cases (str_eq j k)) [
    | inl e ↦ rw e (lookup-eq_none k d (ground (arith, h, e)))
    | inr e ↦ rw (e, e) (lookup-erase k d (ground (arith, h, e)))
  ]

  pub lookup-erase_other :
      (k a : String) (d : Dict V) → str_eq a k ≡ false → lookup a (erase k d) ≡ lookup a d
  unfolding lookup erase
  lookup-erase_other k a [] h = refl
  lookup-erase_other k a ((j, v) ∷ d) h =
      ground (arith, h, lookup-erase_other k a d h, eq_iff j k, eq_iff j a, eq_iff a k)

module _ {P : Type 0} where
  -- A valid queue keeps an identity in one place.
  pub waiting_phase :
      (k : String) (j : QueueJob P) (q : BoundedWorkQueue P)
      → find_job k q.queued ≡ some j
      → phases q k ≡ waiting j.attempts
  unfolding phases
  waiting_phase k j q h = rw h refl

  pub running_phase :
      (k : String) (j : QueueJob P) (q : BoundedWorkQueue P)
      → IsValid q
      → lookup k q.claimed ≡ some j
      → (phases q k ≡ running j.attempts)
        × (count k (ids q.queued) ≡ 0)
        × (count k (ids q.dead) ≡ 0)
        × (count k (keys q.claimed) ≤ 1)
  unfolding phases phase_of
  running_phase k j q v h =
      let one = count-keys-pos k j q.claimed h in
      let none_queued : count k (ids q.queued) ≡ 0 =
        ground (arith, one, v.accounted k, v.distinct k) in
      (
        rw (find_job-none k q.queued none_queued, h) refl,
        none_queued,
        ground (arith, one, v.accounted k, v.distinct k),
        ground (arith, one, v.accounted k, v.distinct k),
      )

  pub phases-eq :
      (q : BoundedWorkQueue P) (a : String) {x y : Option (QueueJob P)} {b : Bool}
      → find_job a q.queued ≡ x
      → lookup a q.claimed ≡ y
      → contains a (ids q.dead) ≡ b
      → phases q a ≡ phase_of x y b
  unfolding phases
  phases-eq q a {x} {y} {b} f l c = rw (f, l, c) refl

  pub phases-same :
      (q next : BoundedWorkQueue P) (a : String)
      → find_job a next.queued ≡ find_job a q.queued
      → lookup a next.claimed ≡ lookup a q.claimed
      → contains a (ids next.dead) ≡ contains a (ids q.dead)
      → phases next a ≡ phases q a
  phases-same q next a f l c = phases-eq next a f l c ∙ sym (phases-eq q a refl refl refl)

  pub updated :
      (k : String) (phase : Phase) (q next : BoundedWorkQueue P)
      → phases next k ≡ phase
      → ((a : String) → str_eq a k ≡ false → phases next a ≡ phases q a)
      → IsUpdate k phase (phases q) (phases next)
  updated k phase q next here there a = elim (Bool-cases (str_eq a k)) [
    | inl e ↦ rw e (ap (phases next) ((eq_iff a k).0 e) ∙ here)
    | inr e ↦ rw e (there a e)
  ]
