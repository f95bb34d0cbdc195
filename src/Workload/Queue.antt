-- ===== src/Workload/Queue.antt =====
-- `QueueJob` and `BoundedWorkQueue` of backend/app/core/workload_governor.py. A method returns the new
-- state and its result; the lock makes each call one step. `_claimed` is a dict and `_identities` a
-- set; the payload is any type, since the queue only carries it.
pub mod Invariant
pub mod Retry
pub mod Calls
pub mod Phases
use crypto_arc_v.Prelude.{
  ℕ, suc, ◌+◌, max, String, Bool, true, false, ◌||◌, Option, none, some, List, [], ◌∷◌, ◌++◌,
  if◌then◌else◌, leb, is_empty, length, contains, discard,
}
use crypto_arc_v.Prelude.Int.{ℤ, pos_part}
use crypto_arc_v.Prelude.Dict.{Dict, lookup, insert, erase}

pub record QueueJob (P : Type 0) : Type 0 where
  pub identity : String
  pub payload : P
  pub attempts : ℕ

pub record BoundedWorkQueue (P : Type 0) : Type 0 where
  pub max_items : ℕ
  pub retry_limit : ℕ
  pub queued : List (QueueJob P)
  pub claimed : Dict (QueueJob P)
  pub dead : List (QueueJob P)
  pub identities : List String

module _ {P : Type 0} where
  -- `__init__`; both limits are raised to one.
  unfoldable pub new : ℤ → ℤ → BoundedWorkQueue P
  new max_items retry_limit = record {
    max_items = max 1 (pos_part max_items);
    retry_limit = max 1 (pos_part retry_limit);
    queued = [];
    claimed = [];
    dead = [];
    identities = [];
  }

  unfoldable pub enqueue : String → P → BoundedWorkQueue P → BoundedWorkQueue P × Bool
  enqueue identity payload q =
      if is_empty identity
        || contains identity q.identities
        || leb q.max_items (length q.queued + length q.claimed)
      then (q, false)
      else (
        record q {
          queued =
              q.queued ++ (record { identity = identity; payload = payload; attempts = 0 } ∷ []);
          identities = identity ∷ q.identities;
        },
        true,
      )

  -- `popleft`, counted as an attempt and entered in `_claimed`
  claim_from : List (QueueJob P) → BoundedWorkQueue P → BoundedWorkQueue P × Option (QueueJob P)
  claim_from [] q = (q, none)
  claim_from (first ∷ rest) q =
      let job : QueueJob P = record first { attempts = first.attempts + 1 } in
      (record q { queued = rest; claimed = insert job.identity job q.claimed }, some job)

  unfoldable pub claim : BoundedWorkQueue P → BoundedWorkQueue P × Option (QueueJob P)
  unfolding claim_from
  claim q = claim_from q.queued q

  finish_job : String → Option (QueueJob P) → BoundedWorkQueue P → BoundedWorkQueue P × Bool
  finish_job identity none q = (q, false)
  finish_job identity (some job) q = (
    record q { claimed = erase identity q.claimed; identities = discard identity q.identities },
    true,
  )

  unfoldable pub finish : String → BoundedWorkQueue P → BoundedWorkQueue P × Bool
  unfolding finish_job
  finish identity q = finish_job identity (lookup identity q.claimed) q

  fail_job : String → Option (QueueJob P) → BoundedWorkQueue P → BoundedWorkQueue P × String
  fail_job identity none q = (q, "stale_claim")
  fail_job identity (some job) q =
      if leb q.retry_limit job.attempts
      then (
        record q { claimed = erase identity q.claimed; dead = q.dead ++ (job ∷ []) },
        "dead_letter",
      )
      else (record q { claimed = erase identity q.claimed; queued = job ∷ q.queued }, "queued")

  -- The text of the error is dropped by the method.
  unfoldable pub fail : String → String → BoundedWorkQueue P → BoundedWorkQueue P × String
  unfolding fail_job
  fail identity error q = fail_job identity (lookup identity q.claimed) q

  unfoldable pub dead_letter_count : BoundedWorkQueue P → ℕ
  dead_letter_count q = length q.dead
