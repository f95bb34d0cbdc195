-- ===== src/Workload/Governor.antt =====
-- `CriticalMetrics`, `PressureState` and `WorkloadGovernor` of backend/app/core/workload_governor.py.
-- A method returns the new state and its result; the times of the metrics are microseconds.
pub mod Hysteresis
pub mod Results
use crypto_arc_v.Prelude.{
  ℕ, suc, ◌+◌, ◌-◌, max, String, Bool, true, false, not, ◌||◌, ◌&&◌, List, [], ◌∷◌, ◌++◌, ◌==◌,
  if◌then◌else◌, leb, ltb, is_empty, is_nil, length, contains, drop, str_eq,
}
use crypto_arc_v.Prelude.Int.{ℤ, pos, pos_part, ltb_ℤ, leb_ℤ, ◌-ℤ◌}
use crypto_arc_v.Prelude.Checks.{failing}
use crypto_arc_v.Prelude.Text.{append, take_text}
use crypto_arc_v.Number.{Number}

pub record CriticalMetrics (F : Type 0) : Type 0 where
  pub observed_at : ℕ
  pub snapshot_version : ℤ
  pub queue_depth : ℤ
  pub db_lock_wait_p99_ms : F
  pub source_loss : Bool
  pub source_to_decision_p99_ms : F
  pub intent_to_quote_p99_ms : F
  pub memory_pct : F
  pub connections : ℤ
  pub focused : Bool
  pub connected : Bool

pub record PressureState : Type 0 where
  pub status : String
  pub disabled_tiers : List String
  pub failure_windows : ℕ
  pub recovery_windows : ℕ
  pub snapshot_version : ℤ
  pub reasons : List String
  pub worker_failures : List String

pub record WorkloadGovernor : Type 0 where
  pub consecutive_failures : ℕ
  pub required_recovery_windows : ℕ
  pub failures : ℕ
  pub recoveries : ℕ
  pub disabled : List String
  pub snapshot_version : ℤ
  pub results : List (ℤ × String)
  pub worker_failures : List String
  pub state : PressureState

abbrev pub shed_order : List String
shed_order = "model" ∷ "grading" ∷ "sentinel" ∷ "dashboard_analytics" ∷ []

abbrev pub core_tiers : List String
core_tiers = "ingestion" ∷ "risk" ∷ "kill_switch" ∷ "reconciliation" ∷ "protective_exit" ∷ []

-- `__init__`
unfoldable pub new : ℤ → ℤ → WorkloadGovernor
new consecutive_failures recovery_windows = record {
  consecutive_failures = max 1 (pos_part consecutive_failures);
  required_recovery_windows = max 1 (pos_part recovery_windows);
  failures = 0;
  recoveries = 0;
  disabled = [];
  snapshot_version = pos 0;
  results = [];
  worker_failures = [];
  state = record {
    status = "healthy";
    disabled_tiers = [];
    failure_windows = 0;
    recovery_windows = 0;
    snapshot_version = pos 0;
    reasons = [];
    worker_failures = [];
  };
}

module _ {F : Type 0} ⦃n : Number F⦄ where
  -- `_pressure_reasons`
  unfoldable pub pressure_reasons : CriticalMetrics F → List String
  unfolding failing
  pressure_reasons m = failing (
      (ltb_ℤ (pos 100) m.queue_depth, "queue_depth")
      ∷ (n.lt (n.lit 50 0) m.db_lock_wait_p99_ms, "db_lock_wait_p99")
      ∷ (m.source_loss, "source_loss")
      ∷ (n.lt (n.lit 1000 0) m.source_to_decision_p99_ms, "source_to_decision_p99")
      ∷ (n.lt (n.lit 1000 0) m.intent_to_quote_p99_ms, "intent_to_quote_p99")
      ∷ (n.lt (n.lit 85 0) m.memory_pct, "memory")
      ∷ (ltb_ℤ (pos 100) m.connections, "connections")
      ∷ [])

-- The counters of `observe` after a window with pressure, and after one without.
count_window : Bool → WorkloadGovernor → WorkloadGovernor
count_window true g = record g {
  failures = g.failures + 1;
  recoveries = 0;
  disabled = if leb g.consecutive_failures (g.failures + 1) then shed_order else g.disabled;
}
count_window false g =
    if is_nil g.disabled
    then record g { failures = 0 }
    else if leb g.required_recovery_windows (g.recoveries + 1)
    then record g { failures = 0; recoveries = 0; disabled = [] }
    else record g { failures = 0; recoveries = g.recoveries + 1 }

-- The `PressureState` that `observe` publishes.
publish : List String → WorkloadGovernor → WorkloadGovernor
publish reasons g = record g {
  state = record {
    status = if is_nil g.disabled then "healthy" else "degraded_observability";
    disabled_tiers = g.disabled;
    failure_windows = g.failures;
    recovery_windows = g.recoveries;
    snapshot_version = g.snapshot_version;
    reasons = reasons;
    worker_failures = g.worker_failures;
  };
}

-- `observe`; its result is the field `state` of the new governor.
module _ {F : Type 0} ⦃n : Number F⦄ where
  unfoldable pub observe : CriticalMetrics F → WorkloadGovernor → WorkloadGovernor
  unfolding count_window publish
  observe m g =
      let reasons = pressure_reasons m in
      if leb_ℤ m.snapshot_version g.snapshot_version
      then g
      else publish reasons
          (count_window (not (is_nil reasons)) (record g { snapshot_version = m.snapshot_version }))

unfoldable pub allowed : String → WorkloadGovernor → Bool
allowed tier g = if contains tier core_tiers then true else not (contains tier g.disabled)

abbrev pub eq_ℤ : ℤ → ℤ → Bool
eq_ℤ a b = leb_ℤ a b && leb_ℤ b a

-- `identity in self._results`
unfoldable pub has_result : ℤ → String → List (ℤ × String) → Bool
has_result v k [] = false
has_result v k ((w, j) ∷ rs) = (eq_ℤ w v && str_eq j k) || has_result v k rs

-- The comprehension that keeps the results of the last windows.
unfoldable pub recent : ℤ → List (ℤ × String) → List (ℤ × String)
recent oldest [] = []
recent oldest ((w, j) ∷ rs) =
    let rest = recent oldest rs in if leb_ℤ oldest w then (w, j) ∷ rest else rest

unfoldable pub record_result : String → ℤ → WorkloadGovernor → WorkloadGovernor × Bool
unfolding has_result recent
record_result job_identity version g =
    let added = (version, job_identity) ∷ g.results in
    if not (eq_ℤ version g.snapshot_version)
      || is_empty job_identity
      || has_result version job_identity g.results
    then (g, false)
    else (
      record g {
        results =
            if ltb 1000 (length added) then recent (g.snapshot_version -ℤ pos 5) added else added;
      },
      true,
    )

-- A `deque` of at most twenty texts
unfoldable pub record_worker_failure : String → String → WorkloadGovernor → WorkloadGovernor
record_worker_failure tier error g =
    let all = g.worker_failures ++ (append tier (append ":" (take_text 160 error)) ∷ []) in
    record g { worker_failures = drop (length all - 20) all }

unfoldable pub poll_interval_ms : String → Bool → Bool → WorkloadGovernor → ℕ
unfolding allowed
poll_interval_ms tier focused connected g =
    if not connected
    then 60_000
    else if not focused
    then 30_000
    else if not (allowed tier g)
    then 15_000
    else 5_000

-- `current`
unfoldable pub current : WorkloadGovernor → PressureState
current g = g.state
