-- ===== src/Examples/Governor.antt =====
-- A governor that sheds after two windows and recovers after two (backend/app/core/workload_governor.py).
use crypto_arc_v.Prelude.{ℕ, ◌≡◌, refl, ◌+◌, ◌&&◌, ◌||◌, true, false, [], ◌∷◌, is_nil, ltb, leb}
use crypto_arc_v.Prelude.Int.{pos}
use crypto_arc_v.Number.Fixed.{Fixed, fixed_number}
use crypto_arc_v.Workload.Governor.{
  CriticalMetrics, WorkloadGovernor, new, observe, record_result, pressure_reasons, has_result,
}
use crypto_arc_v.Workload.Governor.Hysteresis.{
  IsValid, new-IsValid, observe-IsValid, observe_all, observe_all_pressure, observe_all_calm,
}
use crypto_arc_v.Workload.Governor.Results.{observe_call, result_call, run, record_result_once}

abbrev window : ℕ → ℕ → CriticalMetrics Fixed
window version depth = record {
  observed_at = 0;
  snapshot_version = pos version;
  queue_depth = pos depth;
  db_lock_wait_p99_ms = pos 0;
  source_loss = false;
  source_to_decision_p99_ms = pos 0;
  intent_to_quote_p99_ms = pos 0;
  memory_pct = pos 0;
  connections = pos 1;
  focused = true;
  connected = true;
}

abbrev fresh : WorkloadGovernor
fresh = new (pos 2) (pos 2)

fresh_version : fresh.snapshot_version ≡ pos 0
unfolding new
fresh_version = refl

observe_all_pressure_example :
    is_nil (observe_all (window 1 500 ∷ window 2 500 ∷ []) fresh).disabled
    ≡ (is_nil fresh.disabled && ltb (fresh.failures + 2) fresh.consecutive_failures)
unfolding new pressure_reasons
observe_all_pressure_example =
    observe_all_pressure (window 1 500 ∷ window 2 500 ∷ []) fresh (new-IsValid (pos 2) (pos 2))
      (refl, (refl, tt)) (refl, (refl, tt))

abbrev shed : WorkloadGovernor
shed = observe (window 2 500) (observe (window 1 500) fresh)

shed-IsValid : IsValid shed
shed-IsValid =
    observe-IsValid (window 2 500) _
      (observe-IsValid (window 1 500) fresh (new-IsValid (pos 2) (pos 2)))

observe_all_calm_example :
    is_nil (observe_all (window 3 1 ∷ window 4 1 ∷ []) shed).disabled
    ≡ (is_nil shed.disabled || leb shed.required_recovery_windows (shed.recoveries + 2))
unfolding new observe pressure_reasons
observe_all_calm_example =
    observe_all_calm (window 3 1 ∷ window 4 1 ∷ []) shed shed-IsValid (refl, (refl, tt))
      (refl, (refl, tt))

record_result_once_example :
    (record_result "job" (pos 0) (
      run
        (result_call "other" (pos 0) ∷ observe_call (window 3 1) ∷ [])
        (record_result "job" (pos 0) fresh).0)).1
    ≡ false
unfolding record_result new has_result
record_result_once_example =
    record_result_once "job" (pos 0) fresh
      (result_call "other" (pos 0) ∷ observe_call (window 3 1) ∷ []) refl
