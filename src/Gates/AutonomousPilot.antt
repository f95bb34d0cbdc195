-- ===== src/Gates/AutonomousPilot.antt =====
-- `AutonomousPilotGate.open_window` and `PilotStopEvaluator.evaluate` of backend/app/core/autonomous_pilot.py. A time
-- is a number of microseconds since the year 1. `open_window` returns `none` where it raises an OverflowError, which `_timestamp`
-- and `_zero` do not catch.
pub mod Windows
use crypto_arc_v.Prelude.{
  ℕ, ◌-◌, String, Bool, true, false, not, ◌&&◌, ◌||◌, Option, some, none, List, [], ◌∷◌, ◌++◌,
  if◌then◌else◌, is_empty, str_eq, ltb, leb, contains, is_nil,
}
use crypto_arc_v.Prelude.Checks.{Checks, failing, block_all}
use crypto_arc_v.Prelude.Text.{append, take_text}
use crypto_arc_v.Gates.Values.{
  Value, Mapping, Platform, get, truthy, is_true, is_false, is_one, equals_text, text_or_empty,
  stripped, zero_value, timestamp, value_of, has_raised, is_stale, has_expired,
}

pub record PilotWindow : Type 0 where
  pub window_id : String
  pub status : String
  pub eligible : Bool
  pub opened : Bool
  pub blockers : List String
  pub authorization_id : String
  pub wallet_public_key : String
  pub signer_mode : String
  pub signer_identity_id : String
  pub policy_id : String
  pub manual_proof_id : String
  pub starts_at : String
  pub ends_at : String
  pub attended : Bool
  pub max_open_positions : ℕ
  pub automatic_restart_allowed : Bool
  pub automatic_replenishment_allowed : Bool
  pub automatic_cap_increase_allowed : Bool
  pub authority_changed : Bool
  pub operator_action : String

-- `issued_at is None or expires_at - issued_at > timedelta(minutes=30)`
unfoldable pub is_too_long : Option ℕ → Option ℕ → Bool
is_too_long none expires_at = true
is_too_long (some issued_at) none = true
is_too_long (some issued_at) (some expires_at) = ltb 1_800_000_000 (expires_at - issued_at)

-- `not wallet or any(str(item.get(key) or "") != wallet for item in identities)`
unfoldable pub is_mismatch : String → String → Mapping → Mapping → Bool
is_mismatch key value readiness_snapshot manual_proof =
    is_empty value
    || not (str_eq (text_or_empty (get key readiness_snapshot)) value)
    || not (str_eq (text_or_empty (get key manual_proof)) value)

-- The rows of `if failed: block(reason)`, in order; the row of the window's length is an `elif`.
unfoldable pub authorization_checks : Platform → ℕ → Mapping → Checks
unfolding is_too_long
authorization_checks p checked_at authorization =
    let issued_at = value_of (timestamp p (get "issued_at" authorization)) in
    let expires_at = value_of (timestamp p (get "expires_at" authorization)) in
    (is_empty (stripped "authorization_id" authorization), "authorization_id")
    ∷ (
      not (equals_text "attended-autonomous-pilot" (get "scope" authorization)),
      "authorization_scope",
    )
    ∷ (not (is_true (get "attended" authorization)), "attended_operator_required")
    ∷ (is_stale 3_600_000_000 checked_at issued_at, "authorization_not_fresh")
    ∷ (has_expired checked_at expires_at, "window_expired")
    ∷ (
      not (has_expired checked_at expires_at) && is_too_long issued_at expires_at,
      "window_too_long",
    )
    ∷ []

abbrev pub is_some_true : Option Bool → Bool
is_some_true none = false
is_some_true (some b) = b

unfoldable pub readiness_checks : Platform → ℕ → Mapping → Checks
readiness_checks p checked_at readiness_snapshot =
    (
      is_stale 120_000_000 checked_at
          (value_of (timestamp p (get "generated_at" readiness_snapshot))),
      "readiness_stale",
    )
    ∷ (not (is_true (get "full_sniper_gate_ready" readiness_snapshot)), "full_sniper_gate")
    ∷ (not (is_true (get "pilot_readiness_ready" readiness_snapshot)), "pilot_readiness_gate")
    ∷ (not (is_false (get "fixture_only" readiness_snapshot)), "actual_readiness_required")
    ∷ (not (is_some_true (zero_value p (get "unresolved_audits" readiness_snapshot))), "audit_debt")
    ∷ (not (is_some_true (zero_value p (get "ledger_debt" readiness_snapshot))), "ledger_debt")
    ∷ (not (is_true (get "backup_fresh" readiness_snapshot)), "backup_stale")
    ∷ (not (is_true (get "kill_switch_available" readiness_snapshot)), "kill_switch_unavailable")
    ∷ (
      truthy (get "prior_pilot_window_id" readiness_snapshot)
          && not (is_true (get "prior_post_pilot_review_clear" readiness_snapshot)),
      "post_pilot_review_required",
    )
    ∷ []

unfoldable pub identity_checks : Mapping → Mapping → Mapping → Mapping → Checks
unfolding is_mismatch
identity_checks authorization readiness_snapshot policy manual_proof =
    (
      is_mismatch "wallet_public_key" (stripped "wallet_public_key" authorization)
          readiness_snapshot manual_proof,
      "wallet_identity_mismatch",
    )
    ∷ (
      is_mismatch "signer_mode" (stripped "signer_mode" authorization) readiness_snapshot
          manual_proof,
      "signer_mode_mismatch",
    )
    ∷ (
      is_mismatch "signer_identity_id" (stripped "signer_identity_id" authorization)
          readiness_snapshot manual_proof,
      "signer_identity_mismatch",
    )
    ∷ (
      is_empty (stripped "policy_id" policy)
          || not (equals_text "micro-pilot-risk-v1" (get "policy_version" policy))
          || not (is_one (get "max_open_positions" policy))
          || not (is_false (get "automatic_restart_allowed" policy))
          || not (is_false (get "automatic_replenishment_allowed" policy))
          || not (is_false (get "automatic_cap_increase_allowed" policy)),
      "pilot_policy",
    )
    ∷ (
      not (is_true (get "qualified" manual_proof))
          || not (is_false (get "fixture_only" manual_proof))
          || is_empty (stripped "proof_id" manual_proof),
      "manual_live_proof",
    )
    ∷ []

unfoldable pub window_checks : Platform → ℕ → Mapping → Mapping → Mapping → Mapping → Checks
unfolding authorization_checks readiness_checks identity_checks
window_checks p checked_at authorization readiness_snapshot policy manual_proof =
    authorization_checks p checked_at authorization
    ++ readiness_checks p checked_at readiness_snapshot
    ++ identity_checks authorization readiness_snapshot policy manual_proof

-- `json.dumps(...)` of the three ids, with sorted keys
abbrev pub window_id_of : Platform → String → String → String → String
window_id_of p authorization_id policy_id proof_id = append "pilot_window_" (
    take_text 24 (
      p.sha256 (
        p.dumps (
          ("authorization_id", authorization_id)
          ∷ ("policy_id", policy_id)
          ∷ ("proof_id", proof_id)
          ∷ []))))

unfoldable pub ends_at_of : Platform → Option ℕ → String
ends_at_of p none = ""
ends_at_of p (some expires_at) = p.isoformat expires_at

-- Whether one of the three times or of the two counts raises.
unfoldable pub window_raises : Platform → Mapping → Mapping → Bool
window_raises p authorization readiness_snapshot =
    has_raised (timestamp p (get "issued_at" authorization))
    || has_raised (timestamp p (get "expires_at" authorization))
    || has_raised (timestamp p (get "generated_at" readiness_snapshot))
    || has_raised (zero_value p (get "unresolved_audits" readiness_snapshot))
    || has_raised (zero_value p (get "ledger_debt" readiness_snapshot))

-- The window, where nothing raises.
unfoldable pub window_of : Platform → ℕ → Mapping → Mapping → Mapping → Mapping → PilotWindow
unfolding window_checks ends_at_of
window_of p checked_at authorization readiness_snapshot policy manual_proof =
    let blockers =
      block_all []
        (window_checks p checked_at authorization readiness_snapshot policy manual_proof) in
    let authorization_id = stripped "authorization_id" authorization in
    let policy_id = stripped "policy_id" policy in
    let manual_proof_id = stripped "proof_id" manual_proof in
    record {
      window_id = window_id_of p authorization_id policy_id manual_proof_id;
      status = if is_nil blockers then "ELIGIBLE_DEFERRED" else "BLOCKED";
      eligible = is_nil blockers;
      opened = false;
      blockers = blockers;
      authorization_id = authorization_id;
      wallet_public_key = stripped "wallet_public_key" authorization;
      signer_mode = stripped "signer_mode" authorization;
      signer_identity_id = stripped "signer_identity_id" authorization;
      policy_id = policy_id;
      manual_proof_id = manual_proof_id;
      starts_at = p.isoformat checked_at;
      ends_at = ends_at_of p (value_of (timestamp p (get "expires_at" authorization)));
      attended = is_true (get "attended" authorization);
      max_open_positions = 1;
      automatic_restart_allowed = false;
      automatic_replenishment_allowed = false;
      automatic_cap_increase_allowed = false;
      authority_changed = false;
      operator_action =
          "Pilot window creation remains disabled pending a separate physical authorization window.";
    }

unfoldable pub open_window :
    Platform → ℕ → Mapping → Mapping → Mapping → Mapping → Option PilotWindow
unfolding window_raises window_of
open_window p checked_at authorization readiness_snapshot policy manual_proof =
    if window_raises p authorization readiness_snapshot
    then none
    else some (window_of p checked_at authorization readiness_snapshot policy manual_proof)

pub record StopDecision : Type 0 where
  pub stop_new_entries : Bool
  pub close_window : Bool
  pub exit_mode : String
  pub blockers : List String
  pub automatic_restart_allowed : Bool
  pub requires_kill_switch : Bool
  pub requires_backend_disarm : Bool
  pub requires_reconciliation : Bool
  pub requires_post_run_review : Bool
  pub authority_changed : Bool

abbrev pub stop_events : List String
stop_events =
    "source_loss" ∷ "source_conflict" ∷ "signer_loss" ∷ "identity_mismatch" ∷ "quote_stale"
    ∷ "simulation_failed" ∷ "preflight_failed" ∷ "cap_breach" ∷ "session_loss_stop"
    ∷ "daily_loss_stop" ∷ "cumulative_loss_freeze" ∷ "drawdown_stop" ∷ "consecutive_loss_stop"
    ∷ "audit_debt" ∷ "ledger_debt" ∷ "backup_stale" ∷ "kill_switch" ∷ "window_expired" ∷ []

unfoldable pub is_stop_event : String → Bool
is_stop_event event_type = contains event_type stop_events

unfoldable pub end_window_checks : Mapping → Checks
end_window_checks event =
    (not (is_true (get "kill_switch_enabled" event)), "kill_switch_required")
    ∷ (not (is_true (get "backend_disarmed" event)), "backend_disarm_required")
    ∷ (not (is_true (get "reconciled" event)), "reconciliation_required")
    ∷ []

-- `evaluate`, given `eligible` of the window or of the mapping
unfoldable pub evaluate : Mapping → Bool → StopDecision
unfolding end_window_checks
evaluate event eligible =
    let event_type = text_or_empty (get "type" event) in
    let should_stop = is_stop_event event_type || not eligible in
    if str_eq event_type "end_window"
    then record {
      stop_new_entries = true;
      close_window = true;
      exit_mode = "existing_guarded_exit_only";
      blockers = failing (end_window_checks event);
      automatic_restart_allowed = false;
      requires_kill_switch = true;
      requires_backend_disarm = true;
      requires_reconciliation = true;
      requires_post_run_review = true;
      authority_changed = false;
    }
    else record {
      stop_new_entries = should_stop;
      close_window = should_stop;
      exit_mode = if should_stop then "existing_guarded_exit_only" else "guarded_entry_and_exit";
      blockers =
          if should_stop
          then (if is_empty event_type then "inactive_window" else event_type) ∷ []
          else [];
      automatic_restart_allowed = false;
      requires_kill_switch = should_stop;
      requires_backend_disarm = should_stop;
      requires_reconciliation = should_stop;
      requires_post_run_review = should_stop;
      authority_changed = false;
    }
