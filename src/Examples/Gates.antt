-- ===== src/Examples/Gates.antt =====
-- A pilot window and a live proof with their evidence (backend/app/core/autonomous_pilot.py and
-- backend/app/core/manual_live_proof.py). A text of n characters stands for the time after n minutes.
use crypto_arc_v.Prelude.{
  ◌*◌, ◌≡◌, ◌↔◌, ◌≢◌, refl, String, true, false, none, some, List, [], ◌∷◌, ◌++◌, if◌then◌else◌,
  str_eq,
}
use crypto_arc_v.Prelude.Int.{ℤ, pos, negsuc, ltb_ℤ, ◌-ℤ◌}
use crypto_arc_v.Prelude.Text.{text_length, strip, append, int_text}
use crypto_arc_v.Prelude.Dict.{lookup}
use crypto_arc_v.Prelude.Checks.{block_all}
use crypto_arc_v.Gates.Values.{
  flag, int, text, Mapping, Platform, get, truthy, is_true, is_false, is_one, equals_text, str,
  text_or_empty, stripped, int_of, zero_value, timestamp, timestamp_of, utc_time, value_of,
  has_raised, is_stale, has_expired,
}
use crypto_arc_v.Gates.AutonomousPilot.{
  is_too_long, is_mismatch, authorization_checks, readiness_checks, identity_checks, window_checks,
  PilotWindow, window_of, window_raises, open_window, is_stop_event, evaluate,
}
use crypto_arc_v.Gates.AutonomousPilot.Windows.{
  IsAuthorized, IsReady, IsIdentified, open_window_iff, evaluate_lem,
}
use crypto_arc_v.Gates.ManualLiveProof.{
  Amounts, ProofReport, qualify, amount_of, select_action, qualify_with, amount_checks, both,
  report_of, texts_of, proof_checks, evidence_checks, all_audit_checks, audit_checks, ledger_checks,
  is_foreign, has_fixture, proof_raises, is_not_zero, out_of_bounds,
}
use crypto_arc_v.Gates.ManualLiveProof
use crypto_arc_v.Gates.ManualLiveProof.Qualification.{IsAmounts, IsProven, qualify_iff}

abbrev platform : Platform
platform = record {
  parse_int = λ s. none;
  fromisoformat = λ s. some (record { local = text_length s * 60_000_000; offset = some (pos 0) });
  isoformat = λ t. "time";
  sha256 = λ s. "hash";
  dumps = λ d. "{}";
}

abbrev authorization : Mapping
authorization =
    ("authorization_id", text "a1")
    ∷ ("scope", text "attended-autonomous-pilot")
    ∷ ("attended", flag true)
    ∷ ("issued_at", text "mm")
    ∷ ("expires_at", text "mmmmm")
    ∷ ("wallet_public_key", text "wallet")
    ∷ ("signer_mode", text "hot")
    ∷ ("signer_identity_id", text "signer")
    ∷ []

abbrev identity : Mapping
identity =
    ("wallet_public_key", text "wallet")
    ∷ ("signer_mode", text "hot")
    ∷ ("signer_identity_id", text "signer")
    ∷ []

abbrev readiness : Mapping
readiness =
    identity
    ++ (("generated_at", text "mmm")
        ∷ ("full_sniper_gate_ready", flag true)
        ∷ ("pilot_readiness_ready", flag true)
        ∷ ("fixture_only", flag false)
        ∷ ("unresolved_audits", int (pos 0))
        ∷ ("backup_fresh", flag true)
        ∷ ("kill_switch_available", flag true)
        ∷ [])

abbrev policy : Mapping
policy =
    ("policy_id", text "p1")
    ∷ ("policy_version", text "micro-pilot-risk-v1")
    ∷ ("max_open_positions", int (pos 1))
    ∷ ("automatic_restart_allowed", flag false)
    ∷ ("automatic_replenishment_allowed", flag false)
    ∷ ("automatic_cap_increase_allowed", flag false)
    ∷ []

abbrev proof : Mapping
proof =
    identity
    ++ (("qualified", flag true) ∷ ("fixture_only", flag false) ∷ ("proof_id", text "proof") ∷ [])

opens :
    (window : PilotWindow) × (open_window platform 180_000_000 authorization readiness policy proof
      ≡ some window)
    × (window.eligible ≡ true)
unfolding open_window window_of window_raises window_checks authorization_checks readiness_checks
    identity_checks is_mismatch is_too_long is_stale has_expired get lookup truthy is_true is_false
    is_one equals_text str text_or_empty stripped int_of zero_value timestamp timestamp_of utc_time
    value_of has_raised ◌-ℤ◌ strip block_all
opens = (_, refl, refl)

open_window_iff_example :
    IsAuthorized platform 180_000_000 authorization
    × IsReady platform 180_000_000 readiness
    × IsIdentified authorization readiness policy proof
open_window_iff_example =
    (open_window_iff platform 180_000_000 authorization readiness policy proof).0 opens

abbrev quiet : Mapping
quiet = ("type", text "tick") ∷ []

evaluate_lem_example : ((evaluate quiet true).stop_new_entries ≡ false) ↔ (
    (true ≡ true)
    × (text_or_empty (get "type" quiet) ≢ "end_window")
    × (is_stop_event (text_or_empty (get "type" quiet)) ≡ false))
evaluate_lem_example = (evaluate_lem quiet true).0

-- Amounts are integers; 99 stands for a NaN.
abbrev amounts : Amounts ℤ
amounts = record {
  parse =
      λ s. if str_eq s "3" then some (pos 3) else if str_eq s "NaN" then some (pos 99) else none;
  lit = λ n. pos n;
  minus_one = negsuc 0;
  is_nan = λ x. ltb_ℤ (pos 98) x;
  lt = ltb_ℤ;
}

amounts-IsAmounts : IsAmounts amounts
amounts-IsAmounts = record { minus_one_number = refl; minus_one_below = refl }

abbrev audit : String → String → Mapping
audit action amount =
    identity
    ++ (("action", text action)
        ∷ ("fixture_only", flag false)
        ∷ ("status", text "confirmed")
        ∷ ("transaction_signature", text "sig")
        ∷ ("reconciled", flag true)
        ∷ ("fees_complete", flag true)
        ∷ ("amount_usd", text amount)
        ∷ [])

abbrev grant : Mapping
grant =
    ("authorization_id", text "a2")
    ∷ ("scope", text "manual-live-proof")
    ∷ ("issued_at", text "mm")
    ∷ ("expires_at", text "mmmmm")
    ∷ identity

abbrev ledger : Mapping
ledger =
    ("round_trip_complete", flag true)
    ∷ ("open_positions", int (pos 0))
    ∷ ("fees_complete", flag true)
    ∷ ("pnl_complete", flag true)
    ∷ ("realized_pnl_sol", int (pos 1))
    ∷ ("unknown_transactions", int (pos 0))
    ∷ ("manual_database_repair", flag false)
    ∷ ("review_debt", int (pos 0))
    ∷ identity

abbrev round_trip : List Mapping
round_trip = audit "buy" "3" ∷ audit "sell" "3" ∷ []

proves :
    (report : ProofReport) × (qualify amounts platform 180_000_000 round_trip ledger identity grant
      ≡ some report)
    × (report.qualified ≡ true)
unfolding qualify qualify_with amount_checks both report_of texts_of proof_checks
    ManualLiveProof.authorization_checks evidence_checks all_audit_checks audit_checks ledger_checks
    is_foreign select_action has_fixture is_not_zero out_of_bounds is_stale has_expired get lookup
    truthy is_true is_false is_one equals_text str text_or_empty stripped int_of timestamp
    timestamp_of utc_time value_of has_raised ◌-ℤ◌ proof_raises strip block_all append int_text
proves = (_, refl, refl)

qualify_iff_example : IsProven amounts platform 180_000_000 round_trip ledger identity grant
qualify_iff_example =
    (qualify_iff amounts amounts-IsAmounts platform 180_000_000 round_trip ledger identity grant).0
      proves
