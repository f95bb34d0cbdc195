-- ===== src/Examples/Conditions.antt =====
-- A verdict on one item of fresh evidence (backend/app/core/sentinel.py).
use crypto_arc_v.Prelude.{◌≡◌, refl, true, false, none, [], ◌∷◌, is_nil, All}
use crypto_arc_v.Prelude.Int.{pos, ◌*ℤ◌, ◌-ℤ◌}
use crypto_arc_v.Prelude.Checks.{failing}
use crypto_arc_v.Prelude.Time.{Datetime, to_utc}
use crypto_arc_v.Number.Fixed.{Fixed, fixed_float}
use crypto_arc_v.Sentinel.{
  missing, SentinelEvidence, SentinelInputs, SentinelThresholds, evaluate, insufficient_of, gather,
  input_checks, item_checks, item_blockers, item_warnings, verdict_status,
}
use crypto_arc_v.Sentinel.Eligibility.{IsFit, IsIdentified, evaluate_eligible}

abbrev noon : Datetime
noon = record { aware = true; micros = 100_000_000 }

abbrev item : SentinelEvidence Fixed
item = record {
  name = "source";
  observed_at = noon;
  sample_size = pos 20;
  status = "ready";
  value = missing;
  threshold = missing;
  evidence_ids = "e1" ∷ [];
  conflicting = false;
  expires_at = none;
  reason = "";
}

abbrev inputs : SentinelInputs Fixed
inputs = record {
  strategy_id = "s";
  strategy_version = "v1";
  input_version = "i1";
  evidence = item ∷ [];
}

abbrev thresholds : SentinelThresholds
thresholds = record {
  min_sample_size = pos 10;
  max_evidence_age_seconds = pos 300;
  validity_seconds = pos 60;
}

eligible : (evaluate (λ t s i th. "abc") inputs thresholds noon).status ≡ "pilot_eligible"
unfolding evaluate insufficient_of gather input_checks item_checks item_blockers item_warnings
    verdict_status failing ◌*ℤ◌ ◌-ℤ◌
eligible = refl

evaluate_eligible_example :
    IsIdentified inputs
    × All (IsFit (to_utc noon) thresholds) inputs.evidence
    × (is_nil (evaluate (λ t s i th. "abc") inputs thresholds noon).blockers ≡ true)
evaluate_eligible_example = evaluate_eligible (λ t s i th. "abc") inputs thresholds noon eligible
