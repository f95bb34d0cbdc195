-- ===== src/Examples/Pilot.antt =====
-- A pilot with 0.5 SOL at 100 dollars (backend/app/core/pilot_risk.py).
use crypto_arc_v.Prelude.{◌≡◌, refl, true, false, [], arith}
use crypto_arc_v.Prelude.Int.{ℤ, pos, ◌≤ℤ◌}
use crypto_arc_v.Prelude.Result.{ok}
use crypto_arc_v.Prelude.Text.{append, take_text}
use crypto_arc_v.Prelude.Time.{Datetime}
use crypto_arc_v.Prelude.Checks.{failing}
use crypto_arc_v.Number.{min_of}
use crypto_arc_v.Number.Fixed.{Fixed, fixed_number, fixed_decimal, fixed-IsDecimal}
use crypto_arc_v.PilotRisk.{
  PilotRiskRequest, PilotRiskState, PilotRiskDecision, PilotRiskPolicy, PolicyIdentity, Platform,
  create, down, cost_cap_for, over_cost_cap, request_raises, state_raises, slippage_raises,
  entry_checks, evaluate_entry, exit_checks, evaluate_exit,
}
use crypto_arc_v.PilotRisk.Entry.{IsNoWorse, evaluate_entry_mono, create-evaluate_entry}

abbrev platform : Platform
platform = record { isoformat = λ t. "2026-01-01T00:00:00+00:00"; sha256_json = λ d. "abc" }

abbrev identity : PolicyIdentity
identity = record {
  reference_observation_id = "obs";
  settings_version = "v1";
  operator_intent_id = "intent";
}

-- 100 dollars, 0.5 SOL and 1 percent
abbrev price : Fixed
price = pos 100_000_000_000

abbrev equity : Fixed
equity = pos 500_000_000

abbrev slippage : Fixed
slippage = pos 1_000_000_000

abbrev noon : Datetime
noon = record { aware = true; micros = 0 }

abbrev policy : PilotRiskPolicy Fixed
policy = record {
  policy_id = append "pilot_policy_" (take_text 24 "abc");
  policy_version = "micro-pilot-risk-v1";
  created_at = noon;
  observed_at = noon;
  reference_observation_id = "obs";
  settings_version = "v1";
  operator_intent_id = "intent";
  reference_usd_per_sol = price;
  wallet_equity_sol = equity;
  max_trade_sol = pos 25_000_000;
  max_open_positions = pos 1;
  session_loss_stop_sol = pos 100_000_000;
  daily_loss_stop_sol = pos 100_000_000;
  cumulative_loss_freeze_sol = pos 250_000_000;
  consecutive_loss_stop = pos 3;
  initial_slippage_pct = slippage;
  max_reviewable_slippage_pct = pos 5_000_000_000;
  external_reserve_accessible = false;
  automatic_restart_allowed = false;
  automatic_replenishment_allowed = false;
  automatic_cap_increase_allowed = false;
}

created : create platform price equity noon identity slippage ≡ ok policy
unfolding create down min_of
created = refl

abbrev buy : PilotRiskRequest Fixed
buy = record {
  action = "buy";
  requested_sol = pos 20_000_000;
  slippage_pct = pos 500_000_000;
  total_cost_sol = pos 500_000;
  protective = false;
}

abbrev sell : PilotRiskRequest Fixed
sell = record {
  action = "sell";
  requested_sol = pos 20_000_000;
  slippage_pct = pos 500_000_000;
  total_cost_sol = pos 500_000;
  protective = true;
}

abbrev after : ℤ → PilotRiskState Fixed
after losses = record {
  open_positions = pos 0;
  session_pnl_sol = pos 0;
  daily_pnl_sol = pos 0;
  cumulative_loss_sol = pos 0;
  consecutive_losses = losses;
  unrealized_pnl_unavailable = false;
  stopped = false;
  restart_requested = false;
  replenished = false;
  cap_increase_requested = false;
}

abbrev yes : PilotRiskDecision
yes = record { allowed = true; blockers = []; requires_explicit_recovery_decision = false }

bought : evaluate_entry policy buy (after (pos 2)) ≡ ok yes
unfolding evaluate_entry request_raises state_raises slippage_raises over_cost_cap cost_cap_for down
    failing entry_checks min_of
bought = refl

sold : evaluate_exit policy sell (after (pos 9)) ≡ ok yes
unfolding evaluate_exit slippage_raises over_cost_cap cost_cap_for down failing exit_checks min_of
sold = refl

no_worse : IsNoWorse (after (pos 1)) (after (pos 2))
no_worse = record {
  positions = ground arith;
  session = refl;
  daily = refl;
  cumulative = refl;
  losses = ground arith;
  priced = λ h. h;
  running = λ h. h;
  no_restart = λ h. h;
  no_replenishment = λ h. h;
  no_cap_increase = λ h. h;
}

evaluate_entry_mono_example :
    (dec : PilotRiskDecision) × (evaluate_entry policy buy (after (pos 1)) ≡ ok dec)
    × (dec.allowed ≡ true)
evaluate_entry_mono_example =
    evaluate_entry_mono fixed-IsDecimal policy buy (after (pos 1)) (after (pos 2)) no_worse
      (yes, bought, refl)

create-evaluate_entry_example :
    (buy.action ≡ "buy")
    × (fixed_number.le buy.requested_sol
          (fixed_number.div (fixed_number.lit 5 0) policy.reference_usd_per_sol)
        ≡ true)
    × (fixed_number.le buy.requested_sol
          (fixed_number.mul policy.wallet_equity_sol (fixed_number.lit 5 2))
        ≡ true)
    × ((after (pos 2)).open_positions ≤ℤ pos 0)
    × ((after (pos 2)).consecutive_losses ≤ℤ pos 2)
    × (fixed_number.le buy.total_cost_sol
          (fixed_number.div (fixed_number.lit 25 2) policy.reference_usd_per_sol)
        ≡ true)
    × (fixed_number.le buy.total_cost_sol
          (fixed_number.mul buy.requested_sol (fixed_number.lit 5 2))
        ≡ true)
create-evaluate_entry_example =
    create-evaluate_entry fixed-IsDecimal platform price equity noon identity slippage buy
      (after (pos 2)) refl refl refl refl created bought refl
