-- ===== src/PilotRisk.antt =====
-- backend/app/core/pilot_risk.py: the risk policy of the micro pilot. `Decimal` is a type with the
-- operations of `Number`; a comparison with a NaN raises InvalidOperation, which is written out before the comparisons it
-- concerns. What hashes and prints the policy's identity is a parameter.
pub mod Policy
pub mod Entry
pub mod Exit
use crypto_arc_v.Prelude.{
  ℕ, ◌-◌, String, Bool, true, false, not, ◌&&◌, ◌||◌, Option, some, none, List, [], ◌∷◌,
  if◌then◌else◌, is_nil, str_eq,
}
use crypto_arc_v.Prelude.Int.{ℤ, pos, leb_ℤ}
use crypto_arc_v.Prelude.Checks.{Checks, failing}
use crypto_arc_v.Prelude.Result.{Result, ok, err, ◌>>=◌, ◌>>◌, raise_if, or_raise}
use crypto_arc_v.Prelude.Text.{append, take_text}
use crypto_arc_v.Prelude.Time.{Datetime, to_utc}
use crypto_arc_v.Number.{Number, Decimal, min_of}

pub record PilotRiskRequest (D : Type 0) : Type 0 where
  pub action : String
  pub requested_sol : D
  pub slippage_pct : D
  pub total_cost_sol : D
  pub protective : Bool

pub record PilotRiskState (D : Type 0) : Type 0 where
  pub open_positions : ℤ
  pub session_pnl_sol : D
  pub daily_pnl_sol : D
  pub cumulative_loss_sol : D
  pub consecutive_losses : ℤ
  pub unrealized_pnl_unavailable : Bool
  pub stopped : Bool
  pub restart_requested : Bool
  pub replenished : Bool
  pub cap_increase_requested : Bool

pub record PilotRiskDecision : Type 0 where
  pub allowed : Bool
  pub blockers : List String
  pub requires_explicit_recovery_decision : Bool

-- The dict of `PilotRiskDecision.to_dict`, its values by their keys.
data Field : Type 0 where
  flag : Bool → Field
  texts : List String → Field

abbrev decision_to_dict : PilotRiskDecision → List (String × Field)
decision_to_dict decision =
    ("allowed", flag decision.allowed)
    ∷ ("blockers", texts decision.blockers)
    ∷ ("requires_explicit_recovery_decision", flag decision.requires_explicit_recovery_decision)
    ∷ []

pub record PilotRiskPolicy (D : Type 0) : Type 0 where
  pub policy_id : String
  pub policy_version : String
  pub created_at : Datetime
  pub observed_at : Datetime
  pub reference_observation_id : String
  pub settings_version : String
  pub operator_intent_id : String
  pub reference_usd_per_sol : D
  pub wallet_equity_sol : D
  pub max_trade_sol : D
  pub max_open_positions : ℤ
  pub session_loss_stop_sol : D
  pub daily_loss_stop_sol : D
  pub cumulative_loss_freeze_sol : D
  pub consecutive_loss_stop : ℤ
  pub initial_slippage_pct : D
  pub max_reviewable_slippage_pct : D
  pub external_reserve_accessible : Bool
  pub automatic_restart_allowed : Bool
  pub automatic_replenishment_allowed : Bool
  pub automatic_cap_increase_allowed : Bool

-- The arguments of `create` that identify the observation.
pub record PolicyIdentity : Type 0 where
  pub reference_observation_id : String
  pub settings_version : String
  pub operator_intent_id : String

-- The standard library's printing of times, and SHA-256 (in hexadecimal) of the JSON of a dict.
pub record Platform : Type 0 where
  pub isoformat : Datetime → String
  pub sha256_json : List (String × String) → String

module _ {D : Type 0} ⦃d : Decimal D⦄ where
  abbrev num : Number D
  num = d.number

  open d.number use {lit, neg, mul, div, lt, le}

  -- A NaN is the one value that is not at most itself.
  abbrev pub is_nan : D → Bool
  is_nan x = not (le x x)

  -- `_down`; `quantize` may raise.
  unfoldable pub down : D → Result D
  down value = or_raise (d.quantize_down value) "InvalidOperation"

  unfoldable pub create :
      Platform → D → D → Datetime → PolicyIdentity → D → Result (PilotRiskPolicy D)
  create platform price equity observed_at id slippage = do
    raise_if (is_nan price || (not (le price (lit 0 0)) && is_nan equity)) "InvalidOperation"
    raise_if (le price (lit 0 0) || le equity (lit 0 0))
        "reference SOL/USD price and wallet equity must be positive"
    raise_if (not observed_at.aware) "reference observation timestamp must be timezone-aware"
    raise_if (lt (lit 100 0) (mul equity price)) "pilot wallet funding exceeds $100 equivalent"
    raise_if (is_nan slippage) "InvalidOperation"
    raise_if (le slippage (lit 0 0) || lt (lit 5 0) slippage)
        "pilot slippage configuration must be above 0% and no greater than 5%"
    max_trade ← down (min_of ⦃n = num⦄ (div (lit 5 0) price) (mul equity (lit 5 2)))
    session_stop ← down (div (lit 10 0) price)
    daily_stop ← down (div (lit 10 0) price)
    freeze ← down (div (lit 25 0) price)
    let fingerprint = platform.sha256_json (
        ("observed_at", platform.isoformat (to_utc observed_at))
        ∷ ("reference_observation_id", id.reference_observation_id)
        ∷ ("settings_version", id.settings_version)
        ∷ ("operator_intent_id", id.operator_intent_id)
        ∷ ("reference_usd_per_sol", d.to_text price)
        ∷ ("wallet_equity_sol", d.to_text equity)
        ∷ ("initial_slippage_pct", d.to_text slippage)
        ∷ [])
    ok (record {
      policy_id = append "pilot_policy_" (take_text 24 fingerprint);
      policy_version = "micro-pilot-risk-v1";
      created_at = to_utc observed_at;
      observed_at = to_utc observed_at;
      reference_observation_id = id.reference_observation_id;
      settings_version = id.settings_version;
      operator_intent_id = id.operator_intent_id;
      reference_usd_per_sol = price;
      wallet_equity_sol = equity;
      max_trade_sol = max_trade;
      max_open_positions = pos 1;
      session_loss_stop_sol = session_stop;
      daily_loss_stop_sol = daily_stop;
      cumulative_loss_freeze_sol = freeze;
      consecutive_loss_stop = pos 3;
      initial_slippage_pct = slippage;
      max_reviewable_slippage_pct = lit 5 0;
      external_reserve_accessible = false;
      automatic_restart_allowed = false;
      automatic_replenishment_allowed = false;
      automatic_cap_increase_allowed = false;
    })

  unfoldable pub cost_cap_for : PilotRiskPolicy D → D → Result D
  cost_cap_for p requested_sol =
      let usd = div (lit 25 2) p.reference_usd_per_sol in
      let share = mul requested_sol (lit 5 2) in
      raise_if (is_nan usd || is_nan share) "InvalidOperation" >> down (min_of ⦃n = num⦄ usd share)

  -- `total_cost_sol < 0 or total_cost_sol > cost_cap_for(requested_sol)`
  unfoldable pub over_cost_cap : PilotRiskPolicy D → PilotRiskRequest D → Result Bool
  over_cost_cap p r = do
    raise_if (is_nan r.total_cost_sol) "InvalidOperation"
    if lt r.total_cost_sol (lit 0 0) then ok true else (do
      cap ← cost_cap_for p r.requested_sol
      raise_if (is_nan cap) "InvalidOperation"
      ok (lt cap r.total_cost_sol))

  -- `slippage_pct < 0 or slippage_pct > initial_slippage_pct` raises.
  unfoldable pub slippage_raises : PilotRiskPolicy D → PilotRiskRequest D → Bool
  slippage_raises p r =
      is_nan r.slippage_pct || (not (lt r.slippage_pct (lit 0 0)) && is_nan p.initial_slippage_pct)

  -- A comparison of `evaluate_entry` with a number of the request or of the policy raises.
  unfoldable pub request_raises : PilotRiskPolicy D → PilotRiskRequest D → Bool
  unfolding slippage_raises
  request_raises p r =
      is_nan r.requested_sol
      || (not (le r.requested_sol (lit 0 0)) && is_nan p.max_trade_sol)
      || is_nan (neg p.session_loss_stop_sol)
      || is_nan (neg p.daily_loss_stop_sol)
      || is_nan p.cumulative_loss_freeze_sol
      || slippage_raises p r

  -- One with a number of the state raises.
  unfoldable pub state_raises : PilotRiskState D → Bool
  state_raises s =
      is_nan s.session_pnl_sol || is_nan s.daily_pnl_sol || is_nan s.cumulative_loss_sol

  -- The guards of `evaluate_entry` in their order, given the test of the total cost.
  unfoldable pub entry_checks :
      PilotRiskPolicy D → PilotRiskRequest D → PilotRiskState D → Bool → Checks
  entry_checks p r s cost_failed =
      (not (str_eq r.action "buy"), "entry_action_required")
      ∷ (le r.requested_sol (lit 0 0) || lt p.max_trade_sol r.requested_sol, "trade_cap")
      ∷ (leb_ℤ p.max_open_positions s.open_positions, "one_position")
      ∷ (le s.session_pnl_sol (neg p.session_loss_stop_sol), "session_loss_stop")
      ∷ (le s.daily_pnl_sol (neg p.daily_loss_stop_sol), "daily_loss_stop")
      ∷ (le p.cumulative_loss_freeze_sol s.cumulative_loss_sol, "cumulative_loss_freeze")
      ∷ (leb_ℤ p.consecutive_loss_stop s.consecutive_losses, "consecutive_losses")
      ∷ (s.unrealized_pnl_unavailable, "unrealized_pnl_unavailable")
      ∷ (lt r.slippage_pct (lit 0 0) || lt p.initial_slippage_pct r.slippage_pct, "slippage_cap")
      ∷ (cost_failed, "total_cost_cap")
      ∷ (s.stopped, "pilot_stopped")
      ∷ (s.restart_requested, "automatic_restart_forbidden")
      ∷ (s.replenished, "wallet_replenishment_forbidden")
      ∷ (s.cap_increase_requested, "cap_increase_forbidden")
      ∷ []

  unfoldable pub evaluate_entry :
      PilotRiskPolicy D → PilotRiskRequest D → PilotRiskState D → Result PilotRiskDecision
  unfolding request_raises state_raises
  evaluate_entry p r s = do
    raise_if (request_raises p r || state_raises s) "InvalidOperation"
    cost_failed ← over_cost_cap p r
    let blockers = failing (entry_checks p r s cost_failed)
    ok (record {
      allowed = is_nil blockers;
      blockers = blockers;
      requires_explicit_recovery_decision = false;
    })

  unfoldable pub exit_checks : PilotRiskPolicy D → PilotRiskRequest D → Bool → Checks
  exit_checks p r cost_failed =
      (not (str_eq r.action "sell"), "exit_action_required")
      ∷ (le r.requested_sol (lit 0 0), "exit_amount_required")
      ∷ (lt r.slippage_pct (lit 0 0) || lt p.initial_slippage_pct r.slippage_pct, "slippage_cap")
      ∷ (cost_failed, "total_cost_cap")
      ∷ []

  unfoldable pub evaluate_exit :
      PilotRiskPolicy D → PilotRiskRequest D → PilotRiskState D → Result PilotRiskDecision
  unfolding slippage_raises
  evaluate_exit p r s = do
    raise_if (is_nan r.requested_sol || slippage_raises p r) "InvalidOperation"
    cost_failed ← over_cost_cap p r
    let blockers = failing (exit_checks p r cost_failed)
    ok (record {
      allowed = is_nil blockers;
      blockers = blockers;
      requires_explicit_recovery_decision = r.protective && not (is_nil blockers);
    })
