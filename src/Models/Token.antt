-- ===== src/Models/Token.antt =====
-- `TokenStatus` and `TokenSignal` of backend/app/core/models.py, with every field and default.
use crypto_arc_v.Prelude.{String, Bool, false, Option, none, List, []}
use crypto_arc_v.Prelude.Int.{ℤ, pos}
use crypto_arc_v.Prelude.Time.{Datetime}
use crypto_arc_v.Number.{Number}

pub data TokenStatus : Type 0 where
  detected analyzing buying paper_bought monitoring selling paper_sold skipped : TokenStatus

pub record TokenSignal (F : Type 0) : Type 0 where
  pub id : String
  pub symbol : String
  pub name : String
  pub mint : String
  pub creator : String
  pub detected_at : Datetime
  pub status : TokenStatus
  pub score : ℤ
  pub reason : String
  pub amount_sol : Option F
  pub pnl_sol : Option F
  pub success_rate_pct : ℤ
  pub age_seconds : ℤ
  pub buy_velocity : F
  pub sell_pressure : F
  pub metadata_score : F
  pub score_breakdown : List String
  pub entry_price : Option F
  pub current_price : Option F
  pub exit_price : Option F
  pub opened_at : Option Datetime
  pub closed_at : Option Datetime
  pub ticks_held : ℤ
  pub peak_price : Option F
  pub trough_price : Option F
  pub unrealized_pct : F
  pub creator_hold_pct : F
  pub creator_launch_count : ℤ
  pub intelligence_tags : List String
  pub exit_reason : Option String
  pub honeypot_risk : Bool
  pub rug_risk : Bool
  pub decision_log : List String
  pub entry_reason : Option String
  pub entry_strategy_profile : Option String
  pub entry_risk_filters : List String
  pub slippage_paid_pct : F
  pub highest_unrealized_pct : F
  pub lowest_unrealized_pct : F
  pub hold_duration_seconds : ℤ
  pub fill_delay_ticks_remaining : ℤ
  pub fee_paid_sol : F
  pub exit_fee_sol : F
  pub total_fees_sol : F
  pub entry_provider_fee_sol : F
  pub exit_provider_fee_sol : F
  pub entry_network_fee_sol : F
  pub exit_network_fee_sol : F
  pub entry_priority_fee_sol : F
  pub exit_priority_fee_sol : F
  pub entry_slippage_cost_sol : F
  pub entry_price_impact_cost_sol : F
  pub price_impact_pct : F
  pub quote_shadow_fee_sol : F
  pub quote_shadow_priority_fee_sol : F
  pub quote_shadow_impact_sol : F
  pub quote_shadow_total_cost_sol : F
  pub quote_shadow_slippage_pct : F
  pub quote_shadow_status : String
  pub wallet_public_key : String
  pub fill_failed : Bool
  pub partial_take_profit_taken : Bool
  pub realized_pnl_sol : F
  pub remaining_fraction : F
  pub rejected_price_streak : ℤ
  pub market_cap_sol : F
  pub initial_buy_sol : F
  pub bonding_curve : String
  pub metadata_uri : String
  pub price_source : String
  pub price_confidence : F
  pub price_reject_reason : String
  pub observed_price_updates : ℤ
  pub last_observed_trade_at : Option Datetime
  pub settings_version_id : String

-- `TokenSignal()` with the defaults of the dataclass.
abbrev pub new_token :
    {F : Type 0} ⦃n : Number F⦄
    → String
    → String
    → String
    → String
    → String
    → Datetime
    → TokenSignal F
new_token ⦃n⦄ id symbol name mint creator detected_at = record {
  id = id;
  symbol = symbol;
  name = name;
  mint = mint;
  creator = creator;
  detected_at = detected_at;
  status = detected;
  score = pos 0;
  reason = "Waiting for analysis";
  amount_sol = none;
  pnl_sol = none;
  success_rate_pct = pos 0;
  age_seconds = pos 0;
  buy_velocity = n.lit 0 0;
  sell_pressure = n.lit 0 0;
  metadata_score = n.lit 0 0;
  score_breakdown = [];
  entry_price = none;
  current_price = none;
  exit_price = none;
  opened_at = none;
  closed_at = none;
  ticks_held = pos 0;
  peak_price = none;
  trough_price = none;
  unrealized_pct = n.lit 0 0;
  creator_hold_pct = n.lit 0 0;
  creator_launch_count = pos 0;
  intelligence_tags = [];
  exit_reason = none;
  honeypot_risk = false;
  rug_risk = false;
  decision_log = [];
  entry_reason = none;
  entry_strategy_profile = none;
  entry_risk_filters = [];
  slippage_paid_pct = n.lit 0 0;
  highest_unrealized_pct = n.lit 0 0;
  lowest_unrealized_pct = n.lit 0 0;
  hold_duration_seconds = pos 0;
  fill_delay_ticks_remaining = pos 0;
  fee_paid_sol = n.lit 0 0;
  exit_fee_sol = n.lit 0 0;
  total_fees_sol = n.lit 0 0;
  entry_provider_fee_sol = n.lit 0 0;
  exit_provider_fee_sol = n.lit 0 0;
  entry_network_fee_sol = n.lit 0 0;
  exit_network_fee_sol = n.lit 0 0;
  entry_priority_fee_sol = n.lit 0 0;
  exit_priority_fee_sol = n.lit 0 0;
  entry_slippage_cost_sol = n.lit 0 0;
  entry_price_impact_cost_sol = n.lit 0 0;
  price_impact_pct = n.lit 0 0;
  quote_shadow_fee_sol = n.lit 0 0;
  quote_shadow_priority_fee_sol = n.lit 0 0;
  quote_shadow_impact_sol = n.lit 0 0;
  quote_shadow_total_cost_sol = n.lit 0 0;
  quote_shadow_slippage_pct = n.lit 0 0;
  quote_shadow_status = "";
  wallet_public_key = "";
  fill_failed = false;
  partial_take_profit_taken = false;
  realized_pnl_sol = n.lit 0 0;
  remaining_fraction = n.lit 1 0;
  rejected_price_streak = pos 0;
  market_cap_sol = n.lit 0 0;
  initial_buy_sol = n.lit 0 0;
  bonding_curve = "";
  metadata_uri = "";
  price_source = "simulated";
  price_confidence = n.lit 0 0;
  price_reject_reason = "";
  observed_price_updates = pos 0;
  last_observed_trade_at = none;
  settings_version_id = "";
}
