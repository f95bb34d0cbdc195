-- ===== src/Strategy.antt =====
-- `DecisionPipeline` of backend/app/core/strategy.py: the scoring engine, then the risk engine. `evaluate` writes
-- the score into the token; it raises (`none`) where the score does.
pub mod Entries
use crypto_arc_v.Prelude.{
  String, Bool, true, false, Option, some, none, List, [], ◌∷◌, ◌++◌, map, if◌then◌else◌,
}
use crypto_arc_v.Prelude.Int.{ℤ}
use crypto_arc_v.Prelude.Text.{append, concat, int_text}
use crypto_arc_v.Number.{Float}
use crypto_arc_v.Models.{BotSettings, TokenSignal, BotStats}
use crypto_arc_v.Scoring.{ScoreResult, score}
use crypto_arc_v.Risk.{RiskDecision, effective_score_threshold}
use crypto_arc_v.Risk

-- An entry of `modules`; a key that the dict does not have is `none`.
pub record Module (F : Type 0) : Type 0 where
  pub name : String
  pub enabled : Bool
  pub version : Option String
  pub trade_size_sol : Option F

pub record Weights (F : Type 0) : Type 0 where
  pub metadata : F
  pub momentum : F
  pub pressure : F
  pub creator : F

pub record Exits (F : Type 0) : Type 0 where
  pub take_profit_pct : F
  pub stop_loss_pct : F
  pub max_hold_time_seconds : ℤ
  pub max_position_ticks : ℤ
  pub break_even_stop_enabled : Bool
  pub stalled_trade_exit_enabled : Bool
  pub sell_pressure_exit_enabled : Bool

pub record EntryConfirmation (F : Type 0) : Type 0 where
  pub enabled : Bool
  pub min_buy_velocity : F
  pub max_sell_pressure : F
  pub min_metadata_score : F
  pub min_initial_buy_sol : F
  pub min_price_confidence : F
  pub min_observed_trades : ℤ

pub record StrategySnapshot (F : Type 0) : Type 0 where
  pub engine_version : String
  pub profile : String
  pub risk_tolerance : String
  pub effective_threshold : ℤ
  pub modules : List (Module F)
  pub weights : Weights F
  pub exits : Exits F
  pub entry_confirmation : EntryConfirmation F
  pub raw : BotSettings F

pub record StrategyDecision (F : Type 0) : Type 0 where
  pub allowed : Bool
  pub action : String
  pub reason : String
  pub score : ScoreResult
  pub risk : RiskDecision
  pub log : List String
  pub snapshot : StrategySnapshot F

abbrev pub engine_version_name : String
engine_version_name = "strategy-v3"

abbrev versioned : {F : Type 0} → String → Bool → String → Module F
versioned name enabled version = record {
  name = name;
  enabled = enabled;
  version = some version;
  trade_size_sol = none;
}

-- `token.score = score.score` and the three writes after it
unfoldable pub scored : {F : Type 0} → ScoreResult → TokenSignal F → TokenSignal F
scored r t = record t {
  score = r.score;
  success_rate_pct = r.success_rate_pct;
  reason = r.reason;
  score_breakdown = r.breakdown;
}

-- The log up to the risk checks
unfoldable pub first_log : {F : Type 0} → StrategySnapshot F → ScoreResult → List String
first_log snapshot r =
    ("Detected"
      ∷ append "Analyzing launch profile with " engine_version_name
      ∷ concat (
          "Strategy snapshot: "
          ∷ snapshot.profile
          ∷ " / threshold "
          ∷ int_text snapshot.effective_threshold
          ∷ [])
      ∷ [])
    ++ map (append "Score factor: ") r.breakdown

unfoldable pub decided :
    {F : Type 0} → ScoreResult → RiskDecision → StrategySnapshot F → StrategyDecision F
unfolding first_log
decided r risk snapshot =
    if risk.allowed
    then record {
      allowed = true;
      action = "paper_buy";
      reason = r.reason;
      score = r;
      risk = risk;
      log = first_log snapshot r ++ ("Risk checks passed" ∷ "Paper buy queued" ∷ []);
      snapshot = snapshot;
    }
    else record {
      allowed = false;
      action = "skip";
      reason = risk.reason;
      score = r;
      risk = risk;
      log = first_log snapshot r ++ (append "Skipped: " risk.reason ∷ []);
      snapshot = snapshot;
    }

module _ {F : Type 0} ⦃f : Float F⦄ where
  unfoldable pub strategy_snapshot : BotSettings F → StrategySnapshot F
  strategy_snapshot s = record {
    engine_version = engine_version_name;
    profile = s.strategy_profile;
    risk_tolerance = s.risk_tolerance;
    effective_threshold = effective_score_threshold s;
    modules =
        versioned "entry_scoring" true "score-v3"
        ∷ versioned "risk_guards" true "risk-v3"
        ∷ versioned "entry_confirmation" s.entry_confirmation_enabled "entry-confirm-v1"
        ∷ record {
          name = "position_sizing";
          enabled = true;
          version = none;
          trade_size_sol = some s.trade_size_sol;
        }
        ∷ versioned "exit_engine" true "exit-v3"
        ∷ record {
          name = "source_quality";
          enabled = s.stop_on_source_degraded;
          version = none;
          trade_size_sol = none;
        }
        ∷ [];
    weights = record {
      metadata = s.strategy_weight_metadata;
      momentum = s.strategy_weight_momentum;
      pressure = s.strategy_weight_pressure;
      creator = s.strategy_weight_creator;
    };
    exits = record {
      take_profit_pct = s.take_profit_pct;
      stop_loss_pct = s.stop_loss_pct;
      max_hold_time_seconds = s.max_hold_time_seconds;
      max_position_ticks = s.max_position_ticks;
      break_even_stop_enabled = s.break_even_stop_enabled;
      stalled_trade_exit_enabled = s.stalled_trade_exit_enabled;
      sell_pressure_exit_enabled = s.sell_pressure_exit_enabled;
    };
    entry_confirmation = record {
      enabled = s.entry_confirmation_enabled;
      min_buy_velocity = s.entry_confirmation_min_buy_velocity;
      max_sell_pressure = s.entry_confirmation_max_sell_pressure;
      min_metadata_score = s.entry_confirmation_min_metadata_score;
      min_initial_buy_sol = s.entry_confirmation_min_initial_buy_sol;
      min_price_confidence = s.entry_confirmation_min_price_confidence;
      min_observed_trades = s.entry_confirmation_min_observed_trades;
    };
    raw = s;
  }

  unfoldable pub evaluate_scored :
      Option ScoreResult
      → TokenSignal F
      → BotSettings F
      → BotStats F
      → ℤ
      → Option (TokenSignal F × StrategyDecision F)
  unfolding strategy_snapshot scored decided
  evaluate_scored none t s stats open_positions = none
  evaluate_scored (some r) t s stats open_positions = some (
    scored r t,
    decided r (Risk.evaluate (scored r t) s stats open_positions) (strategy_snapshot s),
  )

  -- The token as it is left, and the decision.
  unfoldable pub evaluate :
      TokenSignal F → BotSettings F → BotStats F → ℤ → Option (TokenSignal F × StrategyDecision F)
  unfolding evaluate_scored
  evaluate t s stats open_positions = evaluate_scored (score t s) t s stats open_positions
