-- ===== src/Models/Settings.antt =====
-- `BotMode` and `BotSettings` of backend/app/core/models.py, with every field and default.
use crypto_arc_v.Prelude.{String, Bool, true, false}
use crypto_arc_v.Prelude.Int.{ℤ, pos}
use crypto_arc_v.Number.{Number}

pub data BotMode : Type 0 where
  preview paper live_locked : BotMode

pub record BotSettings (F : Type 0) : Type 0 where
  pub mode : BotMode
  pub launch_source : String
  pub strategy_profile : String
  pub trade_size_sol : F
  pub slippage_tolerance_pct : F
  pub take_profit_pct : F
  pub stop_loss_pct : F
  pub daily_loss_cap_sol : F
  pub wallet_balance_cap_sol : F
  pub max_creator_hold_pct : F
  pub trading_speed : String
  pub max_hold_time_seconds : ℤ
  pub minimum_hold_time_seconds : ℤ
  pub risk_tolerance : String
  pub score_threshold : ℤ
  pub max_open_positions : ℤ
  pub launch_interval_seconds : F
  pub paper_price_volatility_pct : F
  pub max_position_ticks : ℤ
  pub require_live_confirmation : Bool
  pub detect_new_tokens : Bool
  pub auto_refresh : Bool
  pub filter_honeypots : Bool
  pub filter_rug_risk : Bool
  pub live_trading_enabled : Bool
  pub min_buy_velocity : F
  pub max_sell_pressure : F
  pub min_metadata_score : F
  pub max_token_age_seconds : ℤ
  pub source_stale_seconds : ℤ
  pub source_max_reconnects : ℤ
  pub backtest_replay_limit : ℤ
  pub raw_replay_limit : ℤ
  pub enable_trade_toasts : Bool
  pub compact_table_mode : Bool
  pub paper_fill_delay_ticks : ℤ
  pub paper_fee_bps : F
  pub paper_priority_fee_sol : F
  pub paper_price_impact_pct : F
  pub paper_failed_fill_pct : F
  pub duplicate_symbol_penalty : Bool
  pub strict_metadata_checks : Bool
  pub use_observed_prices : Bool
  pub max_trade_subscriptions : ℤ
  pub min_price_confidence : F
  pub max_first_observed_move_pct : F
  pub prefer_market_cap_price : Bool
  pub trailing_stop_enabled : Bool
  pub trailing_stop_pct : F
  pub partial_take_profit_enabled : Bool
  pub partial_take_profit_pct : F
  pub partial_take_profit_fraction : F
  pub cooldown_after_loss_enabled : Bool
  pub cooldown_after_loss_seconds : ℤ
  pub entry_confirmation_enabled : Bool
  pub entry_confirmation_min_buy_velocity : F
  pub entry_confirmation_max_sell_pressure : F
  pub entry_confirmation_min_metadata_score : F
  pub entry_confirmation_min_initial_buy_sol : F
  pub entry_confirmation_min_price_confidence : F
  pub entry_confirmation_min_observed_trades : ℤ
  pub max_trades_per_hour_enabled : Bool
  pub max_trades_per_hour : ℤ
  pub velocity_slippage_enabled : Bool
  pub max_same_creator_buys_enabled : Bool
  pub max_same_creator_buys : ℤ
  pub stop_on_source_degraded : Bool
  pub direct_solana_paper_enabled : Bool
  pub direct_solana_min_confidence : F
  pub max_rejected_price_streak_enabled : Bool
  pub max_rejected_price_streak : ℤ
  pub strategy_weight_metadata : F
  pub strategy_weight_momentum : F
  pub strategy_weight_pressure : F
  pub strategy_weight_creator : F
  pub break_even_stop_enabled : Bool
  pub break_even_after_profit_pct : F
  pub stalled_trade_exit_enabled : Bool
  pub stalled_trade_seconds : ℤ
  pub stalled_trade_min_move_pct : F
  pub sell_pressure_exit_enabled : Bool
  pub sell_pressure_exit_threshold : F
  pub kill_switch_enabled : Bool
  pub max_consecutive_losses_enabled : Bool
  pub max_consecutive_losses : ℤ
  pub halt_on_low_replay_confidence : Bool
  pub min_replay_confidence : ℤ
  pub halt_on_low_readiness : Bool
  pub min_readiness_score : ℤ
  pub solana_rpc_url : String
  pub watch_wallet_address : String
  pub manual_live_enabled : Bool
  pub manual_live_max_sol : F
  pub autonomous_live_enabled : Bool
  pub live_max_trade_sol : F
  pub live_daily_loss_cap_sol : F
  pub live_wallet_exposure_cap_sol : F
  pub live_max_open_positions : ℤ
  pub live_max_slippage_pct : F
  pub live_priority_fee_cap_sol : F
  pub live_session_acknowledged : Bool
  pub live_signer_mode : String
  pub live_active_backend_armed : Bool
  pub live_active_wallet_public_key : String
  pub live_hot_wallet_enabled : Bool
  pub live_hot_wallet_public_key : String
  pub live_hot_wallet_label : String
  pub profit_sweep_enabled : Bool
  pub profit_sweep_mode : String
  pub profit_sweep_threshold_sol : F
  pub profit_sweep_amount_sol : F
  pub profit_sweep_percentage : F
  pub profit_sweep_min_profit_sol : F
  pub profit_sweep_destination_wallet : String
  pub profit_sweep_min_reserve_sol : F
  pub profit_sweep_cooldown_seconds : ℤ
  pub profit_sweep_max_per_day : ℤ

-- `BotSettings()` with the defaults of the dataclass.
abbrev pub default_settings : {F : Type 0} ⦃n : Number F⦄ → BotSettings F
default_settings ⦃n⦄ = record {
  mode = paper;
  launch_source = "pumpportal";
  strategy_profile = "balanced";
  trade_size_sol = n.lit 1 1;
  slippage_tolerance_pct = n.lit 1 0;
  take_profit_pct = n.lit 50 0;
  stop_loss_pct = n.lit 30 0;
  daily_loss_cap_sol = n.lit 1 0;
  wallet_balance_cap_sol = n.lit 1 0;
  max_creator_hold_pct = n.lit 10 0;
  trading_speed = "normal";
  max_hold_time_seconds = pos 600;
  minimum_hold_time_seconds = pos 0;
  risk_tolerance = "medium";
  score_threshold = pos 62;
  max_open_positions = pos 3;
  launch_interval_seconds = n.lit 2 0;
  paper_price_volatility_pct = n.lit 18 0;
  max_position_ticks = pos 40;
  require_live_confirmation = true;
  detect_new_tokens = true;
  auto_refresh = true;
  filter_honeypots = true;
  filter_rug_risk = true;
  live_trading_enabled = false;
  min_buy_velocity = n.lit 0 0;
  max_sell_pressure = n.lit 1 0;
  min_metadata_score = n.lit 0 0;
  max_token_age_seconds = pos 120;
  source_stale_seconds = pos 60;
  source_max_reconnects = pos 5;
  backtest_replay_limit = pos 80;
  raw_replay_limit = pos 120;
  enable_trade_toasts = true;
  compact_table_mode = false;
  paper_fill_delay_ticks = pos 0;
  paper_fee_bps = n.lit 50 0;
  paper_priority_fee_sol = n.lit 1 5;
  paper_price_impact_pct = n.lit 15 2;
  paper_failed_fill_pct = n.lit 0 0;
  duplicate_symbol_penalty = true;
  strict_metadata_checks = false;
  use_observed_prices = true;
  max_trade_subscriptions = pos 60;
  min_price_confidence = n.lit 45 2;
  max_first_observed_move_pct = n.lit 500 0;
  prefer_market_cap_price = true;
  trailing_stop_enabled = false;
  trailing_stop_pct = n.lit 18 0;
  partial_take_profit_enabled = false;
  partial_take_profit_pct = n.lit 25 0;
  partial_take_profit_fraction = n.lit 5 1;
  cooldown_after_loss_enabled = false;
  cooldown_after_loss_seconds = pos 0;
  entry_confirmation_enabled = true;
  entry_confirmation_min_buy_velocity = n.lit 7 1;
  entry_confirmation_max_sell_pressure = n.lit 35 2;
  entry_confirmation_min_metadata_score = n.lit 65 2;
  entry_confirmation_min_initial_buy_sol = n.lit 35 2;
  entry_confirmation_min_price_confidence = n.lit 7 1;
  entry_confirmation_min_observed_trades = pos 1;
  max_trades_per_hour_enabled = true;
  max_trades_per_hour = pos 30;
  velocity_slippage_enabled = true;
  max_same_creator_buys_enabled = true;
  max_same_creator_buys = pos 3;
  stop_on_source_degraded = false;
  direct_solana_paper_enabled = false;
  direct_solana_min_confidence = n.lit 65 2;
  max_rejected_price_streak_enabled = true;
  max_rejected_price_streak = pos 5;
  strategy_weight_metadata = n.lit 1 0;
  strategy_weight_momentum = n.lit 1 0;
  strategy_weight_pressure = n.lit 1 0;
  strategy_weight_creator = n.lit 1 0;
  break_even_stop_enabled = false;
  break_even_after_profit_pct = n.lit 15 0;
  stalled_trade_exit_enabled = false;
  stalled_trade_seconds = pos 90;
  stalled_trade_min_move_pct = n.lit 3 0;
  sell_pressure_exit_enabled = false;
  sell_pressure_exit_threshold = n.lit 65 2;
  kill_switch_enabled = false;
  max_consecutive_losses_enabled = false;
  max_consecutive_losses = pos 5;
  halt_on_low_replay_confidence = false;
  min_replay_confidence = pos 50;
  halt_on_low_readiness = false;
  min_readiness_score = pos 70;
  solana_rpc_url = "https://api.mainnet-beta.solana.com";
  watch_wallet_address = "";
  manual_live_enabled = false;
  manual_live_max_sol = n.lit 5 2;
  autonomous_live_enabled = false;
  live_max_trade_sol = n.lit 0 0;
  live_daily_loss_cap_sol = n.lit 0 0;
  live_wallet_exposure_cap_sol = n.lit 0 0;
  live_max_open_positions = pos 0;
  live_max_slippage_pct = n.lit 0 0;
  live_priority_fee_cap_sol = n.lit 0 0;
  live_session_acknowledged = false;
  live_signer_mode = "browser_wallet";
  live_active_backend_armed = false;
  live_active_wallet_public_key = "";
  live_hot_wallet_enabled = false;
  live_hot_wallet_public_key = "";
  live_hot_wallet_label = "";
  profit_sweep_enabled = false;
  profit_sweep_mode = "fixed_sol";
  profit_sweep_threshold_sol = n.lit 0 0;
  profit_sweep_amount_sol = n.lit 0 0;
  profit_sweep_percentage = n.lit 0 0;
  profit_sweep_min_profit_sol = n.lit 0 0;
  profit_sweep_destination_wallet = "";
  profit_sweep_min_reserve_sol = n.lit 0 0;
  profit_sweep_cooldown_seconds = pos 3600;
  profit_sweep_max_per_day = pos 1;
}
