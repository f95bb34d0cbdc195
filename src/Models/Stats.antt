-- ===== src/Models/Stats.antt =====
-- `BotStats` of backend/app/core/models.py, with every field and default.
use crypto_arc_v.Prelude.Int.{ℤ, pos}
use crypto_arc_v.Number.{Number}

pub record BotStats (F : Type 0) : Type 0 where
  pub total_trades : ℤ
  pub successful_trades : ℤ
  pub losing_trades : ℤ
  pub scratch_trades : ℤ
  pub skipped_tokens : ℤ
  pub open_positions : ℤ
  pub closed_trades : ℤ
  pub win_rate_pct : ℤ
  pub gross_win_rate_pct : ℤ
  pub scratch_rate_pct : ℤ
  pub scratch_threshold_sol : F
  pub total_pnl_sol : F
  pub entry_fees_sol : F
  pub exit_fees_sol : F
  pub total_fees_sol : F
  pub best_trade_sol : F
  pub worst_trade_sol : F
  pub average_win_sol : F
  pub average_loss_sol : F
  pub profit_factor : F
  pub max_drawdown_sol : F
  pub avg_hold_seconds : ℤ

-- `BotStats()` with the defaults of the dataclass.
abbrev pub default_stats : {F : Type 0} ⦃n : Number F⦄ → BotStats F
default_stats ⦃n⦄ = record {
  total_trades = pos 0;
  successful_trades = pos 0;
  losing_trades = pos 0;
  scratch_trades = pos 0;
  skipped_tokens = pos 0;
  open_positions = pos 0;
  closed_trades = pos 0;
  win_rate_pct = pos 0;
  gross_win_rate_pct = pos 0;
  scratch_rate_pct = pos 0;
  scratch_threshold_sol = n.lit 1 3;
  total_pnl_sol = n.lit 0 0;
  entry_fees_sol = n.lit 0 0;
  exit_fees_sol = n.lit 0 0;
  total_fees_sol = n.lit 0 0;
  best_trade_sol = n.lit 0 0;
  worst_trade_sol = n.lit 0 0;
  average_win_sol = n.lit 0 0;
  average_loss_sol = n.lit 0 0;
  profit_factor = n.lit 0 0;
  max_drawdown_sol = n.lit 0 0;
  avg_hold_seconds = pos 0;
}
