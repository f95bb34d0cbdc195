-- ===== src/Examples/Paper.antt =====
-- A paper trade that is filled after two ticks, and one that takes its profit
-- (backend/app/core/paper_trader.py).
use crypto_arc_v.Prelude.{
  ℕ, ◌+◌, ◌≡◌, refl, Bool, true, false, Option, some, List, [], ◌∷◌, length, arith,
}
use crypto_arc_v.Prelude.Int.{pos, ◌+ℤ◌}
use crypto_arc_v.Prelude.Time.{Datetime}
use crypto_arc_v.Prelude.Checks.{first_failing}
use crypto_arc_v.Number.{max_of, min_of}
use crypto_arc_v.Number.Fixed.{Fixed, fixed_number, fixed_float, fixed-IsOrdered}
use crypto_arc_v.Models.{
  buying, paper_bought, BotSettings, default_settings, TokenSignal, new_token, BotStats,
  default_stats,
}
use crypto_arc_v.PaperTrader.{buy, fill_failed, mark_to_market, mark_at, marked, close, sold}
use crypto_arc_v.PaperTrader.Ticks.{
  tick, tick_open, after_mark, exit_for, exit_reason_of, reason_of, price_checks, time_checks,
  is_overflow, partly_taken, repriced, apply_closed_trade, counted, rated, with_rates, rate_pct,
}
use crypto_arc_v.PaperTrader.Lifecycle.{run_ticks, buy-run_ticks}
use crypto_arc_v.PaperTrader.Delay.{run_ticks-IsQueued}
use crypto_arc_v.PaperTrader.Exits.{IsExit, tick_closed}
use crypto_arc_v.PaperTrader.Stats.{IsTallied, apply_all, apply_all-IsTallied}

abbrev settings : BotSettings Fixed
settings = default_settings

abbrev at : ℕ → Datetime
at n = record { aware = true; micros = n }

abbrev token : TokenSignal Fixed
token = new_token "t1" "ABC" "Abc" "mint" "creator" (at 0)

-- Ten percent up and down.
abbrev moves : List ((ℕ → Datetime) × Fixed)
moves = (at, pos 10_000_000_000) ∷ (at, pos 10_000_000_000) ∷ []

hit : fill_failed (λ text. 0) token settings ≡ some false
unfolding fill_failed
hit = refl

buy-run_ticks_example :
    (u : TokenSignal Fixed) × (end : TokenSignal Fixed) × (buy (λ text. 0) (at 0) token settings
      ≡ some u)
    × (run_ticks moves settings u ≡ some end)
buy-run_ticks_example =
    buy-run_ticks fixed-IsOrdered (λ text. 0) (at 0) token settings settings moves
      (record { lowest = omega arith; highest = omega arith }) hit

abbrev queued : TokenSignal Fixed
queued = record token {
  status = buying;
  fill_delay_ticks_remaining = pos 2;
  entry_price = some (pos 1000);
}

run_ticks-IsQueued_example :
    (u : TokenSignal Fixed) × (run_ticks moves settings queued ≡ some u)
    × (u.status ≡ paper_bought)
    × (u.fill_delay_ticks_remaining ≡ pos 0)
    × (u.entry_price ≡ queued.entry_price)
run_ticks-IsQueued_example =
    run_ticks-IsQueued 1 moves settings queued refl (record { is_queued = refl; remaining = refl })

-- Opened at the price 1, and at the price 2 by this tick.
abbrev open_token : TokenSignal Fixed
open_token = record token {
  status = paper_bought;
  amount_sol = some (pos 100_000_000);
  entry_price = some (pos 1_000_000_000);
  current_price = some (pos 1_000_000_000);
  opened_at = some (at 0);
}

abbrev after : Option (TokenSignal Fixed × Bool) → TokenSignal Fixed
after (some (u, closed)) = u
after _ = token

abbrev closed_token : TokenSignal Fixed
closed_token = after (tick at (pos 100_000_000_000) open_token settings)

closes : tick at (pos 100_000_000_000) open_token settings ≡ some (closed_token, true)
unfolding tick tick_open after_mark exit_for exit_reason_of reason_of price_checks time_checks
    is_overflow partly_taken repriced mark_to_market mark_at marked close sold first_failing max_of
    min_of ◌+ℤ◌
closes = refl

tick_closed_example : IsExit at (pos 100_000_000_000) settings (at 0) open_token closed_token
tick_closed_example = tick_closed at settings (pos 100_000_000_000) open_token (at 0) refl closes

abbrev tallied : Option (BotStats Fixed) → BotStats Fixed
tallied (some st) = st
tallied _ = default_stats

abbrev two_trades : List (TokenSignal Fixed)
two_trades = record token { pnl_sol = some (pos 5_000_000) } ∷ token ∷ []

applied : apply_all two_trades default_stats ≡ some (tallied (apply_all two_trades default_stats))
unfolding apply_all apply_closed_trade counted rated with_rates rate_pct max_of min_of ◌+ℤ◌
applied = refl

no_trades : IsTallied {F = Fixed} 0 default_stats
no_trades = record {
  wins = 0;
  losses = 0;
  scratches = 0;
  total = refl;
  won = refl;
  lost = refl;
  even = refl;
  sum = refl;
}

apply_all-IsTallied_example :
    IsTallied (length two_trades + 0) (tallied (apply_all two_trades default_stats))
apply_all-IsTallied_example = apply_all-IsTallied 0 two_trades default_stats no_trades applied
