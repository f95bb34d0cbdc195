-- ===== src/PaperTrader/Ticks.antt =====
-- `tick` and `apply_closed_trade` of backend/app/core/paper_trader.py.
use crypto_arc_v.Prelude.{
  ℕ, String, Bool, true, false, not, ◌&&◌, ◌||◌, Option, some, none, [], ◌∷◌, ◌++◌, if◌then◌else◌,
}
use crypto_arc_v.Prelude.Int.{ℤ, pos, negsuc, ltb_ℤ, leb_ℤ, ◌+ℤ◌, ◌-ℤ◌, ◌*ℤ◌}
use crypto_arc_v.Prelude.Checks.{Checks, first_failing}
use crypto_arc_v.Prelude.Text.{concat, int_text}
use crypto_arc_v.Prelude.Time.{Datetime}
use crypto_arc_v.Number.{Float, num_eq, max_of, min_of, abs_of}
use crypto_arc_v.Models.{paper_bought, monitoring, BotSettings, TokenSignal, BotStats}
use crypto_arc_v.PaperTrader.{
  is_buying, is_open, held, num, some_or, zero_float, mark_to_market, close,
}

-- Whether `timedelta(seconds=limit)` raises, when its days leave their range of nine digits.
unfoldable pub is_overflow : Option Datetime → ℤ → Bool
is_overflow none limit = false
is_overflow (some opened) limit =
    ltb_ℤ limit (negsuc 86_399_999_913_599) || ltb_ℤ (pos 86_399_999_999_999) limit

-- `later - earlier >= timedelta(seconds=limit)`, of aware values and a limit in range
unfoldable pub held_for : Option Datetime → Datetime → ℤ → Bool
held_for none now limit = false
held_for (some opened) now limit =
    leb_ℤ (limit *ℤ pos 1_000_000) (pos now.micros -ℤ pos opened.micros)

-- `int((part / whole) * 100) if whole else 0`
unfoldable pub rate_pct : {F : Type 0} → Float F → ℤ → ℤ → Option ℤ
rate_pct f part whole =
    if leb_ℤ whole (pos 0) && leb_ℤ (pos 0) whole
    then some (pos 0)
    else f.to_int
        (f.number.mul (f.number.div (f.of_int part) (f.of_int whole)) (f.number.lit 100 0))

module _ {F : Type 0} ⦃f : Float F⦄ where
  open f.number use {lit, neg, add, sub, mul, div, lt, le}

  -- The wait for a delayed fill.
  unfoldable pub fill_step : TokenSignal F → TokenSignal F
  fill_step t =
      let remaining = t.fill_delay_ticks_remaining -ℤ pos 1 in
      let pending =
        concat ("Paper fill pending; " ∷ int_text remaining ∷ " ticks remaining" ∷ []) in
      let done = leb_ℤ remaining (pos 0) && leb_ℤ (pos 0) remaining in
      record t {
        fill_delay_ticks_remaining = remaining;
        status = if done then paper_bought else t.status;
        decision_log =
            t.decision_log ++ (pending ∷ (if done then "Paper delayed buy filled" ∷ [] else []));
      }

  -- A price that was just set.
  abbrev pub price_of : Option F → F
  price_of none = zero_float
  price_of (some price) = price

  -- The move of the price in percent, of a token that has an entry price that is not zero.
  abbrev pub move_pct : F → F → F
  move_pct entry current = mul (div (sub current entry) entry) (lit 100 0)

  -- A tick's new price, and what it does to the extremes.
  unfoldable pub repriced : Datetime → F → F → TokenSignal F → TokenSignal F
  repriced now delta entry t =
      let current =
        max_of ⦃n = num⦄ (lit 1 7)
          (mul (some_or t.current_price entry) (add (lit 1 0) (div delta (lit 100 0)))) in
      let unrealized = f.round (move_pct entry current) 2 in
      record t {
        status = monitoring;
        ticks_held = t.ticks_held +ℤ pos 1;
        current_price = some current;
        peak_price = some (max_of ⦃n = num⦄ (some_or t.peak_price current) current);
        trough_price = some (min_of ⦃n = num⦄ (some_or t.trough_price current) current);
        unrealized_pct = unrealized;
        highest_unrealized_pct = max_of ⦃n = num⦄ t.highest_unrealized_pct unrealized;
        lowest_unrealized_pct = min_of ⦃n = num⦄ t.lowest_unrealized_pct unrealized;
        hold_duration_seconds = held t.opened_at now t.hold_duration_seconds;
      }

  -- The partial take profit, which is taken once.
  unfoldable pub partly_taken : F → BotSettings F → TokenSignal F → TokenSignal F
  partly_taken move s t =
      let fraction =
        max_of ⦃n = num⦄ (zero_float) (min_of ⦃n = num⦄ (lit 1 0) s.partial_take_profit_fraction) in
      let message = concat (
        "Partial take profit filled: "
        ∷ f.format (mul fraction (lit 100 0)) 0
        ∷ "% at "
        ∷ f.format move 2
        ∷ "% move"
        ∷ []) in
      if s.partial_take_profit_enabled
        && not t.partial_take_profit_taken
        && le s.partial_take_profit_pct move
      then record t {
        realized_pnl_sol =
            f.round (add t.realized_pnl_sol (mul (some_or t.pnl_sol zero_float) fraction)) 6;
        remaining_fraction =
            f.round (max_of ⦃n = num⦄ zero_float (sub t.remaining_fraction fraction)) 4;
        partial_take_profit_taken = true;
        decision_log = t.decision_log ++ (message ∷ []);
      }
      else t

  -- The exits in their order, each with the reason that `close` is given, up to the maximum hold time.
  unfoldable pub price_checks : F → BotSettings F → TokenSignal F → Checks
  price_checks move s t =
      (le s.take_profit_pct move, "take profit")
      ∷ (
        s.trailing_stop_enabled
            && le s.partial_take_profit_pct t.highest_unrealized_pct
            && le move (sub t.highest_unrealized_pct s.trailing_stop_pct),
        "trailing stop",
      )
      ∷ (
        s.break_even_stop_enabled
            && le s.break_even_after_profit_pct t.highest_unrealized_pct
            && le move zero_float,
        "break-even stop",
      )
      ∷ (
        s.stalled_trade_exit_enabled
            && leb_ℤ s.stalled_trade_seconds t.hold_duration_seconds
            && le (abs_of ⦃n = num⦄ move) s.stalled_trade_min_move_pct,
        "stalled trade",
      )
      ∷ (
        s.sell_pressure_exit_enabled && le s.sell_pressure_exit_threshold t.sell_pressure,
        "sell pressure exit",
      )
      ∷ (le move (neg s.stop_loss_pct), "stop loss")
      ∷ []

  -- The last two exits; `now` is the reading that the maximum hold time is measured by.
  unfoldable pub time_checks : Datetime → BotSettings F → TokenSignal F → Checks
  time_checks now s t =
      (held_for t.opened_at now s.max_hold_time_seconds, "max hold time")
      ∷ (leb_ℤ s.max_position_ticks t.ticks_held, "max position ticks")
      ∷ []

  -- The reason to exit; `timedelta` raises only if no earlier exit applies.
  unfoldable pub reason_of :
      Datetime → BotSettings F → TokenSignal F → Option String → Option (Option String)
  reason_of now s t (some reason) = some (some reason)
  reason_of now s t none =
      if is_overflow t.opened_at s.max_hold_time_seconds
      then none
      else some (first_failing (time_checks now s t))

  -- The reason to exit, or that the tick raises; there is none before the minimum hold time.
  unfoldable pub exit_reason_of :
      Datetime → F → BotSettings F → TokenSignal F → Option (Option String)
  exit_reason_of now move s t =
      if leb_ℤ s.minimum_hold_time_seconds t.hold_duration_seconds
      then reason_of now s t (first_failing (price_checks move s t))
      else some none

  -- `close` for the reason that was found, with its two readings of the clock.
  unfoldable pub exit_for :
      Datetime
      → Datetime
      → BotSettings F
      → TokenSignal F
      → Option (Option String)
      → Option (TokenSignal F × Bool)
  exit_for marked_at closed_at s t none = none
  exit_for marked_at closed_at s t (some none) = some (t, false)
  exit_for marked_at closed_at s t (some (some reason)) =
      elim (close marked_at closed_at t s reason) [ none ↦ none | some u ↦ some (u, true) ]

  -- The rest of a tick, after `mark_to_market`.
  unfoldable pub after_mark :
      (ℕ → Datetime) → F → BotSettings F → Option (TokenSignal F) → Option (TokenSignal F × Bool)
  after_mark clock move s none = none
  after_mark clock move s (some t) =
      let u = partly_taken move s t in
      exit_for (clock 3) (clock 4) s u (exit_reason_of (clock 2) move s u)

  unfoldable pub tick_open :
      (ℕ → Datetime) → F → BotSettings F → Option F → TokenSignal F → Option (TokenSignal F × Bool)
  tick_open clock delta s none t = some (t, false)
  tick_open clock delta s (some entry) t =
      let u = repriced (clock 0) delta entry t in
      let move = move_pct entry (price_of u.current_price) in
      if num_eq ⦃n = num⦄ entry zero_float
      then none
      else after_mark clock move s (mark_to_market (clock 1) u s)

  -- `tick`; with the token it returns whether the position was closed, and nothing if it raises.
  unfoldable pub tick :
      (ℕ → Datetime) → F → TokenSignal F → BotSettings F → Option (TokenSignal F × Bool)
  tick clock delta t s =
      if is_buying t.status && ltb_ℤ (pos 0) t.fill_delay_ticks_remaining
      then some (fill_step t, false)
      else if not (is_open t.status)
      then some (t, false)
      else tick_open clock delta s t.entry_price t

  -- The three counters of `apply_closed_trade`.
  unfoldable pub counted : F → BotStats F → BotStats F
  counted pnl st =
      if lt st.scratch_threshold_sol pnl
      then record st { successful_trades = st.successful_trades +ℤ pos 1 }
      else if lt pnl (neg st.scratch_threshold_sol)
      then record st { losing_trades = st.losing_trades +ℤ pos 1 }
      else record st { scratch_trades = st.scratch_trades +ℤ pos 1 }

  unfoldable pub with_rates : Option ℤ → Option ℤ → Option ℤ → BotStats F → Option (BotStats F)
  with_rates (some win) (some gross) (some scratch) st =
      some
        (record st { win_rate_pct = win; gross_win_rate_pct = gross; scratch_rate_pct = scratch })
  with_rates _ _ _ st = none

  -- The three rates of `apply_closed_trade`.
  unfoldable pub rated : BotStats F → Option (BotStats F)
  rated st =
      let decisive = st.successful_trades +ℤ st.losing_trades in
      with_rates (rate_pct f st.successful_trades decisive)
        (rate_pct f st.successful_trades st.total_trades)
        (rate_pct f st.scratch_trades st.total_trades) st

  -- `apply_closed_trade`; it raises if a rate is not a finite number.
  unfoldable pub apply_closed_trade : TokenSignal F → BotStats F → Option (BotStats F)
  apply_closed_trade t st =
      let pnl = some_or t.pnl_sol zero_float in
      let added = record st {
        total_trades = st.total_trades +ℤ pos 1;
        total_pnl_sol = f.round (add st.total_pnl_sol pnl) 6;
      } in
      let tallied = counted pnl added in
      rated (record tallied {
        best_trade_sol = max_of ⦃n = num⦄ tallied.best_trade_sol pnl;
        worst_trade_sol = min_of ⦃n = num⦄ tallied.worst_trade_sol pnl;
      })
