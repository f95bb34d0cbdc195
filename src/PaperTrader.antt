-- ===== src/PaperTrader.antt =====
-- `PaperTrader` of backend/app/core/paper_trader.py: the life of a paper trade. A method that raises
-- (a division by an entry price of zero, `int` of a float that is not finite) returns `none`. The
-- clock and the digest that decides on a missed fill are parameters: `clock i` is the i-th reading of
-- `utc_now()` in the text of the method, and of the methods it calls.
pub mod Ticks
pub mod Due
pub mod Exits
pub mod Lifecycle
pub mod Delay
pub mod Stats
use crypto_arc_v.Prelude.{
  ℕ, ◌+◌, ◌*◌, ◌-◌, ◌%◌, ◌/◌, String, Bool, true, false, not, ◌&&◌, ◌||◌, Option, some, none, List,
  [], ◌∷◌, ◌++◌, if◌then◌else◌, leb, str_eq,
}
use crypto_arc_v.Prelude.Int.{ℤ, pos, negsuc, ltb_ℤ, leb_ℤ, ◌+ℤ◌, ◌-ℤ◌}
use crypto_arc_v.Prelude.Checks.{Checks, first_failing}
use crypto_arc_v.Prelude.Text.{concat, int_text}
use crypto_arc_v.Prelude.Time.{Datetime, seconds_since}
use crypto_arc_v.Number.{Number, Float, num_eq, zero_lit, max_of, min_of, or_else, abs_of}
use crypto_arc_v.Models.{
  TokenStatus, buying, paper_bought, monitoring, selling, paper_sold, skipped, BotSettings,
  TokenSignal, BotStats,
}

abbrev pub is_buying : TokenStatus → Bool
is_buying buying = true
is_buying _ = false

-- `status in {TokenStatus.PAPER_BOUGHT, TokenStatus.MONITORING}`
abbrev pub is_open : TokenStatus → Bool
is_open paper_bought = true
is_open monitoring = true
is_open _ = false

-- `token.hold_duration_seconds` after `if token.opened_at: …`
abbrev pub held : Option Datetime → Datetime → ℤ → ℤ
held none now old = old
held (some opened) now old = seconds_since opened now

module _ {F : Type 0} ⦃f : Float F⦄ where
  abbrev pub num : Number F
  num = f.number

  open f.number use {lit, neg, add, sub, mul, div, lt, le}

  -- `x or y`, where `x` may be `None`
  abbrev pub some_or : Option F → F → F
  some_or none y = y
  some_or (some x) y = or_else ⦃n = num⦄ x y

  abbrev pub zero_float : F
  zero_float = zero_lit ⦃n = num⦄

  abbrev solana_base_fee_sol : F
  solana_base_fee_sol = lit 5 6

  abbrev hundred : F
  hundred = lit 100 0

  -- `_provider_fee`
  unfoldable pub provider_fee : F → BotSettings F → F
  provider_fee amount s =
      f.round
        (mul (or_else ⦃n = num⦄ amount zero_float)
          (div (or_else ⦃n = num⦄ s.paper_fee_bps zero_float) (lit 10000 0)))
        9

  -- `_priority_fee`
  unfoldable pub priority_fee : BotSettings F → F
  priority_fee s =
      f.round (max_of ⦃n = num⦄ zero_float (or_else ⦃n = num⦄ s.paper_priority_fee_sol zero_float))
        9

  -- `_exit_notional_sol`
  unfoldable pub exit_notional_sol : F → TokenSignal F → F
  exit_notional_sol amount t =
      let entry_price = some_or t.entry_price zero_float in
      let current_price = some_or t.current_price zero_float in
      let amount_sol = or_else ⦃n = num⦄ amount zero_float in
      if le entry_price zero_float || le current_price zero_float
      then max_of ⦃n = num⦄ zero_float amount_sol
      else max_of ⦃n = num⦄ zero_float (mul amount_sol (div current_price entry_price))

  -- `_fill_failed`; `digest` is the number that the first eight hexadecimal digits of the SHA-256 are.
  unfoldable pub fill_failed : (String → ℕ) → TokenSignal F → BotSettings F → Option Bool
  fill_failed digest t s =
      if le s.paper_failed_fill_pct zero_float
      then some false
      else elim (f.to_int (mul s.paper_failed_fill_pct hundred)) [
        | none ↦ none
        | some limit ↦ some (ltb_ℤ (pos (digest (concat (t.id ∷ ":" ∷ t.mint ∷ [])) % 10000)) limit)
      ]

  -- `{"slow": 0.0, "normal": 0.05, "fast": 0.12, "turbo": 0.25}.get(speed, 0.05)`
  unfoldable pub speed_impact : String → F
  speed_impact speed =
      if str_eq speed "slow"
      then zero_float
      else if str_eq speed "normal"
      then lit 5 2
      else if str_eq speed "fast"
      then lit 12 2
      else if str_eq speed "turbo"
      then lit 25 2
      else lit 5 2

  entry_filters : BotSettings F → List String
  entry_filters s =
      concat ("max creator hold " ∷ f.format s.max_creator_hold_pct 1 ∷ "%" ∷ [])
      ∷ (if s.filter_honeypots then "honeypot filter on" else "honeypot filter off")
      ∷ (if s.filter_rug_risk then "rug filter on" else "rug filter off")
      ∷ []

  missed : TokenSignal F → TokenSignal F
  missed t = record t {
    fill_failed = true;
    reason = "paper fill failed";
    decision_log = t.decision_log ++ ("Paper buy failed: simulated fill miss" ∷ []);
    status = skipped;
  }

  fees_text : F → F → F → String
  fees_text provider network priority = concat (
      "; provider "
      ∷ f.format provider 9
      ∷ " SOL; network "
      ∷ f.format network 9
      ∷ " SOL; priority "
      ∷ f.format priority 9
      ∷ " SOL"
      ∷ [])

  -- `token.price_impact_pct` and `token.entry_price` as `buy` sets them
  unfoldable pub price_impact : TokenSignal F → BotSettings F → F
  unfolding speed_impact
  price_impact t s =
      let velocity_impact =
        if s.velocity_slippage_enabled then mul t.buy_velocity (lit 8 2) else zero_float in
      f.round (add (add s.paper_price_impact_pct (speed_impact s.trading_speed)) velocity_impact) 4

  unfoldable pub fill_price : TokenSignal F → BotSettings F → F
  fill_price t s =
      let slippage_multiplier =
        add (lit 1 0) (div (add s.slippage_tolerance_pct (price_impact t s)) hundred) in
      max_of ⦃n = num⦄ (lit 1 6) (mul (some_or t.current_price (lit 1 5)) slippage_multiplier)

  -- `buy` after the fill was not missed; `now` is the reading of the clock.
  unfoldable pub filled : Datetime → TokenSignal F → BotSettings F → TokenSignal F
  unfolding entry_filters fees_text
  filled now t s =
      let delayed = ltb_ℤ (pos 0) s.paper_fill_delay_ticks in
      let remaining = if delayed then s.paper_fill_delay_ticks else t.fill_delay_ticks_remaining in
      let impact = price_impact t s in
      let entry_price = fill_price t s in
      let provider = provider_fee s.trade_size_sol s in
      let priority = priority_fee s in
      let fee_paid = f.round (add (add provider solana_base_fee_sol) priority) 9 in
      record t {
        fill_delay_ticks_remaining = remaining;
        amount_sol = some s.trade_size_sol;
        price_impact_pct = impact;
        entry_price = some entry_price;
        slippage_paid_pct = s.slippage_tolerance_pct;
        entry_provider_fee_sol = provider;
        entry_network_fee_sol = solana_base_fee_sol;
        entry_priority_fee_sol = priority;
        entry_slippage_cost_sol =
            f.round (mul s.trade_size_sol (div s.slippage_tolerance_pct hundred)) 9;
        entry_price_impact_cost_sol = f.round (mul s.trade_size_sol (div impact hundred)) 9;
        fee_paid_sol = fee_paid;
        exit_fee_sol = zero_float;
        total_fees_sol = fee_paid;
        current_price = some entry_price;
        peak_price = some entry_price;
        trough_price = some entry_price;
        opened_at = some now;
        pnl_sol = some zero_float;
        entry_strategy_profile = some s.strategy_profile;
        entry_risk_filters = entry_filters s;
        decision_log =
            t.decision_log
            ++ (if delayed
                then concat (
                    "Paper buy queued with "
                    ∷ int_text s.paper_fill_delay_ticks
                    ∷ " tick fill delay"
                    ∷ [])
                  ∷ []
                else [])
            ++ (concat (
                  "Paper buy filled at "
                  ∷ f.format entry_price 8
                  ∷ "; impact "
                  ∷ f.format impact 2
                  ∷ "%"
                  ∷ fees_text provider solana_base_fee_sol priority
                  ∷ [])
                ∷ []);
        status = if ltb_ℤ (pos 0) remaining then buying else paper_bought;
      }

  unfoldable pub buy :
      (String → ℕ) → Datetime → TokenSignal F → BotSettings F → Option (TokenSignal F)
  unfolding missed
  buy digest now t s = elim (fill_failed digest t s) [
    | none ↦ none
    | some true ↦ some (missed t)
    | some false ↦ some (filled now t s)
  ]

  -- `mark_to_market` of a token that has both prices; `entry` is not zero.
  unfoldable pub marked : Datetime → BotSettings F → F → F → TokenSignal F → TokenSignal F
  marked now s entry current t =
      let move_pct = mul (div (sub current entry) entry) hundred in
      let unrealized = f.round move_pct 2 in
      let amount = some_or t.amount_sol s.trade_size_sol in
      let provider = provider_fee (exit_notional_sol amount t) s in
      let priority = priority_fee s in
      let exit_fee = f.round (add (add provider solana_base_fee_sol) priority) 9 in
      let open_pnl =
        mul (sub (sub (mul amount (div move_pct hundred)) t.fee_paid_sol) exit_fee)
          (max_of ⦃n = num⦄ zero_float t.remaining_fraction) in
      record t {
        unrealized_pct = unrealized;
        highest_unrealized_pct = max_of ⦃n = num⦄ t.highest_unrealized_pct unrealized;
        lowest_unrealized_pct = min_of ⦃n = num⦄ t.lowest_unrealized_pct unrealized;
        hold_duration_seconds = held t.opened_at now t.hold_duration_seconds;
        exit_provider_fee_sol = provider;
        exit_network_fee_sol = solana_base_fee_sol;
        exit_priority_fee_sol = priority;
        exit_fee_sol = exit_fee;
        total_fees_sol = f.round (add (or_else ⦃n = num⦄ t.fee_paid_sol zero_float) exit_fee) 9;
        pnl_sol = some (f.round (add t.realized_pnl_sol open_pnl) 6);
      }

  unfoldable pub mark_at :
      Datetime → BotSettings F → Option F → Option F → TokenSignal F → Option (TokenSignal F)
  mark_at now s (some entry) (some current) t =
      if num_eq ⦃n = num⦄ entry zero_float then none else some (marked now s entry current t)
  mark_at now s _ _ t = some t

  unfoldable pub mark_to_market : Datetime → TokenSignal F → BotSettings F → Option (TokenSignal F)
  unfolding mark_at
  mark_to_market now t s = mark_at now s t.entry_price t.current_price t

  -- The end of `close`, after the mark.
  unfoldable pub sold : Datetime → String → TokenSignal F → TokenSignal F
  unfolding fees_text
  sold now reason t = record t {
    status = paper_sold;
    exit_price = t.current_price;
    closed_at = some now;
    exit_reason = some reason;
    hold_duration_seconds = held t.opened_at now t.hold_duration_seconds;
    decision_log =
        t.decision_log
        ++ (concat (
              "Paper sell filled: "
              ∷ reason
              ∷ "; final P&L "
              ∷ f.format_signed (some_or t.pnl_sol zero_float) 6
              ∷ " SOL"
              ∷ fees_text t.exit_provider_fee_sol t.exit_network_fee_sol t.exit_priority_fee_sol
              ∷ [])
            ∷ []);
  }

  unfoldable pub close :
      Datetime → Datetime → TokenSignal F → BotSettings F → String → Option (TokenSignal F)
  close marked_at closed_at t s reason =
      elim (mark_to_market marked_at (record t { status = selling }) s) [
        | none ↦ none
        | some u ↦ some (sold closed_at reason u)
      ]
