-- ===== src/Risk.antt =====
-- `RiskEngine` of backend/app/core/risk.py: the guards that can veto an entry. Early returns of a
-- reason are a table of checks read up to the first that fails.
pub mod Threshold
pub mod Verdict
use crypto_arc_v.Prelude.{
  ℕ, String, Bool, true, false, not, ◌&&◌, ◌||◌, Option, some, none, List, [], ◌∷◌, if◌then◌else◌,
  is_empty, str_eq,
}
use crypto_arc_v.Prelude.Int.{ℤ, pos, negsuc, ltb_ℤ, leb_ℤ, max_ℤ, min_ℤ, ◌+ℤ◌}
use crypto_arc_v.Prelude.Checks.{Checks, first_failing}
use crypto_arc_v.Prelude.Text.{concat, int_text}
use crypto_arc_v.Number.{Number, Float, min_of, abs_of}
use crypto_arc_v.Models.{BotSettings, TokenSignal, BotStats}

pub record RiskDecision : Type 0 where
  pub allowed : Bool
  pub reason : String

-- `PROFILE_SCORE_OFFSETS.get(profile, 0)`
unfoldable pub profile_score_offset : String → ℤ
profile_score_offset profile =
    if str_eq profile "conservative"
    then pos 8
    else if str_eq profile "balanced"
    then pos 0
    else if str_eq profile "aggressive"
    then negsuc 6
    else if str_eq profile "scalper"
    then negsuc 3
    else pos 0

-- `RISK_SCORE_OFFSETS.get(tolerance, 0)`
unfoldable pub risk_score_offset : String → ℤ
risk_score_offset tolerance =
    if str_eq tolerance "low"
    then pos 8
    else if str_eq tolerance "medium"
    then pos 0
    else if str_eq tolerance "high"
    then negsuc 5
    else if str_eq tolerance "degen"
    then negsuc 11
    else pos 0

-- `RiskDecision(False, reason)` for the first guard that fails
decision : Option String → RiskDecision
decision none = record { allowed = true; reason = "risk checks passed" }
decision (some reason) = record { allowed = false; reason = reason }

module _ {F : Type 0} ⦃f : Float F⦄ where
  abbrev num : Number F
  num = f.number

  open f.number use {lit, add, lt, le}

  abbrev two_places : F → String
  two_places x = f.format x 2

  unfoldable pub effective_score_threshold : BotSettings F → ℤ
  unfolding profile_score_offset risk_score_offset
  effective_score_threshold s = max_ℤ (pos 0) (
      min_ℤ (pos 100) (
        s.score_threshold
        +ℤ profile_score_offset s.strategy_profile
        +ℤ risk_score_offset s.risk_tolerance))

  -- The condition under which `entry_confirmation_reason` returns the empty text.
  unfoldable pub entry_confirmed : TokenSignal F → BotSettings F → Bool
  entry_confirmed t s =
      let observed_required = max_ℤ (pos 0) s.entry_confirmation_min_observed_trades in
      let observed_ok = leb_ℤ observed_required t.observed_price_updates in
      let price_ok = le s.entry_confirmation_min_price_confidence t.price_confidence in
      let observed_confirmation = observed_ok && price_ok in
      let launch_confirmation =
        le s.entry_confirmation_min_buy_velocity t.buy_velocity
        && le t.sell_pressure s.entry_confirmation_max_sell_pressure
        && le s.entry_confirmation_min_metadata_score t.metadata_score in
      let seeded_launch_confirmation =
        launch_confirmation
        && (le s.entry_confirmation_min_initial_buy_sol t.initial_buy_sol
            || price_ok
            || le
                (min_of ⦃n = num⦄ (lit 10 1) (add s.entry_confirmation_min_buy_velocity (lit 15 2)))
                t.buy_velocity) in
      observed_confirmation || seeded_launch_confirmation

  -- The text that `entry_confirmation_reason` returns otherwise.
  unfoldable pub confirmation_missing : TokenSignal F → BotSettings F → String
  confirmation_missing t s = concat (
      "entry confirmation missing: "
      ∷ "buy velocity "
      ∷ two_places t.buy_velocity
      ∷ "/"
      ∷ two_places s.entry_confirmation_min_buy_velocity
      ∷ ", "
      ∷ "sell pressure "
      ∷ two_places t.sell_pressure
      ∷ "/"
      ∷ two_places s.entry_confirmation_max_sell_pressure
      ∷ " max, "
      ∷ "metadata "
      ∷ two_places t.metadata_score
      ∷ "/"
      ∷ two_places s.entry_confirmation_min_metadata_score
      ∷ ", "
      ∷ "initial buy "
      ∷ two_places t.initial_buy_sol
      ∷ "/"
      ∷ two_places s.entry_confirmation_min_initial_buy_sol
      ∷ " SOL, "
      ∷ "price confidence "
      ∷ two_places t.price_confidence
      ∷ "/"
      ∷ two_places s.entry_confirmation_min_price_confidence
      ∷ ", "
      ∷ "observed trades "
      ∷ int_text t.observed_price_updates
      ∷ "/"
      ∷ int_text (max_ℤ (pos 0) s.entry_confirmation_min_observed_trades)
      ∷ [])

  unfoldable pub entry_confirmation_reason : TokenSignal F → BotSettings F → String
  entry_confirmation_reason t s =
      if not s.entry_confirmation_enabled
      then ""
      else if entry_confirmed t s
      then ""
      else confirmation_missing t s

  -- The guards of `evaluate` in their order, each with the reason that it returns.
  unfoldable pub risk_checks : TokenSignal F → BotSettings F → BotStats F → ℤ → Checks
  risk_checks t s stats open_positions =
      (le s.trade_size_sol (lit 0 0), "trade size must be above zero")
      ∷ (lt s.daily_loss_cap_sol s.trade_size_sol, "trade size exceeds daily loss cap")
      ∷ (
        le s.daily_loss_cap_sol (abs_of ⦃n = num⦄ (min_of ⦃n = num⦄ (lit 0 1) stats.total_pnl_sol)),
        "daily loss cap reached",
      )
      ∷ (leb_ℤ s.max_open_positions open_positions, "maximum paper positions reached")
      ∷ (s.filter_honeypots && t.honeypot_risk, "honeypot risk filter triggered")
      ∷ (s.filter_rug_risk && t.rug_risk, "rug-pull risk filter triggered")
      ∷ (
        lt t.buy_velocity s.min_buy_velocity,
        concat (
            "buy velocity "
            ∷ two_places t.buy_velocity
            ∷ " below minimum "
            ∷ two_places s.min_buy_velocity
            ∷ []),
      )
      ∷ (
        lt s.max_sell_pressure t.sell_pressure,
        concat (
            "sell pressure "
            ∷ two_places t.sell_pressure
            ∷ " above maximum "
            ∷ two_places s.max_sell_pressure
            ∷ []),
      )
      ∷ (
        lt t.metadata_score s.min_metadata_score,
        concat (
            "metadata score "
            ∷ two_places t.metadata_score
            ∷ " below minimum "
            ∷ two_places s.min_metadata_score
            ∷ []),
      )
      ∷ (not (is_empty (entry_confirmation_reason t s)), entry_confirmation_reason t s)
      ∷ (
        ltb_ℤ s.max_token_age_seconds t.age_seconds,
        concat (
            "token age "
            ∷ int_text t.age_seconds
            ∷ "s above maximum "
            ∷ int_text s.max_token_age_seconds
            ∷ "s"
            ∷ []),
      )
      ∷ (
        lt s.max_creator_hold_pct t.creator_hold_pct,
        concat (
            "creator hold "
            ∷ f.format t.creator_hold_pct 1
            ∷ "% above limit "
            ∷ f.format s.max_creator_hold_pct 1
            ∷ "%"
            ∷ []),
      )
      ∷ (
        ltb_ℤ t.score (effective_score_threshold s),
        concat (
            "score "
            ∷ int_text t.score
            ∷ " below entry threshold "
            ∷ int_text (effective_score_threshold s)
            ∷ []),
      )
      ∷ []

  unfoldable pub evaluate : TokenSignal F → BotSettings F → BotStats F → ℤ → RiskDecision
  unfolding decision
  evaluate t s stats open_positions =
      decision (first_failing (risk_checks t s stats open_positions))
