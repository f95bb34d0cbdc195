-- ===== src/Scoring.antt =====
-- `ScoringEngine.score` of backend/app/core/scoring.py, with `settings` given. `int(weight)` raises on a
-- float that is not finite; the score is then `none`. Each `if` of the source is a list of
-- (condition, points, reason); the first that holds counts.
pub mod Range
use crypto_arc_v.Prelude.{
  ℕ, String, Bool, true, false, ◌&&◌, Option, some, none, List, [], ◌∷◌, ◌++◌, if◌then◌else◌,
  is_nil,
}
use crypto_arc_v.Prelude.Int.{ℤ, pos, negsuc, ltb_ℤ, leb_ℤ, max_ℤ, min_ℤ, ◌+ℤ◌, ◌-ℤ◌}
use crypto_arc_v.Prelude.Text.{append}
use crypto_arc_v.Number.{Number, Float}
use crypto_arc_v.Models.{BotSettings, TokenSignal}

pub record ScoreResult : Type 0 where
  pub score : ℤ
  pub success_rate_pct : ℤ
  pub reason : String
  pub breakdown : List String

-- The score so far and the reasons; `none` after an `int` has raised.
abbrev pub Tally : Type 0
Tally = Option (ℤ × List String)

-- `score += points; reasons.append(reason)` and `score -= …`
unfoldable pub gain : Option ℤ → String → Tally → Tally
gain (some points) reason (some (score, reasons)) = some (score +ℤ points, reasons ++ (reason ∷ []))
gain _ reason _ = none

unfoldable pub lose : Option ℤ → String → Tally → Tally
lose (some points) reason (some (score, reasons)) = some (score -ℤ points, reasons ++ (reason ∷ []))
lose _ reason _ = none

-- `", ".join(reasons)`
unfoldable pub joined : List String → String
joined [] = ""
joined (reason ∷ []) = reason
joined (reason ∷ other ∷ reasons) = append reason (append ", " (joined (other ∷ reasons)))

unfoldable pub bounded : ℤ → ℤ
bounded score = max_ℤ (pos 0) (min_ℤ (pos 100) score)

-- The result, given `int(bounded_score * 0.82)`.
unfoldable pub result : ℤ → List String → Option ℤ → Option ScoreResult
unfolding joined
result score reasons none = none
result score reasons (some rate) =
    let told = if is_nil reasons then "neutral launch profile" ∷ [] else reasons in
    some (record {
      score = score;
      success_rate_pct = max_ℤ (pos 5) (min_ℤ (pos 95) rate);
      reason = joined told;
      breakdown = told;
    })

unfoldable pub finish : {F : Type 0} → Float F → Tally → Option ScoreResult
unfolding bounded result
finish g none = none
finish g (some (score, reasons)) =
    result (bounded score) reasons
      (g.to_int (g.number.mul (g.of_int (bounded score)) (g.number.lit 82 2)))

module _ {F : Type 0} ⦃f : Float F⦄ where
  open f.number use {lit, mul, lt, le}

  -- `int(points * weight)`
  abbrev pub weighted : ℕ → F → Option ℤ
  weighted points weight = f.to_int (mul (lit points 0) weight)

  unfoldable pub metadata_rule : TokenSignal F → BotSettings F → Tally → Tally
  unfolding gain lose
  metadata_rule t s tally =
      if le (lit 75 2) t.metadata_score
      then gain (weighted 18 s.strategy_weight_metadata) "clean metadata" tally
      else if lt t.metadata_score (lit 35 2)
      then lose (weighted 18 s.strategy_weight_metadata) "weak metadata" tally
      else tally

  unfoldable pub momentum_rule : TokenSignal F → BotSettings F → Tally → Tally
  unfolding gain lose
  momentum_rule t s tally =
      if le (lit 70 2) t.buy_velocity
      then gain (weighted 24 s.strategy_weight_momentum) "strong early buy velocity" tally
      else if lt t.buy_velocity (lit 25 2)
      then lose (weighted 16 s.strategy_weight_momentum) "thin early demand" tally
      else tally

  unfoldable pub pressure_rule : TokenSignal F → BotSettings F → Tally → Tally
  unfolding gain lose
  pressure_rule t s tally =
      if le t.sell_pressure (lit 25 2)
      then gain (weighted 12 s.strategy_weight_pressure) "low sell pressure" tally
      else if le (lit 65 2) t.sell_pressure
      then lose (weighted 28 s.strategy_weight_pressure) "heavy sell pressure" tally
      else tally

  unfoldable pub age_rule : TokenSignal F → Tally → Tally
  unfolding gain
  age_rule t tally =
      if leb_ℤ t.age_seconds (pos 20) then gain (some (pos 6)) "fresh launch" tally else tally

  unfoldable pub holding_rule : TokenSignal F → BotSettings F → Tally → Tally
  unfolding gain lose
  holding_rule t s tally =
      if le (lit 20 0) t.creator_hold_pct
      then lose (weighted 18 s.strategy_weight_creator) "high creator concentration" tally
      else if lt (lit 0 0) t.creator_hold_pct && le t.creator_hold_pct (lit 8 0)
      then gain (weighted 5 s.strategy_weight_creator) "low creator concentration" tally
      else tally

  unfoldable pub launches_rule : TokenSignal F → BotSettings F → Tally → Tally
  unfolding lose
  launches_rule t s tally =
      if ltb_ℤ (pos 3) t.creator_launch_count
      then lose (weighted 8 s.strategy_weight_creator) "repeat creator pattern" tally
      else tally

  unfoldable pub honeypot_rule : TokenSignal F → Tally → Tally
  unfolding lose
  honeypot_rule t tally =
      if t.honeypot_risk then lose (some (pos 35)) "honeypot risk" tally else tally

  unfoldable pub rug_rule : TokenSignal F → Tally → Tally
  unfolding lose
  rug_rule t tally = if t.rug_risk then lose (some (pos 26)) "rug-pull risk" tally else tally

  unfoldable pub tally_of : TokenSignal F → BotSettings F → Tally
  unfolding metadata_rule momentum_rule pressure_rule age_rule holding_rule launches_rule
      honeypot_rule rug_rule
  tally_of t s = rug_rule t (
      honeypot_rule t (
        launches_rule t s (
          holding_rule t s (
            age_rule t
              (pressure_rule t s (momentum_rule t s (metadata_rule t s (some (pos 35, [])))))))))

  unfoldable pub score : TokenSignal F → BotSettings F → Option ScoreResult
  unfolding finish tally_of
  score t s = finish f (tally_of t s)
