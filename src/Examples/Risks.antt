-- ===== src/Examples/Risks.antt =====
-- A strong launch under the default settings (backend/app/core/risk.py and scoring.py).
use crypto_arc_v.Prelude.{◌≡◌, ◌↔◌, refl, true, some}
use crypto_arc_v.Prelude.Int.{pos, ◌≤ℤ◌}
use crypto_arc_v.Number.Fixed.{Fixed, fixed_number, fixed_float}
use crypto_arc_v.Models.{
  BotSettings, default_settings, TokenSignal, new_token, BotStats, default_stats,
}
use crypto_arc_v.Risk.{effective_score_threshold}
use crypto_arc_v.Risk.Verdict.{IsAcceptable}
use crypto_arc_v.Strategy.{StrategyDecision, scored}
use crypto_arc_v.Strategy.Entries.{evaluate-IsAcceptable, evaluate-again}
use crypto_arc_v.Strategy
use crypto_arc_v.Scoring.Range.{IsFinite, IsScore}

abbrev settings : BotSettings Fixed
settings = default_settings

abbrev stats : BotStats Fixed
stats = default_stats

abbrev token : TokenSignal Fixed
token = record (new_token "t1" "ABC" "Abc" "mint" "creator" (record { aware = true; micros = 0 })) {
  score = pos 80;
  metadata_score = pos 800_000_000;
  buy_velocity = pos 900_000_000;
  sell_pressure = pos 100_000_000;
  initial_buy_sol = pos 500_000_000;
}

finite : IsFinite settings
finite = record {
  metadata = λ n h. refl;
  momentum = λ n h. refl;
  pressure = λ n h. refl;
  creator = λ n h. refl;
  rate = λ n h k. refl;
}

abbrev found :
    (d : StrategyDecision Fixed) × (Strategy.evaluate token settings stats (pos 0)
      ≡ some (scored d.score token, d))
    × IsScore d.score
    × ((d.allowed ≡ true) ↔ IsAcceptable (scored d.score token) settings stats (pos 0))
    × (d.allowed ≡ true → effective_score_threshold settings ≤ℤ d.score.score)
found = evaluate-IsAcceptable token settings stats (pos 0) finite

evaluate-IsAcceptable_example :
    (d : StrategyDecision Fixed) × (Strategy.evaluate token settings stats (pos 0)
      ≡ some (scored d.score token, d))
    × IsScore d.score
    × ((d.allowed ≡ true) ↔ IsAcceptable (scored d.score token) settings stats (pos 0))
    × (d.allowed ≡ true → effective_score_threshold settings ≤ℤ d.score.score)
evaluate-IsAcceptable_example = evaluate-IsAcceptable token settings stats (pos 0) finite

evaluate-again_example :
    Strategy.evaluate (scored found.0.score token) settings stats (pos 0)
    ≡ some (scored found.0.score token, found.0)
evaluate-again_example =
    evaluate-again token (scored found.0.score token) found.0 settings stats (pos 0) found.1
