-- ===== src/Scoring/Range.antt =====
-- The range of a score, and when there is one.
use crypto_arc_v.Prelude.{
  ℕ, ◌≤◌, ◌≡◌, refl, String, Bool, true, false, Option, some, none, List, [], arith, is_nil,
}
use crypto_arc_v.Prelude.Int.{ℤ, pos, leb_ℤ}
use crypto_arc_v.Number.{Float}
use crypto_arc_v.Models.{BotSettings, TokenSignal}
use crypto_arc_v.Scoring.{
  ScoreResult, Tally, gain, lose, weighted, bounded, result, finish, score, tally_of, metadata_rule,
  momentum_rule, pressure_rule, age_rule, holding_rule, launches_rule, honeypot_rule, rug_rule,
}

-- A score from 0 to 100, a success rate from 5 to 95, and at least one reason.
pub record IsScore (r : ScoreResult) : Type 0 where
  pub low : leb_ℤ (pos 0) r.score ≡ true
  pub high : leb_ℤ r.score (pos 100) ≡ true
  pub rate_low : leb_ℤ (pos 5) r.success_rate_pct ≡ true
  pub rate_high : leb_ℤ r.success_rate_pct (pos 95) ≡ true
  pub explained : is_nil r.breakdown ≡ false

abbrev pub is_some : {A : Type 0} → Option A → Bool
is_some none = false
is_some (some x) = true

result-IsScore :
    (n : ℤ) (reasons : List String) (rate : ℤ)
    → (r : ScoreResult) × (result (bounded n) reasons (some rate) ≡ some r) × IsScore r
unfolding result bounded
result-IsScore n reasons rate = (
  _,
  refl,
  record {
    low = ground arith;
    high = ground arith;
    rate_low = ground arith;
    rate_high = ground arith;
    explained = ground arith;
  },
)

bounded_low : (n : ℤ) → leb_ℤ (pos 0) (bounded n) ≡ true
unfolding bounded
bounded_low n = ground arith

bounded_high : (n : ℤ) → leb_ℤ (bounded n) (pos 100) ≡ true
unfolding bounded
bounded_high n = ground arith

finish-IsScore :
    {F : Type 0} (f : Float F) (tally : Tally)
    → is_some tally ≡ true
    → ((n : ℤ)
        → leb_ℤ (pos 0) n ≡ true
        → leb_ℤ n (pos 100) ≡ true
        → is_some (f.to_int (f.number.mul (f.of_int n) (f.number.lit 82 2))) ≡ true)
    → (r : ScoreResult) × (finish f tally ≡ some r) × IsScore r
unfolding finish
finish-IsScore f none h g = absurd (ground arith)
finish-IsScore f (some (n, reasons)) h g =
    go (f.to_int (f.number.mul (f.of_int (bounded n)) (f.number.lit 82 2)))
      (g (bounded n) (bounded_low n) (bounded_high n))
  where
    go :
        (rate : Option ℤ)
        → is_some rate ≡ true
        → (r : ScoreResult) × (result (bounded n) reasons rate ≡ some r) × IsScore r
    go none e = absurd (ground arith)
    go (some rate) e = result-IsScore n reasons rate

module _ {F : Type 0} ⦃f : Float F⦄ where
  -- The points that the settings' weights give are finite, as the rate of a score from 0 to 100 is.
  pub record IsFinite (s : BotSettings F) : Type 0 where
    pub metadata :
        (points : ℕ) → points ≤ 28 → is_some (weighted points s.strategy_weight_metadata) ≡ true
    pub momentum :
        (points : ℕ) → points ≤ 28 → is_some (weighted points s.strategy_weight_momentum) ≡ true
    pub pressure :
        (points : ℕ) → points ≤ 28 → is_some (weighted points s.strategy_weight_pressure) ≡ true
    pub creator :
        (points : ℕ) → points ≤ 28 → is_some (weighted points s.strategy_weight_creator) ≡ true
    pub rate :
        (n : ℤ)
        → leb_ℤ (pos 0) n ≡ true
        → leb_ℤ n (pos 100) ≡ true
        → is_some (f.to_int (f.number.mul (f.of_int n) (f.number.lit 82 2))) ≡ true

  module _ (t : TokenSignal F) (s : BotSettings F) (i : IsFinite s) (tally : Tally)
      (h : is_some tally ≡ true) where
    metadata_rule_some : is_some (metadata_rule t s tally) ≡ true
    unfolding metadata_rule gain lose
    metadata_rule_some = ground (arith, i.metadata 18 (omega arith), h)

    momentum_rule_some : is_some (momentum_rule t s tally) ≡ true
    unfolding momentum_rule gain lose
    momentum_rule_some = ground (arith, i.momentum 24 (omega arith), i.momentum 16 (omega arith), h)

    pressure_rule_some : is_some (pressure_rule t s tally) ≡ true
    unfolding pressure_rule gain lose
    pressure_rule_some = ground (arith, i.pressure 12 (omega arith), i.pressure 28 (omega arith), h)

    holding_rule_some : is_some (holding_rule t s tally) ≡ true
    unfolding holding_rule gain lose
    holding_rule_some = ground (arith, i.creator 18 (omega arith), i.creator 5 (omega arith), h)

    launches_rule_some : is_some (launches_rule t s tally) ≡ true
    unfolding launches_rule lose
    launches_rule_some = ground (arith, i.creator 8 (omega arith), h)

  module _ (t : TokenSignal F) (tally : Tally) (h : is_some tally ≡ true) where
    age_rule_some : is_some (age_rule t tally) ≡ true
    unfolding age_rule gain
    age_rule_some = ground (arith, h)

    honeypot_rule_some : is_some (honeypot_rule t tally) ≡ true
    unfolding honeypot_rule lose
    honeypot_rule_some = ground (arith, h)

    rug_rule_some : is_some (rug_rule t tally) ≡ true
    unfolding rug_rule lose
    rug_rule_some = ground (arith, h)

  -- With finite weights every token is scored: the score is between 0 and 100, the success rate between
  -- 5 and 95, and there is a reason.
  pub score-IsScore :
      (t : TokenSignal F) (s : BotSettings F)
      → IsFinite s
      → (r : ScoreResult) × (score t s ≡ some r) × IsScore r
  unfolding score tally_of
  score-IsScore t s i =
      finish-IsScore f _
        (rug_rule_some t _ (
          honeypot_rule_some t _ (
            launches_rule_some t s i _ (
              holding_rule_some t s i _ (
                age_rule_some t _ (
                  pressure_rule_some t s i _ (
                    momentum_rule_some t s i _
                      (metadata_rule_some t s i (some (pos 35, [])) refl))))))))
        i.rate
