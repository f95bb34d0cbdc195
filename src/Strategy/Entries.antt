-- ===== src/Strategy/Entries.antt =====
-- What the pipeline buys.
use crypto_arc_v.Prelude.{
  ◌≡◌, ◌↔◌, refl, sym, ap, subst, ◌∙◌, true, some, some-injective, inl, inr, arith, Bool-cases,
  Option-cases,
}
use crypto_arc_v.Prelude.Int.{ℤ, ◌≤ℤ◌}
use crypto_arc_v.Number.{Float}
use crypto_arc_v.Models.{BotSettings, TokenSignal, BotStats}
use crypto_arc_v.Scoring.{
  ScoreResult, score, metadata_rule, momentum_rule, pressure_rule, age_rule, holding_rule,
  launches_rule, honeypot_rule, rug_rule, tally_of,
}
use crypto_arc_v.Scoring.Range.{IsFinite, IsScore, score-IsScore}
use crypto_arc_v.Risk.{RiskDecision, effective_score_threshold}
use crypto_arc_v.Risk.Verdict.{IsAcceptable, evaluate_iff}
use crypto_arc_v.Strategy.{
  StrategySnapshot, StrategyDecision, strategy_snapshot, scored, decided, evaluate_scored, evaluate,
}
use crypto_arc_v.Risk

decided_allowed :
    {F : Type 0} (r : ScoreResult) (risk : RiskDecision) (snapshot : StrategySnapshot F)
    → ((decided r risk snapshot).allowed ≡ risk.allowed) × ((decided r risk snapshot).score ≡ r)
unfolding decided
decided_allowed r risk snapshot = elim (Bool-cases risk.allowed) [
  | inl e ↦ rw e (refl, refl)
  | inr e ↦ rw e (refl, refl)
]

module _ {F : Type 0} ⦃f : Float F⦄ where
  -- With finite weights every launch gets a decision, and it is a purchase exactly if the token, with the score that
  -- it has just been given, breaks no guard of the risk engine; the score is between 0 and 100, and is at least the
  -- effective threshold of every token that is bought.
  pub evaluate-IsAcceptable :
      (t : TokenSignal F) (s : BotSettings F) (stats : BotStats F) (open_positions : ℤ)
      → IsFinite s
      → (d : StrategyDecision F) × (evaluate t s stats open_positions ≡ some (scored d.score t, d))
        × IsScore d.score
        × ((d.allowed ≡ true) ↔ IsAcceptable (scored d.score t) s stats open_positions)
        × (d.allowed ≡ true → effective_score_threshold s ≤ℤ d.score.score)
  unfolding evaluate evaluate_scored scored
  evaluate-IsAcceptable t s stats n i =
      let (r, found, fine) = score-IsScore t s i in
      let d = decided r (Risk.evaluate (scored r t) s stats n) (strategy_snapshot s) in
      let (same, own) =
        decided_allowed r (Risk.evaluate (scored r t) s stats n) (strategy_snapshot s) in
      let verdict = evaluate_iff (scored r t) s stats n in
      (
        d,
        rw (found, own) refl,
        rw own fine,
        rw own (λ h. verdict.0 (sym same ∙ h), λ v. same ∙ verdict.1 v),
        λ h. rw own (verdict.0 (sym same ∙ h)).score,
      )

  -- The score does not read what the pipeline writes.
  score-scored :
      (r : ScoreResult) (t : TokenSignal F) (s : BotSettings F) → score (scored r t) s ≡ score t s
  unfolding score tally_of scored metadata_rule momentum_rule pressure_rule age_rule holding_rule
      launches_rule honeypot_rule rug_rule
  score-scored r t s = refl

  same_again :
      (t : TokenSignal F) (r : ScoreResult) (left : TokenSignal F) (d : StrategyDecision F)
      (s : BotSettings F) (stats : BotStats F) (n : ℤ)
      → score t s ≡ some r
      → scored r t ≡ left
      → decided r (Risk.evaluate (scored r t) s stats n) (strategy_snapshot s) ≡ d
      → evaluate_scored (score left s) left s stats n ≡ some (left, d)
  unfolding evaluate_scored scored
  same_again t r left d s stats n e was decides =
      subst (λ x. evaluate_scored (score x s) x s stats n ≡ some (x, d)) was
        (rw (score-scored r t s, e) (ap (λ x. some (scored r t, x)) decides))

  -- A decision can be repeated: the pipeline, given the token as it has left it, decides the same with the same
  -- score, the same reasons and the same log, and leaves the token as it is.
  pub evaluate-again :
      (t left : TokenSignal F) (d : StrategyDecision F) (s : BotSettings F) (stats : BotStats F)
      (open_positions : ℤ)
      → evaluate t s stats open_positions ≡ some (left, d)
      → evaluate left s stats open_positions ≡ some (left, d)
  unfolding evaluate evaluate_scored
  evaluate-again t left d s stats n h = elim (Option-cases (score t s)) [
    | inl e ↦ absurd (ground (arith, rw e at h))
    | inr (r, e) ↦
        let same = some-injective _ _ (rw e at h) in
        same_again t r left d s stats n e (ap (λ x. x.0) same) (ap (λ x. x.1) same)
  ]
