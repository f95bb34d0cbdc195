-- ===== src/Risk/Threshold.antt =====
-- The score that an entry needs.
use crypto_arc_v.Prelude.{String, arith}
use crypto_arc_v.Prelude.Int.{ℤ, pos, max_ℤ, min_ℤ, ◌+ℤ◌, ◌≤ℤ◌}
use crypto_arc_v.Number.{Float}
use crypto_arc_v.Models.{BotSettings}
use crypto_arc_v.Risk.{profile_score_offset, risk_score_offset, effective_score_threshold}

clamp_mono :
    (a b : ℤ) → a ≤ℤ b → max_ℤ (pos 0) (min_ℤ (pos 100) a) ≤ℤ max_ℤ (pos 0) (min_ℤ (pos 100) b)
clamp_mono a b h = ground arith

sum_mono : (k a b r : ℤ) → a ≤ℤ b → k +ℤ a +ℤ r ≤ℤ k +ℤ b +ℤ r
unfolding ◌+ℤ◌
sum_mono k a b r h = ground arith

module _ {F : Type 0} ⦃f : Float F⦄ where
  abbrev pub with_profile : BotSettings F → String → BotSettings F
  with_profile s profile = record s { strategy_profile = profile }

  threshold_mono :
      (s : BotSettings F) (p q : String)
      → profile_score_offset p ≤ℤ profile_score_offset q
      → effective_score_threshold (with_profile s p) ≤ℤ effective_score_threshold (with_profile s q)
  unfolding effective_score_threshold
  threshold_mono s p q h =
      clamp_mono (s.score_threshold +ℤ profile_score_offset p +ℤ risk_score_offset s.risk_tolerance)
        (s.score_threshold +ℤ profile_score_offset q +ℤ risk_score_offset s.risk_tolerance)
        (sum_mono s.score_threshold (profile_score_offset p) (profile_score_offset q)
          (risk_score_offset s.risk_tolerance) h)

  -- The threshold lies between 0 and 100, and with the other settings as they are it does not rise
  -- from "conservative" to "balanced" to "scalper" to "aggressive".
  pub effective_score_threshold_ordered :
      (s : BotSettings F)
      → let at = λ (profile : String). effective_score_threshold (with_profile s profile) in
        (pos 0 ≤ℤ effective_score_threshold s)
        × (effective_score_threshold s ≤ℤ pos 100)
        × (at "balanced" ≤ℤ at "conservative")
        × (at "scalper" ≤ℤ at "balanced")
        × (at "aggressive" ≤ℤ at "scalper")
  effective_score_threshold_ordered s = (
    unfold effective_score_threshold in ground arith,
    unfold effective_score_threshold in ground arith,
    threshold_mono s "balanced" "conservative" (unfold profile_score_offset in omega arith),
    threshold_mono s "scalper" "balanced" (unfold profile_score_offset in omega arith),
    threshold_mono s "aggressive" "scalper" (unfold profile_score_offset in omega arith),
  )
