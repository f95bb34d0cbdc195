-- ===== src/PaperTrader/Delay.antt =====
-- A delayed fill of a paper trade.
use crypto_arc_v.Prelude.{
  ℕ, zero, suc, ◌≡◌, refl, ap, ◌∙◌, true, false, ◌&&◌, some, List, [], ◌∷◌, arith, length,
}
use crypto_arc_v.Prelude.Int.{pos, ltb_ℤ, ◌-ℤ◌}
use crypto_arc_v.Prelude.Time.{Datetime}
use crypto_arc_v.Number.{Float}
use crypto_arc_v.Models.{buying, paper_bought, BotSettings, TokenSignal}
use crypto_arc_v.PaperTrader.{is_buying}
use crypto_arc_v.PaperTrader.Ticks.{tick, fill_step}
use crypto_arc_v.PaperTrader.Lifecycle.{run_ticks}

pos_suc : (n : ℕ) → (pos (suc n) -ℤ pos 1) ≡ pos n
unfolding ◌-ℤ◌
pos_suc n = ground arith

module _ {F : Type 0} ⦃f : Float F⦄ where
  -- What a token waits for: the fill is `suc n` ticks away.
  pub record IsQueued (n : ℕ) (t : TokenSignal F) : Type 0 where
    pub is_queued : t.status ≡ buying
    pub remaining : t.fill_delay_ticks_remaining ≡ pos (suc n)

  fill_step-remaining :
      (n : ℕ) (t : TokenSignal F) → IsQueued n t → (fill_step t).fill_delay_ticks_remaining ≡ pos n
  unfolding fill_step
  fill_step-remaining n t q = ap (λ x. x -ℤ pos 1) q.remaining ∙ pos_suc n

  fill_step-IsQueued : (n : ℕ) (t : TokenSignal F) → IsQueued (suc n) t → IsQueued n (fill_step t)
  unfolding fill_step
  fill_step-IsQueued n t q = record {
    is_queued = ground (arith, q.is_queued, fill_step-remaining (suc n) t q);
    remaining = fill_step-remaining (suc n) t q;
  }

  tick-IsQueued :
      (n : ℕ) (clock : ℕ → Datetime) (delta : F) (s : BotSettings F) (t : TokenSignal F)
      → IsQueued n t
      → tick clock delta t s ≡ some (fill_step t, false)
  unfolding tick
  tick-IsQueued n clock delta s t q =
      let b : (is_buying t.status && ltb_ℤ (pos 0) t.fill_delay_ticks_remaining) ≡ true =
        ground (arith, q.is_queued, q.remaining) in
      rw b refl

  fill_step-status : (t : TokenSignal F) → IsQueued 0 t → (fill_step t).status ≡ paper_bought
  unfolding fill_step
  fill_step-status t q = ground (arith, fill_step-remaining 0 t q)

  fill_step-entry_price : (t : TokenSignal F) → (fill_step t).entry_price ≡ t.entry_price
  unfolding fill_step
  fill_step-entry_price t = refl

  -- A fill that is `suc n` ticks away is made by exactly that many ticks, whatever the prices do: the
  -- position is then open and nothing is left to wait for.
  pub run_ticks-IsQueued :
      (n : ℕ) (ticks : List ((ℕ → Datetime) × F)) (s : BotSettings F) (t : TokenSignal F)
      → length ticks ≡ suc n
      → IsQueued n t
      → (u : TokenSignal F) × (run_ticks ticks s t ≡ some u)
        × (u.status ≡ paper_bought)
        × (u.fill_delay_ticks_remaining ≡ pos 0)
        × (u.entry_price ≡ t.entry_price)
  unfolding run_ticks
  run_ticks-IsQueued n [] s t e q = absurd (ground arith)
  run_ticks-IsQueued zero ((clock, delta) ∷ []) s t e q = (
    fill_step t,
    rw (tick-IsQueued 0 clock delta s t q, run_ticks) refl,
    fill_step-status t q,
    fill_step-remaining 0 t q,
    fill_step-entry_price t,
  )
  run_ticks-IsQueued zero ((clock, delta) ∷ tick2 ∷ ticks) s t e q = absurd (ground arith)
  run_ticks-IsQueued (suc n) ((clock, delta) ∷ ticks) s t e q =
      let (u, r, a, b, c) =
        run_ticks-IsQueued n ticks s (fill_step t) (ground arith) (fill_step-IsQueued n t q) in
      (
        u,
        rw (tick-IsQueued (suc n) clock delta s t q, run_ticks) r,
        a,
        b,
        c ∙ fill_step-entry_price t,
      )
