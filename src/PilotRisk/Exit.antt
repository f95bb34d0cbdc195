-- ===== src/PilotRisk/Exit.antt =====
-- When `evaluate_exit` allows a sale, and when it asks for a recovery decision.
use crypto_arc_v.Prelude.{
  ◌≡◌, ◌↔◌, refl, Bool, true, false, not, ◌&&◌, arith, inl, inr, eq_iff, is_nil, ||-false_iff, ◌∙◌,
  ap, sym,
}
use crypto_arc_v.Prelude.Checks.{AllPass, failing, failing-nil, is_nil-failing}
use crypto_arc_v.Prelude.Result.{ok, Result-cases}
use crypto_arc_v.Number.{Decimal}
use crypto_arc_v.PilotRisk.{
  PilotRiskPolicy, PilotRiskRequest, PilotRiskState, PilotRiskDecision, over_cost_cap, exit_checks,
  evaluate_exit,
}

module _ {D : Type 0} ⦃d : Decimal D⦄ where
  open d.number use {lit, le, lt}

  pub record IsSaleable (p : PilotRiskPolicy D) (r : PilotRiskRequest D) : Type 0 where
    pub is_sell : r.action ≡ "sell"
    pub amount_pos : le r.requested_sol (lit 0 0) ≡ false
    pub slippage_nonneg : lt r.slippage_pct (lit 0 0) ≡ false
    pub slippage_le : lt p.initial_slippage_pct r.slippage_pct ≡ false
    pub cost : over_cost_cap p r ≡ ok false

  exit_checks-IsSaleable :
      (p : PilotRiskPolicy D) (r : PilotRiskRequest D) (c : Bool)
      → over_cost_cap p r ≡ ok c
      → AllPass (exit_checks p r c)
      → IsSaleable p r
  unfolding exit_checks
  exit_checks-IsSaleable p r c e (sell, (amount, (slip, (cost, _)))) =
      let slips = (||-false_iff _ _).0 slip in
      record {
        is_sell = ground (arith, eq_iff r.action "sell");
        amount_pos = amount;
        slippage_nonneg = slips.0;
        slippage_le = slips.1;
        cost = e ∙ ap ok cost;
      }

  IsSaleable-exit_checks :
      (p : PilotRiskPolicy D) (r : PilotRiskRequest D)
      → IsSaleable p r
      → AllPass (exit_checks p r false)
  unfolding exit_checks
  IsSaleable-exit_checks p r a = (
    ground (arith, eq_iff r.action "sell", a.is_sell),
    (a.amount_pos, ((||-false_iff _ _).1 (a.slippage_nonneg, a.slippage_le), (refl, tt))),
  )

  -- Whenever `evaluate_exit` returns, it allows the sale exactly if it is saleable, whatever losses,
  -- stops or flags the session has; it asks for a recovery decision exactly if the sale is
  -- protective and refused.
  pub evaluate_exit_lem :
      (p : PilotRiskPolicy D) (r : PilotRiskRequest D) (s : PilotRiskState D)
      {dec : PilotRiskDecision}
      → evaluate_exit p r s ≡ ok dec
      → ((dec.allowed ≡ true) ↔ IsSaleable p r)
        × (dec.requires_explicit_recovery_decision ≡ (r.protective && not dec.allowed))
  unfolding evaluate_exit
  evaluate_exit_lem p r s {dec} e = elim (Result-cases (over_cost_cap p r)) [
    | inl (c, h) ↦
        let checks = exit_checks p r c in
        let verdict : dec.allowed ≡ is_nil (failing checks) = ground arith in
        (
          (
            λ al. exit_checks-IsSaleable p r c h (is_nil-failing checks (sym verdict ∙ al)),
            λ a.
                let same : c ≡ false = ground (arith, a.cost) in
                verdict
                ∙ rw same (
                    ap is_nil (failing-nil (exit_checks p r false) (IsSaleable-exit_checks p r a))),
          ),
          ground arith,
        )
    | inr (x, h) ↦ absurd (ground arith)
  ]
