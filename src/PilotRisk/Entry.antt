-- ===== src/PilotRisk/Entry.antt =====
-- When `evaluate_entry` allows a trade.
use crypto_arc_v.Prelude.{
  ◌≡◌, ◌↔◌, refl, Bool, true, false, arith, inl, inr, eq_iff, is_nil, ◌∙◌, ap, [], ||-false_iff,
  ◌||◌, Bool-cases, String,
}
use crypto_arc_v.Prelude.Int.{pos, leb_ℤ, ◌≤ℤ◌}
use crypto_arc_v.Prelude.Checks.{AllPass, failing, failing-nil, is_nil-failing}
use crypto_arc_v.Prelude.Result.{Result, ok, err, ◌>>◌, raise_if, Result-cases}
use crypto_arc_v.Prelude.Time.{Datetime}
use crypto_arc_v.Number.{Decimal, IsDecimal}
use crypto_arc_v.PilotRisk.{
  Platform, PolicyIdentity, PilotRiskPolicy, PilotRiskRequest, PilotRiskState, PilotRiskDecision,
  create, cost_cap_for, over_cost_cap, request_raises, state_raises, entry_checks, evaluate_entry,
}
use crypto_arc_v.PilotRisk.Policy.{create-IsCapped, cap-IsBelow, positive, create_price}

err≢ok : {A : Type 0} {e : String} {x : A} → ◌≡◌ {A = Result A} (err e) (ok x) → ⊥
err≢ok h = absurd (cc)

after_raise :
    {A : Type 0} (failed : Bool) (message : String) (rest : Result A) {x : A}
    → (raise_if failed message >> rest) ≡ ok x
    → rest ≡ ok x
after_raise true message rest h = absurd (err≢ok h)
after_raise false message rest h = h

module _ {D : Type 0} ⦃d : Decimal D⦄ where
  open d.number use {lit, neg, mul, div, lt, le}

  -- An entry that the pilot may make: a buy within every cap of the policy, in a session that has
  -- met no stop.
  pub record IsAdmissible (p : PilotRiskPolicy D) (r : PilotRiskRequest D) (s : PilotRiskState D)
      : Type 0 where
    pub asked : request_raises p r ≡ false
    pub stated : state_raises s ≡ false
    pub is_buy : r.action ≡ "buy"
    pub amount_pos : le r.requested_sol (lit 0 0) ≡ false
    pub amount_le : lt p.max_trade_sol r.requested_sol ≡ false
    pub positions : leb_ℤ p.max_open_positions s.open_positions ≡ false
    pub session : le s.session_pnl_sol (neg p.session_loss_stop_sol) ≡ false
    pub daily : le s.daily_pnl_sol (neg p.daily_loss_stop_sol) ≡ false
    pub cumulative : le p.cumulative_loss_freeze_sol s.cumulative_loss_sol ≡ false
    pub losses : leb_ℤ p.consecutive_loss_stop s.consecutive_losses ≡ false
    pub priced : s.unrealized_pnl_unavailable ≡ false
    pub slippage_nonneg : lt r.slippage_pct (lit 0 0) ≡ false
    pub slippage_le : lt p.initial_slippage_pct r.slippage_pct ≡ false
    pub cost : over_cost_cap p r ≡ ok false
    pub running : s.stopped ≡ false
    pub no_restart : s.restart_requested ≡ false
    pub no_replenishment : s.replenished ≡ false
    pub no_cap_increase : s.cap_increase_requested ≡ false

  entry_checks-IsAdmissible :
      (p : PilotRiskPolicy D) (r : PilotRiskRequest D) (s : PilotRiskState D) (c : Bool)
      → (request_raises p r || state_raises s) ≡ false
      → over_cost_cap p r ≡ ok c
      → AllPass (entry_checks p r s c)
      → IsAdmissible p r s
  unfolding entry_checks
  entry_checks-IsAdmissible p r s c numbers e
        (
          buy,
          (
            amount,
            (
              count,
              (sess, (daily, (cum, (loss, (pr, (slip, (cost, (st, (re, (rp, (ci, _))))))))))),
            ),
          ),
        ) =
      let amounts = (||-false_iff _ _).0 amount in
      let slips = (||-false_iff _ _).0 slip in
      let (asked, stated) = (||-false_iff _ _).0 numbers in
      record {
        asked = asked;
        stated = stated;
        is_buy = ground (arith, eq_iff r.action "buy");
        amount_pos = amounts.0;
        amount_le = amounts.1;
        positions = count;
        session = sess;
        daily = daily;
        cumulative = cum;
        losses = loss;
        priced = pr;
        slippage_nonneg = slips.0;
        slippage_le = slips.1;
        cost = e ∙ ap ok cost;
        running = st;
        no_restart = re;
        no_replenishment = rp;
        no_cap_increase = ci;
      }

  IsAdmissible-entry_checks :
      (p : PilotRiskPolicy D) (r : PilotRiskRequest D) (s : PilotRiskState D)
      → IsAdmissible p r s
      → AllPass (entry_checks p r s false)
  unfolding entry_checks
  IsAdmissible-entry_checks p r s a = (
    ground (arith, eq_iff r.action "buy", a.is_buy),
    (
      (||-false_iff _ _).1 (a.amount_pos, a.amount_le),
      (
        a.positions,
        (
          a.session,
          (
            a.daily,
            (
              a.cumulative,
              (
                a.losses,
                (
                  a.priced,
                  (
                    (||-false_iff _ _).1 (a.slippage_nonneg, a.slippage_le),
                    (
                      refl,
                      (a.running, (a.no_restart, (a.no_replenishment, (a.no_cap_increase, tt)))),
                    ),
                  ),
                ),
              ),
            ),
          ),
        ),
      ),
    ),
  )

  pub evaluate_entry_iff :
      (p : PilotRiskPolicy D) (r : PilotRiskRequest D) (s : PilotRiskState D)
      → ((dec : PilotRiskDecision) × (evaluate_entry p r s ≡ ok dec) × (dec.allowed ≡ true))
        ↔ IsAdmissible p r s
  unfolding evaluate_entry
  evaluate_entry_iff p r s = (λ (dec, e, al). sound dec e al, complete)
    where
      sound :
          (dec : PilotRiskDecision)
          → evaluate_entry p r s ≡ ok dec
          → dec.allowed ≡ true
          → IsAdmissible p r s
      sound dec e al = elim (Bool-cases (request_raises p r || state_raises s)) [
        | inl n ↦ absurd (err≢ok (rw n at e))
        | inr n ↦ elim (Result-cases (over_cost_cap p r)) [
          | inl (c, h) ↦
              let checks = entry_checks p r s c in
              let none_failed : is_nil (failing checks) ≡ true = ground arith in
              entry_checks-IsAdmissible p r s c n h (is_nil-failing checks none_failed)
          | inr (x, h) ↦ absurd (ground arith)
        ]
      ]

      complete :
          IsAdmissible p r s
          → (dec : PilotRiskDecision) × (evaluate_entry p r s ≡ ok dec) × (dec.allowed ≡ true)
      complete a =
          let none_failed =
            failing-nil (entry_checks p r s false) (IsAdmissible-entry_checks p r s a) in
          (
            record { allowed = true; blockers = []; requires_explicit_recovery_decision = false },
            rw (a.asked, a.stated, a.cost, none_failed) refl,
            refl,
          )

  -- A state is at least as good as another: no more positions and losses, no smaller results, and
  -- no flag that the other has not.
  pub record IsNoWorse (s t : PilotRiskState D) : Type 0 where
    pub positions : s.open_positions ≤ℤ t.open_positions
    pub session : le t.session_pnl_sol s.session_pnl_sol ≡ true
    pub daily : le t.daily_pnl_sol s.daily_pnl_sol ≡ true
    pub cumulative : le s.cumulative_loss_sol t.cumulative_loss_sol ≡ true
    pub losses : s.consecutive_losses ≤ℤ t.consecutive_losses
    pub priced : t.unrealized_pnl_unavailable ≡ false → s.unrealized_pnl_unavailable ≡ false
    pub running : t.stopped ≡ false → s.stopped ≡ false
    pub no_restart : t.restart_requested ≡ false → s.restart_requested ≡ false
    pub no_replenishment : t.replenished ≡ false → s.replenished ≡ false
    pub no_cap_increase : t.cap_increase_requested ≡ false → s.cap_increase_requested ≡ false

  module _ (laws : IsDecimal d) where
    open laws.ordered use {le_trans, not_le_of_lt}

    not_le_below : (x y z : D) → le x y ≡ true → le x z ≡ false → le y z ≡ false
    not_le_below x y z h k = ground (arith, le_trans x y z h)

    not_le_above : (x y z : D) → le y x ≡ true → le z x ≡ false → le z y ≡ false
    not_le_above x y z h k = ground (arith, λ (e : le z y ≡ true). le_trans z y x e h)

    state_raises_mono : (s t : PilotRiskState D) → IsNoWorse s t → state_raises s ≡ false
    unfolding state_raises
    state_raises_mono s t w = ground (
      arith,
      laws.ordered.refl_of_le t.session_pnl_sol s.session_pnl_sol w.session,
      laws.ordered.refl_of_le t.daily_pnl_sol s.daily_pnl_sol w.daily,
      laws.ordered.refl_of_le s.cumulative_loss_sol t.cumulative_loss_sol w.cumulative,
    )

    IsAdmissible-mono :
        (p : PilotRiskPolicy D) (r : PilotRiskRequest D) (s t : PilotRiskState D)
        → IsNoWorse s t
        → IsAdmissible p r t
        → IsAdmissible p r s
    IsAdmissible-mono p r s t w a = record {
      asked = a.asked;
      stated = state_raises_mono s t w;
      is_buy = a.is_buy;
      amount_pos = a.amount_pos;
      amount_le = a.amount_le;
      positions = ground (arith, w.positions, a.positions);
      session = not_le_below _ _ _ w.session a.session;
      daily = not_le_below _ _ _ w.daily a.daily;
      cumulative = not_le_above _ _ _ w.cumulative a.cumulative;
      losses = ground (arith, w.losses, a.losses);
      priced = w.priced a.priced;
      slippage_nonneg = a.slippage_nonneg;
      slippage_le = a.slippage_le;
      cost = a.cost;
      running = w.running a.running;
      no_restart = w.no_restart a.no_restart;
      no_replenishment = w.no_replenishment a.no_replenishment;
      no_cap_increase = w.no_cap_increase a.no_cap_increase;
    }

    -- Losses only close the gate: an entry that is allowed in one state of the session is allowed in
    -- every state that is no worse.
    pub evaluate_entry_mono :
        (p : PilotRiskPolicy D) (r : PilotRiskRequest D) (s t : PilotRiskState D)
        → IsNoWorse s t
        → (dec : PilotRiskDecision) × (evaluate_entry p r t ≡ ok dec) × (dec.allowed ≡ true)
        → (dec : PilotRiskDecision) × (evaluate_entry p r s ≡ ok dec) × (dec.allowed ≡ true)
    evaluate_entry_mono p r s t w h =
        (evaluate_entry_iff p r s).1 (IsAdmissible-mono p r s t w ((evaluate_entry_iff p r t).0 h))

    cost_cap-IsBelow :
        (p : PilotRiskPolicy D) (r : PilotRiskRequest D)
        → lt (lit 0 0) p.reference_usd_per_sol ≡ true
        → le (lit 0 0) r.requested_sol ≡ true
        → le r.total_cost_sol r.total_cost_sol ≡ true
        → over_cost_cap p r ≡ ok false
        → (le r.total_cost_sol (div (lit 25 2) p.reference_usd_per_sol) ≡ true)
          × (le r.total_cost_sol (mul r.requested_sol (lit 5 2)) ≡ true)
    unfolding over_cost_cap cost_cap_for
    cost_cap-IsBelow p r price amount num_cost h =
        elim (Result-cases (cost_cap_for p r.requested_sol)) [
          | inl (cap, e) ↦
              let below =
                cap-IsBelow laws 25 2 p.reference_usd_per_sol r.requested_sol price amount cap
                  (after_raise _ "InvalidOperation" _ e) in
              let num_cap = laws.ordered.refl_of_le cap _ below.0 in
              let under : lt cap r.total_cost_sol ≡ false = ground arith in
              let cost_le : le r.total_cost_sol cap ≡ true =
                laws.ordered.total cap r.total_cost_sol num_cap.0 num_cost under in
              (le_trans _ cap _ cost_le below.0, le_trans _ cap _ cost_le below.1)
          | inr (x, e) ↦ absurd (ground arith)
        ]

    -- Whatever is asked, an entry that a created policy allows stays within the pilot's promises:
    -- it is a buy of at most five dollars and of five percent of the wallet, no position is open,
    -- its cost is at most a quarter of a dollar and five percent of the amount, and fewer than
    -- three losses have come in a row. The numbers of the call are no NaNs.
    pub create-evaluate_entry :
        (platform : Platform) (price equity : D) (t : Datetime) (id : PolicyIdentity) (slippage : D)
        {p : PilotRiskPolicy D} (r : PilotRiskRequest D) (s : PilotRiskState D)
        {dec : PilotRiskDecision}
        → le price price ≡ true
        → le equity equity ≡ true
        → le r.requested_sol r.requested_sol ≡ true
        → le r.total_cost_sol r.total_cost_sol ≡ true
        → create platform price equity t id slippage ≡ ok p
        → evaluate_entry p r s ≡ ok dec
        → dec.allowed ≡ true
        → (r.action ≡ "buy")
          × (le r.requested_sol (div (lit 5 0) p.reference_usd_per_sol) ≡ true)
          × (le r.requested_sol (mul p.wallet_equity_sol (lit 5 2)) ≡ true)
          × (s.open_positions ≤ℤ pos 0)
          × (s.consecutive_losses ≤ℤ pos 2)
          × (le r.total_cost_sol (div (lit 25 2) p.reference_usd_per_sol) ≡ true)
          × (le r.total_cost_sol (mul r.requested_sol (lit 5 2)) ≡ true)
    create-evaluate_entry platform price equity t id slippage {p} r s {dec} np ne nr nc made e al =
        let c = create-IsCapped laws platform price equity t id slippage np ne made in
        let a = (evaluate_entry_iff p r s).0 (dec, e, al) in
        let limit = (laws.ordered.refl_of_le p.max_trade_sol _ c.trade_le_usd).0 in
        let amount_le : le r.requested_sol p.max_trade_sol ≡ true =
          laws.ordered.total p.max_trade_sol r.requested_sol limit nr a.amount_le in
        let amount = laws.ordered.le_of_lt _ _ (positive laws r.requested_sol nr a.amount_pos) in
        let number : le p.reference_usd_per_sol p.reference_usd_per_sol ≡ true =
          rw (create_price platform price equity t id slippage made) np in
        let price_pos = positive laws p.reference_usd_per_sol number c.price_pos in
        let cost = cost_cap-IsBelow p r price_pos amount nc a.cost in
        (
          a.is_buy,
          le_trans _ p.max_trade_sol _ amount_le c.trade_le_usd,
          le_trans _ p.max_trade_sol _ amount_le c.trade_le_equity,
          ground (arith, a.positions, c.one_position),
          ground (arith, a.losses, c.three_losses),
          cost.0,
          cost.1,
        )
