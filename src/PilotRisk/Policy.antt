-- ===== src/PilotRisk/Policy.antt =====
-- What a policy that `PilotRiskPolicy.create` returns promises.
use crypto_arc_v.Prelude.{
  ℕ, ◌≡◌, true, false, ◌||◌, arith, inl, inr, Option-cases, subst, ||-false_iff,
}
use crypto_arc_v.Prelude.Int.{pos}
use crypto_arc_v.Prelude.Result.{Result, ok, err}
use crypto_arc_v.Prelude.Time.{Datetime}
use crypto_arc_v.Number.{Decimal, IsDecimal, min_of}
use crypto_arc_v.PilotRisk.{Platform, PolicyIdentity, PilotRiskPolicy, num, down, create}

module _ {D : Type 0} ⦃d : Decimal D⦄ where
  open d.number use {lit, neg, mul, div, lt, le}

  -- The caps of a policy, in terms of its price and of the wallet's equity.
  pub record IsCapped (p : PilotRiskPolicy D) : Type 0 where
    pub price_pos : le p.reference_usd_per_sol (lit 0 0) ≡ false
    pub equity_pos : le p.wallet_equity_sol (lit 0 0) ≡ false
    pub funding : lt (lit 100 0) (mul p.wallet_equity_sol p.reference_usd_per_sol) ≡ false
    pub slippage_pos : le p.initial_slippage_pct (lit 0 0) ≡ false
    pub slippage_le : lt (lit 5 0) p.initial_slippage_pct ≡ false
    pub trade_le_usd : le p.max_trade_sol (div (lit 5 0) p.reference_usd_per_sol) ≡ true
    pub trade_le_equity : le p.max_trade_sol (mul p.wallet_equity_sol (lit 5 2)) ≡ true
    pub session_stop : le p.session_loss_stop_sol (div (lit 10 0) p.reference_usd_per_sol) ≡ true
    pub daily_stop : p.daily_loss_stop_sol ≡ p.session_loss_stop_sol
    pub freeze : le p.cumulative_loss_freeze_sol (div (lit 25 0) p.reference_usd_per_sol) ≡ true
    pub one_position : p.max_open_positions ≡ pos 1
    pub three_losses : p.consecutive_loss_stop ≡ pos 3
    pub no_restart : p.automatic_restart_allowed ≡ false
    pub no_replenishment : p.automatic_replenishment_allowed ≡ false
    pub no_cap_increase : p.automatic_cap_increase_allowed ≡ false
    pub no_reserve : p.external_reserve_accessible ≡ false

  -- What `create` has checked and computed when it returns.
  create_inv :
      (platform : Platform) (price equity : D) (t : Datetime) (id : PolicyIdentity) (slippage : D)
      {p : PilotRiskPolicy D}
      → create platform price equity t id slippage ≡ ok p
      → ((le price (lit 0 0) || le equity (lit 0 0)) ≡ false)
        × (lt (lit 100 0) (mul equity price) ≡ false)
        × ((le slippage (lit 0 0) || lt (lit 5 0) slippage) ≡ false)
        × (down (min_of ⦃n = num⦄ (div (lit 5 0) price) (mul equity (lit 5 2)))
            ≡ ok p.max_trade_sol)
        × (down (div (lit 10 0) price) ≡ ok p.session_loss_stop_sol)
        × (down (div (lit 10 0) price) ≡ ok p.daily_loss_stop_sol)
        × (down (div (lit 25 0) price) ≡ ok p.cumulative_loss_freeze_sol)
        × (p.reference_usd_per_sol ≡ price)
        × (p.wallet_equity_sol ≡ equity)
        × (p.initial_slippage_pct ≡ slippage)
  unfolding create
  create_inv platform price equity t id slippage e = ground arith

  pub create_price :
      (platform : Platform) (price equity : D) (t : Datetime) (id : PolicyIdentity) (slippage : D)
      {p : PilotRiskPolicy D}
      → create platform price equity t id slippage ≡ ok p
      → p.reference_usd_per_sol ≡ price
  create_price platform price equity t id slippage e =
      (create_inv platform price equity t id slippage e).7

  create_constants :
      (platform : Platform) (price equity : D) (t : Datetime) (id : PolicyIdentity) (slippage : D)
      {p : PilotRiskPolicy D}
      → create platform price equity t id slippage ≡ ok p
      → (t.aware ≡ true)
        × (p.max_open_positions ≡ pos 1)
        × (p.consecutive_loss_stop ≡ pos 3)
        × (p.automatic_restart_allowed ≡ false)
        × (p.automatic_replenishment_allowed ≡ false)
        × (p.automatic_cap_increase_allowed ≡ false)
        × (p.external_reserve_accessible ≡ false)
  unfolding create
  create_constants platform price equity t id slippage e = ground arith

  module _ (laws : IsDecimal d) where
    open laws.ordered use {lit_refl, lit_mono, le_trans, refl_of_le, le_of_lt}

    pub positive : (x : D) → le x x ≡ true → le x (lit 0 0) ≡ false → lt (lit 0 0) x ≡ true
    positive x num h = ground (arith, laws.ordered.total (lit 0 0) x (lit_refl 0 0) num)

    -- What `down` returns, if it returns.
    abbrev IsBelow : D → Result D → Type 0
    IsBelow x (ok y) = (le (lit 0 0) y ≡ true) × (le y x ≡ true)
    IsBelow x (err e) = Unit

    pub down-IsBelow : (x : D) → le (lit 0 0) x ≡ true → IsBelow x (down x)
    unfolding down
    down-IsBelow x h = elim (Option-cases (d.quantize_down x)) [
      | inl e ↦ rw e tt
      | inr (y, e) ↦ rw e (laws.quantize-le x y h e)
    ]

    quotient_nonneg :
        (m : ℕ) (price : D) → lt (lit 0 0) price ≡ true → le (lit 0 0) (div (lit m 0) price) ≡ true
    quotient_nonneg m price h = laws.div_nonneg (lit m 0) price (lit_mono 0 m 0 (omega arith)) h

    -- The smaller of two caps that are not negative.
    pub cap_lem :
        (a b : D)
        → le (lit 0 0) a ≡ true
        → le (lit 0 0) b ≡ true
        → let cap = min_of ⦃n = num⦄ a b in
          (le (lit 0 0) cap ≡ true) × (le cap a ≡ true) × (le cap b ≡ true)
    unfolding min_of
    cap_lem a b p q =
        let (_, na) = refl_of_le (lit 0 0) a p in
        let (_, nb) = refl_of_le (lit 0 0) b q in
        ground (arith, le_of_lt b a, laws.ordered.total b a nb na)

    pub lit_nonneg : (m e : ℕ) → le (lit 0 0) (lit m e) ≡ true
    lit_nonneg m e = rw (← laws.ordered.lit_zero e) (lit_mono 0 m e (omega arith))

    -- A share of at most `m` dollars in SOL, and of five percent of an amount, rounded down.
    pub cap-IsBelow :
        (m e : ℕ) (price amount : D)
        → lt (lit 0 0) price ≡ true
        → le (lit 0 0) amount ≡ true
        → (y : D) → down (min_of ⦃n = num⦄ (div (lit m e) price) (mul amount (lit 5 2))) ≡ ok y
        → (le y (div (lit m e) price) ≡ true) × (le y (mul amount (lit 5 2)) ≡ true)
    cap-IsBelow m e price amount pos_price nonneg y h =
        let a = div (lit m e) price in
        let b = mul amount (lit 5 2) in
        let c =
          cap_lem a b (laws.div_nonneg (lit m e) price (lit_nonneg m e) pos_price)
            (laws.mul_nonneg amount (lit 5 2) nonneg (lit_nonneg 5 2)) in
        let f : IsBelow (min_of ⦃n = num⦄ a b) (ok y) =
          subst (IsBelow (min_of ⦃n = num⦄ a b)) h (down-IsBelow (min_of ⦃n = num⦄ a b) c.0) in
        (le_trans y _ a f.1 c.1, le_trans y _ b f.1 c.2)

    share-IsBelow :
        (m : ℕ) (price : D)
        → lt (lit 0 0) price ≡ true
        → (y : D) → down (div (lit m 0) price) ≡ ok y
        → le y (div (lit m 0) price) ≡ true
    share-IsBelow m price h y e =
        let x = div (lit m 0) price in
        let f : IsBelow x (ok y) =
          subst (IsBelow x) e (down-IsBelow x (quotient_nonneg m price h)) in
        f.1

    -- A policy that `create` returns for a price and an equity that are numbers: both are positive,
    -- the wallet is worth at most 100 dollars, the slippage is above zero and at most five percent,
    -- one trade is at most five dollars and five percent of the equity, the loss stops are at most
    -- ten and twenty-five dollars, there is one position, the stop comes after three losses, and
    -- nothing is automatic.
    pub create-IsCapped :
        (platform : Platform) (price equity : D) (t : Datetime) (id : PolicyIdentity) (slippage : D)
        {p : PilotRiskPolicy D}
        → le price price ≡ true
        → le equity equity ≡ true
        → create platform price equity t id slippage ≡ ok p
        → IsCapped p
    create-IsCapped platform price equity t id slippage {p} np ne e =
        let (
          guards, funds, slip, trade, session, daily, freeze, same_price, same_equity, same_slip,
        ) =
          create_inv platform price equity t id slippage e in
        let (_, positions, losses, restart, replenish, increase, reserve) =
          create_constants platform price equity t id slippage e in
        let both = (||-false_iff _ _).0 guards in
        let slips = (||-false_iff _ _).0 slip in
        let up = positive price np both.0 in
        let caps =
          cap-IsBelow 5 0 price equity up (le_of_lt _ _ (positive equity ne both.1)) p.max_trade_sol
            trade in
        record {
          price_pos = rw same_price both.0;
          equity_pos = rw same_equity both.1;
          funding = rw (same_price, same_equity) funds;
          slippage_pos = rw same_slip slips.0;
          slippage_le = rw same_slip slips.1;
          trade_le_usd = rw same_price caps.0;
          trade_le_equity = rw same_equity caps.1;
          session_stop = rw same_price (share-IsBelow 10 price up _ session);
          daily_stop = cc;
          freeze = rw same_price (share-IsBelow 25 price up _ freeze);
          one_position = positions;
          three_losses = losses;
          no_restart = restart;
          no_replenishment = replenish;
          no_cap_increase = increase;
          no_reserve = reserve;
        }
