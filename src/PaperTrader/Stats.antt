-- ===== src/PaperTrader/Stats.antt =====
-- What the statistics of closed trades keep.
use crypto_arc_v.Prelude.{
  ℕ, suc, ◌+◌, ◌≡◌, inl, inr, refl, sym, ap, ◌∙◌, subst, Option, some, none, List, [], ◌∷◌, arith,
  Option-cases, Bool-cases, length,
}
use crypto_arc_v.Prelude.Int.{ℤ, pos, ◌+ℤ◌}
use crypto_arc_v.Number.{Float}
use crypto_arc_v.Models.{TokenSignal, BotStats}
use crypto_arc_v.PaperTrader.{some_or, zero_float}
use crypto_arc_v.PaperTrader.Ticks.{counted, rated, with_rates, apply_closed_trade}

pos_suc : (n : ℕ) → (pos n +ℤ pos 1) ≡ pos (suc n)
unfolding ◌+ℤ◌
pos_suc n = ground arith

module _ {F : Type 0} ⦃f : Float F⦄ where
  -- Each of the `n` trades is counted as one of a win, a loss and a scratch.
  pub record IsTallied (n : ℕ) (st : BotStats F) : Type 0 where
    pub wins : ℕ
    pub losses : ℕ
    pub scratches : ℕ
    pub total : st.total_trades ≡ pos n
    pub won : st.successful_trades ≡ pos wins
    pub lost : st.losing_trades ≡ pos losses
    pub even : st.scratch_trades ≡ pos scratches
    pub sum : wins + losses + scratches ≡ n

  -- The trades of a session, applied in their order.
  unfoldable pub apply_all : List (TokenSignal F) → BotStats F → Option (BotStats F)
  apply_all [] st = some st
  apply_all (t ∷ ts) st = elim (apply_closed_trade t st) [
    | none ↦ none
    | some next ↦ apply_all ts next
  ]

  -- The fields that `IsTallied` reads.
  record SameCounts (st tu : BotStats F) : Type 0 where
    total : tu.total_trades ≡ st.total_trades
    won : tu.successful_trades ≡ st.successful_trades
    lost : tu.losing_trades ≡ st.losing_trades
    even : tu.scratch_trades ≡ st.scratch_trades

  IsTallied-same : (n : ℕ) (st tu : BotStats F) → SameCounts st tu → IsTallied n st → IsTallied n tu
  IsTallied-same n st tu c i = record {
    wins = i.wins;
    losses = i.losses;
    scratches = i.scratches;
    total = c.total ∙ i.total;
    won = c.won ∙ i.won;
    lost = c.lost ∙ i.lost;
    even = c.even ∙ i.even;
    sum = i.sum;
  }

  with_rates_same :
      (win gross scratch : Option ℤ) (st : BotStats F) {tu : BotStats F}
      → with_rates win gross scratch st ≡ some tu
      → SameCounts st tu
  unfolding with_rates
  with_rates_same none gross scratch st h = absurd (cc)
  with_rates_same (some win) none scratch st h = absurd (cc)
  with_rates_same (some win) (some gross) none st h = absurd (cc)
  with_rates_same (some win) (some gross) (some scratch) st {tu} h =
      let same : record st {
        win_rate_pct = win;
        gross_win_rate_pct = gross;
        scratch_rate_pct = scratch;
      }
          ≡ tu =
        cc in
      subst (SameCounts st) same (record { total = refl; won = refl; lost = refl; even = refl })

  -- One of the three counters goes up, whatever the profit is, a NaN included.
  counted-IsTallied :
      (n : ℕ) (pnl : F) (st added : BotStats F)
      → IsTallied n st
      → SameCounts st (record added { total_trades = st.total_trades })
      → added.total_trades ≡ pos (suc n)
      → IsTallied (suc n) (counted pnl added)
  unfolding counted
  counted-IsTallied n pnl st added i c e =
      elim (Bool-cases (f.number.lt added.scratch_threshold_sol pnl)) [
        | inl a ↦ rw a (record {
          wins = suc i.wins;
          losses = i.losses;
          scratches = i.scratches;
          total = e;
          won = ap (λ x. x +ℤ pos 1) (c.won ∙ i.won) ∙ pos_suc i.wins;
          lost = c.lost ∙ i.lost;
          even = c.even ∙ i.even;
          sum = ground (arith, i.sum);
        })
        | inr a ↦ elim (Bool-cases (f.number.lt pnl (f.number.neg added.scratch_threshold_sol))) [
          | inl b ↦
              rw (a, b)
                (record {
                  wins = i.wins;
                  losses = suc i.losses;
                  scratches = i.scratches;
                  total = e;
                  won = c.won ∙ i.won;
                  lost = ap (λ x. x +ℤ pos 1) (c.lost ∙ i.lost) ∙ pos_suc i.losses;
                  even = c.even ∙ i.even;
                  sum = ground (arith, i.sum);
                })
          | inr b ↦
              rw (a, b)
                (record {
                  wins = i.wins;
                  losses = i.losses;
                  scratches = suc i.scratches;
                  total = e;
                  won = c.won ∙ i.won;
                  lost = c.lost ∙ i.lost;
                  even = ap (λ x. x +ℤ pos 1) (c.even ∙ i.even) ∙ pos_suc i.scratches;
                  sum = ground (arith, i.sum);
                })
        ]
      ]

  apply-IsTallied :
      (n : ℕ) (t : TokenSignal F) (st : BotStats F) {tu : BotStats F}
      → IsTallied n st
      → apply_closed_trade t st ≡ some tu
      → IsTallied (suc n) tu
  unfolding apply_closed_trade rated
  apply-IsTallied n t st {tu} i h =
      let pnl = some_or t.pnl_sol zero_float in
      let added = record st {
        total_trades = st.total_trades +ℤ pos 1;
        total_pnl_sol = f.round (f.number.add st.total_pnl_sol pnl) 6;
      } in
      let tallied = counted pnl added in
      let count =
        counted-IsTallied n pnl st added i
          (record { total = refl; won = refl; lost = refl; even = refl })
          (ap (λ x. x +ℤ pos 1) i.total ∙ pos_suc n) in
      let kept = with_rates_same _ _ _ _ h in
      IsTallied-same (suc n) _ tu
        (record { total = kept.total; won = kept.won; lost = kept.lost; even = kept.even }) count

  -- After a row of closed trades, as long as no rate raised, the total has grown by their number, and
  -- every trade is counted as exactly one of a win, a loss and a scratch.
  pub apply_all-IsTallied :
      (n : ℕ) (ts : List (TokenSignal F)) (st : BotStats F) {tu : BotStats F}
      → IsTallied n st
      → apply_all ts st ≡ some tu
      → IsTallied (length ts + n) tu
  unfolding apply_all
  apply_all-IsTallied n [] st {tu} i h =
      let same : st ≡ tu = cc in
      let none_more : n ≡ 0 + n = omega arith in
      subst (λ x. IsTallied x tu) none_more (subst (IsTallied n) same i)
  apply_all-IsTallied n (t ∷ ts) st {tu} i h = elim (Option-cases (apply_closed_trade t st)) [
    | inl e ↦
        let bad : ◌≡◌ {A = Option (BotStats F)} none (some tu) = rw (e, apply_all) at h in
        absurd (cc)
    | inr (next, e) ↦
        let more : apply_all ts next ≡ some tu = rw (e, apply_all) at h in
        let step : suc (length ts) + n ≡ length ts + suc n = omega arith in
        subst (λ x. IsTallied x tu) (sym step)
          (apply_all-IsTallied (suc n) ts next (apply-IsTallied n t st i e) more)
  ]
