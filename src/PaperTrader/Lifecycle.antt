-- ===== src/PaperTrader/Lifecycle.antt =====
-- A paper trade that was filled is ticked without raising.
use crypto_arc_v.Prelude.{
  ℕ, ◌≡◌, inl, inr, refl, sym, ◌∙◌, String, Bool, true, false, ◌&&◌, Option, some, none, List, [],
  ◌∷◌, arith, Bool-cases,
}
use crypto_arc_v.Prelude.Int.{pos, negsuc, ltb_ℤ, leb_ℤ, ◌≤ℤ◌}
use crypto_arc_v.Prelude.Checks.{first_failing}
use crypto_arc_v.Prelude.Time.{Datetime}
use crypto_arc_v.Number.{Float, IsOrdered, num_eq, zero_lit, max_of}
use crypto_arc_v.Models.{selling, BotSettings, TokenSignal}
use crypto_arc_v.PaperTrader.{
  buy, filled, fill_price, fill_failed, mark_to_market, mark_at, marked, close, sold, is_buying,
  is_open, num,
}
use crypto_arc_v.PaperTrader.Ticks.{
  tick, tick_open, after_mark, exit_for, exit_reason_of, reason_of, price_checks, time_checks,
  is_overflow, partly_taken, repriced, fill_step, price_of, move_pct,
}

module _ {F : Type 0} ⦃f : Float F⦄ where
  -- The token has an entry price, of at least the 0.000001 that `buy` sets.
  pub record IsPriced (t : TokenSignal F) : Type 0 where
    pub price : F
    pub entry : t.entry_price ≡ some price
    pub floor : f.number.le (f.number.lit 1 6) price ≡ true

  -- A row of ticks; each is given the clock and the move of the price.
  unfoldable pub run_ticks :
      List ((ℕ → Datetime) × F) → BotSettings F → TokenSignal F → Option (TokenSignal F)
  run_ticks [] s t = some t
  run_ticks ((clock, delta) ∷ ticks) s t = elim (tick clock delta t s) [
    | none ↦ none
    | some (u, closed) ↦ run_ticks ticks s u
  ]

  keeps : {t u : TokenSignal F} → IsPriced t → u.entry_price ≡ t.entry_price → IsPriced u
  keeps p e = record { price = p.price; entry = e ∙ p.entry; floor = p.floor }

  -- `timedelta(seconds=max_hold_time_seconds)` has at most 999999999 days, to either side.
  pub record IsTimed (s : BotSettings F) : Type 0 where
    pub lowest : negsuc 86_399_999_913_599 ≤ℤ s.max_hold_time_seconds
    pub highest : s.max_hold_time_seconds ≤ℤ pos 86_399_999_999_999

  is_overflow-IsTimed :
      (opened : Option Datetime) (s : BotSettings F)
      → IsTimed s
      → is_overflow opened s.max_hold_time_seconds ≡ false
  unfolding is_overflow
  is_overflow-IsTimed none s h = refl
  is_overflow-IsTimed (some opened) s h = ground (arith, h.lowest, h.highest)

  reason_of_total :
      (now : Datetime) (s : BotSettings F) (t : TokenSignal F) (early : Option String)
      → IsTimed s
      → (r : Option String) × (reason_of now s t early ≡ some r)
  unfolding reason_of
  reason_of_total now s t (some reason) h = (some reason, refl)
  reason_of_total now s t none h =
      (first_failing (time_checks now s t), rw (is_overflow-IsTimed t.opened_at s h) refl)

  exit_reason_of_total :
      (now : Datetime) (move : F) (s : BotSettings F) (t : TokenSignal F)
      → IsTimed s
      → (r : Option String) × (exit_reason_of now move s t ≡ some r)
  unfolding exit_reason_of
  exit_reason_of_total now move s t h =
      elim (Bool-cases (leb_ℤ s.minimum_hold_time_seconds t.hold_duration_seconds)) [
        | inl e ↦
            let (r, q) = reason_of_total now s t (first_failing (price_checks move s t)) h in
            (r, rw e q)
        | inr e ↦ (none, rw e refl)
      ]

  module _ (o : IsOrdered f.number) where
    floor-num_eq :
        (x : F)
        → f.number.le (f.number.lit 1 6) x ≡ true
        → num_eq ⦃n = num⦄ x (zero_lit ⦃n = num⦄) ≡ false
    floor-num_eq x h = ground (
      arith,
      o.lt_le_trans (f.number.lit 0 0) (f.number.lit 1 6) x o.lit_micro h,
      o.not_le_of_lt (f.number.lit 0 0) x,
    )

    mark_at_total :
        (now : Datetime) (s : BotSettings F) (entry current : Option F) (t : TokenSignal F) {x : F}
        → entry ≡ some x
        → f.number.le (f.number.lit 1 6) x ≡ true
        → (u : TokenSignal F) × (mark_at now s entry current t ≡ some u)
          × (u.entry_price ≡ t.entry_price)
    unfolding mark_at marked
    mark_at_total now s none current t e h = absurd (cc)
    mark_at_total now s (some y) none t e h = (t, refl, refl)
    mark_at_total now s (some y) (some c) t {x} e h =
        let same : y ≡ x = cc in (marked now s y c t, rw (same, floor-num_eq x h) refl, refl)

    mark_total :
        (now : Datetime) (t : TokenSignal F) (s : BotSettings F)
        → IsPriced t
        → (u : TokenSignal F) × (mark_to_market now t s ≡ some u) × (u.entry_price ≡ t.entry_price)
    unfolding mark_to_market
    mark_total now t s p = mark_at_total now s t.entry_price t.current_price t p.entry p.floor

    close_total :
        (marked_at closed_at : Datetime) (t : TokenSignal F) (s : BotSettings F) (reason : String)
        → IsPriced t
        → (u : TokenSignal F) × (close marked_at closed_at t s reason ≡ some u)
          × (u.entry_price ≡ t.entry_price)
    unfolding close sold
    close_total marked_at closed_at t s reason p =
        let (u, e, same) = mark_total marked_at (record t { status = selling }) s (keeps p refl) in
        (sold closed_at reason u, rw (e, close) refl, same)

    -- The outcome of a step that does not raise and keeps the entry price.
    abbrev Goes : TokenSignal F → Option (TokenSignal F × Bool) → Type 0
    Goes t r =
        (u : TokenSignal F) × (closed : Bool) × (r ≡ some (u, closed))
        × (u.entry_price ≡ t.entry_price)

    exit_total :
        (marked_at closed_at : Datetime) (s : BotSettings F) (t : TokenSignal F)
        (reason : Option String)
        → IsPriced t
        → Goes t (exit_for marked_at closed_at s t (some reason))
    unfolding exit_for
    exit_total marked_at closed_at s t none p = (t, false, refl, refl)
    exit_total marked_at closed_at s t (some reason) p =
        let (u, e, same) = close_total marked_at closed_at t s reason p in
        (u, true, rw (e, exit_for) refl, same)

    partly_taken-entry_price :
        (move : F) (s : BotSettings F) (t : TokenSignal F)
        → (partly_taken move s t).entry_price ≡ t.entry_price
    unfolding partly_taken
    partly_taken-entry_price move s t = ground arith

    after_mark_total :
        (clock : ℕ → Datetime) (move : F) (s : BotSettings F) (t : TokenSignal F)
        → IsTimed s
        → IsPriced t
        → Goes t (after_mark clock move s (some t))
    unfolding after_mark
    after_mark_total clock move s t timed p =
        let w = partly_taken move s t in
        let kept = partly_taken-entry_price move s t in
        let (r, found) = exit_reason_of_total (clock 2) move s w timed in
        let (u, closed, e, same) = exit_total (clock 3) (clock 4) s w r (keeps p kept) in
        (u, closed, rw found e, same ∙ kept)

    tick_open_total :
        (clock : ℕ → Datetime) (delta : F) (s : BotSettings F) (t : TokenSignal F)
        (entry : Option F) {x : F}
        → IsTimed s
        → IsPriced t
        → entry ≡ some x
        → f.number.le (f.number.lit 1 6) x ≡ true
        → Goes t (tick_open clock delta s entry t)
    unfolding tick_open repriced
    tick_open_total clock delta s t none timed p e h = absurd (cc)
    tick_open_total clock delta s t (some y) {x} timed p e h =
        let w = repriced (clock 0) delta y t in
        let move = move_pct y (price_of w.current_price) in
        let same : y ≡ x = cc in
        let (v, m, kept) = mark_total (clock 1) w s (keeps p refl) in
        let (u, closed, a, still) = after_mark_total clock move s v timed (keeps p kept) in
        (u, closed, rw (same, floor-num_eq x h, sym same, m) a, still ∙ kept)

    tick_total :
        (clock : ℕ → Datetime) (delta : F) (t : TokenSignal F) (s : BotSettings F)
        → IsTimed s
        → IsPriced t
        → Goes t (tick clock delta t s)
    unfolding tick fill_step
    tick_total clock delta t s timed p =
        elim (Bool-cases (is_buying t.status && ltb_ℤ (pos 0) t.fill_delay_ticks_remaining)) [
          | inl b ↦ (fill_step t, false, rw b refl, refl)
          | inr b ↦ elim (Bool-cases (is_open t.status)) [
            | inr n ↦ (t, false, rw (b, n) refl, refl)
            | inl n ↦
                let (u, closed, e, same) =
                  tick_open_total clock delta s t t.entry_price timed p p.entry p.floor in
                (u, closed, rw (b, n) e, same)
          ]
        ]

    run_ticks_total :
        (ticks : List ((ℕ → Datetime) × F)) (s : BotSettings F) (t : TokenSignal F)
        → IsTimed s
        → IsPriced t
        → (u : TokenSignal F) × (run_ticks ticks s t ≡ some u) × IsPriced u
    unfolding run_ticks
    run_ticks_total [] s t timed p = (t, refl, p)
    run_ticks_total ((clock, delta) ∷ ticks) s t timed p =
        let (v, closed, e, same) = tick_total clock delta t s timed p in
        let (u, r, q) = run_ticks_total ticks s v timed (keeps p same) in
        (u, rw (e, run_ticks) r, q)

    floor-max_of : (a b : F) → f.number.le a a ≡ true → f.number.le a (max_of ⦃n = num⦄ a b) ≡ true
    unfolding max_of
    floor-max_of a b h = ground (arith, o.le_of_lt a b)

    fill_price-floor :
        (t : TokenSignal F) (s : BotSettings F)
        → f.number.le (f.number.lit 1 6) (fill_price t s) ≡ true
    unfolding fill_price
    fill_price-floor t s = floor-max_of _ _ (o.lit_refl 1 6)

    filled-IsPriced :
        (now : Datetime) (t : TokenSignal F) (s : BotSettings F) → IsPriced (filled now t s)
    unfolding filled
    filled-IsPriced now t s = record {
      price = fill_price t s;
      entry = refl;
      floor = fill_price-floor t s;
    }

    -- A token that `buy` has filled can be ticked any number of times, at any prices and any settings whose
    -- maximum hold time is in the range of `timedelta`, and no tick raises, a tick that closes the position
    -- included.
    pub buy-run_ticks :
        (digest : String → ℕ) (now : Datetime) (t : TokenSignal F) (s later : BotSettings F)
        (ticks : List ((ℕ → Datetime) × F))
        → IsTimed later
        → fill_failed digest t s ≡ some false
        → (u : TokenSignal F) × (end : TokenSignal F) × (buy digest now t s ≡ some u)
          × (run_ticks ticks later u ≡ some end)
    unfolding buy
    buy-run_ticks digest now t s later ticks timed e =
        let (end, r, p) =
          run_ticks_total ticks later (filled now t s) timed (filled-IsPriced now t s) in
        (filled now t s, end, rw (e, buy) refl, r)
