-- ===== src/PaperTrader/Exits.antt =====
-- When a tick closes a position.
use crypto_arc_v.Prelude.{
  ℕ, ◌≤◌, ◌≡◌, inl, inr, refl, sym, ap, ◌∙◌, String, Bool, true, false, ◌&&◌, Option, some, none,
  arith, ◌++◌, Option-cases, Bool-cases,
}
use crypto_arc_v.Prelude.Int.{pos, leb_ℤ, ltb_ℤ}
use crypto_arc_v.Prelude.Checks.{Checks, first_failing, first_failing-append}
use crypto_arc_v.Prelude.Time.{Datetime, seconds_since}
use crypto_arc_v.Number.{Float, num_eq, max_of}
use crypto_arc_v.Models.{paper_sold, selling, BotSettings, TokenSignal}
use crypto_arc_v.PaperTrader.{
  mark_to_market, mark_at, marked, close, sold, is_buying, is_open, held, num, zero_float, some_or,
}
use crypto_arc_v.PaperTrader.Due.{IsDue, first-IsRow, due, due-IsRow}
use crypto_arc_v.PaperTrader.Ticks.{
  tick, tick_open, after_mark, exit_for, exit_reason_of, reason_of, price_checks, time_checks,
  partly_taken, repriced, fill_step, price_of, move_pct,
}

module _ {F : Type 0} ⦃f : Float F⦄ where
  -- What is recorded of an exit: the sale and its reason, which is the first in order of the exits
  -- that are due at the price this tick set and for the token as it then stood, and that the position, opened
  -- at `opened`, was held for the minimum time.
  pub record IsExit (clock : ℕ → Datetime) (delta : F) (s : BotSettings F) (opened : Datetime)
      (t u : TokenSignal F) : Type 0 where
    pub reason : String
    pub entry : F
    pub price : F
    pub move : F
    pub before : TokenSignal F
    pub was_open : is_open t.status ≡ true
    pub is_entry : t.entry_price ≡ some entry
    pub is_price :
        price
        ≡ max_of ⦃n = num⦄ (f.number.lit 1 7) (
            f.number.mul
              (some_or t.current_price entry)
              (f.number.add (f.number.lit 1 0) (f.number.div delta (f.number.lit 100 0))))
    pub is_move :
        move ≡ f.number.mul (f.number.div (f.number.sub price entry) entry) (f.number.lit 100 0)
    pub is_before :
        before
        ≡ partly_taken move s (marked (clock 1) s entry price (repriced (clock 0) delta entry t))
    pub was_held : leb_ℤ s.minimum_hold_time_seconds (seconds_since opened (clock 1)) ≡ true
    pub place : ℕ
    pub is_due : IsDue (clock 2) move s before place reason
    pub is_first :
        (earlier : ℕ) (other : String)
        → IsDue (clock 2) move s before earlier other
        → place ≤ earlier
    pub is_sold : u.status ≡ paper_sold
    pub is_recorded : u.exit_reason ≡ some reason
    pub is_priced : u.exit_price ≡ u.current_price
    pub is_closed : u.closed_at ≡ some (clock 4)

  close_lem :
      (marked_at closed_at : Datetime) (t : TokenSignal F) (s : BotSettings F) (reason : String)
      {u : TokenSignal F}
      → close marked_at closed_at t s reason ≡ some u
      → (w : TokenSignal F) × (u ≡ sold closed_at reason w)
  unfolding close
  close_lem marked_at closed_at t s reason {u} h =
      go (mark_to_market marked_at (record t { status = selling }) s) refl
    where
      go :
          (r : Option (TokenSignal F))
          → mark_to_market marked_at (record t { status = selling }) s ≡ r
          → (w : TokenSignal F) × (u ≡ sold closed_at reason w)
      go none e = let bad : none ≡ some u = rw (e, close) at h in absurd (cc)
      go (some w) e =
          let found : some (sold closed_at reason w) ≡ some u = rw (e, close) at h in (w, cc)

  exit_for_lem :
      (marked_at closed_at : Datetime) (s : BotSettings F) (t : TokenSignal F)
      (r : Option (Option String)) {u : TokenSignal F}
      → exit_for marked_at closed_at s t r ≡ some (u, true)
      → (reason : String) × (w : TokenSignal F) × (r ≡ some (some reason))
        × (u ≡ sold closed_at reason w)
  unfolding exit_for
  exit_for_lem marked_at closed_at s t none {u} h = absurd (cc)
  exit_for_lem marked_at closed_at s t (some none) {u} h = absurd (cc)
  exit_for_lem marked_at closed_at s t (some (some reason)) {u} h =
      elim (Option-cases (close marked_at closed_at t s reason)) [
        | inl e ↦
            let bad : ◌≡◌ {A = Option (TokenSignal F × Bool)} none (some (u, true)) =
              rw (e, exit_for) at h in
            absurd (cc)
        | inr (v, e) ↦
            let found : ◌≡◌ {A = Option (TokenSignal F × Bool)} (some (v, true)) (some (u, true)) =
              rw (e, exit_for) at h in
            let same : v ≡ u = cc in
            let (w, q) = close_lem marked_at closed_at t s reason e in
            (reason, w, refl, sym same ∙ q)
      ]

  reason_of_lem :
      (now : Datetime) (s : BotSettings F) (t : TokenSignal F) (cs : Checks) {reason : String}
      → reason_of now s t (first_failing cs) ≡ some (some reason)
      → first_failing (cs ++ time_checks now s t) ≡ some reason
  unfolding reason_of
  reason_of_lem now s t cs h = elim (Option-cases (first_failing cs)) [
    | inl e ↦
        let late = rw e at h in
        rw (first_failing-append cs (time_checks now s t), e) (ground (arith, late))
    | inr (r, e) ↦
        let early = rw e at h in rw (first_failing-append cs (time_checks now s t), e) (cc)
  ]

  exit_reason_of_lem :
      (now : Datetime) (move : F) (s : BotSettings F) (t : TokenSignal F) {reason : String}
      → exit_reason_of now move s t ≡ some (some reason)
      → (leb_ℤ s.minimum_hold_time_seconds t.hold_duration_seconds ≡ true)
        × (first_failing (price_checks move s t ++ time_checks now s t) ≡ some reason)
  unfolding exit_reason_of
  exit_reason_of_lem now move s t h =
      elim (Bool-cases (leb_ℤ s.minimum_hold_time_seconds t.hold_duration_seconds)) [
        | inl e ↦ (e, reason_of_lem now s t (price_checks move s t) (rw e at h))
        | inr e ↦ absurd (ground arith)
      ]

  partly_taken-hold :
      (move : F) (s : BotSettings F) (t : TokenSignal F)
      → (partly_taken move s t).hold_duration_seconds ≡ t.hold_duration_seconds
  unfolding partly_taken
  partly_taken-hold move s t = ground arith

  module _ (clock : ℕ → Datetime) (s : BotSettings F) where
    after_mark_lem :
        (delta entry price move : F) (t v : TokenSignal F) (opened : Datetime) {u : TokenSignal F}
        → is_open t.status ≡ true
        → t.entry_price ≡ some entry
        → price
          ≡ max_of ⦃n = num⦄ (f.number.lit 1 7) (
              f.number.mul
                (some_or t.current_price entry)
                (f.number.add (f.number.lit 1 0) (f.number.div delta (f.number.lit 100 0))))
        → move ≡ f.number.mul (f.number.div (f.number.sub price entry) entry) (f.number.lit 100 0)
        → v ≡ marked (clock 1) s entry price (repriced (clock 0) delta entry t)
        → v.hold_duration_seconds ≡ seconds_since opened (clock 1)
        → after_mark clock move s (some v) ≡ some (u, true)
        → IsExit clock delta s opened t u
    unfolding after_mark sold
    after_mark_lem delta entry price move t v opened {u} o at_entry at_price moved at_mark e h =
        let before = partly_taken move s v in
        let (reason, w, r, q) =
          exit_for_lem (clock 3) (clock 4) s before (exit_reason_of (clock 2) move s before) h in
        let (held_long, first) = exit_reason_of_lem (clock 2) move s before r in
        let (place, row, least) =
          first-IsRow (price_checks move s before ++ time_checks (clock 2) s before) first in
        record {
          reason = reason;
          entry = entry;
          price = price;
          move = move;
          before = before;
          was_open = o;
          is_entry = at_entry;
          is_price = at_price;
          is_move = moved;
          is_before = ap (partly_taken move s) at_mark;
          was_held = rw (partly_taken-hold move s v, e) at held_long;
          place = place;
          is_due = due (clock 2) move s before place reason row;
          is_first = λ earlier other e.
              least earlier other (due-IsRow (clock 2) move s before earlier other e);
          is_sold = rw q refl;
          is_recorded = rw q refl;
          is_priced = rw q refl;
          is_closed = rw q refl;
        }

    mark_to_market_lem :
        (now : Datetime) (t : TokenSignal F) {entry current : F}
        → t.entry_price ≡ some entry
        → t.current_price ≡ some current
        → num_eq ⦃n = num⦄ entry zero_float ≡ false
        → mark_to_market now t s ≡ some (marked now s entry current t)
    unfolding mark_to_market mark_at
    mark_to_market_lem now t {entry} {current} p q b = ap2 p q ∙ rw b refl
      where
        ap2 :
            t.entry_price ≡ some entry
            → t.current_price ≡ some current
            → mark_at now s t.entry_price t.current_price t
              ≡ mark_at now s (some entry) (some current) t
        ap2 p q =
            ap (λ x. mark_at now s x t.current_price t) p
            ∙ ap (λ x. mark_at now s (some entry) x t) q

    tick_open_lem :
        (delta : F) (t : TokenSignal F) (opened : Datetime) (entry : Option F) {u : TokenSignal F}
        → is_open t.status ≡ true
        → t.opened_at ≡ some opened
        → t.entry_price ≡ entry
        → tick_open clock delta s entry t ≡ some (u, true)
        → IsExit clock delta s opened t u
    unfolding tick_open repriced marked
    tick_open_lem delta t opened none o e q h = absurd (cc)
    tick_open_lem delta t opened (some entry) {u} o e q h =
        elim (Bool-cases (num_eq ⦃n = num⦄ entry zero_float)) [
          | inl b ↦
              let bad : ◌≡◌ {A = Option (TokenSignal F × Bool)} none (some (u, true)) = rw b at h in
              absurd (cc)
          | inr b ↦
              let w = repriced (clock 0) delta entry t in
              let current = price_of w.current_price in
              let move = move_pct entry current in
              let v = marked (clock 1) s entry current w in
              let ends : after_mark clock move s (mark_to_market (clock 1) w s) ≡ some (u, true) =
                rw b at h in
              let closed : after_mark clock move s (some v) ≡ some (u, true) =
                ap (after_mark clock move s) (sym (mark_to_market_lem (clock 1) w q refl b))
                ∙ ends in
              after_mark_lem delta entry current move t v opened o q refl refl refl
                (ap (λ x. held x (clock 1) w.hold_duration_seconds) e) closed
        ]

    -- A tick that closes a position opened at `opened` found it open and held for at least the minimum
    -- hold time; the position is sold at its current price, for the reason of the first exit in order that is
    -- due at the price of this tick, and closed at the last reading of the clock.
    pub tick_closed :
        (delta : F) (t : TokenSignal F) (opened : Datetime) {u : TokenSignal F}
        → t.opened_at ≡ some opened
        → tick clock delta t s ≡ some (u, true)
        → IsExit clock delta s opened t u
    unfolding tick
    tick_closed delta t opened {u} e h =
        elim (Bool-cases (is_buying t.status && ltb_ℤ (pos 0) t.fill_delay_ticks_remaining)) [
          | inl b ↦
              let bad : ◌≡◌ {A = Option (TokenSignal F × Bool)} (some (fill_step t, false))
                  (some (u, true)) =
                rw b at h in
              absurd (cc)
          | inr b ↦ elim (Bool-cases (is_open t.status)) [
            | inl n ↦ tick_open_lem delta t opened t.entry_price n e refl (rw (b, n) at h)
            | inr n ↦
                let bad : ◌≡◌ {A = Option (TokenSignal F × Bool)} (some (t, false))
                    (some (u, true)) =
                  rw (b, n) at h in
                absurd (cc)
          ]
        ]
