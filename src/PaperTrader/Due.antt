-- ===== src/PaperTrader/Due.antt =====
-- Which exits of a tick are due, in the order of their precedence.
use crypto_arc_v.Prelude.{
  ℕ, zero, suc, ◌≤◌, ◌≡◌, refl, String, true, false, Option, some, none, [], ◌∷◌, ◌++◌, arith,
  subst,
}
use crypto_arc_v.Prelude.Int.{pos, leb_ℤ, ◌*ℤ◌, ◌-ℤ◌}
use crypto_arc_v.Prelude.Checks.{Checks, first_failing}
use crypto_arc_v.Prelude.Time.{Datetime}
use crypto_arc_v.Number.{Float, abs_of}
use crypto_arc_v.Models.{BotSettings, TokenSignal}
use crypto_arc_v.PaperTrader.{num, zero_float}
use crypto_arc_v.PaperTrader.Ticks.{price_checks, time_checks, held_for}

-- The row of a table at an index, if there is one.
abbrev pub IsRow : ℕ → Checks → String → Type 0
IsRow k [] reason = ⊥
IsRow zero ((failed, name) ∷ cs) reason = (failed ≡ true) × (name ≡ reason)
IsRow (suc k) (c ∷ cs) reason = IsRow k cs reason

pub first-IsRow :
    (cs : Checks) {reason : String}
    → first_failing cs ≡ some reason
    → (k : ℕ) × IsRow k cs reason × ((i : ℕ) (other : String) → IsRow i cs other → k ≤ i)
unfolding first_failing
first-IsRow [] h = absurd (cc)
first-IsRow ((true, name) ∷ cs) h = (0, (refl, cc), λ i other r. omega arith)
first-IsRow ((false, name) ∷ cs) {reason} h =
    let (k, row, least) = first-IsRow cs h in (suc k, row, later k least)
  where
    later :
        (k : ℕ)
        → ((i : ℕ) (other : String) → IsRow i cs other → k ≤ i)
        → (i : ℕ) (other : String) → IsRow i ((false, name) ∷ cs) other
        → suc k ≤ i
    later k least zero other (bad, _) = absurd (cc)
    later k least (suc i) other r = let below = least i other r in omega (arith, below)

module _ {F : Type 0} ⦃f : Float F⦄ where
  open f.number use {neg, sub, le}

  -- An exit that is due, with its place in the order of the exits and its reason.
  pub data IsDue (now : Datetime) (move : F) (s : BotSettings F) (t : TokenSignal F)
      : ℕ → String → Type 0 where
    takes_profit : le s.take_profit_pct move ≡ true → IsDue now move s t 0 "take profit"
    trails :
        s.trailing_stop_enabled ≡ true
        → le s.partial_take_profit_pct t.highest_unrealized_pct ≡ true
        → le move (sub t.highest_unrealized_pct s.trailing_stop_pct) ≡ true
        → IsDue now move s t 1 "trailing stop"
    breaks_even :
        s.break_even_stop_enabled ≡ true
        → le s.break_even_after_profit_pct t.highest_unrealized_pct ≡ true
        → le move zero_float ≡ true
        → IsDue now move s t 2 "break-even stop"
    stalls :
        s.stalled_trade_exit_enabled ≡ true
        → leb_ℤ s.stalled_trade_seconds t.hold_duration_seconds ≡ true
        → le (abs_of ⦃n = num⦄ move) s.stalled_trade_min_move_pct ≡ true
        → IsDue now move s t 3 "stalled trade"
    is_pressed :
        s.sell_pressure_exit_enabled ≡ true
        → le s.sell_pressure_exit_threshold t.sell_pressure ≡ true
        → IsDue now move s t 4 "sell pressure exit"
    stops_loss : le move (neg s.stop_loss_pct) ≡ true → IsDue now move s t 5 "stop loss"
    is_old :
        (opened : Datetime)
        → t.opened_at ≡ some opened
        → leb_ℤ (s.max_hold_time_seconds *ℤ pos 1_000_000) (pos now.micros -ℤ pos opened.micros)
          ≡ true
        → IsDue now move s t 6 "max hold time"
    has_ticked :
        leb_ℤ s.max_position_ticks t.ticks_held ≡ true → IsDue now move s t 7 "max position ticks"

  old_lem :
      (now : Datetime) (move : F) (s : BotSettings F) (t : TokenSignal F) (at : Option Datetime)
      → t.opened_at ≡ at
      → held_for at now s.max_hold_time_seconds ≡ true
      → IsDue now move s t 6 "max hold time"
  unfolding held_for
  old_lem now move s t none e h = absurd (cc)
  old_lem now move s t (some opened) e h = is_old opened e h

  pub due :
      (now : Datetime) (move : F) (s : BotSettings F) (t : TokenSignal F) (k : ℕ) (reason : String)
      → IsRow k (price_checks move s t ++ time_checks now s t) reason
      → IsDue now move s t k reason
  unfolding price_checks time_checks
  due now move s t zero reason (h, e) = subst (IsDue now move s t 0) e (takes_profit h)
  due now move s t (suc zero) reason (h, e) =
      subst (IsDue now move s t 1) e
        (trails (ground (arith, h)) (ground (arith, h)) (ground (arith, h)))
  due now move s t (suc (suc zero)) reason (h, e) =
      subst (IsDue now move s t 2) e
        (breaks_even (ground (arith, h)) (ground (arith, h)) (ground (arith, h)))
  due now move s t (suc (suc (suc zero))) reason (h, e) =
      subst (IsDue now move s t 3) e
        (stalls (ground (arith, h)) (ground (arith, h)) (ground (arith, h)))
  due now move s t (suc (suc (suc (suc zero)))) reason (h, e) =
      subst (IsDue now move s t 4) e (is_pressed (ground (arith, h)) (ground (arith, h)))
  due now move s t (suc (suc (suc (suc (suc zero))))) reason (h, e) =
      subst (IsDue now move s t 5) e (stops_loss h)
  due now move s t (suc (suc (suc (suc (suc (suc zero)))))) reason (h, e) =
      subst (IsDue now move s t 6) e (old_lem now move s t t.opened_at refl h)
  due now move s t (suc (suc (suc (suc (suc (suc (suc zero))))))) reason (h, e) =
      subst (IsDue now move s t 7) e (has_ticked h)
  due now move s t (suc (suc (suc (suc (suc (suc (suc (suc k)))))))) reason r = absurd r

  pub due-IsRow :
      (now : Datetime) (move : F) (s : BotSettings F) (t : TokenSignal F) (k : ℕ) (reason : String)
      → IsDue now move s t k reason
      → IsRow k (price_checks move s t ++ time_checks now s t) reason
  unfolding price_checks time_checks held_for
  due-IsRow now move s t k reason (takes_profit a) = (a, refl)
  due-IsRow now move s t k reason (trails a b c) = (ground (arith, a, b, c), refl)
  due-IsRow now move s t k reason (breaks_even a b c) = (ground (arith, a, b, c), refl)
  due-IsRow now move s t k reason (stalls a b c) = (ground (arith, a, b, c), refl)
  due-IsRow now move s t k reason (is_pressed a b) = (ground (arith, a, b), refl)
  due-IsRow now move s t k reason (stops_loss a) = (a, refl)
  due-IsRow now move s t k reason (is_old opened e h) = (rw e h, refl)
  due-IsRow now move s t k reason (has_ticked a) = (a, refl)
