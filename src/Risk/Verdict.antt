-- ===== src/Risk/Verdict.antt =====
-- When `RiskEngine.evaluate` allows an entry.
use crypto_arc_v.Prelude.{
  ◌≡◌, ◌↔◌, ◌⊎◌, refl, String, Bool, true, false, not, eq_iff, is_empty, arith, inl, inr,
  Bool-cases, Option-cases, if◌then◌else◌,
}
use crypto_arc_v.Prelude.Int.{ℤ, leb_ℤ, ◌≤ℤ◌}
use crypto_arc_v.Prelude.Checks.{
  Checks, AllPass, first_failing, first_failing-none, AllPass-of_first_failing,
}
use crypto_arc_v.Prelude.Text.{append, concat}
use crypto_arc_v.Number.{Float, min_of, abs_of}
use crypto_arc_v.Models.{BotSettings, TokenSignal, BotStats}
use crypto_arc_v.Risk.{
  num, effective_score_threshold, entry_confirmed, confirmation_missing, entry_confirmation_reason,
  risk_checks, decision, evaluate,
}

non_empty : (t : String) → is_empty (append "entry confirmation missing: " t) ≡ false
unfolding append
non_empty t =
    let text = append "entry confirmation missing: " t in
    elim (Bool-cases (is_empty text)) [ inl e ↦ absurd (cc ((eq_iff text "").0 e)) | inr e ↦ e ]

allowed-AllPass : (cs : Checks) → ((decision (first_failing cs)).allowed ≡ true) ↔ AllPass cs
unfolding decision
allowed-AllPass cs = (
  λ h. elim (Option-cases (first_failing cs)) [
    | inl e ↦ AllPass-of_first_failing cs e
    | inr (r, e) ↦ absurd (ground arith)
  ],
  λ p. rw (first_failing-none cs p) refl,
)

-- The two tests in front of a text that is not empty.
reason_iff :
    (enabled confirmed : Bool) (text : String)
    → is_empty text ≡ false
    → (not (is_empty (if not enabled then "" else if confirmed then "" else text)) ≡ false)
      ↔ ((enabled ≡ false) ⊎ (confirmed ≡ true))
reason_iff false c text h = (λ e. inl refl, λ e. refl)
reason_iff true true text h = (λ e. inr refl, λ e. refl)
reason_iff true false text h = (λ e. absurd (ground arith), λ e. absurd (ground arith))

module _ {F : Type 0} ⦃f : Float F⦄ where
  open f.number use {lit, add, lt, le}

  missing : (t : TokenSignal F) (s : BotSettings F) → is_empty (confirmation_missing t s) ≡ false
  unfolding confirmation_missing concat
  missing t s = non_empty _

  entry_confirmation_iff :
      (t : TokenSignal F) (s : BotSettings F)
      → (not (is_empty (entry_confirmation_reason t s)) ≡ false)
        ↔ ((s.entry_confirmation_enabled ≡ false) ⊎ (entry_confirmed t s ≡ true))
  unfolding entry_confirmation_reason
  entry_confirmation_iff t s =
      reason_iff s.entry_confirmation_enabled (entry_confirmed t s) (confirmation_missing t s)
        (missing t s)

  -- The confirmation does not read the profile, the tolerance or the base score.
  confirmed_same :
      (t : TokenSignal F) (s : BotSettings F) (profile tolerance : String) (base : ℤ)
      → entry_confirmed t (record s {
        strategy_profile = profile;
        risk_tolerance = tolerance;
        score_threshold = base;
      })
        ≡ entry_confirmed t s
  unfolding entry_confirmed
  confirmed_same t s profile tolerance base = refl

  -- An entry that breaks no guard.
  pub record IsAcceptable (t : TokenSignal F) (s : BotSettings F) (stats : BotStats F) (n : ℤ)
      : Type 0 where
    pub size_pos : le s.trade_size_sol (lit 0 0) ≡ false
    pub size_le : lt s.daily_loss_cap_sol s.trade_size_sol ≡ false
    pub loss_lt :
        le s.daily_loss_cap_sol (abs_of ⦃n = num⦄ (min_of ⦃n = num⦄ (lit 0 1) stats.total_pnl_sol))
        ≡ false
    pub positions : leb_ℤ s.max_open_positions n ≡ false
    pub honeypot : (s.filter_honeypots ≡ false) ⊎ (t.honeypot_risk ≡ false)
    pub rug : (s.filter_rug_risk ≡ false) ⊎ (t.rug_risk ≡ false)
    pub velocity : lt t.buy_velocity s.min_buy_velocity ≡ false
    pub pressure : lt s.max_sell_pressure t.sell_pressure ≡ false
    pub metadata : lt t.metadata_score s.min_metadata_score ≡ false
    pub confirmed : (s.entry_confirmation_enabled ≡ false) ⊎ (entry_confirmed t s ≡ true)
    pub age : t.age_seconds ≤ℤ s.max_token_age_seconds
    pub creator : lt s.max_creator_hold_pct t.creator_hold_pct ≡ false
    pub score : effective_score_threshold s ≤ℤ t.score

  risk_checks-IsAcceptable :
      (t : TokenSignal F) (s : BotSettings F) (stats : BotStats F) (n : ℤ)
      → AllPass (risk_checks t s stats n)
      → IsAcceptable t s stats n
  unfolding risk_checks
  risk_checks-IsAcceptable t s stats n
        (
          size,
          (
            cap,
            (
              loss,
              (count, (honey, (rug, (vel, (press, (meta, (conf, (age, (hold, (score, _)))))))))),
            ),
          ),
        ) =
      record {
        size_pos = size;
        size_le = cap;
        loss_lt = loss;
        positions = count;
        honeypot = ground arith;
        rug = ground arith;
        velocity = vel;
        pressure = press;
        metadata = meta;
        confirmed = (entry_confirmation_iff t s).0 conf;
        age = ground arith;
        creator = hold;
        score = ground arith;
      }

  IsAcceptable-risk_checks :
      (t : TokenSignal F) (s : BotSettings F) (stats : BotStats F) (n : ℤ)
      → IsAcceptable t s stats n
      → AllPass (risk_checks t s stats n)
  unfolding risk_checks
  IsAcceptable-risk_checks t s stats n a = (
    a.size_pos,
    (
      a.size_le,
      (
        a.loss_lt,
        (
          a.positions,
          (
            ground (arith, a.honeypot),
            (
              ground (arith, a.rug),
              (
                a.velocity,
                (
                  a.pressure,
                  (
                    a.metadata,
                    (
                      (entry_confirmation_iff t s).1 a.confirmed,
                      (ground (arith, a.age), (a.creator, (ground (arith, a.score), tt))),
                    ),
                  ),
                ),
              ),
            ),
          ),
        ),
      ),
    ),
  )

  -- `evaluate` allows an entry exactly if it breaks none of the thirteen guards; in particular an
  -- entry without confirmation passes only where confirmation is switched off.
  pub evaluate_iff :
      (t : TokenSignal F) (s : BotSettings F) (stats : BotStats F) (n : ℤ)
      → ((evaluate t s stats n).allowed ≡ true) ↔ IsAcceptable t s stats n
  unfolding evaluate
  evaluate_iff t s stats n =
      let table = allowed-AllPass (risk_checks t s stats n) in
      (
        λ h. risk_checks-IsAcceptable t s stats n (table.0 h),
        λ a. table.1 (IsAcceptable-risk_checks t s stats n a),
      )

  abbrev pub retuned : BotSettings F → String → String → ℤ → BotSettings F
  retuned s profile tolerance base = record s {
    strategy_profile = profile;
    risk_tolerance = tolerance;
    score_threshold = base;
  }

  -- A lower threshold only opens the gate: an entry that is allowed stays allowed when the profile,
  -- the risk tolerance and the base score are replaced by some whose effective threshold is not
  -- higher, whatever else the settings hold.
  pub evaluate_mono :
      (t : TokenSignal F) (s : BotSettings F) (stats : BotStats F) (n : ℤ)
      (profile tolerance : String) (base : ℤ)
      → effective_score_threshold (retuned s profile tolerance base) ≤ℤ effective_score_threshold s
      → (evaluate t s stats n).allowed ≡ true
      → (evaluate t (retuned s profile tolerance base) stats n).allowed ≡ true
  evaluate_mono t s stats n profile tolerance base below h =
      let looser = retuned s profile tolerance base in
      let a = (evaluate_iff t s stats n).0 h in
      (evaluate_iff t looser stats n).1 (record {
        size_pos = a.size_pos;
        size_le = a.size_le;
        loss_lt = a.loss_lt;
        positions = a.positions;
        honeypot = a.honeypot;
        rug = a.rug;
        velocity = a.velocity;
        pressure = a.pressure;
        metadata = a.metadata;
        confirmed = ground (arith, a.confirmed, confirmed_same t s profile tolerance base);
        age = a.age;
        creator = a.creator;
        score = omega (arith, below, a.score);
      })
