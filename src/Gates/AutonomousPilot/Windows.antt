-- ===== src/Gates/AutonomousPilot/Windows.antt =====
-- When a pilot window is eligible, and when it stays open for entries.
use crypto_arc_v.Prelude.{
  ℕ, ◌+◌, ◌<◌, ◌≤◌, ◌≡◌, ◌↔◌, ◌≢◌, inl, inr, refl, sym, ap, ◌∙◌, String, Bool, true, false, not,
  ◌&&◌, ◌||◌, Option, none, some, some-injective, [], ◌++◌, if◌then◌else◌, is_empty, str_eq, is_nil,
  arith, eq_iff, Bool-cases, false≢true,
}
use crypto_arc_v.Prelude.Checks.{AllPass, AllPass-append_iff, block_all-pass, AllPass-of_block_all}
use crypto_arc_v.Gates.Values.{
  Mapping, Platform, get, truthy, is_true, is_false, is_one, equals_text, text_or_empty, stripped,
  zero_value, timestamp, value_of, has_expired,
}
use crypto_arc_v.Gates.Times.{
  IsRecent, is_stale_iff, has_expired-false, has_expired-some, value_of-eq_some, has_raised-false,
  has_raised-some, five_false,
}
use crypto_arc_v.Gates.AutonomousPilot.{
  is_too_long, is_mismatch, authorization_checks, readiness_checks, identity_checks, window_checks,
  is_some_true, PilotWindow, window_raises, window_of, open_window, is_stop_event, evaluate,
}

is_too_long-false :
    {c : ℕ} (issued expires : ℕ)
    → c < expires
    → ((not (has_expired c (some expires)) && is_too_long (some issued) (some expires)) ≡ false)
      ↔ (expires ≤ issued + 1_800_000_000)
unfolding has_expired is_too_long
is_too_long-false issued expires l = (λ h. ground (arith, l, h), λ h. ground (arith, l, h))

-- The authorization names itself, is for an attended pilot, was issued within the last hour, is still valid, and
-- is valid for at most thirty minutes.
pub record IsAuthorized (p : Platform) (checked_at : ℕ) (authorization : Mapping) : Type 0 where
  pub named : is_empty (stripped "authorization_id" authorization) ≡ false
  pub scoped : equals_text "attended-autonomous-pilot" (get "scope" authorization) ≡ true
  pub attended : is_true (get "attended" authorization) ≡ true
  pub issued_at : ℕ
  pub expires_at : ℕ
  pub issued : timestamp p (get "issued_at" authorization) ≡ some (some issued_at)
  pub expires : timestamp p (get "expires_at" authorization) ≡ some (some expires_at)
  pub past : issued_at ≤ checked_at
  pub recent : checked_at ≤ issued_at + 3_600_000_000
  pub valid : checked_at < expires_at
  pub short : expires_at ≤ issued_at + 1_800_000_000

authorization_iff :
    (p : Platform) (checked_at : ℕ) (authorization : Mapping)
    → AllPass (authorization_checks p checked_at authorization)
      ↔ IsAuthorized p checked_at authorization
unfolding authorization_checks value_of
authorization_iff p checked_at authorization = (
  λ (named, (scoped, (attended, (fresh, (open_still, (short, _)))))).
      let (issued_at, issued, past, recent) =
        (is_stale_iff 3_600_000_000 checked_at
            (value_of (timestamp p (get "issued_at" authorization)))).0
          fresh in
      let (expires_at, expires, valid) =
        has_expired-false (value_of (timestamp p (get "expires_at" authorization))) open_still in
      record {
        named = named;
        scoped = ground (arith, scoped);
        attended = ground (arith, attended);
        issued_at = issued_at;
        expires_at = expires_at;
        issued = value_of-eq_some (timestamp p (get "issued_at" authorization)) issued;
        expires = value_of-eq_some (timestamp p (get "expires_at" authorization)) expires;
        past = past;
        recent = omega (arith, recent);
        valid = valid;
        short = (is_too_long-false issued_at expires_at valid).0 (rw (issued, expires) at short);
      },
  λ v. (
    v.named,
    (
      ground (arith, v.scoped),
      (
        ground (arith, v.attended),
        (
          (is_stale_iff 3_600_000_000 checked_at
                (value_of (timestamp p (get "issued_at" authorization)))).1
              (v.issued_at, rw v.issued refl, v.past, omega (arith, v.recent)),
          (
            rw v.expires (has_expired-some v.expires_at v.valid),
            (
              rw (v.issued, v.expires)
                  ((is_too_long-false v.issued_at v.expires_at v.valid).1 v.short),
              tt,
            ),
          ),
        ),
      ),
    ),
  ),
)

is_some_true_lem : (x : Option Bool) → not (is_some_true x) ≡ false → x ≡ some true
is_some_true_lem none h = absurd (cc)
is_some_true_lem (some true) h = refl
is_some_true_lem (some false) h = absurd (cc)

-- The readiness is of the last two minutes and of the real system, both gates are ready, nothing is left to audit
-- or to book, the backup is fresh, the kill switch works, and an earlier window has been reviewed.
pub record IsReady (p : Platform) (checked_at : ℕ) (readiness_snapshot : Mapping) : Type 0 where
  pub recent :
      IsRecent 120_000_000 checked_at
        (value_of (timestamp p (get "generated_at" readiness_snapshot)))
  pub sniper_gate : is_true (get "full_sniper_gate_ready" readiness_snapshot) ≡ true
  pub pilot_gate : is_true (get "pilot_readiness_ready" readiness_snapshot) ≡ true
  pub actual : is_false (get "fixture_only" readiness_snapshot) ≡ true
  pub audited : zero_value p (get "unresolved_audits" readiness_snapshot) ≡ some true
  pub booked : zero_value p (get "ledger_debt" readiness_snapshot) ≡ some true
  pub backed_up : is_true (get "backup_fresh" readiness_snapshot) ≡ true
  pub stoppable : is_true (get "kill_switch_available" readiness_snapshot) ≡ true
  pub reviewed :
      truthy (get "prior_pilot_window_id" readiness_snapshot) ≡ true
      → is_true (get "prior_post_pilot_review_clear" readiness_snapshot) ≡ true

readiness_iff :
    (p : Platform) (checked_at : ℕ) (readiness_snapshot : Mapping)
    → AllPass (readiness_checks p checked_at readiness_snapshot)
      ↔ IsReady p checked_at readiness_snapshot
unfolding readiness_checks
readiness_iff p checked_at r = (
  λ (stale, (sniper, (pilot, (actual, (audits, (debt, (backup, (kill, (review, _))))))))). record {
    recent =
        (is_stale_iff 120_000_000 checked_at (value_of (timestamp p (get "generated_at" r)))).0
          stale;
    sniper_gate = ground (arith, sniper);
    pilot_gate = ground (arith, pilot);
    actual = ground (arith, actual);
    audited = is_some_true_lem _ audits;
    booked = is_some_true_lem _ debt;
    backed_up = ground (arith, backup);
    stoppable = ground (arith, kill);
    reviewed = λ h. ground (arith, review, h);
  },
  λ v. (
    (is_stale_iff 120_000_000 checked_at (value_of (timestamp p (get "generated_at" r)))).1
        v.recent,
    (
      ground (arith, v.sniper_gate),
      (
        ground (arith, v.pilot_gate),
        (
          ground (arith, v.actual),
          (
            ap (λ x. not (is_some_true x)) v.audited,
            (
              ap (λ x. not (is_some_true x)) v.booked,
              (
                ground (arith, v.backed_up),
                (ground (arith, v.stoppable), (ground (arith, v.reviewed), tt)),
              ),
            ),
          ),
        ),
      ),
    ),
  ),
)

-- The authorization names a value that the readiness and the proof repeat.
abbrev pub IsShared : String → Mapping → Mapping → Mapping → Type 0
IsShared key authorization readiness_snapshot manual_proof =
    (is_empty (stripped key authorization) ≡ false)
    × (text_or_empty (get key readiness_snapshot) ≡ stripped key authorization)
    × (text_or_empty (get key manual_proof) ≡ stripped key authorization)

is_mismatch_iff :
    (key : String) (authorization readiness_snapshot manual_proof : Mapping)
    → (is_mismatch key (stripped key authorization) readiness_snapshot manual_proof ≡ false)
      ↔ IsShared key authorization readiness_snapshot manual_proof
unfolding is_mismatch
is_mismatch_iff key a r m =
    let first = eq_iff (text_or_empty (get key r)) (stripped key a) in
    let second = eq_iff (text_or_empty (get key m)) (stripped key a) in
    (λ h. ground (arith, h, first, second), λ (h, f, s). ground (arith, h, first, second, f, s))

-- All parts name one wallet and one signer, the policy is of the pilot's version, for one position and without
-- automatic changes, and the live proof is a qualified one of the real system.
pub record IsIdentified (authorization readiness_snapshot policy manual_proof : Mapping)
    : Type 0 where
  pub wallet : IsShared "wallet_public_key" authorization readiness_snapshot manual_proof
  pub signer_mode : IsShared "signer_mode" authorization readiness_snapshot manual_proof
  pub signer_identity : IsShared "signer_identity_id" authorization readiness_snapshot manual_proof
  pub policy_id : is_empty (stripped "policy_id" policy) ≡ false
  pub policy_version : equals_text "micro-pilot-risk-v1" (get "policy_version" policy) ≡ true
  pub one_position : is_one (get "max_open_positions" policy) ≡ true
  pub no_restart : is_false (get "automatic_restart_allowed" policy) ≡ true
  pub no_replenishment : is_false (get "automatic_replenishment_allowed" policy) ≡ true
  pub no_cap_increase : is_false (get "automatic_cap_increase_allowed" policy) ≡ true
  pub proven : is_true (get "qualified" manual_proof) ≡ true
  pub real_proof : is_false (get "fixture_only" manual_proof) ≡ true
  pub proof_id : is_empty (stripped "proof_id" manual_proof) ≡ false

identity_iff :
    (a r policy m : Mapping) → AllPass (identity_checks a r policy m) ↔ IsIdentified a r policy m
unfolding identity_checks
identity_iff a r policy m = (
  λ (wallet, (mode, (signer, (pilot_policy, (proof, _))))). record {
    wallet = (is_mismatch_iff "wallet_public_key" a r m).0 wallet;
    signer_mode = (is_mismatch_iff "signer_mode" a r m).0 mode;
    signer_identity = (is_mismatch_iff "signer_identity_id" a r m).0 signer;
    policy_id = ground (arith, pilot_policy);
    policy_version = ground (arith, pilot_policy);
    one_position = ground (arith, pilot_policy);
    no_restart = ground (arith, pilot_policy);
    no_replenishment = ground (arith, pilot_policy);
    no_cap_increase = ground (arith, pilot_policy);
    proven = ground (arith, proof);
    real_proof = ground (arith, proof);
    proof_id = ground (arith, proof);
  },
  λ v. (
    (is_mismatch_iff "wallet_public_key" a r m).1 v.wallet,
    (
      (is_mismatch_iff "signer_mode" a r m).1 v.signer_mode,
      (
        (is_mismatch_iff "signer_identity_id" a r m).1 v.signer_identity,
        (
          ground (
            arith, v.policy_id, v.policy_version, v.one_position, v.no_restart, v.no_replenishment,
            v.no_cap_increase,
          ),
          (ground (arith, v.proven, v.real_proof, v.proof_id), tt),
        ),
      ),
    ),
  ),
)

window_of_iff :
    (p : Platform) (checked_at : ℕ) (authorization readiness_snapshot policy manual_proof : Mapping)
    → ((window_of p checked_at authorization readiness_snapshot policy manual_proof).eligible
        ≡ true)
      ↔ (IsAuthorized p checked_at authorization
          × IsReady p checked_at readiness_snapshot
          × IsIdentified authorization readiness_snapshot policy manual_proof)
unfolding window_of window_checks
window_of_iff p c a r policy m =
    let first = authorization_checks p c a in
    let second = readiness_checks p c r in
    let third = identity_checks a r policy m in
    (
      λ h.
          let passed = AllPass-of_block_all (first ++ (second ++ third)) h in
          let (x, rest) = (AllPass-append_iff first (second ++ third)).0 passed in
          let (y, z) = (AllPass-append_iff second third).0 rest in
          (
            (authorization_iff p c a).0 x,
            (readiness_iff p c r).0 y,
            (identity_iff a r policy m).0 z,
          ),
      λ (x, y, z). ap is_nil (
          block_all-pass (first ++ (second ++ third)) [] (
            (AllPass-append_iff first (second ++ third)).1 (
              (authorization_iff p c a).1 x,
              (AllPass-append_iff second third).1
                  ((readiness_iff p c r).1 y, (identity_iff a r policy m).1 z),
            ))),
    )

window_raises-false :
    (p : Platform) (checked_at : ℕ) (authorization readiness_snapshot : Mapping)
    → IsAuthorized p checked_at authorization
    → IsReady p checked_at readiness_snapshot
    → window_raises p authorization readiness_snapshot ≡ false
unfolding window_raises
window_raises-false p c a r x y =
    let (_, recent, _, _) = y.recent in
    five_false _ _ _ _ _ (has_raised-some x.issued) (has_raised-some x.expires)
      (has_raised-false (timestamp p (get "generated_at" r)) recent) (has_raised-some y.audited)
      (has_raised-some y.booked)

-- `open_window` returns an eligible window exactly if the authorization is fresh, attended and short, the system
-- is ready, and all parts agree on the wallet, the signer, the policy and the live proof.
pub open_window_iff :
    (p : Platform) (checked_at : ℕ) (authorization readiness_snapshot policy manual_proof : Mapping)
    → ((window : PilotWindow) × (open_window p checked_at authorization readiness_snapshot policy
            manual_proof
          ≡ some window)
        × (window.eligible ≡ true))
      ↔ (IsAuthorized p checked_at authorization
          × IsReady p checked_at readiness_snapshot
          × IsIdentified authorization readiness_snapshot policy manual_proof)
unfolding open_window
open_window_iff p c a r policy m = (
  λ (window, h, q). elim (Bool-cases (window_raises p a r)) [
    | inl e ↦
        let bad : ◌≡◌ {A = Option PilotWindow} none (some window) = rw (e, open_window) at h in
        absurd (cc)
    | inr e ↦
        let same : some (window_of p c a r policy m) ≡ some window = rw (e, open_window) at h in
        (window_of_iff p c a r policy m).0 (ap (λ w. w.eligible) (some-injective _ _ same) ∙ q)
  ],
  λ (x, y, z). (
    window_of p c a r policy m,
    rw (window_raises-false p c a r x y) refl,
    (window_of_iff p c a r policy m).1 (x, y, z),
  ),
)

all_four : (b : Bool) → (b && b && b && b) ≡ b
all_four true = refl
all_four false = refl

-- Entries go on after an event exactly if the window is eligible and the event is neither its end nor one of the
-- events that stop a pilot. Otherwise the window is closed, only guarded exits are left, and a kill switch, a
-- disarmed backend, a reconciliation and a review are required; the backend is never given more authority.
pub evaluate_lem :
    (event : Mapping) (eligible : Bool)
    → let event_type = text_or_empty (get "type" event) in
      let decision = evaluate event eligible in
      ((decision.stop_new_entries ≡ false)
        ↔ ((eligible ≡ true) × (event_type ≢ "end_window") × (is_stop_event event_type ≡ false)))
      × (decision.close_window ≡ decision.stop_new_entries)
      × (decision.exit_mode ≡ (
          if decision.stop_new_entries
          then "existing_guarded_exit_only"
          else "guarded_entry_and_exit"))
      × ((decision.requires_kill_switch && decision.requires_backend_disarm
            && decision.requires_reconciliation && decision.requires_post_run_review)
          ≡ decision.stop_new_entries)
      × ((decision.automatic_restart_allowed || decision.authority_changed) ≡ false)
unfolding evaluate
evaluate_lem event eligible =
    let event_type = text_or_empty (get "type" event) in
    elim (Bool-cases (str_eq event_type "end_window")) [
      | inl e ↦ rw e (
        (
          λ h. absurd (ground (arith, h)),
          λ (_, n, _). absurd (n ((eq_iff event_type "end_window").0 e)),
        ),
        refl,
        refl,
        refl,
        refl,
      )
      | inr e ↦ rw e (
        (
          λ h. (
            ground (arith, h),
            λ same. false≢true (sym e ∙ (eq_iff event_type "end_window").1 same),
            ground (arith, h),
          ),
          λ (x, _, y). ground (arith, x, y),
        ),
        refl,
        refl,
        all_four (is_stop_event event_type || not eligible),
        refl,
      )
    ]
