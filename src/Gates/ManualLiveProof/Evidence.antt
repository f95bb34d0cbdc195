-- ===== src/Gates/ManualLiveProof/Evidence.antt =====
-- What the rows of the authorization, the audits and the ledger ask for.
use crypto_arc_v.Prelude.{
  ℕ, ◌<◌, ◌≡◌, ◌↔◌, refl, ap, String, true, false, not, some, List, [], ◌∷◌, is_empty, All, arith,
  eq_iff,
}
use crypto_arc_v.Prelude.Checks.{AllPass, AllPass-append_iff}
use crypto_arc_v.Gates.Values.{
  Mapping, Platform, get, is_true, is_false, equals_text, text_or_empty, stripped, timestamp,
  value_of,
}
use crypto_arc_v.Gates.Times.{
  IsRecent, is_stale_iff, has_expired-false, has_expired-some, value_of-eq_some,
}
use crypto_arc_v.Gates.ManualLiveProof.{
  is_foreign, authorization_checks, has_fixture, audit_checks, all_audit_checks, is_not_zero,
  is_null, ledger_checks,
}

-- The authorization is for this proof, was issued within the last hour, is still valid, and names the signer's
-- wallet, mode and identity.
pub record IsGranted (p : Platform) (checked_at : ℕ) (signer_identity authorization : Mapping)
    : Type 0 where
  pub named : is_empty (stripped "authorization_id" authorization) ≡ false
  pub scoped : equals_text "manual-live-proof" (get "scope" authorization) ≡ true
  pub recent :
      IsRecent 3_600_000_000 checked_at (value_of (timestamp p (get "issued_at" authorization)))
  pub valid :
      (expires_at : ℕ) × (timestamp p (get "expires_at" authorization) ≡ some (some expires_at))
      × (checked_at < expires_at)
  pub wallet :
      (is_empty (stripped "wallet_public_key" signer_identity) ≡ false)
      × (stripped "wallet_public_key" signer_identity ≡ stripped "wallet_public_key" authorization)
  pub mode :
      (is_empty (stripped "signer_mode" signer_identity) ≡ false)
      × (stripped "signer_mode" signer_identity ≡ stripped "signer_mode" authorization)
  pub signer :
      (is_empty (stripped "signer_identity_id" signer_identity) ≡ false)
      × (stripped "signer_identity_id" signer_identity
          ≡ stripped "signer_identity_id" authorization)

is_foreign_iff :
    (key : String) (s a : Mapping)
    → (is_foreign key s a ≡ false)
      ↔ ((is_empty (stripped key s) ≡ false) × (stripped key s ≡ stripped key a))
unfolding is_foreign
is_foreign_iff key s a =
    let same = eq_iff (stripped key s) (stripped key a) in
    (λ h. ground (arith, h, same), λ (x, y). ground (arith, same, x, y))

pub IsGranted-iff :
    (p : Platform) (c : ℕ) (s a : Mapping)
    → AllPass (authorization_checks p c s a) ↔ IsGranted p c s a
unfolding authorization_checks value_of
IsGranted-iff p c s a = (
  λ (named, (scoped, (fresh, (expired, (wallet, (mode, (signer, _))))))). record {
    named = named;
    scoped = ground (arith, scoped);
    recent = (is_stale_iff 3_600_000_000 c (value_of (timestamp p (get "issued_at" a)))).0 fresh;
    valid =
        let (t, at, early) =
          has_expired-false (value_of (timestamp p (get "expires_at" a))) expired in
        (t, value_of-eq_some (timestamp p (get "expires_at" a)) at, early);
    wallet = (is_foreign_iff "wallet_public_key" s a).0 wallet;
    mode = (is_foreign_iff "signer_mode" s a).0 mode;
    signer = (is_foreign_iff "signer_identity_id" s a).0 signer;
  },
  λ v.
      let (expires_at, expires, early) = v.valid in
      (
        v.named,
        (
          ground (arith, v.scoped),
          (
            (is_stale_iff 3_600_000_000 c (value_of (timestamp p (get "issued_at" a)))).1 v.recent,
            (
              rw expires (has_expired-some expires_at early),
              (
                (is_foreign_iff "wallet_public_key" s a).1 v.wallet,
                (
                  (is_foreign_iff "signer_mode" s a).1 v.mode,
                  ((is_foreign_iff "signer_identity_id" s a).1 v.signer, tt),
                ),
              ),
            ),
          ),
        ),
      ),
)

-- A transaction of the signer that is confirmed under a signature, without an error, reconciled, with its fees.
pub record IsSettled (signer_identity audit : Mapping) : Type 0 where
  pub real : is_false (get "fixture_only" audit) ≡ true
  pub wallet :
      text_or_empty (get "wallet_public_key" audit) ≡ stripped "wallet_public_key" signer_identity
  pub mode : text_or_empty (get "signer_mode" audit) ≡ stripped "signer_mode" signer_identity
  pub signer :
      text_or_empty (get "signer_identity_id" audit) ≡ stripped "signer_identity_id" signer_identity
  pub confirmed : equals_text "confirmed" (get "status" audit) ≡ true
  pub signed : is_empty (stripped "transaction_signature" audit) ≡ false
  pub no_error : is_empty (stripped "error" audit) ≡ true
  pub reconciled : is_true (get "reconciled" audit) ≡ true
  pub fees : is_true (get "fees_complete" audit) ≡ true

IsSettled-iff :
    (s audit : Mapping)
    → ((is_false (get "fixture_only" audit) ≡ true) × AllPass (audit_checks s audit))
      ↔ IsSettled s audit
unfolding audit_checks
IsSettled-iff s audit =
    let same = λ (key : String). eq_iff (text_or_empty (get key audit)) (stripped key s) in
    (
      λ (
        real,
        (wallet, (mode, (signer, (confirmed, (signed, (no_error, (reconciled, (fees, _)))))))),
      ).
          record {
            real = real;
            wallet = (same "wallet_public_key").0 (ground (arith, wallet));
            mode = (same "signer_mode").0 (ground (arith, mode));
            signer = (same "signer_identity_id").0 (ground (arith, signer));
            confirmed = ground (arith, confirmed);
            signed = signed;
            no_error = ground (arith, no_error);
            reconciled = ground (arith, reconciled);
            fees = ground (arith, fees);
          },
      λ v. (
        v.real,
        (
          ap not ((same "wallet_public_key").1 v.wallet),
          (
            ap not ((same "signer_mode").1 v.mode),
            (
              ap not ((same "signer_identity_id").1 v.signer),
              (
                ap not v.confirmed,
                (v.signed, (ap not v.no_error, (ap not v.reconciled, (ap not v.fees, tt)))),
              ),
            ),
          ),
        ),
      ),
    )

pub all-IsSettled_iff :
    (s : Mapping) (audits : List Mapping)
    → ((has_fixture audits ≡ false) × AllPass (all_audit_checks s audits))
      ↔ All (IsSettled s) audits
unfolding has_fixture all_audit_checks
all-IsSettled_iff s [] = (λ _. tt, λ _. (refl, tt))
all-IsSettled_iff s (audit ∷ audits) = (
  λ (real, passed).
      let (here, there) =
        (AllPass-append_iff (audit_checks s audit) (all_audit_checks s audits)).0 passed in
      (
        (IsSettled-iff s audit).0 (ground (arith, real), here),
        (all-IsSettled_iff s audits).0 (ground (arith, real), there),
      ),
  λ (v, vs).
      let (real, here) = (IsSettled-iff s audit).1 v in
      let (reals, there) = (all-IsSettled_iff s audits).1 vs in
      (
        ground (arith, real, reals),
        (AllPass-append_iff (audit_checks s audit) (all_audit_checks s audits)).1 (here, there),
      ),
)

-- The ledger is of the signer's wallet, the round trip is over with its fees and its result, and nothing is left open,
-- unknown or repaired by hand.
pub record IsBooked (p : Platform) (signer_identity ledger : Mapping) : Type 0 where
  pub wallet :
      text_or_empty (get "wallet_public_key" ledger) ≡ stripped "wallet_public_key" signer_identity
  pub complete : is_true (get "round_trip_complete" ledger) ≡ true
  pub closed : is_not_zero p (get "open_positions" ledger) ≡ false
  pub fees : is_true (get "fees_complete" ledger) ≡ true
  pub pnl : is_true (get "pnl_complete" ledger) ≡ true
  pub result : is_null (get "realized_pnl_sol" ledger) ≡ false
  pub known : is_not_zero p (get "unknown_transactions" ledger) ≡ false
  pub unrepaired : is_true (get "manual_database_repair" ledger) ≡ false
  pub reviewed : is_not_zero p (get "review_debt" ledger) ≡ false

pub IsBooked-iff :
    (p : Platform) (s ledger : Mapping) → AllPass (ledger_checks p s ledger) ↔ IsBooked p s ledger
unfolding ledger_checks
IsBooked-iff p s ledger =
    let same =
      eq_iff (text_or_empty (get "wallet_public_key" ledger)) (stripped "wallet_public_key" s) in
    (
      λ (wallet, (trip, (fees, (pnl, (known, (repair, (debt, _))))))). record {
        wallet = same.0 (ground (arith, wallet));
        complete = ground (arith, trip);
        closed = ground (arith, trip);
        fees = ground (arith, fees);
        pnl = ground (arith, pnl);
        result = ground (arith, pnl);
        known = known;
        unrepaired = repair;
        reviewed = debt;
      },
      λ v. (
        ap not (same.1 v.wallet),
        (
          ground (arith, v.complete, v.closed),
          (
            ap not v.fees,
            (ground (arith, v.pnl, v.result), (v.known, (v.unrepaired, (v.reviewed, tt)))),
          ),
        ),
      ),
    )
