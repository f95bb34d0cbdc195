-- ===== src/Gates/ManualLiveProof.antt =====
-- `ManualLiveProof.qualify` of backend/app/core/manual_live_proof.py. A call that raises returns `none`: comparing a
-- NaN of `Decimal` raises, and that comparison stands outside of the `try`; and so does an OverflowError of `_timestamp` or
-- `_count`, which catch other exceptions.
pub mod Evidence
pub mod Qualification
use crypto_arc_v.Prelude.{
  ℕ, String, Bool, true, false, not, ◌&&◌, ◌||◌, Option, some, none, List, [], ◌∷◌, ◌++◌,
  if◌then◌else◌, is_empty, str_eq, ltb, leb, ◌==◌, contains, is_nil, length,
}
use crypto_arc_v.Prelude.Int.{ℤ, pos}
use crypto_arc_v.Prelude.Checks.{Checks, block_all}
use crypto_arc_v.Prelude.Text.{append, strip}
use crypto_arc_v.Gates.Values.{
  Value, Mapping, Platform, get, null, truthy, is_true, is_false, equals_text, text_or_empty,
  stripped, str, int_of, is_zero, value_of, has_raised, timestamp, is_stale, has_expired,
}

-- `Decimal`, as far as `qualify` uses it: `Decimal(text)`, which raises on what is no number, and the comparisons, which
-- raise on a NaN.
pub record Amounts (D : Type 0) : Type 0 where
  pub parse : String → Option D
  pub lit : ℕ → D
  pub minus_one : D
  pub is_nan : D → Bool
  pub lt : D → D → Bool

pub record ProofReport : Type 0 where
  pub qualified : Bool
  pub status : String
  pub blockers : List String
  pub authorization_id : String
  pub wallet_public_key : String
  pub signer_mode : String
  pub signer_identity_id : String
  pub audit_ids : List String
  pub transaction_signatures : List String
  pub authority_changed : Bool
  pub operator_action : String

-- `not mine or mine != str(authorization.get(key) or "").strip()`
unfoldable pub is_foreign : String → Mapping → Mapping → Bool
is_foreign key signer_identity authorization =
    is_empty (stripped key signer_identity)
    || not (str_eq (stripped key signer_identity) (stripped key authorization))

unfoldable pub authorization_checks : Platform → ℕ → Mapping → Mapping → Checks
unfolding is_foreign
authorization_checks p checked_at signer_identity authorization =
    (is_empty (stripped "authorization_id" authorization), "authorization_id")
    ∷ (not (equals_text "manual-live-proof" (get "scope" authorization)), "authorization_scope")
    ∷ (
      is_stale 3_600_000_000 checked_at (value_of (timestamp p (get "issued_at" authorization))),
      "authorization_not_fresh",
    )
    ∷ (
      has_expired checked_at (value_of (timestamp p (get "expires_at" authorization))),
      "authorization_expired",
    )
    ∷ (is_foreign "wallet_public_key" signer_identity authorization, "wallet_identity_mismatch")
    ∷ (is_foreign "signer_mode" signer_identity authorization, "signer_mode_mismatch")
    ∷ (is_foreign "signer_identity_id" signer_identity authorization, "signer_identity_mismatch")
    ∷ []

-- `[audit for audit in audits if audit.get("action") == action]`
unfoldable pub select_action : String → List Mapping → List Mapping
select_action action [] = []
select_action action (audit ∷ audits) =
    let rest = select_action action audits in
    if equals_text action (get "action" audit) then audit ∷ rest else rest

-- `any(audit.get("fixture_only") is not False for audit in audits)`
unfoldable pub has_fixture : List Mapping → Bool
has_fixture [] = false
has_fixture (audit ∷ audits) = not (is_false (get "fixture_only" audit)) || has_fixture audits

unfoldable pub evidence_checks : List Mapping → Checks
unfolding select_action has_fixture
evidence_checks audits =
    (not (length (select_action "buy" audits) == 1), "buy_audit")
    ∷ (not (length (select_action "sell" audits) == 1), "sell_audit")
    ∷ (has_fixture audits || is_nil audits, "actual_live_evidence_required")
    ∷ []

-- The body of `for audit in audits`
unfoldable pub audit_checks : Mapping → Mapping → Checks
audit_checks signer_identity audit =
    (
      not (
          str_eq (text_or_empty (get "wallet_public_key" audit))
            (stripped "wallet_public_key" signer_identity)),
      "wallet_identity_mismatch",
    )
    ∷ (
      not (
          str_eq (text_or_empty (get "signer_mode" audit))
            (stripped "signer_mode" signer_identity)),
      "signer_mode_mismatch",
    )
    ∷ (
      not (
          str_eq (text_or_empty (get "signer_identity_id" audit))
            (stripped "signer_identity_id" signer_identity)),
      "signer_identity_mismatch",
    )
    ∷ (not (equals_text "confirmed" (get "status" audit)), "unconfirmed_transaction")
    ∷ (is_empty (stripped "transaction_signature" audit), "confirmed_signature")
    ∷ (not (is_empty (stripped "error" audit)), "audit_error")
    ∷ (not (is_true (get "reconciled" audit)), "reconciliation_incomplete")
    ∷ (not (is_true (get "fees_complete" audit)), "fees_incomplete")
    ∷ []

unfoldable pub all_audit_checks : Mapping → List Mapping → Checks
unfolding audit_checks
all_audit_checks signer_identity [] = []
all_audit_checks signer_identity (audit ∷ audits) =
    audit_checks signer_identity audit ++ all_audit_checks signer_identity audits

-- `_count(value) != 0`, where `int` raises nothing or what `_count` catches
unfoldable pub is_not_zero : Platform → Value → Bool
is_not_zero p v = not (is_zero (value_of (int_of p v)))

abbrev pub is_null : Value → Bool
is_null null = true
is_null _ = false

unfoldable pub ledger_checks : Platform → Mapping → Mapping → Checks
unfolding is_not_zero
ledger_checks p signer_identity ledger =
    (
      not (
          str_eq (text_or_empty (get "wallet_public_key" ledger))
            (stripped "wallet_public_key" signer_identity)),
      "wallet_identity_mismatch",
    )
    ∷ (
      not (is_true (get "round_trip_complete" ledger))
          || is_not_zero p (get "open_positions" ledger),
      "round_trip_incomplete",
    )
    ∷ (not (is_true (get "fees_complete" ledger)), "fees_incomplete")
    ∷ (
      not (is_true (get "pnl_complete" ledger)) || is_null (get "realized_pnl_sol" ledger),
      "pnl_incomplete",
    )
    ∷ (is_not_zero p (get "unknown_transactions" ledger), "unknown_transaction")
    ∷ (is_true (get "manual_database_repair" ledger), "manual_database_repair")
    ∷ (is_not_zero p (get "review_debt" ledger), "review_debt")
    ∷ []

-- `tuple(str(audit.get(key) or "") for audit in audits if audit.get(key))`
unfoldable pub texts_of : String → List Mapping → List String
texts_of key [] = []
texts_of key (audit ∷ audits) =
    let rest = texts_of key audits in
    if truthy (get key audit) then text_or_empty (get key audit) ∷ rest else rest

-- Whether one of the two times or of the three counts raises an OverflowError; the open positions are counted only if
-- the round trip is complete.
unfoldable pub proof_raises : Platform → Mapping → Mapping → Bool
proof_raises p ledger authorization =
    has_raised (timestamp p (get "issued_at" authorization))
    || has_raised (timestamp p (get "expires_at" authorization))
    || (is_true (get "round_trip_complete" ledger)
        && has_raised (int_of p (get "open_positions" ledger)))
    || has_raised (int_of p (get "unknown_transactions" ledger))
    || has_raised (int_of p (get "review_debt" ledger))

module _ {D : Type 0} (d : Amounts D) where
  abbrev pub amount_of : Option D → D
  amount_of (some amount) = amount
  amount_of none = d.minus_one

  -- `amount < Decimal("2") or amount > Decimal("5")`
  unfoldable pub out_of_bounds : D → Option Bool
  out_of_bounds amount =
      if d.is_nan amount then none else some (d.lt amount (d.lit 2) || d.lt (d.lit 5) amount)

  abbrev pub amount_row : String → Option Bool → Option Checks
  amount_row action none = none
  amount_row action (some failed) = some ((failed, append action "_notional_bounds") ∷ [])

  -- The row of one action, if there is one audit of it.
  unfoldable pub amount_checks : String → List Mapping → Option Checks
  unfolding out_of_bounds
  amount_checks action (audit ∷ []) =
      amount_row action (out_of_bounds (amount_of (d.parse (str (get "amount_usd" audit)))))
  amount_checks action _ = some []

  unfoldable pub both : Option Checks → Option Checks → Option Checks
  both (some buys) (some sells) = some (buys ++ sells)
  both _ _ = none

  unfoldable pub report_of : Mapping → Mapping → List Mapping → List String → ProofReport
  unfolding texts_of
  report_of signer_identity authorization audits blockers = record {
    qualified = is_nil blockers;
    status =
        if is_nil blockers
        then "QUALIFIED"
        else if contains "actual_live_evidence_required" blockers
        then "DEFERRED"
        else "INVALID";
    blockers = blockers;
    authorization_id = stripped "authorization_id" authorization;
    wallet_public_key = stripped "wallet_public_key" signer_identity;
    signer_mode = stripped "signer_mode" signer_identity;
    signer_identity_id = stripped "signer_identity_id" signer_identity;
    audit_ids = texts_of "audit_id" audits;
    transaction_signatures = texts_of "transaction_signature" audits;
    authority_changed = false;
    operator_action =
        if is_nil blockers
        then "Review and export the qualified proof; this report grants no authority."
        else "Actual manual-live proof remains separately authorized and deferred.";
  }

  -- The rows around the two of the amounts
  unfoldable pub proof_checks :
      Platform → ℕ → List Mapping → Mapping → Mapping → Mapping → Checks → Checks
  unfolding authorization_checks evidence_checks all_audit_checks ledger_checks
  proof_checks p checked_at audits ledger signer_identity authorization amounts =
      authorization_checks p checked_at signer_identity authorization
      ++ (evidence_checks audits
          ++ (all_audit_checks signer_identity audits
              ++ (amounts ++ ledger_checks p signer_identity ledger)))

  unfoldable pub qualify_with :
      Platform → ℕ → List Mapping → Mapping → Mapping → Mapping → Option Checks → Option ProofReport
  unfolding report_of proof_checks
  qualify_with p checked_at audits ledger signer_identity authorization none = none
  qualify_with p checked_at audits ledger signer_identity authorization (some amounts) = some (
      report_of signer_identity authorization audits (
        block_all []
          (proof_checks p checked_at audits ledger signer_identity authorization amounts)))

  unfoldable pub qualify :
      Platform → ℕ → List Mapping → Mapping → Mapping → Mapping → Option ProofReport
  unfolding qualify_with amount_checks both select_action proof_raises
  qualify p checked_at audits ledger signer_identity authorization =
      if proof_raises p ledger authorization
      then none
      else qualify_with p checked_at audits ledger signer_identity authorization (
          both (amount_checks "buy" (select_action "buy" audits))
            (amount_checks "sell" (select_action "sell" audits)))
