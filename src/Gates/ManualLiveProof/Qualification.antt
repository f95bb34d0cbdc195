-- ===== src/Gates/ManualLiveProof/Qualification.antt =====
-- What a qualified proof shows.
use crypto_arc_v.Prelude.{
  ℕ, ◌≡◌, ◌↔◌, inl, inr, refl, sym, ap, subst, ◌∙◌, String, Bool, true, false, not, ◌&&◌, ◌||◌,
  Option, some, none, some-injective, List, [], ◌∷◌, ◌++◌, ◌==◌, is_nil, length, All, arith,
  Bool-cases, Option-cases,
}
use crypto_arc_v.Prelude.Checks.{
  Checks, AllPass, AllPass-append_iff, block_all, block_all-pass, AllPass-of_block_all,
}
use crypto_arc_v.Prelude.Text.{append}
use crypto_arc_v.Gates.Values.{
  Value, Mapping, Platform, get, str, value_of, has_raised, int_of, is_zero, timestamp,
}
use crypto_arc_v.Gates.Times.{has_raised-false, has_raised-some, five_false}
use crypto_arc_v.Prelude.Int.{ℤ}
use crypto_arc_v.Gates.ManualLiveProof.{
  Amounts, ProofReport, authorization_checks, select_action, evidence_checks, all_audit_checks,
  ledger_checks, out_of_bounds, amount_checks, both, report_of, proof_checks, qualify_with, qualify,
  proof_raises, is_not_zero,
}
use crypto_arc_v.Gates.ManualLiveProof.Evidence.{
  IsGranted, IsGranted-iff, IsSettled, all-IsSettled_iff, IsBooked, IsBooked-iff,
}

length_one : (xs : List Mapping) → (not (length xs == 1)) ≡ false → (x : Mapping) × (xs ≡ x ∷ [])
length_one [] h = absurd (ground (arith, h))
length_one (x ∷ []) h = (x, refl)
length_one (x ∷ y ∷ xs) h = absurd (ground (arith, h))

selected_non_empty :
    (action : String) (audits : List Mapping) (x : Mapping)
    → select_action action audits ≡ x ∷ []
    → is_nil audits ≡ false
unfolding select_action
selected_non_empty action [] x h = absurd (cc)
selected_non_empty action (audit ∷ audits) x h = refl

module _ {D : Type 0} (d : Amounts D) where
  -- -1 is a number, and below 2.
  pub record IsAmounts : Type 0 where
    pub minus_one_number : d.is_nan d.minus_one ≡ false
    pub minus_one_below : d.lt d.minus_one (d.lit 2) ≡ true

  -- The amount in USD is a number from 2 to 5.
  abbrev pub IsBounded : Mapping → Type 0
  IsBounded audit =
      (amount : D) × (d.parse (str (get "amount_usd" audit)) ≡ some amount)
      × (d.is_nan amount ≡ false)
      × (d.lt amount (d.lit 2) ≡ false)
      × (d.lt (d.lit 5) amount ≡ false)

  amount_checks-IsBounded :
      IsAmounts
      → (action : String) (audit : Mapping) (rows : Checks)
      → amount_checks d action (audit ∷ []) ≡ some rows
      → AllPass rows
      → IsBounded audit
  unfolding amount_checks out_of_bounds
  amount_checks-IsBounded laws action audit rows h passed =
      elim (Option-cases (d.parse (str (get "amount_usd" audit)))) [
        | inl e ↦
            let same : (true || d.lt (d.lit 5) d.minus_one, append action "_notional_bounds") ∷ []
                ≡ rows =
              some-injective _ _ (rw (e, laws.minus_one_number, laws.minus_one_below) at h) in
            let failed : AllPass ((true, append action "_notional_bounds") ∷ []) =
              subst AllPass (sym same) passed in
            absurd (ground (arith, failed))
        | inr (amount, e) ↦ elim (Bool-cases (d.is_nan amount)) [
          | inl n ↦ absurd (ground (arith, rw (e, n) at h))
          | inr n ↦
              let same = some-injective _ _ (rw (e, n) at h) in
              let fine : AllPass (
                  (d.lt amount (d.lit 2) || d.lt (d.lit 5) amount, append action "_notional_bounds")
                  ∷ []) =
                subst AllPass (sym same) passed in
              (amount, e, n, ground (arith, fine), ground (arith, fine))
        ]
      ]

  IsBounded-amount_checks :
      (action : String) (audit : Mapping)
      → IsBounded audit
      → (rows : Checks) × (amount_checks d action (audit ∷ []) ≡ some rows) × AllPass rows
  unfolding amount_checks out_of_bounds
  IsBounded-amount_checks action audit (amount, e, n, low, high) = (
    (d.lt amount (d.lit 2) || d.lt (d.lit 5) amount, append action "_notional_bounds") ∷ [],
    rw (e, n) refl,
    (ground (arith, low, high), tt),
  )

  pub record IsProven (p : Platform) (checked_at : ℕ) (audits : List Mapping)
      (ledger signer_identity authorization : Mapping) : Type 0 where
    pub granted : IsGranted p checked_at signer_identity authorization
    pub buy : Mapping
    pub sell : Mapping
    pub one_buy : select_action "buy" audits ≡ buy ∷ []
    pub one_sell : select_action "sell" audits ≡ sell ∷ []
    pub settled : All (IsSettled signer_identity) audits
    pub buy_amount : IsBounded buy
    pub sell_amount : IsBounded sell
    pub booked : IsBooked p signer_identity ledger

  both-some :
      (a b : Option Checks) (rows : Checks)
      → both d a b ≡ some rows
      → (x : Checks) × (y : Checks) × (a ≡ some x) × (b ≡ some y) × (x ++ y ≡ rows)
  unfolding both
  both-some (some x) (some y) rows h = (x, y, refl, refl, some-injective _ _ h)
  both-some none b rows h = absurd (ground (arith, h))
  both-some (some x) none rows h = absurd (ground (arith, h))

  -- Five tables in a row
  five_iff :
      (a b c e f : Checks)
      → AllPass (a ++ (b ++ (c ++ (e ++ f))))
        ↔ (AllPass a × AllPass b × AllPass c × AllPass e × AllPass f)
  five_iff a b c e f = (
    λ h.
        let (x, r) = (AllPass-append_iff a (b ++ (c ++ (e ++ f)))).0 h in
        let (y, s) = (AllPass-append_iff b (c ++ (e ++ f))).0 r in
        let (z, t) = (AllPass-append_iff c (e ++ f)).0 s in
        let (v, w) = (AllPass-append_iff e f).0 t in (x, y, z, v, w),
    λ (x, y, z, v, w). (AllPass-append_iff a (b ++ (c ++ (e ++ f)))).1 (
      x,
      (AllPass-append_iff b (c ++ (e ++ f))).1
          (y, (AllPass-append_iff c (e ++ f)).1 (z, (AllPass-append_iff e f).1 (v, w))),
    ),
  )

  IsProven-qualified :
      (p : Platform) (c : ℕ) (audits : List Mapping) (ledger s a : Mapping)
      → IsProven p c audits ledger s a
      → (rows : Checks) × (both d
            (amount_checks d "buy" (select_action "buy" audits))
            (amount_checks d "sell" (select_action "sell" audits))
          ≡ some rows)
        × AllPass (proof_checks d p c audits ledger s a rows)
  unfolding proof_checks evidence_checks both
  IsProven-qualified p c audits ledger s a v =
      let (x, buys, fine) = IsBounded-amount_checks "buy" v.buy v.buy_amount in
      let (y, sells, fine_too) = IsBounded-amount_checks "sell" v.sell v.sell_amount in
      let (real, settled) = (all-IsSettled_iff s audits).1 v.settled in
      let found = ap (amount_checks d "buy") v.one_buy ∙ buys in
      let found_too = ap (amount_checks d "sell") v.one_sell ∙ sells in
      (
        x ++ y,
        rw (found, found_too) refl,
        (five_iff (authorization_checks p c s a) (evidence_checks audits)
              (all_audit_checks s audits) (x ++ y) (ledger_checks p s ledger)).1
            (
              (IsGranted-iff p c s a).1 v.granted,
              (
                ap (λ xs. not (length xs == 1)) v.one_buy,
                (
                  ap (λ xs. not (length xs == 1)) v.one_sell,
                  (ground (arith, real, selected_non_empty "buy" audits v.buy v.one_buy), tt),
                ),
              ),
              settled,
              (AllPass-append_iff x y).1 (fine, fine_too),
              (IsBooked-iff p s ledger).1 v.booked,
            ),
      )

  qualified-IsProven :
      IsAmounts
      → (p : Platform) (c : ℕ) (audits : List Mapping) (ledger s a : Mapping) (rows : Checks)
      → both d
          (amount_checks d "buy" (select_action "buy" audits))
          (amount_checks d "sell" (select_action "sell" audits))
        ≡ some rows
      → AllPass (proof_checks d p c audits ledger s a rows)
      → IsProven p c audits ledger s a
  unfolding proof_checks evidence_checks
  qualified-IsProven laws p c audits ledger s a rows h passed =
      let (grants, evidence, settled, amounts, books) =
        (five_iff (authorization_checks p c s a) (evidence_checks audits)
            (all_audit_checks s audits) rows (ledger_checks p s ledger)).0
          passed in
      let (buy, one_buy) = length_one (select_action "buy" audits) evidence.0 in
      let (sell, one_sell) = length_one (select_action "sell" audits) evidence.1.0 in
      let (x, y, buys, sells, joined) =
        both-some (amount_checks d "buy" (select_action "buy" audits))
          (amount_checks d "sell" (select_action "sell" audits)) rows h in
      let (fine, fine_too) = (AllPass-append_iff x y).0 (rw joined amounts) in
      record {
        granted = (IsGranted-iff p c s a).0 grants;
        buy = buy;
        sell = sell;
        one_buy = one_buy;
        one_sell = one_sell;
        settled = (all-IsSettled_iff s audits).0 (ground (arith, evidence), settled);
        buy_amount =
            amount_checks-IsBounded laws "buy" buy x
              (ap (amount_checks d "buy") (sym one_buy) ∙ buys) fine;
        sell_amount =
            amount_checks-IsBounded laws "sell" sell y
              (ap (amount_checks d "sell") (sym one_sell) ∙ sells) fine_too;
        booked = (IsBooked-iff p s ledger).0 books;
      }

  qualify_with-some :
      (p : Platform) (c : ℕ) (audits : List Mapping) (ledger s a : Mapping) (rows : Option Checks)
      (report : ProofReport)
      → qualify_with d p c audits ledger s a rows ≡ some report
      → report.qualified ≡ true
      → (r : Checks) × (rows ≡ some r) × AllPass (proof_checks d p c audits ledger s a r)
  unfolding qualify_with report_of
  qualify_with-some p c audits ledger s a none report h q = absurd (ground (arith, h))
  qualify_with-some p c audits ledger s a (some r) report h q = (
    r,
    refl,
    AllPass-of_block_all (proof_checks d p c audits ledger s a r)
        (ap (λ x. x.qualified) (some-injective _ _ h) ∙ q),
  )

  not_zero_false :
      (p : Platform) (v : Value) → is_not_zero p v ≡ false → has_raised (int_of p v) ≡ false
  unfolding is_not_zero value_of has_raised
  not_zero_false p v h = go (int_of p v) h
    where
      go : (x : Option (Option ℤ)) → not (is_zero (value_of x)) ≡ false → has_raised x ≡ false
      go none h = absurd (cc)
      go (some y) h = refl

  proof_raises-false :
      (p : Platform) (c : ℕ) (audits : List Mapping) (ledger s a : Mapping)
      → IsProven p c audits ledger s a
      → proof_raises p ledger a ≡ false
  unfolding proof_raises
  proof_raises-false p c audits ledger s a v =
      let (_, recent, _, _) = v.granted.recent in
      let (_, valid, _) = v.granted.valid in
      five_false _ _ _ _ _ (has_raised-false (timestamp p (get "issued_at" a)) recent)
        (has_raised-some valid)
        (and_false _ (not_zero_false p (get "open_positions" ledger) v.booked.closed))
        (not_zero_false p (get "unknown_transactions" ledger) v.booked.known)
        (not_zero_false p (get "review_debt" ledger) v.booked.reviewed)
    where
      and_false : (x : Bool) {y : Bool} → y ≡ false → (x && y) ≡ false
      and_false true h = h
      and_false false h = refl

  -- A manual live proof is qualified exactly if its authorization is granted to the signer, there is one buy and one
  -- sell, each of 2 to 5 USD, every audit is a settled transaction of the signer, and the ledger is booked.
  pub qualify_iff :
      IsAmounts
      → (p : Platform) (checked_at : ℕ) (audits : List Mapping)
        (ledger signer_identity authorization : Mapping)
      → ((report : ProofReport) × (qualify d p checked_at audits ledger signer_identity
              authorization
            ≡ some report)
          × (report.qualified ≡ true))
        ↔ IsProven p checked_at audits ledger signer_identity authorization
  unfolding qualify qualify_with report_of
  qualify_iff laws p c audits ledger s a = (
    λ (report, h, q). elim (Bool-cases (proof_raises p ledger a)) [
      | inl e ↦ let bad : ◌≡◌ {A = Option ProofReport} none (some report) = rw e at h in absurd (cc)
      | inr e ↦
          let (rows, found, passed) =
            qualify_with-some p c audits ledger s a
              (both d (amount_checks d "buy" (select_action "buy" audits))
                (amount_checks d "sell" (select_action "sell" audits)))
              report (rw e at h) q in
          qualified-IsProven laws p c audits ledger s a rows found passed
    ],
    λ v.
        let (rows, found, passed) = IsProven-qualified p c audits ledger s a v in
        (
          report_of d s a audits (block_all [] (proof_checks d p c audits ledger s a rows)),
          rw (proof_raises-false p c audits ledger s a v, found) refl,
          ap is_nil (block_all-pass (proof_checks d p c audits ledger s a rows) [] passed),
        ),
  )
