-- ===== src/Sentinel/Eligibility.antt =====
-- When a verdict is favourable.
use crypto_arc_v.Prelude.{
  ◌≡◌, refl, String, Bool, true, false, List, [], ◌∷◌, ◌++◌, arith, is_nil, All, str_eq, eq_iff,
  ◌≢◌, ◌≤◌, ◌<◌, Option, some, none, leb, is_empty, subst, false≢true,
}
use crypto_arc_v.Prelude.Checks.{AllPass, failing, is_nil-failing}
use crypto_arc_v.Prelude.Time.{Datetime, to_utc}
use crypto_arc_v.Prelude.Int.{pos, ◌*ℤ◌, ◌-ℤ◌, ◌≤ℤ◌}
use crypto_arc_v.Number.{Float}
use crypto_arc_v.Sentinel.{
  SentinelEvidence, SentinelInputs, SentinelThresholds, verdict_status, item_checks, item_blockers,
  item_warnings, input_checks, gather, insufficient_of, evaluate, has_expired,
}

other_status : (a : String) → str_eq a "pilot_eligible" ≡ false → a ≡ "pilot_eligible" → ⊥
other_status a e h = absurd (ground (arith, eq_iff a "pilot_eligible"))

verdict_status_lem :
    (a b c : Bool) → verdict_status a b c ≡ "pilot_eligible" → (a ≡ true) × (b ≡ true) × (c ≡ true)
unfolding verdict_status
verdict_status_lem false b c h = absurd (other_status "insufficient_evidence" refl h)
verdict_status_lem true false c h = absurd (other_status "unfavorable" refl h)
verdict_status_lem true true false h = absurd (other_status "observe_only" refl h)
verdict_status_lem true true true h = (refl, refl, refl)

nil-append :
    (xs ys : List String) → is_nil (xs ++ ys) ≡ true → (is_nil xs ≡ true) × (is_nil ys ≡ true)
nil-append [] ys h = (refl, h)
nil-append (x ∷ xs) ys h = absurd (false≢true h)

has_expired_lem :
    (at : Option Datetime) (now : Datetime)
    → has_expired at now ≡ false
    → (t : Datetime) → at ≡ some t
    → now.micros < t.micros
has_expired_lem none now h t e = absurd (cc)
has_expired_lem (some u) now h t e =
    let same : u ≡ t = cc in
    let late : leb t.micros now.micros ≡ false =
      subst (λ u. leb u.micros now.micros ≡ false) same h in
    ground (arith, late)

nonempty : (s : String) → is_empty s ≡ false → s ≢ ""
nonempty s h e = absurd (ground (arith, h, eq_iff s ""))

non_nil : {A : Type 0} (xs : List A) → is_nil xs ≡ false → xs ≢ []
non_nil [] h e = absurd (cc)
non_nil (x ∷ xs) h e = absurd (cc)

module _ {F : Type 0} where
  -- Evidence that a favourable verdict may rest on.
  pub record IsFit (now : Datetime) (th : SentinelThresholds) (item : SentinelEvidence F)
      : Type 0 where
    pub is_named : item.name ≢ ""
    pub is_evidenced : item.evidence_ids ≢ []
    pub is_agreed : item.conflicting ≡ false
    pub is_past : item.observed_at.micros ≤ now.micros
    pub is_fresh :
        pos now.micros -ℤ pos item.observed_at.micros
        ≤ℤ th.max_evidence_age_seconds *ℤ pos 1_000_000
    pub is_unexpired : (t : Datetime) → item.expires_at ≡ some t → now.micros < t.micros
    pub is_sampled : th.min_sample_size ≤ℤ item.sample_size
    pub is_ready : item.status ≡ "ready"

  -- Inputs whose strategy and version are known.
  pub record IsIdentified (inputs : SentinelInputs F) : Type 0 where
    pub strategy_id : inputs.strategy_id ≢ ""
    pub strategy_version : inputs.strategy_version ≢ ""
    pub input_version : inputs.input_version ≢ ""
    pub evidence : inputs.evidence ≢ []

  identified : (inputs : SentinelInputs F) → AllPass (input_checks inputs) → IsIdentified inputs
  unfolding input_checks
  identified inputs (p1, (p2, p3)) = record {
    strategy_id = nonempty inputs.strategy_id (ground (arith, p1));
    strategy_version = nonempty inputs.strategy_version (ground (arith, p1));
    input_version = nonempty inputs.input_version (ground (arith, p1));
    evidence = non_nil inputs.evidence p2;
  }

  passed-IsFit :
      (now : Datetime) (th : SentinelThresholds) (item : SentinelEvidence F)
      → AllPass (item_checks now th item)
      → is_nil (item_blockers item) ≡ true
      → is_nil (item_warnings item) ≡ true
      → IsFit now th item
  unfolding item_checks item_blockers item_warnings
  passed-IsFit now th item (p1, (p2, (p3, (p4, (p5, (p6, (p7, p8))))))) b w = record {
    is_named = nonempty item.name (ground (arith, p1));
    is_evidenced = non_nil item.evidence_ids (ground (arith, p1));
    is_agreed = p2;
    is_past = ground (arith, p3);
    is_fresh = ground (arith, p4);
    is_unexpired = has_expired_lem item.expires_at now p5;
    is_sampled = ground (arith, p6);
    is_ready = ground (arith, p7, eq_iff item.status "ready");
  }

  fit :
      (now : Datetime) (th : SentinelThresholds) (items : List (SentinelEvidence F))
      → is_nil (gather (λ item. failing (item_checks now th item)) items) ≡ true
      → is_nil (gather item_blockers items) ≡ true
      → is_nil (gather item_warnings items) ≡ true
      → All (IsFit now th) items
  unfolding gather
  fit now th [] a b c = tt
  fit now th (item ∷ items) a b c =
      let (a1, a2) = nil-append (failing (item_checks now th item)) _ a in
      let (b1, b2) = nil-append (item_blockers item) _ b in
      let (c1, c2) = nil-append (item_warnings item) _ c in
      let passed = is_nil-failing (item_checks now th item) a1 in
      (passed-IsFit now th item passed b1 c1, fit now th items a2 b2 c2)

module _ {F : Type 0} ⦃f : Float F⦄ where
  -- A verdict is "pilot_eligible" only if the strategy, its version and the input version are named,
  -- there is evidence, and each item of it has a name and evidence ids, has no conflict, was observed
  -- not after now and at most the maximum age before, does not expire by now, has the minimum of
  -- samples, and is "ready"; the verdict then has no blockers.
  pub evaluate_eligible :
      (digest : Datetime → String → SentinelInputs F → SentinelThresholds → String)
      (inputs : SentinelInputs F) (th : SentinelThresholds) (given : Datetime)
      → (evaluate digest inputs th given).status ≡ "pilot_eligible"
      → IsIdentified inputs
        × All (IsFit (to_utc given) th) inputs.evidence
        × (is_nil (evaluate digest inputs th given).blockers ≡ true)
  unfolding evaluate insufficient_of
  evaluate_eligible digest inputs th given h =
      let (a, b, c) = verdict_status_lem _ _ _ h in
      let (a1, a2) = nil-append (failing (input_checks inputs)) _ a in
      (
        identified inputs (is_nil-failing (input_checks inputs) a1),
        fit (to_utc given) th inputs.evidence a2 b c,
        both_nil _ _ a b,
      )
    where
      both_nil :
          (xs ys : List String) → is_nil xs ≡ true → is_nil ys ≡ true → is_nil (xs ++ ys) ≡ true
      both_nil [] ys p q = q
      both_nil (x ∷ xs) ys p q = absurd (false≢true p)
