-- ===== src/Candidates/Promotion.antt =====
-- What a promotion needs and leaves.
use crypto_arc_v.Prelude.{
  ◌≡◌, refl, sym, ap, ◌∙◌, String, true, false, Option, some, none, inl, inr, is_empty, str_eq,
  eq_iff, Bool-cases, Option-cases, false≢true,
}
use crypto_arc_v.Prelude.Text.{strip}
use crypto_arc_v.Candidates.{
  StrategyCandidate, CandidateValidation, Selection, Storage, Digests, selection_of, is_outdated,
  write_promotion, promote_strategy_candidate, is_selected, promotion_id_of, promote_valid,
  promote_found, promote,
}

-- The store does not change.
write_promotion-false :
    (payload : Selection) (existing : Option Selection) (st : Storage)
    → (write_promotion payload existing st).1 ≡ false
    → (write_promotion payload existing st).0 ≡ st
unfolding write_promotion
write_promotion-false payload (some existing) st h = refl
write_promotion-false payload none st h = absurd (false≢true (sym h))

promote_strategy_candidate-false :
    (c : StrategyCandidate) (v : CandidateValidation) (id intent now : String) (st : Storage)
    → (promote_strategy_candidate c v id intent now st).1 ≡ false
    → (promote_strategy_candidate c v id intent now st).0 ≡ st
unfolding promote_strategy_candidate
promote_strategy_candidate-false c v id intent now st h =
    elim (Bool-cases (is_outdated v (st.latest_validation c.candidate_id))) [
      | inl e ↦ rw e refl
      | inr e ↦ rw e (
          write_promotion-false (selection_of c v id intent now) (st.strategy_promotions id) st
            (rw e at h))
    ]

promote_valid-false :
    (d : Digests) (id intent now : String) (c : StrategyCandidate) (v : Option CandidateValidation)
    (st : Storage)
    → (promote_valid d id intent now c v st).1.promoted ≡ false
    → ((promote_valid d id intent now c v st).0 ≡ st)
      × (is_empty (promote_valid d id intent now c v st).1.blocker ≡ false)
unfolding promote_valid
promote_valid-false d id intent now c none st h = (refl, refl)
promote_valid-false d id intent now c (some v) st h = elim (Bool-cases v.accepted) [
  | inr e ↦ rw e (refl, refl)
  | inl e ↦
      let stale = rw e at h in
      rw (e, stale)
        (
          promote_strategy_candidate-false c v (promotion_id_of d id intent) intent now st stale,
          refl,
        )
]

promote_found-false :
    (d : Digests) (id intent now : String) (c : Option StrategyCandidate) (st : Storage)
    → (promote_found d id intent now c st).1.promoted ≡ false
    → ((promote_found d id intent now c st).0 ≡ st)
      × (is_empty (promote_found d id intent now c st).1.blocker ≡ false)
unfolding promote_found
promote_found-false d id intent now none st h = (refl, refl)
promote_found-false d id intent now (some c) st h =
    elim (Bool-cases (is_selected id intent st.active_strategy_selection)) [
      | inl e ↦ absurd (false≢true (sym (rw e at h)))
      | inr e ↦
          rw e (promote_valid-false d id intent now c (st.latest_validation id) st (rw e at h))
    ]

-- A promotion that is refused changes nothing, and says why.
pub promote-refused :
    (d : Digests) (candidate_id operator_intent_id now active_session_id : String) (st : Storage)
    → let promoted = promote d candidate_id operator_intent_id now active_session_id st in
      promoted.1.promoted ≡ false → (promoted.0 ≡ st) × (is_empty promoted.1.blocker ≡ false)
unfolding promote
promote-refused d id intent now session st h = elim (Bool-cases (is_empty session)) [
  | inr e ↦ rw e (refl, refl)
  | inl e ↦ elim (Bool-cases (is_empty (strip intent))) [
    | inl s ↦ rw (e, s) (refl, refl)
    | inr s ↦
        rw (e, s)
          (promote_found-false d id intent now (st.strategy_candidates id) st (rw (e, s) at h))
  ]
]

-- What a first promotion of a candidate under an intent has passed, and what it writes.
pub record IsPromoted (d : Digests) (id intent now session : String) (st next : Storage)
    : Type 0 where
  pub no_session : session ≡ ""
  pub has_intent : is_empty (strip intent) ≡ false
  pub candidate : StrategyCandidate
  pub found : st.strategy_candidates id ≡ some candidate
  pub validation : CandidateValidation
  pub validated : st.latest_validation id ≡ some validation
  pub accepted : validation.accepted ≡ true
  pub current : is_outdated validation (st.latest_validation candidate.candidate_id) ≡ false
  pub written :
      next.active_strategy_selection
      ≡ some (selection_of candidate validation (promotion_id_of d id intent) intent now)
  pub kept : next.strategy_candidates ≡ st.strategy_candidates

-- A candidate is selected, by a promotion that is not a repetition and whose id is new, only outside of a
-- session, for an intent that is not blank, and while its latest validation is accepted; the selection then
-- names the candidate, the validation and the intent, and asks for a new validation campaign.
pub promote-IsPromoted :
    (d : Digests) (candidate_id operator_intent_id now active_session_id : String) (st : Storage)
    → st.strategy_promotions (promotion_id_of d candidate_id operator_intent_id) ≡ none
    → let promoted = promote d candidate_id operator_intent_id now active_session_id st in
      promoted.1.promoted ≡ true
      → promoted.1.idempotent ≡ false
      → IsPromoted d candidate_id operator_intent_id now active_session_id st promoted.0
unfolding promote promote_found promote_valid promote_strategy_candidate write_promotion
promote-IsPromoted d id intent now session st new h first = elim (Bool-cases (is_empty session)) [
  | inr e ↦ absurd (false≢true (rw e at h))
  | inl e ↦ elim (Bool-cases (is_empty (strip intent))) [
    | inl s ↦ absurd (false≢true (rw (e, s) at h))
    | inr s ↦ elim (Option-cases (st.strategy_candidates id)) [
      | inl c ↦ absurd (false≢true (rw (e, s, c) at h))
      | inr (candidate, c) ↦
          elim (Bool-cases (is_selected id intent st.active_strategy_selection)) [
            | inl r ↦ absurd (false≢true (sym (rw (e, s, c, r) at first)))
            | inr r ↦ elim (Option-cases (st.latest_validation id)) [
              | inl v ↦ absurd (false≢true (rw (e, s, c, r, v) at h))
              | inr (validation, v) ↦ elim (Bool-cases validation.accepted) [
                | inr a ↦ absurd (false≢true (rw (e, s, c, r, v, a) at h))
                | inl a ↦
                    elim (Bool-cases
                      (is_outdated validation (st.latest_validation candidate.candidate_id))) [
                        | inl o ↦ absurd (false≢true (rw (e, s, c, r, v, a, o) at h))
                        | inr o ↦ record {
                          no_session = (eq_iff session "").0 e;
                          has_intent = s;
                          candidate = candidate;
                          found = c;
                          validation = validation;
                          validated = v;
                          accepted = a;
                          current = o;
                          written = rw (e, s, c, r, v, a, o, new) refl;
                          kept = rw (e, s, c, r, v, a, o, new) refl;
                        }
                      ]
              ]
            ]
          ]
    ]
  ]
]

-- Promoting again, at any later time, repeats nothing: the first promotion under a new id is found again, with
-- its id, and the store stays as it is, given that a candidate's row carries its id.
pub promote-again :
    (d : Digests) (candidate_id operator_intent_id now later active_session_id : String)
    (st : Storage)
    → st.strategy_promotions (promotion_id_of d candidate_id operator_intent_id) ≡ none
    → ((c : StrategyCandidate)
        → st.strategy_candidates candidate_id ≡ some c
        → c.candidate_id ≡ candidate_id)
    → let promoted = promote d candidate_id operator_intent_id now active_session_id st in
      promoted.1.promoted ≡ true
      → promoted.1.idempotent ≡ false
      → promote d candidate_id operator_intent_id later "" promoted.0 ≡ (
        promoted.0,
        record {
          candidate_id = candidate_id;
          promoted = true;
          blocker = "";
          idempotent = true;
          promotion_id = promotion_id_of d candidate_id operator_intent_id;
        },
      )
unfolding promote promote_found is_selected
promote-again d id intent now later session st new keyed h first =
    let v = promote-IsPromoted d id intent now session st new h first in
    let there : (promote d id intent now session st).0.strategy_candidates id ≡ some v.candidate =
      ap (λ f. f id) v.kept ∙ v.found in
    let self : str_eq v.candidate.candidate_id id ≡ true =
      (eq_iff v.candidate.candidate_id id).1 (keyed v.candidate v.found) in
    again d id intent later (promote d id intent now session st).0 v.candidate _ v.has_intent there
      v.written self refl
  where
    again :
        (d : Digests) (id intent later : String) (next : Storage) (c : StrategyCandidate)
        (s : Selection)
        → is_empty (strip intent) ≡ false
        → next.strategy_candidates id ≡ some c
        → next.active_strategy_selection ≡ some s
        → str_eq s.candidate_id id ≡ true
        → s.operator_intent_id ≡ intent
        → promote d id intent later "" next ≡ (
          next,
          record {
            candidate_id = id;
            promoted = true;
            blocker = "";
            idempotent = true;
            promotion_id = s.promotion_id;
          },
        )
    again d id intent later next c s filled there selected same_id same_intent =
        let intent_eq : str_eq s.operator_intent_id intent ≡ true =
          (eq_iff s.operator_intent_id intent).1 same_intent in
        rw (filled, there, selected, same_id, intent_eq) refl
