-- ===== src/Candidates.antt =====
-- `PromotionGate.promote` of backend/app/core/strategy_candidates.py, with the transaction
-- `promote_strategy_candidate` of backend/app/core/storage.py.
pub mod Promotion
use crypto_arc_v.Prelude.{
  String, Bool, true, false, not, ◌&&◌, ◌||◌, Option, some, none, List, [], ◌∷◌, if◌then◌else◌,
  is_empty, str_eq, contains,
}
use crypto_arc_v.Prelude.Text.{append, strip, take_text}

-- The fields of a candidate and of a validation that a promotion reads.
pub record StrategyCandidate : Type 0 where
  pub candidate_id : String
  pub proposed_strategy_version : String

pub record CandidateValidation : Type 0 where
  pub validation_id : String
  pub candidate_id : String
  pub accepted : Bool

pub record PromotionResult : Type 0 where
  pub candidate_id : String
  pub promoted : Bool
  pub blocker : String
  pub idempotent : Bool
  pub promotion_id : String

-- The payload of a promotion, which is also the active selection.
pub record Selection : Type 0 where
  pub promotion_id : String
  pub candidate_id : String
  pub strategy_version : String
  pub validation_id : String
  pub operator_intent_id : String
  pub selected_at : String
  pub validation_campaign_status : String
  pub sentinel_status : String

-- The tables; of the validations of a candidate, the newest.
pub record Storage : Type 0 where
  pub strategy_candidates : String → Option StrategyCandidate
  pub latest_validation : String → Option CandidateValidation
  pub strategy_promotions : String → Option Selection
  pub active_strategy_selection : Option Selection
  -- the ids, each of which is inserted once
  pub strategy_validation_campaigns : List String

-- SHA-256 in hexadecimal, and the canonical JSON of the candidate's id and the intent's.
pub record Digests : Type 0 where
  pub sha256 : String → String
  pub canonical : String → String → String

-- `json.dumps(json.loads(existing), sort_keys=True) == serialized`: field by field
unfoldable pub same_selection : Selection → Selection → Bool
same_selection a b =
    str_eq a.promotion_id b.promotion_id
    && str_eq a.candidate_id b.candidate_id
    && str_eq a.strategy_version b.strategy_version
    && str_eq a.validation_id b.validation_id
    && str_eq a.operator_intent_id b.operator_intent_id
    && str_eq a.selected_at b.selected_at
    && str_eq a.validation_campaign_status b.validation_campaign_status
    && str_eq a.sentinel_status b.sentinel_status

abbrev pub selection_of :
    StrategyCandidate → CandidateValidation → String → String → String → Selection
selection_of candidate validation promotion_id operator_intent_id now = record {
  promotion_id = promotion_id;
  candidate_id = candidate.candidate_id;
  strategy_version = candidate.proposed_strategy_version;
  validation_id = validation.validation_id;
  operator_intent_id = operator_intent_id;
  selected_at = now;
  validation_campaign_status = "required";
  sentinel_status = "invalidated";
}

-- `latest is None or str(latest["validation_id"]) != validation.validation_id or not bool(latest["accepted"])`
unfoldable pub is_outdated : CandidateValidation → Option CandidateValidation → Bool
is_outdated validation none = true
is_outdated validation (some latest) =
    not (str_eq latest.validation_id validation.validation_id) || not latest.accepted

-- The rest of the transaction, given the promotion that has this id already.
unfoldable pub write_promotion : Selection → Option Selection → Storage → Storage × Bool
unfolding same_selection
write_promotion payload (some existing) st = (st, same_selection existing payload)
write_promotion payload none st =
    let campaign = append "campaign_" payload.promotion_id in
    (
      record st {
        strategy_promotions = λ id.
            if str_eq id payload.promotion_id then some payload else st.strategy_promotions id;
        active_strategy_selection = some payload;
        strategy_validation_campaigns =
            if contains campaign st.strategy_validation_campaigns
            then st.strategy_validation_campaigns
            else campaign ∷ st.strategy_validation_campaigns;
      },
      true,
    )

unfoldable pub promote_strategy_candidate :
    StrategyCandidate → CandidateValidation → String → String → String → Storage → Storage × Bool
unfolding is_outdated write_promotion
promote_strategy_candidate candidate validation promotion_id operator_intent_id now st =
    if is_outdated validation (st.latest_validation candidate.candidate_id)
    then (st, false)
    else write_promotion (selection_of candidate validation promotion_id operator_intent_id now)
        (st.strategy_promotions promotion_id) st

abbrev blocked : String → String → PromotionResult
blocked candidate_id blocker = record {
  candidate_id = candidate_id;
  promoted = false;
  blocker = blocker;
  idempotent = false;
  promotion_id = "";
}

-- `selection` is this candidate under this intent.
unfoldable pub is_selected : String → String → Option Selection → Bool
is_selected candidate_id operator_intent_id none = false
is_selected candidate_id operator_intent_id (some selection) =
    str_eq selection.candidate_id candidate_id
    && str_eq selection.operator_intent_id operator_intent_id

abbrev selected_id : Option Selection → String
selected_id none = ""
selected_id (some selection) = selection.promotion_id

abbrev pub promotion_id_of : Digests → String → String → String
promotion_id_of d candidate_id operator_intent_id =
    append "promotion_" (take_text 24 (d.sha256 (d.canonical candidate_id operator_intent_id)))

unfoldable pub promote_valid :
    Digests
    → String
    → String
    → String
    → StrategyCandidate
    → Option CandidateValidation
    → Storage
    → Storage × PromotionResult
unfolding promote_strategy_candidate
promote_valid d candidate_id operator_intent_id now candidate none st =
    (st, blocked candidate_id "validation_blocked")
promote_valid d candidate_id operator_intent_id now candidate (some validation) st =
    let promotion_id = promotion_id_of d candidate_id operator_intent_id in
    let written =
      promote_strategy_candidate candidate validation promotion_id operator_intent_id now st in
    if not validation.accepted then (st, blocked candidate_id "validation_blocked") else (
      written.0,
      record {
        candidate_id = candidate_id;
        promoted = written.1;
        blocker = if written.1 then "" else "stale_promotion";
        idempotent = false;
        promotion_id = if written.1 then promotion_id else "";
      },
    )

unfoldable pub promote_found :
    Digests
    → String
    → String
    → String
    → Option StrategyCandidate
    → Storage
    → Storage × PromotionResult
unfolding promote_valid is_selected
promote_found d candidate_id operator_intent_id now none st =
    (st, blocked candidate_id "candidate_not_found")
promote_found d candidate_id operator_intent_id now (some candidate) st =
    if is_selected candidate_id operator_intent_id st.active_strategy_selection
    then (
      st,
      record {
        candidate_id = candidate_id;
        promoted = true;
        blocker = "";
        idempotent = true;
        promotion_id = selected_id st.active_strategy_selection;
      },
    )
    else promote_valid d candidate_id operator_intent_id now candidate
        (st.latest_validation candidate_id) st

-- `promote`; `now` is the text of the time.
unfoldable pub promote :
    Digests → String → String → String → String → Storage → Storage × PromotionResult
unfolding promote_found
promote d candidate_id operator_intent_id now active_session_id st =
    if not (is_empty active_session_id)
    then (st, blocked candidate_id "active_session")
    else if is_empty (strip operator_intent_id)
    then (st, blocked candidate_id "operator_intent_required")
    else promote_found d candidate_id operator_intent_id now (st.strategy_candidates candidate_id)
        st
