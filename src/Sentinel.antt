-- ===== src/Sentinel.antt =====
-- `Sentinel` of backend/app/core/sentinel.py: a verdict on the conditions, from attributable evidence. The
-- SHA-256 of the JSON of a verdict's identity is a parameter.
pub mod Eligibility
use crypto_arc_v.Prelude.{
  ℕ, ◌+◌, ◌*◌, String, Bool, true, false, not, ◌&&◌, ◌||◌, Option, none, some, List, [], ◌∷◌, ◌++◌,
  if◌then◌else◌, is_empty, is_nil, str_eq, ltb, leb,
}
use crypto_arc_v.Prelude.Int.{ℤ, pos, pos_part, ltb_ℤ, max_ℤ, min_ℤ, ◌+ℤ◌, ◌-ℤ◌, ◌*ℤ◌}
use crypto_arc_v.Prelude.Checks.{Checks, failing}
use crypto_arc_v.Prelude.Text.{append, concat, take_text, int_text}
use crypto_arc_v.Prelude.Time.{Datetime, to_utc}
use crypto_arc_v.Number.{Number, Float, min_of}

-- `float | int | str | bool | None`, which the verdict only carries
pub data Scalar (F : Type 0) : Type 0 where
  float : F → Scalar F
  int : ℤ → Scalar F
  text : String → Scalar F
  bool : Bool → Scalar F
  missing : Scalar F

pub record SentinelEvidence (F : Type 0) : Type 0 where
  pub name : String
  pub observed_at : Datetime
  pub sample_size : ℤ
  pub status : String
  pub value : Scalar F
  pub threshold : Scalar F
  pub evidence_ids : List String
  pub conflicting : Bool
  pub expires_at : Option Datetime
  pub reason : String

pub record SentinelInputs (F : Type 0) : Type 0 where
  pub strategy_id : String
  pub strategy_version : String
  pub input_version : String
  pub evidence : List (SentinelEvidence F)

pub record SentinelThresholds : Type 0 where
  pub min_sample_size : ℤ
  pub max_evidence_age_seconds : ℤ
  pub validity_seconds : ℤ

-- The inputs and the thresholds stand for their dicts.
pub record SentinelVerdict (F : Type 0) : Type 0 where
  pub verdict_id : String
  pub status : String
  pub created_at : Datetime
  pub expires_at : Datetime
  pub strategy_id : String
  pub strategy_version : String
  pub input_version : String
  pub inputs : SentinelInputs F
  pub thresholds : SentinelThresholds
  pub sample_size : ℤ
  pub confidence : F
  pub blockers : List String
  pub warnings : List String
  pub reasons : List String

-- `item.status not in Sentinel.STATUSES`
abbrev pub is_unknown : String → Bool
is_unknown status =
    not (str_eq status "ready" || str_eq status "warning" || str_eq status "blocker")

-- `item.expires_at is not None and Sentinel._utc(item.expires_at) <= now`
abbrev pub has_expired : Option Datetime → Datetime → Bool
has_expired none now = false
has_expired (some t) now = leb t.micros now.micros

unfoldable pub text_or : String → String → String
text_or a b = if is_empty a then b else a

-- The status of the verdict, by whether the three lists are empty.
unfoldable pub verdict_status : Bool → Bool → Bool → String
verdict_status false blockers warnings = "insufficient_evidence"
verdict_status true false warnings = "unfavorable"
verdict_status true true false = "observe_only"
verdict_status true true true = "pilot_eligible"

unfoldable pub verdict_reasons : List String → List String → List String → List String
verdict_reasons insufficient blockers warnings =
    if not (is_nil insufficient)
    then insufficient
    else if not (is_nil blockers)
    then blockers
    else if not (is_nil warnings)
    then warnings
    else "all supplied version-matched conditions evidence meets the recorded thresholds" ∷ []

-- `{"ready": 1.0, "warning": 0.7, "blocker": 0.4}.get(status, 0.0)`
unfoldable pub status_ratio : {F : Type 0} → Float F → String → F
status_ratio f status =
    if str_eq status "ready"
    then f.number.lit 1 0
    else if str_eq status "warning"
    then f.number.lit 7 1
    else if str_eq status "blocker"
    then f.number.lit 4 1
    else f.number.lit 0 0

module _ {F : Type 0} where
  -- The tests that leave one item of evidence insufficient.
  unfoldable pub item_checks : Datetime → SentinelThresholds → SentinelEvidence F → Checks
  unfolding text_or
  item_checks now th item =
      (
        is_empty item.name || is_nil item.evidence_ids,
        append (text_or item.name "unnamed") " evidence is not attributable",
      )
      ∷ (item.conflicting, append item.name " evidence conflicts")
      ∷ (ltb now.micros item.observed_at.micros, append item.name " evidence is future-dated")
      ∷ (
        ltb_ℤ (th.max_evidence_age_seconds *ℤ pos 1_000_000)
            (pos now.micros -ℤ pos item.observed_at.micros),
        append item.name " evidence is stale",
      )
      ∷ (has_expired item.expires_at now, append item.name " evidence is expired")
      ∷ (
        ltb_ℤ item.sample_size th.min_sample_size,
        concat (
            item.name
            ∷ " sample size "
            ∷ int_text item.sample_size
            ∷ " is below "
            ∷ int_text th.min_sample_size
            ∷ []),
      )
      ∷ (is_unknown item.status, concat (item.name ∷ " has unknown status " ∷ item.status ∷ []))
      ∷ []

  unfoldable pub item_blockers : SentinelEvidence F → List String
  unfolding text_or
  item_blockers item =
      if str_eq item.status "blocker"
      then text_or item.reason (append item.name " is unfavorable") ∷ []
      else []

  unfoldable pub item_warnings : SentinelEvidence F → List String
  unfolding text_or
  item_warnings item =
      if str_eq item.status "warning"
      then text_or item.reason (append item.name " requires observation") ∷ []
      else []

  -- The tests of the inputs as a whole.
  unfoldable pub input_checks : SentinelInputs F → Checks
  input_checks inputs =
      (
        is_empty inputs.strategy_id
            || is_empty inputs.strategy_version
            || is_empty inputs.input_version,
        "strategy and input identity must be complete",
      )
      ∷ (is_nil inputs.evidence, "no attributable evidence is available")
      ∷ []

  -- What the loop over the evidence collects.
  unfoldable pub gather :
      (SentinelEvidence F → List String) → List (SentinelEvidence F) → List String
  gather each [] = []
  gather each (item ∷ items) = each item ++ gather each items

  unfoldable pub insufficient_of : Datetime → SentinelInputs F → SentinelThresholds → List String
  unfolding gather
  insufficient_of now inputs th =
      failing (input_checks inputs)
      ++ gather (λ item. failing (item_checks now th item)) inputs.evidence

  unfoldable pub total_samples : List (SentinelEvidence F) → ℤ
  total_samples [] = pos 0
  total_samples (item ∷ items) = max_ℤ (pos 0) item.sample_size +ℤ total_samples items

  unfoldable pub least_sample : ℤ → List (SentinelEvidence F) → ℤ
  least_sample least [] = least
  least_sample least (item ∷ items) = least_sample (min_ℤ least item.sample_size) items

module _ {F : Type 0} ⦃f : Float F⦄ where
  abbrev num : Number F
  num = f.number

  unfoldable pub least_ratio : F → List (SentinelEvidence F) → F
  least_ratio least [] = least
  least_ratio least (item ∷ items) =
      least_ratio (min_of ⦃n = num⦄ least (status_ratio f item.status)) items

  -- `_confidence`
  unfoldable pub confidence : List (SentinelEvidence F) → SentinelThresholds → Bool → F
  confidence evidence th true = f.number.lit 0 0
  confidence [] th false = f.number.lit 0 0
  confidence (item ∷ items) th false =
      let sample_ratio = min_of ⦃n = num⦄ (f.number.lit 1 0) (
        f.number.div (f.of_int (least_sample item.sample_size items))
          (f.of_int (max_ℤ (pos 1) th.min_sample_size))) in
      f.round (f.number.mul sample_ratio (least_ratio (status_ratio f item.status) items)) 4

  -- `evaluate`; `digest` is the SHA-256 of the identity, of which the time, the status, the inputs and
  -- the thresholds are the parts.
  unfoldable pub evaluate :
      (Datetime → String → SentinelInputs F → SentinelThresholds → String)
      → SentinelInputs F
      → SentinelThresholds
      → Datetime
      → SentinelVerdict F
  evaluate digest inputs th given =
      let now = to_utc given in
      let insufficient = insufficient_of now inputs th in
      let blockers = gather item_blockers inputs.evidence in
      let warnings = gather item_warnings inputs.evidence in
      let status = verdict_status (is_nil insufficient) (is_nil blockers) (is_nil warnings) in
      record {
        verdict_id = append "sentinel_" (take_text 24 (digest now status inputs th));
        status = status;
        created_at = now;
        expires_at = record now {
          micros = now.micros + pos_part (max_ℤ (pos 1) th.validity_seconds) * 1_000_000;
        };
        strategy_id = inputs.strategy_id;
        strategy_version = inputs.strategy_version;
        input_version = inputs.input_version;
        inputs = inputs;
        thresholds = th;
        sample_size = total_samples inputs.evidence;
        confidence = confidence inputs.evidence th (not (is_nil insufficient));
        blockers = insufficient ++ blockers;
        warnings = warnings;
        reasons = verdict_reasons insufficient blockers warnings;
      }
