-- ===== src/Examples/Promotions.antt =====
-- Promoting a validated candidate (backend/app/core/strategy_candidates.py).
use crypto_arc_v.Prelude.{
  ◌≡◌, refl, sym, ap, true, false, some, none, some-injective, [], if◌then◌else◌, is_empty, str_eq,
}
use crypto_arc_v.Prelude.Text.{append, strip, take_text}
use crypto_arc_v.Candidates.{
  StrategyCandidate, Storage, Digests, is_outdated, write_promotion, promote_strategy_candidate,
  is_selected, promotion_id_of, promote_valid, promote_found, promote,
}
use crypto_arc_v.Candidates.Promotion.{
  IsPromoted, promote-refused, promote-IsPromoted, promote-again,
}

abbrev digests : Digests
digests = record { sha256 = λ s. s; canonical = append }

abbrev candidate : StrategyCandidate
candidate = record { candidate_id = "c"; proposed_strategy_version = "v2" }

abbrev store : Storage
store = record {
  strategy_candidates = λ id. if str_eq id "c" then some candidate else none;
  latest_validation = λ id.
      if str_eq id "c"
      then some (record { validation_id = "v"; candidate_id = "c"; accepted = true })
      else none;
  strategy_promotions = λ id. none;
  active_strategy_selection = none;
  strategy_validation_campaigns = [];
}

refused : (promote digests "c" "  " "t" "" store).1.promoted ≡ false
unfolding promote strip
refused = refl

promote-refused_example :
    ((promote digests "c" "  " "t" "" store).0 ≡ store)
    × (is_empty (promote digests "c" "  " "t" "" store).1.blocker ≡ false)
promote-refused_example = promote-refused digests "c" "  " "t" "" store refused

promoted : (promote digests "c" "intent" "t" "" store).1.promoted ≡ true
unfolding promote strip promote_found is_selected promote_valid promote_strategy_candidate
    is_outdated write_promotion append take_text
promoted = refl

first_time : (promote digests "c" "intent" "t" "" store).1.idempotent ≡ false
unfolding promote strip promote_found is_selected promote_valid promote_strategy_candidate
    is_outdated write_promotion append take_text
first_time = refl

promote-IsPromoted_example :
    IsPromoted digests "c" "intent" "t" "" store (promote digests "c" "intent" "t" "" store).0
promote-IsPromoted_example =
    promote-IsPromoted digests "c" "intent" "t" "" store refl promoted first_time

keyed : (c : StrategyCandidate) → store.strategy_candidates "c" ≡ some c → c.candidate_id ≡ "c"
keyed c h = ap (λ x. x.candidate_id) (sym (some-injective _ _ h))

promote-again_example :
    promote digests "c" "intent" "later" "" (promote digests "c" "intent" "t" "" store).0 ≡ (
      (promote digests "c" "intent" "t" "" store).0,
      record {
        candidate_id = "c";
        promoted = true;
        blocker = "";
        idempotent = true;
        promotion_id = promotion_id_of digests "c" "intent";
      },
    )
promote-again_example =
    promote-again digests "c" "intent" "t" "later" "" store refl keyed promoted first_time
