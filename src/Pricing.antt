-- ===== src/Pricing.antt =====
-- `PricePipeline` of backend/app/core/price_pipeline.py: which price of a payload is taken, and when it
-- may move paper profits. The parser of a float's text, new identifiers and the clock are parameters.
pub mod Acceptance
use crypto_arc_v.Prelude.{
  ℕ, suc, length, String, Bool, true, false, not, ◌&&◌, ◌||◌, Option, none, some, List, [], ◌∷◌,
  if◌then◌else◌, str_eq,
}
use crypto_arc_v.Prelude.Int.{ℤ, pos, ltb_ℤ}
use crypto_arc_v.Prelude.Dict.{Dict, lookup}
use crypto_arc_v.Prelude.Text.{concat}
use crypto_arc_v.Prelude.Time.{Datetime}
use crypto_arc_v.Number.{Number, Float, num_eq, zero_lit, max_of, min_of, abs_of}
use crypto_arc_v.Models.{BotSettings, TokenSignal}

-- A value of a payload: an `int` or a `float` as the `float` it is read as, a text, or anything else.
pub data Value (F : Type 0) : Type 0 where
  number : F → Value F
  text : String → Value F
  other : Value F

pub record RawPriceCandidate (F : Type 0) : Type 0 where
  pub price : Option F
  pub source : String
  pub confidence : F
  pub reason : String
  pub market_cap_sol : Option F
  pub direct_price : Option F
  pub market_cap_price : Option F
  pub virtual_reserve_price : Option F

pub record PriceObservation (F : Type 0) : Type 0 where
  pub id : String
  pub source : String
  pub mint : String
  pub observed_at : Datetime
  pub price : Option F
  pub price_source : String
  pub confidence : F
  pub accepted : Bool
  pub reason : String
  pub market_cap_sol : Option F
  pub sol_amount : Option F
  pub trade_side : Option String
  pub token_id : Option String
  pub direct_price : Option F
  pub market_cap_price : Option F
  pub virtual_reserve_price : Option F
  pub selected_price : Option F

-- The arguments of `observe` beside the payload and the settings, with the new identifier and the time.
pub record Origin (F : Type 0) : Type 0 where
  pub new_id : String
  pub now : Datetime
  pub mint : String
  pub source : String
  pub trade_side : Option String
  pub sol_amount : Option F
  pub token_id : Option String

module _ {F : Type 0} ⦃f : Float F⦄ where
  abbrev pub num : Number F
  num = f.number

  open f.number use {lit, sub, mul, div, lt, le}

  abbrev pub zero_float : F
  zero_float = zero_lit ⦃n = num⦄

  -- `x and x > 0`, of a number that may be missing
  unfoldable pub positive : Option F → Option F
  positive none = none
  positive (some x) =
      if not (num_eq ⦃n = num⦄ x zero_float) && lt zero_float x then some x else none

  -- `if x`, of a number that may be missing
  unfoldable pub truthy : Option F → Option F
  truthy none = none
  truthy (some x) = if num_eq ⦃n = num⦄ x zero_float then none else some x

  abbrev pub floored : F → F
  floored x = max_of ⦃n = num⦄ (lit 1 9) x

  -- The value that a key gives, and otherwise what the later keys give.
  unfoldable pub read_value : (String → Option F) → Option (Value F) → Option F → Option F
  read_value parse (some (number x)) later = some x
  read_value parse (some (text s)) later = elim (parse s) [ some x ↦ some x | none ↦ later ]
  read_value parse _ later = later

  unfoldable pub numeric : (String → Option F) → Dict (Value F) → List String → Option F
  numeric parse payload [] = none
  numeric parse payload (key ∷ keys) =
      let later = numeric parse payload keys in read_value parse (lookup key payload) later

  unfoldable pub cap_price : Option F → Option F
  cap_price cap = elim (positive cap) [
    | none ↦ none
    | some x ↦ some (floored (div x (lit 1000000 0)))
  ]

  unfoldable pub reserve_price : Option F → Option F → Option F
  reserve_price sol tokens = elim (positive sol) [
    | none ↦ none
    | some x ↦ elim (positive tokens) [ none ↦ none | some y ↦ some (floored (div x y)) ]
  ]

  -- The choice of `from_payload`: the direct price, the one of the market cap, the one of the reserves.
  unfoldable pub candidate_from :
      String → Option F → Option F → Option F → Option F → RawPriceCandidate F
  candidate_from source cap (some direct) cap_price virtual = record {
    price = some (floored direct);
    source = "direct";
    confidence = lit 9 1;
    reason = "direct source price";
    market_cap_sol = cap;
    direct_price = some (floored direct);
    market_cap_price = cap_price;
    virtual_reserve_price = virtual;
  }
  candidate_from source cap none (some price) virtual = record {
    price = some price;
    source = "market_cap";
    confidence = lit 75 2;
    reason = "market cap normalized price";
    market_cap_sol = cap;
    direct_price = none;
    market_cap_price = some price;
    virtual_reserve_price = virtual;
  }
  candidate_from source cap none none (some price) = record {
    price = some price;
    source = "virtual_reserves";
    confidence = lit 4 1;
    reason = "virtual reserve ratio price";
    market_cap_sol = cap;
    direct_price = none;
    market_cap_price = none;
    virtual_reserve_price = some price;
  }
  candidate_from source cap none none none = record {
    price = none;
    source = source;
    confidence = zero_float;
    reason = "no usable price fields";
    market_cap_sol = cap;
    direct_price = none;
    market_cap_price = none;
    virtual_reserve_price = none;
  }

  -- The prices of the market cap and of the reserves are at least 0.000000001, hence never falsy.
  unfoldable pub from_payload : (String → Option F) → Dict (Value F) → String → RawPriceCandidate F
  from_payload parse payload source =
      let direct = numeric parse payload ("price" ∷ "priceSol" ∷ "tokenPriceSol" ∷ []) in
      let cap = numeric parse payload ("marketCapSol" ∷ "marketCap" ∷ "market_cap" ∷ []) in
      let sol = numeric parse payload ("vSolInBondingCurve" ∷ "virtualSolReserves" ∷ []) in
      let tokens = numeric parse payload ("vTokensInBondingCurve" ∷ "virtualTokenReserves" ∷ []) in
      candidate_from source cap (positive direct) (cap_price cap) (reserve_price sol tokens)

  -- The candidate of the reserves in place of one of the market cap, where the settings prefer it.
  unfoldable pub preferred : Bool → Option F → RawPriceCandidate F → RawPriceCandidate F
  preferred true (some price) c = record c {
    price = some price;
    source = "virtual_reserves";
    confidence = lit 4 1;
    reason = "virtual reserve ratio price";
    virtual_reserve_price = some price;
  }
  preferred _ _ c = c

  abbrev pub is_some : Option F → Bool
  is_some none = false
  is_some (some x) = true

  -- The end of `observe`, given the candidate.
  unfoldable pub observation : Origin F → BotSettings F → RawPriceCandidate F → PriceObservation F
  observation o s c =
      let accepted = is_some c.price && le s.min_price_confidence c.confidence in
      record {
        id = o.new_id;
        source = o.source;
        mint = o.mint;
        observed_at = o.now;
        price = c.price;
        price_source = c.source;
        confidence = c.confidence;
        accepted = accepted;
        reason =
            if accepted
            then c.reason
            else concat ("rejected: " ∷ c.reason ∷ "; confidence " ∷ f.format c.confidence 2 ∷ []);
        market_cap_sol = c.market_cap_sol;
        sol_amount = o.sol_amount;
        trade_side = o.trade_side;
        token_id = o.token_id;
        direct_price = c.direct_price;
        market_cap_price = c.market_cap_price;
        virtual_reserve_price = c.virtual_reserve_price;
        selected_price = c.price;
      }

  abbrev pub is_market_cap : RawPriceCandidate F → Bool
  is_market_cap c = str_eq c.source "market_cap"

  unfoldable pub observe :
      (String → Option F) → Dict (Value F) → Origin F → BotSettings F → PriceObservation F
  observe parse payload o s =
      let c = from_payload parse payload o.source in
      let sol = numeric parse payload ("vSolInBondingCurve" ∷ "virtualSolReserves" ∷ []) in
      let tokens = numeric parse payload ("vTokensInBondingCurve" ∷ "virtualTokenReserves" ∷ []) in
      observation o s
        (preferred (not s.prefer_market_cap_price && is_market_cap c) (reserve_price sol tokens) c)

  -- The rejection of a first price that moved too far; `price` and `entry` are there and not zero.
  unfoldable pub first_tick : F → F → BotSettings F → PriceObservation F → PriceObservation F
  first_tick price entry s obs =
      let move_pct =
        mul (abs_of ⦃n = num⦄ (div (sub price entry) (max_of ⦃n = num⦄ entry (lit 1 9))))
          (lit 100 0) in
      if le move_pct s.max_first_observed_move_pct then obs else record obs {
        accepted = false;
        reason = concat (
            "rejected: first observed move "
            ∷ f.format move_pct 1
            ∷ "% exceeds "
            ∷ f.format s.max_first_observed_move_pct 1
            ∷ "%"
            ∷ []);
      }

  unfoldable pub first_of :
      Option F → Option F → BotSettings F → PriceObservation F → PriceObservation F
  first_of (some price) (some entry) s obs = first_tick price entry s obs
  first_of _ _ s obs = obs

  unfoldable pub validate_first_tick :
      TokenSignal F → PriceObservation F → BotSettings F → PriceObservation F
  validate_first_tick t obs s =
      if not obs.accepted || ltb_ℤ (pos 0) t.observed_price_updates
      then obs
      else first_of (truthy obs.price) (truthy t.entry_price) s obs

  -- The confidences of the accepted observations.
  abbrev accepted_confidences : List (PriceObservation F) → List F
  accepted_confidences [] = []
  accepted_confidences (obs ∷ rest) =
      let later = accepted_confidences rest in
      if obs.accepted then obs.confidence ∷ later else later

  -- `sum(values, total)`
  abbrev sum_from : F → List F → F
  sum_from total [] = total
  sum_from total (x ∷ xs) = sum_from (f.number.add total x) xs

  recommended_for : List F → F
  recommended_for [] = lit 55 2
  recommended_for (x ∷ xs) =
      let average = div (sum_from zero_float (x ∷ xs)) (f.of_int (pos (suc (length xs)))) in
      f.round (max_of ⦃n = num⦄ (lit 45 2) (min_of ⦃n = num⦄ (lit 85 2) (sub average (lit 5 2)))) 2

  unfoldable recommended_confidence : List (PriceObservation F) → F
  unfolding recommended_for
  recommended_confidence [] = lit 45 2
  recommended_confidence (obs ∷ rest) = recommended_for (accepted_confidences (obs ∷ rest))
