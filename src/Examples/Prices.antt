-- ===== src/Examples/Prices.antt =====
-- A payload with a direct price (backend/app/core/price_pipeline.py).
use crypto_arc_v.Prelude.{◌≡◌, refl, true, none, some, [], ◌∷◌}
use crypto_arc_v.Prelude.Int.{pos}
use crypto_arc_v.Prelude.Dict.{Dict, lookup}
use crypto_arc_v.Number.{max_of}
use crypto_arc_v.Number.Fixed.{Fixed, fixed_number, fixed_float, fixed-IsOrdered}
use crypto_arc_v.Models.{BotSettings, default_settings, TokenSignal, new_token}
use crypto_arc_v.Pricing.{
  Value, number, PriceObservation, Origin, observe, validate_first_tick, from_payload, numeric,
  read_value, candidate_from, positive, cap_price, reserve_price, preferred, observation, first_of,
  truthy,
}
use crypto_arc_v.Pricing.Acceptance.{observe-validate_first_tick}

abbrev settings : BotSettings Fixed
settings = default_settings

abbrev token : TokenSignal Fixed
token = new_token "t1" "ABC" "Abc" "mint" "creator" (record { aware = true; micros = 0 })

abbrev origin : Origin Fixed
origin = record {
  new_id = "px1";
  now = record { aware = true; micros = 0 };
  mint = "mint";
  source = "pumpportal";
  trade_side = none;
  sol_amount = none;
  token_id = none;
}

abbrev payload : Dict (Value Fixed)
payload = ("price", number (pos 5000)) ∷ []

accepted :
    (validate_first_tick token (observe (λ s. none) payload origin settings) settings).accepted
    ≡ true
unfolding observe validate_first_tick from_payload numeric read_value candidate_from positive
    cap_price reserve_price preferred observation lookup max_of first_of truthy
accepted = refl

abbrev observed : PriceObservation Fixed
observed = observe (λ s. none) payload origin settings

observe-validate_first_tick_example :
    ((validate_first_tick token observed settings).price ≡ observed.price)
    × (observed.accepted ≡ true)
    × ((p : Fixed) × (observed.price ≡ some p)
        × (fixed_number.le (fixed_number.lit 1 9) p ≡ true)
        × (fixed_number.le settings.min_price_confidence observed.confidence ≡ true))
observe-validate_first_tick_example =
    observe-validate_first_tick fixed-IsOrdered (λ s. none) payload origin settings token accepted
