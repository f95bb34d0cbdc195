-- ===== src/Pricing/Acceptance.antt =====
-- What an accepted observation is.
use crypto_arc_v.Prelude.{
  false≢true, ◌≡◌, inl, inr, refl, String, Bool, true, false, not, ◌&&◌, ◌||◌, Option, none, some,
  [], ◌∷◌, arith, Bool-cases, Option-cases,
}
use crypto_arc_v.Prelude.Int.{pos, ltb_ℤ}
use crypto_arc_v.Prelude.Dict.{Dict}
use crypto_arc_v.Number.{Float, IsOrdered, max_of}
use crypto_arc_v.Models.{BotSettings, TokenSignal}
use crypto_arc_v.Pricing.{
  Value, RawPriceCandidate, PriceObservation, Origin, positive, floored, cap_price, reserve_price,
  candidate_from, from_payload, preferred, observation, observe, first_tick, first_of,
  validate_first_tick, numeric, is_market_cap, truthy,
}

module _ {F : Type 0} ⦃f : Float F⦄ where
  -- A price that is missing, or at least 0.000000001.
  abbrev pub IsFloored : Option F → Type 0
  IsFloored none = Unit
  IsFloored (some p) = f.number.le (f.number.lit 1 9) p ≡ true

  first_tick_keeps :
      (price entry : F) (s : BotSettings F) (obs : PriceObservation F)
      → ((first_tick price entry s obs).accepted ≡ true → obs.accepted ≡ true)
        × ((first_tick price entry s obs).price ≡ obs.price)
  unfolding first_tick
  first_tick_keeps price entry s obs = (λ h. ground (arith, h), ground arith)

  first_of_keeps :
      (price entry : Option F) (s : BotSettings F) (obs : PriceObservation F)
      → ((first_of price entry s obs).accepted ≡ true → obs.accepted ≡ true)
        × ((first_of price entry s obs).price ≡ obs.price)
  unfolding first_of
  first_of_keeps (some price) (some entry) s obs = first_tick_keeps price entry s obs
  first_of_keeps (some price) none s obs = (λ h. h, refl)
  first_of_keeps none entry s obs = (λ h. h, refl)

  validate_keeps :
      (t : TokenSignal F) (obs : PriceObservation F) (s : BotSettings F)
      → ((validate_first_tick t obs s).accepted ≡ true → obs.accepted ≡ true)
        × ((validate_first_tick t obs s).price ≡ obs.price)
  unfolding validate_first_tick
  validate_keeps t obs s =
      let (a, p) = first_of_keeps (truthy obs.price) (truthy t.entry_price) s obs in
      elim (Bool-cases (not obs.accepted || ltb_ℤ (pos 0) t.observed_price_updates)) [
        | inl e ↦ rw e (λ h. h, refl)
        | inr e ↦ rw e (a, p)
      ]

  module _ (o : IsOrdered f.number) where
    floored_lem : (x : F) → f.number.le (f.number.lit 1 9) (floored x) ≡ true
    unfolding max_of
    floored_lem x = ground (arith, o.le_of_lt (f.number.lit 1 9) x, o.lit_refl 1 9)

    cap_price-IsFloored : (cap : Option F) → IsFloored (cap_price cap)
    unfolding cap_price
    cap_price-IsFloored cap = go (positive cap)
      where
        go :
            (x : Option F)
            → IsFloored (elim x [
              | none ↦ none
              | some y ↦ some (floored (f.number.div y (f.number.lit 1000000 0)))
            ])
        go none = tt
        go (some y) = floored_lem _

    reserve_price-IsFloored : (sol tokens : Option F) → IsFloored (reserve_price sol tokens)
    unfolding reserve_price
    reserve_price-IsFloored sol tokens = elim (Option-cases (positive sol)) [
      | inl e ↦ rw (e, reserve_price) tt
      | inr (x, e) ↦ elim (Option-cases (positive tokens)) [
        | inl d ↦ rw (e, d, reserve_price) tt
        | inr (y, d) ↦ rw (e, d, reserve_price) (floored_lem (f.number.div x y))
      ]
    ]

    candidate-IsFloored :
        (source : String) (cap direct cap_price virtual : Option F)
        → IsFloored cap_price
        → IsFloored virtual
        → IsFloored (candidate_from source cap direct cap_price virtual).price
    unfolding candidate_from
    candidate-IsFloored source cap (some direct) c v hc hv = floored_lem direct
    candidate-IsFloored source cap none (some price) v hc hv = hc
    candidate-IsFloored source cap none none (some price) hc hv = hv
    candidate-IsFloored source cap none none none hc hv = tt

    preferred-IsFloored :
        (b : Bool) (price : Option F) (c : RawPriceCandidate F)
        → IsFloored price
        → IsFloored c.price
        → IsFloored (preferred b price c).price
    unfolding preferred
    preferred-IsFloored true (some price) c hp hc = hp
    preferred-IsFloored true none c hp hc = hc
    preferred-IsFloored false (some price) c hp hc = hc
    preferred-IsFloored false none c hp hc = hc

    observation_accepted :
        (g : Origin F) (s : BotSettings F) (c : RawPriceCandidate F)
        → IsFloored c.price
        → (observation g s c).accepted ≡ true
        → (p : F) × ((observation g s c).price ≡ some p)
          × (f.number.le (f.number.lit 1 9) p ≡ true)
          × (f.number.le s.min_price_confidence (observation g s c).confidence ≡ true)
    unfolding observation
    observation_accepted g s c fl h = elim (Option-cases c.price) [
      | inl e ↦ absurd (false≢true (rw e at h))
      | inr (p, e) ↦ (p, e, (rw e at fl), (rw e at h))
    ]

    -- If the check of the first tick accepts an observation, it has left the price as it was, and `observe` had
    -- accepted: the price is at least 0.000000001, from a source that is trusted at least as much as the settings
    -- ask.
    pub observe-validate_first_tick :
        (parse : String → Option F) (payload : Dict (Value F)) (g : Origin F) (s : BotSettings F)
        (t : TokenSignal F)
        → (validate_first_tick t (observe parse payload g s) s).accepted ≡ true
        → ((validate_first_tick t (observe parse payload g s) s).price
            ≡ (observe parse payload g s).price)
          × ((observe parse payload g s).accepted ≡ true)
          × ((p : F) × ((observe parse payload g s).price ≡ some p)
              × (f.number.le (f.number.lit 1 9) p ≡ true)
              × (f.number.le s.min_price_confidence (observe parse payload g s).confidence ≡ true))
    unfolding observe from_payload
    observe-validate_first_tick parse payload g s t h =
        let sol = numeric parse payload ("vSolInBondingCurve" ∷ "virtualSolReserves" ∷ []) in
        let tokens =
          numeric parse payload ("vTokensInBondingCurve" ∷ "virtualTokenReserves" ∷ []) in
        let cap = numeric parse payload ("marketCapSol" ∷ "marketCap" ∷ "market_cap" ∷ []) in
        let direct = numeric parse payload ("price" ∷ "priceSol" ∷ "tokenPriceSol" ∷ []) in
        let virtual = reserve_price-IsFloored sol tokens in
        let c = from_payload parse payload g.source in
        let chosen =
          candidate-IsFloored g.source cap (positive direct) _ _ (cap_price-IsFloored cap)
            virtual in
        let kept =
          preferred-IsFloored (not s.prefer_market_cap_price && is_market_cap c)
            (reserve_price sol tokens) c virtual chosen in
        let (accepted, same) = validate_keeps t (observe parse payload g s) s in
        (same, accepted h, observation_accepted g s _ kept (accepted h))
