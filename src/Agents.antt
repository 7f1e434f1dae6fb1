-- ===== src/Agents.antt =====
-- cognitive/agents.py: the scorers and the payloads of the signal agents. A scorer that is injected
-- is an argument of the agent; the default scorers are `technical_trend`, `macro_regime`,
-- `risk_assessment` and `news_sentiment`.
pub mod Ranges
use trading_control.Prelude.{
  ℕ, ◌+◌, ◌-◌, ◌≡◌, Bool, true, false, not, ◌&&◌, ◌||◌, Option, none, some, List, [], ◌∷◌, ◌++◌,
  String, map, length, drop, keep, ltb, leb, ◌==◌, if◌then◌else◌,
}
use trading_control.Prelude.Dict.{Dict}
use trading_control.Float.{Float, dec, minus_dec, of_ℕ, max, min}

-- `xs[-n:]`, for a positive n.
abbrev pub last_of {ℓ} : {A : Type ℓ} → ℕ → List A → List A
last_of n xs = drop (length xs - n) xs

abbrev pub same_bool : Bool → Bool → Bool
same_bool true b = b
same_bool false b = not b

pub data RiskFlag : Type 0 where
  high_volatility drawdown : RiskFlag

pub record MarketView (W : Type 0) : Type 0 where
  pub symbol : String
  pub price : W
  -- oldest first, the current bar included
  pub history : List W
  pub news_sentiment : Option W
  pub news_confidence : W
  pub ts : String

module _ {W : Type 0} ⦃f : Float W⦄ where
  open f use {add, sub, mul, div, abs, lt, same, round, tanh, copysign, fmean, pstdev}

  -- `clamp(value)` with its default bounds, and `clamp01`.
  pub clamp : W → W
  clamp x = max (minus_dec 1 0) (min (dec 1 0) x)

  pub clamp01 : W → W
  clamp01 x = max (dec 0 0) (min (dec 1 0) x)

  -- `if x:` of a float
  abbrev pub truthy : W → Bool
  truthy x = not (same x (dec 0 0))

  -- A bar that is priced zero gives no return to the next.
  pub returns_after : W → List W → List W
  returns_after prev [] = []
  returns_after prev (x ∷ xs) =
      (if truthy prev then div (sub x prev) prev ∷ [] else []) ++ returns_after x xs

  pub returns : List W → List W
  unfolding returns_after
  returns [] = []
  returns (x ∷ xs) = returns_after x xs

  -- `statistics.pstdev(rets) if len(rets) > 1 else 0.0`
  pub deviation : List W → W
  deviation rets = if ltb 1 (length rets) then pstdev rets else dec 0 0

  pub z_score : W → W → W
  z_score mean sd =
      if lt (dec 1 9) sd
      then div mean sd
      else if truthy mean
      then copysign (dec 3 0) mean
      else dec 0 0

  -- The share of the returns that go the way of the mean.
  pub same_direction : W → List W → W
  same_direction mean rets =
      if truthy mean
      then div (of_ℕ (length (keep (λ r. same_bool (lt (dec 0 0) r) (lt (dec 0 0) mean)) rets)))
          (of_ℕ (length rets))
      else dec 0 0

  -- Trend and confidence of the returns of one window.
  pub trend_of : List W → W × W
  unfolding deviation z_score same_direction clamp01
  trend_of [] = (dec 0 0, dec 0 0)
  trend_of (r ∷ rs) =
      let rets = r ∷ rs in
      let mean = fmean rets in
      let trend = tanh (z_score mean (deviation rets)) in
      (round 4 trend, round 4 (clamp01 (mul (abs trend) (same_direction mean rets))))

  pub technical_trend : ℕ → List W → W × W
  unfolding returns trend_of
  technical_trend window history = trend_of (last_of window (returns history))

  pub last_price : W → List W → W
  last_price x [] = x
  last_price x (y ∷ ys) = last_price y ys

  -- The regime of the prices of one window.
  pub regime_of : List W → W
  unfolding last_price
  regime_of [] = dec 0 0
  regime_of (first ∷ rest) =
      if ltb (length (first ∷ rest)) 2 || not (truthy first)
      then dec 0 0
      else round 4 (tanh (mul (div (sub (last_price first rest) first) first) (dec 10 0)))

  pub macro_regime : ℕ → List W → W
  unfolding regime_of
  macro_regime window history = regime_of (last_of window history)

  -- The loop over the prices, with its peak and its largest drawdown so far.
  pub drawdown_from : W → W → List W → W
  drawdown_from peak worst [] = worst
  drawdown_from peak worst (price ∷ prices) =
      let peak' = max peak price in
      drawdown_from peak' (if truthy peak' then max worst (div (sub peak' price) peak') else worst)
        prices

  pub max_drawdown : List W → W
  unfolding drawdown_from
  max_drawdown [] = dec 0 0
  max_drawdown (p ∷ ps) = drawdown_from p (dec 0 0) (p ∷ ps)

  -- The risk score and the flags.
  pub risk_assessment : ℕ → List W → W × List RiskFlag
  unfolding returns deviation max_drawdown clamp01
  risk_assessment window history =
      let vol = deviation (last_of window (returns history)) in
      let worst = max_drawdown (last_of window history) in
      let flags : List RiskFlag =
        (if lt (dec 2 2) vol then high_volatility ∷ [] else [])
        ++ (if lt (dec 10 2) worst then drawdown ∷ [] else []) in
      (round 4 (clamp01 (add (mul vol (dec 25 0)) worst)), flags)

  -- Sentiment and confidence.
  pub news_sentiment : MarketView W → W × W
  unfolding clamp clamp01
  news_sentiment m = elim m.news_sentiment [
    | none ↦ (dec 0 0, dec 0 0)
    | some s ↦ (round 4 (clamp s), round 4 (clamp01 m.news_confidence))
  ]

  -- The payloads of `analyze`, without their type; the flags of the risk signal stand beside it.
  pub analyze_news : (MarketView W → W × W) → MarketView W → Dict W
  analyze_news scorer m =
      let (sentiment, confidence) = scorer m in
      ("sentiment", sentiment) ∷ ("confidence", confidence) ∷ []

  pub analyze_tech : (MarketView W → W × W) → MarketView W → Dict W
  analyze_tech scorer m =
      let (trend, confidence) = scorer m in ("trend", trend) ∷ ("confidence", confidence) ∷ []

  pub analyze_macro : (MarketView W → W) → MarketView W → Dict W
  analyze_macro scorer m = ("regime", scorer m) ∷ []

  pub analyze_risk : (MarketView W → W × List RiskFlag) → MarketView W → Dict W × List RiskFlag
  analyze_risk scorer m = let (score, flags) = scorer m in (("risk_score", score) ∷ [], flags)
