-- ===== src/Agents/Ranges.antt =====
-- The ranges of the signals.
use trading_control.Prelude.{
  ℕ, ◌||◌, not, List, [], ◌∷◌, length, ltb, Bool-cases, Option-cases, inl, inr, arith,
}
use trading_control.Prelude.Int.{pos, neg_ℤ}
use trading_control.Float.{Float, IsOrdered, ◌≼◌, decimal, dec, minus_dec}
use trading_control.Float.Order.{clamp_bounds, round_unit, round_signed_unit}
use trading_control.Agents.{
  MarketView, last_of, clamp, clamp01, returns, technical_trend, truthy, trend_of, regime_of,
  macro_regime, risk_assessment, news_sentiment,
}

module _ {W : Type 0} ⦃f : Float W⦄ where
  -- Between 0 and 1, and between -1 and 1.
  abbrev pub IsUnit : W → Type 0
  IsUnit x = (dec 0 0 ≼ x) × (x ≼ dec 1 0)

  abbrev pub IsSigned : W → Type 0
  IsSigned x = (minus_dec 1 0 ≼ x) × (x ≼ dec 1 0)

module _ {W : Type 0} ⦃f : Float W⦄ (laws : IsOrdered W) where
  open laws use {le_lit, round_num, tanh_range}

  zero-IsUnit : IsUnit {W = W} (dec 0 0)
  zero-IsUnit = (le_lit (pos 0) (pos 0) (omega arith), le_lit (pos 0) (decimal 1 0) (omega arith))

  zero-IsSigned : IsSigned {W = W} (dec 0 0)
  zero-IsSigned = (
    le_lit (neg_ℤ (decimal 1 0)) (pos 0) (omega arith),
    le_lit (pos 0) (decimal 1 0) (omega arith),
  )

  pub clamp01-IsUnit : (x : W) → IsUnit (clamp01 x)
  unfolding clamp01
  clamp01-IsUnit x = clamp_bounds laws _ _ x (le_lit (pos 0) (decimal 1 0) (omega arith))

  pub clamp-IsSigned : (x : W) → IsSigned (clamp x)
  unfolding clamp
  clamp-IsSigned x =
      clamp_bounds laws _ _ x (le_lit (neg_ℤ (decimal 1 0)) (decimal 1 0) (omega arith))

  -- The rounded hyperbolic tangent, where it is a number.
  rounded_tanh :
      (n : ℕ) (x : W)
      → f.round n (f.tanh x) ≼ f.round n (f.tanh x)
      → IsSigned (f.round n (f.tanh x))
  rounded_tanh n x num =
      round_signed_unit laws n (f.tanh x) (tanh_range x (round_num n (f.tanh x) num))

  trend_of_range :
      (rets : List W)
      → let (trend, confidence) = trend_of rets in
        IsUnit confidence × (trend ≼ trend → IsSigned trend)
  unfolding trend_of
  trend_of_range [] = (zero-IsUnit, λ _. zero-IsSigned)
  trend_of_range (r ∷ rs) = (round_unit laws 4 _ (clamp01-IsUnit _), rounded_tanh 4 _)

  regime_of_range :
      (prices : List W) → regime_of prices ≼ regime_of prices → IsSigned (regime_of prices)
  unfolding regime_of
  regime_of_range [] num = zero-IsSigned
  regime_of_range (p ∷ ps) num = elim (Bool-cases (ltb (length (p ∷ ps)) 2 || not (truthy p))) [
    | inl e ↦ rw e zero-IsSigned
    | inr e ↦ rw e (rounded_tanh 4 _ (rw e at num))
  ]

  news_sentiment_range :
      (m : MarketView W)
      → let (sentiment, trust) = news_sentiment m in IsSigned sentiment × IsUnit trust
  unfolding news_sentiment
  news_sentiment_range m = elim (Option-cases m.news_sentiment) [
    | inl e ↦ rw (e, news_sentiment) (zero-IsSigned, zero-IsUnit)
    | inr (s, e) ↦
        rw (e, news_sentiment)
          (round_signed_unit laws 4 _ (clamp-IsSigned s), round_unit laws 4 _ (clamp01-IsUnit _))
  ]

  -- For every history: the confidence of the trend and the risk score are between 0 and 1, the
  -- trend and the regime are between -1 and 1 or are not numbers; and for every market view the
  -- sentiment is between -1 and 1 and its confidence between 0 and 1. This rests on the laws of
  -- floats.
  pub scores_in_range :
      (window : ℕ) (m : MarketView W)
      → let (trend, confidence) = technical_trend window m.history in
        let (sentiment, trust) = news_sentiment m in
        let regime = macro_regime window m.history in
        IsUnit confidence
        × (trend ≼ trend → IsSigned trend)
        × (regime ≼ regime → IsSigned regime)
        × IsUnit (risk_assessment window m.history).0
        × IsSigned sentiment
        × IsUnit trust
  unfolding technical_trend macro_regime risk_assessment
  scores_in_range window m =
      let (confidence, trend) = trend_of_range (last_of window (returns m.history)) in
      let (sentiment, trust) = news_sentiment_range m in
      (
        confidence,
        trend,
        regime_of_range (last_of window m.history),
        round_unit laws 4 _ (clamp01-IsUnit _),
        sentiment,
        trust,
      )
