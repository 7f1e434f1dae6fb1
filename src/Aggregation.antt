-- ===== src/Aggregation.antt =====
-- cognitive/aggregation.py: the feature vector that enters the decision engine.
use trading_control.Prelude.{◌≡◌, refl, [], ◌∷◌}
use trading_control.Prelude.Dict.{Dict, get_or}
use trading_control.Float.{Float, IsOrdered, dec}
use trading_control.Float.Order.{round_unit, round_signed_unit}
use trading_control.Agents.{clamp, clamp01}
use trading_control.Agents.Ranges.{IsUnit, IsSigned, clamp-IsSigned, clamp01-IsUnit}

abbrev pub feature_vector {ℓ} : {W : Type ℓ} → W → W → W → W → Dict W
feature_vector news tech macro risk =
    ("news", news) ∷ ("tech", tech) ∷ ("macro", macro) ∷ ("risk", risk) ∷ []

module _ {W : Type 0} ⦃f : Float W⦄ where
  open f use {mul, round}

  unfoldable pub aggregate : Dict W → Dict W → Dict W → Dict W → Dict W
  unfolding get_or
  aggregate news tech macro risk =
      feature_vector
        (round 6
          (clamp (mul (get_or "sentiment" (dec 0 0) news) (get_or "confidence" (dec 1 0) news))))
        (round 6 (clamp (mul (get_or "trend" (dec 0 0) tech) (get_or "confidence" (dec 1 0) tech))))
        (round 6 (clamp (get_or "regime" (dec 0 0) macro)))
        (round 6 (clamp01 (get_or "risk_score" (dec 0 0) risk)))

  -- Whatever the agents send, NaN, infinities and missing keys included, the features are the four
  -- of the vector, with news, tech and macro between -1 and 1 and the risk between 0 and 1. This
  -- rests on the laws of floats.
  pub aggregate_range :
      IsOrdered W
      → (news tech macro risk : Dict W)
      → (n : W) × (t : W) × (m : W) × (r : W) × (aggregate news tech macro risk
          ≡ feature_vector n t m r)
        × IsSigned n
        × IsSigned t
        × IsSigned m
        × IsUnit r
  unfolding aggregate
  aggregate_range laws news tech macro risk = (
    _,
    _,
    _,
    _,
    refl,
    round_signed_unit laws 6 _ (clamp-IsSigned laws _),
    round_signed_unit laws 6 _ (clamp-IsSigned laws _),
    round_signed_unit laws 6 _ (clamp-IsSigned laws _),
    round_unit laws 6 _ (clamp01-IsUnit laws _),
  )
