-- ===== src/Params/Hypotheses.antt =====
-- api/services/param_evolution.py: the parameter that a category of hypotheses is about.
use trading_control.Prelude.{
  ◌≡◌, refl, Bool-cases, inl, inr, Option, none, some, String, [], ◌∷◌, str_eq, All, subst,
  if◌then◌else◌,
}
use trading_control.Prelude.Options.{some-inj}
use trading_control.Prelude.Dict.{Dict, get}
use trading_control.Prelude.Texts.{eq_stripped}
use trading_control.Float.{Float}
use trading_control.Params.{param_bounds}

-- `HYPOTHESIS_PARAM_MAP`
abbrev hypothesis_params : Dict String
hypothesis_params =
    ("signal_confidence", "SIGNAL_CONFIDENCE_MIN_GATE")
    ∷ ("confidence", "SIGNAL_CONFIDENCE_MIN_GATE")
    ∷ ("confidence_gate", "SIGNAL_CONFIDENCE_MIN_GATE")
    ∷ ("low_confidence", "SIGNAL_CONFIDENCE_MIN_GATE")
    ∷ ("signal_confidence_too_low", "SIGNAL_CONFIDENCE_MIN_GATE")
    ∷ ("execution_threshold", "EXECUTION_DECISION_THRESHOLD")
    ∷ ("execution_decision_threshold", "EXECUTION_DECISION_THRESHOLD")
    ∷ ("decision_threshold", "EXECUTION_DECISION_THRESHOLD")
    ∷ ("execution_threshold_too_low", "EXECUTION_DECISION_THRESHOLD")
    ∷ ("decision_threshold_too_low", "EXECUTION_DECISION_THRESHOLD")
    ∷ ("stop_loss", "STOP_LOSS_PCT")
    ∷ ("take_profit", "TAKE_PROFIT_PCT")
    ∷ ("risk_per_trade", "MAX_RISK_PER_TRADE_PCT")
    ∷ ("position_size", "MAX_RISK_PER_TRADE_PCT")
    ∷ ("position_sizing", "MAX_RISK_PER_TRADE_PCT")
    ∷ ("kelly", "KELLY_FRACTION_SCALE")
    ∷ ("trailing_stop", "TRAILING_STOP_ARM_PCT")
    ∷ []

-- `HYPOTHESIS_PARAM_MAP.get(hypothesis_type.strip().lower())`
unfoldable lookup_stripped : String → Dict String → Option String
unfolding eq_stripped
lookup_stripped hypothesis_type [] = none
lookup_stripped hypothesis_type ((word, parameter) ∷ m) =
    let rest = lookup_stripped hypothesis_type m in
    if eq_stripped hypothesis_type word then some parameter else rest

unfoldable parameter_for_hypothesis : Option String → Option String
unfolding lookup_stripped
parameter_for_hypothesis none = none
parameter_for_hypothesis (some hypothesis_type) =
    let found = lookup_stripped hypothesis_type hypothesis_params in
    if str_eq hypothesis_type "" then none else found

module _ (W : Type 0) (f : Float W) where
  -- The parameter is on the allowlist.
  abbrev IsListed : String → Type 0
  IsListed parameter = (bounds : W × W) × (get parameter (param_bounds ⦃f = f⦄) ≡ some bounds)

  lookup-IsListed :
      (hypothesis_type parameter : String) (m : Dict String)
      → All (λ (p : String × String). IsListed p.1) m
      → lookup_stripped hypothesis_type m ≡ some parameter
      → IsListed parameter
  unfolding lookup_stripped
  lookup-IsListed hypothesis_type parameter [] all h = cc
  lookup-IsListed hypothesis_type parameter ((word, p) ∷ m) all h =
      elim (Bool-cases (eq_stripped hypothesis_type word)) [
        | inl e ↦ subst (λ (x : String). IsListed x) (some-inj (rw e at h)) all.0
        | inr e ↦ lookup-IsListed hypothesis_type parameter m all.1 (rw e at h)
      ]

  hypothesis_params-IsListed : All (λ (p : String × String). IsListed p.1) hypothesis_params
  unfolding get
  hypothesis_params-IsListed = (
    (_, refl),
    (
      (_, refl),
      (
        (_, refl),
        (
          (_, refl),
          (
            (_, refl),
            (
              (_, refl),
              (
                (_, refl),
                (
                  (_, refl),
                  (
                    (_, refl),
                    (
                      (_, refl),
                      (
                        (_, refl),
                        (
                          (_, refl),
                          ((_, refl), ((_, refl), ((_, refl), ((_, refl), ((_, refl), tt))))),
                        ),
                      ),
                    ),
                  ),
                ),
              ),
            ),
          ),
        ),
      ),
    ),
  )

  -- Every parameter that a hypothesis is mapped to is on the allowlist of the tunable ones.
  parameter_for_hypothesis-IsListed :
      (hypothesis : Option String) (parameter : String)
      → parameter_for_hypothesis hypothesis ≡ some parameter
      → IsListed parameter
  unfolding parameter_for_hypothesis
  parameter_for_hypothesis-IsListed none parameter h = cc
  parameter_for_hypothesis-IsListed (some s) parameter h = elim (Bool-cases (str_eq s "")) [
    | inl e ↦ cc (rw e at h)
    | inr e ↦ lookup-IsListed s parameter hypothesis_params hypothesis_params-IsListed (rw e at h)
  ]
