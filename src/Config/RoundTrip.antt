-- ===== src/Config/RoundTrip.antt =====
-- A configuration survives `to_dict` and `load_config`.
use trading_control.Prelude.{◌≡◌, refl, subst, All, some, [], ◌∷◌, String, ap, ◌∙◌}
use trading_control.Prelude.Dict.{Dict}
use trading_control.Float.{Float}
use trading_control.Json.{obj, member, to_float, to_int, section}
use trading_control.Config.{
  CognitiveConfig, float_member, int_member, read_weights, from_dict, to_dict, in_bounds,
  weight_errors, validate_weights, validate_risk, not_below, validate_thresholds,
  validate_config_dict, load_config, weight_bounds, config_errors, validation_raises, any_too_large,
  too_large,
}
use trading_control.Config.Bounds.{IsSafe, Within}

abbrev pub weights_of {ℓ} : {W : Type ℓ} → W → W → W → Dict W
weights_of a b c = ("news", a) ∷ ("tech", b) ∷ ("macro", c) ∷ []

module _ {W : Type 0} ⦃f : Float W⦄ where
  -- A configuration whose weights are those of the three signals.
  pub record HasWeights (c : CognitiveConfig W) : Type 0 where
    pub news : W
    pub tech : W
    pub macro : W
    pub is : c.weights ≡ weights_of news tech macro

  pub from_dict-to_dict : (c : CognitiveConfig W) → HasWeights c → from_dict (to_dict c) ≡ some c
  unfolding from_dict to_dict float_member int_member read_weights member to_float to_int section
  from_dict-to_dict c h = rw h.is refl

  pub config_errors-to_dict :
      (c : CognitiveConfig W) → HasWeights c → IsSafe c → config_errors (obj (to_dict c)) ≡ []
  unfolding config_errors to_dict validate_weights validate_thresholds validate_risk weight_errors
      in_bounds not_below member to_float
  config_errors-to_dict c h s =
      let ws = subst (All (λ (e : String × W). Within weight_bounds e.1)) h.is s.weights in
      rw h.is (
        simp
          (
            ws.0.0, ws.0.1, ws.1.0.0, ws.1.0.1, ws.1.1.0.0, ws.1.1.0.1, s.buy.0, s.buy.1, s.sell.0,
            s.sell.1, s.below, s.size.0, s.size.1, s.loss.0, s.loss.1, s.exposure.0, s.exposure.1,
          )
          refl)

  -- No field of a configuration is an int, apart from its version.
  pub validate_config_dict-to_dict :
      (c : CognitiveConfig W)
      → HasWeights c
      → validate_config_dict (obj (to_dict c)) ≡ some (config_errors (obj (to_dict c)))
  unfolding validate_config_dict validation_raises any_too_large too_large to_dict member
  validate_config_dict-to_dict c h = rw h.is refl

  pub validate-to_dict :
      (c : CognitiveConfig W)
      → HasWeights c
      → IsSafe c
      → validate_config_dict (obj (to_dict c)) ≡ some []
  validate-to_dict c h s = validate_config_dict-to_dict c h ∙ ap some (config_errors-to_dict c h s)

  -- A configuration within its bounds, with the three weights, is loaded back from the object that
  -- `to_dict` writes.
  pub load_config-to_dict :
      (c : CognitiveConfig W)
      → HasWeights c
      → IsSafe c
      → load_config (some (obj (to_dict c))) ≡ some c
  unfolding load_config
  load_config-to_dict c h s = rw (validate-to_dict c h s, load_config) (from_dict-to_dict c h)
