-- ===== src/Config.antt =====
-- cognitive/config.py: the versioned configuration, its validation and its loading. An exception of
-- the source is `none`; a missing file, an unreadable one and bad JSON are all `none` of `load_config`'s argument.
pub mod Bounds
pub mod Loading
pub mod RoundTrip
use trading_control.Prelude.Options.{◌>>=◌}
use trading_control.Prelude.{
  ℕ, zero, suc, Bool, true, false, not, any, ◌&&◌, ◌||◌, Option, none, some, List, [], ◌∷◌, ◌++◌,
  map, String, str_eq, if◌then◌else◌,
}
use trading_control.Prelude.Int.{ℤ, pos}
use trading_control.Prelude.Dict.{Dict, get}
use trading_control.Float.{Float, dec, minus_dec, max, min}
use trading_control.Json.{
  Json, null, bool, int, num, obj, Fields, end, field, member, to_float, to_int, section,
}

abbrev pub weight_keys : List String
weight_keys = "news" ∷ "tech" ∷ "macro" ∷ []

abbrev pub risk_keys : List String
risk_keys = "max_position_size_pct" ∷ "max_daily_loss_pct" ∷ "max_exposure_pct" ∷ []

pub record CognitiveConfig (W : Type 0) : Type 0 where
  pub version : ℤ
  pub weights : Dict W
  pub buy_threshold : W
  pub sell_threshold : W
  pub max_position_size_pct : W
  pub max_daily_loss_pct : W
  pub max_exposure_pct : W

pub data ConfigError : Type 0 where
  not_an_object weights_not_an_object : ConfigError
  weight_missing weight_outside : String → ConfigError
  buy_threshold_outside sell_threshold_outside sell_not_below_buy : ConfigError
  risk_not_an_object : ConfigError
  risk_outside : String → ConfigError

-- `[error] if condition else []`
abbrev pub error_if : Bool → ConfigError → List ConfigError
error_if condition e = if condition then e ∷ [] else []

module _ {W : Type 0} ⦃f : Float W⦄ where
  open f use {le, overflows}

  abbrev pub weight_bounds : W × W
  weight_bounds = (dec 0 0, dec 1 0)

  abbrev pub buy_threshold_bounds : W × W
  buy_threshold_bounds = (dec 0 0, dec 95 2)

  abbrev pub sell_threshold_bounds : W × W
  sell_threshold_bounds = (minus_dec 95 2, dec 0 0)

  abbrev pub max_position_size_bounds : W × W
  max_position_size_bounds = (dec 1 3, dec 5 1)

  abbrev pub max_daily_loss_bounds : W × W
  max_daily_loss_bounds = (dec 1 3, dec 25 2)

  abbrev pub max_exposure_bounds : W × W
  max_exposure_bounds = (dec 1 2, dec 1 0)

  -- `DEFAULTS`
  abbrev pub default_weight : String → W
  default_weight key = if str_eq key "news" then dec 34 2 else dec 33 2

  abbrev pub default_config : CognitiveConfig W
  default_config = record {
    version = pos 1;
    weights = map (λ k. (k, default_weight k)) weight_keys;
    buy_threshold = dec 15 2;
    sell_threshold = minus_dec 15 2;
    max_position_size_pct = dec 5 2;
    max_daily_loss_pct = dec 2 2;
    max_exposure_pct = dec 30 2;
  }

  -- `float(data.get(key, default))`
  pub float_member : String → W → Fields W → Option W
  unfolding member to_float
  float_member key default data' = elim (member key data') [
    | none ↦ some default
    | some v ↦ to_float v
  ]

  pub int_member : String → ℤ → Fields W → Option ℤ
  unfolding member to_int
  int_member key default data' = elim (member key data') [ none ↦ some default | some v ↦ to_int v ]

  -- `{k: float(weights_in.get(k, default)) for k in keys}`
  pub read_weights : Fields W → List String → Option (Dict W)
  unfolding float_member
  read_weights data' [] = some []
  read_weights data' (k ∷ ks) = do
    x ← float_member k (default_weight k) data'
    rest ← read_weights data' ks
    some ((k, x) ∷ rest)

  pub from_dict : Fields W → Option (CognitiveConfig W)
  from_dict data' = do
    weights_in ← section (member "weights" data')
    weights ← read_weights weights_in weight_keys
    risk ← section (member "risk" data')
    version ← int_member "version" (pos 1) data'
    buy ← float_member "buy_threshold" (dec 15 2) data'
    sell ← float_member "sell_threshold" (minus_dec 15 2) data'
    size ← float_member "max_position_size_pct" (dec 5 2) risk
    loss ← float_member "max_daily_loss_pct" (dec 2 2) risk
    exposure ← float_member "max_exposure_pct" (dec 30 2) risk
    some (record {
      version = version;
      weights = weights;
      buy_threshold = buy;
      sell_threshold = sell;
      max_position_size_pct = size;
      max_daily_loss_pct = loss;
      max_exposure_pct = exposure;
    })

  abbrev pub weight_fields : Dict W → Fields W
  weight_fields [] = end
  weight_fields ((k, x) ∷ m) = field k (num x) (weight_fields m)

  unfoldable pub to_dict : CognitiveConfig W → Fields W
  to_dict c = field "version" (int c.version) (
      field "weights" (obj (weight_fields c.weights)) (
        field "buy_threshold" (num c.buy_threshold) (
          field "sell_threshold" (num c.sell_threshold) (
            field "risk"
              (obj (
                field "max_position_size_pct" (num c.max_position_size_pct) (
                  field "max_daily_loss_pct" (num c.max_daily_loss_pct)
                    (field "max_exposure_pct" (num c.max_exposure_pct) end))))
              end))))

  -- A missing key, None and a bool are out of any bounds, and so is what `float` refuses with a
  -- TypeError or a ValueError. An int beyond the floats raises, for which see `too_large`.
  pub in_bounds : Option (Json W) → W × W → Bool
  unfolding to_float
  in_bounds none bounds = false
  in_bounds (some null) bounds = false
  in_bounds (some (bool b)) bounds = false
  in_bounds (some v) (lo, hi) = elim (to_float v) [ none ↦ false | some x ↦ le lo x && le x hi ]

  pub weight_errors : Fields W → List String → List ConfigError
  unfolding in_bounds member
  weight_errors data' [] = []
  weight_errors data' (k ∷ ks) =
      elim (member k data') [
        | none ↦ weight_missing k ∷ []
        | some v ↦ error_if (not (in_bounds (some v) weight_bounds)) (weight_outside k)
      ]
      ++ weight_errors data' ks

  pub validate_weights : Option (Json W) → List ConfigError
  unfolding weight_errors
  validate_weights (some (obj fs)) = weight_errors fs weight_keys
  validate_weights _ = weights_not_an_object ∷ []

  pub validate_risk : Option (Json W) → List ConfigError
  unfolding in_bounds member
  validate_risk (some (obj fs)) =
      error_if (not (in_bounds (member "max_position_size_pct" fs) max_position_size_bounds))
        (risk_outside "max_position_size_pct")
      ++ (error_if (not (in_bounds (member "max_daily_loss_pct" fs) max_daily_loss_bounds))
            (risk_outside "max_daily_loss_pct")
          ++ error_if (not (in_bounds (member "max_exposure_pct" fs) max_exposure_bounds))
              (risk_outside "max_exposure_pct"))
  validate_risk _ = risk_not_an_object ∷ []

  -- `float(sell) >= float(buy)`, of two values that are in their bounds.
  pub not_below : Option (Json W) → Option (Json W) → Bool
  unfolding to_float
  not_below (some sell) (some buy) = elim (to_float sell) [
    | none ↦ false
    | some s ↦ elim (to_float buy) [ none ↦ false | some b ↦ le b s ]
  ]
  not_below _ _ = false

  pub validate_thresholds : Option (Json W) → Option (Json W) → List ConfigError
  unfolding in_bounds not_below
  validate_thresholds buy sell =
      let buy_ok = in_bounds buy buy_threshold_bounds in
      let sell_ok = in_bounds sell sell_threshold_bounds in
      error_if (not buy_ok) buy_threshold_outside
      ++ (error_if (not sell_ok) sell_threshold_outside
          ++ error_if (buy_ok && sell_ok && not_below sell buy) sell_not_below_buy)

  pub config_errors : Json W → List ConfigError
  config_errors (obj data') =
      validate_weights (member "weights" data')
      ++ (validate_thresholds (member "buy_threshold" data') (member "sell_threshold" data')
          ++ validate_risk (member "risk" data'))
  config_errors _ = not_an_object ∷ []

  -- A value on which `float` raises an OverflowError, which `_in_bounds` lets through.
  pub too_large : Option (Json W) → Bool
  too_large (some (int n)) = overflows n
  too_large _ = false

  pub any_too_large : List String → Option (Json W) → Bool
  unfolding too_large member
  any_too_large keys (some (obj fs)) = any (λ k. too_large (member k fs)) keys
  any_too_large keys _ = false

  -- The validation looks at every field in turn, so that one that raises ends it.
  pub validation_raises : Fields W → Bool
  unfolding too_large any_too_large member
  validation_raises data' =
      any_too_large weight_keys (member "weights" data')
      || too_large (member "buy_threshold" data')
      || too_large (member "sell_threshold" data')
      || any_too_large risk_keys (member "risk" data')

  -- The errors, if no field raises.
  pub validate_config_dict : Json W → Option (List ConfigError)
  unfolding validation_raises config_errors
  validate_config_dict (obj data') =
      if validation_raises data' then none else some (config_errors (obj data'))
  validate_config_dict v = some (config_errors v)

  -- The argument is what the file holds, if it can be read and is JSON; none is an exception.
  pub load_config : Option (Json W) → Option (CognitiveConfig W)
  load_config none = some default_config
  load_config (some (obj data')) = elim (validate_config_dict (obj data')) [
    | none ↦ none
    | some [] ↦ from_dict data'
    | some (e ∷ es) ↦ some default_config
  ]
  load_config (some _) = some default_config

  unfoldable pub clamp_weight : W → W
  clamp_weight x = max (dec 0 0) (min (dec 1 0) x)
