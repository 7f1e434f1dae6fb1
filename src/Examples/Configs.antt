-- ===== src/Examples/Configs.antt =====
-- The configuration of cognitive/config.py at its defaults, and its file.
use trading_control.Prelude.{ℕ, ◌≡◌, ◌⊎◌, refl, none, some}
use trading_control.Prelude.Int.{ℤ, pos}
use trading_control.Float.{dec}
use trading_control.Float.Fixed.{fixed}
use trading_control.Float.FixedLaws.{fixed-IsOrdered}
use trading_control.Json.{obj}
use trading_control.Config.{CognitiveConfig, default_config, to_dict, load_config, int_member}
use trading_control.Config.Bounds.{IsSafe}
use trading_control.Config.Loading.{default_config-IsSafe, load_config-IsSafe, load_config-valid}
use trading_control.Config.RoundTrip.{HasWeights, load_config-to_dict, validate-to_dict}

-- A decimal as a fixed-point number.
abbrev pub fx : ℕ → ℕ → ℤ
fx m places = dec m places

abbrev pub config : CognitiveConfig ℤ
config = default_config

pub config-HasWeights : HasWeights config
config-HasWeights = record { news = dec 34 2; tech = dec 33 2; macro = dec 33 2; is = refl }

pub config-IsSafe : IsSafe config
config-IsSafe = default_config-IsSafe fixed-IsOrdered

load_config-to_dict_example : load_config (some (obj (to_dict config))) ≡ some config
load_config-to_dict_example = load_config-to_dict config config-HasWeights config-IsSafe

load_config-IsSafe_example : IsSafe config
load_config-IsSafe_example =
    load_config-IsSafe fixed-IsOrdered (some (obj (to_dict config)))
      (load_config-to_dict config config-HasWeights config-IsSafe)

load_config-valid_example :
    ((int_member "version" (pos 1) (to_dict config) ≡ none)
      × (load_config (some (obj (to_dict config))) ≡ none))
    ⊎ ((n : ℤ) × (c : CognitiveConfig ℤ) × (int_member "version" (pos 1) (to_dict config) ≡ some n)
        × (load_config (some (obj (to_dict config))) ≡ some c)
        × (c.version ≡ n))
load_config-valid_example =
    load_config-valid (to_dict config) (validate-to_dict config config-HasWeights config-IsSafe)
