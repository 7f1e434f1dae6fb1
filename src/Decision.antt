-- ===== src/Decision.antt =====
-- cognitive/decision.py: the decision engine.
pub mod Facts
use trading_control.Prelude.{Bool, true, false, List, [], ◌∷◌, String, map, if◌then◌else◌}
use trading_control.Prelude.Dict.{Dict, get_or}
use trading_control.Float.{Float, dec}
use trading_control.Config.{CognitiveConfig, weight_keys}

-- The actions are the strings "buy", "sell" and "hold".
pub data Action : Type 0 where
  buy sell hold : Action

pub record Decision (W : Type 0) : Type 0 where
  pub action : Action
  pub score : W
  -- what each signal contributed
  pub breakdown : Dict W
  pub buy_threshold : W
  pub sell_threshold : W

abbrev pub values {ℓ} : {V : Type ℓ} → Dict V → List V
values [] = []
values ((k, v) ∷ m) = v ∷ values m

module _ {W : Type 0} ⦃f : Float W⦄ where
  open f use {mul, round, lt, sum}

  pub contribution : Dict W → CognitiveConfig W → String → W
  contribution features config key =
      round 6 (mul (get_or key (dec 0 0) features) (get_or key (dec 0 0) config.weights))

  pub action_of : W → CognitiveConfig W → Action
  action_of score config =
      if lt config.buy_threshold score
      then buy
      else if lt score config.sell_threshold
      then sell
      else hold

  pub decide : Dict W → CognitiveConfig W → Decision W
  unfolding contribution action_of
  decide features config =
      let breakdown = map (λ key. (key, contribution features config key)) weight_keys in
      let score = round 6 (sum (values breakdown)) in
      record {
        action = action_of score config;
        score = score;
        breakdown = breakdown;
        buy_threshold = config.buy_threshold;
        sell_threshold = config.sell_threshold;
      }
