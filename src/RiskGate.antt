-- ===== src/RiskGate.antt =====
-- cognitive/risk.py and cognitive/execution.py: the hard limits, and the execution of a decision
-- that they let through.
pub mod Limits
use trading_control.Prelude.{
  Bool, true, false, not, ◌&&◌, ◌||◌, List, [], ◌∷◌, ◌++◌, String, if◌then◌else◌,
}
use trading_control.Float.{Float, dec}
use trading_control.Config.{CognitiveConfig}
use trading_control.Decision.{Action, buy, sell, hold, Decision}

pub data Block : Type 0 where
  max_position_size max_exposure max_daily_loss : Block

pub record RiskGate (W : Type 0) : Type 0 where
  pub allowed : Bool
  pub blocks : List Block
  pub requested_position_pct : W

pub data Status : Type 0 where
  filled skipped : Status

pub record Execution (W : Type 0) : Type 0 where
  pub symbol : String
  pub side : Action
  pub qty : W
  pub price : W
  pub notional : W
  pub status : Status

-- `action in (BUY, SELL)`
abbrev pub is_trade : Action → Bool
is_trade buy = true
is_trade sell = true
is_trade hold = false

abbrev pub is_empty {ℓ} : {A : Type ℓ} → List A → Bool
is_empty [] = true
is_empty (x ∷ xs) = false

module _ {W : Type 0} ⦃f : Float W⦄ where
  open f use {add, mul, div, neg, lt, le, round}

  pub evaluate_risk : Decision W → CognitiveConfig W → W → W → W → RiskGate W
  evaluate_risk d config requested exposure day_pnl =
      let trade = is_trade d.action in
      let blocks : List Block =
        if trade
        then (if lt config.max_position_size_pct requested then max_position_size ∷ [] else [])
          ++ ((if lt config.max_exposure_pct (add exposure requested)
                then max_exposure ∷ []
                else [])
              ++ (if le day_pnl (neg config.max_daily_loss_pct) then max_daily_loss ∷ [] else []))
        else [] in
      record {
        allowed = trade && is_empty blocks;
        blocks = blocks;
        requested_position_pct = requested;
      }

  pub execute : Decision W → RiskGate W → String → W → W → Execution W
  execute d gate symbol price equity =
      if not gate.allowed || le price (dec 0 0)
      then record {
        symbol = symbol;
        side = d.action;
        qty = dec 0 0;
        price = price;
        notional = dec 0 0;
        status = skipped;
      }
      else let notional = mul equity gate.requested_position_pct in
        record {
          symbol = symbol;
          side = d.action;
          qty = round 8 (div notional price);
          price = price;
          notional = round 2 notional;
          status = filled;
        }
