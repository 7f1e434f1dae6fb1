-- ===== src/RiskGate/Limits.antt =====
-- When a decision is let through, and what is executed.
use trading_control.Prelude.{◌≡◌, ◌↔◌, true, false, String, arith}
use trading_control.Float.{Float, dec}
use trading_control.Config.{CognitiveConfig}
use trading_control.Decision.{Decision}
use trading_control.RiskGate.{filled, skipped, is_trade, evaluate_risk, execute}

module _ {W : Type 0} ⦃f : Float W⦄ where
  -- The three limits, each read as the source compares it.
  pub record WithinLimits (config : CognitiveConfig W) (requested exposure day_pnl : W)
      : Type 0 where
    pub size : f.lt config.max_position_size_pct requested ≡ false
    pub total : f.lt config.max_exposure_pct (f.add exposure requested) ≡ false
    pub loss : f.le day_pnl (f.neg config.max_daily_loss_pct) ≡ false

  -- An order is filled exactly when the decision is a trade, every hard limit holds and the price
  -- is not zero or less. A filled order is sized by the equity, and any other moves nothing.
  pub status-execute :
      (d : Decision W) (config : CognitiveConfig W) (requested exposure day_pnl : W)
      (symbol : String) (price equity : W)
      → let e = execute d (evaluate_risk d config requested exposure day_pnl) symbol price equity in
        ((e.status ≡ filled) ↔ (
          (is_trade d.action ≡ true)
          × WithinLimits config requested exposure day_pnl
          × (f.le price (dec 0 0) ≡ false)))
        × (e.status ≡ filled
            → (e.qty ≡ f.round 8 (f.div (f.mul equity requested) price)) × (e.side ≡ d.action))
        × (e.status ≡ skipped → (e.qty ≡ dec 0 0) × (e.notional ≡ dec 0 0))
  unfolding execute evaluate_risk
  status-execute d config requested exposure day_pnl symbol price equity = ground arith
