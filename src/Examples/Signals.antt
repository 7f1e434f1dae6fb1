-- ===== src/Examples/Signals.antt =====
-- The signals, the decision and the risk gate at concrete figures.
use trading_control.Prelude.{◌≡◌, ◌↔◌, true, false, some, [], ◌∷◌}
use trading_control.Prelude.Dict.{Dict}
use trading_control.Prelude.Int.{ℤ}
use trading_control.Float.{◌≺◌, dec}
use trading_control.Float.Fixed.{fixed}
use trading_control.Float.FixedLaws.{fixed-IsOrdered}
use trading_control.Agents.{MarketView}
use trading_control.Aggregation.{feature_vector}
use trading_control.Decision.{buy, sell, Decision, decide}
use trading_control.Decision.Facts.{action-decide}
use trading_control.RiskGate.{filled, skipped, is_trade, evaluate_risk, execute}
use trading_control.RiskGate.Limits.{WithinLimits, status-execute}
use trading_control.Examples.Configs.{config, config-IsSafe}

abbrev features : Dict ℤ
features = feature_vector (dec 8 1) (dec 5 1) (dec 2 1) (dec 1 1)

abbrev market : MarketView ℤ
market = record {
  symbol = "AAPL";
  price = dec 103 0;
  history = dec 100 0 ∷ dec 102 0 ∷ dec 101 0 ∷ dec 103 0 ∷ [];
  news_sentiment = some (dec 4 1);
  news_confidence = dec 9 1;
  ts = "";
}

abbrev decision : Decision ℤ
decision = decide features config

status-execute_example :
    let e =
      execute decision
        (evaluate_risk decision config (dec 4 2) (dec 0 0) (dec 0 0))
        "AAPL"
        (dec 103 0)
        (dec 1000 0) in
    ((e.status ≡ filled) ↔ (
      (is_trade decision.action ≡ true)
      × WithinLimits config (dec 4 2) (dec 0 0) (dec 0 0)
      × (fixed.le (dec 103 0) (dec 0 0) ≡ false)))
    × (e.status ≡ filled
        → (e.qty ≡ fixed.round 8 (fixed.div (fixed.mul (dec 1000 0) (dec 4 2)) (dec 103 0)))
          × (e.side ≡ decision.action))
    × (e.status ≡ skipped → (e.qty ≡ dec 0 0) × (e.notional ≡ dec 0 0))
status-execute_example =
    status-execute decision config (dec 4 2) (dec 0 0) (dec 0 0) "AAPL" (dec 103 0) (dec 1000 0)

action-decide_example :
    ((decision.action ≡ buy) ↔ (config.buy_threshold ≺ decision.score))
    × ((decision.action ≡ sell) ↔ (decision.score ≺ config.sell_threshold))
action-decide_example = action-decide fixed-IsOrdered features config config-IsSafe
