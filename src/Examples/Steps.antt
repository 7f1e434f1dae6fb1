-- ===== src/Examples/Steps.antt =====
-- A step of the loop, and a trade closed on it.
use trading_control.Prelude.{ℕ, ◌≡◌, refl, none, some, [], ◌∷◌}
use trading_control.Prelude.Int.{ℤ}
use trading_control.Float.{dec}
use trading_control.Float.Fixed.{fixed}
use trading_control.Events.{Event, EventStream, market_tick}
use trading_control.Agents.{MarketView}
use trading_control.Governance.{fresh}
use trading_control.Learning.{no_trades, attribute, update, sign}
use trading_control.Counterfactual.{counterfactual}
use trading_control.Loop.{Loop, Payload, featured}
use trading_control.Loop.Step.{Position, step}
use trading_control.Loop.Step.Traces.{trace_id-step}
use trading_control.Loop.Close.{Outcome, action_text, close_trade}
use trading_control.Loop.Close.Attributed.{close_trade-step}
use trading_control.Examples.Configs.{config}

abbrev event : ℕ → Event (Payload ℤ)
event n = record {
  seq = n;
  kind = market_tick;
  payload = featured [];
  trace_id = "";
  source = "";
  ts = "";
}

abbrev full_stream : EventStream (Payload ℤ)
full_stream = record {
  events = event 4 ∷ event 5 ∷ event 6 ∷ [];
  subscribers = [];
  max_events = some 3;
  emitted = 7;
  dropped = 4;
  delivered = [];
}

abbrev loop : Loop ℤ
loop = record {
  stream = full_stream;
  config = config;
  importance = no_trades;
  scorecard = [];
  governor = fresh 3 10 5;
  queue = [];
  config_proposal_id = none;
  drift = record { window = 20; min_samples = 10; metrics = [] };
}

abbrev market : MarketView ℤ
market = record {
  symbol = "AAPL";
  price = dec 103 0;
  history = dec 100 0 ∷ dec 102 0 ∷ dec 101 0 ∷ dec 103 0 ∷ [];
  news_sentiment = some (dec 4 1);
  news_confidence = dec 9 1;
  ts = "";
}

abbrev position : Position ℤ
position = record {
  equity = dec 1000 0;
  position_pct = dec 4 2;
  current_exposure_pct = dec 0 0;
  day_pnl_pct = dec 0 0;
  trace_id = none;
}

abbrev outcome : Outcome ℤ
outcome = record {
  realized_pnl = dec 5 0;
  realized_pnl_pct = dec 1 0;
  max_adverse_pct = dec 5 1;
  slippage_bps = dec 2 0;
  side = "buy";
  entry_price = dec 103 0;
  window_low = dec 102 0;
  window_high = dec 105 0;
}

close_trade-step_example :
    let (opened, s) = step loop market position in
    let (after, c) = close_trade opened s.trace_id outcome in
    (c.attribution ≡ attribute s.decision.breakdown (dec 5 0))
    × (c.counterfactual ≡ counterfactual (action_text s.decision.action) (dec 1 0) "buy")
    × (after.importance ≡ update no_trades c.attribution (sign outcome.realized_pnl))
    × (after.config ≡ config)
close_trade-step_example = close_trade-step loop market position outcome refl

trace_id-step_example :
    (step (step loop market position).0 market position).1.trace_id
    ≡ (step loop market position).1.trace_id
trace_id-step_example = trace_id-step loop market market position position 3 refl refl refl refl
