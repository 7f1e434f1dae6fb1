-- ===== src/Backtest.antt =====
-- cognitive/backtest_gate.py: the backtest of one configuration over one price series. The draws of
-- `random.Random(seed).uniform(SLIPPAGE_MIN_PCT, SLIPPAGE_MAX_PCT)` are the argument `uniform`, by
-- seed and by the number of draws before.
pub mod Trades
pub mod WalkForward
use trading_control.Prelude.{
  ℕ, suc, ◌+◌, Bool, true, false, not, ◌&&◌, ◌||◌, Option, none, some, List, [], ◌∷◌, ◌++◌, length,
  keep, get_elem?, ltb, ◌==◌, if◌then◌else◌,
}
use trading_control.Float.{Float, dec, of_ℕ, max, min}
use trading_control.Config.{CognitiveConfig}
use trading_control.Agents.{
  MarketView, last_of, truthy, technical_trend, macro_regime, risk_assessment, news_sentiment,
  analyze_news, analyze_tech, analyze_macro, analyze_risk,
}
use trading_control.Aggregation.{aggregate}
use trading_control.Decision.{Action, buy, sell, hold, decide}
use trading_control.RiskGate.{is_trade}

pub record ConfigBacktestMetrics (W : Type 0) : Type 0 where
  pub total_return_pct : W
  pub sharpe : W
  pub max_drawdown_pct : W
  pub trades : ℕ
  pub signals : ℕ
  pub win_rate : W
  pub false_positive_rate : W

-- `open_dir`: -1, 0 or 1.
pub data Direction : Type 0 where
  short flat long : Direction

abbrev pub same_direction : Direction → Direction → Bool
same_direction short short = true
same_direction flat flat = true
same_direction long long = true
same_direction _ _ = false

abbrev pub opposite : Direction → Direction
opposite short = long
opposite flat = flat
opposite long = short

abbrev pub target : Action → Direction → Direction
target buy open_dir = long
target sell open_dir = short
target hold open_dir = open_dir

-- The variables of the loop over the prices.
pub record Book (W : Type 0) : Type 0 where
  pub cash : W
  pub open_dir : Direction
  pub open_price : W
  pub open_qty : W
  pub trade_pnls : List W
  pub equity_curve : List W
  pub signals : ℕ
  pub losing : ℕ
  -- how often the random source was drawn from
  pub draws : ℕ

module _ {W : Type 0} ⦃f : Float W⦄ where
  open f use {add, sub, mul, div, neg, lt, le, round, fmean, pstdev}

  pub sharpe_of : List W → W
  sharpe_of pnls =
      if ltb (length pnls) 2
      then dec 0 0
      else if le (pstdev pnls) (dec 1 12)
      then dec 0 0
      else round 4 (div (fmean pnls) (pstdev pnls))

  -- `direction * x`
  abbrev pub times : Direction → W → W
  times long x = x
  times flat x = mul (dec 0 0) x
  times short x = neg x

  pub drawdown_from : W → W → List W → W
  drawdown_from peak worst [] = worst
  drawdown_from peak worst (e ∷ es) =
      let peak' = max peak e in
      drawdown_from peak' (if truthy peak' then max worst (div (sub peak' e) peak') else worst) es

  pub max_drawdown_pct : List W → W
  unfolding drawdown_from
  max_drawdown_pct [] = round 4 (mul (dec 0 0) (dec 100 0))
  max_drawdown_pct (e ∷ es) = round 4 (mul (drawdown_from e (dec 0 0) (e ∷ es)) (dec 100 0))

  abbrev pub opening : W → Book W
  opening equity = record {
    cash = equity;
    open_dir = flat;
    open_price = dec 0 0;
    open_qty = dec 0 0;
    trade_pnls = [];
    equity_curve = [];
    signals = 0;
    losing = 0;
    draws = 0;
  }

  -- The market that the agents see at one bar: the last 64 closes.
  abbrev pub view_at : List W → W → Option W → MarketView W
  view_at past price news = record {
    symbol = "SYNTHETIC";
    price = price;
    history = last_of 64 (past ++ (price ∷ []));
    news_sentiment = news;
    news_confidence = elim news [ none ↦ dec 0 0 | some s ↦ dec 1 0 ];
    ts = "";
  }

  -- `news[index] if news is not None and index < len(news) else None`
  abbrev pub news_at : Option (List W) → ℕ → Option W
  news_at none i = none
  news_at (some ns) i = get_elem? ns i

  pub decision_at : CognitiveConfig W → MarketView W → Action
  decision_at config m =
      let features =
        aggregate (analyze_news news_sentiment m)
          (analyze_tech (λ v. technical_trend 10 v.history) m)
          (analyze_macro (λ v. macro_regime 60 v.history) m)
          (analyze_risk (λ v. risk_assessment 30 v.history) m).0 in
      (decide features config).action

  -- `round(part / total, 4) if total else 0.0`
  pub rate : ℕ → ℕ → W
  rate part total = if total == 0 then dec 0 0 else round 4 (div (of_ℕ part) (of_ℕ total))

  pub metrics : W → Book W → ConfigBacktestMetrics W
  unfolding rate sharpe_of max_drawdown_pct
  metrics equity b =
      let trades = length b.trade_pnls in
      record {
        total_return_pct = round 4 (mul (sub (div b.cash equity) (dec 1 0)) (dec 100 0));
        sharpe = sharpe_of b.trade_pnls;
        max_drawdown_pct = max_drawdown_pct b.equity_curve;
        trades = trades;
        signals = b.signals;
        win_rate = rate (length (keep (λ pnl. lt (dec 0 0) pnl) b.trade_pnls)) trades;
        false_positive_rate = rate b.losing trades;
      }

module _ {W : Type 0} ⦃f : Float W⦄ (uniform : ℕ → ℕ → W) (seed : ℕ) where
  open f use {add, sub, mul, div, neg, lt}

  -- `fill(price, direction)`: the price with the slippage of the next draw.
  pub fill : ℕ → W → Direction → W
  fill draw price long = mul price (add (dec 1 0) (uniform seed draw))
  fill draw price _ = mul price (add (dec 1 0) (neg (uniform seed draw)))

  -- The round trip that ends when the open position is left.
  pub close : W → Book W → Book W
  unfolding fill
  close price b =
      if same_direction b.open_dir flat
      then b
      else let exit_fill = fill b.draws price (opposite b.open_dir) in
        let pnl = mul (times b.open_dir b.open_qty) (sub exit_fill b.open_price) in
        record b {
          cash = add b.cash pnl;
          trade_pnls = b.trade_pnls ++ (pnl ∷ []);
          losing = if lt pnl (dec 0 0) then b.losing + 1 else b.losing;
          draws = b.draws + 1;
        }

  pub enter : W → W → Direction → Book W → Book W
  unfolding fill
  enter fraction price flat b = record b {
    open_dir = flat;
    open_qty = dec 0 0;
    open_price = dec 0 0;
  }
  enter fraction price dir b =
      let entry = fill b.draws price dir in
      record b {
        open_dir = dir;
        open_price = entry;
        open_qty = div (mul b.cash fraction) entry;
        draws = b.draws + 1;
      }

  -- One bar, once the decision is known.
  pub bar : W → W → Action → Book W → Book W
  unfolding close enter
  bar fraction price action b =
      let counted = record b { signals = if is_trade action then b.signals + 1 else b.signals } in
      let dir = target action b.open_dir in
      let moved =
        if same_direction dir b.open_dir
        then counted
        else enter fraction price dir (close price counted) in
      let marked = add moved.cash (
        if same_direction moved.open_dir flat
        then dec 0 0
        else mul (times moved.open_dir moved.open_qty) (sub price moved.open_price)) in
      record moved { equity_curve = moved.equity_curve ++ (marked ∷ []) }

  -- The bars from one on, with the closes before it; `news` is indexed like the prices.
  pub bars : CognitiveConfig W → W → Option (List W) → List W → List W → Book W → Book W
  unfolding bar decision_at
  bars config fraction news past [] b = b
  bars config fraction news past (price ∷ prices) b =
      let action = decision_at config (view_at past price (news_at news (length past))) in
      bars config fraction news (past ++ (price ∷ [])) prices (bar fraction price action b)

  -- The last close, at the last price.
  pub close_out : List W → Book W → Book W
  unfolding close
  close_out [] b = b
  close_out (p ∷ []) b = close p b
  close_out (p ∷ ps) b = close_out ps b

  pub run_config_backtest :
      CognitiveConfig W → Option (List W) → W → W → List W → ConfigBacktestMetrics W
  unfolding bars close_out metrics
  run_config_backtest config news equity fraction prices =
      metrics equity (close_out prices (bars config fraction news [] prices (opening equity)))
