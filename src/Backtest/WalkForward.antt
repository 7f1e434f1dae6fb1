-- ===== src/Backtest/WalkForward.antt =====
-- cognitive/backtest_gate.py: the paired comparison of two configurations, and its repetition over
-- consecutive segments of the prices.
pub mod Folds
use trading_control.Prelude.{
  ℕ, zero, suc, ◌+◌, ◌-◌, ◌*◌, ◌/◌, ◌≤◌, ◌<◌, ◌≡◌, refl, Bool, true, false, ◌||◌, Option, none,
  some, List, [], ◌∷◌, ◌++◌, map, arith, length, keep, slice, take, drop, ltb, ◌==◌, if◌then◌else◌,
  Bool-cases, inl, inr,
}
use trading_control.Float.{Float, dec, of_ℕ}
use trading_control.Config.{CognitiveConfig}
use trading_control.Backtest.{ConfigBacktestMetrics, run_config_backtest}

pub record BacktestDelta (W : Type 0) : Type 0 where
  pub baseline : ConfigBacktestMetrics W
  pub candidate : ConfigBacktestMetrics W
  pub pnl_delta : W
  pub sharpe_delta : W
  pub drawdown_delta : W
  pub false_positive_rate_delta : W

pub record WalkForwardResult (W : Type 0) : Type 0 where
  pub folds : List (BacktestDelta W)
  pub consistency : W
  pub mean_pnl_delta : W
  pub mean_sharpe_delta : W

-- The bounds of the segments from the fold `fold` on, with so many left: each has `seg` prices, and
-- the last one takes the rest.
pub segments : ℕ → ℕ → ℕ → ℕ → List (ℕ × ℕ)
segments n seg zero fold = []
segments n seg (suc zero) fold = (fold * seg, n) ∷ []
segments n seg (suc (suc left)) fold =
    (fold * seg, (fold + 1) * seg) ∷ segments n seg (suc left) (fold + 1)

module _ {W : Type 0} ⦃f : Float W⦄ (uniform : ℕ → ℕ → W) where
  open f use {sub, div, lt, round, fmean}

  -- Both configurations on the same prices and the same draws.
  pub evaluate_proposal :
      List W → CognitiveConfig W → CognitiveConfig W → Option (List W) → ℕ → BacktestDelta W
  evaluate_proposal prices baseline_config candidate_config news seed =
      let run = λ (c : CognitiveConfig W).
        run_config_backtest uniform seed c news (dec 100_000 0) (dec 95 2) prices in
      let b = run baseline_config in
      let c = run candidate_config in
      record {
        baseline = b;
        candidate = c;
        pnl_delta = round 4 (sub c.total_return_pct b.total_return_pct);
        sharpe_delta = round 4 (sub c.sharpe b.sharpe);
        drawdown_delta = round 4 (sub c.max_drawdown_pct b.max_drawdown_pct);
        false_positive_rate_delta = round 4 (sub c.false_positive_rate b.false_positive_rate);
      }

  -- `BacktestDelta.improves`
  pub improves : BacktestDelta W → Bool
  improves d = if lt (dec 0 0) d.pnl_delta then f.le d.drawdown_delta (dec 0 0) else false

  abbrev pub slice_news : ℕ → ℕ → Option (List W) → Option (List W)
  slice_news start end none = none
  slice_news start end (some ns) = some (slice start end ns)

  -- The evaluations of the segments, the slippage seed counted up with the fold.
  pub evaluate_folds :
      List W
      → CognitiveConfig W
      → CognitiveConfig W
      → Option (List W)
      → ℕ
      → List (ℕ × ℕ)
      → List (BacktestDelta W)
  evaluate_folds prices b c news seed [] = []
  evaluate_folds prices b c news seed ((start, end) ∷ rest) =
      evaluate_proposal (slice start end prices) b c (slice_news start end news) seed
      ∷ evaluate_folds prices b c news (seed + 1) rest

  pub positive_folds : List (BacktestDelta W) → ℕ
  positive_folds deltas = length (keep (λ (d : BacktestDelta W). lt (dec 0 0) d.pnl_delta) deltas)

  -- The result of a series that is too short to be split.
  pub single_fold : BacktestDelta W → WalkForwardResult W
  single_fold single = record {
    folds = single ∷ [];
    consistency = if lt (dec 0 0) single.pnl_delta then dec 1 0 else dec 0 0;
    mean_pnl_delta = single.pnl_delta;
    mean_sharpe_delta = single.sharpe_delta;
  }

  pub walk_forward :
      List W → CognitiveConfig W → CognitiveConfig W → ℕ → Option (List W) → ℕ → WalkForwardResult W
  unfolding evaluate_folds positive_folds segments
  walk_forward prices b c folds news seed =
      let n = length prices in
      if ltb folds 2 || ltb n (folds * 2)
      then single_fold (evaluate_proposal prices b c news seed)
      else let deltas = evaluate_folds prices b c news seed (segments n (n / folds) folds 0) in
        record {
          folds = deltas;
          consistency = round 4 (div (of_ℕ (positive_folds deltas)) (of_ℕ (length deltas)));
          mean_pnl_delta = round 4 (fmean (map (λ (d : BacktestDelta W). d.pnl_delta) deltas));
          mean_sharpe_delta =
              round 4 (fmean (map (λ (d : BacktestDelta W). d.sharpe_delta) deltas));
        }
