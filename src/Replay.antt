-- ===== src/Replay.antt =====
-- api/services/replay_harness.py, and what it takes of `compute_learning_metrics` in
-- api/services/agents/trade_scorer.py: the statistics of the scores are left out, but that they are
-- read. `x ** 2` is taken as a product, also where it raises an OverflowError. A text that is no
-- number raises, which is `none`.
use trading_control.Prelude.Options.{◌>>=◌}
use trading_control.Prelude.{
  ℕ, ◌-◌, Bool, false, ◌&&◌, ◌||◌, not, Option, none, some, List, [], ◌∷◌, map, String, length,
  keep, any, ltb, if◌then◌else◌,
}
use trading_control.Float.{Float, dec, of_ℕ}
use trading_control.Json.{Fields, member, float_or, first_truthy, reads_as}

-- `[f(x) for x in xs]`, where a call may raise.
abbrev pub map_all : {A B : Type 0} → (A → Option B) → List A → Option (List B)
map_all f [] = some []
map_all f (x ∷ xs) = elim (f x) [
  | none ↦ none
  | some y ↦ elim (map_all f xs) [ none ↦ none | some ys ↦ some (y ∷ ys) ]
]

-- The fields of the returned dict that the harness reads.
pub record LearningMetrics (W : Type 0) : Type 0 where
  pub total_trades : ℕ
  pub win_rate : W
  pub avg_return : W
  pub sharpe_ratio : W
  pub max_drawdown : W

pub record ReplayMetrics (W : Type 0) : Type 0 where
  pub trade_count : ℕ
  pub total_pnl : W
  pub win_rate : W
  pub avg_return : W
  pub sharpe_ratio : W
  pub max_drawdown : W
  pub false_positive_rate : W
  pub avg_slippage_bps : W

module _ {W : Type 0} ⦃f : Float W⦄ where
  open f use {add, sub, mul, div, neg, lt, same, round, sum, sqrt}

  -- `[float(e.get(key) or 0.0) for e in evaluations]`
  unfoldable pub floats_of : String → List (Fields W) → Option (List W)
  unfolding float_or member
  floats_of key = map_all λ (e : Fields W). float_or (dec 0 0) (member key e)

  -- The loop over the equity curve: `cumulative`, `peak` and `max_dd`.
  unfoldable pub drawdown_from : W → W → W → List W → W
  drawdown_from cumulative peak max_dd [] = max_dd
  drawdown_from cumulative peak max_dd (pct ∷ pcts) =
      let cumulative' = add cumulative pct in
      let peak' = if lt peak cumulative' then cumulative' else peak in
      let dd = sub peak' cumulative' in
      drawdown_from cumulative' peak' (if lt max_dd dd then dd else max_dd) pcts

  abbrev pub positive : W → Bool
  positive x = lt (dec 0 0) x

  -- `any(p != pnl_pcts[0] for p in pnl_pcts)`
  unfoldable pub differs : List W → Bool
  differs [] = false
  differs (x ∷ xs) = any (λ (p : W). not (same p x)) (x ∷ xs)

  unfoldable pub sharpe_of : List W → W → W
  unfolding differs
  sharpe_of pcts mean_r =
      let total = length pcts in
      let squares = map (λ (r : W). mul (sub r mean_r) (sub r mean_r)) pcts in
      let variance = div (sum squares) (of_ℕ (total - 1)) in
      let std_r = if positive variance then sqrt variance else dec 0 0 in
      if ltb 1 total && differs pcts
      then (if lt (dec 1 3) std_r then mul (div mean_r std_r) (sqrt (of_ℕ 252)) else dec 0 0)
      else dec 0 0

  unfoldable pub compute_learning_metrics : List (Fields W) → Option (LearningMetrics W)
  unfolding floats_of sharpe_of drawdown_from
  compute_learning_metrics [] = some (record {
    total_trades = 0;
    win_rate = dec 0 0;
    avg_return = dec 0 0;
    sharpe_ratio = dec 0 0;
    max_drawdown = dec 0 0;
  })
  compute_learning_metrics (e ∷ es) = do
    pnl_pcts ← floats_of "pnl_percent" (e ∷ es)
    pnls ← floats_of "pnl" (e ∷ es)
    scores ← floats_of "overall_score" (e ∷ es)
    let total = of_ℕ (length (e ∷ es))
    let avg_return = div (sum pnl_pcts) total
    some (record {
      total_trades = length (e ∷ es);
      win_rate = round 4 (div (of_ℕ (length (keep positive pnls))) total);
      avg_return = round 4 avg_return;
      sharpe_ratio = round 4 (sharpe_of pnl_pcts avg_return);
      max_drawdown = round 4 (neg (drawdown_from (dec 0 0) (dec 0 0) (dec 0 0) pnl_pcts));
    })

  -- `value or 0.0`
  abbrev pub or_zero : W → W
  or_zero x = if same x (dec 0 0) then dec 0 0 else x

  unfoldable pub actionable : Fields W → Bool
  unfolding first_truthy reads_as member
  actionable t =
      let side = first_truthy (member "side" t) (member "action" t) in
      reads_as side "buy" || reads_as side "sell"

  abbrev pub empty_metrics : ReplayMetrics W
  empty_metrics = record {
    trade_count = 0;
    total_pnl = dec 0 0;
    win_rate = dec 0 0;
    avg_return = dec 0 0;
    sharpe_ratio = dec 0 0;
    max_drawdown = dec 0 0;
    false_positive_rate = dec 0 0;
    avg_slippage_bps = dec 0 0;
  }

  -- `losers / len(actionable)`, or 0.0 where there are none
  unfoldable pub false_positives : List (Fields W) → Option W
  unfolding floats_of
  false_positives [] = some (dec 0 0)
  false_positives (t ∷ ts) = do
    pnls ← floats_of "pnl" (t ∷ ts)
    let losers = keep (λ (p : W). lt p (dec 0 0)) pnls
    some (div (of_ℕ (length losers)) (of_ℕ (length (t ∷ ts))))

  unfoldable pub replay : List (Fields W) → Option (ReplayMetrics W)
  unfolding compute_learning_metrics floats_of false_positives actionable
  replay [] = some empty_metrics
  replay (t ∷ ts) = do
    metrics ← compute_learning_metrics (t ∷ ts)
    pnls ← floats_of "pnl" (t ∷ ts)
    false_positive_rate ← false_positives (keep actionable (t ∷ ts))
    slippages ← floats_of "slippage_bps" (t ∷ ts)
    some (record {
      trade_count = metrics.total_trades;
      total_pnl = round 4 (sum pnls);
      win_rate = or_zero metrics.win_rate;
      avg_return = or_zero metrics.avg_return;
      sharpe_ratio = or_zero metrics.sharpe_ratio;
      max_drawdown = or_zero metrics.max_drawdown;
      false_positive_rate = round 4 false_positive_rate;
      avg_slippage_bps = round 4 (div (sum slippages) (of_ℕ (length slippages)));
    })
