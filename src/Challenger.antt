-- ===== src/Challenger.antt =====
-- cognitive/challenger.py: the review of a proposal's backtest evidence. A reason is a constructor
-- in place of a formatted text.
pub mod Verdicts
use trading_control.Prelude.{
  ℕ, Bool, true, false, not, ◌&&◌, List, [], ◌∷◌, ◌++◌, leb, if◌then◌else◌,
}
use trading_control.Float.{Float, dec, min}
use trading_control.Backtest.WalkForward.{BacktestDelta}

pub data Objection : Type 0 where
  insufficient_sample overfit invalid_config drawdown_worsens unsupported no_improvement : Objection
  inconsistent : Objection
  approved_because : Objection

pub record Checks : Type 0 where
  pub statistical_sanity : Bool
  pub no_overfit : Bool
  pub risk_impact_ok : Bool
  pub historically_consistent : Bool
  pub improves_out_of_sample : Bool
  pub walk_forward_consistent : Bool

abbrev pub all_checks : Checks → Bool
all_checks c =
    c.statistical_sanity && c.no_overfit && c.risk_impact_ok && c.historically_consistent
    && c.improves_out_of_sample && c.walk_forward_consistent

pub record ChallengerVerdict (W : Type 0) : Type 0 where
  pub approved : Bool
  pub risk_score : W
  pub reasons : List Objection
  pub checks : Checks

-- The thresholds, parameters with a default in the source.
pub record Thresholds (W : Type 0) : Type 0 where
  pub min_learning_samples : ℕ
  pub min_trades : ℕ
  pub drawdown_tolerance : W
  pub min_consistency : W

abbrev pub reason_if : Bool → Objection → List Objection
reason_if condition r = if condition then r ∷ [] else []

-- The objections, in the order of the source; `worsens` is `drawdown_delta > tolerance`.
pub reasons_of : Checks → Bool → Bool → List Objection
reasons_of c valid worsens =
    reason_if (not c.statistical_sanity) insufficient_sample
    ++ (reason_if (not c.no_overfit) overfit
        ++ ((if not valid then invalid_config ∷ [] else reason_if worsens drawdown_worsens)
            ++ (reason_if (not c.historically_consistent) unsupported
                ++ (reason_if (not c.improves_out_of_sample) no_improvement
                    ++ (reason_if (not c.walk_forward_consistent) inconsistent
                        ++ reason_if (all_checks c) approved_because)))))

module _ {W : Type 0} ⦃f : Float W⦄ where
  open f use {add, lt, le, round}

  abbrev pub default_thresholds : Thresholds W
  default_thresholds = record {
    min_learning_samples = 30;
    min_trades = 30;
    drawdown_tolerance = dec 1 0;
    min_consistency = dec 6 1;
  }

  pub checks_of : Thresholds W → BacktestDelta W → BacktestDelta W → ℕ → Bool → Bool → W → Checks
  checks_of t in_sample out_sample samples valid supports consistency = record {
    statistical_sanity =
        leb t.min_learning_samples samples
        && leb t.min_trades out_sample.candidate.trades
        && leb t.min_trades out_sample.baseline.trades;
    no_overfit = not (lt (dec 0 0) in_sample.pnl_delta && le out_sample.pnl_delta (dec 0 0));
    risk_impact_ok = valid && le out_sample.drawdown_delta t.drawdown_tolerance;
    historically_consistent = supports;
    improves_out_of_sample = lt (dec 0 0) out_sample.pnl_delta;
    walk_forward_consistent = le t.min_consistency consistency;
  }

  -- `risk_score += x` under a condition
  abbrev pub add_if : Bool → W → W → W
  add_if condition x score = if condition then add score x else score

  pub risk_score_of : Checks → W
  risk_score_of c =
      let s1 = add_if (not c.statistical_sanity) (dec 20 2) (dec 0 0) in
      let s2 = add_if (not c.no_overfit) (dec 35 2) s1 in
      let s3 = add_if (not c.risk_impact_ok) (dec 20 2) s2 in
      let s4 = add_if (not c.historically_consistent) (dec 10 2) s3 in
      let s5 = add_if (not c.walk_forward_consistent) (dec 15 2) s4 in round 4 (min (dec 1 0) s5)

  pub review :
      Thresholds W → BacktestDelta W → BacktestDelta W → ℕ → Bool → Bool → W → ChallengerVerdict W
  unfolding checks_of risk_score_of reasons_of
  review t in_sample out_sample samples valid supports consistency =
      let c = checks_of t in_sample out_sample samples valid supports consistency in
      record {
        approved = all_checks c;
        risk_score = risk_score_of c;
        reasons = reasons_of c valid (lt t.drawdown_tolerance out_sample.drawdown_delta);
        checks = c;
      }
