-- ===== src/Promotion.antt =====
-- api/services/regression_validator.py and api/services/promotion_gate.py. The telemetry of the
-- replay is left out: it changes the tool registry alone, and its errors are caught.
pub mod Gate
use trading_control.Prelude.Options.{◌>>=◌}
use trading_control.Prelude.{
  ℕ, Bool, true, false, ◌&&◌, Option, none, some, List, [], ◌∷◌, ◌++◌, String, ltb, if◌then◌else◌,
}
use trading_control.Float.{Float, dec, minus_dec}
use trading_control.Json.{Fields}
use trading_control.Replay.{ReplayMetrics, replay}
use trading_control.Strategies.{
  Status, Version, Registry, Result, ok, err, Failure, unknown_version, not_allowed, missing_key,
  transition,
}

pub data Regression : Type 0 where
  insufficient_sample sharpe_regressed drawdown_worsened false_positives_up slippage_up : Regression

pub record Verdict (W : Type 0) : Type 0 where
  pub approved : Bool
  pub reasons : List Regression
  pub sharpe_delta : W
  pub drawdown_delta : W
  pub false_positive_delta : W
  pub slippage_delta : W

abbrev pub reason_if : Bool → Regression → List Regression
reason_if true reason = reason ∷ []
reason_if false reason = []

abbrev pub is_empty : {A : Type 0} → List A → Bool
is_empty [] = true
is_empty (x ∷ xs) = false

module _ {W : Type 0} ⦃f : Float W⦄ where
  open f use {sub, lt, round}

  unfoldable pub validate : ReplayMetrics W → ReplayMetrics W → Verdict W
  validate champion candidate =
      let sharpe_delta = round 4 (sub candidate.sharpe_ratio champion.sharpe_ratio) in
      let drawdown_delta = round 4 (sub candidate.max_drawdown champion.max_drawdown) in
      let false_positive_delta =
        round 4 (sub candidate.false_positive_rate champion.false_positive_rate) in
      let slippage_delta = round 4 (sub candidate.avg_slippage_bps champion.avg_slippage_bps) in
      let reasons =
        reason_if (ltb candidate.trade_count 10) insufficient_sample
        ++ (reason_if (lt sharpe_delta (minus_dec 10 2)) sharpe_regressed
            ++ (reason_if (lt drawdown_delta (minus_dec 1 0)) drawdown_worsened
                ++ (reason_if (lt (dec 5 2) false_positive_delta) false_positives_up
                    ++ reason_if (lt (dec 2 0) slippage_delta) slippage_up))) in
      record {
        approved = is_empty reasons;
        reasons = reasons;
        sharpe_delta = sharpe_delta;
        drawdown_delta = drawdown_delta;
        false_positive_delta = false_positive_delta;
        slippage_delta = slippage_delta;
      }

-- The reason of a decision: the regressions, the promotion, or why the transition is blocked.
pub data Reason : Type 0 where
  rejected : List Regression → Reason
  promoted : Status → Reason
  blocked : Failure → Reason

pub record PromotionDecision (W : Type 0) : Type 0 where
  pub version_id : String
  pub to_status : Status
  pub approved : Bool
  pub transitioned : Bool
  pub reason : Reason
  pub champion : ReplayMetrics W
  pub candidate : ReplayMetrics W
  pub verdict : Verdict W

module _ {W : Type 0} ⦃f : Float W⦄ where
  -- What becomes of the registry; none where an error other than `InvalidTransitionError` is raised.
  unfoldable pub promote :
      String → Status → W → W → Registry W → Verdict W → Option (Registry W × Bool × Reason)
  promote id to_status now later r verdict =
      if verdict.approved
      then elim (transition id to_status now later r) [
        | ok (r', sv) ↦ some (r', true, promoted to_status)
        | err unknown_version ↦ some (r, false, blocked unknown_version)
        | err not_allowed ↦ some (r, false, blocked not_allowed)
        | err missing_key ↦ none
      ]
      else some (r, false, rejected verdict.reasons)

  unfoldable pub evaluate :
      String
      → List (Fields W)
      → List (Fields W)
      → Status
      → W
      → W
      → Registry W
      → Option (Registry W × PromotionDecision W)
  unfolding promote validate
  evaluate id champion_trades candidate_trades to_status now later r = do
    champion ← replay champion_trades
    candidate ← replay candidate_trades
    let verdict = validate champion candidate
    (r', transitioned, reason) ← promote id to_status now later r verdict
    some (
      r',
      record {
        version_id = id;
        to_status = to_status;
        approved = verdict.approved;
        transitioned = transitioned;
        reason = reason;
        champion = champion;
        candidate = candidate;
        verdict = verdict;
      },
    )
