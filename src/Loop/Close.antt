-- ===== src/Loop/Close.antt =====
-- cognitive/loop.py: `close_trade` and `detect_drift` of `CognitiveLoop`.
pub mod Attributed
use trading_control.Prelude.{
  ℕ, Bool, true, false, Option, none, some, List, [], ◌∷◌, String, map, str_eq, if◌then◌else◌,
}
use trading_control.Prelude.Int.{ℤ}
use trading_control.Prelude.Dict.{Dict}
use trading_control.Float.{Float, dec}
use trading_control.Events
use trading_control.Decision.{Action, buy, sell, hold, Decision}
use trading_control.Learning.{Attribution, attribute, update, sign}
use trading_control.Grading.{TradeGradeCard, grade_trade}
use trading_control.Counterfactual.{CounterfactualResult, counterfactual}
use trading_control.Drift.{DriftAlert, observe, assess}
use trading_control.Loop.{
  Loop, Payload, decided, closed, attributed, trade_graded, compared, drifted, draft, log,
}
use trading_control.Loop.Step.{traced, decision_for}

-- The arguments of `close_trade` besides the trace id.
pub record Outcome (W : Type 0) : Type 0 where
  pub realized_pnl : W
  pub realized_pnl_pct : W
  pub max_adverse_pct : W
  pub slippage_bps : W
  pub side : String
  pub entry_price : W
  pub window_low : W
  pub window_high : W

pub record Closed (W : Type 0) : Type 0 where
  pub attribution : Attribution W
  pub grade : TradeGradeCard W
  pub counterfactual : CounterfactualResult W

abbrev pub action_text : Action → String
action_text buy = "buy"
action_text sell = "sell"
action_text hold = "hold"

-- What `close_trade` reads of a decision's payload, with its defaults where there is none: the
-- breakdown, the score, the config version, its provenance and the action.
pub record Basis (W : Type 0) : Type 0 where
  pub breakdown : Dict W
  pub score : W
  pub version : ℤ
  pub origin : Option String
  pub action : String

module _ {W : Type 0} ⦃f : Float W⦄ where
  open f use {lt, round}

  pub basis_of : Loop W → String → Option (Payload W) → Basis W
  basis_of l side (some (decided d version origin)) = record {
    breakdown = d.breakdown;
    score = d.score;
    version = version;
    origin = origin;
    action = action_text d.action;
  }
  basis_of l side _ = record {
    breakdown = [];
    score = dec 0 0;
    version = l.config.version;
    origin = none;
    action = side;
  }

  -- Once the decision of the trade is known.
  pub close_on : Loop W → String → Outcome W → Basis W → Loop W × Closed W
  close_on l trace_id o basis =
      let attribution = attribute basis.breakdown o.realized_pnl in
      let card =
        grade_trade basis.score o.realized_pnl_pct o.max_adverse_pct o.slippage_bps o.side
          o.entry_price o.window_low o.window_high in
      let result = counterfactual basis.action o.realized_pnl_pct o.side in
      let recorded = log l (
        traced Events.trade_outcome
          (closed (round 6 o.realized_pnl) (round 6 o.realized_pnl_pct) o.side basis.version
            basis.origin)
          trace_id "execution_engine" ""
        ∷ traced Events.attribution (attributed attribution) trace_id "learning_engine" ""
        ∷ []) in
      let learnt = record recorded {
        importance = update recorded.importance attribution (sign o.realized_pnl);
      } in
      let graded = log learnt (
        traced Events.grade (trade_graded trace_id card) trace_id "learning_engine" ""
        ∷ traced Events.counterfactual (compared result) trace_id "learning_engine" ""
        ∷ []) in
      let won = if lt (dec 0 0) o.realized_pnl_pct then dec 1 0 else dec 0 0 in
      (
        record graded {
          drift =
              observe
                (observe (observe graded.drift "trade_grade_score" card.overall_score)
                  "decision_regret_pct" result.regret_pct)
                "direction_correct" won;
        },
        record { attribution = attribution; grade = card; counterfactual = result },
      )

  pub close_trade : Loop W → String → Outcome W → Loop W × Closed W
  unfolding close_on basis_of
  close_trade l trace_id o =
      close_on l trace_id o (basis_of l o.side (decision_for l.stream trace_id))

  pub detect_drift : Loop W → Loop W × List (DriftAlert W)
  detect_drift l =
      let alerts = assess l.drift in
      (log l (map (λ a. draft Events.drift (drifted a) "learning_engine") alerts), alerts)
