-- ===== src/Loop.antt =====
-- cognitive/loop.py: the state of `CognitiveLoop`, its events, and what it learns. A payload is a constructor
-- over the records that the source writes out as a dict.
pub mod Evolve
pub mod Step
pub mod Close
use Prim.Native.String.{◌++◌ as str_append}
use trading_control.Prelude.{
  ℕ, zero, suc, ◌+◌, Bool, true, false, not, ◌&&◌, Option, none, some, List, [], ◌∷◌, ◌++◌, map,
  String, length, take, drop, if◌then◌else◌,
}
use trading_control.Prelude.Int.{ℤ, pos, negsuc, ltb_ℤ}
use trading_control.Prelude.Dict.{Dict, get}
use trading_control.Float.{Float, dec, of_ℕ}
use trading_control.Json.{Json, num, int, to_float}
use trading_control.Config.{CognitiveConfig}
use trading_control.Events.{EventType, EventStream, Draft, emit, emit_all}
use trading_control.Events
use trading_control.Learning.{
  PerSignal, items, Attribution, SignalAcc, Observation, metadata, observe, default_engine, sign,
}
use trading_control.Grading.{
  Stats, Card, TradeGradeCard, grade_agent, grade_proposal, grade_config_version,
}
use trading_control.Proposal.{
  Proposal, ProposalScorecard, ProposalStatus, approved, rejected, merged, backtesting, blocked,
  propose, record_result,
}
use trading_control.Proposal.Queue.{QueueEntry, Changes, add, update}
use trading_control.Governance.{Governor, Reason, Candidate, admit, record_outcome}
use trading_control.Gitops.{
  Applied, raises, refused, applied, last_segment, apply_proposal_to_config,
}
use trading_control.Backtest.WalkForward.{
  BacktestDelta, WalkForwardResult, evaluate_proposal, walk_forward,
}
use trading_control.Challenger.{ChallengerVerdict, default_thresholds, review}
use trading_control.Drift.{DriftMonitor, DriftAlert}
use trading_control.Agents.{RiskFlag}
use trading_control.Decision.{Decision}
use trading_control.RiskGate.{RiskGate, Execution}
use trading_control.Counterfactual.{CounterfactualResult}

-- What the queue keeps as an entry's verdict.
pub data Attached (W : Type 0) : Type 0 where
  blocked_by : Reason → Attached W
  verdict_of : ChallengerVerdict W → Attached W

pub data Payload (W : Type 0) : Type 0 where
  signalled : Dict W → Payload W
  risk_signalled : Dict W → List RiskFlag → Payload W
  featured reasoned : Dict W → Payload W
  -- with the version and the provenance of the configuration that decided
  decided : Decision W → ℤ → Option String → Payload W
  gated : RiskGate W → Payload W
  executed : Execution W → ℤ → Option String → Payload W
  closed : W → W → String → ℤ → Option String → Payload W
  attributed : Attribution W → Payload W
  trade_graded : String → TradeGradeCard W → Payload W
  compared : CounterfactualResult W → Payload W
  drifted : DriftAlert W → Payload W
  observed : Observation W → Payload W
  agent_graded : String → Card W → Payload W
  proposed : Proposal W → Payload W
  backtested : String → BacktestDelta W → BacktestDelta W → WalkForwardResult W → Payload W
  reviewed : ChallengerVerdict W → String → Payload W
  proposal_graded : String → Card W → Payload W
  pull_request : CognitiveConfig W → CognitiveConfig W → Payload W
  version_adopted : CognitiveConfig W → Option (Card W) → Payload W

pub record Loop (W : Type 0) : Type 0 where
  pub stream : EventStream (Payload W)
  pub config : CognitiveConfig W
  pub importance : PerSignal (SignalAcc W)
  pub scorecard : ProposalScorecard
  pub governor : Governor
  pub queue : List (QueueEntry W (Attached W))
  pub config_proposal_id : Option String
  pub drift : DriftMonitor W

-- The arguments of `evolve`.
pub record Market (W : Type 0) : Type 0 where
  pub prices : List W
  pub split : W
  pub slippage_seed : ℕ
  pub news : Option (List W)
  pub folds : ℕ

-- What `evolve` returns; `raised` is an exception.
pub data Evolved (W : Type 0) : Type 0 where
  raised no_proposal : Evolved W
  governed : Proposal W → Reason → Evolved W
  unmapped : Proposal W → Evolved W
  judged : Proposal W → ChallengerVerdict W → CognitiveConfig W → Bool → Evolved W

module _ {W : Type 0} where
  abbrev pub draft : EventType → Payload W → String → Draft (Payload W)
  draft kind payload source = record {
    kind = kind;
    payload = payload;
    trace_id = "";
    source = source;
    ts = "";
  }

  -- `None if news is None else news[…]`
  abbrev pub news_part : (List W → List W) → Option (List W) → Option (List W)
  news_part cut none = none
  news_part cut (some news) = some (cut news)

  abbrev pub log : Loop W → List (Draft (Payload W)) → Loop W
  log l drafts = record l { stream = emit_all l.stream drafts }

  abbrev pub set_status : Loop W → Proposal W → Option ProposalStatus → Option (Attached W) → Loop W
  set_status l p status attached = record l {
    queue = update l.queue p.proposal_id (record { status = status; attached = attached });
  }

module _ {W : Type 0} ⦃f : Float W⦄ where
  open f use {sub, mul, le, round, of_ℤ, truncate, show}

  unfoldable pub learn : Loop W → Loop W × List (Observation W)
  learn l =
      let stats = metadata l.importance in
      let observations = observe default_engine stats in
      (
        log l (
            map (λ o. draft Events.observation (observed o) "learning_engine") observations
            ++ map
                (λ (e : String × Stats W).
                  draft Events.grade (agent_graded e.0 (grade_agent 30 e.1)) "learning_engine")
                (items stats)),
        observations,
      )

  -- `_attribution_supports`
  pub attribution_supports : Loop W → String → ℤ → Bool
  unfolding get
  attribution_supports l signal direction =
      let good = elim (get signal (items (metadata l.importance))) as (λ _. Bool) [
        | none ↦ le (dec 0 0) (dec 0 0) && le (dec 5 1) (dec 0 0)
        | some s ↦ le (dec 0 0) s.total_pnl_attribution && le (dec 5 1) s.correct_rate
      ] in
      if ltb_ℤ (pos 0) direction then good else not good

  pub learning_samples : Loop W → String → ℕ
  unfolding get
  learning_samples l signal = elim (get signal (items (metadata l.importance))) [
    | none ↦ 0
    | some s ↦ s.samples
  ]

  -- `_sign(float(new_value) - float(old_value))`
  pub direction_of : Proposal W → Option ℤ
  unfolding to_float
  direction_of p = elim (to_float p.new_value) [
    | none ↦ none
    | some new_value ↦ elim (to_float p.old_value) [
      | none ↦ none
      | some old_value ↦ some (sign (sub new_value old_value))
    ]
  ]

  -- `max(1, int(len(prices) * split))`
  pub cut_of : Market W → Option ℕ
  cut_of m = elim (truncate (mul (of_ℕ (length m.prices)) m.split)) [
    | none ↦ none
    | some (pos (suc n)) ↦ some (suc n)
    | some _ ↦ some 1
  ]

  -- The target and the key that the governor reads of a proposal; `str` writes a value that is not a
  -- number.
  abbrev pub value_key : (Json W → String) → Json W → String
  value_key str (num x) = show (round 4 x)
  value_key str (int n) = show (round 4 (of_ℤ n))
  value_key str v = str v

  abbrev pub candidate_of : (Json W → String) → Proposal W → Candidate
  candidate_of str p = record {
    target = p.target;
    key = str_append p.target (str_append "=" (value_key str p.new_value));
  }
