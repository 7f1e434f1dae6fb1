-- ===== src/Loop/Step.antt =====
-- cognitive/loop.py: `step` of `CognitiveLoop`, with the emits of the agents (cognitive/agents.py) in
-- their order. The agents are those of the default registry; the summary that the reasoning agent
-- writes for the reader is left out.
pub mod Retained
pub mod Traces
use Prim.Native.String.{◌++◌ as str_append}
use trading_control.Prelude.{
  ℕ, zero, suc, ◌/◌, ◌%◌, ltb, Bool, true, false, Option, none, some, List, [], ◌∷◌, String, str_eq,
  length, find_last, ◌&&◌, if◌then◌else◌,
}
use trading_control.Prelude.Int.{ℤ}
use trading_control.Prelude.Dict.{Dict}
use trading_control.Float.{Float}
use trading_control.Prelude.Decimal.{text_of}
use trading_control.Events.{EventType, Event, EventStream, Draft, emit_all, of_kind}
use trading_control.Events
use trading_control.Agents.{
  MarketView, technical_trend, macro_regime, risk_assessment, news_sentiment, analyze_news,
  analyze_tech, analyze_macro, analyze_risk,
}
use trading_control.Aggregation.{aggregate}
use trading_control.Decision.{Decision, decide}
use trading_control.RiskGate.{RiskGate, Execution, evaluate_risk, execute}
use trading_control.Loop.{
  Loop, Payload, signalled, risk_signalled, featured, reasoned, decided, gated, executed, log,
}

-- The arguments of `step` besides the market.
pub record Position (W : Type 0) : Type 0 where
  pub equity : W
  pub position_pct : W
  pub current_exposure_pct : W
  pub day_pnl_pct : W
  pub trace_id : Option String

pub record Stepped (W : Type 0) : Type 0 where
  pub trace_id : String
  pub features : Dict W
  pub decision : Decision W
  pub gate : RiskGate W
  pub execution : Execution W

-- `trace_id or f"trace-{len(self.stream)}"`
pub trace_of : {W : Type 0} → Loop W → Option String → String
unfolding text_of
trace_of l none = str_append "trace-" (text_of (length l.stream.events))
trace_of l (some t) =
    if str_eq t "" then str_append "trace-" (text_of (length l.stream.events)) else t

module _ {W : Type 0} where
  abbrev pub traced : EventType → Payload W → String → String → String → Draft (Payload W)
  traced kind payload trace_id source ts = record {
    kind = kind;
    payload = payload;
    trace_id = trace_id;
    source = source;
    ts = ts;
  }

  -- `event.kind == EventType.DECISION and event.trace_id == trace_id`
  abbrev pub decides : String → Event (Payload W) → Bool
  decides trace_id e = of_kind Events.decision e && str_eq e.trace_id trace_id

  abbrev pub payload_of : Option (Event (Payload W)) → Option (Payload W)
  payload_of none = none
  payload_of (some e) = some e.payload

  -- `_decision_for`: the payload of the last decision under the trace id
  unfoldable pub decision_for : EventStream (Payload W) → String → Option (Payload W)
  decision_for s trace_id = payload_of (find_last (decides trace_id) s.events)

module _ {W : Type 0} ⦃f : Float W⦄ where
  -- What the agents emit and what is aggregated, before the decision.
  unfoldable pub perceive : MarketView W → String → List (Draft (Payload W)) × Dict W
  perceive m trace =
      let news = analyze_news news_sentiment m in
      let tech = analyze_tech (λ v. technical_trend 10 v.history) m in
      let macro = analyze_macro (λ v. macro_regime 60 v.history) m in
      let (risk, flags) = analyze_risk (λ v. risk_assessment 30 v.history) m in
      let features = aggregate news tech macro risk in
      (
        traced Events.news_signal (signalled news) trace "news_agent" m.ts
            ∷ traced Events.tech_signal (signalled tech) trace "technical_agent" m.ts
            ∷ traced Events.macro_signal (signalled macro) trace "macro_agent" m.ts
            ∷ traced Events.risk_signal (risk_signalled risk flags) trace "risk_agent" m.ts
            ∷ traced Events.features (featured features) trace "aggregator" m.ts
            ∷ traced Events.reasoning (reasoned features) trace "reasoning_agent" m.ts
            ∷ [],
        features,
      )

  unfoldable pub step : Loop W → MarketView W → Position W → Loop W × Stepped W
  unfolding perceive
  step l m p =
      let trace = trace_of l p.trace_id in
      let (drafts, features) = perceive m trace in
      let perceived = log l drafts in
      let decision = decide features perceived.config in
      let gate =
        evaluate_risk decision perceived.config p.position_pct p.current_exposure_pct
          p.day_pnl_pct in
      let execution = execute decision gate m.symbol m.price p.equity in
      let version = perceived.config.version in
      let origin = perceived.config_proposal_id in
      (
        log perceived (
            traced Events.decision (decided decision version origin) trace "decision_engine" m.ts
            ∷ traced Events.risk_gate (gated gate) trace "risk_engine" m.ts
            ∷ traced Events.execution (executed execution version origin) trace "execution_engine"
                m.ts
            ∷ []),
        record {
          trace_id = trace;
          features = features;
          decision = decision;
          gate = gate;
          execution = execution;
        },
      )
