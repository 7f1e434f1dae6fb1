-- ===== src/Examples/Evolution.antt =====
-- A proposal on its way: made, applied, reviewed, queued, and a whole cycle of evolution.
use trading_control.Prelude.{
  ◌+◌, ◌≤◌, ◌≡◌, ◌↔◌, refl, ◌∙◌, true, none, some, List, [], ◌∷◌, ◌++◌, String, str_eq, All, any,
  if◌then◌else◌, arith,
}
use trading_control.Prelude.Dict.{get}
use trading_control.Prelude.Int.{ℤ, pos, ◌+ℤ◌}
use trading_control.Float.{◌≼◌, dec}
use trading_control.Float.Fixed.{fixed}
use trading_control.Float.FixedLaws.{fixed-IsOrdered}
use trading_control.Json.{Json, num, to_float}
use trading_control.Config.{weight_keys, clamp_weight}
use trading_control.Config.Bounds.{IsSafe}
use trading_control.Events.{stream}
use trading_control.Governance.{fresh}
use trading_control.Learning.{outperforming, Observation, PerSignal, SignalAcc}
use trading_control.Proposal.{
  Proposal, ProposalScorecard, generated, rejected, weight_proposal, success_rate, strongest,
  required_confidence, shifted, propose_for, propose,
}
use trading_control.Proposal.Queue.{
  QueueEntry, Changes, has_id, add, set_fields, update, update-add,
}
use trading_control.Proposal.Support.{Support, propose-Support}
use trading_control.Gitops.{applied, apply_proposal_to_config}
use trading_control.Gitops.Changes.{with_weight, apply_weight-IsSafe}
use trading_control.Gitops.Proposals.{
  Change, apply_proposal_to_config-applied, propose-apply_proposal_to_config, apply-weight_proposal,
}
use trading_control.Backtest.{ConfigBacktestMetrics}
use trading_control.Backtest.WalkForward.{BacktestDelta}
use trading_control.Challenger.{default_thresholds, review}
use trading_control.Challenger.Verdicts.{IsSound, approved-review}
use trading_control.Loop.{Loop, Market}
use trading_control.Loop.Evolve.{evolve}
use trading_control.Loop.Evolve.Keeping.{Keeps, Proper, evolve-Keeps}
use trading_control.Governance.Invariant.{fresh-IsValid}
use trading_control.Loop.Evolve.Quota.{judged_in, start, cycle, Cycles-le-quota}
use trading_control.Examples.Configs.{fx, config, config-HasWeights, config-IsSafe}
use trading_control.Examples.Trades.{uniform, prices}

abbrev observation : Observation ℤ
observation = record {
  observation = "news_agent_outperforming";
  confidence = dec 9 1;
  signal = "news";
  direction = outperforming;
  evidence = record {
    agent_grade = "B";
    correct_rate = dec 7 1;
    contribution = dec 4 0;
    sample_size = 40;
  };
}

abbrev observations : List (Observation ℤ)
observations = observation ∷ []

abbrev card : ProposalScorecard
card = []

abbrev proposal : Proposal ℤ
proposal = weight_proposal "news" (dec 34 2) (dec 3775 4)

proposes : propose (dec 5 2) (dec 50 2) observations config card ≡ some (some proposal)
unfolding propose propose_for strongest required_confidence success_rate shifted clamp_weight
    weight_proposal get
proposes = refl

propose-Support_example :
    (s : Support (dec 5 2) (dec 50 2) observations config card proposal) × (All
        (λ (o : Observation ℤ). o.confidence ≼ o.confidence)
        observations
      → All
          (λ (o : Observation ℤ).
            any (str_eq o.signal) weight_keys ≡ true → o.confidence ≼ s.best.confidence)
          observations)
propose-Support_example =
    propose-Support fixed-IsOrdered (dec 5 2) (dec 50 2) observations config card proposes

propose-apply_proposal_to_config_example :
    (signal : String) × (x : ℤ) × (any (str_eq signal) weight_keys ≡ true)
    × (proposal.new_value ≡ num x)
    × (apply_proposal_to_config config proposal
        ≡ applied (with_weight signal (clamp_weight x) config))
    × IsSafe (with_weight signal (clamp_weight x) config)
propose-apply_proposal_to_config_example =
    propose-apply_proposal_to_config fixed-IsOrdered (dec 5 2) (dec 50 2) observations config card
      config-HasWeights config-IsSafe proposes

abbrev metrics : ℤ → ConfigBacktestMetrics ℤ
metrics total = record {
  total_return_pct = total;
  sharpe = dec 1 0;
  max_drawdown_pct = dec 5 0;
  trades = 40;
  signals = 41;
  win_rate = dec 6 1;
  false_positive_rate = dec 4 1;
}

abbrev delta : BacktestDelta ℤ
delta = record {
  baseline = metrics (dec 2 0);
  candidate = metrics (dec 3 0);
  pnl_delta = dec 1 0;
  sharpe_delta = dec 0 0;
  drawdown_delta = dec 0 0;
  false_positive_rate_delta = dec 0 0;
}

approved-review_example :
    ((review default_thresholds delta delta 40 true true (dec 75 2)).approved ≡ true)
    ↔ (IsSound default_thresholds delta 40 (fx 75 2) × (true ≡ true) × (true ≡ true))
approved-review_example =
    approved-review fixed-IsOrdered default_thresholds delta delta 40 true true (dec 75 2)

applies :
    apply_proposal_to_config config proposal
    ≡ applied (with_weight "news" (clamp_weight (dec 3775 4)) config)
applies =
    apply-weight_proposal config "news" (dec 34 2) (dec 3775 4) refl
    ∙ (apply_weight-IsSafe fixed-IsOrdered config "news" (num (dec 3775 4)) (dec 3775 4)
        config-HasWeights config-IsSafe refl (unfold to_float in refl)).0

apply_proposal_to_config-applied_example :
    IsSafe (with_weight "news" (clamp_weight (dec 3775 4)) config)
    × Change config proposal (with_weight "news" (clamp_weight (dec 3775 4)) config)
    × ((with_weight "news" (clamp_weight (dec 3775 4)) config).version ≡ pos 1 +ℤ pos 1)
apply_proposal_to_config-applied_example =
    apply_proposal_to_config-applied config proposal config-HasWeights applies

abbrev older : List (QueueEntry ℤ String)
older = record { proposal = proposal; status = rejected; attached = none } ∷ []

abbrev note : Changes String
note = record { status = none; attached = some "duplicate" }

update-add_example :
    let e : QueueEntry ℤ String = record {
      proposal = proposal;
      status = generated;
      attached = none;
    } in
    update (add older proposal generated) proposal.proposal_id note ≡ (
      if any (has_id proposal.proposal_id) older
      then update older proposal.proposal_id note ++ (e ∷ [])
      else older ++ (set_fields note e ∷ []))
update-add_example = update-add older proposal generated note

abbrev learnt : PerSignal (SignalAcc ℤ)
learnt = record {
  news = record { samples = 90; abs_contribution = dec 4 0; pnl = dec 6 0; correct = 80 };
  tech = record { samples = 40; abs_contribution = dec 4 0; pnl = dec 1 0; correct = 20 };
  macro = record { samples = 40; abs_contribution = dec 4 0; pnl = dec 0 0; correct = 20 };
}

abbrev loop : Loop ℤ
loop = record {
  stream = stream none;
  config = config;
  importance = learnt;
  scorecard = card;
  governor = fresh 3 10 5;
  queue = [];
  config_proposal_id = none;
  drift = record { window = 20; min_samples = 10; metrics = [] };
}

abbrev market : Market ℤ
market = record { prices = prices; split = dec 5 1; slippage_seed = 0; news = none; folds = 2 }

abbrev str : Json ℤ → String
str v = ""

-- A cycle that proposes a larger weight for the news and judges it.
evolve-Keeps_example :
    Keeps loop (evolve uniform str market loop).0 × Proper config (evolve uniform str market loop).1
evolve-Keeps_example =
    evolve-Keeps uniform str market fixed-IsOrdered loop config-HasWeights config-IsSafe

Cycles-le-quota_example : 0 + judged_in (evolve uniform str market loop).1 ≤ 3
Cycles-le-quota_example =
    Cycles-le-quota uniform str loop 1 (0 + judged_in (evolve uniform str market loop).1)
      (evolve uniform str market loop).0 (fresh-IsValid 3 10 5) (cycle market start) (omega arith)
