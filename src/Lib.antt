-- ===== src/Lib.antt =====
-- trading-control: a trading system in Python. The package `cognitive/` is its decision and learning
-- loop: agents read a market and give signals, the signals are aggregated to features, a decision engine
-- scores them, a risk gate lets a trade through, and closed trades are learnt from. What is learnt
-- becomes a proposal to change the configuration; a governor limits the proposals, a backtest and a
-- challenger judge them, and one that is approved becomes a pull request. Every stage writes to one event
-- stream. The services in `api/services/` run it live: a registry keeps the versions of the strategy and
-- their lifecycle, a promotion gate replays trades before a version advances, a circuit breaker rolls the
-- live version back, an execution engine sends orders to a broker, and a file of overrides tunes the
-- parameters.
--
-- Parts, and the files that model them (a child file proves what its name says):
--   * Governance: cognitive/governance.py. `admit` and `record_outcome` are the methods of
--     `ProposalGovernor`; `run` is a sequence of calls. Cycles are natural numbers.
--   * Events: cognitive/events.py. `emit`, `subscribe`, `select` (`events`) and `latest` of
--     `EventStream`, over any payloads. The calls of the subscribers are written to a list.
--   * Json: the values of `json.loads`, with `float`, `int` and truth as the program uses them.
--   * Config: cognitive/config.py. `from_dict`, `to_dict`, `validate_config_dict`, `load_config` and
--     `clamp_weight`. `load_config` takes what the file holds; an exception is `none`, also that of
--     the validation, which `validation_raises` tells.
--   * Agents, Aggregation, Decision: cognitive/agents.py, aggregation.py and decision.py.
--   * RiskGate: cognitive/risk.py and cognitive/execution.py.
--   * Backtest: cognitive/backtest_gate.py. The locals of `run_config_backtest` are the record `Book`,
--     one bar is `bar`, the loop is `bars`; Backtest/WalkForward.antt has `evaluate_proposal` and
--     `walk_forward`.
--   * Challenger: cognitive/challenger.py. `review`.
--   * Proposal: cognitive/proposal.py. The scorecard and `ProposalAgent.propose`; Proposal/Queue.antt
--     has `ProposalQueue`.
--   * Gitops: cognitive/gitops.py. `apply_proposal_to_config`, on the object that `to_dict` writes.
--   * Learning, Grading, Counterfactual, Drift: the files of these names in cognitive/.
--   * Loop: cognitive/loop.py. The state of `CognitiveLoop` and `learn`; Loop/Step.antt has `step`,
--     Loop/Close.antt has `close_trade` and `detect_drift`, and Loop/Evolve.antt has `evolve`, cut at its
--     early returns, and `merge`. The state is passed on explicitly and the emits are in the order of
--     the source.
--   * Strategies: api/services/strategy_registry.py. `register`, `transition`, `rollback` and the queries
--     of `StrategyRegistry`; `run` is a sequence of calls of them.
--   * Replay and Promotion: api/services/replay_harness.py, with `compute_learning_metrics` of
--     api/services/agents/trade_scorer.py, regression_validator.py and promotion_gate.py beside it. The
--     gate works on the registry.
--   * CircuitBreaker: api/services/circuit_breaker.py, on the registry and on Redis.
--   * PositionMath, PaperBroker, Execution: api/services/execution/position_math.py, brokers/paper.py and
--     the memory path of execution_engine.py. `submit` is one order from the dedup key to the fill.
--   * Params: api/services/param_evolution.py and param_overrides.py; Params/Hypotheses.antt has the map from
--     hypotheses to parameters.
--   * Regime and Policy: api/services/regime_risk.py and decision_policy.py. `decide_policy` is what it
--     reads, `perceive`, and `decide`.
--   * Consumer: api/events/consumer.py and dlq.py, with `acknowledge` of bus.py. `handle_message` is
--     `_handle_message`, of one outcome of `process` and of how far Redis answers after it (`Reach`), and
--     `deliver_all` a sequence of deliveries.
--   * Prelude and Float: shared names, lists and dicts; floats. Examples: the theorems at concrete
--     inputs.
--
-- Numbers. Python's floats are an interface, `Float`, with IEEE 754 and Python's `round`, `sum`,
-- `statistics` and `math` as its operations; `IsOrdered` names the laws that proofs use, in which a
-- number is a value that is `<=` itself, so that NaN is allowed for. Float/Fixed.antt is an instance
-- that runs, in whole multiples of 10⁻¹², and Float/FixedLaws.antt has its laws. The laws are those of
-- comparison, of decimal literals, of rounding, of `tanh`, and of a difference and a double negation.
-- `IsSigned` adds the signs of sums and of products by 1 and -1, and `IsTruncating` those of `int(x)`;
-- no law of arithmetic beyond these is used. A division by zero, which raises in the source, is whatever
-- the carrier gives, and so is a product that overflows in `x ** 2`. Integers of Python are unbounded, as
-- are ℕ and ℤ; `float` of one that is too large raises.
--
-- Every function is structural recursion. Only `text_from`, the decimal text of a number, runs on fuel: the
-- number itself, which is at least the count of its digits less one. The random source of the backtest is a
-- parameter: `uniform seed n` is the draw `n` of `random.Random(seed)`. In `evolve`, `str` stands for
-- the text of a value that is not a number. Redis is a parameter of the circuit breaker, with the laws of
-- `SET` and `GET`, and for the broker and the engine the record of what its keys hold. The clock, the
-- hash of a configuration, the ids of orders and the draw of the slippage are arguments.
--
-- Not modelled: the dictionaries and texts written for the UI and for readers (`as_dict`, `snapshot`,
-- reasons, pull request bodies), the registry of agents, health and traces, since they only read or
-- format; of the execution engine the gates and the sizing before an order, the database path and the
-- publication of fills; the other services, the API and the database (api/), which are mostly I/O; the
-- tools of backtest/, and the front end.
pub mod Prelude
pub mod Float
pub mod Governance
pub mod Events
pub mod Json
pub mod Config
pub mod Agents
pub mod Aggregation
pub mod Decision
pub mod RiskGate
pub mod Backtest
pub mod Challenger
pub mod Proposal
pub mod Gitops
pub mod Grading
pub mod Learning
pub mod Counterfactual
pub mod Drift
pub mod Loop
pub mod Examples
pub mod Strategies
pub mod Replay
pub mod Promotion
pub mod CircuitBreaker
pub mod PositionMath
pub mod PaperBroker
pub mod Execution
pub mod Params
pub mod Regime
pub mod Policy
pub mod Consumer
