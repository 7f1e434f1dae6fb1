-- ===== src/Loop/Evolve.antt =====
-- cognitive/loop.py: `evolve` and `merge` of `CognitiveLoop`, step by step.
use trading_control.Prelude.{
  ℕ, true, false, Option, none, some, [], ◌∷◌, String, take, drop, if◌then◌else◌,
}
use trading_control.Float.{Float, dec}
use trading_control.Json.{Json}
use trading_control.Config.{CognitiveConfig}
use trading_control.Events.{EventType, EventStream, Draft, emit, emit_all}
use trading_control.Events
use trading_control.Grading.{Card, grade_proposal, grade_config_version}
use trading_control.Proposal.{
  Proposal, approved, rejected, merged, backtesting, blocked, propose, record_result,
}
use trading_control.Proposal.Queue.{add, update}
use trading_control.Governance.{admit, record_outcome}
use trading_control.Gitops.{raises, refused, applied, last_segment, apply_proposal_to_config}
use trading_control.Backtest.WalkForward.{BacktestDelta, evaluate_proposal, walk_forward}
use trading_control.Challenger.{ChallengerVerdict, default_thresholds, review}
pub mod Keeping
pub mod Quota
use trading_control.Loop.{
  blocked_by, verdict_of, proposed, backtested, reviewed, proposal_graded, pull_request,
  version_adopted, Loop, Market, Evolved, raised, no_proposal, governed, unmapped, judged,
  news_part, draft, log, set_status, learn, attribution_supports, learning_samples, direction_of,
  cut_of, candidate_of,
}

module _ {W : Type 0} ⦃f : Float W⦄ where
  -- After the review: the records, and the pull request of an approved proposal.
  pub settle_verdict :
      (Json W → String)
      → Loop W
      → Proposal W
      → CognitiveConfig W
      → BacktestDelta W
      → ChallengerVerdict W
      → Loop W × Evolved W
  unfolding update
  settle_verdict str l p candidate out verdict =
      let card = grade_proposal out.pnl_delta out.sharpe_delta in
      let graded = log l (draft Events.grade (proposal_graded p.proposal_id card) "gitops" ∷ []) in
      let noted = record graded {
        scorecard = record_result graded.scorecard p.proposal_type verdict.approved;
        governor = record_outcome graded.governor (candidate_of str p) verdict.approved;
      } in
      let asked =
        log noted (draft Events.pr_request (pull_request noted.config candidate) "gitops" ∷ []) in
      if verdict.approved
      then (
        set_status asked p (some approved) (some (verdict_of verdict)),
        judged p verdict candidate true,
      )
      else (
        set_status noted p (some rejected) (some (verdict_of verdict)),
        judged p verdict candidate false,
      )

  module _ (uniform : ℕ → ℕ → W) (str : Json W → String) where
    -- The backtests and the review.
    pub judge : Market W → Loop W → Proposal W → CognitiveConfig W → ℕ → Loop W × Evolved W
    unfolding settle_verdict
    judge m l p candidate cut =
        let in_delta =
          evaluate_proposal uniform (take cut m.prices) l.config candidate
            (news_part (take cut) m.news) m.slippage_seed in
        let out_delta =
          evaluate_proposal uniform (drop cut m.prices) l.config candidate
            (news_part (drop cut) m.news) m.slippage_seed in
        let wf = walk_forward uniform m.prices l.config candidate m.folds m.news m.slippage_seed in
        let tested = log l (
          draft Events.backtest_result (backtested p.proposal_id in_delta out_delta wf) "gitops"
          ∷ []) in
        let signal = last_segment p.target in
        elim (direction_of p) [
          | none ↦ (tested, raised)
          | some direction ↦
              let verdict =
                review default_thresholds in_delta out_delta (learning_samples tested signal) true
                  (attribution_supports tested signal direction) wf.consistency in
              let said =
                log tested (
                  draft Events.challenger_verdict (reviewed verdict p.proposal_id) "gitops" ∷ []) in
              settle_verdict str said p candidate out_delta verdict
        ]

    -- A proposal that the governor has admitted.
    pub try_proposal : Market W → Loop W → Proposal W → Loop W × Evolved W
    unfolding judge add update
    try_proposal m l p =
        let queued = record l { queue = add l.queue p backtesting } in
        elim (apply_proposal_to_config l.config p) [
          | raises ↦ (queued, raised)
          | refused ↦ (
            set_status
                (record queued {
                  governor = record_outcome queued.governor (candidate_of str p) false;
                })
                p (some rejected) none,
            unmapped p,
          )
          | applied candidate ↦ elim (cut_of m) [
            | none ↦ (queued, raised)
            | some cut ↦ judge m queued p candidate cut
          ]
        ]

    -- A proposal of the agent, before the governor.
    pub govern : Market W → Loop W → Proposal W → Loop W × Evolved W
    unfolding try_proposal add update
    govern m l p =
        let spoken = log l (draft Events.proposal (proposed p) "proposal_agent" ∷ []) in
        let (governor, admitted, reason) = admit spoken.governor (candidate_of str p) in
        let counted = record spoken { governor = governor } in
        if admitted then try_proposal m counted p else (
          set_status (record counted { queue = add counted.queue p blocked }) p none
              (some (blocked_by reason)),
          governed p reason,
        )

    pub on_proposal : Market W → Loop W → Option (Option (Proposal W)) → Loop W × Evolved W
    unfolding govern
    on_proposal m l none = (l, raised)
    on_proposal m l (some none) = (l, no_proposal)
    on_proposal m l (some (some p)) = govern m l p

    pub evolve : Market W → Loop W → Loop W × Evolved W
    unfolding learn on_proposal
    evolve m l =
        let (learnt, observations) = learn l in
        on_proposal m learnt
          (propose (dec 5 2) (dec 50 2) observations learnt.config learnt.scorecard)

  -- `_emit_config_version`
  pub emit_config_version : Loop W → Option (Card W) → Loop W
  emit_config_version l grade =
      log l (draft Events.config_version (version_adopted l.config grade) "config_merge" ∷ [])

  pub merge : Loop W → CognitiveConfig W → W → W → Option String → Loop W
  unfolding emit_config_version update
  merge l candidate sharpe max_drawdown_pct proposal_id =
      let landed = record l {
        config = candidate;
        config_proposal_id = proposal_id;
        queue = elim proposal_id [
          | none ↦ l.queue
          | some id ↦ update l.queue id (record { status = some merged; attached = none })
        ];
      } in
      emit_config_version landed (some (grade_config_version sharpe max_drawdown_pct))
