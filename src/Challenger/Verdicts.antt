-- ===== src/Challenger/Verdicts.antt =====
-- What a verdict says of the evidence.
use trading_control.Prelude.{ℕ, suc, ◌≤◌, ◌≡◌, ◌≢◌, ◌↔◌, Bool, true, false, List, [], ◌∷◌, arith}
use trading_control.Float.{Float, IsOrdered, ◌≼◌, ◌≺◌, decimal, dec}
use trading_control.Float.Order.{not_lt_of_le}
use trading_control.Prelude.Int.{pos}
use trading_control.Backtest.WalkForward.{BacktestDelta}
use trading_control.Challenger.{
  Objection, approved_because, Checks, all_checks, Thresholds, checks_of, risk_score_of, reasons_of,
  review,
}

abbrev pub approvals : List Objection → ℕ
approvals [] = 0
approvals (approved_because ∷ rs) = suc (approvals rs)
approvals (_ ∷ rs) = approvals rs

reasons_of-approved :
    (c : Checks) (valid worsens : Bool)
    → all_checks c ≡ true
    → valid ≡ true
    → worsens ≡ false
    → reasons_of c valid worsens ≡ approved_because ∷ []
unfolding reasons_of
reasons_of-approved c valid worsens h v w = ground arith

reasons_of-rejected :
    (c : Checks) (valid worsens : Bool)
    → all_checks c ≡ false
    → (c.risk_impact_ok ≡ false → valid ≡ true → worsens ≡ true)
    → (reasons_of c valid worsens ≢ []) × (approvals (reasons_of c valid worsens) ≡ 0)
unfolding reasons_of
reasons_of-rejected c valid worsens h w = ground arith

module _ {W : Type 0} ⦃f : Float W⦄ where
  -- What the evidence of an approved proposal shows.
  pub record IsSound (t : Thresholds W) (out : BacktestDelta W) (n : ℕ) (consistency : W)
      : Type 0 where
    pub samples : t.min_learning_samples ≤ n
    pub candidate_trades : t.min_trades ≤ out.candidate.trades
    pub baseline_trades : t.min_trades ≤ out.baseline.trades
    pub improves : dec 0 0 ≺ out.pnl_delta
    pub drawdown : out.drawdown_delta ≼ t.drawdown_tolerance
    pub consistent : t.min_consistency ≼ consistency

  -- A proposal is approved exactly when its evidence is sound, its configuration is valid and the
  -- attribution supports it. This rests on the laws of floats.
  pub approved-review :
      IsOrdered W
      → (t : Thresholds W) (ins out : BacktestDelta W) (samples : ℕ) (valid supports : Bool)
        (consistency : W)
      → ((review t ins out samples valid supports consistency).approved ≡ true)
        ↔ (IsSound t out samples consistency × (valid ≡ true) × (supports ≡ true))
  unfolding review checks_of
  approved-review laws t ins out samples valid supports consistency =
      let zero_ = dec 0 0 in ground (arith, laws.not_le_of_lt zero_ out.pnl_delta)

  risk_score_of-all_checks :
      IsOrdered W → (c : Checks) → all_checks c ≡ true → ◌≡◌ {A = W} (risk_score_of c) (dec 0 0)
  unfolding risk_score_of
  risk_score_of-all_checks laws c h =
      let below : ◌≺◌ {W = W} (dec 0 0) (dec 1 0) =
        laws.lt_lit (pos 0) (decimal 1 0) (omega arith) (omega arith) (omega arith) in
      ground (arith, below, laws.round_whole 4 0 (omega arith))

  -- An approved proposal has the risk score 0, and the approval as its only reason. If the drawdown
  -- and its tolerance are numbers, a rejected proposal has a reason, and no approval among them.
  -- This rests on the laws of floats.
  pub reasons-review :
      IsOrdered W
      → (t : Thresholds W) (ins out : BacktestDelta W) (samples : ℕ) (valid supports : Bool)
        (consistency : W)
      → let v = review t ins out samples valid supports consistency in
        (v.approved ≡ true → (v.risk_score ≡ dec 0 0) × (v.reasons ≡ approved_because ∷ []))
        × (v.approved ≡ false
            → out.drawdown_delta ≼ out.drawdown_delta
            → t.drawdown_tolerance ≼ t.drawdown_tolerance
            → (v.reasons ≢ []) × (approvals v.reasons ≡ 0))
  unfolding review checks_of
  reasons-review laws t ins out samples valid supports consistency =
      let c = checks_of t ins out samples valid supports consistency in
      let worsens = f.lt t.drawdown_tolerance out.drawdown_delta in
      let within = not_lt_of_le laws out.drawdown_delta t.drawdown_tolerance in
      let beyond = laws.le_of_not_lt t.drawdown_tolerance out.drawdown_delta in
      (
        λ h. (
          risk_score_of-all_checks laws c h,
          reasons_of-approved c valid worsens h (ground arith) (ground arith),
        ),
        λ h num num'. reasons_of-rejected c valid worsens h (ground arith),
      )
