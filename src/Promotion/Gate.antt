-- ===== src/Promotion/Gate.antt =====
-- The gate: what it takes to be approved and to be promoted, and what it changes.
use trading_control.Prelude.{
  ◌≤◌, ◌≡◌, ◌↔◌, refl, ap, Bool, true, false, ◌&&◌, none, some, List, ◌++◌, String, str_eq,
  if◌then◌else◌, ltb, Bool-cases, inl, inr, arith,
}
use trading_control.Float.{Float, dec, minus_dec}
use trading_control.Json.{Fields}
use trading_control.Replay.{ReplayMetrics, replay}
use trading_control.Strategies.{
  Status, Version, Registry, Result, ok, err, unknown_version, not_allowed, missing_key, transition,
  status, allowed, is_live, retired, Call, run, empty,
}
use trading_control.Strategies.Records.{on_top}
use trading_control.Strategies.Outcomes.{Answers, transition-run}
use trading_control.Promotion.{
  Verdict, validate, promote, evaluate, PromotionDecision, reason_if, is_empty, Regression, Reason,
}

all_clear :
    (a b c d e : Bool) (r1 r2 r3 r4 r5 : Regression)
    → (is_empty (
          reason_if a r1
          ++ (reason_if b r2 ++ (reason_if c r3 ++ (reason_if d r4 ++ reason_if e r5))))
        ≡ true)
      ↔ ((a ≡ false) × (b ≡ false) × (c ≡ false) × (d ≡ false) × (e ≡ false))
all_clear a b c d e r1 r2 r3 r4 r5 = (ground arith, ground arith)

-- What is at stake in a promotion: the version is known and the lifecycle allows the status.
abbrev pub Legal : {W : Type 0} → Registry W → String → Status → Type 0
Legal r id t = (s : Status) × (status id r ≡ some s) × (allowed s t ≡ true)

-- After a promotion that version has the new status. A version that goes live retires the one that
-- stood in production, and no other status changes.
abbrev pub Promoted : {W : Type 0} → Registry W → String → Status → Registry W → Type 0
Promoted r id t r' =
    (j : String)
    → status j r' ≡ (
        if str_eq id j
        then some t
        else if is_live t && on_top j r.live_stack
        then some retired
        else status j r)

module _ {W : Type 0} ⦃f : Float W⦄ where
  open f use {sub, lt, round}

  -- The candidate was replayed on ten trades at least, and none of the four measures is worse than the
  -- champion's by more than its tolerance.
  pub record Clears (champion candidate : ReplayMetrics W) : Type 0 where
    pub sampled : 10 ≤ candidate.trade_count
    pub sharpe :
        lt (round 4 (sub candidate.sharpe_ratio champion.sharpe_ratio)) (minus_dec 10 2) ≡ false
    pub drawdown :
        lt (round 4 (sub candidate.max_drawdown champion.max_drawdown)) (minus_dec 1 0) ≡ false
    pub false_positives :
        lt (dec 5 2) (round 4 (sub candidate.false_positive_rate champion.false_positive_rate))
        ≡ false
    pub slippage :
        lt (dec 2 0) (round 4 (sub candidate.avg_slippage_bps champion.avg_slippage_bps)) ≡ false

  approved-validate :
      (champion candidate : ReplayMetrics W)
      → ((validate champion candidate).approved ≡ true) ↔ Clears champion candidate
  unfolding validate
  approved-validate champion candidate =
      let iff = all_clear (ltb candidate.trade_count 10) _ _ _ _ _ _ _ _ _ in
      (
        (λ h.
            let (a, b, c, d, e) = iff.0 h in
            record {
              sampled = ground arith;
              sharpe = b;
              drawdown = c;
              false_positives = d;
              slippage = e;
            }),
        (λ h.
            iff.1 (ground (arith, h.sampled), h.sharpe, h.drawdown, h.false_positives, h.slippage)),
      )

  -- What is told of an outcome of `promote`.
  abbrev Tells : Registry W → String → Status → Verdict W → Registry W × Bool × Reason → Type 0
  Tells r id t verdict out =
      ((out.1 ≡ true) ↔ ((verdict.approved ≡ true) × Legal r id t))
      × (out.1 ≡ false → out.0 ≡ r)
      × (out.1 ≡ true → Promoted r id t out.0)

  blocked-Tells :
      (r : Registry W) (id : String) (t : Status) (verdict : Verdict W) (reason : Reason)
      → (Legal r id t → ⊥)
      → Tells r id t verdict (r, false, reason)
  blocked-Tells r id t verdict reason illegal =
      (((λ k. cc), (λ k. absurd (illegal k.1))), (λ k. refl), (λ k. cc))

  unknown-illegal :
      (r : Registry W) (id : String) (t : Status) → status id r ≡ none → Legal r id t → ⊥
  unknown-illegal r id t h (s, g, a) = cc

  refused-illegal :
      (r : Registry W) (id : String) (t s : Status)
      → status id r ≡ some s
      → allowed s t ≡ false
      → Legal r id t
      → ⊥
  refused-illegal r id t s g a (s', g', a') =
      let same : s ≡ s' = cc in cc (ap (λ x. allowed x t) same)

  promote_lem :
      (id : String) (t : Status) (now later : W) (r : Registry W) (verdict : Verdict W)
      (res : Result (Registry W × Version W))
      → Answers r id t res
      → transition id t now later r ≡ res
      → verdict.approved ≡ true
      → (out : Registry W × Bool × Reason) × (promote id t now later r verdict ≡ some out)
        × Tells r id t verdict out
  unfolding promote
  promote_lem id t now later r verdict (ok (r', v)) (legal, named, statuses) h p = (
    (r', true, Reason.promoted t),
    rw (p, h, promote) refl,
    (((λ k. (p, legal)), (λ k. refl)), (λ k. cc), (λ k. statuses)),
  )
  promote_lem id t now later r verdict (err unknown_version) a h p = (
    (r, false, Reason.blocked unknown_version),
    rw (p, h, promote) refl,
    blocked-Tells r id t verdict (Reason.blocked unknown_version) (unknown-illegal r id t a),
  )
  promote_lem id t now later r verdict (err not_allowed) (s, g, a) h p = (
    (r, false, Reason.blocked not_allowed),
    rw (p, h, promote) refl,
    blocked-Tells r id t verdict (Reason.blocked not_allowed) (refused-illegal r id t s g a),
  )
  promote_lem id t now later r verdict (err missing_key) a h p = absurd a

  promote_rejected :
      (id : String) (t : Status) (now later : W) (r : Registry W) (verdict : Verdict W)
      → verdict.approved ≡ false
      → (out : Registry W × Bool × Reason) × (promote id t now later r verdict ≡ some out)
        × Tells r id t verdict out
  unfolding promote
  promote_rejected id t now later r verdict p = (
    (r, false, Reason.rejected verdict.reasons),
    rw (p, promote) refl,
    (((λ k. cc), (λ k. cc (k.0))), (λ k. refl), (λ k. cc)),
  )

  -- In every run of the registry, if both sets of trades can be read: the gate returns a decision. It
  -- approves exactly if the candidate was replayed on at least ten trades and is not worse than the
  -- champion on any of the four measures by more than its tolerance. It promotes exactly if it
  -- approves, the version is known and the lifecycle allows the status; the version then has that
  -- status, one that goes live retires the version in production, and no other status changes. If it
  -- does not promote, the registry is as it was.
  pub evaluate-run :
      (hash : Fields W → String) (cs : List (Call W)) (id : String) (t : Status) (now later : W)
      (champion_trades candidate_trades : List (Fields W)) (champion candidate : ReplayMetrics W)
      → replay champion_trades ≡ some champion
      → replay candidate_trades ≡ some candidate
      → let r = run hash empty cs in
        (out : Registry W × PromotionDecision W) × (evaluate id champion_trades candidate_trades t
            now later r
          ≡ some out)
        × ((out.1.approved ≡ true) ↔ Clears champion candidate)
        × ((out.1.transitioned ≡ true) ↔ ((out.1.approved ≡ true) × Legal r id t))
        × (out.1.transitioned ≡ false → out.0 ≡ r)
        × (out.1.transitioned ≡ true → Promoted r id t out.0)
  unfolding evaluate
  evaluate-run hash cs id t now later champion_trades candidate_trades champion candidate h k =
      let r = run hash empty cs in
      let verdict = validate champion candidate in
      let answers = transition-run hash cs id t now later in
      let p : (out : Registry W × Bool × Reason) × (promote id t now later r verdict ≡ some out)
          × Tells r id t verdict out =
        elim (Bool-cases verdict.approved) [
          | inl yes' ↦
              promote_lem id t now later r verdict (transition id t now later r) answers refl yes'
          | inr no' ↦ promote_rejected id t now later r verdict no'
        ] in
      let (out, done, tells) = p in
      (
        (
          out.0,
          record {
            version_id = id;
            to_status = t;
            approved = verdict.approved;
            transitioned = out.1;
            reason = out.2;
            champion = champion;
            candidate = candidate;
            verdict = verdict;
          },
        ),
        rw (h, k, done, evaluate) refl,
        approved-validate champion candidate,
        tells.0,
        tells.1,
        tells.2,
      )
