-- ===== src/Loop/Evolve/Quota.antt =====
-- How often a loop judges a proposal.
use trading_control.Prelude.{
  ℕ, ◌+◌, ◌≤◌, ◌≡◌, ◌⊎◌, refl, sym, ap, ◌∙◌, subst, Bool, true, false, Option, none, some, List, [],
  ◌∷◌, ◌++◌, String, arith, Bool-cases, Option-cases, inl, inr, drop,
}
use trading_control.Float.{Float}
use trading_control.Json.{Json}
use trading_control.Config.{CognitiveConfig}
use trading_control.Governance.{
  Governor, Candidate, Call, propose, outcome, admit, record_outcome, call, run, proposals,
  admissions,
}
use trading_control.Governance.Invariant.{IsValid}
use trading_control.Governance.Window.{admissions-le-quota}
use trading_control.Proposal.{Proposal, backtesting}
use trading_control.Proposal.Queue.{add}
use trading_control.Gitops.{apply_proposal_to_config}
use trading_control.Challenger.{ChallengerVerdict}
use trading_control.Backtest.WalkForward.{BacktestDelta, evaluate_proposal}
use trading_control.Events
use trading_control.Loop.{
  Loop, Market, Evolved, raised, no_proposal, governed, unmapped, judged, news_part, log, draft,
  proposed, learn, direction_of, cut_of, candidate_of,
}
use trading_control.Loop.Evolve.{settle_verdict, judge, try_proposal, govern, on_proposal, evolve}
use trading_control.Loop.Evolve.Keeping.{Applied-cases}

-- 1 for a cycle whose proposal was judged, and 0 for any other.
abbrev pub judged_in : {W : Type 0} → Evolved W → ℕ
judged_in raised = 0
judged_in no_proposal = 0
judged_in (governed p r) = 0
judged_in (unmapped p) = 0
judged_in (judged p v c requested) = 1

judged_in-le-one : {W : Type 0} (r : Evolved W) → judged_in r ≤ 1
judged_in-le-one raised = omega arith
judged_in-le-one no_proposal = omega arith
judged_in-le-one (governed p r) = omega arith
judged_in-le-one (unmapped p) = omega arith
judged_in-le-one (judged p v c requested) = omega arith

-- The governor after the outcome of a proposal was recorded, or not.
abbrev Recorded : Candidate → Governor → Governor → Type 0
Recorded p g g' = (g' ≡ g) ⊎ ((b : Bool) × (g' ≡ record_outcome g p b))

-- The calls that lead from one governor to another: at most `n` proposals, at least `k` admissions.
record CallsOf (g g' : Governor) (n k : ℕ) : Type 0 where
  calls : List Call
  runs : g' ≡ run g calls
  few : proposals calls ≤ n
  admits : k ≤ admissions g calls

run-append : (g : Governor) (cs ds : List Call) → run g (cs ++ ds) ≡ run (run g cs) ds
unfolding run
run-append g [] ds = refl
run-append g (c ∷ cs) ds = run-append (call g c) cs ds

proposals-append : (cs ds : List Call) → proposals (cs ++ ds) ≡ proposals cs + proposals ds
proposals-append [] ds = omega arith
proposals-append (propose p ∷ cs) ds = omega (arith, proposals-append cs ds)
proposals-append (outcome p b ∷ cs) ds = proposals-append cs ds

admissions-append :
    (g : Governor) (cs ds : List Call)
    → admissions g (cs ++ ds) ≡ admissions g cs + admissions (run g cs) ds
unfolding admissions run call
admissions-append g [] ds = omega arith
admissions-append g (propose p ∷ cs) ds = omega (arith, admissions-append (admit g p).0 cs ds)
admissions-append g (outcome p b ∷ cs) ds = admissions-append (record_outcome g p b) cs ds

CallsOf-append :
    (g g1 g2 : Governor) (n k m j : ℕ)
    → CallsOf g g1 n k
    → CallsOf g1 g2 m j
    → CallsOf g g2 (n + m) (k + j)
CallsOf-append g g1 g2 n k m j c d =
    let later : j ≤ admissions (run g c.calls) d.calls =
      subst (λ h. j ≤ admissions h d.calls) c.runs d.admits in
    record {
      calls = c.calls ++ d.calls;
      runs = d.runs ∙ (ap (λ h. run h d.calls) c.runs ∙ sym (run-append g c.calls d.calls));
      few = omega (arith, proposals-append c.calls d.calls, c.few, d.few);
      admits = omega (arith, admissions-append g c.calls d.calls, c.admits, later);
    }

admitted-CallsOf :
    (g g' : Governor) (p : Candidate) (n : ℕ)
    → (admit g p).1 ≡ true
    → Recorded p (admit g p).0 g'
    → n ≤ 1
    → CallsOf g g' 1 n
unfolding run call admissions
admitted-CallsOf g g' p n ok (inl e) h = record {
  calls = propose p ∷ [];
  runs = e;
  few = omega arith;
  admits = rw ok (omega arith);
}
admitted-CallsOf g g' p n ok (inr (b, e)) h = record {
  calls = propose p ∷ outcome p b ∷ [];
  runs = e;
  few = omega arith;
  admits = rw ok (omega arith);
}

refused-CallsOf : (g : Governor) (p : Candidate) → CallsOf g (admit g p).0 1 0
unfolding run call
refused-CallsOf g p = record {
  calls = propose p ∷ [];
  runs = refl;
  few = omega arith;
  admits = omega arith;
}

idle-CallsOf : (g : Governor) → CallsOf g g 1 0
unfolding run
idle-CallsOf g = record { calls = []; runs = refl; few = omega arith; admits = omega arith }

module _ {W : Type 0} ⦃f : Float W⦄ where
  settle_verdict-governor :
      (str : Json W → String) (l : Loop W) (p : Proposal W) (c : CognitiveConfig W)
      (out : BacktestDelta W) (v : ChallengerVerdict W)
      → (settle_verdict str l p c out v).0.governor
        ≡ record_outcome l.governor (candidate_of str p) v.approved
  unfolding settle_verdict
  settle_verdict-governor str l p c out v = elim (Bool-cases v.approved) [
    | inl e ↦ rw e refl
    | inr e ↦ rw e refl
  ]

  module _ (uniform : ℕ → ℕ → W) (str : Json W → String) (m : Market W) where
    judge-Recorded :
        (l : Loop W) (p : Proposal W) (c : CognitiveConfig W) (cut : ℕ)
        → Recorded (candidate_of str p) l.governor (judge uniform str m l p c cut).0.governor
    unfolding judge
    judge-Recorded l p c cut = elim (Option-cases (direction_of p)) [
      | inl e ↦ rw (e, judge) (inl refl)
      | inr (d, e) ↦
          let out =
            evaluate_proposal uniform (drop cut m.prices) l.config c (news_part (drop cut) m.news)
              m.slippage_seed in
          rw (e, judge) (inr (_, settle_verdict-governor str _ p c out _))
    ]

    try_proposal-Recorded :
        (l : Loop W) (p : Proposal W)
        → Recorded (candidate_of str p) l.governor (try_proposal uniform str m l p).0.governor
    unfolding try_proposal
    try_proposal-Recorded l p = elim (Applied-cases (apply_proposal_to_config l.config p)) [
      | inl e ↦ rw (e, try_proposal) (inl refl)
      | inr (inl e) ↦ rw (e, try_proposal) (inr (false, refl))
      | inr (inr (c, e)) ↦ elim (Option-cases (cut_of m)) [
        | inl none_ ↦ rw (e, none_, try_proposal) (inl refl)
        | inr (cut, some_) ↦
            rw (e, some_, try_proposal)
              (judge-Recorded (record l { queue = add l.queue p backtesting }) p c cut)
      ]
    ]

    govern-CallsOf :
        (l : Loop W) (p : Proposal W)
        → let r = govern uniform str m l p in CallsOf l.governor r.0.governor 1 (judged_in r.1)
    unfolding govern
    govern-CallsOf l p = elim (Bool-cases (admit l.governor (candidate_of str p)).1) [
      | inl e ↦
          let counted = record (log l (draft Events.proposal (proposed p) "proposal_agent" ∷ [])) {
            governor = (admit l.governor (candidate_of str p)).0;
          } in
          rw (e, govern)
            (admitted-CallsOf l.governor _ (candidate_of str p) _ e
              (try_proposal-Recorded counted p) (judged_in-le-one _))
      | inr e ↦ rw (e, govern) (refused-CallsOf l.governor (candidate_of str p))
    ]

    on_proposal-CallsOf :
        (l : Loop W) (o : Option (Option (Proposal W)))
        → let r = on_proposal uniform str m l o in CallsOf l.governor r.0.governor 1 (judged_in r.1)
    unfolding on_proposal
    on_proposal-CallsOf l none = idle-CallsOf l.governor
    on_proposal-CallsOf l (some none) = idle-CallsOf l.governor
    on_proposal-CallsOf l (some (some p)) = govern-CallsOf l p

    evolve-CallsOf :
        (l : Loop W)
        → let r = evolve uniform str m l in CallsOf l.governor r.0.governor 1 (judged_in r.1)
    unfolding evolve
    evolve-CallsOf l = on_proposal-CallsOf (learn l).0 _

  -- A loop on its way: cycles of evolution, and between them anything that leaves the governor
  -- alone, as merges, steps and closed trades do. It counts the cycles, and those that judged.
  pub data Cycles (uniform : ℕ → ℕ → W) (str : Json W → String) (l : Loop W)
      : ℕ → ℕ → Loop W → Type 0 where
    start : Cycles uniform str l 0 0 l
    other :
        {n k : ℕ} {l1 : Loop W} (l2 : Loop W)
        → l2.governor ≡ l1.governor
        → Cycles uniform str l n k l1
        → Cycles uniform str l n k l2
    cycle :
        {n k : ℕ} {l1 : Loop W} (m : Market W)
        → Cycles uniform str l n k l1
        → Cycles uniform str l
            (n + 1)
            (k + judged_in (evolve uniform str m l1).1)
            (evolve uniform str m l1).0

  Cycles-CallsOf :
      {uniform : ℕ → ℕ → W} {str : Json W → String} {l : Loop W} {n k : ℕ} {l' : Loop W}
      → Cycles uniform str l n k l'
      → CallsOf l.governor l'.governor n k
  Cycles-CallsOf start = record {
    calls = [];
    runs = unfold run in refl;
    few = omega arith;
    admits = omega arith;
  }
  Cycles-CallsOf {l = l} {n = n} {k = k} (other l2 e c) =
      subst (λ g. CallsOf l.governor g n k) (sym e) (Cycles-CallsOf c)
  Cycles-CallsOf {uniform = uniform} {str = str} (cycle {l1 = l1} m c) =
      CallsOf-append _ l1.governor _ _ _ 1 _ (Cycles-CallsOf c) (evolve-CallsOf uniform str m l1)

  -- From a well-formed governor, over any stretch of at most `window` cycles of evolution, whatever
  -- happens between them that leaves the governor alone, at most `quota` proposals are backtested
  -- and reviewed.
  pub Cycles-le-quota :
      (uniform : ℕ → ℕ → W) (str : Json W → String) (l : Loop W) (n k : ℕ) (l' : Loop W)
      → IsValid l.governor
      → Cycles uniform str l n k l'
      → n ≤ l.governor.window
      → k ≤ l.governor.quota
  Cycles-le-quota uniform str l n k l' v c h =
      let past = Cycles-CallsOf c in
      let bound = admissions-le-quota l.governor past.calls v (omega (arith, past.few, h)) in
      omega (arith, past.admits, bound)
