-- ===== src/Loop/Evolve/Keeping.antt =====
-- What an evolution cycle leaves alone, and what it hands out for review.
use trading_control.Prelude.{
  ℕ, ◌≡◌, refl, sym, ◌∙◌, subst, Option, none, some, List, [], ◌∷◌, String, drop, Bool-cases,
  Option-cases, inl, inr, ◌⊎◌,
}
use trading_control.Prelude.Int.{pos, ◌+ℤ◌}
use trading_control.Float.{Float, IsOrdered, dec}
use trading_control.Json.{Json}
use trading_control.Config.{CognitiveConfig}
use trading_control.Config.Bounds.{IsSafe}
use trading_control.Config.RoundTrip.{HasWeights}
use trading_control.Governance.{Reason, admit}
use trading_control.Learning.{Observation}
use trading_control.Proposal.{Proposal, propose, backtesting}
use trading_control.Proposal.Queue.{add}
use trading_control.Gitops.{Applied, raises, refused, applied, apply_proposal_to_config}
use trading_control.Gitops.Proposals.{
  Change, apply_proposal_to_config-applied, propose-apply_proposal_to_config,
}
use trading_control.Challenger.{ChallengerVerdict}
use trading_control.Backtest.WalkForward.{BacktestDelta, evaluate_proposal}
use trading_control.Events
use trading_control.Loop.{
  Loop, Market, Evolved, raised, no_proposal, governed, unmapped, judged, learn, log, draft,
  proposed, news_part, direction_of, cut_of, candidate_of,
}
use trading_control.Loop.Evolve.{settle_verdict, judge, try_proposal, govern, on_proposal, evolve}

module _ {W : Type 0} where
  -- The parts that only a merge or a closed trade changes.
  pub record Keeps (l l' : Loop W) : Type 0 where
    pub config : l'.config ≡ l.config
    pub config_proposal_id : l'.config_proposal_id ≡ l.config_proposal_id
    pub importance : l'.importance ≡ l.importance
    pub drift : l'.drift ≡ l.drift

  kept : (l : Loop W) → Keeps l l
  kept l = record { config = refl; config_proposal_id = refl; importance = refl; drift = refl }

module _ {W : Type 0} ⦃f : Float W⦄ where
  -- What the result of a cycle says of the configuration it ran on.
  abbrev pub Proper : CognitiveConfig W → Evolved W → Type 0
  Proper c raised = Unit
  Proper c no_proposal = Unit
  Proper c (governed p reason) = Unit
  Proper c (unmapped p) = ⊥
  Proper c (judged p verdict candidate requested) =
      (requested ≡ verdict.approved)
      × IsSafe candidate
      × Change c p candidate
      × (candidate.version ≡ c.version +ℤ pos 1)

  settle_verdict-Keeps :
      (str : Json W → String) (l : Loop W) (p : Proposal W) (c : CognitiveConfig W)
      (out : BacktestDelta W) (v : ChallengerVerdict W)
      → Keeps l (settle_verdict str l p c out v).0
        × ((settle_verdict str l p c out v).1 ≡ judged p v c v.approved)
  unfolding settle_verdict
  settle_verdict-Keeps str l p c out v = elim (Bool-cases v.approved) [
    | inl e ↦
        rw e (
          record { config = refl; config_proposal_id = refl; importance = refl; drift = refl },
          refl,
        )
    | inr e ↦
        rw e (
          record { config = refl; config_proposal_id = refl; importance = refl; drift = refl },
          refl,
        )
  ]

  Keeps-from :
      (l said l' : Loop W)
      → (said.config ≡ l.config)
        × (said.config_proposal_id ≡ l.config_proposal_id)
        × (said.importance ≡ l.importance)
        × (said.drift ≡ l.drift)
      → Keeps said l'
      → Keeps l l'
  Keeps-from l said l' (a, b, d, e) k = record {
    config = k.config ∙ a;
    config_proposal_id = k.config_proposal_id ∙ b;
    importance = k.importance ∙ d;
    drift = k.drift ∙ e;
  }

  pub Applied-cases :
      (a : Applied W) → (a ≡ raises) ⊎ ((a ≡ refused) ⊎ ((c : CognitiveConfig W) × (a ≡ applied c)))
  Applied-cases raises = inl refl
  Applied-cases refused = inr (inl refl)
  Applied-cases (applied c) = inr (inr (c, refl))

  -- What became of a proposal that the governor has admitted, by how it applies.
  abbrev pub Tried : Applied W → Proposal W → Evolved W → Type 0
  Tried a p r =
      (r ≡ raised)
      ⊎ (((r ≡ unmapped p) × (a ≡ refused))
          ⊎ ((c : CognitiveConfig W) × (v : ChallengerVerdict W) × (a ≡ applied c)
              × (r ≡ judged p v c v.approved)))

  judged-Tried :
      (p : Proposal W) (c : CognitiveConfig W) (r : Evolved W)
      → (r ≡ raised) ⊎ ((v : ChallengerVerdict W) × (r ≡ judged p v c v.approved))
      → Tried (applied c) p r
  judged-Tried p c r (inl e) = inl e
  judged-Tried p c r (inr (v, e)) = inr (inr (c, v, refl, e))

  -- A proposal that applies to the configuration has a proper outcome.
  Proper-of :
      (c : CognitiveConfig W) (p : Proposal W) (r : Evolved W) {d : CognitiveConfig W}
      → HasWeights c
      → apply_proposal_to_config c p ≡ applied d
      → ((reason : Reason) × (r ≡ governed p reason)) ⊎ Tried (apply_proposal_to_config c p) p r
      → Proper c r
  Proper-of c p r h a (inl (reason, e)) = subst (Proper c) (sym e) tt
  Proper-of c p r h a (inr (inl e)) = subst (Proper c) (sym e) tt
  Proper-of c p r h a (inr (inr (inl (e, no_)))) = cc (sym a ∙ no_)
  Proper-of c p r h a (inr (inr (inr (d, v, a', e)))) =
      let (safe, change, next) = apply_proposal_to_config-applied c p h a' in
      subst (Proper c) (sym e) (refl, safe, change, next)

  module _ (uniform : ℕ → ℕ → W) (str : Json W → String) (m : Market W) where
    judge-Keeps :
        (l : Loop W) (p : Proposal W) (c : CognitiveConfig W) (cut : ℕ)
        → let r = judge uniform str m l p c cut in
          Keeps l r.0
          × ((r.1 ≡ raised) ⊎ ((v : ChallengerVerdict W) × (r.1 ≡ judged p v c v.approved)))
    unfolding judge
    judge-Keeps l p c cut = elim (Option-cases (direction_of p)) [
      | inl e ↦
          rw (e, judge)
            (
              record { config = refl; config_proposal_id = refl; importance = refl; drift = refl },
              inl refl,
            )
      | inr (d, e) ↦
          let out =
            evaluate_proposal uniform (drop cut m.prices) l.config c (news_part (drop cut) m.news)
              m.slippage_seed in
          let (k, is) = settle_verdict-Keeps str _ p c out _ in
          rw (e, judge) (Keeps-from l _ _ (refl, refl, refl, refl) k, inr (_, is))
    ]

    try_proposal-Keeps :
        (l : Loop W) (p : Proposal W)
        → let r = try_proposal uniform str m l p in
          Keeps l r.0 × Tried (apply_proposal_to_config l.config p) p r.1
    unfolding try_proposal
    try_proposal-Keeps l p = elim (Applied-cases (apply_proposal_to_config l.config p)) [
      | inl e ↦
          rw (e, try_proposal)
            (
              record { config = refl; config_proposal_id = refl; importance = refl; drift = refl },
              inl refl,
            )
      | inr (inl e) ↦
          rw (e, try_proposal)
            (
              record { config = refl; config_proposal_id = refl; importance = refl; drift = refl },
              inr (inl (refl, refl)),
            )
      | inr (inr (c, e)) ↦ elim (Option-cases (cut_of m)) [
        | inl none_ ↦
            rw (e, none_, try_proposal)
              (
                record {
                  config = refl;
                  config_proposal_id = refl;
                  importance = refl;
                  drift = refl;
                },
                inl refl,
              )
        | inr (cut, some_) ↦
            let queued = record l { queue = add l.queue p backtesting } in
            let (k, tried) = judge-Keeps queued p c cut in
            rw (e, some_, try_proposal)
              (Keeps-from l queued _ (refl, refl, refl, refl) k, judged-Tried p c _ tried)
      ]
    ]

    govern-Keeps :
        (l : Loop W) (p : Proposal W)
        → let r = govern uniform str m l p in
          Keeps l r.0
          × (((reason : Reason) × (r.1 ≡ governed p reason))
              ⊎ Tried (apply_proposal_to_config l.config p) p r.1)
    unfolding govern
    govern-Keeps l p = elim (Bool-cases (admit l.governor (candidate_of str p)).1) [
      | inl e ↦
          let counted = record (log l (draft Events.proposal (proposed p) "proposal_agent" ∷ [])) {
            governor = (admit l.governor (candidate_of str p)).0;
          } in
          let (k, tried) = try_proposal-Keeps counted p in
          rw (e, govern) (Keeps-from l counted _ (refl, refl, refl, refl) k, inr tried)
      | inr e ↦
          rw (e, govern)
            (
              record { config = refl; config_proposal_id = refl; importance = refl; drift = refl },
              inl (_, refl),
            )
    ]

    on_proposal-Keeps :
        IsOrdered W
        → (l : Loop W) (os : List (Observation W)) (o : Option (Option (Proposal W)))
        → HasWeights l.config
        → IsSafe l.config
        → propose (dec 5 2) (dec 50 2) os l.config l.scorecard ≡ o
        → Keeps l (on_proposal uniform str m l o).0
          × Proper l.config (on_proposal uniform str m l o).1
    unfolding on_proposal
    on_proposal-Keeps laws l os none h s e =
        (record { config = refl; config_proposal_id = refl; importance = refl; drift = refl }, tt)
    on_proposal-Keeps laws l os (some none) h s e =
        (record { config = refl; config_proposal_id = refl; importance = refl; drift = refl }, tt)
    on_proposal-Keeps laws l os (some (some p)) h s e =
        let (k, outcome) = govern-Keeps l p in
        let (_, _, _, _, a, _) =
          propose-apply_proposal_to_config laws (dec 5 2) (dec 50 2) os l.config l.scorecard h s
            e in
        (k, Proper-of l.config p _ h a outcome)

    -- From a safe configuration that has the three weights, a cycle of evolution changes neither
    -- the configuration nor its provenance, nor what was learnt from closed trades, nor the drift
    -- series. No proposal fails to map to a configuration, and what is judged is a safe
    -- configuration of the next version that differs by the proposal's change, with a pull request
    -- exactly if the verdict approves. This rests on the laws of floats.
    pub evolve-Keeps :
        IsOrdered W
        → (l : Loop W) → HasWeights l.config
        → IsSafe l.config
        → Keeps l (evolve uniform str m l).0 × Proper l.config (evolve uniform str m l).1
    unfolding evolve
    evolve-Keeps laws l h s =
        let (k, proper) = on_proposal-Keeps laws (learn l).0 (learn l).1 _ h s refl in
        (Keeps-from l (learn l).0 _ (refl, refl, refl, refl) k, proper)
