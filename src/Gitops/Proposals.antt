-- ===== src/Gitops/Proposals.antt =====
-- A proposal's way into the configuration.
use Prim.Native.String.{◌++◌ as str_append}
use trading_control.Prelude.{◌≡◌, refl, ap, ◌∙◌, true, some, List, String, str_eq, any, inl, inr}
use trading_control.Prelude.Int.{pos, ◌+ℤ◌}
use trading_control.Float.{Float, IsOrdered}
use trading_control.Json.{num, to_float}
use trading_control.Config.{CognitiveConfig, weight_keys, clamp_weight, to_dict}
use trading_control.Config.Bounds.{IsSafe}
use trading_control.Config.RoundTrip.{HasWeights}
use trading_control.Learning.{Observation}
use trading_control.Proposal.{
  Proposal, ProposalType, weight_change, risk_change, prompt_change, tool_change, backtest_change,
  feature_change, ProposalScorecard, weight_proposal, shifted, success_rate, propose,
}
use trading_control.Proposal.Support.{propose-Support}
use trading_control.Gitops.{
  applied, after_dot, last_segment, is_in, apply_weight, apply_proposal_to_config,
}
use trading_control.Gitops.Changes.{
  with_weight, with_risk, known_key, apply_weight-applied, apply_risk-applied, apply_weight-IsSafe,
}

signal_of_target :
    (k : String) → any (str_eq k) weight_keys ≡ true → last_segment (str_append "weights." k) ≡ k
unfolding last_segment after_dot
signal_of_target k h = elim (known_key k h) [
  | inl e ↦ rw e refl
  | inr (inl e) ↦ rw e refl
  | inr (inr e) ↦ rw e refl
]

module _ {W : Type 0} ⦃f : Float W⦄ where
  -- The change that a proposal makes: one weight, cut off to its bounds, or one risk limit.
  pub data Change (c : CognitiveConfig W) (p : Proposal W) (c' : CognitiveConfig W) : Type 0 where
    weight :
        (x : W)
        → p.proposal_type ≡ weight_change
        → any (str_eq (last_segment p.target)) weight_keys ≡ true
        → to_float p.new_value ≡ some x
        → c' ≡ with_weight (last_segment p.target) (clamp_weight x) c
        → Change c p c'
    risk :
        (x : W)
        → p.proposal_type ≡ risk_change
        → is_in "risk" (last_segment p.target) (to_dict c) ≡ true
        → to_float p.new_value ≡ some x
        → c' ≡ with_risk (last_segment p.target) x c
        → Change c p c'

  applied-of_type :
      (t : ProposalType) (c : CognitiveConfig W) (p : Proposal W) {c' : CognitiveConfig W}
      → p.proposal_type ≡ t
      → HasWeights c
      → apply_proposal_to_config c p ≡ applied c'
      → IsSafe c' × Change c p c' × (c'.version ≡ c.version +ℤ pos 1)
  unfolding apply_proposal_to_config
  applied-of_type weight_change c p e h a =
      let (x, known, m, is, s) =
        apply_weight-applied c (last_segment p.target) p.new_value h
          (rw (e, apply_proposal_to_config) at a) in
      (s, weight x e known m is, ap (λ (d : CognitiveConfig W). d.version) is)
  applied-of_type risk_change c p e h a =
      let (x, known, m, is, s) =
        apply_risk-applied c (last_segment p.target) p.new_value h
          (rw (e, apply_proposal_to_config) at a) in
      (s, risk x e known m is, ap (λ (d : CognitiveConfig W). d.version) is)
  applied-of_type prompt_change c p e h a = let a' = rw (e, apply_proposal_to_config) at a in cc a'
  applied-of_type tool_change c p e h a = let a' = rw (e, apply_proposal_to_config) at a in cc a'
  applied-of_type backtest_change c p e h a =
      let a' = rw (e, apply_proposal_to_config) at a in cc a'
  applied-of_type feature_change c p e h a = let a' = rw (e, apply_proposal_to_config) at a in cc a'

  -- If a configuration has the three weights, a proposal that is applied to it has changed one
  -- weight or one risk limit, the one its target names, to the value it proposes, a weight cut off
  -- to its bounds, and raised the version by one. The outcome is within all bounds, whether the
  -- configuration before was or not.
  pub apply_proposal_to_config-applied :
      (c : CognitiveConfig W) (p : Proposal W) {c' : CognitiveConfig W}
      → HasWeights c
      → apply_proposal_to_config c p ≡ applied c'
      → IsSafe c' × Change c p c' × (c'.version ≡ c.version +ℤ pos 1)
  apply_proposal_to_config-applied c p h a = applied-of_type p.proposal_type c p refl h a

  pub apply-weight_proposal :
      (c : CognitiveConfig W) (k : String) (old_value x : W)
      → any (str_eq k) weight_keys ≡ true
      → apply_proposal_to_config c (weight_proposal k old_value x) ≡ apply_weight c k (num x)
  unfolding weight_proposal apply_proposal_to_config
  apply-weight_proposal c k old_value x known = rw (signal_of_target k known) refl

  -- Every proposal of the agent is applied to a safe configuration that has the three weights: it
  -- yields a safe configuration of the next version, in which one weight is the proposed one, cut
  -- off to its bounds, and nothing else is changed. This rests on the laws of floats.
  pub propose-apply_proposal_to_config :
      IsOrdered W
      → (step min_confidence : W) (os : List (Observation W)) (c : CognitiveConfig W)
        (card : ProposalScorecard) {p : Proposal W}
      → HasWeights c
      → IsSafe c
      → propose step min_confidence os c card ≡ some (some p)
      → (signal : String) × (x : W) × (any (str_eq signal) weight_keys ≡ true)
        × (p.new_value ≡ num x)
        × (apply_proposal_to_config c p ≡ applied (with_weight signal (clamp_weight x) c))
        × IsSafe (with_weight signal (clamp_weight x) c)
  unfolding weight_proposal
  propose-apply_proposal_to_config laws step min_confidence os c card h safe pr =
      let (s, _) = propose-Support laws step min_confidence os c card pr in
      let (is, _, _) = s.change in
      let k = s.best.signal in
      let x = (shifted step (success_rate card weight_change) s.weight s.best.direction).1 in
      let (a, safe') =
        apply_weight-IsSafe laws c k (num x) x h safe s.known (unfold to_float in refl) in
      (
        k,
        x,
        s.known,
        ap (λ (q : Proposal W). q.new_value) is ∙ refl,
        ap (apply_proposal_to_config c) is ∙ (apply-weight_proposal c k _ x s.known ∙ a),
        safe',
      )
