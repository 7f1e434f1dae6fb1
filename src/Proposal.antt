-- ===== src/Proposal.antt =====
-- cognitive/proposal.py: typed proposals, the success rates by type, the agent that proposes a
-- weight change, and the queue of entries. Reasons and expected impacts, texts for the reader, and
-- what an entry records besides its status and verdict are left out. A value of `Any` is one of JSON.

pub mod Support
pub mod Queue
use trading_control.Prelude.{
  ℕ, zero, suc, ◌+◌, Bool, true, false, Option, none, some, List, [], ◌∷◌, ◌++◌, String, str_eq,
  any, keep, map, if◌then◌else◌,
}
use trading_control.Prelude.Dict.{Dict, get, put}
use trading_control.Prelude.Int.{pos, negsuc}
use trading_control.Float.{Float, dec, of_ℕ, min}
use trading_control.Json.{Json, num}
use trading_control.Learning.{outperforming, underperforming, Edge, Observation}
use trading_control.Config.{CognitiveConfig, weight_keys, clamp_weight}
use Prim.Native.String.{◌++◌ as str_append}

pub data ProposalType : Type 0 where
  weight_change prompt_change tool_change backtest_change risk_change feature_change : ProposalType

abbrev pub type_value : ProposalType → String
type_value weight_change = "weight_change"
type_value prompt_change = "prompt_change"
type_value tool_change = "tool_change"
type_value backtest_change = "backtest_change"
type_value risk_change = "risk_change"
type_value feature_change = "feature_change"

pub data ProposalStatus : Type 0 where
  generated backtesting awaiting_review approved rejected merged blocked : ProposalStatus

pub record Proposal (W : Type 0) : Type 0 where
  pub proposal_id : String
  pub proposal_type : ProposalType
  pub target : String
  pub old_value : Json W
  pub new_value : Json W
  pub change : Json W

pub record TypeStat : Type 0 where
  pub attempts : ℕ
  pub successes : ℕ

abbrev pub ProposalScorecard : Type 0
ProposalScorecard = Dict TypeStat

abbrev pub no_stat : TypeStat
no_stat = record { attempts = 0; successes = 0 }

pub count_in : TypeStat → Bool → TypeStat
count_in stat success = record {
  attempts = stat.attempts + 1;
  successes = if success then stat.successes + 1 else stat.successes;
}

-- `ProposalScorecard.record`
unfoldable pub record_result : ProposalScorecard → ProposalType → Bool → ProposalScorecard
unfolding get put count_in
record_result card ptype success =
    put (type_value ptype)
      (count_in (elim (get (type_value ptype) card) [ none ↦ no_stat | some stat ↦ stat ]) success)
      card

module _ {W : Type 0} ⦃f : Float W⦄ where
  open f use {add, sub, mul, div, lt, round, of_ℤ, same, show}

  unfoldable pub success_rate : ProposalScorecard → ProposalType → W
  unfolding get
  success_rate card ptype = elim (get (type_value ptype) card) [
    | none ↦ dec 50 2
    | some stat ↦ elim stat.attempts [
      | zero ↦ dec 50 2
      | suc n ↦ round 4 (div (of_ℕ stat.successes) (of_ℕ (suc n)))
    ]
  ]

  -- `Proposal.weight_change`, of two numbers
  unfoldable pub weight_proposal : String → W → W → Proposal W
  weight_proposal signal old_value new_value =
      let target = str_append "weights." signal in
      record {
        proposal_id = str_append "P-" (str_append target (str_append "-" (show new_value)));
        proposal_type = weight_change;
        target = target;
        old_value = num old_value;
        new_value = num new_value;
        change = num (round 6 (sub new_value old_value));
      }

  -- `max(candidates, key=confidence)`: the first of the largest
  unfoldable pub strongest : Observation W → List (Observation W) → Observation W
  strongest best [] = best
  strongest best (o ∷ os) = strongest (if lt best.confidence o.confidence then o else best) os

  -- `min(0.95, self.min_confidence + (1.0 - rate) * 0.3)`
  unfoldable pub required_confidence : W → W → W
  required_confidence min_confidence rate =
      min (dec 95 2) (add min_confidence (mul (sub (dec 1 0) rate) (dec 3 1)))

  -- The change that an observation asks of its weight, under a step and a success rate: the old
  -- value and the new one.
  unfoldable pub shifted : W → W → W → Edge → W × W
  shifted step rate weight direction =
      let size = mul step (add (dec 5 1) (mul (dec 5 1) rate)) in
      let old_value = round 6 weight in
      let moved : W = elim direction [
        | outperforming ↦ add old_value (mul (of_ℤ (pos 1)) size)
        | underperforming ↦ add old_value (mul (of_ℤ (negsuc 0)) size)
      ] in
      (old_value, round 4 (clamp_weight moved))

  unfoldable pub propose_for :
      W → W → CognitiveConfig W → Observation W → Option (Option (Proposal W))
  unfolding get shifted weight_proposal
  propose_for step rate config best = elim (get best.signal config.weights) [
    | none ↦ none
    | some weight ↦
        let (old_value, new_value) = shifted step rate weight best.direction in
        if same new_value old_value
        then some none
        else some (some (weight_proposal best.signal old_value new_value))
  ]

  -- The outer none is the exception of a weight that is missing, the inner none no proposal.
  unfoldable pub propose :
      W
      → W
      → List (Observation W)
      → CognitiveConfig W
      → ProposalScorecard
      → Option (Option (Proposal W))
  unfolding strongest required_confidence success_rate propose_for
  propose step min_confidence observations config card =
      elim (keep (λ (o : Observation W). any (str_eq o.signal) weight_keys) observations) [
        | [] ↦ some none
        | o ∷ os ↦
            let best = strongest o os in
            let rate = success_rate card weight_change in
            if lt best.confidence (required_confidence min_confidence rate)
            then some none
            else propose_for step rate config best
      ]
