-- ===== src/Gitops.antt =====
-- cognitive/gitops.py: how an accepted proposal changes the configuration.
pub mod Changes
pub mod Proposals
use trading_control.Prelude.{
  ℕ, zero, suc, Bool, true, false, Option, none, some, List, [], ◌∷◌, String, str_eq, any, ◌==◌,
  if◌then◌else◌,
}
use trading_control.Prelude.Int.{ℤ, pos, ◌+ℤ◌}
use trading_control.Float.{Float}
use trading_control.Json.{Json, int, num, obj, Fields, end, member, with_member, to_float}
use trading_control.Config.{
  CognitiveConfig, weight_keys, clamp_weight, to_dict, from_dict, validate_config_dict,
}
use trading_control.Proposal.{Proposal, ProposalType, weight_change, risk_change}
use Prim.Native.String.{[] as empty, ◌∷◌ as char_then}
use Prim.Native.Char.{code}

pub after_dot : String → String → String
after_dot s empty = s
after_dot s (char_then c rest) = after_dot (if code c == 46 then rest else s) rest

-- `text.split(".")[-1]`: what follows the last dot
unfoldable pub last_segment : String → String
unfolding after_dot
last_segment s = after_dot s s

-- None of the source is `refused`; `raises` is an exception.
pub data Applied (W : Type 0) : Type 0 where
  raises refused : Applied W
  applied : CognitiveConfig W → Applied W

module _ {W : Type 0} where
  abbrev pub fields_of : Option (Json W) → Fields W
  fields_of (some (obj fs)) = fs
  fields_of _ = end

  -- `data[part][key] = v`, for the object `data[part]`
  unfoldable pub put_in : String → String → Json W → Fields W → Fields W
  unfolding member with_member
  put_in part key v data' =
      with_member part (obj (with_member key v (fields_of (member part data')))) data'

  -- `key in data[part]`
  unfoldable pub is_in : String → String → Fields W → Bool
  unfolding member
  is_in part key data' = elim (member key (fields_of (member part data'))) [
    | none ↦ false
    | some v ↦ true
  ]

module _ {W : Type 0} ⦃f : Float W⦄ where
  -- The next version of the changed data, if it validates.
  pub finish : ℤ → Fields W → Applied W
  unfolding with_member
  finish version data' =
      let next = with_member "version" (int (version +ℤ pos 1)) data' in
      elim (validate_config_dict (obj next)) [
        | none ↦ raises
        | some [] ↦ elim (from_dict next) [ none ↦ raises | some c ↦ applied c ]
        | some (e ∷ es) ↦ refused
      ]

  pub apply_weight : CognitiveConfig W → String → Json W → Applied W
  unfolding to_float put_in to_dict
  apply_weight c signal v =
      if any (str_eq signal) weight_keys
      then elim (to_float v) [
        | none ↦ raises
        | some x ↦ finish c.version (put_in "weights" signal (num (clamp_weight x)) (to_dict c))
      ]
      else refused

  pub apply_risk : CognitiveConfig W → String → Json W → Applied W
  unfolding to_float put_in is_in to_dict
  apply_risk c key v =
      if is_in "risk" key (to_dict c)
      then elim (to_float v) [
        | none ↦ raises
        | some x ↦ finish c.version (put_in "risk" key (num x) (to_dict c))
      ]
      else refused

  pub apply_proposal_to_config : CognitiveConfig W → Proposal W → Applied W
  apply_proposal_to_config c p =
      let target = last_segment p.target in
      elim p.proposal_type [
        | weight_change ↦ apply_weight c target p.new_value
        | risk_change ↦ apply_risk c target p.new_value
        | _ ↦ refused
      ]
