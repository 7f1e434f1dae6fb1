-- ===== src/Counterfactual.antt =====
-- cognitive/counterfactual.py: the regret of the action taken.
pub mod Regret
use trading_control.Prelude.{Bool, true, false, List, [], ◌∷◌, String, str_eq, if◌then◌else◌}
use trading_control.Prelude.Dict.{Dict, get_or}
use trading_control.Float.{Float, dec}

pub record CounterfactualResult (W : Type 0) : Type 0 where
  pub chosen_action : String
  pub chosen_pnl_pct : W
  pub alternatives : Dict W
  pub best_action : String
  pub best_pnl_pct : W
  pub regret_pct : W
  pub was_best : Bool

module _ {W : Type 0} ⦃f : Float W⦄ where
  open f use {sub, neg, lt, le, round}

  -- `max(alternatives, key=…)`: the first of the best
  pub best_of : String × W → Dict W → String × W
  best_of best [] = best
  best_of best (e ∷ es) = best_of (if lt best.1 e.1 then e else best) es

  pub counterfactual : String → W → String → CounterfactualResult W
  unfolding best_of get_or
  counterfactual action realized_pnl_pct side =
      let move = if str_eq side "buy" then realized_pnl_pct else neg realized_pnl_pct in
      let buy = round 6 move in
      let sell = round 6 (neg move) in
      let alternatives : Dict W = ("buy", buy) ∷ ("sell", sell) ∷ ("hold", dec 0 0) ∷ [] in
      let chosen = get_or action (dec 0 0) alternatives in
      let best = best_of ("buy", buy) (("sell", sell) ∷ ("hold", dec 0 0) ∷ []) in
      let regret = round 6 (sub best.1 chosen) in
      record {
        chosen_action = action;
        chosen_pnl_pct = chosen;
        alternatives = alternatives;
        best_action = best.0;
        best_pnl_pct = best.1;
        regret_pct = regret;
        was_best = le regret (dec 1 9);
      }
