-- ===== src/Loop/Close/Attributed.antt =====
-- A trade that is closed right after its step.
use trading_control.Prelude.{◌≡◌, refl, sym, subst, false, Option}
use trading_control.Float.{Float}
use trading_control.Events.{over_cap}
use trading_control.Agents.{MarketView}
use trading_control.Learning.{attribute, update, sign}
use trading_control.Counterfactual.{counterfactual}
use trading_control.Loop.{Loop, Payload}
use trading_control.Loop.Step.{Position, step}
use trading_control.Loop.Step.Retained.{decision_for-step}
use trading_control.Loop.Close.{Outcome, action_text, basis_of, close_on, close_trade}

module _ {W : Type 0} ⦃f : Float W⦄ where
  -- A trade that is closed on the state that a step leaves, under the trace id of that step, with no
  -- step in between, is attributed to the breakdown of that step's decision, its regret is that of that
  -- decision's action, and the importance of the signals takes in just that attribution, if the stream
  -- keeps at least three events. The configuration stays as it was.
  pub close_trade-step :
      (l : Loop W) (m : MarketView W) (p : Position W) (o : Outcome W)
      → over_cap l.stream.max_events 3 ≡ false
      → let (opened, s) = step l m p in
        let (after, c) = close_trade opened s.trace_id o in
        (c.attribution ≡ attribute s.decision.breakdown o.realized_pnl)
        × (c.counterfactual
            ≡ counterfactual (action_text s.decision.action) o.realized_pnl_pct o.side)
        × (after.importance ≡ update l.importance c.attribution (sign o.realized_pnl))
        × (after.config ≡ l.config)
  unfolding close_trade close_on basis_of step
  close_trade-step l m p o room =
      let opened = (step l m p).0 in
      let s = (step l m p).1 in
      let Faithful : Option (Payload W) → Type 0 = λ q.
        let (after, c) = close_on opened s.trace_id o (basis_of opened o.side q) in
        (c.attribution ≡ attribute s.decision.breakdown o.realized_pnl)
        × (c.counterfactual
            ≡ counterfactual (action_text s.decision.action) o.realized_pnl_pct o.side)
        × (after.importance ≡ update l.importance c.attribution (sign o.realized_pnl))
        × (after.config ≡ l.config) in
      subst Faithful (sym (decision_for-step l m p room)) (refl, refl, refl, refl)
