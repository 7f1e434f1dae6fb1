-- ===== src/Backtest/Trades.antt =====
-- The bookkeeping of a backtest.
use trading_control.Prelude.{
  ℕ, ◌+◌, ◌*◌, ◌≤◌, ◌≡◌, inl, inr, refl, true, false, Option, List, [], ◌∷◌, ◌++◌, arith, length,
  length-snoc, Bool-cases, if◌then◌else◌,
}
use trading_control.Float.{Float}
use trading_control.Config.{CognitiveConfig}
use trading_control.RiskGate.{is_trade}
use trading_control.Decision.{Action, buy, sell, hold}
use trading_control.Backtest.{
  Direction, short, flat, long, opposite, target, same_direction, times, Book, opening, view_at,
  news_at, decision_at, fill, close, enter, bar, bars, close_out,
}

abbrev pub open_positions : Direction → ℕ
open_positions flat = 0
open_positions short = 1
open_positions long = 1

module _ {W : Type 0} where
  -- Every position was opened on a signal and drew one slippage, and one more when it was closed.
  pub record IsBalanced (b : Book W) : Type 0 where
    pub draws : b.draws ≡ 2 * length b.trade_pnls + open_positions b.open_dir
    pub signals : length b.trade_pnls + open_positions b.open_dir ≤ b.signals
    pub losing : b.losing ≤ length b.trade_pnls

module _ {W : Type 0} ⦃f : Float W⦄ (uniform : ℕ → ℕ → W) (seed : ℕ) where
  open f use {mul, sub}

  -- What `close` counts: one trade and one draw for an open position.
  record Closed (b c : Book W) : Type 0 where
    trades : length c.trade_pnls ≡ length b.trade_pnls + open_positions b.open_dir
    draws : c.draws ≡ b.draws + open_positions b.open_dir
    losing : c.losing ≤ b.losing + open_positions b.open_dir
    signals : c.signals ≡ b.signals
    curve : length c.equity_curve ≡ length b.equity_curve

  close-Closed : (price : W) (b : Book W) → Closed b (close uniform seed price b)
  unfolding close
  close-Closed price b =
      let pnl =
        mul (times b.open_dir b.open_qty)
          (sub (fill uniform seed b.draws price (opposite b.open_dir)) b.open_price) in
      ground (arith, length-snoc b.trade_pnls pnl)

  -- What `enter` leaves of the counts.
  record Entered (dir : Direction) (b c : Book W) : Type 0 where
    trades : length c.trade_pnls ≡ length b.trade_pnls
    draws : c.draws ≡ b.draws + open_positions dir
    losing : c.losing ≡ b.losing
    signals : c.signals ≡ b.signals
    curve : length c.equity_curve ≡ length b.equity_curve
    open_dir : c.open_dir ≡ dir

  enter-Entered :
      (fraction price : W) (dir : Direction) (b : Book W)
      → Entered dir b (enter uniform seed fraction price dir b)
  unfolding enter
  enter-Entered fraction price short b = ground arith
  enter-Entered fraction price flat b = ground arith
  enter-Entered fraction price long b = ground arith

  -- The target is the open direction, or a direction that the bar's signal opens.
  target-open :
      (action : Action) (dir : Direction)
      → same_direction (target action dir) dir ≡ false
      → (open_positions (target action dir) ≡ 1) × (is_trade action ≡ true)
  target-open buy short h = (refl, refl)
  target-open buy flat h = (refl, refl)
  target-open buy long h = cc
  target-open sell short h = cc
  target-open sell flat h = (refl, refl)
  target-open sell long h = (refl, refl)
  target-open hold short h = cc
  target-open hold flat h = cc
  target-open hold long h = cc

  bar-IsBalanced :
      (fraction price : W) (action : Action) (b : Book W)
      → IsBalanced b
      → IsBalanced (bar uniform seed fraction price action b)
  unfolding bar
  bar-IsBalanced fraction price action b v =
      let counted : Book W = record b {
        signals = if is_trade action then b.signals + 1 else b.signals;
      } in
      let dir = target action b.open_dir in
      let closed = close uniform seed price counted in
      let c = close-Closed price counted in
      let e = enter-Entered fraction price dir closed in
      elim (Bool-cases (same_direction dir b.open_dir)) [
        | inl same ↦ rw same (record { draws = v.draws; signals = ground arith; losing = v.losing })
        | inr moved ↦
            let (opened, traded) = target-open action b.open_dir moved in
            rw moved (record {
              draws =
                  rw e.open_dir
                    (omega (arith, e.draws, e.trades, c.draws, c.trades, v.draws, opened));
              signals =
                  rw e.open_dir
                    (ground (arith, e.signals, e.trades, c.signals, c.trades, v.signals, opened));
              losing = omega (arith, e.losing, e.trades, c.losing, c.trades, v.losing);
            })
      ]

  bars-IsBalanced :
      (config : CognitiveConfig W) (fraction : W) (news : Option (List W)) (past prices : List W)
      (b : Book W)
      → IsBalanced b
      → IsBalanced (bars uniform seed config fraction news past prices b)
  unfolding bars
  bars-IsBalanced config fraction news past [] b v = v
  bars-IsBalanced config fraction news past (price ∷ prices) b v =
      bars-IsBalanced config fraction news (past ++ (price ∷ [])) prices _
        (bar-IsBalanced fraction price _ b v)

  -- A bar adds one point to the equity curve, and at most one signal.
  bar-counts :
      (fraction price : W) (action : Action) (b : Book W)
      → let c = bar uniform seed fraction price action b in
        (length c.equity_curve ≡ length b.equity_curve + 1) × (c.signals ≤ b.signals + 1)
  unfolding bar
  bar-counts fraction price action b =
      let counted : Book W = record b {
        signals = if is_trade action then b.signals + 1 else b.signals;
      } in
      let dir = target action b.open_dir in
      let closed = close uniform seed price counted in
      let c = close-Closed price counted in
      let e = enter-Entered fraction price dir closed in
      elim (Bool-cases (same_direction dir b.open_dir)) [
        | inl same ↦ rw (same, length-snoc) (refl, ground arith)
        | inr moved ↦
            rw (moved, length-snoc)
              (omega (arith, e.curve, c.curve), ground (arith, e.signals, c.signals))
      ]

  bars-counts :
      (config : CognitiveConfig W) (fraction : W) (news : Option (List W)) (past prices : List W)
      (b : Book W)
      → let c = bars uniform seed config fraction news past prices b in
        (length c.equity_curve ≡ length b.equity_curve + length prices)
        × (c.signals ≤ b.signals + length prices)
  unfolding bars
  bars-counts config fraction news past [] b = omega arith
  bars-counts config fraction news past (price ∷ prices) b =
      let action = decision_at config (view_at past price (news_at news (length past))) in
      let c = bar uniform seed fraction price action b in
      let first = bar-counts fraction price action b in
      let rest = bars-counts config fraction news (past ++ (price ∷ [])) prices c in
      omega (arith, first, rest)

  close_out-Closed :
      (p : W) (ps : List W) (b : Book W) → Closed b (close_out uniform seed (p ∷ ps) b)
  unfolding close_out
  close_out-Closed p [] b = close-Closed p b
  close_out-Closed p (q ∷ ps) b = close_out-Closed q ps b

  -- The book at the end of a backtest: at most one trade for each signal and one signal for each
  -- bar, no more losing trades than trades, two draws of the random source for every trade, and one
  -- point of the equity curve for every bar.
  pub final_book :
      (config : CognitiveConfig W) (news : Option (List W)) (equity fraction : W) (prices : List W)
      → let b =
          close_out uniform seed prices
            (bars uniform seed config fraction news [] prices (opening equity)) in
        (length b.trade_pnls ≤ b.signals)
        × (b.signals ≤ length prices)
        × (b.losing ≤ length b.trade_pnls)
        × (b.draws ≡ 2 * length b.trade_pnls)
        × (length b.equity_curve ≡ length prices)
  unfolding close_out
  final_book config news equity fraction [] = unfold bars in omega arith
  final_book config news equity fraction (p ∷ ps) =
      let b = bars uniform seed config fraction news [] (p ∷ ps) (opening equity) in
      let v =
        bars-IsBalanced config fraction news [] (p ∷ ps) (opening equity)
          (record { draws = omega arith; signals = omega arith; losing = omega arith }) in
      let n = bars-counts config fraction news [] (p ∷ ps) (opening equity) in
      let c = close_out-Closed p ps b in
      omega
        (arith, c.trades, c.draws, c.losing, c.signals, c.curve, v.draws, v.signals, v.losing, n)
