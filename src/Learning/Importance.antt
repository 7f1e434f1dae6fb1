-- ===== src/Learning/Importance.antt =====
-- The fold of the closed trades.
use trading_control.Prelude.{
  ℕ, suc, ◌+◌, ◌≡◌, List, [], ◌∷◌, length, arith, if◌then◌else◌, Bool, ◌&&◌, not, ◌==◌,
}
use trading_control.Prelude.Int.{ℤ, pos, negsuc}
use trading_control.Float.{Float, dec}
use trading_control.Learning.{PerSignal, Attribution, SignalAcc, agrees, sign, fold_trade, update}

-- A history of closed trades: each attribution with the sign of its outcome.
abbrev pub Trades : Type 0 → Type 0
Trades W = List (Attribution W × ℤ)

module _ {W : Type 0} ⦃f : Float W⦄ where
  open f use {lt}

  pub update_all : PerSignal (SignalAcc W) → Trades W → PerSignal (SignalAcc W)
  unfolding update
  update_all accs [] = accs
  update_all accs ((a, s) ∷ ts) = update_all (update accs a s) ts

  -- The contribution is positive and the outcome a gain, or it is negative and the outcome a loss. One
  -- that is zero, or NaN, points nowhere.
  abbrev pub points_right : W → ℤ → Bool
  points_right x (pos n) = n == 1 && lt (dec 0 0) x && not (lt x (dec 0 0))
  points_right x (negsuc n) = n == 0 && lt x (dec 0 0) && not (lt (dec 0 0) x)

  agrees-points_right : (x : W) (s : ℤ) → agrees (sign x) s ≡ points_right x s
  agrees-points_right x (pos n) = ground arith
  agrees-points_right x (negsuc n) = ground arith

  -- How many trades a signal pointed the right way in, by its contributions.
  abbrev pub hits : (PerSignal W → W) → Trades W → ℕ
  hits of [] = 0
  hits of ((a, s) ∷ ts) =
      if points_right (of a.contributions) s then suc (hits of ts) else hits of ts

  -- Every closed trade counts once as a sample of each signal, and as correct for exactly the
  -- signals that pointed its way: a positive contribution with a gain, or a negative one with a loss.
  pub update_all-counts :
      (accs : PerSignal (SignalAcc W)) (ts : Trades W)
      → let r = update_all accs ts in
        ((r.news.samples ≡ accs.news.samples + length ts)
          × (r.tech.samples ≡ accs.tech.samples + length ts)
          × (r.macro.samples ≡ accs.macro.samples + length ts))
        × ((r.news.correct ≡ accs.news.correct + hits (λ (d : PerSignal W). d.news) ts)
            × (r.tech.correct ≡ accs.tech.correct + hits (λ (d : PerSignal W). d.tech) ts)
            × (r.macro.correct ≡ accs.macro.correct + hits (λ (d : PerSignal W). d.macro) ts))
  unfolding update_all update fold_trade
  update_all-counts accs [] = ground arith
  update_all-counts accs ((a, s) ∷ ts) = ground (
    arith,
    update_all-counts (update accs a s) ts,
    agrees-points_right a.contributions.news s,
    agrees-points_right a.contributions.tech s,
    agrees-points_right a.contributions.macro s,
  )
