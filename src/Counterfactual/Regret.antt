-- ===== src/Counterfactual/Regret.antt =====
-- The regret, and the action taken among the alternatives.
use trading_control.Prelude.{
  ◌≡◌, refl, ap, subst, sym, [], ◌∷◌, String, str_eq, All, arith, if◌then◌else◌, Bool-cases, inl,
  inr,
}
use trading_control.Prelude.Dict.{Dict, get_or, get}
use trading_control.Float.{Float, IsOrdered, ◌≼◌, dec}
use trading_control.Counterfactual.{best_of, counterfactual}

module _ {W : Type 0} ⦃f : Float W⦄ where
  best_of-largest :
      IsOrdered W
      → (best : String × W) (es : Dict W) → best.1 ≼ best.1
      → All (λ (e : String × W). e.1 ≼ e.1) es
      → (best.1 ≼ (best_of best es).1) × All (λ (e : String × W). e.1 ≼ (best_of best es).1) es
  unfolding best_of
  best_of-largest laws best [] h hs = (h, tt)
  best_of-largest laws best (e ∷ es) h hs = elim (Bool-cases (f.lt best.1 e.1)) [
    | inl l ↦
        let (first, rest) = best_of-largest laws e es hs.0 hs.1 in
        let same_ : best_of best (e ∷ es) ≡ best_of e es = rw (l, best_of) refl in
        subst (λ (b : String × W). (best.1 ≼ b.1) × All (λ (d : String × W). d.1 ≼ b.1) (e ∷ es))
          (sym same_) (laws.le_trans _ _ _ (laws.le_of_lt _ _ l) first, (first, rest))
    | inr l ↦
        let (first, rest) = best_of-largest laws best es h hs.1 in
        let same_ : best_of best (e ∷ es) ≡ best_of best es = rw (l, best_of) refl in
        subst (λ (b : String × W). (best.1 ≼ b.1) × All (λ (d : String × W). d.1 ≼ b.1) (e ∷ es))
          (sym same_) (first, (laws.le_trans _ _ _ (laws.le_of_not_lt _ _ h hs.0 l) first, rest))
  ]

  -- A value of the alternatives, or 0 for any other action.
  chosen_among :
      (P : W → Type 0) (action : String) (buy sell : W)
      → P buy
      → P sell
      → P (dec 0 0)
      → P (get_or action (dec 0 0) (("buy", buy) ∷ ("sell", sell) ∷ ("hold", dec 0 0) ∷ []))
  unfolding get_or get
  chosen_among P action buy sell b s h = elim (Bool-cases (str_eq "buy" action)) [
    | inl e ↦ rw (e, get_or, get) b
    | inr e ↦ elim (Bool-cases (str_eq "sell" action)) [
      | inl e' ↦ rw (e, e', get_or, get) s
      | inr e' ↦ elim (Bool-cases (str_eq "hold" action)) [
        | inl e'' ↦ rw (e, e', e'', get_or, get) h
        | inr e'' ↦ rw (e, e', e'', get_or, get) h
      ]
    ]
  ]

  regret-of_best :
      IsOrdered W
      → (best chosen : W) → chosen ≼ best
      → f.round 6 (f.sub best chosen) ≼ f.round 6 (f.sub best chosen)
      → dec 0 0 ≼ f.round 6 (f.sub best chosen)
  regret-of_best laws best chosen le num =
      subst (λ z. z ≼ f.round 6 (f.sub best chosen)) (laws.round_whole 6 0 (omega arith))
        (laws.round_mono 6 _ _ (laws.sub_nonneg chosen best le (laws.round_num 6 _ num)))

  -- For a realized return that is a number on both sides, no alternative beats the best one, and
  -- the regret, if it is a number, is not negative. The action taken on its own side is credited
  -- with exactly the rounded return that was realized. This rests on the laws of floats.
  pub regret-nonnegative :
      IsOrdered W
      → (action : String) (pnl : W) (side : String)
      → let r = counterfactual action pnl side in
        (All (λ (e : String × W). e.1 ≼ e.1) r.alternatives
          → All (λ (e : String × W). e.1 ≼ r.best_pnl_pct) r.alternatives
            × (r.chosen_pnl_pct ≼ r.best_pnl_pct)
            × (r.regret_pct ≼ r.regret_pct → dec 0 0 ≼ r.regret_pct))
        × ((counterfactual "buy" pnl "buy").chosen_pnl_pct ≡ f.round 6 pnl)
        × ((counterfactual "sell" pnl "sell").chosen_pnl_pct ≡ f.round 6 pnl)
  unfolding counterfactual get_or get
  regret-nonnegative laws action pnl side =
      let move = if str_eq side "buy" then pnl else f.neg pnl in
      let buy = f.round 6 move in
      let sell = f.round 6 (f.neg move) in
      let others : Dict W = ("sell", sell) ∷ ("hold", dec 0 0) ∷ [] in
      (
        λ nums.
            let (first, rest) = best_of-largest laws ("buy", buy) others nums.0 nums.1 in
            let best = (best_of ("buy", buy) others).1 in
            let chosen = chosen_among (λ v. v ≼ best) action buy sell first rest.0 rest.1.0 in
            ((first, rest), chosen, λ num. regret-of_best laws best _ chosen num),
        refl,
        ap (f.round 6) (laws.neg_neg pnl),
      )
