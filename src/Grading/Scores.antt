-- ===== src/Grading/Scores.antt =====
-- The ranges of the scores, and the failing grade.
use Prim.Native.String.{◌++◌ as str_append}
use mathlib.Core.Bool.{false≢true}
use trading_control.Prelude.{
  ◌≡◌, ◌+◌, ◌^◌, ◌≤◌, ◌↔◌, refl, sym, ap, ◌∙◌, true, false, String, str_eq, arith, Bool-cases, inl,
  inr,
}
use trading_control.Prelude.Int.{ℤ, pos, pos_part, neg_part, ◌<ℤ◌}
use trading_control.Float.{Float, IsOrdered, ◌≼◌, ◌≺◌, dec, decimal}
use trading_control.Float.Order.{round_percent, clamp_bounds, not_lt_of_le}
use trading_control.Grading.{
  percent, letters, with_modifier, letter_from, letter_grade, risk_component, execution_component,
  timing_component, grade_trade, grade_proposal, grade_config_version,
}

module _ {W : Type 0} ⦃f : Float W⦄ where
  abbrev pub IsPercent : W → Type 0
  IsPercent x = (dec 0 0 ≼ x) × (x ≼ dec 100 0)

  percent-IsPercent : IsOrdered W → (x : W) → IsPercent (percent x)
  percent-IsPercent laws x =
      clamp_bounds laws _ _ x (laws.le_lit (pos 0) (decimal 100 0) (omega arith))

  fifty-IsPercent : IsOrdered W → IsPercent (dec 50 0)
  fifty-IsPercent laws = (
    laws.le_lit (pos 0) (decimal 50 0) (omega arith),
    laws.le_lit (decimal 50 0) (decimal 100 0) (omega arith),
  )

  timing-IsPercent :
      IsOrdered W
      → (side : String) (entry low high : W) → IsPercent (timing_component side entry low high)
  unfolding timing_component
  timing-IsPercent laws side entry low high = elim (Bool-cases (f.le (f.sub high low) (dec 0 0))) [
    | inl e ↦ rw e (fifty-IsPercent laws)
    | inr e ↦ rw e (percent-IsPercent laws _)
  ]

  -- The risk, execution and timing scores of a trade, the score of a proposal and that of a config
  -- version lie between 0 and 100, whatever the figures they are computed from, NaN included. This
  -- rests on the laws of floats.
  pub scores-IsPercent :
      IsOrdered W
      → (decision pnl adverse slippage : W) (side : String) (entry low high sharpe drawdown : W)
      → let c = (grade_trade decision pnl adverse slippage side entry low high).components in
        IsPercent c.risk
        × IsPercent c.execution
        × IsPercent c.timing
        × IsPercent (grade_proposal pnl sharpe).score
        × IsPercent (grade_config_version sharpe drawdown).score
  unfolding grade_trade risk_component execution_component grade_proposal grade_config_version
  scores-IsPercent laws decision pnl adverse slippage side entry low high sharpe drawdown = (
    round_percent laws 2 _ (percent-IsPercent laws _),
    round_percent laws 2 _ (percent-IsPercent laws _),
    round_percent laws 2 _ (timing-IsPercent laws side entry low high),
    round_percent laws 2 _ (percent-IsPercent laws _),
    round_percent laws 2 _ (percent-IsPercent laws _),
  )

  with_modifier-passes :
      (l : String) (d : W)
      → (str_eq l "F" ≡ false)
        × (str_eq (str_append l "+") "F" ≡ false)
        × (str_eq (str_append l "-") "F" ≡ false)
      → str_eq (with_modifier l d) "F" ≡ false
  with_modifier-passes l d h = ground arith

  -- A score of at least 60 has a letter.
  letter_from-passes : (s : W) → dec 60 0 ≼ s → str_eq (letter_from s letters) "F" ≡ false
  unfolding letter_from
  letter_from-passes s h = ground (
    arith,
    with_modifier-passes "A" (f.sub s (dec 90 0)) (refl, refl, refl),
    with_modifier-passes "B" (f.sub s (dec 80 0)) (refl, refl, refl),
    with_modifier-passes "C" (f.sub s (dec 70 0)) (refl, refl, refl),
    with_modifier-passes "D" (f.sub s (dec 60 0)) (refl, refl, refl),
  )

  module _ (laws : IsOrdered W) where
    lit_order :
        (a b : ℤ)
        → pos_part a + neg_part a ≤ 10 ^ 15
        → pos_part b + neg_part b ≤ 10 ^ 15
        → a <ℤ b
        → (f.lt (f.lit a) (f.lit b) ≡ true)
          × (f.le (f.lit b) (f.lit a) ≡ false)
          × (f.lt (f.lit b) (f.lit a) ≡ false)
    lit_order a b ha hb h =
        let l = laws.lt_lit a b ha hb h in
        (l, laws.not_le_of_lt _ _ l, not_lt_of_le laws _ _ (laws.le_of_lt _ _ l))

    not_below_hundred : (x : W) → f.lt x (dec 100 0) ≡ false → f.lt x (dec 60 0) ≡ false
    not_below_hundred x e =
        let order =
          lit_order (decimal 60 0) (decimal 100 0) (omega arith) (omega arith) (omega arith) in
        elim (Bool-cases (f.lt x (dec 60 0))) [
          | inr n ↦ n
          | inl l ↦
              let le60 = laws.le_of_lt _ _ l in
              let (num_x, num60) = laws.le_nums _ _ le60 in
              let num100 = (laws.le_nums _ _ (laws.le_of_lt _ _ order.0)).1 in
              let ge100 = laws.le_of_not_lt x (dec 100 0) num_x num100 e in
              absurd (false≢true (sym order.1 ∙ laws.le_trans _ _ _ ge100 le60))
        ]

    not_above_zero :
        (x : W) → f.lt x (dec 100 0) ≡ true → f.lt (dec 0 0) x ≡ false → f.lt x (dec 60 0) ≡ true
    not_above_zero x b e =
        let order = lit_order (pos 0) (decimal 60 0) (omega arith) (omega arith) (omega arith) in
        let (num0, num60) = laws.le_nums _ _ (laws.le_of_lt _ _ order.0) in
        let num_x = (laws.le_nums _ _ (laws.le_of_lt _ _ b)).0 in
        let le0 = laws.le_of_not_lt (dec 0 0) x num0 num_x e in
        elim (Bool-cases (f.lt x (dec 60 0))) [
          | inl l ↦ l
          | inr n ↦
              let ge60 = laws.le_of_not_lt x (dec 60 0) num_x num60 n in
              absurd (false≢true (sym order.1 ∙ laws.le_trans _ _ _ ge60 le0))
        ]

    -- Cutting off does not move a score across 60.
    lt-percent : (x : W) → f.lt (percent x) (dec 60 0) ≡ f.lt x (dec 60 0)
    lt-percent x =
        let zero_sixty =
          lit_order (pos 0) (decimal 60 0) (omega arith) (omega arith) (omega arith) in
        let sixty_hundred =
          lit_order (decimal 60 0) (decimal 100 0) (omega arith) (omega arith) (omega arith) in
        let zero_hundred =
          lit_order (pos 0) (decimal 100 0) (omega arith) (omega arith) (omega arith) in
        elim (Bool-cases (f.lt x (dec 100 0))) [
          | inr e ↦ rw (e, zero_hundred.0) (sixty_hundred.2 ∙ sym (not_below_hundred x e))
          | inl b ↦ elim (Bool-cases (f.lt (dec 0 0) x)) [
            | inl e ↦ rw (b, e) refl
            | inr e ↦ rw (b, e) (zero_sixty.0 ∙ sym (not_above_zero x b e))
          ]
        ]

    percent-num : (x : W) → f.lt (percent x) (dec 60 0) ≡ false → dec 60 0 ≼ percent x
    percent-num x h =
        let (low, high) = percent-IsPercent laws x in
        laws.le_of_not_lt _ _ (laws.le_nums _ _ low).1
          (laws.le_nums _ _ (laws.le_lit (decimal 60 0) (decimal 100 0) (omega arith))).0 h

  letter_of_failing :
      (x : W)
      → f.lt (percent x) (dec 60 0) ≡ false
      → letter_grade x ≡ "F"
      → letter_from (percent x) letters ≡ "F"
  unfolding letter_grade
  letter_of_failing x e h = rw (e, letter_grade) at h

  -- A score fails exactly when it is below 60: no score falls through all the letters. This rests
  -- on the laws of floats.
  pub letter_grade-fails : IsOrdered W → (x : W) → (letter_grade x ≡ "F") ↔ (x ≺ dec 60 0)
  unfolding letter_grade
  letter_grade-fails laws x =
      let same_ = lt-percent laws x in
      let high = percent-num laws x in
      elim (Bool-cases (f.lt (percent x) (dec 60 0))) [
        | inl e ↦ (λ _. sym same_ ∙ e, λ _. rw (e, letter_grade) refl)
        | inr e ↦ (
          λ h. absurd (
              false≢true (
                sym (letter_from-passes (percent x) (high e))
                ∙ ap (λ t. str_eq t "F") (letter_of_failing x e h))),
          λ h. absurd (false≢true (sym e ∙ (same_ ∙ h))),
        )
      ]
