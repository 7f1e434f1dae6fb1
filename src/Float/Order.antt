-- ===== src/Float/Order.antt =====
-- Consequences of the laws of floats.
use trading_control.Prelude.{ℕ, ◌≡◌, subst, false, Bool-cases, inl, inr, arith}
use trading_control.Float.{Float, IsOrdered, ◌≼◌, dec, minus_dec, max, min}

module _ {W : Type 0} ⦃f : Float W⦄ (laws : IsOrdered W) where
  open laws use {
    le_nums, le_trans, le_of_lt, le_of_not_lt, not_le_of_lt, le_lit, lt_lit, round_mono,
    round_whole, round_minus_one,
  }

  pub not_lt_of_le : (x y : W) → x ≼ y → f.lt y x ≡ false
  not_lt_of_le x y h = elim (Bool-cases (f.lt y x)) [ inl e ↦ cc (not_le_of_lt y x e) | inr e ↦ e ]

  pub min-le : (hi x : W) → hi ≼ hi → min hi x ≼ hi
  min-le hi x h = elim (Bool-cases (f.lt x hi)) [ inl e ↦ rw e (le_of_lt x hi e) | inr e ↦ rw e h ]

  -- Cut off on both sides a value is in range, whatever it was: NaN becomes the upper end.
  pub clamp_bounds : (lo hi x : W) → lo ≼ hi → (lo ≼ max lo (min hi x)) × (max lo (min hi x) ≼ hi)
  clamp_bounds lo hi x h =
      let (num_lo, num_hi) = le_nums lo hi h in
      let m = min hi x in
      elim (Bool-cases (f.lt lo m)) [
        | inl e ↦ rw e (le_of_lt lo m e, min-le hi x num_hi)
        | inr e ↦ rw e (num_lo, h)
      ]

  -- Rounding stays between 0 and 1, between -1 and 1, and between 0 and 100.
  pub round_unit :
      (n : ℕ) (x : W)
      → (dec 0 0 ≼ x) × (x ≼ dec 1 0)
      → (dec 0 0 ≼ f.round n x) × (f.round n x ≼ dec 1 0)
  round_unit n x h = (
    subst (λ y. y ≼ f.round n x) (round_whole n 0 (omega arith)) (round_mono n (dec 0 0) x h.0),
    subst (λ y. f.round n x ≼ y) (round_whole n 1 (omega arith)) (round_mono n x (dec 1 0) h.1),
  )

  pub round_signed_unit :
      (n : ℕ) (x : W)
      → (minus_dec 1 0 ≼ x) × (x ≼ dec 1 0)
      → (minus_dec 1 0 ≼ f.round n x) × (f.round n x ≼ dec 1 0)
  round_signed_unit n x h = (
    subst (λ y. y ≼ f.round n x) (round_minus_one n) (round_mono n (minus_dec 1 0) x h.0),
    subst (λ y. f.round n x ≼ y) (round_whole n 1 (omega arith)) (round_mono n x (dec 1 0) h.1),
  )

  pub round_percent :
      (n : ℕ) (x : W)
      → (dec 0 0 ≼ x) × (x ≼ dec 100 0)
      → (dec 0 0 ≼ f.round n x) × (f.round n x ≼ dec 100 0)
  round_percent n x h = (
    subst (λ y. y ≼ f.round n x) (round_whole n 0 (omega arith)) (round_mono n (dec 0 0) x h.0),
    subst (λ y. f.round n x ≼ y) (round_whole n 100 (omega arith)) (round_mono n x (dec 100 0) h.1),
  )
