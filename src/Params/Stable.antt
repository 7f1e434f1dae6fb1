-- ===== src/Params/Stable.antt =====
-- A value that is validated and coerced validates again, and is coerced to itself.
use trading_control.Prelude.{
  ◌≡◌, refl, sym, subst, Bool, true, false, some, Bool-cases, inl, inr, arith, ◌&&◌,
}
use trading_control.Prelude.Int.{ℤ}
use trading_control.Float.{Float, IsOrdered, IsTruncating, ◌≼◌}
use trading_control.Json.{Json, int, num, to_float}
use trading_control.Params.{
  fine, in_bounds, is_whole, is_integer, coerce, check_value, is_bool_or_none, overflowing,
}
use trading_control.Params.Bounded.{is_integer-truncate}

both-true : (a b : Bool) → a ≡ true → b ≡ true → (a && b) ≡ true
both-true a b h k = rw (h, k) refl

module _ {W : Type 0} ⦃f : Float W⦄ (laws : IsOrdered W) (whole : IsTruncating W) where
  coerce-int :
      (bounds : W × W) (x : W) (n : ℤ)
      → is_whole bounds ≡ true
      → f.truncate x ≡ some n
      → coerce bounds x ≡ int n
  unfolding coerce
  coerce-int bounds x n b t = rw (b, t) refl

  coerce-num : (bounds : W × W) (x : W) → is_whole bounds ≡ false → coerce bounds x ≡ num x
  unfolding coerce
  coerce-num bounds x b = rw b refl

  check-fine :
      (bounds : W × W) (v : Json W) (x : W)
      → is_bool_or_none v ≡ false
      → overflowing v ≡ false
      → to_float v ≡ some x
      → in_bounds bounds x ≡ true
      → check_value bounds v ≡ fine
  unfolding check_value
  check-fine bounds v x b o t i = rw (b, o, t, check_value, i) refl

  -- A value that is validated and coerced validates again, and is coerced to itself.
  abbrev pub Stable : W × W → Json W → Type 0
  Stable bounds v =
      (check_value bounds v ≡ fine) × ((y : W) × (to_float v ≡ some y) × (coerce bounds y ≡ v))

  int-Stable :
      (bounds : W × W) (x : W) (n : ℤ)
      → is_whole bounds ≡ true
      → f.truncate x ≡ some n
      → in_bounds bounds (f.of_ℤ n) ≡ true
      → Stable bounds (int n)
  unfolding is_bool_or_none overflowing to_float
  int-Stable bounds x n b t i =
      let o = whole.overflows-truncate x n t in
      let read : to_float (int n) ≡ some (f.of_ℤ n) = rw o refl in
      (
        check-fine bounds (int n) (f.of_ℤ n) refl o read i,
        (f.of_ℤ n, read, coerce-int bounds (f.of_ℤ n) n b (whole.truncate-of_ℤ x n t)),
      )

  num-Stable :
      (bounds : W × W) (x : W)
      → is_whole bounds ≡ false
      → in_bounds bounds x ≡ true
      → Stable bounds (num x)
  unfolding is_bool_or_none overflowing to_float
  num-Stable bounds x b i =
      (check-fine bounds (num x) x refl refl refl i, (x, refl, coerce-num bounds x b))

  pub coerce-Stable :
      (bounds : W × W) (x : W) → in_bounds bounds x ≡ true → Stable bounds (coerce bounds x)
  unfolding is_whole in_bounds to_float
  coerce-Stable (lo, hi) x h = elim (Bool-cases (is_integer lo && is_integer hi)) [
    | inr part ↦
        subst (Stable (lo, hi)) (sym (coerce-num (lo, hi) x part)) (num-Stable (lo, hi) x part h)
    | inl both ↦
        let (a, ta, sa) = is_integer-truncate lo (ground arith) in
        let (c, tc, sc) = is_integer-truncate hi (ground arith) in
        let low : lo ≼ x = ground arith in
        let high : x ≼ hi = ground arith in
        let (b, tb, ab, bc) = whole.truncate_between lo x hi a c low high ta tc in
        let lo' = laws.le_trans lo (f.of_ℤ a) (f.of_ℤ b) (whole.le_of_same (f.of_ℤ a) lo sa).1 ab in
        let hi' = laws.le_trans (f.of_ℤ b) (f.of_ℤ c) hi bc (whole.le_of_same (f.of_ℤ c) hi sc).0 in
        subst (Stable (lo, hi)) (sym (coerce-int (lo, hi) x b both tb)) (
          int-Stable (lo, hi) x b both tb
            (both-true (f.le lo (f.of_ℤ b)) (f.le (f.of_ℤ b) hi) lo' hi'))
  ]
