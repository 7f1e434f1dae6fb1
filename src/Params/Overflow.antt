-- ===== src/Params/Overflow.antt =====
-- When the loading of a file of overrides raises.
use trading_control.Params.Bounded.{Check-cases}
use trading_control.Prelude.Options.{some-inj}
use trading_control.Prelude.{
  ◌≡◌, refl, ap, ◌∙◌, subst, true, String, [], ◌∷◌, some, none, Bool-cases, inl, inr, str_eq, All,
  eq_iff,
}
use trading_control.Prelude.Int.{ℤ}
use trading_control.Prelude.Dict.{Dict, get, put}
use trading_control.Float.{Float}
use trading_control.Json.{Json, int, obj, Fields, end, field, member}
use trading_control.Params.{
  param_bounds, raises, coerced, check_value, validate_param_change, sanitize, load_overrides,
  overflowing, is_name,
}

param_bounds_named :
    (W : Type 0) (f : Float W)
    → All (λ (p : String × (W × W)). is_name p.0 ≡ true) (param_bounds ⦃f = f⦄)
unfolding is_name
param_bounds_named W f = (
  refl,
  (refl, (refl, (refl, (refl, (refl, (refl, (refl, (refl, (refl, (refl, (refl, tt))))))))))),
)

module _ {W : Type 0} ⦃f : Float W⦄ where
  -- The names on the allowlist are names of constants.
  named :
      (m : Dict (W × W)) (k : String) (bounds : W × W)
      → All (λ (p : String × (W × W)). is_name p.0 ≡ true) m
      → get k m ≡ some bounds
      → is_name k ≡ true
  unfolding get
  named [] k bounds all g = cc
  named ((j, b) ∷ m) k bounds all g = elim (Bool-cases (str_eq j k)) [
    | inl same ↦ subst (λ i. is_name i ≡ true) ((eq_iff j k).0 same) all.0
    | inr other ↦ named m k bounds all.1 (rw other at g)
  ]

  validate-overflow :
      (k : String) (n : ℤ) (bounds : W × W)
      → get k (param_bounds ⦃f = f⦄) ≡ some bounds
      → f.overflows n ≡ true
      → validate_param_change ⦃f = f⦄ k (int n) ≡ raises
  unfolding validate_param_change check_value overflowing
  validate-overflow k n bounds g o =
      let name = named (param_bounds ⦃f = f⦄) k bounds (param_bounds_named W f) g in
      rw (name, g, validate_param_change, o) refl

  sanitize-overflow :
      (clean : Dict (Json W)) (fs : Fields W) (k : String) (n : ℤ) (bounds : W × W)
      → member k fs ≡ some (int n)
      → get k (param_bounds ⦃f = f⦄) ≡ some bounds
      → f.overflows n ≡ true
      → sanitize clean fs ≡ none
  unfolding sanitize member
  sanitize-overflow clean end k n bounds m g o = cc
  sanitize-overflow clean (field j value rest) k n bounds m g o = elim (Bool-cases (str_eq j k)) [
    | inl same ↦
        let v : validate_param_change ⦃f = f⦄ j value ≡ raises =
          ap (λ i. validate_param_change i value) ((eq_iff j k).0 same)
          ∙ ap (validate_param_change k) (some-inj (rw same at m))
          ∙ validate-overflow k n bounds g o in
        rw (v, sanitize) refl
    | inr other ↦
        let below =
          λ (c : Dict (Json W)). sanitize-overflow c rest k n bounds (rw other at m) g o in
        elim (Check-cases (validate_param_change j value)) [
          | inl v ↦ rw (v, sanitize) (below (put j (coerced j value) clean))
          | inr (inl (r, v)) ↦ rw (v, sanitize) (below clean)
          | inr (inr v) ↦ rw (v, sanitize) refl
        ]
  ]

  -- A file that gives a parameter on the allowlist an integer too large for a float raises an
  -- `OverflowError` when it is loaded.
  pub load_overrides-overflow :
      (fs : Fields W) (k : String) (n : ℤ) (bounds : W × W)
      → member k fs ≡ some (int n)
      → get k (param_bounds ⦃f = f⦄) ≡ some bounds
      → f.overflows n ≡ true
      → load_overrides (some (obj fs)) ≡ none
  unfolding load_overrides
  load_overrides-overflow fs k n bounds m g o = sanitize-overflow [] fs k n bounds m g o
