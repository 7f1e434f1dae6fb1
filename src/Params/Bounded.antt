-- ===== src/Params/Bounded.antt =====
-- What is loaded from a file of overrides lies within the bounds.
use trading_control.Prelude.Options.{some-inj}
use trading_control.Prelude.{
  ◌≡◌, refl, sym, ap, ◌∙◌, subst, true, false, String, [], Option, some, none, Bool-cases,
  Option-cases, inl, inr, str_eq, arith, ◌≢◌, ◌&&◌, ◌⊎◌, eq_iff,
}
use trading_control.Prelude.Int.{ℤ}
use trading_control.Prelude.Dict.{Dict, get, put, get-put_same, get-put_other}
use trading_control.Float.{Float, IsOrdered, IsTruncating, ◌≼◌}
use trading_control.Json.{Json, int, num, obj, Fields, end, field, to_float, null, bool, text, arr}
use trading_control.Params.{
  param_bounds, Check, fine, refused, raises, in_bounds, is_whole, coerce, coerced, check_value,
  validate_param_change, sanitize, sanitize_overrides, load_overrides, is_integer, is_bool_or_none,
  overflowing, is_name, Refusal,
}

refused-ne-fine : {r : Refusal} → refused r ≢ fine
refused-ne-fine h = cc

raises-ne-fine : raises ≢ fine
raises-ne-fine h = cc

pub false-ne-true : false ≢ true
false-ne-true h = cc

pub Check-cases : (c : Check) → (c ≡ fine) ⊎ (((r : Refusal) × (c ≡ refused r)) ⊎ (c ≡ raises))
Check-cases fine = inl refl
Check-cases (refused r) = inr (inl (r, refl))
Check-cases raises = inr (inr refl)

pub none-ne-some : {A : Type 0} {a : A} → none ≢ some a
none-ne-some h = cc

module _ {W : Type 0} ⦃f : Float W⦄ where
  -- A value within bounds: a number between them, and an integer where both of them are whole.
  abbrev pub Within : W × W → Json W → Type 0
  Within bounds v =
      (x : W) × (to_float v ≡ some x)
      × (bounds.0 ≼ x)
      × (x ≼ bounds.1)
      × (is_whole bounds ≡ true → (n : ℤ) × (v ≡ int n))

  -- The parameter is on the allowlist, and the value within its bounds.
  abbrev pub IsTuned : String → Json W → Type 0
  IsTuned parameter v =
      (bounds : W × W) × (get parameter param_bounds ≡ some bounds) × Within bounds v

  -- What a value that passes the validation is.
  pub fine-check_value :
      (bounds : W × W) (value : Json W)
      → check_value bounds value ≡ fine
      → (x : W) × (to_float value ≡ some x) × (in_bounds bounds x ≡ true)
  unfolding check_value
  fine-check_value bounds value h = elim (Bool-cases (is_bool_or_none value)) [
    | inl b ↦ absurd (refused-ne-fine (rw (b, check_value) at h))
    | inr b ↦ elim (Bool-cases (overflowing value)) [
      | inl o ↦ absurd (raises-ne-fine (rw (b, o, check_value) at h))
      | inr o ↦ elim (Option-cases (to_float value)) [
        | inl t ↦ absurd (refused-ne-fine (rw (b, o, t, check_value) at h))
        | inr (x, t) ↦ elim (Bool-cases (in_bounds bounds x)) [
          | inl i ↦ (x, t, i)
          | inr i ↦ absurd (refused-ne-fine (rw (b, o, t, i, check_value) at h))
        ]
      ]
    ]
  ]

  -- A change that validates is of a parameter on the allowlist, and its value within the bounds.
  pub fine-validate_param_change :
      (parameter : String) (value : Json W)
      → validate_param_change parameter value ≡ fine
      → (bounds : W × W) × (get parameter param_bounds ≡ some bounds)
        × (check_value bounds value ≡ fine)
        × (is_name parameter ≡ true)
  unfolding validate_param_change
  fine-validate_param_change parameter value h = elim (Bool-cases (is_name parameter)) [
    | inr n ↦ absurd (refused-ne-fine (rw (n, validate_param_change) at h))
    | inl n ↦ elim (Option-cases (get parameter (param_bounds ⦃f = f⦄))) [
      | inl g ↦ absurd (refused-ne-fine (rw (n, g, validate_param_change) at h))
      | inr (bounds, g) ↦ (bounds, g, (rw (n, g, validate_param_change) at h), n)
    ]
  ]

  pub is_integer-truncate :
      (x : W)
      → is_integer x ≡ true
      → (n : ℤ) × (f.truncate x ≡ some n) × (f.same (f.of_ℤ n) x ≡ true)
  unfolding is_integer
  is_integer-truncate x h = elim (Option-cases (f.truncate x)) [
    | inl t ↦ absurd (false-ne-true (rw (t, is_integer) at h))
    | inr (n, t) ↦ (n, t, rw (t, is_integer) at h)
  ]

  pub validate-eq :
      (k : String) (v : Json W) (bounds : W × W)
      → is_name k ≡ true
      → get k (param_bounds ⦃f = f⦄) ≡ some bounds
      → validate_param_change k v ≡ check_value bounds v
  unfolding validate_param_change
  validate-eq k v bounds n g = rw (n, g, validate_param_change) refl

  pub coerced-eq :
      (parameter : String) (value : Json W) (bounds : W × W) (x : W)
      → get parameter param_bounds ≡ some bounds
      → to_float value ≡ some x
      → coerced parameter value ≡ coerce bounds x
  unfolding coerced
  coerced-eq parameter value bounds x g t = rw (g, coerced, t) refl

  module _ (laws : IsOrdered W) (whole : IsTruncating W) where
    -- The coercion of a value within the bounds stays there.
    pub coerce-Within :
        (bounds : W × W) (x : W) → in_bounds bounds x ≡ true → Within bounds (coerce bounds x)
    unfolding coerce to_float in_bounds is_whole
    coerce-Within (lo, hi) x h = elim (Bool-cases (is_integer lo && is_integer hi)) [
      | inr part ↦ rw part (x, refl, ground arith, ground arith, λ c. cc)
      | inl both ↦
          let (a, ta, sa) = is_integer-truncate lo (ground arith) in
          let (c, tc, sc) = is_integer-truncate hi (ground arith) in
          let low : lo ≼ x = ground arith in
          let high : x ≼ hi = ground arith in
          let (b, tb, ab, bc) = whole.truncate_between lo x hi a c low high ta tc in
          let whole_read : to_float (int b) ≡ some (f.of_ℤ b) =
            rw (whole.overflows-truncate x b tb) refl in
          rw (both, tb)
            (
              f.of_ℤ b,
              whole_read,
              laws.le_trans lo (f.of_ℤ a) (f.of_ℤ b) (whole.le_of_same (f.of_ℤ a) lo sa).1 ab,
              laws.le_trans (f.of_ℤ b) (f.of_ℤ c) hi bc (whole.le_of_same (f.of_ℤ c) hi sc).0,
              λ _. (b, refl),
            )
    ]

    pub coerced-IsTuned :
        (parameter : String) (value : Json W)
        → validate_param_change parameter value ≡ fine
        → IsTuned parameter (coerced parameter value)
    coerced-IsTuned parameter value h =
        let (bounds, g, c, n) = fine-validate_param_change parameter value h in
        let (x, t, i) = fine-check_value bounds value c in
        (
          bounds,
          g,
          subst (Within bounds) (sym (coerced-eq parameter value bounds x g t))
              (coerce-Within bounds x i),
        )

    abbrev AllTuned : Dict (Json W) → Type 0
    AllTuned m = (k : String) (v : Json W) → get k m ≡ some v → IsTuned k v

    put-AllTuned :
        (k : String) (v : Json W) (m : Dict (Json W))
        → AllTuned m
        → IsTuned k v
        → AllTuned (put k v m)
    put-AllTuned k v m all t j w g = elim (Bool-cases (str_eq k j)) [
      | inl same ↦
          let e : v ≡ w = cc (get-put_same k j v m same) in
          subst (λ i. IsTuned i w) ((eq_iff k j).0 same) (subst (IsTuned k) e t)
      | inr other ↦ all j w (sym (get-put_other k j v m other) ∙ g)
    ]

    sanitize-AllTuned :
        (clean : Dict (Json W)) (fs : Fields W) (out : Dict (Json W))
        → AllTuned clean
        → sanitize clean fs ≡ some out
        → AllTuned out
    unfolding sanitize
    sanitize-AllTuned clean end out all h = subst AllTuned (some-inj h) all
    sanitize-AllTuned clean (field key value rest) out all h =
        elim (Check-cases (validate_param_change key value)) [
          | inl v ↦
              sanitize-AllTuned (put key (coerced key value) clean) rest out
                (put-AllTuned key (coerced key value) clean all (coerced-IsTuned key value v))
                (rw (v, sanitize) at h)
          | inr (inl (r, v)) ↦ sanitize-AllTuned clean rest out all (rw (v, sanitize) at h)
          | inr (inr v) ↦ absurd (none-ne-some (rw (v, sanitize) at h))
        ]

    nil-AllTuned : AllTuned ([])
    unfolding get
    nil-AllTuned k v g = cc

    sanitize_overrides-AllTuned :
        (document : Json W) (out : Dict (Json W))
        → sanitize_overrides document ≡ some out
        → AllTuned out
    unfolding sanitize_overrides
    sanitize_overrides-AllTuned (obj fs) out h = sanitize-AllTuned [] fs out nil-AllTuned h
    sanitize_overrides-AllTuned null out h = subst AllTuned (some-inj h) nil-AllTuned
    sanitize_overrides-AllTuned (bool b) out h = subst AllTuned (some-inj h) nil-AllTuned
    sanitize_overrides-AllTuned (int n) out h = subst AllTuned (some-inj h) nil-AllTuned
    sanitize_overrides-AllTuned (num x) out h = subst AllTuned (some-inj h) nil-AllTuned
    sanitize_overrides-AllTuned (text s) out h = subst AllTuned (some-inj h) nil-AllTuned
    sanitize_overrides-AllTuned (arr xs) out h = subst AllTuned (some-inj h) nil-AllTuned

    -- Whatever the file of overrides holds: each override that is loaded from it is of a parameter on
    -- the allowlist, and is a number within its bounds, an integer where both bounds are whole. This
    -- rests on the laws of floats.
    pub load_overrides-IsTuned :
        (file : Option (Json W)) (overrides : Dict (Json W)) (k : String) (v : Json W)
        → load_overrides file ≡ some overrides
        → get k overrides ≡ some v
        → IsTuned k v
    unfolding load_overrides
    load_overrides-IsTuned none overrides k v h g = nil-AllTuned k v (ap (get k) (some-inj h) ∙ g)
    load_overrides-IsTuned (some document) overrides k v h g =
        sanitize_overrides-AllTuned document overrides h k v g
