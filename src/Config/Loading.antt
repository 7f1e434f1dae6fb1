-- ===== src/Config/Loading.antt =====
-- `load_config` and `clamp_weight`.
use trading_control.Prelude.Options.{◌>>=◌}
use mathlib.Core.Bool.{false≢true}
use mathlib.Core.Option.{some-injective}
use trading_control.Prelude.{
  ◌≡◌, ◌⊎◌, refl, subst, true, Option, none, some, List, [], ◌∷◌, String, arith, Option-cases,
  Bool-cases, inl, inr,
}
use trading_control.Prelude.Dict.{Dict}
use trading_control.Prelude.Int.{ℤ, pos, neg_ℤ, ◌≤ℤ◌}
use trading_control.Float.{Float, IsOrdered, decimal, dec, minus_dec}
use trading_control.Float.Order.{clamp_bounds}
use trading_control.Json.{
  Json, null, bool, int, num, text, arr, obj, Fields, member, to_float, section,
}
use trading_control.Config.{
  CognitiveConfig, weight_keys, weight_bounds, default_config, default_weight, float_member,
  int_member, read_weights, from_dict, in_bounds, weight_errors, validate_config_dict, load_config,
  clamp_weight, config_errors, validation_raises,
}
use trading_control.Config.Bounds.{
  Within, IsSafe, from_dict-IsSafe, append-eq-nil, error_if-eq-nil, not-eq-false, cons≢nil,
  validate_weights-obj, validate_risk-obj, validate_thresholds-bounds,
}

pub list_cases {ℓ} :
    {A : Type ℓ} (xs : List A) → (xs ≡ []) ⊎ ((y : A) × (ys : List A) × (xs ≡ y ∷ ys))
list_cases [] = inl refl
list_cases (y ∷ ys) = inr (y, ys, refl)

module _ {W : Type 0} ⦃f : Float W⦄ where
  to_float-int : (n : ℤ) → f.overflows n ≡ true → to_float {W = W} (int n) ≡ none
  unfolding to_float
  to_float-int n o = rw o refl

  -- A value in its bounds is one that `float` reads.
  in_bounds-to_float :
      (v : Json W) (b : W × W) → in_bounds (some v) b ≡ true → (x : W) × (to_float v ≡ some x)
  unfolding in_bounds
  in_bounds-to_float null b h = cc
  in_bounds-to_float (bool v) b h = cc
  in_bounds-to_float (int n) b h = elim (Bool-cases (f.overflows n)) [
    | inl o ↦ absurd (false≢true (rw (to_float-int n o, in_bounds) at h))
    | inr o ↦ (f.of_ℤ n, unfold to_float in rw o refl)
  ]
  in_bounds-to_float (num y) b h = (y, unfold to_float in refl)
  in_bounds-to_float (text s) b h = elim (Option-cases (to_float {W = W} (text s))) [
    | inl m ↦ absurd (false≢true (rw (m, in_bounds) at h))
    | inr (x, m) ↦ (x, m)
  ]
  in_bounds-to_float (arr xs) b h = cc
  in_bounds-to_float (obj fs) b h = cc

  in_bounds-float_member :
      (k : String) (d : W) (fs : Fields W) (b : W × W)
      → in_bounds (member k fs) b ≡ true
      → (x : W) × (float_member k d fs ≡ some x)
  unfolding float_member in_bounds
  in_bounds-float_member k d fs b h = elim (Option-cases (member k fs)) [
    | inl m ↦ absurd (false≢true (rw m at h))
    | inr (v, m) ↦ let (x, e) = in_bounds-to_float v b (rw m at h) in (x, rw (m, float_member) e)
  ]

  read_weights-total :
      (fs : Fields W) (ks : List String)
      → weight_errors fs ks ≡ []
      → (ws : Dict W) × (read_weights fs ks ≡ some ws)
  unfolding weight_errors read_weights
  read_weights-total fs [] h = ([], refl)
  read_weights-total fs (k ∷ ks) h = elim (Option-cases (member k fs)) [
    | inl m ↦ absurd (cons≢nil (rw m at h))
    | inr (v, m) ↦
        let (hv, hr) = append-eq-nil _ _ (rw m at h) in
        let ok = not-eq-false _ (error_if-eq-nil _ _ hv) in
        let (x, e) = in_bounds-float_member k (default_weight k) fs weight_bounds (rw m ok) in
        let (ws, e') = read_weights-total fs ks hr in ((k, x) ∷ ws, rw (e, e') refl)
  ]

  -- A validated object is read field by field, all but the version.
  from_dict-valid :
      (data' : Fields W)
      → config_errors (obj data') ≡ []
      → (c : CognitiveConfig W) × (from_dict data'
          ≡ (int_member "version" (pos 1) data' >>= λ n. some (record c { version = n })))
  unfolding config_errors from_dict section
  from_dict-valid data' h =
      let (hw, h') = append-eq-nil _ _ h in
      let (ht, hr) = append-eq-nil _ _ h' in
      let (ws, mw, vw) = validate_weights-obj (member "weights" data') hw in
      let (hb, hs, hn) =
        validate_thresholds-bounds (member "buy_threshold" data') (member "sell_threshold" data')
          ht in
      let (rs, mr, h1, h2, h3) = validate_risk-obj (member "risk" data') hr in
      let (w, ew) = read_weights-total ws weight_keys vw in
      let (buy, eb) = in_bounds-float_member "buy_threshold" (dec 15 2) data' _ hb in
      let (sell, es) = in_bounds-float_member "sell_threshold" (minus_dec 15 2) data' _ hs in
      let (size, e1) = in_bounds-float_member "max_position_size_pct" (dec 5 2) rs _ h1 in
      let (loss, e2) = in_bounds-float_member "max_daily_loss_pct" (dec 2 2) rs _ h2 in
      let (exposure, e3) = in_bounds-float_member "max_exposure_pct" (dec 30 2) rs _ h3 in
      (
        record {
          version = pos 1;
          weights = w;
          buy_threshold = buy;
          sell_threshold = sell;
          max_position_size_pct = size;
          max_daily_loss_pct = loss;
          max_exposure_pct = exposure;
        },
        elim (Option-cases (int_member "version" (pos 1) data')) [
          | inl i ↦ rw (mw, mr, section, ew, i) refl
          | inr (n, i) ↦ rw (mw, mr, section, ew, i, eb, es, e1, e2, e3) refl
        ],
      )

  -- Three decimals in order are a value in its bounds.
  in_order : IsOrdered W → (a b c : ℤ) → a ≤ℤ b → b ≤ℤ c → Within (f.lit a, f.lit c) (f.lit b)
  in_order laws a b c p q = (laws.le_lit a b p, laws.le_lit b c q)

  pub default_config-IsSafe : IsOrdered W → IsSafe {W = W} default_config
  default_config-IsSafe laws =
      let zero_ = pos 0 in
      let one_ = decimal 1 0 in
      record {
        weights = (
          in_order laws zero_ (decimal 34 2) one_ (omega arith) (omega arith),
          (
            in_order laws zero_ (decimal 33 2) one_ (omega arith) (omega arith),
            (in_order laws zero_ (decimal 33 2) one_ (omega arith) (omega arith), tt),
          ),
        );
        buy = in_order laws zero_ (decimal 15 2) (decimal 95 2) (omega arith) (omega arith);
        sell =
            in_order laws (neg_ℤ (decimal 95 2)) (neg_ℤ (decimal 15 2)) zero_ (omega arith)
              (omega arith);
        below = laws.not_le_of_lt _ _ (
            laws.lt_lit (neg_ℤ (decimal 15 2)) (decimal 15 2) (omega arith) (omega arith)
              (omega arith));
        size = in_order laws (decimal 1 3) (decimal 5 2) (decimal 5 1) (omega arith) (omega arith);
        loss = in_order laws (decimal 1 3) (decimal 2 2) (decimal 25 2) (omega arith) (omega arith);
        exposure =
            in_order laws (decimal 1 2) (decimal 30 2) (decimal 1 0) (omega arith) (omega arith);
      }

  validated :
      (data' : Fields W)
      → validate_config_dict (obj data') ≡ some []
      → config_errors (obj data') ≡ []
  unfolding validate_config_dict
  validated data' h = elim (Bool-cases (validation_raises data')) [
    | inl r ↦ cc (rw (r, validate_config_dict) at h)
    | inr r ↦ some-injective _ _ (rw (r, validate_config_dict) at h)
  ]

  -- Whatever the file holds, a configuration that `load_config` returns is within all bounds. This
  -- rests on the laws of floats.
  pub load_config-IsSafe :
      IsOrdered W
      → (file : Option (Json W)) {c : CognitiveConfig W} → load_config file ≡ some c
      → IsSafe c
  unfolding load_config
  load_config-IsSafe laws (some (obj data')) h =
      elim (Option-cases (validate_config_dict (obj data'))) [
        | inl r ↦ cc (rw (r, load_config) at h)
        | inr ([], ok) ↦ from_dict-IsSafe data' (validated data' ok) (rw (ok, load_config) at h)
        | inr (e ∷ es, bad) ↦
            subst IsSafe (some-injective _ _ (rw (bad, load_config) at h))
              (default_config-IsSafe laws)
      ]
  load_config-IsSafe laws none h = subst IsSafe (some-injective _ _ h) (default_config-IsSafe laws)
  load_config-IsSafe laws (some _) h =
      subst IsSafe (some-injective _ _ h) (default_config-IsSafe laws)

  -- `load_config` of a validated object raises exactly when `int` refuses its version, which the
  -- validation does not look at. Otherwise it returns a configuration of that version.
  pub load_config-valid :
      (data' : Fields W)
      → validate_config_dict (obj data') ≡ some []
      → ((int_member "version" (pos 1) data' ≡ none) × (load_config (some (obj data')) ≡ none))
        ⊎ ((n : ℤ) × (c : CognitiveConfig W) × (int_member "version" (pos 1) data' ≡ some n)
            × (load_config (some (obj data')) ≡ some c)
            × (c.version ≡ n))
  unfolding load_config
  load_config-valid data' ok =
      let (c, e) = from_dict-valid data' (validated data' ok) in
      elim (Option-cases (int_member "version" (pos 1) data')) [
        | inl i ↦ inl (i, rw (ok, load_config) (rw (e, i) refl))
        | inr (n, i) ↦
            inr (n, record c { version = n }, i, rw (ok, load_config) (rw (e, i) refl), refl)
      ]

  -- `clamp_weight` lands in the bounds of a weight, also from an infinity or NaN. This rests on the
  -- laws of floats.
  pub clamp_weight-Within : IsOrdered W → (x : W) → Within weight_bounds (clamp_weight x)
  unfolding clamp_weight
  clamp_weight-Within laws x =
      clamp_bounds laws _ _ x (laws.le_lit (pos 0) (decimal 1 0) (omega arith))
