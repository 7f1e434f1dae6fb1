-- ===== src/Config/Bounds.antt =====
-- A configuration that is loaded lies within the bounds.
use trading_control.Prelude.Options.{first_some}
use mathlib.Core.Bool.{false≢true}
use mathlib.Core.Option.{some-injective}
use trading_control.Prelude.{
  ◌≡◌, ◌≢◌, refl, subst, sym, ◌∙◌, Bool, true, false, not, Option, none, some, List, [], ◌∷◌, ◌++◌,
  String, arith, All, Option-cases, inl, inr,
}
use trading_control.Prelude.Dict.{Dict}
use trading_control.Prelude.Int.{pos}
use trading_control.Float.{Float, ◌≼◌, dec, minus_dec}
use trading_control.Json.{
  Json, null, bool, int, num, text, arr, obj, Fields, member, to_float, section,
}
use trading_control.Config.{
  CognitiveConfig, ConfigError, error_if, weight_keys, weight_bounds, buy_threshold_bounds,
  sell_threshold_bounds, max_position_size_bounds, max_daily_loss_bounds, max_exposure_bounds,
  default_weight, float_member, int_member, read_weights, from_dict, in_bounds, weight_errors,
  validate_weights, validate_risk, not_below, validate_thresholds, config_errors,
}

pub append-eq-nil {ℓ} : {A : Type ℓ} (xs ys : List A) → xs ++ ys ≡ [] → (xs ≡ []) × (ys ≡ [])
append-eq-nil [] ys h = (refl, h)
append-eq-nil (x ∷ xs) ys h = cc

pub error_if-eq-nil : (b : Bool) (e : ConfigError) → error_if b e ≡ [] → b ≡ false
error_if-eq-nil true e h = cc
error_if-eq-nil false e h = refl

pub cons≢nil {ℓ} : {A : Type ℓ} {x : A} {xs : List A} → x ∷ xs ≢ []
cons≢nil h = cc

pub not-eq-false : (b : Bool) → not b ≡ false → b ≡ true
not-eq-false true h = refl
not-eq-false false h = cc

module _ {W : Type 0} ⦃f : Float W⦄ where
  open f use {le}

  abbrev pub Within : W × W → W → Type 0
  Within bounds x = (bounds.0 ≼ x) × (x ≼ bounds.1)

  -- Every field is within its bounds, and the sell threshold is not at or above the buy threshold.
  pub record IsSafe (c : CognitiveConfig W) : Type 0 where
    pub weights : All (λ (e : String × W). Within weight_bounds e.1) c.weights
    pub buy : Within buy_threshold_bounds c.buy_threshold
    pub sell : Within sell_threshold_bounds c.sell_threshold
    pub below : le c.buy_threshold c.sell_threshold ≡ false
    pub size : Within max_position_size_bounds c.max_position_size_pct
    pub loss : Within max_daily_loss_bounds c.max_daily_loss_pct
    pub exposure : Within max_exposure_bounds c.max_exposure_pct

  -- A value in its bounds is read by `float` as a number in those bounds.
  in_bounds-Within :
      (v : Json W) (b : W × W) (x : W)
      → in_bounds (some v) b ≡ true
      → to_float v ≡ some x
      → Within b x
  unfolding in_bounds
  in_bounds-Within null b x h e = cc
  in_bounds-Within (bool v) b x h e = cc
  in_bounds-Within (int n) b x h e = ground arith
  in_bounds-Within (num y) b x h e = ground arith
  in_bounds-Within (text s) b x h e = ground arith
  in_bounds-Within (arr xs) b x h e = cc
  in_bounds-Within (obj fs) b x h e = cc

  float_member-Within :
      (k : String) (d : W) (fs : Fields W) (b : W × W) (x : W)
      → in_bounds (member k fs) b ≡ true
      → float_member k d fs ≡ some x
      → Within b x
  unfolding float_member in_bounds
  float_member-Within k d fs b x h e = elim (Option-cases (member k fs)) [
    | inl m ↦ absurd (false≢true (rw m at h))
    | inr (v, m) ↦ in_bounds-Within v b x (rw m at h) (rw (m, float_member) at e)
  ]

  -- Every weight that is read is one that `weight_errors` has accepted.
  read_weights-Within :
      (fs : Fields W) (ks : List String) (ws : Dict W)
      → weight_errors fs ks ≡ []
      → read_weights fs ks ≡ some ws
      → All (λ (e : String × W). Within weight_bounds e.1) ws
  unfolding weight_errors read_weights
  read_weights-Within fs [] ws h e =
      subst (All (λ (e : String × W). Within weight_bounds e.1)) (some-injective _ _ e) tt
  read_weights-Within fs (k ∷ ks) ws h e =
      let (x, ex, e') = first_some (float_member k (default_weight k) fs) _ e in
      let (rest, er, e'') = first_some (read_weights fs ks) _ e' in
      elim (Option-cases (member k fs)) [
        | inl m ↦ absurd (cons≢nil (rw m at h))
        | inr (v, m) ↦
            let (hv, hr) = append-eq-nil _ _ (rw m at h) in
            let ok = not-eq-false _ (error_if-eq-nil _ _ hv) in
            subst (All (λ (e : String × W). Within weight_bounds e.1)) (some-injective _ _ e'') (
              float_member-Within k (default_weight k) fs weight_bounds x (rw m ok) ex,
              read_weights-Within fs ks rest hr er,
            )
      ]

  pub validate_weights-obj :
      (v : Option (Json W))
      → validate_weights v ≡ []
      → (fs : Fields W) × (v ≡ some (obj fs)) × (weight_errors fs weight_keys ≡ [])
  unfolding validate_weights
  validate_weights-obj (some (obj fs)) h = (fs, refl, h)
  validate_weights-obj none h = cc
  validate_weights-obj (some _) h = cc

  pub validate_risk-obj :
      (v : Option (Json W))
      → validate_risk v ≡ []
      → (fs : Fields W) × (v ≡ some (obj fs))
        × (in_bounds (member "max_position_size_pct" fs) max_position_size_bounds ≡ true)
        × (in_bounds (member "max_daily_loss_pct" fs) max_daily_loss_bounds ≡ true)
        × (in_bounds (member "max_exposure_pct" fs) max_exposure_bounds ≡ true)
  unfolding validate_risk
  validate_risk-obj (some (obj fs)) h =
      let (h1, h') = append-eq-nil _ _ h in
      let (h2, h3) = append-eq-nil _ _ h' in
      (
        fs,
        refl,
        not-eq-false _ (error_if-eq-nil _ _ h1),
        not-eq-false _ (error_if-eq-nil _ _ h2),
        not-eq-false _ (error_if-eq-nil _ _ h3),
      )
  validate_risk-obj none h = cc
  validate_risk-obj (some _) h = cc

  pub validate_thresholds-bounds :
      (buy sell : Option (Json W))
      → validate_thresholds buy sell ≡ []
      → (in_bounds buy buy_threshold_bounds ≡ true)
        × (in_bounds sell sell_threshold_bounds ≡ true)
        × (not_below sell buy ≡ false)
  unfolding validate_thresholds
  validate_thresholds-bounds buy sell h =
      let (h1, h') = append-eq-nil _ _ h in
      let (h2, h3) = append-eq-nil _ _ h' in
      let b = not-eq-false _ (error_if-eq-nil _ _ h1) in
      let s = not-eq-false _ (error_if-eq-nil _ _ h2) in
      let n = error_if-eq-nil _ _ h3 in (b, s, ground arith)

  -- What `not_below` compares is what `from_dict` reads.
  not_below-float_member :
      (fs : Fields W) (dx dy x y : W)
      → in_bounds (member "sell_threshold" fs) sell_threshold_bounds ≡ true
      → in_bounds (member "buy_threshold" fs) buy_threshold_bounds ≡ true
      → float_member "sell_threshold" dx fs ≡ some x
      → float_member "buy_threshold" dy fs ≡ some y
      → not_below (member "sell_threshold" fs) (member "buy_threshold" fs) ≡ le y x
  unfolding not_below float_member
  not_below-float_member fs dx dy x y hs hb ex ey =
      elim (Option-cases (member "sell_threshold" fs)) [
        | inl m ↦ absurd (false≢true (unfold in_bounds in (rw m at hs)))
        | inr (s, m) ↦ elim (Option-cases (member "buy_threshold" fs)) [
          | inl m' ↦ absurd (false≢true (unfold in_bounds in (rw m' at hb)))
          | inr (b, m') ↦
              let ex' : to_float s ≡ some x = rw (m, float_member) at ex in
              let ey' : to_float b ≡ some y = rw (m', float_member) at ey in
              rw (m, m') (ground arith)
        ]
      ]

  -- A configuration that validates is read as one within all bounds.
  pub from_dict-IsSafe :
      (data' : Fields W) {c : CognitiveConfig W}
      → config_errors (obj data') ≡ []
      → from_dict data' ≡ some c
      → IsSafe c
  unfolding config_errors from_dict section
  from_dict-IsSafe data' h e =
      let (hw, h') = append-eq-nil _ _ h in
      let (ht, hr) = append-eq-nil _ _ h' in
      let (ws, mw, vw) = validate_weights-obj (member "weights" data') hw in
      let (hb, hs, hn) =
        validate_thresholds-bounds (member "buy_threshold" data') (member "sell_threshold" data')
          ht in
      let (rs, mr, h1, h2, h3) = validate_risk-obj (member "risk" data') hr in
      let (w, ew, e1) = first_some (read_weights ws weight_keys) _ (rw (mw, section) at e) in
      let (version, ev, e2) =
        first_some (int_member "version" (pos 1) data') _ (rw (mr, section) at e1) in
      let (buy, eb, e3) = first_some (float_member "buy_threshold" (dec 15 2) data') _ e2 in
      let (sell, es, e4) = first_some (float_member "sell_threshold" (minus_dec 15 2) data') _ e3 in
      let (size, e5, e6) = first_some (float_member "max_position_size_pct" (dec 5 2) rs) _ e4 in
      let (loss, e7, e8) = first_some (float_member "max_daily_loss_pct" (dec 2 2) rs) _ e6 in
      let (exposure, e9, e10) = first_some (float_member "max_exposure_pct" (dec 30 2) rs) _ e8 in
      subst IsSafe (some-injective _ _ e10) (record {
        weights = read_weights-Within ws weight_keys w vw ew;
        buy = float_member-Within "buy_threshold" (dec 15 2) data' buy_threshold_bounds buy hb eb;
        sell =
            float_member-Within "sell_threshold" (minus_dec 15 2) data' sell_threshold_bounds sell
              hs es;
        below =
            sym (not_below-float_member data' (minus_dec 15 2) (dec 15 2) sell buy hs hb es eb)
            ∙ hn;
        size =
            float_member-Within "max_position_size_pct" (dec 5 2) rs max_position_size_bounds size
              h1 e5;
        loss =
            float_member-Within "max_daily_loss_pct" (dec 2 2) rs max_daily_loss_bounds loss h2 e7;
        exposure =
            float_member-Within "max_exposure_pct" (dec 30 2) rs max_exposure_bounds exposure h3 e9;
      })
