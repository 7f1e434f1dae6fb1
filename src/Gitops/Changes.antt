-- ===== src/Gitops/Changes.antt =====
-- What `apply_proposal_to_config` changes.
use trading_control.Prelude.{
  ◌≡◌, ◌⊎◌, refl, sym, ◌∙◌, subst, true, some, [], ◌∷◌, String, str_eq, any, arith, eq_iff, All,
  if◌then◌else◌, Bool-cases, Option-cases, inl, inr, ap,
}
use trading_control.Prelude.Dict.{Dict, put}
use trading_control.Prelude.Int.{ℤ, pos, ◌+ℤ◌}
use trading_control.Float.{Float, IsOrdered}
use trading_control.Json.{Json, num, obj, member, with_member, to_float}
use trading_control.Config.{
  CognitiveConfig, weight_keys, weight_fields, clamp_weight, to_dict, config_errors,
}
use trading_control.Config.Bounds.{IsSafe, cons≢nil, from_dict-IsSafe}
use trading_control.Config.Loading.{list_cases, clamp_weight-Within}
use trading_control.Config.RoundTrip.{
  HasWeights, from_dict-to_dict, validate_config_dict-to_dict, config_errors-to_dict,
}
use trading_control.Gitops.{refused, applied, put_in, is_in, finish, apply_weight, apply_risk}

pub known_key :
    (k : String) → any (str_eq k) weight_keys ≡ true → (k ≡ "news") ⊎ ((k ≡ "tech") ⊎ (k ≡ "macro"))
known_key k h = ground (arith, eq_iff k "news", eq_iff k "tech", eq_iff k "macro")

module _ {W : Type 0} ⦃f : Float W⦄ where
  weight_fields-put :
      (k : String) (x : W) (m : Dict W)
      → with_member k (num x) (weight_fields m) ≡ weight_fields (put k x m)
  unfolding with_member put
  weight_fields-put k x [] = refl
  weight_fields-put k x ((j, y) ∷ m) = ground (arith, weight_fields-put k x m)

  All-put :
      (P : W → Type 0) (k : String) (x : W) (m : Dict W)
      → P x
      → All (λ (e : String × W). P e.1) m
      → All (λ (e : String × W). P e.1) (put k x m)
  unfolding put
  All-put P k x [] p h = (p, tt)
  All-put P k x ((j, y) ∷ m) p h = elim (Bool-cases (str_eq j k)) [
    | inl e ↦ rw e (p, h.1)
    | inr e ↦ rw e (h.0, All-put P k x m p h.1)
  ]

  -- The configuration with a weight, and with a risk limit, changed.
  abbrev pub with_weight : String → W → CognitiveConfig W → CognitiveConfig W
  with_weight k x c = record c { version = c.version +ℤ pos 1; weights = put k x c.weights }

  abbrev pub with_risk : String → W → CognitiveConfig W → CognitiveConfig W
  with_risk k x c = record c {
    version = c.version +ℤ pos 1;
    max_position_size_pct = if str_eq "max_position_size_pct" k then x else c.max_position_size_pct;
    max_daily_loss_pct = if str_eq "max_daily_loss_pct" k then x else c.max_daily_loss_pct;
    max_exposure_pct = if str_eq "max_exposure_pct" k then x else c.max_exposure_pct;
  }

  HasWeights-put :
      (k : String) (x : W) (c : CognitiveConfig W)
      → any (str_eq k) weight_keys ≡ true
      → HasWeights c
      → HasWeights (record c { weights = put k x c.weights })
  unfolding put
  HasWeights-put k x c known w = elim (known_key k known) [
    | inl e ↦
        subst (λ j. HasWeights (record c { weights = put j x c.weights })) (sym e)
          (record { news = x; tech = w.tech; macro = w.macro; is = rw w.is refl })
    | inr (inl e) ↦
        subst (λ j. HasWeights (record c { weights = put j x c.weights })) (sym e)
          (record { news = w.news; tech = x; macro = w.macro; is = rw w.is refl })
    | inr (inr e) ↦
        subst (λ j. HasWeights (record c { weights = put j x c.weights })) (sym e)
          (record { news = w.news; tech = w.tech; macro = x; is = rw w.is refl })
  ]

  -- The next version of the data of a configuration is that configuration with the next version, if
  -- it is within all bounds, and refused if it is not.
  finish-to_dict :
      (n : ℤ) (c : CognitiveConfig W)
      → HasWeights c
      → ((finish n (to_dict c) ≡ applied (record c { version = n +ℤ pos 1 }))
          × IsSafe (record c { version = n +ℤ pos 1 }))
        ⊎ ((finish n (to_dict c) ≡ refused) × (IsSafe (record c { version = n +ℤ pos 1 }) → ⊥))
  unfolding finish with_member to_dict
  finish-to_dict n c h =
      let c' = record c { version = n +ℤ pos 1 } in
      let h' : HasWeights c' = record {
        news = h.news;
        tech = h.tech;
        macro = h.macro;
        is = h.is;
      } in
      let read = from_dict-to_dict c' h' in
      let whole = validate_config_dict-to_dict c' h' in
      elim (list_cases (config_errors (obj (to_dict c')))) [
        | inl ok ↦
            inl (rw (whole ∙ ap some ok, finish, read) refl, from_dict-IsSafe (to_dict c') ok read)
        | inr (e, es, bad) ↦ inr (
          rw (whole ∙ ap some bad, finish) refl,
          λ s. cons≢nil (sym bad ∙ config_errors-to_dict c' h' s),
        )
      ]

  is_in-risk :
      (k : String) (c : CognitiveConfig W)
      → is_in "risk" k (to_dict c) ≡ true
      → (k ≡ "max_position_size_pct") ⊎ ((k ≡ "max_daily_loss_pct") ⊎ (k ≡ "max_exposure_pct"))
  unfolding is_in to_dict member
  is_in-risk k c h = ground (
    arith,
    eq_iff "max_position_size_pct" k,
    eq_iff "max_daily_loss_pct" k,
    eq_iff "max_exposure_pct" k,
  )

  put_in-weights :
      (k : String) (x : W) (c : CognitiveConfig W)
      → put_in "weights" k (num x) (to_dict c) ≡ to_dict (record c { weights = put k x c.weights })
  unfolding put_in to_dict with_member member
  put_in-weights k x c = rw (weight_fields-put k x c.weights) refl

  put_in-risk :
      (k : String) (x : W) (c : CognitiveConfig W)
      → is_in "risk" k (to_dict c) ≡ true
      → put_in "risk" k (num x) (to_dict c)
        ≡ to_dict (record (with_risk k x c) { version = c.version })
  unfolding put_in to_dict with_member member is_in
  put_in-risk k x c h = elim (is_in-risk k c h) [
    | inl e ↦ rw e refl
    | inr (inl e) ↦ rw e refl
    | inr (inr e) ↦ rw e refl
  ]

  -- A weight proposal on one of the three signals, its value a number, is applied to every safe
  -- configuration: the next version has that weight, cut off to its bounds, and is safe again.
  pub apply_weight-IsSafe :
      IsOrdered W
      → (c : CognitiveConfig W) (k : String) (v : Json W) (x : W) → HasWeights c
      → IsSafe c
      → any (str_eq k) weight_keys ≡ true
      → to_float v ≡ some x
      → (apply_weight c k v ≡ applied (with_weight k (clamp_weight x) c))
        × IsSafe (with_weight k (clamp_weight x) c)
  unfolding apply_weight
  apply_weight-IsSafe laws c k v x h s known e =
      let w = clamp_weight x in
      let c' = record c { weights = put k w c.weights } in
      let safe : IsSafe (with_weight k w c) = record {
        weights = All-put _ k w c.weights (clamp_weight-Within laws x) s.weights;
        buy = s.buy;
        sell = s.sell;
        below = s.below;
        size = s.size;
        loss = s.loss;
        exposure = s.exposure;
      } in
      elim (finish-to_dict c.version c' (HasWeights-put k w c known h)) [
        | inl (a, s') ↦ (rw (known, e, apply_weight, put_in-weights k w c) a, safe)
        | inr (r, unsafe) ↦ absurd (unsafe safe)
      ]

  -- A risk proposal on a limit of the configuration, its value a number, is applied exactly when the
  -- configuration with that limit is within all bounds, and refused otherwise.
  pub apply_risk-IsSafe :
      (c : CognitiveConfig W) (k : String) (v : Json W) (x : W)
      → HasWeights c
      → is_in "risk" k (to_dict c) ≡ true
      → to_float v ≡ some x
      → ((apply_risk c k v ≡ applied (with_risk k x c)) × IsSafe (with_risk k x c))
        ⊎ ((apply_risk c k v ≡ refused) × (IsSafe (with_risk k x c) → ⊥))
  unfolding apply_risk
  apply_risk-IsSafe c k v x h known e =
      let c' = record (with_risk k x c) { version = c.version } in
      elim (finish-to_dict c.version c'
        (record { news = h.news; tech = h.tech; macro = h.macro; is = h.is })) [
          | inl (a, s) ↦ inl (rw (known, e, apply_risk, put_in-risk k x c known) a, s)
          | inr (r, unsafe) ↦ inr (rw (known, e, apply_risk, put_in-risk k x c known) r, unsafe)
        ]

  applied-injective : {c d : CognitiveConfig W} → applied c ≡ applied d → c ≡ d
  applied-injective h = cc

  pub apply_weight-applied :
      (c : CognitiveConfig W) (k : String) (v : Json W) {c' : CognitiveConfig W}
      → HasWeights c
      → apply_weight c k v ≡ applied c'
      → (x : W) × (any (str_eq k) weight_keys ≡ true)
        × (to_float v ≡ some x)
        × (c' ≡ with_weight k (clamp_weight x) c)
        × IsSafe c'
  unfolding apply_weight
  apply_weight-applied c k v h a = elim (Bool-cases (any (str_eq k) weight_keys)) [
    | inr unknown ↦ let a' = rw (unknown, apply_weight) at a in cc a'
    | inl known ↦ elim (Option-cases (to_float v)) [
      | inl m ↦ let a' = rw (known, m, apply_weight) at a in cc a'
      | inr (x, m) ↦
          let w = clamp_weight x in
          let c2 = record c { weights = put k w c.weights } in
          let a' = rw (known, m, apply_weight, put_in-weights k w c) at a in
          elim (finish-to_dict c.version c2 (HasWeights-put k w c known h)) [
            | inl (e, s) ↦
                let same_ = applied-injective (sym e ∙ a') in
                (x, known, m, sym same_, subst IsSafe same_ s)
            | inr (r, unsafe) ↦ cc (sym r ∙ a')
          ]
    ]
  ]

  pub apply_risk-applied :
      (c : CognitiveConfig W) (k : String) (v : Json W) {c' : CognitiveConfig W}
      → HasWeights c
      → apply_risk c k v ≡ applied c'
      → (x : W) × (is_in "risk" k (to_dict c) ≡ true)
        × (to_float v ≡ some x)
        × (c' ≡ with_risk k x c)
        × IsSafe c'
  unfolding apply_risk
  apply_risk-applied c k v h a = elim (Bool-cases (is_in "risk" k (to_dict c))) [
    | inr unknown ↦ let a' = rw (unknown, apply_risk) at a in cc a'
    | inl known ↦ elim (Option-cases (to_float v)) [
      | inl m ↦ let a' = rw (known, m, apply_risk) at a in cc a'
      | inr (x, m) ↦ elim (apply_risk-IsSafe c k v x h known m) [
        | inl (e, s) ↦
            let same_ = applied-injective (sym e ∙ a) in
            (x, known, m, sym same_, subst IsSafe same_ s)
        | inr (r, unsafe) ↦ cc (sym r ∙ a)
      ]
    ]
  ]
