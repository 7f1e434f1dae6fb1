-- ===== src/Regime/Posture.antt =====
-- What the posture tightens, and when it does nothing.
use trading_control.Prelude.{
  ◌≡◌, refl, Bool, true, false, ◌&&◌, Option, none, some, Bool-cases, inl, inr, str_eq, eq_iff,
  arith, ◌⊎◌, subst, sym, String, ◌↔◌, if◌then◌else◌,
}
use trading_control.Float.{Float, IsOrdered, ◌≼◌, dec, max}
use trading_control.Json.{Json, text}
use trading_control.Regime.{
  is_risk_off, is_risk_on, buy_threshold, stop_loss_pct, take_profit_pct, daily_loss_limit_pct,
  size_multiplier, min_confidence, execution_threshold,
}

module _ {W : Type 0} ⦃f : Float W⦄ where
  -- What the posture makes of the limits, against those without a regime: `stop` and `profit` are the
  -- tuned defaults of the stop and the profit, `default` that of a confidence or a score.
  pub record Tightens (regime : Option (Json W)) (is_long : Bool) (stop profit default : W)
      : Type 0 where
    pub stop_loss :
        (stop_loss_pct stop regime is_long ≼ stop)
        ↔ (((is_long && is_risk_off regime) ≡ false) ⊎ (dec 3 2 ≼ stop))
    pub take_profit :
        (take_profit_pct profit regime is_long ≼ profit)
        ↔ (((is_long && is_risk_off regime) ≡ false) ⊎ (dec 6 2 ≼ profit))
    pub loss : daily_loss_limit_pct regime ≼ daily_loss_limit_pct none
    pub size : size_multiplier regime is_long ≼ size_multiplier none is_long
    pub confidence : default ≼ min_confidence regime default is_long
    pub threshold : default ≼ execution_threshold regime default is_long

  -- Every limit of a position is as it is without a regime.
  pub record IsNeutral (regime : Option (Json W)) (is_long : Bool) (stop profit default : W)
      : Type 0 where
    pub stop_loss : stop_loss_pct stop regime is_long ≡ stop
    pub take_profit : take_profit_pct profit regime is_long ≡ profit
    pub size : size_multiplier regime is_long ≡ size_multiplier none is_long
    pub confidence : min_confidence regime default is_long ≡ default
    pub threshold : execution_threshold regime default is_long ≡ default

  pub le-max : IsOrdered W → (x y : W) → x ≼ x → x ≼ max x y
  le-max laws x y n = elim (Bool-cases (f.lt x y)) [
    | inl l ↦ rw l (laws.le_of_lt x y l)
    | inr l ↦ rw l n
  ]

  pub max-eq-le : IsOrdered W → (x y : W) → x ≼ x → y ≼ y → y ≼ max x y
  max-eq-le laws x y n m = elim (Bool-cases (f.lt x y)) [
    | inl l ↦ rw l m
    | inr l ↦ rw l (laws.le_of_not_lt x y n m l)
  ]

  neutral :
      (regime : Option (Json W)) (is_long : Bool) (stop profit default : W)
      → (is_long && is_risk_off regime) ≡ false
      → IsNeutral regime is_long stop profit default
  unfolding stop_loss_pct take_profit_pct size_multiplier min_confidence execution_threshold
  neutral regime true stop profit default h =
      let off : is_risk_off regime ≡ false = h in
      record {
        stop_loss = rw off refl;
        take_profit = rw off refl;
        size = rw off refl;
        confidence = rw off refl;
        threshold = rw off refl;
      }
  neutral regime false stop profit default h = record {
    stop_loss = refl;
    take_profit = refl;
    size = refl;
    confidence = refl;
    threshold = refl;
  }

  -- A limit that is replaced under a condition is not raised exactly if it stays or is not below.
  replaced_iff :
      (b : Bool) (limit default : W)
      → default ≼ default
      → ((if b then limit else default) ≼ default) ↔ ((b ≡ false) ⊎ (limit ≼ default))
  replaced_iff true limit default n = ((λ h. inr h), (λ h. elim h [ inl e ↦ cc | inr l ↦ l ]))
  replaced_iff false limit default n = ((λ h. inl refl), (λ h. n))

  -- The limits whose default is a constant.
  daily_lem :
      IsOrdered W
      → (regime : Option (Json W)) → daily_loss_limit_pct regime ≼ daily_loss_limit_pct none
  unfolding daily_loss_limit_pct is_risk_off
  daily_lem laws regime = elim (Bool-cases (is_risk_off regime)) [
    | inl o ↦ rw (o, daily_loss_limit_pct) (laws.le_lit _ _ (omega arith))
    | inr o ↦ rw (o, daily_loss_limit_pct) (laws.le_lit _ _ (omega arith))
  ]

  size_lem :
      IsOrdered W
      → (regime : Option (Json W)) (is_long : Bool)
      → size_multiplier regime is_long ≼ size_multiplier none is_long
  unfolding size_multiplier is_risk_off
  size_lem laws regime false = laws.le_lit _ _ (omega arith)
  size_lem laws regime true = elim (Bool-cases (is_risk_off regime)) [
    | inl o ↦ rw (o, size_multiplier) (laws.le_lit _ _ (omega arith))
    | inr o ↦ rw (o, size_multiplier) (laws.le_lit _ _ (omega arith))
  ]

  -- A floor raises what it is put under.
  raised_lem :
      IsOrdered W
      → (b : Bool) (floor default : W) → default ≼ default
      → default ≼ (if b then max default floor else default)
  raised_lem laws true floor default n = le-max laws default floor n
  raised_lem laws false floor default n = n

  posture-limits :
      IsOrdered W
      → (regime : Option (Json W)) (is_long : Bool) (stop profit default : W) → stop ≼ stop
      → profit ≼ profit
      → default ≼ default
      → Tightens regime is_long stop profit default
  unfolding stop_loss_pct take_profit_pct min_confidence execution_threshold
  posture-limits laws regime is_long stop profit default s p n =
      let off = is_long && is_risk_off regime in
      record {
        stop_loss = replaced_iff off (dec 3 2) stop s;
        take_profit = replaced_iff off (dec 6 2) profit p;
        loss = daily_lem laws regime;
        size = size_lem laws regime is_long;
        confidence = raised_lem laws off (dec 35 2) default n;
        threshold = raised_lem laws off (dec 65 2) default n;
      }

  daily_neutral :
      (regime : Option (Json W))
      → is_risk_off regime ≡ false
      → daily_loss_limit_pct regime ≡ daily_loss_limit_pct none
  unfolding daily_loss_limit_pct is_risk_off
  daily_neutral regime h = rw (h, daily_loss_limit_pct) refl

  on_not_off : (regime : Option (Json W)) → is_risk_off regime ≡ true → is_risk_on regime ≡ false
  unfolding is_risk_off is_risk_on
  on_not_off (some (text s)) h =
      subst (λ (x : String). str_eq x "risk_on" ≡ false) (sym ((eq_iff s "risk_off").0 h)) refl
  on_not_off none h = refl
  on_not_off (some _) h = refl

  not_off : (regime : Option (Json W)) → is_risk_on regime ≡ true → is_risk_off regime ≡ false
  not_off regime on = elim (Bool-cases (is_risk_off regime)) [
    | inl off ↦ cc (on_not_off regime off)
    | inr off ↦ off
  ]

  -- The daily loss and the size are never larger in a regime than without one, and the confidence and
  -- the score that an order needs never smaller. The stop and the profit taken are not larger than their
  -- tuned defaults exactly if the position is not a long one in a risk-off regime or the default is at
  -- least 0.03 and 0.06: below these, which the bounds of the overrides allow, a risk-off regime loosens
  -- them. For a short position and in every regime but risk-off these limits are as without a regime,
  -- and so is the daily loss in every regime but risk-off. The cut of a purchase is eased only in a
  -- regime that is risk-on and not risk-off, for a momentum that is not negative, and it does not become
  -- negative. This rests on the laws of floats, for defaults that are numbers.
  pub posture-Tightens :
      IsOrdered W
      → (regime : Option (Json W)) (is_long : Bool) (stop profit default momentum : W) → stop ≼ stop
      → profit ≼ profit
      → default ≼ default
      → Tightens regime is_long stop profit default
        × ((is_long && is_risk_off regime) ≡ false → IsNeutral regime is_long stop profit default)
        × (is_risk_off regime ≡ false → daily_loss_limit_pct regime ≡ daily_loss_limit_pct none)
        × ((buy_threshold regime default momentum ≡ default)
            ⊎ ((is_risk_on regime ≡ true) × (is_risk_off regime ≡ false) × (dec 0 0 ≼ momentum)))
        × (dec 0 0 ≼ default → dec 0 0 ≼ buy_threshold regime default momentum)
  unfolding buy_threshold
  posture-Tightens laws regime is_long stop profit default momentum s p n =
      let zero_num = laws.le_lit _ _ (omega arith) in
      (
        posture-limits laws regime is_long stop profit default s p n,
        neutral regime is_long stop profit default,
        daily_neutral regime,
        (elim (Bool-cases (is_risk_on regime)) [
          | inr off ↦ inl (rw off refl)
          | inl on ↦ elim (Bool-cases (f.le (dec 0 0) momentum)) [
            | inr below ↦ inl (rw (on, below) refl)
            | inl above ↦ inr (on, not_off regime on, above)
          ]
        ]),
        (λ h. elim (Bool-cases (is_risk_on regime && f.le (dec 0 0) momentum)) [
          | inl eased ↦ rw eased (le-max laws (dec 0 0) (f.sub default (dec 5 2)) zero_num)
          | inr as_is ↦ rw as_is h
        ]),
      )
