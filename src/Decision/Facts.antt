-- ===== src/Decision/Facts.antt =====
-- What the decision depends on, and when it is which.
use trading_control.Prelude.{◌≡◌, ◌↔◌, str_eq, refl, false, String, Bool-cases, inl, inr}
use trading_control.Prelude.Dict.{Dict, put, get_or-put}
use trading_control.Float.{Float, IsOrdered, ◌≺◌, dec}
use trading_control.Config.{CognitiveConfig}
use trading_control.Config.Bounds.{IsSafe}
use trading_control.Decision.{Action, buy, sell, contribution, action_of, decide}

module _ {W : Type 0} ⦃f : Float W⦄ where
  contribution-put_risk :
      (features : Dict W) (config : CognitiveConfig W) (risk : W) (key : String)
      → str_eq "risk" key ≡ false
      → contribution (put "risk" risk features) config key ≡ contribution features config key
  unfolding contribution
  contribution-put_risk features config risk key other =
      cc (get_or-put "risk" key (dec 0 0) risk features)

  -- The decision does not read the risk feature: no value of it, present or not, changes anything.
  pub decide-put_risk :
      (features : Dict W) (config : CognitiveConfig W) (risk : W)
      → decide (put "risk" risk features) config ≡ decide features config
  unfolding decide
  decide-put_risk features config risk =
      simp
        (
          contribution-put_risk features config risk "news" refl,
          contribution-put_risk features config risk "tech" refl,
          contribution-put_risk features config risk "macro" refl,
        )
        refl

  -- The thresholds cannot both be passed.
  not-sell-of-buy :
      IsOrdered W
      → (score : W) (config : CognitiveConfig W) → IsSafe config
      → config.buy_threshold ≺ score
      → f.lt score config.sell_threshold ≡ false
  not-sell-of-buy laws score config safe h = elim (Bool-cases (f.lt score config.sell_threshold)) [
    | inl e ↦
        let through = laws.le_trans _ _ _ (laws.le_of_lt _ _ h) (laws.le_of_lt _ _ e) in
        cc (safe.below)
    | inr e ↦ e
  ]

  abbrev Decides : W → CognitiveConfig W → Action → Type 0
  Decides score config action =
      ((action ≡ buy) ↔ (config.buy_threshold ≺ score))
      × ((action ≡ sell) ↔ (score ≺ config.sell_threshold))

  action_of-Decides :
      IsOrdered W
      → (score : W) (config : CognitiveConfig W) → IsSafe config
      → Decides score config (action_of score config)
  unfolding action_of
  action_of-Decides laws score config safe = elim (Bool-cases (f.lt config.buy_threshold score)) [
    | inl b ↦
        let s = not-sell-of-buy laws score config safe b in
        rw b ((λ _. refl, λ _. refl), (λ h. cc, λ h. cc))
    | inr b ↦ elim (Bool-cases (f.lt score config.sell_threshold)) [
      | inl s ↦ rw (b, s) ((λ h. cc, λ h. cc), (λ _. refl, λ _. refl))
      | inr s ↦ rw (b, s) ((λ h. cc, λ h. cc), (λ h. cc, λ h. cc))
    ]
  ]

  -- Under a configuration within its bounds the score decides the action both ways: BUY exactly
  -- above the buy threshold, SELL exactly below the sell threshold. This rests on the laws of
  -- floats.
  pub action-decide :
      IsOrdered W
      → (features : Dict W) (config : CognitiveConfig W) → IsSafe config
      → let d = decide features config in
        ((d.action ≡ buy) ↔ (config.buy_threshold ≺ d.score))
        × ((d.action ≡ sell) ↔ (d.score ≺ config.sell_threshold))
  unfolding decide
  action-decide laws features config safe =
      let d = decide features config in action_of-Decides laws d.score config safe
