-- ===== src/Examples/Policies.antt =====
-- The deterministic policy in a risk-off regime, and a context that it cannot read.
use trading_control.Prelude.{◌≡◌, ◌↔◌, ◌⊎◌, refl, true, false, ◌&&◌, Option, none, some}
use trading_control.Prelude.Int.{ℤ}
use trading_control.Float.{dec, ◌≼◌}
use trading_control.Float.Fixed.{fixed}
use trading_control.Float.FixedLaws.{fixed-IsOrdered}
use trading_control.Json.{Json, Fields, end, field, num, text, obj}
use trading_control.Regime.{is_risk_on, is_risk_off, buy_threshold, daily_loss_limit_pct}
use trading_control.Regime.Posture.{Tightens, IsNeutral, posture-Tightens}
use trading_control.Policy.{
  Decision, Perception, default_policy_params, decide_policy, perceive, score_of, sell, under_cut,
}
use trading_control.Policy.Decisions.{Malformed, Decides, decide_policy-none, decide_policy-Decides}

abbrev risk_off : Option (Json ℤ)
risk_off = some (text "risk_off")

posture-Tightens_example :
    Tightens risk_off true (dec 5 2) (dec 10 2) (dec 20 2)
    × ((true && is_risk_off risk_off) ≡ false
        → IsNeutral risk_off true (dec 5 2) (dec 10 2) (dec 20 2))
    × (is_risk_off risk_off ≡ false
        → daily_loss_limit_pct risk_off ≡ daily_loss_limit_pct {W = ℤ} none)
    × ((buy_threshold risk_off (dec 20 2) (dec 1 0) ≡ dec 20 2)
        ⊎ ((is_risk_on risk_off ≡ true)
            × (is_risk_off risk_off ≡ false)
            × (dec 0 0 ≼ dec {W = ℤ} 1 0)))
    × (dec 0 0 ≼ dec {W = ℤ} 20 2 → dec 0 0 ≼ buy_threshold risk_off (dec 20 2) (dec 1 0))
posture-Tightens_example =
    posture-Tightens fixed-IsOrdered risk_off true (dec 5 2) (dec 10 2) (dec 20 2) (dec 1 0) refl
      refl refl

abbrev signal : Fields ℤ
signal = field "direction" (text "bearish") (field "composite_score" (num (dec 9 1)) end)

abbrev context : Fields ℤ
context =
    field "macro_regime" (obj (field "regime" (text "risk_off") end))
      (field "news_sentiment" (obj (field "sentiment" (num (dec 1 1)) end)) end)

abbrev sale : Decision ℤ
sale = record {
  action = sell;
  why = under_cut;
  confidence = dec 9 1;
  size_pct = dec 18 3;
  stop_atr_x = dec 15 1;
  rr_ratio = dec 2 0;
}

decided : decide_policy signal context default_policy_params ≡ some sale
unfolding decide_policy
decided = refl

decide_policy-Decides_example :
    (p : Perception ℤ) × (perceive signal context ≡ some p)
    × Decides default_policy_params p (score_of default_policy_params p) sell
decide_policy-Decides_example =
    decide_policy-Decides fixed-IsOrdered signal context default_policy_params sale refl decided

abbrev unread : Fields ℤ
unread = field "news_sentiment" (obj (field "sentiment" (text "high") end)) end

decide_policy-none_example :
    (decide_policy signal unread default_policy_params ≡ none) ↔ Malformed signal unread
decide_policy-none_example = decide_policy-none signal unread default_policy_params
