-- ===== src/Regime.antt =====
-- api/services/regime_risk.py: the risk posture of a macro regime, with its constants of
-- api/constants.py. A regime is what was read, and may be missing. `STOP_LOSS_PCT` and
-- `TAKE_PROFIT_PCT`, which the file of overrides may set, are arguments.
pub mod Posture
use trading_control.Prelude.{
  Bool, true, false, ◌&&◌, Option, none, some, String, str_eq, if◌then◌else◌,
}
use trading_control.Float.{Float, dec, max}
use trading_control.Json.{Json, text, obj, member}

module _ {W : Type 0} where
  unfoldable pub regime_of : Option (Json W) → Option (Json W)
  unfolding member
  regime_of (some (obj fs)) = member "regime" fs
  regime_of _ = none

  unfoldable pub is_risk_off : Option (Json W) → Bool
  is_risk_off (some (text s)) = str_eq s "risk_off"
  is_risk_off _ = false

  unfoldable pub is_risk_on : Option (Json W) → Bool
  is_risk_on (some (text s)) = str_eq s "risk_on"
  is_risk_on _ = false

module _ {W : Type 0} ⦃f : Float W⦄ where
  open f use {sub, le}

  unfoldable pub buy_threshold : Option (Json W) → W → W → W
  unfolding is_risk_on
  buy_threshold regime default momentum =
      if is_risk_on regime && le (dec 0 0) momentum
      then max (dec 0 0) (sub default (dec 5 2))
      else default

  unfoldable pub stop_loss_pct : W → Option (Json W) → Bool → W
  unfolding is_risk_off
  stop_loss_pct default regime is_long = if is_long && is_risk_off regime then dec 3 2 else default

  unfoldable pub take_profit_pct : W → Option (Json W) → Bool → W
  unfolding is_risk_off
  take_profit_pct default regime is_long =
      if is_long && is_risk_off regime then dec 6 2 else default

  unfoldable pub daily_loss_limit_pct : Option (Json W) → W
  unfolding is_risk_off
  daily_loss_limit_pct regime = if is_risk_off regime then dec 15 3 else dec 2 2

  unfoldable pub size_multiplier : Option (Json W) → Bool → W
  unfolding is_risk_off
  size_multiplier regime is_long = if is_long && is_risk_off regime then dec 5 1 else dec 1 0

  unfoldable pub min_confidence : Option (Json W) → W → Bool → W
  unfolding is_risk_off
  min_confidence regime default is_long =
      if is_long && is_risk_off regime then max default (dec 35 2) else default

  unfoldable pub execution_threshold : Option (Json W) → W → Bool → W
  unfolding is_risk_off
  execution_threshold regime default is_long =
      if is_long && is_risk_off regime then max default (dec 65 2) else default
