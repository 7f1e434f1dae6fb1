-- ===== src/PositionMath.antt =====
-- api/services/execution/position_math.py: the arithmetic of positions. A position is a dict as it
-- is read from JSON. A field that is no number raises, which is `none`; `quantity_value` reads as
-- zero what raises, an int beyond the floats included, for which the source does not catch the
-- OverflowError. `apply_signed_delta`, which the program no longer calls, is left out.
use trading_control.Prelude.Options.{◌>>=◌}
use trading_control.Prelude.{
  Bool, false, ◌&&◌, ◌||◌, not, Option, none, some, String, str_eq, if◌then◌else◌,
}
use trading_control.Prelude.Texts.{eq_stripped}
use trading_control.Float.{Float, dec, min}
use trading_control.Json.{Json, text, Fields, member, float_or}

-- `side in (OrderSide.SELL, PositionSide.SHORT)` and `side in (OrderSide.BUY, PositionSide.LONG)`
unfoldable pub sells : String → Bool
sells side = str_eq side "sell" || str_eq side "short"

unfoldable pub buys : String → Bool
buys side = str_eq side "buy" || str_eq side "long"

module _ {W : Type 0} where
  -- `_side_str(raw) == word`: only a text reads like one of the words that are asked for.
  unfoldable pub side_is : Option (Json W) → String → Bool
  unfolding eq_stripped
  side_is (some (text s)) word = eq_stripped s word
  side_is _ word = false

module _ {W : Type 0} ⦃f : Float W⦄ where
  open f use {sub, mul, div, neg, abs, lt, le, same, round}

  -- `float(prior_position.get(FieldName.QTY) or 0)`
  unfoldable pub qty_of : Fields W → Option W
  unfolding float_or member
  qty_of p = float_or (dec 0 0) (member "qty" p)

  unfoldable pub is_side : String → Fields W → Bool
  unfolding side_is member
  is_side word p = side_is (member "side" p) word

  unfoldable pub compute_realized_pnl : Fields W → String → W → W → Option W
  unfolding sells buys qty_of is_side float_or member
  compute_realized_pnl prior side qty fill_price = do
    prior_entry ← float_or fill_price (member "entry_price" prior)
    prior_qty ← qty_of prior
    let held = lt (dec 0 0) prior_qty
    let closed_qty = min qty prior_qty
    if is_side "long" prior && sells side && held
        then some (round 8 (mul (sub fill_price prior_entry) closed_qty))
        else if is_side "short" prior && buys side && held
        then some (round 8 (mul (sub prior_entry fill_price) closed_qty))
        else some (dec 0 0)

  unfoldable pub compute_pnl_percent : Fields W → String → W → W → W → Option W
  unfolding qty_of
  compute_pnl_percent prior side qty entry_price realized_pnl =
      let known = (do
        prior_qty ← qty_of prior
        let closed_qty = if lt (dec 0 0) prior_qty then min qty prior_qty else qty
        let cost_basis = mul entry_price (if lt (dec 0 0) closed_qty then closed_qty else qty)
        some (
            if lt (dec 0 0) cost_basis
            then mul (div realized_pnl cost_basis) (dec 100 0)
            else dec 0 0)) in
      if le entry_price (dec 0 0) || same realized_pnl (dec 0 0) then some (dec 0 0) else known

  unfoldable pub is_round_trip_close : Fields W → String → Option Bool
  unfolding qty_of sells buys is_side
  is_round_trip_close prior side = do
    prior_qty ← qty_of prior
    some (
        not (le prior_qty (dec 0 0))
        && ((sells side && is_side "long" prior) || (buys side && is_side "short" prior)))

  unfoldable pub reject_unmatched_sell : String → Fields W → Option Bool
  unfolding sells qty_of is_side
  reject_unmatched_sell side prior =
      let read = (do
        prior_qty ← qty_of prior
        some (not (is_side "long" prior && lt (dec 0 0) prior_qty))) in
      if sells side then read else some false

  -- `position.get(QTY, position.get(QUANTITY))`: the first of the two keys that is there
  unfoldable pub quantity_of : Fields W → Option (Json W)
  unfolding member
  quantity_of p = elim (member "qty" p) [ some v ↦ some v | none ↦ member "quantity" p ]

  -- `try: float(qty or 0.0) except (TypeError, ValueError): 0.0`
  unfoldable pub quantity_value : Option (Json W) → W
  unfolding float_or
  quantity_value v = elim (float_or (dec 0 0) v) [ some x ↦ x | none ↦ dec 0 0 ]

  unfoldable pub signed_position_qty : Option (Fields W) → W
  unfolding quantity_of quantity_value is_side
  signed_position_qty none = dec 0 0
  signed_position_qty (some p) =
      let qty_value = quantity_value (quantity_of p) in
      if is_side "short" p || is_side "sell" p || is_side "sold" p
      then neg (abs qty_value)
      else if is_side "long" p || is_side "buy" p || is_side "bought" p
      then abs qty_value
      else qty_value

  unfoldable pub clamp_buy_to_position_limit : Option (Fields W) → W → W → W
  unfolding signed_position_qty
  clamp_buy_to_position_limit prior qty max_position_qty =
      let room = sub max_position_qty (signed_position_qty prior) in
      if le room (dec 0 0) then dec 0 0 else min qty room
