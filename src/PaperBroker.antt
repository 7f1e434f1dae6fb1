-- ===== src/PaperBroker.antt =====
-- api/services/execution/brokers/paper.py: what Redis holds under the keys of the paper broker, and
-- `place_order`. The draw of the slippage, the time and the id of the order are arguments; errors of
-- Redis are left out, and a text that is no number raises, which is `none`.
pub mod Held
use trading_control.Prelude.Options.{◌>>=◌}
use trading_control.Prelude.{
  Bool, true, false, ◌&&◌, ◌||◌, not, Option, none, some, List, [], ◌∷◌, ◌++◌, String, str_eq,
  if◌then◌else◌,
}
use trading_control.Prelude.Int.{ℤ, pos, negsuc}
use trading_control.Prelude.Dict.{Dict, get, put}
use trading_control.Prelude.Texts.{eq_lower}
use trading_control.Float.{Float, dec}
use trading_control.Json.{
  Json, text, num, null, Fields, end, field, member, to_float, float_or, first_truthy,
}

pub record PlacedOrder (W : Type 0) : Type 0 where
  pub broker_order_id : String
  pub symbol : String
  pub filled_qty : W
  pub fill_price : W

pub record Broker (W : Type 0) : Type 0 where
  -- none until the key is set
  pub cash : Option W
  pub positions : Dict (Fields W)
  pub orders : Dict (PlacedOrder W)

-- `normalized_side in {OrderSide.BUY, PositionSide.LONG}`
unfoldable pub is_buy : String → Bool
unfolding eq_lower
is_buy side = eq_lower side "buy" || eq_lower side "long"

pub data Side : Type 0 where
  long short flat : Side

abbrev pub side_text : Side → String
side_text long = "long"
side_text short = "short"
side_text flat = "flat"

abbrev pub same_bool : Bool → Bool → Bool
same_bool true b = b
same_bool false b = not b

-- What a fill makes of the entry price, the side and the age of a position.
pub record Basis (W : Type 0) : Type 0 where
  pub entry_price : W
  pub side : Side
  pub opened_at : Json W

module _ {W : Type 0} ⦃f : Float W⦄ where
  open f use {add, sub, mul, div, abs, lt, le, round, of_ℤ}

  abbrev pub default_paper_cash : W
  default_paper_cash = dec 100000 0

  -- `_flat_position`
  unfoldable pub flat_position : String → Fields W
  flat_position symbol = field "symbol" (text symbol) (
      field "side" (text "flat") (
        field "qty" (num (dec 0 0)) (
          field "entry_price" (num (dec 0 0))
            (field "current_price" (num (dec 0 0)) (field "opened_at" null end)))))

  unfoldable pub get_position : String → Broker W → Fields W
  unfolding flat_position
  get_position symbol b = elim (get symbol b.positions) [ none ↦ flat_position symbol | some p ↦ p ]

  -- `get_cash`, after `setnx`
  unfoldable pub get_cash : Broker W → W
  get_cash b = elim b.cash [ none ↦ default_paper_cash | some c ↦ c ]

  -- `direction`
  unfoldable pub direction : Bool → W
  direction true = of_ℤ (pos 1)
  direction false = of_ℤ (negsuc 0)

  unfoldable pub filled_at : Bool → W → W → W
  unfolding direction
  filled_at buy slippage_pct price =
      round 8 (mul price (add (of_ℤ (pos 1)) (mul (direction buy) slippage_pct)))

  abbrev pub tiny : W → Bool
  tiny x = lt (abs x) (dec 1 9)

  abbrev pub is_positive : W → Bool
  is_positive x = lt (dec 0 0) x

  abbrev pub side_of : W → Side
  side_of new_qty = if is_positive new_qty then long else short

  -- `prior_opened_at or now_iso`
  unfoldable pub opened_or : Option (Json W) → String → Json W
  unfolding first_truthy
  opened_or prior now = elim (first_truthy prior none) [ some v ↦ v | none ↦ text now ]

  unfoldable pub basis_after : Bool → W → W → W → W → W → Option (Json W) → String → Basis W
  unfolding opened_or
  basis_after buy qty fill_price current_qty prior_entry new_qty prior_opened_at now =
      if tiny new_qty
      then record { entry_price = dec 0 0; side = flat; opened_at = null }
      else if tiny current_qty || le prior_entry (dec 0 0)
      then record { entry_price = fill_price; side = side_of new_qty; opened_at = text now }
      else if same_bool (is_positive current_qty) buy
      then record {
        entry_price =
            div (add (mul prior_entry (abs current_qty)) (mul fill_price qty)) (abs new_qty);
        side = side_of new_qty;
        opened_at = opened_or prior_opened_at now;
      }
      else if not (same_bool (is_positive current_qty) (is_positive new_qty))
      then record { entry_price = fill_price; side = side_of new_qty; opened_at = text now }
      else record {
        entry_price = prior_entry;
        side = side_of new_qty;
        opened_at = opened_or prior_opened_at now;
      }

  -- `position_payload`
  unfoldable pub payload : String → W → W → Basis W → Fields W
  payload symbol new_qty fill_price basis = field "symbol" (text symbol) (
      field "side" (text (side_text basis.side)) (
        field "qty" (num new_qty) (
          field "entry_price" (num basis.entry_price)
            (field "current_price" (num fill_price) (field "opened_at" basis.opened_at end)))))

  -- `float(current_position.get(QTY, 0.0))`
  unfoldable pub current_qty_of : Fields W → Option W
  unfolding member to_float
  current_qty_of p = elim (member "qty" p) [ none ↦ some (dec 0 0) | some v ↦ to_float v ]

  -- The cash after the order, which is written first.
  unfoldable pub cash_after : String → W → W → W → Broker W → W
  unfolding is_buy filled_at get_cash
  cash_after side qty price slippage_pct b =
      let buy = is_buy side in
      let notional = mul qty (filled_at buy slippage_pct price) in
      if buy then sub (get_cash b) notional else add (get_cash b) notional

  -- The order on a position of `current_qty` at `prior_entry`.
  unfoldable pub order_on :
      String → String → W → W → W → String → String → Broker W → W → W → Broker W × PlacedOrder W
  unfolding is_buy filled_at cash_after get_position basis_after payload member put direction
  order_on symbol side qty price slippage_pct now order_id b current_qty prior_entry =
      let buy = is_buy side in
      let fill_price = filled_at buy slippage_pct price in
      let new_qty = add current_qty (mul qty (direction buy)) in
      let basis =
        basis_after buy qty fill_price current_qty prior_entry new_qty
          (member "opened_at" (get_position symbol b)) now in
      let order : PlacedOrder W = record {
        broker_order_id = order_id;
        symbol = symbol;
        filled_qty = qty;
        fill_price = fill_price;
      } in
      (
        record {
          cash = some (cash_after side qty price slippage_pct b);
          positions = put symbol (payload symbol new_qty fill_price basis) b.positions;
          orders = put order_id order b.orders;
        },
        order,
      )

  -- The broker after the call, and the order unless the call raises. The cash is written before the
  -- position is read, also where that read then raises.
  unfoldable pub place_order :
      String → String → W → W → W → String → String → Broker W → Broker W × Option (PlacedOrder W)
  unfolding order_on cash_after get_position current_qty_of float_or member
  place_order symbol side qty price slippage_pct now order_id b =
      let position = get_position symbol b in
      let raised : Broker W × Option (PlacedOrder W) =
        (record b { cash = some (cash_after side qty price slippage_pct b) }, none) in
      elim (current_qty_of position) [
        | none ↦ raised
        | some current_qty ↦ elim (float_or (dec 0 0) (member "entry_price" position)) [
          | none ↦ raised
          | some prior_entry ↦
              let (b', order) =
                order_on symbol side qty price slippage_pct now order_id b current_qty
                  prior_entry in
              (b', some order)
        ]
      ]
