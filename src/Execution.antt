-- ===== src/Execution.antt =====
-- api/services/execution/execution_engine.py: the fill of an order without a database, from its
-- guard against a second delivery to the fill, with the paper broker. The gates and the sizing before
-- it are not modelled: an order comes with its quantity. The dedup keys are those that have not
-- expired, a lock is held by another order, and the settings' limit is an argument.
pub mod Delivered
pub mod Clamps
pub mod LongOnly
use trading_control.Prelude.Options.{◌>>=◌}
use trading_control.Prelude.{
  Bool, true, false, ◌&&◌, Option, none, some, List, [], ◌∷◌, ◌++◌, String, str_eq, any,
  if◌then◌else◌,
}
use trading_control.Float.{Float, dec}
use trading_control.Json.{Fields, member, float_or}
use trading_control.PositionMath.{
  sells, buys, qty_of, compute_realized_pnl, compute_pnl_percent, is_round_trip_close,
  reject_unmatched_sell, clamp_buy_to_position_limit,
}
use trading_control.PaperBroker.{Broker, PlacedOrder, get_position, place_order}

pub record Order (W : Type 0) : Type 0 where
  pub symbol : String
  pub side : String
  pub qty : W
  pub price : W
  pub idempotency_key : String
  -- what the outside adds: the id, the time, and the draw of the slippage
  pub order_id : String
  pub now : String
  pub slippage_pct : W

-- `FillContext`, as far as it is the arithmetic of the fill.
pub record Fill (W : Type 0) : Type 0 where
  pub symbol : String
  pub side : String
  pub qty : W
  pub fill_price : W
  pub entry_price : W
  pub pnl_value : Option W
  pub pnl_percent : W
  pub realized_pnl : W

pub record Engine (W : Type 0) : Type 0 where
  pub broker : Broker W
  -- newest first
  pub dedup : List String
  pub locked : List String
  pub fills : List (Fill W)

pub data Outcome (W : Type 0) : Type 0 where
  duplicate : Outcome W
  -- `RuntimeError`: the lock is held
  lock_held : Outcome W
  -- another error is raised
  failed : Outcome W
  sell_rejected : Outcome W
  buy_rejected : Outcome W
  filled : Fill W → Outcome W

module _ {W : Type 0} ⦃f : Float W⦄ where
  open f use {lt}

  unfoldable pub clamp_sell : Order W → Fields W → Option W
  unfolding sells qty_of
  clamp_sell o prior =
      let clamped = (do
        prior_qty ← qty_of prior
        some (if lt (dec 0 0) prior_qty && lt prior_qty o.qty then prior_qty else o.qty)) in
      if sells o.side then clamped else some o.qty

  -- The figures of a fill.
  unfoldable pub fill_of : Order W → W → Fields W → PlacedOrder W → Option (Fill W)
  unfolding compute_realized_pnl compute_pnl_percent is_round_trip_close float_or member
  fill_of o qty prior placed = do
    realized_pnl ← compute_realized_pnl prior o.side qty placed.fill_price
    entry_price ← float_or placed.fill_price (member "entry_price" prior)
    is_close ← is_round_trip_close prior o.side
    pnl_percent ← compute_pnl_percent prior o.side qty entry_price realized_pnl
    some (record {
      symbol = o.symbol;
      side = o.side;
      qty = qty;
      fill_price = placed.fill_price;
      entry_price = entry_price;
      pnl_value = if is_close then some realized_pnl else none;
      pnl_percent = pnl_percent;
      realized_pnl = realized_pnl;
    })

  -- From the call of the broker on; where it raises, what the broker has written stays.
  unfoldable pub fill : Order W → W → Fields W → Engine W → Engine W × Outcome W
  unfolding place_order fill_of
  fill o qty prior e =
      let (b, order) =
        place_order o.symbol o.side qty o.price o.slippage_pct o.now o.order_id e.broker in
      let sent = record e { broker = b } in
      elim order [
        | none ↦ (sent, failed)
        | some placed ↦ elim (fill_of o qty prior placed) [
          | none ↦ (sent, failed)
          | some done ↦ (record sent { fills = e.fills ++ (done ∷ []) }, filled done)
        ]
      ]

module _ {W : Type 0} ⦃f : Float W⦄ (max_position : W) where
  open f use {lt, le}

  -- `none` where a purchase finds no room.
  unfoldable pub clamp_buy : Order W → Fields W → W → Option W
  unfolding buys clamp_buy_to_position_limit
  clamp_buy o prior qty =
      let capped_qty = clamp_buy_to_position_limit (some prior) qty max_position in
      if buys o.side
      then (if le capped_qty (dec 0 0)
          then none
          else some (if lt capped_qty qty then capped_qty else qty))
      else some qty

  -- What runs under the lock; an error before the fill leaves the state as it was, but for the key.
  unfoldable pub locked_order : Order W → Engine W → Engine W × Outcome W
  unfolding get_position reject_unmatched_sell clamp_sell clamp_buy fill
  locked_order o e =
      let prior = get_position o.symbol e.broker in
      elim (reject_unmatched_sell o.side prior) [
        | none ↦ (e, failed)
        | some true ↦ (e, sell_rejected)
        | some false ↦ elim (clamp_sell o prior) [
          | none ↦ (e, failed)
          | some sold ↦ elim (clamp_buy o prior sold) [
            | none ↦ (e, buy_rejected)
            | some qty ↦ fill o qty prior e
          ]
        ]
      ]

  -- `SET NX` of the dedup key, and then of the lock, which is deleted in the end.
  unfoldable pub submit : Order W → Engine W → Engine W × Outcome W
  unfolding locked_order
  submit o e =
      let e' = record e { dedup = o.idempotency_key ∷ e.dedup } in
      if any (str_eq o.idempotency_key) e.dedup
      then (e, duplicate)
      else if any (str_eq o.symbol) e.locked
      then (e', lock_held)
      else locked_order o e'

  unfoldable pub submit_all : List (Order W) → Engine W → Engine W
  submit_all [] e = e
  submit_all (o ∷ os) e = submit_all os (submit o e).0
