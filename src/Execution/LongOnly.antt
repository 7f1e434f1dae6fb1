-- ===== src/Execution/LongOnly.antt =====
-- Orders to buy and to sell, and the positions whose quantity is a number.
use trading_control.Prelude.Options.{some-inj}
use trading_control.Prelude.Texts.{eq_stripped}
use trading_control.Prelude.{
  ◌≡◌, ◌⊎◌, refl, sym, ap, ◌∙◌, subst, true, false, String, List, [], ◌∷◌, Option, some, Bool-cases,
  Option-cases, inl, inr, str_eq, All, any, arith,
}
use trading_control.Prelude.Dict.{put, get-put_same, get-put_other, get}
use trading_control.Float.{Float, IsOrdered, IsSigned, ◌≼◌, dec}
use trading_control.Json.{num, Fields, member}
use trading_control.PositionMath.{sells, buys, reject_unmatched_sell, is_side}
use trading_control.PaperBroker.{
  Broker, get_position, place_order, is_buy, direction, flat_position,
}
use trading_control.PaperBroker.Held.{IsHeld, order_on-IsHeld, place_order_lem}
use trading_control.Execution.{
  Order, Engine, clamp_sell, clamp_buy, fill, locked_order, submit, submit_all, fill_of,
}
use trading_control.Execution.Clamps.{
  is_buy-sell, is_buy-buy, reject-held, reject-positive, sale-nonneg, purchase-nonneg,
}

module _ {W : Type 0} ⦃f : Float W⦄ where
  -- `IsHeld` of every position of the broker.
  abbrev pub AllHeld : Broker W → Type 0
  AllHeld b = (s : String) → IsHeld (get_position s b)

  -- An order to buy or to sell.
  abbrev pub Trades : Order W → Type 0
  Trades o = (sells o.side ≡ true) ⊎ (buys o.side ≡ true)

  get_position-put :
      (b b' : Broker W) (symbol s : String) (p : Fields W)
      → b'.positions ≡ put symbol p b.positions
      → AllHeld b
      → IsHeld p
      → IsHeld (get_position s b')
  unfolding get_position
  get_position-put b b' symbol s p e all held = elim (Bool-cases (str_eq symbol s)) [
    | inl same ↦
        let g = ap (get s) e ∙ get-put_same symbol s p b.positions same in rw (g, get_position) held
    | inr other ↦
        let g = ap (get s) e ∙ get-put_other symbol s p b.positions other in
        rw (g, get_position) (all s)
  ]

  get_position-same :
      (b b' : Broker W) (s : String)
      → b'.positions ≡ b.positions
      → AllHeld b
      → IsHeld (get_position s b')
  unfolding get_position
  get_position-same b b' s e all =
      subst (λ ps. IsHeld (get_position s (record b' { positions = ps }))) (sym e) (all s)

  -- The broker after a fill is the one that `place_order` leaves.
  fill-broker :
      (o : Order W) (qty : W) (prior : Fields W) (e : Engine W)
      → (fill o qty prior e).0.broker
        ≡ (place_order o.symbol o.side qty o.price o.slippage_pct o.now o.order_id e.broker).0
  unfolding fill
  fill-broker o qty prior e =
      elim (Option-cases
        (place_order o.symbol o.side qty o.price o.slippage_pct o.now o.order_id e.broker).1) [
          | inl r ↦ rw (r, fill) refl
          | inr (placed, r) ↦ elim (Option-cases (fill_of o qty prior placed)) [
            | inl n ↦ rw (r, n, fill) refl
            | inr (done, n) ↦ rw (r, n, fill) refl
          ]
        ]

  sold-qty :
      (max_position : W) (o : Order W) (p : Fields W) (sold qty : W)
      → sells o.side ≡ true
      → clamp_buy max_position o p sold ≡ some qty
      → sold ≡ qty
  unfolding clamp_buy
  sold-qty max_position o p sold qty s h = some-inj (rw ((is_buy-sell o.side s).1) at h)

  module _ (laws : IsOrdered W) (signs : IsSigned W) where
    -- A fill that the guards let through keeps the positions as `IsHeld` says.
    fill-AllHeld :
        (o : Order W) (qty : W) (e : Engine W)
        → AllHeld e.broker
        → (let p = get_position o.symbol e.broker in
            (q : W)
            → member "qty" p ≡ some (num q)
            → (q ≼ q → dec 0 0 ≼ q)
            → let new = f.add q (f.mul qty (direction (is_buy o.side))) in
              new ≼ new → dec 0 0 ≼ new)
        → AllHeld (fill o qty (get_position o.symbol e.broker) e).0.broker
    fill-AllHeld o qty e all keeps =
        let prior = get_position o.symbol e.broker in
        let (q, g, held) = all o.symbol in
        let same = fill-broker o qty prior e in
        subst AllHeld (sym same)
          (elim (place_order_lem o.symbol o.side qty o.price o.slippage_pct o.now o.order_id
            e.broker q g) [
              | inl unmoved ↦ λ s. get_position-same e.broker _ s unmoved all
              | inr (entry, made) ↦
                  let (p, at_symbol, held') =
                    order_on-IsHeld laws signs o.symbol o.side qty o.price o.slippage_pct o.now
                      o.order_id e.broker q entry (keeps q g (λ n. (held n).0)) in
                  subst AllHeld (sym made)
                    (λ s. get_position-put e.broker _ o.symbol s p at_symbol all held')
            ])

    -- What the guards let through does not take more than is there.
    guarded :
        (max_position : W) (o : Order W) (p : Fields W) (sold qty : W)
        → Trades o
        → reject_unmatched_sell o.side p ≡ some false
        → clamp_sell o p ≡ some sold
        → clamp_buy max_position o p sold ≡ some qty
        → (q : W) → member "qty" p ≡ some (num q)
        → (q ≼ q → dec 0 0 ≼ q)
        → let new = f.add q (f.mul qty (direction (is_buy o.side))) in new ≼ new → dec 0 0 ≼ new
    guarded max_position o p sold qty (inl sale) r c d q g held =
        let read = reject-held laws signs o.side p q g sale r in
        let positive = reject-positive o.side p q read sale r in
        let same = sold-qty max_position o p sold qty sale d in
        subst (λ b. let new = f.add q (f.mul qty (direction b)) in new ≼ new → dec 0 0 ≼ new)
          (sym (is_buy-sell o.side sale).0)
          (subst (λ x. let new = f.add q (f.mul x (direction false)) in new ≼ new → dec 0 0 ≼ new)
            same (sale-nonneg laws signs o p q sold read positive sale c))
    guarded max_position o p sold qty (inr purchase) r c d q g held =
        subst (λ b. let new = f.add q (f.mul qty (direction b)) in new ≼ new → dec 0 0 ≼ new)
          (sym (is_buy-buy o.side purchase).0)
          (purchase-nonneg laws signs o max_position p q sold qty held purchase d)

    locked_order-AllHeld :
        (max_position : W) (o : Order W) (e : Engine W)
        → Trades o
        → AllHeld e.broker
        → AllHeld (locked_order max_position o e).0.broker
    unfolding locked_order
    locked_order-AllHeld max_position o e t all =
        let prior = get_position o.symbol e.broker in
        elim (Option-cases (reject_unmatched_sell o.side prior)) [
          | inl r ↦ rw (r, locked_order) all
          | inr (true, r) ↦ rw (r, locked_order) all
          | inr (false, r) ↦ elim (Option-cases (clamp_sell o prior)) [
            | inl c ↦ rw (r, c, locked_order) all
            | inr (sold, c) ↦ elim (Option-cases (clamp_buy max_position o prior sold)) [
              | inl d ↦ rw (r, c, d, locked_order) all
              | inr (qty, d) ↦
                  rw (r, c, d, locked_order)
                    (fill-AllHeld o qty e all (guarded max_position o prior sold qty t r c d))
            ]
          ]
        ]

    submit-AllHeld :
        (max_position : W) (o : Order W) (e : Engine W)
        → Trades o
        → AllHeld e.broker
        → AllHeld (submit max_position o e).0.broker
    unfolding submit
    submit-AllHeld max_position o e t all =
        let e' : Engine W = record e { dedup = o.idempotency_key ∷ e.dedup } in
        elim (Bool-cases (any (str_eq o.idempotency_key) e.dedup)) [
          | inl d ↦ rw d all
          | inr d ↦ elim (Bool-cases (any (str_eq o.symbol) e.locked)) [
            | inl l ↦ rw (d, l) all
            | inr l ↦ rw (d, l) (locked_order-AllHeld max_position o e' t all)
          ]
        ]

    -- Whatever orders to buy or to sell come, in any order and any quantities: where every position
    -- whose quantity is a number has one that is not negative, and is not marked short, the same holds
    -- after them. Nothing is said of a position whose quantity is NaN. This rests on the laws of floats,
    -- of comparison and of signs.
    pub submit_all-AllHeld :
        (max_position : W) (os : List (Order W)) (e : Engine W)
        → All Trades os
        → AllHeld e.broker
        → AllHeld (submit_all max_position os e).broker
    unfolding submit_all
    submit_all-AllHeld max_position [] e t all = all
    submit_all-AllHeld max_position (o ∷ os) e t all =
        submit_all-AllHeld max_position os (submit max_position o e).0 t.1
          (submit-AllHeld max_position o e t.0 all)

    -- A broker with no positions is such a one.
    pub empty-AllHeld :
        (cash : Option W) → AllHeld (record { cash = cash; positions = []; orders = [] })
    unfolding get_position flat_position member is_side eq_stripped get
    empty-AllHeld cash s = (dec 0 0, refl, λ n. (laws.le_lit _ _ (omega arith), refl))
