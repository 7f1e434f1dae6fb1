-- ===== src/PaperBroker/Held.antt =====
-- Positions that are not short if their quantity is a number, and what one order makes of them.
use trading_control.Prelude.Dict.{put}
use trading_control.Prelude.Texts.{eq_stripped}
use trading_control.Prelude.{
  ◌≡◌, refl, sym, ◌∙◌, Bool, true, false, String, Bool-cases, inl, inr, arith, ◌⊎◌, Option, some,
  Option-cases,
}
use trading_control.Float.{Float, IsOrdered, IsSigned, ◌≼◌, ◌≺◌, dec}
use trading_control.Json.{num, Fields, member, Json, float_or}
use trading_control.PositionMath.{is_side}
use trading_control.PaperBroker.{
  Basis, Side, long, flat, basis_after, payload, tiny, is_positive, some, Option, Broker,
  get_position, direction, is_buy, place_order, filled_at, current_qty_of, put, order_on, side_text,
}

module _ {W : Type 0} ⦃f : Float W⦄ where
  -- The quantity of a position is there; if it is a number it is not negative, and the position is
  -- not a short one.
  abbrev pub IsHeld : Fields W → Type 0
  IsHeld p =
      (q : W) × (member "qty" p ≡ some (num q))
      × (q ≼ q → (dec 0 0 ≼ q) × (is_side "short" p ≡ false))

  payload-side :
      (symbol : String) (new fill_price : W) (basis : Basis W) (side : Side)
      → basis.side ≡ side
      → eq_stripped (side_text side) "short" ≡ false
      → is_side "short" (payload symbol new fill_price basis) ≡ false
  unfolding payload is_side
  payload-side symbol new fill_price basis side e h = rw e h

  current-num : (p : Fields W) (q : W) → member "qty" p ≡ some (num q) → current_qty_of p ≡ some q
  unfolding current_qty_of
  current-num p q g = rw (g, current_qty_of) refl

  module _ (laws : IsOrdered W) (signs : IsSigned W) where
    open laws use {le_nums, le_trans, le_of_lt, le_of_not_lt, not_le_of_lt, lt_lit}

    -- A number that is not negative, and not as small as to count as none, is positive.
    positive-big : (x : W) → x ≼ x → dec 0 0 ≼ x → tiny x ≡ false → is_positive x ≡ true
    positive-big x n h t = elim (Bool-cases (is_positive x)) [
      | inl e ↦ e
      | inr e ↦
          let zero : W = dec 0 0 in
          let eps : W = dec 1 9 in
          let below : x ≼ zero = le_of_not_lt zero x (le_nums zero x h).0 n e in
          let z : f.abs x ≼ zero = signs.abs_zero x h below in
          let s : zero ≺ eps = lt_lit _ _ (omega arith) (omega arith) (omega arith) in
          let num_eps = (le_nums zero eps (le_of_lt zero eps s)).1 in
          let big : eps ≼ f.abs x =
            le_of_not_lt (f.abs x) eps (le_nums (f.abs x) zero z).0 num_eps t in
          let clash : true ≡ false =
            sym (le_trans eps (f.abs x) zero big z) ∙ not_le_of_lt zero eps s in
          cc
    ]

    -- A number that is not negative makes no short position.
    pub basis-not_short :
        (buy : Bool) (qty fill_price current prior new : W) (opened : Option (Json W))
        (now : String)
        → new ≼ new
        → dec 0 0 ≼ new
        → ((basis_after buy qty fill_price current prior new opened now).side ≡ long)
          ⊎ ((basis_after buy qty fill_price current prior new opened now).side ≡ flat)
    unfolding basis_after
    basis-not_short buy qty fill_price current prior new opened now n h =
        elim (Bool-cases (tiny new)) [
          | inl t ↦ rw t (inr refl)
          | inr t ↦ let up = positive-big new n h t in inl (ground (arith, up, t))
        ]

    payload-IsHeld :
        (symbol : String) (new fill_price : W) (basis : Basis W)
        → (new ≼ new → (dec 0 0 ≼ new) × ((basis.side ≡ long) ⊎ (basis.side ≡ flat)))
        → IsHeld (payload symbol new fill_price basis)
    unfolding payload member eq_stripped
    payload-IsHeld symbol new fill_price basis h = (
      new,
      refl,
      λ n. (
        (h n).0,
        elim ((h n).1) [
          | inl e ↦ payload-side symbol new fill_price basis long e refl
          | inr e ↦ payload-side symbol new fill_price basis flat e refl
        ],
      ),
    )

    -- What an order makes of a position with so much in it.
    pub order_on-IsHeld :
        (symbol side : String) (qty price slippage : W) (now id : String) (b : Broker W)
        (q prior : W)
        → (let new = f.add q (f.mul qty (direction (is_buy side))) in new ≼ new → dec 0 0 ≼ new)
        → (p : Fields W) × ((order_on symbol side qty price slippage now id b q prior).0.positions
            ≡ put symbol p b.positions)
          × IsHeld p
    unfolding order_on
    order_on-IsHeld symbol side qty price slippage now id b q prior h =
        let buy = is_buy side in
        let new = f.add q (f.mul qty (direction buy)) in
        let fill_price = filled_at buy slippage price in
        let opened = member "opened_at" (get_position symbol b) in
        let basis = basis_after buy qty fill_price q prior new opened now in
        (
          payload symbol new fill_price basis,
          refl,
          payload-IsHeld symbol new fill_price basis
              (λ n. (h n, basis-not_short buy qty fill_price q prior new opened now n (h n))),
        )

  -- The broker after an order, which may have raised.
  pub place_order_lem :
      (symbol side : String) (qty price slippage : W) (now id : String) (b : Broker W) (q : W)
      → member "qty" (get_position symbol b) ≡ some (num q)
      → let b' = (place_order symbol side qty price slippage now id b).0 in
        (b'.positions ≡ b.positions)
        ⊎ ((prior : W) × (b' ≡ (order_on symbol side qty price slippage now id b q prior).0))
  unfolding place_order
  place_order_lem symbol side qty price slippage now id b q g =
      let position = get_position symbol b in
      let current : current_qty_of position ≡ some q = current-num position q g in
      elim (Option-cases (float_or (dec 0 0) (member "entry_price" position))) [
        | inl e ↦ inl (rw (current, e, place_order) refl)
        | inr (prior, e) ↦ inr (prior, rw (current, e, place_order) refl)
      ]
