-- ===== src/Execution/Clamps.antt =====
-- What the guards leave of the quantity of an order, and the position after it.

use trading_control.Prelude.Options.{some-inj}
use trading_control.Prelude.{
  ◌≡◌, refl, sym, ◌∙◌, subst, Bool, true, false, String, Bool-cases, inl, inr, arith, eq_iff, not,
  if◌then◌else◌, ◌&&◌, some, none, ◌≢◌,
}
use trading_control.Float.{Float, IsOrdered, IsSigned, ◌≼◌, ◌≺◌, dec}
use trading_control.Json.{num, Fields, member, float_or}
use trading_control.PositionMath.{
  sells, buys, qty_of, reject_unmatched_sell, clamp_buy_to_position_limit, signed_position_qty,
  is_side,
}
use trading_control.PaperBroker.{is_buy, direction}
use trading_control.Execution.{Order, clamp_sell, clamp_buy, str_eq, some, float_or}

pub is_buy-sell : (side : String) → sells side ≡ true → (is_buy side ≡ false) × (buys side ≡ false)
unfolding sells is_buy buys
is_buy-sell side h = elim (Bool-cases (str_eq side "sell")) [
  | inl e ↦
      subst (λ s. (is_buy s ≡ false) × (buys s ≡ false)) (sym ((eq_iff side "sell").0 e))
        (refl, refl)
  | inr e ↦
      subst (λ s. (is_buy s ≡ false) × (buys s ≡ false))
        (sym ((eq_iff side "short").0 (ground arith))) (refl, refl)
]

pub is_buy-buy : (side : String) → buys side ≡ true → (is_buy side ≡ true) × (sells side ≡ false)
unfolding buys is_buy sells
is_buy-buy side h = elim (Bool-cases (str_eq side "buy")) [
  | inl e ↦
      subst (λ s. (is_buy s ≡ true) × (sells s ≡ false)) (sym ((eq_iff side "buy").0 e))
        (refl, refl)
  | inr e ↦
      subst (λ s. (is_buy s ≡ true) × (sells s ≡ false))
        (sym ((eq_iff side "long").0 (ground arith))) (refl, refl)
]

if-same : {A : Type 0} (b : Bool) (x : A) → x ≡ (if b then x else x)
if-same true x = refl
if-same false x = refl

none-ne-some : {A : Type 0} {a : A} → none ≢ some a
none-ne-some h = cc

module _ {W : Type 0} ⦃f : Float W⦄ where
  qty_of-num :
      (p : Fields W) (q : W)
      → member "qty" p ≡ some (num q)
      → qty_of p ≡ some (if f.same q (dec 0 0) then dec 0 0 else q)
  unfolding qty_of float_or
  qty_of-num p q g = elim (Bool-cases (f.same q (dec 0 0))) [
    | inl z ↦ rw (g, z) refl
    | inr nz ↦ rw (g, nz) refl
  ]

  pub reject-positive :
      (side : String) (p : Fields W) (x : W)
      → qty_of p ≡ some x
      → sells side ≡ true
      → reject_unmatched_sell side p ≡ some false
      → dec 0 0 ≺ x
  unfolding reject_unmatched_sell
  reject-positive side p x g s h =
      let read : some (not (is_side "long" p && f.lt (dec 0 0) x)) ≡ some false = rw (s, g) at h in
      ground arith

module _ {W : Type 0} ⦃f : Float W⦄ (laws : IsOrdered W) (signs : IsSigned W) where
  open laws use {le_nums, le_of_lt, le_of_not_lt, not_le_of_lt, le_lit, sub_nonneg}

  zero_num : f.le (dec 0 0) (dec 0 0) ≡ true
  zero_num = le_lit _ _ (omega arith)

  not_lt_zero : f.lt (dec 0 0) (dec 0 0) ≡ true → ⊥
  not_lt_zero e =
      let zero : W = dec 0 0 in
      let clash : true ≡ false = sym zero_num ∙ not_le_of_lt zero zero e in cc

  le-total : (x y : W) → x ≼ x → y ≼ y → f.le x y ≡ false → y ≼ x
  le-total x y nx ny h = elim (Bool-cases (f.lt x y)) [
    | inl e ↦ let clash : true ≡ false = sym (le_of_lt x y e) ∙ h in cc
    | inr e ↦ le_of_not_lt x y nx ny e
  ]

  -- A sale that is not rejected is of a position that holds something.
  pub reject-held :
      (side : String) (p : Fields W) (q : W)
      → member "qty" p ≡ some (num q)
      → sells side ≡ true
      → reject_unmatched_sell side p ≡ some false
      → qty_of p ≡ some q
  reject-held side p q g s h =
      let read = qty_of-num p q g in
      elim (Bool-cases (f.same q (dec 0 0))) [
        | inl z ↦
            let e : qty_of p ≡ some (dec 0 0) = read ∙ rw z refl in
            absurd (not_lt_zero (reject-positive side p (dec 0 0) e s h))
        | inr nz ↦ read ∙ rw nz refl
      ]

  -- After a sale the quantity, if it is a number, is not negative.
  pub sale-nonneg :
      (o : Order W) (p : Fields W) (q sold : W)
      → qty_of p ≡ some q
      → dec 0 0 ≺ q
      → sells o.side ≡ true
      → clamp_sell o p ≡ some sold
      → (let new = f.add q (f.mul sold (direction false)) in new ≼ new → dec 0 0 ≼ new)
  unfolding clamp_sell direction
  sale-nonneg o p q sold g held s h n =
      let (num_q, num_m) = signs.add_nums q (f.mul sold (direction false)) n in
      let num_sold = signs.mul_num sold (direction false) num_m in
      let same : (if f.lt (dec 0 0) q && f.lt q o.qty then q else o.qty) ≡ sold =
        some-inj (rw (s, g) at h) in
      let within : sold ≼ q = elim (Bool-cases (f.lt q o.qty)) [
        | inl less ↦ subst (λ x. x ≼ q) same (rw (held, less) num_q)
        | inr enough ↦
            let all : o.qty ≡ sold = rw (held, enough) at same in
            let num_qty = subst (λ x. x ≼ x) (sym all) num_sold in
            subst (λ x. x ≼ q) all (le_of_not_lt q o.qty num_q num_qty enough)
      ] in
      let eq = signs.add_minus q sold in
      subst (λ x. dec 0 0 ≼ x) (sym eq) (sub_nonneg sold q within (subst (λ x. x ≼ x) eq n))

  -- The comparison with the quantity changes nothing.
  same-capped :
      (p : Fields W) (max_position qty : W)
      → let capped = clamp_buy_to_position_limit (some p) qty max_position in
        f.le capped (dec 0 0) ≡ false → capped ≡ (if f.lt capped qty then capped else qty)
  unfolding clamp_buy_to_position_limit
  same-capped p max_position qty free =
      let room = f.sub max_position (signed_position_qty (some p)) in
      elim (Bool-cases (f.le room (dec 0 0))) [
        | inl none' ↦ let clash : true ≡ false = sym zero_num ∙ (rw none' at free) in cc
        | inr some' ↦ elim (Bool-cases (f.lt room qty)) [
          | inl less ↦ rw (some', less, less) refl
          | inr more ↦ rw (some', more) (if-same (f.lt qty qty) qty)
        ]
      ]

  -- What is left of a purchase that finds room, if it is a number, is not negative.
  bought-nonneg :
      (o : Order W) (max_position : W) (p : Fields W) (qty bought : W)
      → buys o.side ≡ true
      → clamp_buy max_position o p qty ≡ some bought
      → bought ≼ bought
      → dec 0 0 ≼ bought
  unfolding clamp_buy
  bought-nonneg o max_position p qty bought s h n =
      let zero : W = dec 0 0 in
      let capped = clamp_buy_to_position_limit (some p) qty max_position in
      elim (Bool-cases (f.le capped (dec 0 0))) [
        | inl full ↦ absurd (none-ne-some (rw (s, full) at h))
        | inr free ↦
            let same : (if f.lt capped qty then capped else qty) ≡ bought =
              some-inj (rw (s, free) at h) in
            let eq = same-capped p max_position qty free ∙ same in
            let num' = subst (λ x. x ≼ x) (sym eq) n in
            subst (λ x. zero ≼ x) eq (le-total capped zero num' zero_num free)
      ]

  -- After a purchase the quantity, if it is a number, is not negative.
  pub purchase-nonneg :
      (o : Order W) (max_position : W) (p : Fields W) (q qty bought : W)
      → (q ≼ q → dec 0 0 ≼ q)
      → buys o.side ≡ true
      → clamp_buy max_position o p qty ≡ some bought
      → (let new = f.add q (f.mul bought (direction true)) in new ≼ new → dec 0 0 ≼ new)
  unfolding direction
  purchase-nonneg o max_position p q qty bought held s h n =
      let (num_q, num_m) = signs.add_nums q (f.mul bought (direction true)) n in
      let num_b = signs.mul_num bought (direction true) num_m in
      let eq = signs.mul_one bought in
      subst (λ x. dec 0 0 ≼ f.add q x) (sym eq)
        (signs.add_nonneg q bought (held num_q)
          (bought-nonneg o max_position p qty bought s h num_b))
