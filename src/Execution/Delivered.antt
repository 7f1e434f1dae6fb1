-- ===== src/Execution/Delivered.antt =====
-- An order that is delivered again does nothing, whatever its first delivery came to.
use text.Mathlib.TextPositions.{eq_refl}
use trading_control.PaperBroker.{place_order, get_position}
use trading_control.PositionMath.{reject_unmatched_sell}
use trading_control.Json.{Fields}
use trading_control.Prelude.{
  ◌≡◌, refl, ap, ◌∙◌, Bool, true, false, String, List, [], ◌∷◌, Bool-cases, Option-cases, inl, inr,
  str_eq, any, ◌||◌,
}
use trading_control.Float.{Float}
use trading_control.Execution.{
  Order, Engine, duplicate, lock_held, clamp_sell, clamp_buy, fill, locked_order, submit,
  submit_all, fill_of,
}

or-true : (b : Bool) → (b || true) ≡ true
or-true true = refl
or-true false = refl

module _ {W : Type 0} ⦃f : Float W⦄ (max_position : W) where
  abbrev Seen : String → Engine W → Type 0
  Seen k e = any (str_eq k) e.dedup ≡ true

  fill-dedup :
      (o : Order W) (qty : W) (prior : Fields W) (e : Engine W)
      → (fill o qty prior e).0.dedup ≡ e.dedup
  unfolding fill
  fill-dedup o qty prior e =
      elim (Option-cases
        (place_order o.symbol o.side qty o.price o.slippage_pct o.now o.order_id e.broker).1) [
          | inl r ↦ rw (r, fill) refl
          | inr (placed, r) ↦ elim (Option-cases (fill_of o qty prior placed)) [
            | inl n ↦ rw (r, n, fill) refl
            | inr (done, n) ↦ rw (r, n, fill) refl
          ]
        ]

  -- The guards and the fill leave the keys alone.
  locked_order-dedup :
      (o : Order W) (e : Engine W) → (locked_order max_position o e).0.dedup ≡ e.dedup
  unfolding locked_order
  locked_order-dedup o e =
      let prior = get_position o.symbol e.broker in
      elim (Option-cases (reject_unmatched_sell o.side prior)) [
        | inl r ↦ rw (r, locked_order) refl
        | inr (true, r) ↦ rw (r, locked_order) refl
        | inr (false, r) ↦ elim (Option-cases (clamp_sell o prior)) [
          | inl c ↦ rw (r, c, locked_order) refl
          | inr (sold, c) ↦ elim (Option-cases (clamp_buy max_position o prior sold)) [
            | inl d ↦ rw (r, c, d, locked_order) refl
            | inr (qty, d) ↦ rw (r, c, d, locked_order) (fill-dedup o qty prior e)
          ]
        ]
      ]

  -- A key that has been seen stays, and the key of an order has been seen after it.
  submit-Seen :
      (k : String) (o : Order W) (e : Engine W) → Seen k e → Seen k (submit max_position o e).0
  unfolding submit
  submit-Seen k o e s = elim (Bool-cases (any (str_eq o.idempotency_key) e.dedup)) [
    | inl d ↦ rw d s
    | inr d ↦
        let e' : Engine W = record e { dedup = o.idempotency_key ∷ e.dedup } in
        let s' : Seen k e' = rw s (or-true (str_eq k o.idempotency_key)) in
        elim (Bool-cases (any (str_eq o.symbol) e.locked)) [
          | inl l ↦ rw (d, l) s'
          | inr l ↦ rw (d, l) (ap (any (str_eq k)) (locked_order-dedup o e') ∙ s')
        ]
  ]

  submit-own : (o : Order W) (e : Engine W) → Seen o.idempotency_key (submit max_position o e).0
  unfolding submit
  submit-own o e = elim (Bool-cases (any (str_eq o.idempotency_key) e.dedup)) [
    | inl d ↦ rw d d
    | inr d ↦
        let e' : Engine W = record e { dedup = o.idempotency_key ∷ e.dedup } in
        let s' : Seen o.idempotency_key e' = rw (eq_refl o.idempotency_key) refl in
        elim (Bool-cases (any (str_eq o.symbol) e.locked)) [
          | inl l ↦ rw (d, l) s'
          | inr l ↦ rw (d, l) (ap (any (str_eq o.idempotency_key)) (locked_order-dedup o e') ∙ s')
        ]
  ]

  submit_all-Seen :
      (k : String) (os : List (Order W)) (e : Engine W)
      → Seen k e
      → Seen k (submit_all max_position os e)
  unfolding submit_all
  submit_all-Seen k [] e s = s
  submit_all-Seen k (o ∷ os) e s =
      submit_all-Seen k os (submit max_position o e).0 (submit-Seen k o e s)

  -- An order that was submitted once is skipped as a duplicate under its key, and changes nothing,
  -- whatever orders came in between, as long as the key has not expired. That includes an order whose
  -- first submission raised because the lock was held: it is never filled.
  pub submit-again :
      (o o' : Order W) (os : List (Order W)) (e : Engine W)
      → o'.idempotency_key ≡ o.idempotency_key
      → let later = submit_all max_position os (submit max_position o e).0 in
        (submit max_position o' later ≡ (later, duplicate))
        × (any (str_eq o.idempotency_key) e.dedup ≡ false
            → any (str_eq o.symbol) e.locked ≡ true
            → ((submit max_position o e).1 ≡ lock_held)
              × ((submit max_position o e).0.broker ≡ e.broker))
  unfolding submit
  submit-again o o' os e k =
      let seen =
        submit_all-Seen o.idempotency_key os (submit max_position o e).0 (submit-own o e) in
      (rw (k, seen) refl, (λ d l. rw (d, l) (refl, refl)))
