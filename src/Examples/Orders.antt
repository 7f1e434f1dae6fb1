-- ===== src/Examples/Orders.antt =====
-- Orders to the paper broker, and the tuned parameters.
use trading_control.Params.Overflow.{load_overrides-overflow}
use trading_control.Prelude.{
  ℕ, ◌≡◌, refl, true, false, none, some, List, [], ◌∷◌, String, any, str_eq, if◌then◌else◌, inl,
  inr, leb, ◌^◌,
}
use trading_control.Prelude.Int.{ℤ, pos, neg_ℤ}
use trading_control.Prelude.Dict.{Dict, get}
use trading_control.Float.{Float, dec}
use trading_control.Float.Fixed.{fixed, magnitude}
use trading_control.Float.FixedLaws.{fixed-IsOrdered, fixed-IsSigned, fixed-IsTruncating}
use trading_control.Json.{Json, Fields, end, field, num, int, obj, member}
use trading_control.PaperBroker.{get_position}
use trading_control.PositionMath.{sells, buys}
use trading_control.Execution.{Order, Engine, submit, submit_all, duplicate, lock_held}
use trading_control.Execution.LongOnly.{AllHeld, submit_all-AllHeld, empty-AllHeld}
use trading_control.Execution.Delivered.{submit-again}
use trading_control.Params.{applied, load_overrides, apply_param_override, coerced}
use trading_control.Params.Bounded.{IsTuned, load_overrides-IsTuned}
use trading_control.Params.Reloaded.{load_overrides-apply_param_override}

abbrev order : String → ℕ → String → Order ℤ
order side qty key = record {
  symbol = "BTC";
  side = side;
  qty = dec qty 0;
  price = dec 100 0;
  idempotency_key = key;
  order_id = key;
  now = "now";
  slippage_pct = dec 5 4;
}

-- The lock of one symbol is held by another order.
abbrev start : List String → Engine ℤ
start locked = record {
  broker = record { cash = none; positions = []; orders = [] };
  dedup = [];
  locked = locked;
  fills = [];
}

-- A sale of more than what was bought.
abbrev orders : List (Order ℤ)
orders = order "buy" 2 "a" ∷ order "sell" 5 "b" ∷ order "sell" 1 "c" ∷ []

submit_all-AllHeld_example : AllHeld (submit_all (dec 1000 0) orders (start [])).broker
unfolding sells buys
submit_all-AllHeld_example =
    submit_all-AllHeld fixed-IsOrdered fixed-IsSigned (dec 1000 0) orders (start [])
      (inr refl, (inl refl, (inl refl, tt))) (empty-AllHeld fixed-IsOrdered fixed-IsSigned none)

submit-again_example :
    let o = order "buy" 2 "a" in
    let e = start ("BTC" ∷ []) in
    let later = submit_all (dec 1000 0) [] (submit (dec 1000 0) o e).0 in
    (submit (dec 1000 0) o later ≡ (later, duplicate))
    × (any (str_eq "a") [] ≡ false
        → any (str_eq "BTC") ("BTC" ∷ []) ≡ true
        → ((submit (dec 1000 0) o e).1 ≡ lock_held)
          × ((submit (dec 1000 0) o e).0.broker ≡ e.broker))
submit-again_example =
    submit-again (dec 1000 0) (order "buy" 2 "a") (order "buy" 2 "a") [] (start ("BTC" ∷ [])) refl

-- One override in bounds, one out of bounds, and one that is not on the allowlist.
abbrev document : Fields ℤ
document =
    field "STOP_LOSS_PCT" (num (dec 4 2))
      (field "TAKE_PROFIT_PCT" (num (dec 9 1)) (field "OTHER" (int (pos 1)) end))

load_document : load_overrides (some (obj document)) ≡ some (("STOP_LOSS_PCT", num (dec 4 2)) ∷ [])
unfolding load_overrides
load_document = refl

load_overrides-IsTuned_example : IsTuned {W = ℤ} "STOP_LOSS_PCT" (num (dec 4 2))
unfolding get
load_overrides-IsTuned_example =
    load_overrides-IsTuned fixed-IsOrdered fixed-IsTruncating (some (obj document))
      (("STOP_LOSS_PCT", num (dec 4 2)) ∷ []) "STOP_LOSS_PCT" (num (dec 4 2)) load_document refl

abbrev changed : Fields ℤ
changed = field "STOP_LOSS_PCT" (num (dec 4 2)) (
    field "TAKE_PROFIT_PCT" (num (dec 9 1))
      (field "OTHER" (int (pos 1)) (field "LLM_CALL_DELAY_MS" (int (pos 300)) end)))

apply_document :
    apply_param_override (some (some (obj document))) "LLM_CALL_DELAY_MS" (num (dec 3005 1))
    ≡ applied changed
unfolding apply_param_override
apply_document = refl

load_overrides-apply_param_override_example :
    (loaded : Dict (Json ℤ)) × (load_overrides (some (obj changed)) ≡ some loaded)
    × ((j : String)
        → get j loaded ≡ (
            if str_eq "LLM_CALL_DELAY_MS" j
            then some (coerced "LLM_CALL_DELAY_MS" (num (dec 3005 1)))
            else get j (("STOP_LOSS_PCT", num (dec 4 2)) ∷ [])))
unfolding member
load_overrides-apply_param_override_example =
    load_overrides-apply_param_override fixed-IsOrdered fixed-IsTruncating document changed
      "LLM_CALL_DELAY_MS" (num (dec 3005 1)) (("STOP_LOSS_PCT", num (dec 4 2)) ∷ [])
      (refl, (refl, (refl, tt))) load_document apply_document

-- The fixed-point numbers with a largest integer, as that of the doubles.
abbrev bounded : Float ℤ
bounded = record fixed { overflows = λ a. leb (10 ^ 309) (magnitude a) }

load_overrides-overflow_example :
    load_overrides ⦃f = bounded⦄ (some (obj (field "STOP_LOSS_PCT" (int (pos (10 ^ 400))) end)))
    ≡ none
unfolding member get
load_overrides-overflow_example =
    load_overrides-overflow ⦃f = bounded⦄ (field "STOP_LOSS_PCT" (int (pos (10 ^ 400))) end)
      "STOP_LOSS_PCT" (pos (10 ^ 400)) (dec 1 2, dec 15 2) refl refl refl

-- An order to close, which no guard knows, sells from nothing.
close_sells :
    member "qty"
      (get_position "BTC" (submit_all (dec 1000 0) (order "close" 2 "a" ∷ []) (start [])).broker)
    ≡ some (num (neg_ℤ (dec 2 0)))
unfolding submit_all get_position member get submit
close_sells = refl
