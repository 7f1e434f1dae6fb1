-- ===== src/Examples/Messages.antt =====
-- Messages of a consumer of api/events/consumer.py: one that always fails, and one that it cannot look at.
use trading_control.Prelude.{◌≡◌, refl, true, some, List, [], ◌∷◌, arith, none, inl}
use trading_control.Prelude.Int.{ℤ}
use trading_control.Prelude.Dict.{get, get_or}
use trading_control.Json.{Fields, end, field, text, arr, nil, member}
use trading_control.Consumer.{
  Queues, Delivery, delivered, reclaimed, returns, raises, silent, pushes, answers, accepted,
  with_id, deliver_all,
}
use trading_control.Consumer.Settled.{IsSettled, deliver_all-IsSettled}
use trading_control.Consumer.Unread.{deliver_all-unread}

abbrev good : Fields ℤ
good = field "schema_version" (text "v3") end

abbrev bad : Fields ℤ
bad = field "schema_version" (arr nil) end

abbrev waiting : Fields ℤ → Queues ℤ
waiting data' = record { pending = ("1-0", data') ∷ []; retries = []; letters = []; processed = [] }

-- Three failures that Redis answers and two that it does not, and another message is processed.
abbrev deliveries : List (Delivery ℤ)
deliveries =
    reclaimed "1-0" (raises answers)
    ∷ delivered "2-0" good (returns answers)
    ∷ reclaimed "1-0" (raises silent)
    ∷ reclaimed "1-0" (raises answers)
    ∷ reclaimed "1-0" (raises pushes)
    ∷ reclaimed "1-0" (raises answers)
    ∷ []

deliver_all-IsSettled_example : IsSettled "1-0" (deliver_all (waiting good) deliveries)
unfolding get accepted member with_id get_or
deliver_all-IsSettled_example =
    deliver_all-IsSettled "1-0" good deliveries (waiting good) (true, refl) refl refl (omega arith)
      (omega arith)

deliver_all-unread_example :
    let q = deliver_all (waiting bad) deliveries in
    (get "1-0" q.pending ≡ some bad) × (get_or "1-0" 0 q.retries ≡ 0) × (get "1-0" q.letters ≡ none)
unfolding get get_or accepted member with_id
deliver_all-unread_example =
    deliver_all-unread "1-0" bad deliveries (waiting bad) (inl (nil, refl)) refl refl
