-- ===== src/Consumer.antt =====
-- api/events/consumer.py and api/events/dlq.py: what a consumer makes of one message, and the
-- dead-letter queue. `process` is a subclass's, so the outcome of a call of it is an argument. The
-- pending messages are those of the group in Redis, and the counters of retries have not expired.
pub mod Others
pub mod Settled
pub mod Unread
use trading_control.Prelude.{
  ℕ, ◌+◌, Bool, true, false, not, ◌||◌, Option, none, some, List, [], ◌∷◌, String, str_eq, leb,
  keep, if◌then◌else◌,
}
use trading_control.Prelude.Dict.{Dict, get, put, get_or}
use trading_control.Json.{Json, null, bool, int, num, text, arr, obj, Fields, member, with_member}

-- The record that is pushed.
pub record Letter (W : Type 0) : Type 0 where
  pub event_id : String
  pub payload : Fields W
  pub retries : ℕ

pub record Queues (W : Type 0) : Type 0 where
  pub pending : Dict (Fields W)
  pub retries : Dict ℕ
  pub letters : Dict (Letter W)
  -- the messages that `process` returned from, newest first
  pub processed : List String

-- How far Redis answers while a message is handled: not at all, the count of retries and then no more,
-- all but the acknowledgement, or everything. `EventBus.acknowledge` swallows its errors.
pub data Reach : Type 0 where
  silent counts pushes answers : Reach

-- What `process` does, and how far Redis answers after it.
pub data Attempt : Type 0 where
  returns raises : Reach → Attempt

abbrev pub reach_of : Attempt → Reach
reach_of (returns reach) = reach
reach_of (raises reach) = reach

-- `XACK`
unfoldable pub remove : {V : Type 0} → String → Dict V → Dict V
remove k [] = []
remove k ((j, v) ∷ m) = let rest = remove k m in if str_eq k j then rest else (j, v) ∷ rest

module _ {W : Type 0} where
  -- `schema_version in ACCEPTED_SCHEMA_VERSIONS`; a list or an object has no hash and raises.
  unfoldable pub accepted : Option (Json W) → Option Bool
  accepted none = some true
  accepted (some null) = some true
  accepted (some (text s)) = some (str_eq s "v3" || str_eq s "legacy" || str_eq s "")
  accepted (some (arr xs)) = none
  accepted (some (obj fs)) = none
  accepted (some _) = some false

  -- `{**data, MSG_ID: msg_id}` where the producer left it out
  unfoldable pub with_id : String → Fields W → Fields W
  unfolding member with_member
  with_id id data' = elim (member "msg_id" data') [
    | none ↦ with_member "msg_id" (text id) data'
    | some v ↦ data'
  ]

  unfoldable pub acknowledge : Reach → String → Queues W → Queues W
  unfolding remove
  acknowledge answers id q = record q { pending = remove id q.pending }
  acknowledge _ id q = q

  unfoldable pub push : String → Fields W → ℕ → Queues W → Queues W
  unfolding put
  push id payload retries q =
      let letter : Letter W = record { event_id = id; payload = payload; retries = retries } in
      record q { letters = put id letter q.letters }

  -- `should_dlq`, with the count that it leaves behind
  unfoldable pub should_dlq : String → Queues W → Queues W × ℕ × Bool
  unfolding put get_or
  should_dlq id q =
      let retries = get_or id 0 q.retries + 1 in
      (record q { retries = put id retries q.retries }, retries, leb 3 retries)

  -- `push` and `acknowledge`; where the first does not answer, the second is not called.
  unfoldable pub dead_letter : Reach → String → Fields W → ℕ → Queues W → Queues W
  unfolding acknowledge push
  dead_letter silent id payload retries q = q
  dead_letter counts id payload retries q = q
  dead_letter pushes id payload retries q = push id payload retries q
  dead_letter answers id payload retries q = acknowledge answers id (push id payload retries q)

  unfoldable pub fail : Reach → String → Fields W → Queues W → Queues W
  unfolding should_dlq dead_letter
  fail silent id payload q = q
  fail reach id payload q =
      let (q', retries, send_to_dlq) = should_dlq id q in
      if send_to_dlq then dead_letter reach id payload retries q' else q'

  unfoldable pub settle : Attempt → String → Fields W → Queues W → Queues W
  unfolding fail acknowledge
  settle (returns reach) id payload q =
      acknowledge reach id (record q { processed = id ∷ q.processed })
  settle (raises reach) id payload q = fail reach id payload q

  -- A message of another schema version; an error of the push is raised.
  unfoldable pub refuse : Reach → String → Fields W → Queues W → Option (Queues W)
  unfolding dead_letter
  refuse silent id payload q = none
  refuse counts id payload q = none
  refuse reach id payload q = some (dead_letter reach id payload 0 q)

  -- `_handle_message`; none where it raises.
  unfoldable pub handle_message : Attempt → String → Fields W → Queues W → Option (Queues W)
  unfolding accepted with_id refuse settle
  handle_message attempt id data' q =
      let payload = with_id id data' in
      elim (accepted (member "schema_version" payload)) [
        | none ↦ none
        | some false ↦ refuse (reach_of attempt) id payload q
        | some true ↦ some (settle attempt id payload q)
      ]

-- What happens to the group: a new message is read, or a pending one is claimed again.
pub data Delivery (W : Type 0) : Type 0 where
  delivered : String → Fields W → Attempt → Delivery W
  reclaimed : String → Attempt → Delivery W

module _ {W : Type 0} where
  abbrev pub or_as_before : Queues W → Option (Queues W) → Queues W
  or_as_before q none = q
  or_as_before q (some q') = q'

  -- Where `_handle_message` raises, the task ends, and Redis is as it was.
  unfoldable pub handle : Attempt → String → Fields W → Queues W → Queues W
  unfolding handle_message
  handle attempt id data' q = or_as_before q (handle_message attempt id data' q)

  unfoldable pub deliver : Queues W → Delivery W → Queues W
  unfolding handle put
  deliver q (delivered id data' attempt) =
      handle attempt id data' (record q { pending = put id data' q.pending })
  deliver q (reclaimed id attempt) = elim (get id q.pending) [
    | none ↦ q
    | some data' ↦ handle attempt id data' q
  ]

  unfoldable pub deliver_all : Queues W → List (Delivery W) → Queues W
  deliver_all q [] = q
  deliver_all q (d ∷ ds) = deliver_all (deliver q d) ds
