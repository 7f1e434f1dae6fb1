-- ===== src/Events.antt =====
-- cognitive/events.py: `EventStream`, the append-only log of the cognitive loop, over any type of
-- payloads. A subscriber is a number, and what the stream hands to it is written to `delivered`.
pub mod Retention
pub mod Delivery
pub mod Queries
use trading_control.Prelude.{
  ℕ, ◌+◌, ◌-◌, ◌<◌, Bool, true, false, Option, none, some, List, [], ◌∷◌, ◌++◌, String, str_eq, map,
  length, drop, keep, find_last, ltb, ◌==◌, if◌then◌else◌,
}
use trading_control.Prelude.Int.{ℤ, pos, negsuc}

pub data EventType : Type 0 where
  market_tick : EventType
  news_signal tech_signal macro_signal risk_signal reasoning : EventType
  features decision : EventType
  risk_gate execution : EventType
  trade_outcome attribution grade observation counterfactual drift : EventType
  proposal challenger_verdict backtest_result pr_request config_version : EventType

-- The members are strings, and are compared as such.
abbrev pub value : EventType → String
value market_tick = "market_tick"
value news_signal = "news_signal"
value tech_signal = "tech_signal"
value macro_signal = "macro_signal"
value risk_signal = "risk_signal"
value reasoning = "reasoning"
value features = "features"
value decision = "decision"
value risk_gate = "risk_gate"
value execution = "execution"
value trade_outcome = "trade_outcome"
value attribution = "attribution"
value grade = "grade"
value observation = "observation"
value counterfactual = "counterfactual"
value drift = "drift"
value proposal = "proposal"
value challenger_verdict = "challenger_verdict"
value backtest_result = "backtest_result"
value pr_request = "pr_request"
value config_version = "config_version"

abbrev pub same_kind : EventType → EventType → Bool
same_kind j k = str_eq (value j) (value k)

pub record Event {ℓ} (P : Type ℓ) : Type ℓ where
  pub seq : ℕ
  pub kind : EventType
  pub payload : P
  pub trace_id : String
  pub source : String
  pub ts : String

pub record EventStream {ℓ} (P : Type ℓ) : Type ℓ where
  pub events : List (Event P)
  pub subscribers : List ℕ
  pub max_events : Option ℕ
  pub emitted : ℕ
  pub dropped : ℕ
  -- each event as a subscriber was called with it, in the order of the calls
  pub delivered : List (ℕ × Event P)

-- The arguments of `emit`.
pub record Draft {ℓ} (P : Type ℓ) : Type ℓ where
  pub kind : EventType
  pub payload : P
  pub trace_id : String
  pub source : String
  pub ts : String

-- `self._max_events is not None and len(self._events) > self._max_events`
abbrev pub over_cap : Option ℕ → ℕ → Bool
over_cap none n = false
over_cap (some cap) n = ltb cap n

module _ {ℓ} {P : Type ℓ} where
  abbrev pub stream : Option ℕ → EventStream P
  stream cap = record {
    events = [];
    subscribers = [];
    max_events = cap;
    emitted = 0;
    dropped = 0;
    delivered = [];
  }

  unfoldable pub subscribe : EventStream P → ℕ → EventStream P
  subscribe s i = record s { subscribers = s.subscribers ++ (i ∷ []) }

  -- The event that `emit` builds: its number is the count of all events ever emitted.
  abbrev pub numbered : ℕ → Draft P → Event P
  numbered n d = record {
    seq = n;
    kind = d.kind;
    payload = d.payload;
    trace_id = d.trace_id;
    source = d.source;
    ts = d.ts;
  }

  unfoldable pub emit : EventStream P → Draft P → EventStream P × Event P
  emit s d =
      let event = numbered s.emitted d in
      let grown = s.events ++ (event ∷ []) in
      let full = over_cap s.max_events (length grown) in
      (
        record s {
          emitted = s.emitted + 1;
          events = if full then drop 1 grown else grown;
          dropped = if full then s.dropped + 1 else s.dropped;
          delivered = s.delivered ++ map (λ i. (i, event)) s.subscribers;
        },
        event,
      )

  -- Emits in a row.
  unfoldable pub emit_all : EventStream P → List (Draft P) → EventStream P
  emit_all s [] = s
  emit_all s (d ∷ ds) = emit_all (emit s d).0 ds

  abbrev pub of_kind : EventType → Event P → Bool
  of_kind k e = same_kind e.kind k

  -- `items[-n:]`: for `n = 0` the slice is `items[0:]`.
  pub last_slice : ℕ → List (Event P) → List (Event P)
  last_slice n items = if n == 0 then items else drop (length items - n) items

  -- `events(kind=…, limit=…)`; a negative limit is no limit.
  pub select : EventStream P → Option EventType → Option ℤ → List (Event P)
  unfolding last_slice
  select s kind limit =
      let items : List (Event P) = elim kind [
        | none ↦ s.events
        | some k ↦ keep (of_kind k) s.events
      ] in
      elim limit [ none ↦ items | some (pos n) ↦ last_slice n items | some (negsuc n) ↦ items ]

  pub latest : EventStream P → EventType → Option (Event P)
  latest s k = find_last (of_kind k) s.events
