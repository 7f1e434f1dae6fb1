-- ===== src/Examples/Streams.antt =====
-- The event stream of cognitive/events.py with three events.
use trading_control.Prelude.{ℕ, ◌-◌, ◌≡◌, none, some, List, [], ◌∷◌, drop}
use trading_control.Events.{
  EventType, news_signal, tech_signal, decision, EventStream, Draft, stream, emit_all,
}
use trading_control.Events.Retention.{events-emit_all}

abbrev draft_of : EventType → ℕ → Draft ℕ
draft_of kind n = record {
  kind = kind;
  payload = n;
  trace_id = "trace-0";
  source = "test";
  ts = "";
}

abbrev drafts : List (Draft ℕ)
drafts = draft_of news_signal 7 ∷ draft_of tech_signal 8 ∷ draft_of decision 9 ∷ []

abbrev capped : EventStream ℕ
capped = stream (some 2)

events-emit_all_example :
    ((emit_all (stream (some 2)) drafts).events
      ≡ drop (3 - 2) (emit_all (stream none) drafts).events)
    × ((emit_all (stream (some 2)) drafts).dropped ≡ 3 - 2)
    × ((emit_all (stream (some 2)) drafts).emitted ≡ 3)
events-emit_all_example = events-emit_all 2 drafts
