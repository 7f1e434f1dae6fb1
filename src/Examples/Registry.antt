-- ===== src/Examples/Registry.antt =====
-- The strategy registry of api/services/strategy_registry.py with two versions.
use trading_control.Prelude.Decimal.{text_of}
use trading_control.Strategies.Rollbacks.{Returned}
use trading_control.Strategies.Records.{on_top, stages, passed}
use trading_control.Strategies.Immutable.{run-immutable, Later}
use trading_control.Strategies.Outcomes.{transition-run, rollback-transition, Answers}
use trading_control.Strategies.Lifecycle.{status-run, passed-run}
use trading_control.Prelude.Dict.{get, put}
use trading_control.Prelude.{
  ◌≡◌, refl, true, Option, none, some, List, [], ◌∷◌, ◌++◌, String, if◌then◌else◌, str_eq,
}
use trading_control.Prelude.Int.{ℤ, pos}
use trading_control.Float.Fixed.{fixed}
use trading_control.Json.{Fields, end}
use trading_control.Strategies.{
  Version, Entry, Registry, Call, backtested, shadow, canary, live, retired, registering,
  transitioning, rolling_back, run, call, empty, status, current_live, transition, rollback, ok,
  ◌>>=◌, version_id_of, register, set_status, supersede, go_live, by_version, lineage_of, values,
  allowed,
}

abbrev pub hash : Fields ℤ → String
hash config = "h"

-- The calls that take a version to a canary.
abbrev to_canary : String → List (Call ℤ)
to_canary id =
    transitioning id backtested (pos 1) (pos 1)
    ∷ transitioning id shadow (pos 2) (pos 2)
    ∷ transitioning id canary (pos 3) (pos 3)
    ∷ []

abbrev one_live : List (Call ℤ)
one_live =
    registering end none (pos 0)
    ∷ (to_canary "v1-h" ++ (transitioning "v1-h" live (pos 4) (pos 4) ∷ []))

-- The first version is live, and the second a canary.
abbrev pub two : List (Call ℤ)
two = one_live ++ (registering end (some 1) (pos 5) ∷ to_canary "v2-h")

abbrev first : Entry ℤ
first = record {
  strategy = record {
    version_id = "v1-h";
    version = 1;
    parent_version = none;
    config_hash = "h";
    config = end;
    lineage = 1 ∷ [];
    created_at = pos 0;
  };
  status = live;
  history = (backtested, pos 1) ∷ (shadow, pos 2) ∷ (canary, pos 3) ∷ (live, pos 4) ∷ [];
}

get-first : get "v1-h" (run hash empty two).records ≡ some first
unfolding run call version_id_of transition register put text_of set_status supersede go_live
    by_version lineage_of values get allowed
get-first = refl

status-first : status "v1-h" (run hash empty two) ≡ some live
unfolding run call version_id_of transition register put text_of set_status supersede go_live
    by_version lineage_of values get status allowed
status-first = refl

status-second : status "v2-h" (run hash empty two) ≡ some canary
unfolding run call version_id_of transition register put text_of set_status supersede go_live
    by_version lineage_of values get status allowed
status-second = refl

status-run_example :
    ((j : String) → status j (run hash empty two) ≡ some live → j ≡ "v1-h")
    × ((v : Version ℤ) × (current_live (run hash empty two) ≡ some v) × (v.version_id ≡ "v1-h"))
status-run_example = status-run hash two "v1-h" status-first

passed-run_example : passed (stages first) ≡ true
passed-run_example = passed-run hash two "v1-h" first get-first refl

transition-run_example :
    let r = run hash empty two in Answers r "v2-h" live (transition "v2-h" live (pos 6) (pos 6) r)
transition-run_example = transition-run hash two "v2-h" live (pos 6) (pos 6)

rollback-transition_example :
    let r = run hash empty two in
    (out : Registry ℤ × Option (Version ℤ)) × ((transition "v2-h" live (pos 6) (pos 6) r
        >>= λ (p : Registry ℤ × Version ℤ). rollback (pos 7) (pos 7) p.0)
      ≡ ok out)
    × (out.0.live_stack ≡ r.live_stack)
    × ((j : String)
        → status j out.0 ≡ (
            if on_top j r.live_stack
            then some live
            else if str_eq "v2-h" j
            then some retired
            else status j r))
    × Returned r.live_stack out.1
rollback-transition_example =
    rollback-transition hash two "v2-h" (pos 6) (pos 6) (pos 7) (pos 7) status-second

run-immutable_example :
    Later first
      (get "v1-h" (run hash (run hash empty two) (rolling_back (pos 6) (pos 6) ∷ [])).records)
    × ((config : Fields ℤ)
        → get
            (version_id_of (run hash empty two).next_version (hash config))
            (run hash empty two).records
          ≡ none)
run-immutable_example =
    run-immutable hash two (rolling_back (pos 6) (pos 6) ∷ []) "v1-h" first get-first
