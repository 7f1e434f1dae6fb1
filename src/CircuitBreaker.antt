-- ===== src/CircuitBreaker.antt =====
-- api/services/circuit_breaker.py. Redis is a parameter, with the behaviour of `SET` and `GET` that
-- the program relies on; a call of it may raise. The text of the time is an argument.
pub mod Trips
use trading_control.Prelude.{
  ℕ, ◌≡◌, ◌≢◌, Bool, true, false, Option, none, some, List, [], ◌∷◌, ◌++◌, String, if◌then◌else◌,
}
use trading_control.Prelude.Int.{ℤ, pos, leb_ℤ}
use trading_control.Float.{Float, dec}
use trading_control.Strategies.{Registry, Version, ok, err, rollback}

-- A connection to Redis in some state; `none` is an error that is raised.
pub record Redis (S : Type 0) : Type 0 where
  pub set : String → String → S → Option S
  pub get : String → S → Option String

-- `SET` writes that key and no other.
pub record IsStore (S : Type 0) ⦃redis : Redis S⦄ : Type 0 where
  pub get-set : (k v : String) (s t : S) → redis.set k v s ≡ some t → redis.get k t ≡ some v
  pub get-set_other :
      (k j v : String) (s t : S) → redis.set k v s ≡ some t → j ≢ k → redis.get j t ≡ redis.get j s

pub record BreakerInputs (W : Type 0) : Type 0 where
  pub drawdown_pct : W
  pub consecutive_failures : ℤ
  pub divergence_score : W
  pub latency_ms : W

pub data TripReason : Type 0 where
  drawdown failures divergence latency : TripReason

pub record TripDecision : Type 0 where
  pub tripped : Bool
  pub reasons : List TripReason

abbrev pub reason_if : Bool → TripReason → List TripReason
reason_if true reason = reason ∷ []
reason_if false reason = []

abbrev pub is_some_of : List TripReason → Bool
is_some_of [] = false
is_some_of (x ∷ xs) = true

abbrev pub kill_switch : String
kill_switch = "kill_switch:active"

abbrev pub kill_switch_updated_at : String
kill_switch_updated_at = "kill_switch:updated_at"

module _ {W : Type 0} ⦃f : Float W⦄ where
  open f use {le}

  unfoldable pub evaluate : BreakerInputs W → TripDecision
  evaluate inputs =
      let reasons =
        reason_if (le (dec 15 2) inputs.drawdown_pct) drawdown
        ++ (reason_if (leb_ℤ (pos 5) inputs.consecutive_failures) failures
            ++ (reason_if (le (dec 5 1) inputs.divergence_score) divergence
                ++ reason_if (le (dec 5000 0) inputs.latency_ms) latency)) in
      record { tripped = is_some_of reasons; reasons = reasons }

-- The state after a trip, and whether it has run to its end.
pub record Tripped (S W : Type 0) : Type 0 where
  pub store : S
  pub registry : Registry W
  pub done : Bool

module _ {S W : Type 0} ⦃redis : Redis S⦄ where
  unfoldable pub roll_back : W → W → S → Registry W → Tripped S W
  roll_back now later s r = elim (rollback now later r) [
    | ok (r', restored) ↦ record { store = s; registry = r'; done = true }
    | err e ↦ record { store = s; registry = r; done = false }
  ]

  unfoldable pub trip : String → W → W → S → Registry W → Tripped S W
  unfolding roll_back
  trip time now later s r = elim (redis.set kill_switch "1" s) [
    | none ↦ record { store = s; registry = r; done = false }
    | some s1 ↦ elim (redis.set kill_switch_updated_at time s1) [
      | none ↦ record { store = s1; registry = r; done = false }
      | some s2 ↦ roll_back now later s2 r
    ]
  ]

  unfoldable pub check :
      ⦃f : Float W⦄ → String → W → W → BreakerInputs W → S → Registry W → Tripped S W × TripDecision
  unfolding evaluate trip
  check time now later inputs s r =
      let decision = evaluate inputs in
      (
        if decision.tripped
            then trip time now later s r
            else record { store = s; registry = r; done = true },
        decision,
      )
