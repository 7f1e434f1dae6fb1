-- ===== src/CircuitBreaker/Trips.antt =====
-- When the breaker trips, and what a trip leaves behind.
use trading_control.Prelude.{
  ◌≡◌, ◌⊎◌, ◌↔◌, refl, ◌∙◌, Bool, true, false, none, some, Option-cases, List, ◌++◌, String, drop,
  if◌then◌else◌, Bool-cases, inl, inr, arith, ◌≢◌, eq_iff,
}
use trading_control.Prelude.Int.{ℤ, pos, ◌≤ℤ◌, leb_ℤ}
use trading_control.Float.{Float, dec, ◌≼◌}
use trading_control.Json.{Fields}
use trading_control.Strategies.{Registry, Call, status, live, retired, run, empty}
use trading_control.Strategies.Records.{on_top}
use trading_control.Strategies.Registering.{Valid, empty-Valid}
use trading_control.Strategies.Rollbacks.{rollback_lem}
use trading_control.Strategies.Lifecycle.{run-Valid}
use trading_control.CircuitBreaker.{
  Redis, IsStore, BreakerInputs, TripReason, Tripped, kill_switch, kill_switch_updated_at,
  reason_if, is_some_of, evaluate, trip, check, roll_back,
}

any_reason :
    (a b c d : Bool) (P : Type 0) (r1 r2 r3 r4 : TripReason)
    → (b ≡ true) ↔ P
    → (is_some_of (reason_if a r1 ++ (reason_if b r2 ++ (reason_if c r3 ++ reason_if d r4))) ≡ true)
      ↔ ((a ≡ true) ⊎ P ⊎ (c ≡ true) ⊎ (d ≡ true))
any_reason true b c d P r1 r2 r3 r4 iff = ((λ h. inl refl), (λ h. refl))
any_reason false true c d P r1 r2 r3 r4 iff = ((λ h. inr (inl (iff.0 refl))), (λ h. refl))
any_reason false false true d P r1 r2 r3 r4 iff = ((λ h. inr (inr (inl refl))), (λ h. refl))
any_reason false false false true P r1 r2 r3 r4 iff = ((λ h. inr (inr (inr refl))), (λ h. refl))
any_reason false false false false P r1 r2 r3 r4 iff = (
  (λ h. cc),
  λ h. elim h [
    | inl x ↦ cc
    | inr (inl x) ↦ cc (iff.1 x)
    | inr (inr (inl x)) ↦ cc
    | inr (inr (inr x)) ↦ cc
  ],
)

leb_ℤ_iff : (a b : ℤ) → (leb_ℤ a b ≡ true) ↔ (a ≤ℤ b)
leb_ℤ_iff a b = (ground arith, ground arith)

module _ {W : Type 0} ⦃f : Float W⦄ where
  -- A limit is reached.
  abbrev pub Breached : BreakerInputs W → Type 0
  Breached inputs =
      (dec 15 2 ≼ inputs.drawdown_pct)
      ⊎ (pos 5 ≤ℤ inputs.consecutive_failures)
      ⊎ (dec 5 1 ≼ inputs.divergence_score)
      ⊎ (dec 5000 0 ≼ inputs.latency_ms)

  tripped-evaluate :
      (inputs : BreakerInputs W) → ((evaluate inputs).tripped ≡ true) ↔ Breached inputs
  unfolding evaluate
  tripped-evaluate inputs =
      any_reason (f.le (dec 15 2) inputs.drawdown_pct) (leb_ℤ (pos 5) inputs.consecutive_failures)
        (f.le (dec 5 1) inputs.divergence_score) (f.le (dec 5000 0) inputs.latency_ms)
        (pos 5 ≤ℤ inputs.consecutive_failures) TripReason.drawdown TripReason.failures
        TripReason.divergence TripReason.latency (leb_ℤ_iff (pos 5) inputs.consecutive_failures)

-- After a trip the kill switch is on, and the version in production is retired for the one before
-- it. No other status changes.
abbrev pub FailedClosed : {S W : Type 0} ⦃redis : Redis S⦄ → Registry W → Tripped S W → Type 0
FailedClosed ⦃redis⦄ r out =
    (out.done ≡ true)
    × (redis.get kill_switch out.store ≡ some "1")
    × ((j : String)
        → status j out.registry ≡ (
            if on_top j (drop 1 r.live_stack)
            then some live
            else if on_top j r.live_stack
            then some retired
            else status j r))

-- What a trip comes to, by what Redis takes: both writes, the switch alone, or nothing.
abbrev pub Trips : {S W : Type 0} ⦃redis : Redis S⦄ → String → S → Registry W → Tripped S W → Type 0
Trips {S = S} ⦃redis⦄ time s r out =
    ((s1 : S) × (s2 : S) × (redis.set kill_switch "1" s ≡ some s1)
      × (redis.set kill_switch_updated_at time s1 ≡ some s2)
      × FailedClosed r out)
    ⊎ ((s1 : S) × (redis.set kill_switch "1" s ≡ some s1)
        × (redis.set kill_switch_updated_at time s1 ≡ none)
        × (out.done ≡ false)
        × (redis.get kill_switch out.store ≡ some "1")
        × (out.registry ≡ r))
    ⊎ ((redis.set kill_switch "1" s ≡ none)
        × (out.done ≡ false)
        × (out.store ≡ s)
        × (out.registry ≡ r))

kill_switch-ne : kill_switch ≢ kill_switch_updated_at
kill_switch-ne same = cc ((eq_iff kill_switch kill_switch_updated_at).1 same)

module _ {S W : Type 0} ⦃redis : Redis S⦄ (store : IsStore S) where
  trip_lem :
      (time : String) (now later : W) (s s1 s2 : S) (r : Registry W)
      → Valid r
      → redis.set kill_switch "1" s ≡ some s1
      → redis.set kill_switch_updated_at time s1 ≡ some s2
      → FailedClosed r (trip time now later s r)
  unfolding trip
  trip_lem time now later s s1 s2 r v h k =
      let (out, done, valid, stack, statuses, back) = rollback_lem now later r v in
      let on =
        store.get-set_other kill_switch_updated_at kill_switch time s1 s2 k kill_switch-ne
        ∙ store.get-set kill_switch "1" s s1 h in
      rw (h, k, done, trip, roll_back) (refl, on, statuses)

  trip-Trips :
      (time : String) (now later : W) (s : S) (r : Registry W)
      → Valid r
      → Trips time s r (trip time now later s r)
  unfolding trip
  trip-Trips time now later s r v = elim (Option-cases (redis.set kill_switch "1" s)) [
    | inl h ↦ inr (inr (rw (h, trip) (refl, refl, refl, refl)))
    | inr (s1, h) ↦ elim (Option-cases (redis.set kill_switch_updated_at time s1)) [
      | inl k ↦
          inr
            (inl (rw (h, k, trip) (s1, refl, k, refl, store.get-set kill_switch "1" s s1 h, refl)))
      | inr (s2, k) ↦ inl (s1, s2, h, k, trip_lem time now later s s1 s2 r v h k)
    ]
  ]

  -- In every run of the registry the breaker trips exactly if a limit is reached. If it does and Redis
  -- takes both writes, the kill switch is on, and the version in production is retired for the one
  -- before it, no other status changing. If Redis refuses the second write, the call raises with the
  -- kill switch on and the registry as it was. If it refuses the first, the call raises and nothing
  -- changes at all, so that trading goes on. If no limit is reached, nothing changes either.
  pub check-run :
      ⦃f : Float W⦄ (hash : Fields W → String) (cs : List (Call W)) (time : String) (now later : W)
      (inputs : BreakerInputs W) (s : S)
      → let r = run hash empty cs in
        let (out, decision) = check time now later inputs s r in
        ((decision.tripped ≡ true) ↔ Breached inputs)
        × (Breached inputs → Trips time s r out)
        × ((Breached inputs → ⊥) → (out.done ≡ true) × (out.store ≡ s) × (out.registry ≡ r))
  unfolding check
  check-run hash cs time now later inputs s =
      let r = run hash empty cs in
      let iff = tripped-evaluate inputs in
      let trips = trip-Trips time now later s r (run-Valid hash empty cs empty-Valid) in
      (
        iff,
        (λ b. rw (iff.1 b) trips),
        (λ b. elim (Bool-cases (evaluate inputs).tripped) [
          | inl t ↦ absurd (b (iff.0 t))
          | inr t ↦ rw t (refl, refl, refl)
        ]),
      )
