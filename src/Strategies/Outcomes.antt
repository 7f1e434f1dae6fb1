-- ===== src/Strategies/Outcomes.antt =====
-- What the calls of the registry answer in every run, and what they change.
use trading_control.Strategies.Rollbacks.{rollback_lem, Returned}
use trading_control.Strategies.Transitions.{
  transition_moves, transition_promotes, promoted, status-promoted,
}
use trading_control.Strategies.Lifecycle.{
  unknown-err, not_allowed-err, is_live-eq, run-Valid, status-get,
}
use trading_control.Strategies.Records.{on_top}
use trading_control.Strategies.{
  ◌>>=◌, Version, Registry, Status, Entry, err, ok, unknown_version, not_allowed, missing_key,
  Result, live, retired, status, allowed, get, transition, is_live, rollback, moved, canary, Fields,
  Call, run, empty,
}
use trading_control.Prelude.{
  ◌≡◌, refl, sym, ◌∙◌, subst, String, Option, some, none, ◌&&◌, inl, inr, true, false, Bool,
  if◌then◌else◌, Option-cases, str_eq, Bool-cases, List,
}
use trading_control.Strategies.Registering.{Valid, empty-Valid, status-put}

-- A transition is made exactly if it is legal, and changes the status of that version and, on a way
-- to production, of the one that stood there. A read of a missing record does not occur.
abbrev pub Answers :
    {W : Type 0} → Registry W → String → Status → Result (Registry W × Version W) → Type 0
Answers r id t (ok (r', v)) =
    ((s : Status) × (status id r ≡ some s) × (allowed s t ≡ true))
    × (v.version_id ≡ id)
    × ((j : String)
        → status j r' ≡ (
            if str_eq id j
            then some t
            else if is_live t && on_top j r.live_stack
            then some retired
            else status j r))
Answers r id t (err unknown_version) = status id r ≡ none
Answers r id t (err not_allowed) = (s : Status) × (status id r ≡ some s) × (allowed s t ≡ false)
Answers r id t (err missing_key) = ⊥

collapse :
    (b c : Bool) (o o' : Option Status)
    → o ≡ (if c then some live else if b then some retired else o')
    → (if b then some live else if c then some retired else o)
      ≡ (if b then some live else if c then some retired else o')
collapse true c o o' h = refl
collapse false true o o' h = refl
collapse false false o o' h = h

module _ {W : Type 0} where
  get-status :
      (id : String) (r : Registry W) (e : Entry W)
      → get id r.records ≡ some e
      → status id r ≡ some e.status
  unfolding status
  get-status id r e g = rw (g, status) refl

  get-status_none : (id : String) (r : Registry W) → get id r.records ≡ none → status id r ≡ none
  unfolding status
  get-status_none id r g = rw (g, status) refl

  legal-Answers :
      (id : String) (t : Status) (now later : W) (r : Registry W) (e : Entry W)
      → Valid r
      → get id r.records ≡ some e
      → allowed e.status t ≡ true
      → (is_live t ≡ true → t ≡ live)
      → Answers r id t (transition id t now later r)
  legal-Answers id t now later r e v g a production = elim (Bool-cases (is_live t)) [
    | inr l ↦
        let (done, valid) = transition_moves id t now later r e v g a l in
        rw (done, l)
          (
            (e.status, get-status id r e g, a),
            (v.entries id e g).keyed,
            (λ j. status-put id j (moved t later e) r),
          )
    | inl l ↦
        let is_live' = sym (production l) in
        subst (λ t'. Answers r id t' (transition id t' now later r)) is_live'
          (let a' = subst (λ t'. allowed e.status t' ≡ true) (production l) a in
            let (done, valid) = transition_promotes id now later r e v g a' in
            rw done (
              (e.status, get-status id r e g, a'),
              (v.entries id e g).keyed,
              (λ j. status-promoted id j now later r e v),
            ))
  ]

  Valid-Answers :
      (id : String) (t : Status) (now later : W) (r : Registry W)
      → Valid r
      → Answers r id t (transition id t now later r)
  Valid-Answers id t now later r v = elim (Option-cases (get id r.records)) [
    | inl g ↦ rw (unknown-err id t now later r g) (get-status_none id r g)
    | inr (e, g) ↦ elim (Bool-cases (allowed e.status t)) [
      | inr a ↦ rw (not_allowed-err id t now later r e g a) (e.status, get-status id r e g, a)
      | inl a ↦ legal-Answers id t now later r e v g a (is_live-eq t)
    ]
  ]

  -- The version that stood in production is live again after a version has gone live and is rolled
  -- back.
  Valid-rollback :
      (id : String) (n1 n2 n3 n4 : W) (r : Registry W) (e : Entry W)
      → Valid r
      → get id r.records ≡ some e
      → allowed e.status live ≡ true
      → (out : Registry W × Option (Version W)) × ((transition id live n1 n2 r
            >>= λ (p : Registry W × Version W). rollback n3 n4 p.0)
          ≡ ok out)
        × (out.0.live_stack ≡ r.live_stack)
        × ((j : String)
            → status j out.0 ≡ (
                if on_top j r.live_stack
                then some live
                else if str_eq id j
                then some retired
                else status j r))
        × Returned r.live_stack out.1
  Valid-rollback id n1 n2 n3 n4 r e v g a =
      let (done, valid) = transition_promotes id n1 n2 r e v g a in
      let (out, back, valid', stack, statuses, version) =
        rollback_lem n3 n4 (promoted id e n1 n2 r) valid in
      (
        out,
        rw done back,
        stack,
        (λ j.
            statuses j
            ∙ collapse (on_top j r.live_stack) (str_eq id j) (status j (promoted id e n1 n2 r))
                (status j r) (status-promoted id j n1 n2 r e v)),
        version,
      )

  module _ (hash : Fields W → String) where
    -- In every run from the empty registry: a transition is made exactly if the version is known and
    -- the lifecycle allows it, and is otherwise refused for that reason, never by a `KeyError`. One
    -- that is made changes the status of that version and, on the way to production, retires the
    -- version that stood there; no other status changes.
    pub transition-run :
        (cs : List (Call W)) (id : String) (t : Status) (now later : W)
        → let r = run hash empty cs in Answers r id t (transition id t now later r)
    transition-run cs id t now later =
        Valid-Answers id t now later (run hash empty cs) (run-Valid hash empty cs empty-Valid)

    -- In every run from the empty registry: if a canary goes live and is rolled back, it is retired,
    -- the version that stood in production before is live again, also if it had been retired by a
    -- transition of its own before, and no other status has changed. The rollback returns the restored
    -- version, or nothing if none ever stood there.
    pub rollback-transition :
        (cs : List (Call W)) (id : String) (n1 n2 n3 n4 : W)
        → status id (run hash empty cs) ≡ some canary
        → let r = run hash empty cs in
          (out : Registry W × Option (Version W)) × ((transition id live n1 n2 r
              >>= λ (p : Registry W × Version W). rollback n3 n4 p.0)
            ≡ ok out)
          × (out.0.live_stack ≡ r.live_stack)
          × ((j : String)
              → status j out.0 ≡ (
                  if on_top j r.live_stack
                  then some live
                  else if str_eq id j
                  then some retired
                  else status j r))
          × Returned r.live_stack out.1
    unfolding allowed
    rollback-transition cs id n1 n2 n3 n4 h =
        let r = run hash empty cs in
        let (e, g, s) = status-get id canary r h in
        Valid-rollback id n1 n2 n3 n4 r e (run-Valid hash empty cs empty-Valid) g
          (subst (λ s'. allowed s' live ≡ true) (sym s) refl)
