-- ===== src/Strategies/Lifecycle.antt =====
-- What holds of the registry in every run: one version is live at most, and it has passed every stage.
use trading_control.Prelude.Options.{some-inj}
use text.Mathlib.TextPositions.{eq_refl}
use trading_control.Prelude.{
  ◌≡◌, ◌≢◌, refl, sym, ◌∙◌, subst, Bool, true, false, none, some, List, [], ◌∷◌, String, str_eq,
  eq_iff, Bool-cases, Option-cases, inl, inr, find_first, arith,
}
use trading_control.Prelude.Dict.{Dict, get, Unique}
use trading_control.Json.{Fields}
use trading_control.Strategies.{
  Status, live, Version, Entry, Registry, ok, err, unknown_version, not_allowed, allowed, is_live,
  empty, transition, Call, registering, transitioning, rolling_back, call, run, values, status,
  current_live,
}
use trading_control.Strategies.Records.{passed, stages, Top, trail}
use trading_control.Strategies.Registering.{Valid, empty-Valid, register-Valid}
use trading_control.Strategies.Transitions.{transition_moves, transition_promotes}
use trading_control.Strategies.Rollbacks.{rollback_lem}

pub not_allowed-err :
    {W : Type 0} (id : String) (t : Status) (now later : W) (r : Registry W) (e : Entry W)
    → get id r.records ≡ some e
    → allowed e.status t ≡ false
    → transition id t now later r ≡ err not_allowed
unfolding transition
not_allowed-err id t now later r e g a = rw (g, transition, a) refl

pub unknown-err :
    {W : Type 0} (id : String) (t : Status) (now later : W) (r : Registry W)
    → get id r.records ≡ none
    → transition id t now later r ≡ err unknown_version
unfolding transition
unknown-err id t now later r g = rw (g, transition) refl

none-ne-some : (s : Status) → none ≢ some s
none-ne-some s h = cc

Top-unique : (i j : String) (stack : List String) → Top i stack → Top j stack → i ≡ j
Top-unique i j [] h k = absurd h
Top-unique i j (top ∷ rest) h k = sym h ∙ k

pub is_live-eq : (t : Status) → is_live t ≡ true → t ≡ live
is_live-eq t h = ground arith

module _ {W : Type 0} where
  transition-Valid :
      (id : String) (t : Status) (now later : W) (r : Registry W)
      → Valid r
      → Valid (elim (transition id t now later r) [ ok (r', sv) ↦ r' | err e ↦ r ])
  transition-Valid id t now later r v = elim (Option-cases (get id r.records)) [
    | inl g ↦ rw (unknown-err id t now later r g) v
    | inr (e, g) ↦ elim (Bool-cases (allowed e.status t)) [
      | inr a ↦ rw (not_allowed-err id t now later r e g a) v
      | inl a ↦ elim (Bool-cases (is_live t)) [
        | inr l ↦ let (done, valid) = transition_moves id t now later r e v g a l in rw done valid
        | inl l ↦
            subst
              (λ t'. Valid (elim (transition id t' now later r) [ ok (r', sv) ↦ r' | err e ↦ r ]))
              (sym (is_live-eq t l))
              (let a' = subst (λ t'. allowed e.status t' ≡ true) (is_live-eq t l) a in
                let (done, valid) = transition_promotes id now later r e v g a' in rw done valid)
      ]
    ]
  ]

  find_first-found :
      (test : Entry W → Bool) (id : String) (e : Entry W) (m : Dict (Entry W))
      → get id m ≡ some e
      → test e ≡ true
      → (e' : Entry W) × (find_first test (values m) ≡ some e')
  unfolding get values
  find_first-found test id e [] g t = cc
  find_first-found test id e ((k, x) ∷ m) g t = elim (Bool-cases (test x)) [
    | inl hit ↦ (x, rw hit refl)
    | inr miss ↦ rw miss (find_first-found test id e m (ground arith) t)
  ]

  get-cons :
      (k id : String) (x e : Entry W) (m : Dict (Entry W))
      → get k m ≡ none
      → get id m ≡ some e
      → get id ((k, x) ∷ m) ≡ some e
  unfolding get
  get-cons k id x e m u g = elim (Bool-cases (str_eq k id)) [
    | inl same ↦ cc ((eq_iff k id).0 same)
    | inr other ↦ rw other g
  ]

  find_first-get :
      (test : Entry W → Bool) (m : Dict (Entry W)) (e : Entry W)
      → Unique m
      → find_first test (values m) ≡ some e
      → (id : String) × (get id m ≡ some e) × (test e ≡ true)
  unfolding get values
  find_first-get test [] e u h = cc
  find_first-get test ((k, x) ∷ m) e u h = elim (Bool-cases (test x)) [
    | inl hit ↦
        let same : some x ≡ some e = rw hit at h in
        (k, rw (eq_refl k) same, subst (λ y. test y ≡ true) (cc) hit)
    | inr miss ↦
        let (id, g, t) = find_first-get test m e u.1 (rw miss at h) in
        (id, get-cons k id x e m u.0 g, t)
  ]

  pub status-get :
      (id : String) (s : Status) (r : Registry W)
      → status id r ≡ some s
      → (e : Entry W) × (get id r.records ≡ some e) × (e.status ≡ s)
  unfolding status
  status-get id s r h = elim (Option-cases (get id r.records)) [
    | inl g ↦ absurd (none-ne-some s (rw (g, status) at h))
    | inr (e, g) ↦ (e, g, some-inj (rw (g, status) at h))
  ]

  current_live-get :
      (id : String) (r : Registry W)
      → Valid r
      → status id r ≡ some live
      → (v : Version W) × (current_live r ≡ some v) × (v.version_id ≡ id)
  unfolding current_live
  current_live-get id r v h =
      let (e, g, l) = status-get id live r h in
      let (e', f) =
        find_first-found (λ (x : Entry W). is_live x.status) id e r.records g (rw l refl) in
      let (id', g', l') =
        find_first-get (λ (x : Entry W). is_live x.status) r.records e' v.unique f in
      let top = (v.entries id e g).topmost l in
      let top' = (v.entries id' e' g').topmost (is_live-eq e'.status l') in
      (
        e'.strategy,
        rw (f, current_live) refl,
        (v.entries id' e' g').keyed ∙ Top-unique id' id r.live_stack top' top,
      )

  module _ (hash : Fields W → String) where
    pub call-Valid : (r : Registry W) (c : Call W) → Valid r → Valid (call hash r c)
    unfolding call
    call-Valid r (registering config parent now) v = register-Valid hash config parent now r v
    call-Valid r (transitioning id t now later) v = transition-Valid id t now later r v
    call-Valid r (rolling_back now later) v =
        let (out, done, valid, stack, statuses, back) = rollback_lem now later r v in
        rw (done, call) valid

    pub run-Valid : (r : Registry W) (cs : List (Call W)) → Valid r → Valid (run hash r cs)
    unfolding run
    run-Valid r [] v = v
    run-Valid r (c ∷ cs) v = run-Valid (call hash r c) cs (call-Valid r c v)

    -- In every run from the empty registry: if a version is live, no other one is, and it is the one
    -- that `current_live` returns.
    pub status-run :
        (cs : List (Call W)) (i : String)
        → status i (run hash empty cs) ≡ some live
        → ((j : String) → status j (run hash empty cs) ≡ some live → j ≡ i)
          × ((v : Version W) × (current_live (run hash empty cs) ≡ some v) × (v.version_id ≡ i))
    status-run cs i h =
        let v = run-Valid empty cs empty-Valid in
        let r = run hash empty cs in
        let (e, g, l) = status-get i live r h in
        (
          (λ j k.
              let (e', g', l') = status-get j live r k in
              Top-unique j i r.live_stack ((v.entries j e' g').topmost l')
                ((v.entries i e g).topmost l)),
          current_live-get i r v h,
        )

    -- In every run from the empty registry: a version that is live has been backtested, has run in
    -- the shadow and as a canary, in this order and before anything else, and then went live.
    pub passed-run :
        (cs : List (Call W)) (id : String) (e : Entry W)
        → get id (run hash empty cs).records ≡ some e
        → e.status ≡ live
        → passed (stages e) ≡ true
    passed-run cs id e g l =
        let v = run-Valid empty cs empty-Valid in
        subst (λ s. trail s (stages e) ≡ true) l (v.entries id e g).staged
