-- ===== src/Strategies/Immutable.antt =====
-- A version never changes once it is registered, and its history only grows.
use trading_control.Strategies.Lifecycle.{run-Valid, call-Valid}
use mathlib.Core.List.{append-nil, append_assoc, List, []}
use trading_control.Strategies.{
  ◌>>=◌, Version, Registry, Status, Entry, err, ok, Result, moved, set_status, Failure, live,
  retired, empty, Call, registering, transitioning, rolling_back, supersede, go_live, transition,
  restore, roll, Fields, allowed, register, call, run, rollback, version_id_of, is_live,
}
use trading_control.Prelude.Dict.{get, put, Dict, get-put_same, get-put_other}
use trading_control.Prelude.{
  ◌≡◌, refl, sym, ap, ◌∙◌, subst, String, Option, some, none, inl, inr, false, ◌≢◌, Bool-cases,
  Option-cases, str_eq, eq_iff, ◌++◌, ◌∷◌, ◌⊎◌, [], if◌then◌else◌, ℕ,
}
use trading_control.Strategies.Registering.{Valid, empty-Valid, get-version_id_of}

-- A call whose outcome is fed to another has not raised, if that has not.
first_ok :
    {A B : Type 0} {out : B} (step : Result A) (rest : A → Result B)
    → (step >>= rest) ≡ ok out
    → (mid : A) × (rest mid ≡ ok out) × (step ≡ ok mid)
first_ok (err e) rest h = cc
first_ok (ok mid) rest h = (mid, h, refl)

err-ne-ok : {A : Type 0} {e : Failure} {a : A} → err e ≢ ok a
err-ne-ok h = cc

ok-inj : {A : Type 0} {a b : A} → ok a ≡ ok b → a ≡ b
ok-inj h = cc

some-entry : {A : Type 0} {a b : A} → some a ≡ some b → a ≡ b
some-entry h = cc

Result-cases : {A : Type 0} (m : Result A) → ((a : A) × (m ≡ ok a)) ⊎ ((e : Failure) × (m ≡ err e))
Result-cases (ok a) = inl (a, refl)
Result-cases (err e) = inr (e, refl)

absent-apart :
    {A : Type 0} (i j : String) (a : A) (m : Dict A)
    → get i m ≡ none
    → get j m ≡ some a
    → str_eq i j ≡ false
absent-apart i j a m free taken = elim (Bool-cases (str_eq i j)) [
  | inl same ↦ cc ((eq_iff i j).0 same)
  | inr other ↦ other
]

module _ {W : Type 0} where
  -- An entry as it is found later: the same version, with more behind its history.
  abbrev pub Later : Entry W → Option (Entry W) → Type 0
  Later e none = ⊥
  Later e (some e') =
      (e'.strategy ≡ e.strategy) × ((more : List (Status × W)) × (e'.history ≡ e.history ++ more))

  abbrev pub Keeps : Dict (Entry W) → Dict (Entry W) → Type 0
  Keeps m m' = (id : String) (e : Entry W) → get id m ≡ some e → Later e (get id m')

  Keeps-refl : (m : Dict (Entry W)) → Keeps m m
  Keeps-refl m id e g = rw g (refl, ([], sym (append-nil e.history)))

  Later-trans :
      (e : Entry W) (o o' : Option (Entry W))
      → Later e o
      → ((e' : Entry W) → o ≡ some e' → Later e' o')
      → Later e o'
  Later-trans e none o' h k = absurd h
  Later-trans e (some e') none h k = k e' refl
  Later-trans e (some e') (some e'') h k =
      let (s, (more, t)) = h in
      let (s', (more', t')) = k e' refl in
      (s' ∙ s, (more ++ more', t' ∙ ap (λ l. l ++ more') t ∙ append_assoc e.history more more'))

  Keeps-trans : (m m' m'' : Dict (Entry W)) → Keeps m m' → Keeps m' m'' → Keeps m m''
  Keeps-trans m m' m'' h k id e g = Later-trans e (get id m') (get id m'') (h id e g) (k id)

  put-Keeps :
      (id : String) (st : Status) (now : W) (e : Entry W) (m : Dict (Entry W))
      → get id m ≡ some e
      → Keeps m (put id (moved st now e) m)
  put-Keeps id st now e m g j e' g' = elim (Bool-cases (str_eq id j)) [
    | inl same ↦
        let h : e ≡ e' = some-entry (sym g ∙ ap (λ i. get i m) ((eq_iff id j).0 same) ∙ g') in
        rw (get-put_same id j (moved st now e) m same) (
          ap (λ (x : Entry W). x.strategy) h,
          ((st, now) ∷ [], ap (λ (x : Entry W). x.history ++ ((st, now) ∷ [])) h),
        )
    | inr other ↦ rw (get-put_other id j (moved st now e) m other) (Keeps-refl m j e' g')
  ]

  set_status-Keeps :
      (id : String) (st : Status) (now : W) (r : Registry W) {r' : Registry W}
      → set_status id st now r ≡ ok r'
      → Keeps r.records r'.records
  unfolding set_status
  set_status-Keeps id st now r {r'} h = elim (Option-cases (get id r.records)) [
    | inl g ↦ absurd (err-ne-ok (rw (g, set_status) at h))
    | inr (e, g) ↦
        let same : record r { records = put id (moved st now e) r.records } ≡ r' =
          ok-inj (rw (g, set_status) at h) in
        subst (λ (x : Registry W). Keeps r.records x.records) same
          (put-Keeps id st now e r.records g)
  ]

  supersede-Keeps :
      (stack : List String) (now : W) (r : Registry W) {r' : Registry W}
      → supersede now r stack ≡ ok r'
      → Keeps r.records r'.records
  unfolding supersede
  supersede-Keeps [] now r h =
      subst (λ (x : Registry W). Keeps r.records x.records) (ok-inj h) (Keeps-refl r.records)
  supersede-Keeps (top ∷ rest) now r h = set_status-Keeps top retired now r h

  go_live-Keeps :
      (id : String) (now : W) (r : Registry W) {r' : Registry W}
      → go_live id now r ≡ ok r'
      → Keeps r.records r'.records
  unfolding go_live
  go_live-Keeps id now r {r'} h =
      let (r1, same, s) =
        first_ok (supersede now r r.live_stack)
          (λ x. ok (record x { live_stack = id ∷ x.live_stack })) h in
      subst (λ (x : Registry W). Keeps r.records x.records) (ok-inj same)
        (supersede-Keeps r.live_stack now r s)

  transition-Keeps :
      (id : String) (t : Status) (now later : W) (r : Registry W) {out : Registry W × Version W}
      → transition id t now later r ≡ ok out
      → Keeps r.records out.0.records
  unfolding transition
  transition-Keeps id t now later r {out} h = elim (Option-cases (get id r.records)) [
    | inl g ↦ absurd (err-ne-ok (rw (g, transition) at h))
    | inr (e, g) ↦ elim (Bool-cases (allowed e.status t)) [
      | inr a ↦ absurd (err-ne-ok (rw (g, transition, a) at h))
      | inl a ↦
          let (r1, h1, s1) =
            first_ok (if is_live t then go_live id now r else ok r)
              (λ x. set_status id t later x >>= λ y. ok (y, e.strategy))
              (rw (g, transition, a) at h) in
          let (r2, h2, s2) = first_ok (set_status id t later r1) (λ y. ok (y, e.strategy)) h1 in
          let k1 : Keeps r.records r1.records = elim (Bool-cases (is_live t)) [
            | inl l ↦ go_live-Keeps id now r (rw l at s1)
            | inr l ↦
                subst (λ (x : Registry W). Keeps r.records x.records) (ok-inj (rw l at s1))
                  (Keeps-refl r.records)
          ] in
          subst (λ (o : Registry W × Version W). Keeps r.records o.0.records) (ok-inj h2)
            (Keeps-trans r.records r1.records r2.records k1 (set_status-Keeps id t later r1 s2))
    ]
  ]

  restore-Keeps :
      (rest : List String) (later : W) (r : Registry W) {out : Registry W × Option (Version W)}
      → restore rest later r ≡ ok out
      → Keeps r.records out.0.records
  unfolding restore
  restore-Keeps [] later r h =
      subst (λ (o : Registry W × Option (Version W)). Keeps r.records o.0.records) (ok-inj h)
        (Keeps-refl r.records)
  restore-Keeps (prev ∷ rest) later r h = elim (Option-cases (get prev r.records)) [
    | inl g ↦ absurd (err-ne-ok (rw (g, restore) at h))
    | inr (e, g) ↦
        let (r1, same, s) =
          first_ok (set_status prev live later r) (λ x. ok (x, some e.strategy))
            (rw (g, restore) at h) in
        subst (λ (o : Registry W × Option (Version W)). Keeps r.records o.0.records) (ok-inj same)
          (set_status-Keeps prev live later r s)
  ]

  roll-Keeps :
      (stack : List String) (now later : W) (r : Registry W) {out : Registry W × Option (Version W)}
      → roll stack now later r ≡ ok out
      → Keeps r.records out.0.records
  unfolding roll
  roll-Keeps [] now later r h =
      subst (λ (o : Registry W × Option (Version W)). Keeps r.records o.0.records) (ok-inj h)
        (Keeps-refl r.records)
  roll-Keeps (top ∷ rest) now later r {out} h =
      let (r1, h1, s) =
        first_ok (set_status top retired now (record r { live_stack = rest })) (restore rest later)
          h in
      Keeps-trans r.records r1.records out.0.records
        (set_status-Keeps top retired now (record r { live_stack = rest }) s)
        (restore-Keeps rest later r1 h1)

  rollback-Keeps :
      (now later : W) (r : Registry W) {out : Registry W × Option (Version W)}
      → rollback now later r ≡ ok out
      → Keeps r.records out.0.records
  unfolding rollback
  rollback-Keeps now later r h = roll-Keeps r.live_stack now later r h

  module _ (hash : Fields W → String) where
    register-Keeps :
        (config : Fields W) (parent : Option ℕ) (now : W) (r : Registry W)
        → Valid r
        → Keeps r.records (register hash config parent now r).0.records
    unfolding register
    register-Keeps config parent now r v id e g =
        let free = get-version_id_of r (hash config) v in
        let apart =
          absent-apart (version_id_of r.next_version (hash config)) id e r.records free g in
        rw (get-put_other _ id _ r.records apart) (Keeps-refl r.records id e g)

    call-Keeps : (r : Registry W) (c : Call W) → Valid r → Keeps r.records (call hash r c).records
    unfolding call
    call-Keeps r (registering config parent now) v = register-Keeps config parent now r v
    call-Keeps r (transitioning id t now later) v =
        elim (Result-cases (transition id t now later r)) [
          | inl (out, h) ↦ rw (h, call) (transition-Keeps id t now later r h)
          | inr (e, h) ↦ rw (h, call) (Keeps-refl r.records)
        ]
    call-Keeps r (rolling_back now later) v = elim (Result-cases (rollback now later r)) [
      | inl (out, h) ↦ rw (h, call) (rollback-Keeps now later r h)
      | inr (e, h) ↦ rw (h, call) (Keeps-refl r.records)
    ]

    run-Keeps :
        (r : Registry W) (cs : List (Call W)) → Valid r → Keeps r.records (run hash r cs).records
    unfolding run
    run-Keeps r [] v = Keeps-refl r.records
    run-Keeps r (c ∷ cs) v =
        Keeps-trans r.records (call hash r c).records (run hash (call hash r c) cs).records
          (call-Keeps r c v) (run-Keeps (call hash r c) cs (call-Valid hash r c v))

    -- In every run from the empty registry: a version that is found under an id is found there
    -- unchanged after any further calls, and its history is then the earlier one with more behind it.
    -- A new version never takes the id of another.
    pub run-immutable :
        (cs more : List (Call W)) (id : String) (e : Entry W)
        → get id (run hash empty cs).records ≡ some e
        → Later e (get id (run hash (run hash empty cs) more).records)
          × ((config : Fields W)
              → get
                  (version_id_of (run hash empty cs).next_version (hash config))
                  (run hash empty cs).records
                ≡ none)
    run-immutable cs more id e g =
        let r = run hash empty cs in
        let v = run-Valid hash empty cs empty-Valid in
        (run-Keeps r more v id e g, λ config. get-version_id_of r (hash config) v)
