-- ===== src/Strategies/Rollbacks.antt =====
-- What `rollback` does from a well-formed state.
use trading_control.Prelude.{
  ◌≡◌, refl, sym, subst, true, Option, none, some, List, [], ◌∷◌, String, arith, drop,
  if◌then◌else◌, ◌∙◌, ap,
}
use trading_control.Prelude.Dict.{put}
use trading_control.Strategies.{
  live, retired, Version, Registry, ok, moved, roll, restore, rollback, status,
}
use trading_control.Strategies.Records.{passed, stages, passed-append, stages-append, on_top}
use trading_control.Strategies.Invariant.{IsValid, NoneLive, retired-IsValid, live-IsValid}
use trading_control.Strategies.Registering.{Valid, set_status-ok, status-put}
use trading_control.Strategies.Transitions.{ready_at-get}

-- What the version under an id is after the stack has lost its top.
abbrev pub Returned : {W : Type 0} → List String → Option (Version W) → Type 0
Returned [] v = v ≡ none
Returned {W} (prev ∷ rest) v = (sv : Version W) × (v ≡ some sv) × (sv.version_id ≡ prev)

module _ {W : Type 0} where
  restore_lem :
      (rest : List String) (later : W) (r : Registry W)
      → IsValid r.next_version rest r.records
      → NoneLive r.records
      → r.live_stack ≡ rest
      → (out : Registry W × Option (Version W)) × (restore rest later r ≡ ok out)
        × Valid out.0
        × (out.0.live_stack ≡ rest)
        × ((j : String) → status j out.0 ≡ (if on_top j rest then some live else status j r))
        × Returned rest out.1
  unfolding restore
  restore_lem [] later r v down s = (
    (r, none),
    refl,
    subst (λ l. IsValid r.next_version l r.records) (sym s) v,
    s,
    (λ j. refl),
    refl,
  )
  restore_lem (prev ∷ rest) later r v down s =
      let (e, g, k) = ready_at-get prev r.records v.stacked.0 in
      let p : passed (stages (moved live later e)) ≡ true =
        rw (stages-append e.history live later)
          (passed-append (stages e) (live ∷ []) (ground arith)) in
      let m' = put prev (moved live later e) r.records in
      (
        (record r { records = m' }, some e.strategy),
        rw (g, restore, set_status-ok prev live later r e g) refl,
        subst (λ l. IsValid r.next_version l m') (sym s)
            (live-IsValid r.next_version (prev ∷ rest) rest r.records prev e later v down g p
              v.stacked.1 v.stacked.2),
        s,
        (λ j. status-put prev j (moved live later e) r),
        (e.strategy, refl, (v.entries prev e g).keyed),
      )

  roll_lem :
      (stack : List String) (now later : W) (r : Registry W)
      → IsValid r.next_version stack r.records
      → r.live_stack ≡ stack
      → (out : Registry W × Option (Version W)) × (roll stack now later r ≡ ok out)
        × Valid out.0
        × (out.0.live_stack ≡ drop 1 stack)
        × ((j : String)
            → status j out.0 ≡ (
                if on_top j (drop 1 stack)
                then some live
                else if on_top j stack
                then some retired
                else status j r))
        × Returned (drop 1 stack) out.1
  unfolding roll status
  roll_lem [] now later r v s = (
    (r, none),
    refl,
    subst (λ l. IsValid r.next_version l r.records) (sym s) v,
    s,
    (λ j. refl),
    refl,
  )
  roll_lem (top ∷ rest) now later r v s =
      let (e, g, k) = ready_at-get top r.records v.stacked.0 in
      let valid = retired-IsValid r.next_version top rest r.records e now v g in
      let r' : Registry W = record r {
        records = put top (moved retired now e) r.records;
        live_stack = rest;
      } in
      let (out, done, valid', stack', statuses, back) =
        restore_lem rest later r' valid.1 valid.2 refl in
      (
        out,
        rw (set_status-ok top retired now (record r { live_stack = rest }) e g) done,
        valid',
        stack',
        (λ j.
            statuses j
            ∙ ap (λ o. if on_top j rest then some live else o)
                (status-put top j (moved retired now e) (record r { live_stack = rest }))),
        back,
      )

  -- `rollback` never raises. It retires the version on top of the stack, takes it off, and makes the
  -- one below live, which it returns; without one below it returns nothing.
  pub rollback_lem :
      (now later : W) (r : Registry W)
      → Valid r
      → (out : Registry W × Option (Version W)) × (rollback now later r ≡ ok out)
        × Valid out.0
        × (out.0.live_stack ≡ drop 1 r.live_stack)
        × ((j : String)
            → status j out.0 ≡ (
                if on_top j (drop 1 r.live_stack)
                then some live
                else if on_top j r.live_stack
                then some retired
                else status j r))
        × Returned (drop 1 r.live_stack) out.1
  unfolding rollback
  rollback_lem now later r v = roll_lem r.live_stack now later r v refl
