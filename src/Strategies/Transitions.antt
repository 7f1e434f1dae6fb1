-- ===== src/Strategies/Transitions.antt =====
-- What `transition` does from a well-formed state.
use trading_control.Prelude.{
  ◌≡◌, refl, sym, ap, ◌∙◌, true, false, none, some, List, [], ◌∷◌, String, str_eq, eq_iff,
  Bool-cases, Option-cases, inl, inr, any, if◌then◌else◌,
}
use trading_control.Prelude.Dict.{Dict, get, put, get-put_other}
use trading_control.Strategies.{
  Status, live, retired, Entry, Registry, ok, allowed, moved, is_live, supersede, go_live,
  transition, status,
}
use trading_control.Strategies.Records.{
  Stacked, ready, is_ready, ready_at, moved-staged, allowed-live, on_top,
}
use trading_control.Strategies.Invariant.{
  IsValid, NoneLive, ready_on_stack, moved-IsValid, retired-IsValid, live-IsValid,
}
use trading_control.Strategies.Registering.{Valid, set_status-ok, false-ne-true, status-put}

module _ {W : Type 0} where
  -- The records after `_supersede_current_live`.
  abbrev pub superseded : List String → W → Dict (Entry W) → Dict (Entry W)
  superseded [] now m = m
  superseded (top ∷ rest) now m = elim (get top m) [
    | none ↦ m
    | some e ↦ put top (moved retired now e) m
  ]

  -- The entry of an id that is ready.
  pub ready_at-get :
      (id : String) (m : Dict (Entry W))
      → ready_at id m ≡ true
      → (e : Entry W) × (get id m ≡ some e) × (ready e ≡ true)
  ready_at-get id m h = elim (Option-cases (get id m)) [
    | inl free ↦ absurd (false-ne-true (ap is_ready (sym free) ∙ h))
    | inr (e, g) ↦ (e, g, ap is_ready (sym g) ∙ h)
  ]

  pub ready-apart :
      (i j : String) (m : Dict (Entry W))
      → ready_at i m ≡ true
      → ready_at j m ≡ false
      → str_eq i j ≡ false
  ready-apart i j m h k = elim (Bool-cases (str_eq i j)) [
    | inl same ↦
        absurd (false-ne-true (sym k ∙ ap (λ l. ready_at l m) (sym ((eq_iff i j).0 same)) ∙ h))
    | inr other ↦ other
  ]

  supersede_lem :
      (stack : List String) (now : W) (r : Registry W)
      → IsValid r.next_version stack r.records
      → (supersede now r stack ≡ ok (record r { records = superseded stack now r.records }))
        × IsValid r.next_version stack (superseded stack now r.records)
        × NoneLive (superseded stack now r.records)
        × ((id : String)
            → ready_at id r.records ≡ false
            → get id (superseded stack now r.records) ≡ get id r.records)
  unfolding supersede
  supersede_lem [] now r v =
      (refl, v, (λ id e g h. let old = v.entries id e g in old.topmost h), λ id h. refl)
  supersede_lem (top ∷ rest) now r v =
      let (e, g, k) = ready_at-get top r.records v.stacked.0 in
      let valid = retired-IsValid r.next_version top rest r.records e now v g in
      let other = λ (id : String) (h : ready_at id r.records ≡ false).
        get-put_other top id (moved retired now e) r.records
          (ready-apart top id r.records v.stacked.0 h) in
      rw (g, superseded) (set_status-ok top retired now r e g, valid.0, valid.2, other)

  go_live-ok :
      (id : String) (now : W) (r : Registry W) {r' : Registry W}
      → supersede now r r.live_stack ≡ ok r'
      → go_live id now r ≡ ok (record r' { live_stack = id ∷ r'.live_stack })
  unfolding go_live
  go_live-ok id now r h = rw (h, go_live) refl

  pub unready-any :
      (stack : List String) (id : String) (m : Dict (Entry W))
      → Stacked m stack
      → ready_at id m ≡ false
      → any (str_eq id) stack ≡ false
  unready-any stack id m s h = elim (Bool-cases (any (str_eq id) stack)) [
    | inl on ↦ absurd (false-ne-true (sym h ∙ ready_on_stack m stack id s on))
    | inr off ↦ off
  ]

  -- A legal change other than to production moves that one entry.
  pub transition_moves :
      (id : String) (t : Status) (now later : W) (r : Registry W) (e : Entry W)
      → Valid r
      → get id r.records ≡ some e
      → allowed e.status t ≡ true
      → is_live t ≡ false
      → (transition id t now later r
          ≡ ok (record r { records = put id (moved t later e) r.records }, e.strategy))
        × IsValid r.next_version r.live_stack (put id (moved t later e) r.records)
  unfolding transition
  transition_moves id t now later r e v g a l = (
    rw (g, transition, a, l, set_status-ok id t later r e g) refl,
    moved-IsValid r.next_version r.live_stack r.records id e t later v g a l,
  )

  -- The registry after a version goes live.
  abbrev pub promoted : String → Entry W → W → W → Registry W → Registry W
  promoted id e now later r = record r {
    records = put id (moved live later e) (superseded r.live_stack now r.records);
    live_stack = id ∷ r.live_stack;
  }

  -- The change to production retires the version that stood there, and nothing else.
  pub transition_promotes :
      (id : String) (now later : W) (r : Registry W) (e : Entry W)
      → Valid r
      → get id r.records ≡ some e
      → allowed e.status live ≡ true
      → (transition id live now later r ≡ ok (promoted id e now later r, e.strategy))
        × Valid (promoted id e now later r)
  unfolding transition
  transition_promotes id now later r e v g a =
      let old = v.entries id e g in
      let (done, valid, down, others) = supersede_lem r.live_stack now r v in
      let unready : ready_at id r.records ≡ false =
        ap is_ready g ∙ rw (allowed-live e.status a) refl in
      let g' = others id unready ∙ g in
      let m' = superseded r.live_stack now r.records in
      let fresh = unready-any r.live_stack id r.records v.stacked unready in
      let p = moved-staged live later e a old.staged in
      (
        rw (g, transition, a, go_live-ok id now r done)
            (rw
              (set_status-ok id live later
                (record r { records = m'; live_stack = id ∷ r.live_stack }) e g')
              refl),
        live-IsValid r.next_version r.live_stack r.live_stack m' id e later valid down g' p fresh
            valid.stacked,
      )

  -- What is left after the top is taken off: the one below goes live.

  status-superseded :
      (stack : List String) (now : W) (r : Registry W) (j : String)
      → Stacked r.records stack
      → status j (record r { records = superseded stack now r.records })
        ≡ (if on_top j stack then some retired else status j r)
  status-superseded [] now r j s = refl
  status-superseded (top ∷ rest) now r j s =
      let (e, g, k) = ready_at-get top r.records s.0 in
      rw (g, superseded) (status-put top j (moved retired now e) r)

  -- The statuses after a version goes live.
  pub status-promoted :
      (id j : String) (now later : W) (r : Registry W) (e : Entry W)
      → Valid r
      → status j (promoted id e now later r) ≡ (
          if str_eq id j
          then some live
          else if on_top j r.live_stack
          then some retired
          else status j r)
  unfolding status
  status-promoted id j now later r e v =
      status-put id j (moved live later e)
        (record r { records = superseded r.live_stack now r.records })
      ∙ ap (λ o. if str_eq id j then some live else o)
          (status-superseded r.live_stack now r j v.stacked)
