-- ===== src/Strategies/Invariant.antt =====
-- The well-formed states of the registry, and that every call keeps them and raises no `KeyError`.
use trading_control.Prelude.{
  ℕ, ◌≡◌, ◌≢◌, refl, sym, ap, ◌∙◌, true, false, some, List, [], ◌∷◌, String, str_eq, eq_iff,
  Bool-cases, inl, inr, any, arith,
}
use trading_control.Prelude.Dict.{Dict, get, put, get-put_same, get-put_other, Unique, put-Unique}
use text.Mathlib.TextPositions.{eq_refl}
use trading_control.Strategies.{Status, live, retired, Entry, allowed, moved, is_live}
use trading_control.Strategies.Records.{
  passed, stages, IsEntry, Entries, Stacked, ready, is_ready, ready_at, settled-allowed,
  moved-staged, moved-ready, put-Entries, Stacked-put,
}

module _ {W : Type 0} where
  pub record IsValid (next : ℕ) (stack : List String) (m : Dict (Entry W)) : Type 0 where
    pub entries : Entries next stack m
    pub stacked : Stacked m stack
    pub unique : Unique m

  retired-ne-live : (e e' : Entry W) → e ≡ e' → e.status ≡ retired → e'.status ≢ live
  retired-ne-live e e' same r l = ground arith

  abbrev pub NoneLive : Dict (Entry W) → Type 0
  NoneLive m = (id : String) (e : Entry W) → get id m ≡ some e → e.status ≢ live

  -- On the stack means ready.
  pub ready_on_stack :
      (m : Dict (Entry W)) (stack : List String) (id : String)
      → Stacked m stack
      → any (str_eq id) stack ≡ true
      → ready_at id m ≡ true
  ready_on_stack m [] id s h = cc
  ready_on_stack m (j ∷ rest) id s h = elim (Bool-cases (str_eq id j)) [
    | inl same ↦ ap (λ i. ready_at i m) ((eq_iff id j).0 same) ∙ s.0
    | inr other ↦ ready_on_stack m rest id s.2 (ground arith)
  ]

  -- Any legal change but the one to production.
  pub moved-IsValid :
      (next : ℕ) (stack : List String) (m : Dict (Entry W)) (id : String) (e : Entry W) (t : Status)
      (now : W)
      → IsValid next stack m
      → get id m ≡ some e
      → allowed e.status t ≡ true
      → is_live t ≡ false
      → IsValid next stack (put id (moved t now e) m)
  moved-IsValid next stack m id e t now v g a l =
      let old = v.entries id e g in
      let new : IsEntry next stack id (moved t now e) = record {
        named = old.named;
        keyed = old.keyed;
        numbered = old.numbered;
        staged = moved-staged t now e a old.staged;
        topmost = λ h. absurd (ground arith);
      } in
      record {
        entries = put-Entries next stack m id (moved t now e) v.entries new;
        stacked =
            Stacked-put id (moved t now e) m stack
              (λ h.
                let r : ready e ≡ true =
                  ap is_ready (sym g) ∙ ready_on_stack m stack id v.stacked h in
                moved-ready t now e (settled-allowed e.status t a (ground arith)) r)
              v.stacked;
        unique = put-Unique id (moved t now e) m v.unique;
      }

  -- Only the top of the stack may be live, and it is retired.
  retired-NoneLive :
      (next : ℕ) (top : String) (rest : List String) (m : Dict (Entry W)) (e : Entry W) (now : W)
      → IsValid next (top ∷ rest) m
      → NoneLive (put top (moved retired now e) m)
  retired-NoneLive next top rest m e now v id e' g h = elim (Bool-cases (str_eq top id)) [
    | inl same ↦
        let k = get-put_same top id (moved retired now e) m same in
        absurd (retired-ne-live (moved retired now e) e' (cc k) refl h)
    | inr other ↦
        let old = v.entries id e' (sym (get-put_other top id (moved retired now e) m other) ∙ g) in
        cc ((eq_iff top id).1 (old.topmost h))
  ]

  -- A configuration with down live, whatever part of the stack is kept.
  NoneLive-IsValid :
      (next : ℕ) (stack rest : List String) (m : Dict (Entry W))
      → NoneLive m
      → Stacked m rest
      → IsValid next stack m
      → IsValid next rest m
  NoneLive-IsValid next stack rest m down s v = record {
    entries = λ id e g.
        let old = v.entries id e g in
        record {
          named = old.named;
          keyed = old.keyed;
          numbered = old.numbered;
          staged = old.staged;
          topmost = λ h. absurd (down id e g h);
        };
    stacked = s;
    unique = v.unique;
  }

  pub retired-IsValid :
      (next : ℕ) (top : String) (rest : List String) (m : Dict (Entry W)) (e : Entry W) (now : W)
      → IsValid next (top ∷ rest) m
      → get top m ≡ some e
      → IsValid next (top ∷ rest) (put top (moved retired now e) m)
        × IsValid next rest (put top (moved retired now e) m)
        × NoneLive (put top (moved retired now e) m)
  retired-IsValid next top rest m e now v g =
      let old = v.entries top e g in
      let is_old : ready e ≡ true = ap is_ready (sym g) ∙ v.stacked.0 in
      let m' = put top (moved retired now e) m in
      let down = retired-NoneLive next top rest m e now v in
      let new : IsEntry next (top ∷ rest) top (moved retired now e) = record {
        named = old.named;
        keyed = old.keyed;
        numbered = old.numbered;
        staged = refl;
        topmost = λ h. refl;
      } in
      let all = put-Entries next (top ∷ rest) m top (moved retired now e) v.entries new in
      let keep =
        λ (h : any (str_eq top) (top ∷ rest) ≡ true). moved-ready retired now e refl is_old in
      let s = Stacked-put top (moved retired now e) m (top ∷ rest) keep v.stacked in
      let v' : IsValid next (top ∷ rest) m' = record {
        entries = all;
        stacked = s;
        unique = put-Unique top (moved retired now e) m v.unique;
      } in
      (v', NoneLive-IsValid next (top ∷ rest) rest m' down s.2 v', down)

  -- With down live, a version that has come this far goes live on top of a stack it is not on.
  pub live-IsValid :
      (next : ℕ) (stack rest : List String) (m : Dict (Entry W)) (id : String) (e : Entry W)
      (now : W)
      → IsValid next stack m
      → NoneLive m
      → get id m ≡ some e
      → passed (stages (moved live now e)) ≡ true
      → any (str_eq id) rest ≡ false
      → Stacked m rest
      → IsValid next (id ∷ rest) (put id (moved live now e) m)
  live-IsValid next stack rest m id e now v down g p fresh s =
      let old = v.entries id e g in
      let new : IsEntry next (id ∷ rest) id (moved live now e) = record {
        named = old.named;
        keyed = old.keyed;
        numbered = old.numbered;
        staged = p;
        topmost = λ h. refl;
      } in
      let all : Entries next (id ∷ rest) m = λ j e' g'.
        let before = v.entries j e' g' in
        record {
          named = before.named;
          keyed = before.keyed;
          numbered = before.numbered;
          staged = before.staged;
          topmost = λ h. absurd (down j e' g' h);
        } in
      record {
        entries = put-Entries next (id ∷ rest) m id (moved live now e) all new;
        stacked = (
          ap is_ready (get-put_same id id (moved live now e) m (eq_refl id)) ∙ p,
          fresh,
          Stacked-put id (moved live now e) m rest (λ h. p) s,
        );
        unique = put-Unique id (moved live now e) m v.unique;
      }
