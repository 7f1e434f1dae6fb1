-- ===== src/Strategies/Records.antt =====
-- The records of the registry: what holds of each, and what a write of one leaves as it was.
use trading_control.Prelude.{
  ℕ, ◌<◌, ◌≡◌, refl, sym, ap, ◌∙◌, subst, Bool, true, false, ◌&&◌, Option, none, some, List, [],
  ◌∷◌, ◌++◌, map, String, str_eq, eq_iff, Bool-cases, inl, inr, any, arith,
}
use trading_control.Prelude.Dict.{Dict, get, put, get-put_same, get-put_other}
use trading_control.Strategies.{
  Status, proposed, backtested, shadow, canary, live, retired, Entry, allowed, version_id_of, moved,
}

abbrev pub settled : Status → Bool
settled live = true
settled retired = true
settled _ = false

-- The stages before production, in order, and production.
abbrev pub passed : List Status → Bool
passed (backtested ∷ shadow ∷ canary ∷ live ∷ _) = true
passed _ = false

-- The stages that a version of a status has gone through.
abbrev pub trail : Status → List Status → Bool
trail proposed [] = true
trail backtested (backtested ∷ []) = true
trail shadow (backtested ∷ shadow ∷ []) = true
trail canary (backtested ∷ shadow ∷ canary ∷ []) = true
trail live xs = passed xs
trail retired xs = true
trail _ _ = false

pub passed-append : (xs ys : List Status) → passed xs ≡ true → passed (xs ++ ys) ≡ true
passed-append (backtested ∷ shadow ∷ canary ∷ live ∷ xs) ys h = refl
passed-append xs ys h = ground arith

pub trail-append :
    (s t : Status) (xs : List Status)
    → allowed s t ≡ true
    → trail s xs ≡ true
    → trail t (xs ++ (t ∷ [])) ≡ true
unfolding allowed
trail-append proposed backtested [] a h = refl
trail-append backtested shadow (backtested ∷ []) a h = refl
trail-append shadow canary (backtested ∷ shadow ∷ []) a h = refl
trail-append canary live (backtested ∷ shadow ∷ canary ∷ []) a h = refl
trail-append s t xs a h = ground arith

pub settled-allowed : (s t : Status) → allowed s t ≡ true → settled s ≡ true → settled t ≡ true
unfolding allowed
settled-allowed s t a h = ground arith

-- Production is entered from a stage before it.
pub allowed-live : (s : Status) → allowed s live ≡ true → settled s ≡ false
unfolding allowed
allowed-live s a = ground arith

-- The id on top of the stack.
abbrev pub on_top : String → List String → Bool
on_top id [] = false
on_top id (top ∷ rest) = str_eq top id

abbrev pub Top : String → List String → Type 0
Top id [] = ⊥
Top id (top ∷ rest) = top ≡ id

module _ {W : Type 0} where
  abbrev pub stages : Entry W → List Status
  stages e = map (λ (p : Status × W). p.0) e.history

  pub stages-append :
      (h : List (Status × W)) (t : Status) (now : W)
      → map (λ (p : Status × W). p.0) (h ++ ((t, now) ∷ []))
        ≡ map (λ (p : Status × W). p.0) h ++ (t ∷ [])
  stages-append [] t now = refl
  stages-append ((s, x) ∷ h) t now = ap (λ l. s ∷ l) (stages-append h t now)

  -- What stands under an id: a version with that id, numbered below the next one, that is at the
  -- stage its history tells, and is live only with the id on top of the stack.
  pub record IsEntry (next : ℕ) (stack : List String) (id : String) (e : Entry W) : Type 0 where
    pub named : id ≡ version_id_of e.strategy.version e.strategy.config_hash
    pub keyed : e.strategy.version_id ≡ id
    pub numbered : e.strategy.version < next
    pub staged : trail e.status (stages e) ≡ true
    pub topmost : e.status ≡ live → Top id stack

  abbrev pub Entries : ℕ → List String → Dict (Entry W) → Type 0
  Entries next stack m = (id : String) (e : Entry W) → get id m ≡ some e → IsEntry next stack id e

  -- A version that may be on the stack: it has gone live, and since then at most been retired.
  abbrev pub ready : Entry W → Bool
  ready e = settled e.status && passed (stages e)

  abbrev pub is_ready : Option (Entry W) → Bool
  is_ready none = false
  is_ready (some e) = ready e

  abbrev pub ready_at : String → Dict (Entry W) → Bool
  ready_at id m = is_ready (get id m)

  abbrev pub Stacked : Dict (Entry W) → List String → Type 0
  Stacked m [] = Unit {0}
  Stacked m (id ∷ rest) = (ready_at id m ≡ true) × (any (str_eq id) rest ≡ false) × Stacked m rest

  pub moved-staged :
      (t : Status) (now : W) (e : Entry W)
      → allowed e.status t ≡ true
      → trail e.status (stages e) ≡ true
      → trail t (stages (moved t now e)) ≡ true
  moved-staged t now e a h =
      rw (stages-append e.history t now) (trail-append e.status t (stages e) a h)

  pub moved-ready :
      (t : Status) (now : W) (e : Entry W)
      → settled t ≡ true
      → ready e ≡ true
      → ready (moved t now e) ≡ true
  moved-ready t now e s h =
      rw (stages-append e.history t now, s) (passed-append (stages e) (t ∷ []) (ground arith))

  pub put-Entries :
      (next : ℕ) (stack : List String) (m : Dict (Entry W)) (id : String) (e : Entry W)
      → Entries next stack m
      → IsEntry next stack id e
      → Entries next stack (put id e m)
  put-Entries next stack m id e all new j e' h = elim (Bool-cases (str_eq id j)) [
    | inl same ↦
        let k : e ≡ e' = cc (get-put_same id j e m same) in
        subst (λ x. IsEntry next stack j x) k
          (subst (λ i. IsEntry next stack i e) ((eq_iff id j).0 same) new)
    | inr other ↦ all j e' (sym (get-put_other id j e m other) ∙ h)
  ]

  pub ready_at-put :
      (id j : String) (e : Entry W) (m : Dict (Entry W))
      → (str_eq id j ≡ true → ready e ≡ true)
      → ready_at j m ≡ true
      → ready_at j (put id e m) ≡ true
  ready_at-put id j e m h k = elim (Bool-cases (str_eq id j)) [
    | inl same ↦ ap is_ready (get-put_same id j e m same) ∙ h same
    | inr other ↦ ap is_ready (get-put_other id j e m other) ∙ k
  ]

  pub Stacked-put :
      (id : String) (e : Entry W) (m : Dict (Entry W)) (stack : List String)
      → (any (str_eq id) stack ≡ true → ready e ≡ true)
      → Stacked m stack
      → Stacked (put id e m) stack
  Stacked-put id e m [] h s = tt
  Stacked-put id e m (j ∷ rest) h s = (
    ready_at-put id j e m (λ same. h (rw same refl)) s.0,
    s.1,
    Stacked-put id e m rest (λ k. h (ground arith)) s.2,
  )
