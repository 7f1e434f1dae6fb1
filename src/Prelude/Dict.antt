-- ===== src/Prelude/Dict.antt =====
-- Python's `dict` with string keys: entries in insertion order, a write to a present key in place.
use trading_control.Prelude.Tests.{if◌then◌else◌, Bool-cases}
use Prim.Native.String.{String}
use mathlib.Core.Path.{◌≡◌, refl, ◌∙◌, subst}
use mathlib.Core.Logic.{inl, inr}
use mathlib.Core.Bool.{true, false}
use mathlib.Core.Option.{Option, none, some}
use mathlib.Core.List.{List, [], ◌∷◌}
use native.Mathlib.Omega.{arith}
use text.Mathlib.Text.{◌==◌}
use text.Mathlib.TextEquality.{eq_iff}

abbrev pub Dict {ℓ} : Type ℓ → Type ℓ
Dict V = List (String × V)

module _ {ℓ} {V : Type ℓ} where
  -- `d.get(k)`
  unfoldable pub get : String → Dict V → Option V
  get k [] = none
  get k ((j, v) ∷ m) = if j == k then some v else get k m

  -- `d[k] = v`
  unfoldable pub put : String → V → Dict V → Dict V
  put k v [] = (k, v) ∷ []
  put k v ((j, w) ∷ m) = if j == k then (k, v) ∷ m else (j, w) ∷ put k v m

  -- `d.get(k, default)`
  unfoldable pub get_or : String → V → Dict V → V
  get_or k v m = elim (get k m) [ none ↦ v | some w ↦ w ]

  pub get-put :
      (k j : String) (v : V) (m : Dict V) → get j (put k v m) ≡ (if k == j then some v else get j m)
  unfolding get put
  get-put k j v [] = refl
  get-put k j v ((i, w) ∷ m) = ground (arith, eq_iff k j, eq_iff i k, eq_iff i j, get-put k j v m)

  pub get-put_same :
      (k j : String) (v : V) (m : Dict V) → (k == j) ≡ true → get j (put k v m) ≡ some v
  get-put_same k j v m e = get-put k j v m ∙ rw e refl

  pub get-put_other :
      (k j : String) (v : V) (m : Dict V) → (k == j) ≡ false → get j (put k v m) ≡ get j m
  get-put_other k j v m e = get-put k j v m ∙ rw e refl

  pub get_or-put :
      (k j : String) (d v : V) (m : Dict V)
      → get_or j d (put k v m) ≡ (if k == j then v else get_or j d m)
  unfolding get_or
  get_or-put k j d v m = elim (Bool-cases (k == j)) [
    | inl e ↦ rw (get-put k j v m, e, get_or) refl
    | inr e ↦ rw (get-put k j v m, e, get_or) refl
  ]

  -- No key stands twice.
  abbrev pub Unique : Dict V → Type ℓ
  Unique [] = Unit
  Unique ((k, v) ∷ m) = (get k m ≡ none) × Unique m

  pub put-Unique : (k : String) (v : V) (m : Dict V) → Unique m → Unique (put k v m)
  unfolding get put
  put-Unique k v [] u = (refl, tt)
  put-Unique k v ((j, w) ∷ m) u = elim (Bool-cases (j == k)) [
    | inl e ↦ rw e (subst (λ i. get i m ≡ none) ((eq_iff j k).0 e) u.0, u.1)
    | inr e ↦
        rw e (
          get-put_other k j v m (ground (arith, eq_iff j k, eq_iff k j)) ∙ u.0,
          put-Unique k v m u.1,
        )
  ]
