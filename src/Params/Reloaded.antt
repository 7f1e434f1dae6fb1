-- ===== src/Params/Reloaded.antt =====
-- An override that is applied is what is loaded afterwards, and nothing else changes.
use trading_control.Json.Members.{member-with_member}
use trading_control.Params.Stable.{coerce-Stable}
use text.Mathlib.TextPositions.{eq_refl}
use trading_control.Prelude.{
  ◌≡◌, refl, sym, ap, ◌∙◌, subst, String, [], Option, some, none, Bool-cases, inl, inr, str_eq,
  arith, if◌then◌else◌, eq_iff, ◌≢◌,
}
use trading_control.Prelude.Dict.{Dict, get, put, get-put_same, get-put_other}
use trading_control.Float.{Float, IsOrdered, IsTruncating}
use trading_control.Json.{Json, obj, Fields, end, field, member, with_member, to_float}
use trading_control.Params.{
  Check, fine, raises, coerced, check_value, validate_param_change, sanitize, load_overrides,
  applied, apply_param_override, write, equals, kept_back, overflow, Refusal,
}
use trading_control.Params.Bounded.{
  Check-cases, none-ne-some, fine-check_value, fine-validate_param_change, coerced-eq, validate-eq,
}
use trading_control.Prelude.Options.{some-inj}

kept-ne-applied : {W : Type 0} {r : Refusal} {fs : Fields W} → kept_back r ≢ applied fs
kept-ne-applied h = cc

overflow-ne-applied : {W : Type 0} {fs : Fields W} → overflow ≢ applied fs
overflow-ne-applied h = cc

applied-inj : {W : Type 0} {fs gs : Fields W} → applied fs ≡ applied gs → fs ≡ gs
applied-inj h = cc

module _ {W : Type 0} ⦃f : Float W⦄ (laws : IsOrdered W) (whole : IsTruncating W) where
  -- Keys of an object of JSON, as `json.loads` reads it, do not repeat.
  abbrev pub UniqueKeys : Fields W → Type 0
  UniqueKeys end = Unit {0}
  UniqueKeys (field k v fs) = (member k fs ≡ none) × UniqueKeys fs

  -- What becomes of an entry, if any, where another value stands otherwise.
  chosen_by : Check → String → Json W → Option (Json W) → Option (Json W)
  chosen_by fine k v other = some (coerced k v)
  chosen_by _ k v other = other

  chosen : String → Option (Json W) → Option (Json W) → Option (Json W)
  unfolding chosen_by
  chosen k none other = other
  chosen k (some v) other = chosen_by (validate_param_change k v) k v other

  sanitize-get :
      (clean : Dict (Json W)) (fs : Fields W) (out : Dict (Json W)) (j : String)
      → UniqueKeys fs
      → sanitize clean fs ≡ some out
      → get j out ≡ chosen j (member j fs) (get j clean)
  unfolding sanitize chosen chosen_by member
  sanitize-get clean end out j u h = ap (get j) (sym (some-inj h))
  sanitize-get clean (field key value rest) out j u h =
      elim (Check-cases (validate_param_change key value)) [
        | inl v ↦
            let below = λ (i : String).
              sanitize-get (put key (coerced key value) clean) rest out i u.1
                (rw (v, sanitize) at h) in
            elim (Bool-cases (str_eq key j)) [
              | inl same ↦
                  subst (λ i. get i out ≡ chosen i (member i (field key value rest)) (get i clean))
                    ((eq_iff key j).0 same)
                    (below key
                      ∙ ap (λ o. chosen key o (get key (put key (coerced key value) clean))) u.0
                      ∙ get-put_same key key (coerced key value) clean (eq_refl key)
                      ∙ rw (eq_refl key, v) refl)
              | inr other ↦ rw other (
                  below j
                  ∙ ap (chosen j (member j rest))
                      (get-put_other key j (coerced key value) clean other))
            ]
        | inr (inl (r, v)) ↦
            let below = λ (i : String). sanitize-get clean rest out i u.1 (rw (v, sanitize) at h) in
            elim (Bool-cases (str_eq key j)) [
              | inl same ↦
                  subst (λ i. get i out ≡ chosen i (member i (field key value rest)) (get i clean))
                    ((eq_iff key j).0 same)
                    (below key
                      ∙ ap (λ o. chosen key o (get key clean)) u.0
                      ∙ rw (eq_refl key, v) refl)
              | inr other ↦ rw other (below j)
            ]
        | inr (inr v) ↦ absurd (none-ne-some (rw (v, sanitize) at h))
      ]

  -- No entry raises.
  AllCalm : Fields W → Type 0
  AllCalm end = Unit {0}
  AllCalm (field k v fs) = (validate_param_change k v ≢ raises) × AllCalm fs

  sanitize-AllCalm :
      (clean : Dict (Json W)) (fs : Fields W) (out : Dict (Json W))
      → sanitize clean fs ≡ some out
      → AllCalm fs
  unfolding sanitize AllCalm
  sanitize-AllCalm clean end out h = tt
  sanitize-AllCalm clean (field k v fs) out h = elim (Check-cases (validate_param_change k v)) [
    | inl e ↦
        ((λ r. cc), sanitize-AllCalm (put k (coerced k v) clean) fs out (rw (e, sanitize) at h))
    | inr (inl (r, e)) ↦ ((λ r'. cc), sanitize-AllCalm clean fs out (rw (e, sanitize) at h))
    | inr (inr e) ↦ absurd (none-ne-some (rw (e, sanitize) at h))
  ]

  AllCalm-sanitize :
      (clean : Dict (Json W)) (fs : Fields W)
      → AllCalm fs
      → (out : Dict (Json W)) × (sanitize clean fs ≡ some out)
  unfolding sanitize AllCalm
  AllCalm-sanitize clean end c = (clean, refl)
  AllCalm-sanitize clean (field k v fs) c = elim (Check-cases (validate_param_change k v)) [
    | inl e ↦
        let (out, h) = AllCalm-sanitize (put k (coerced k v) clean) fs c.1 in
        (out, rw (e, sanitize) h)
    | inr (inl (r, e)) ↦ let (out, h) = AllCalm-sanitize clean fs c.1 in (out, rw (e, sanitize) h)
    | inr (inr e) ↦ absurd (c.0 e)
  ]

  with_member-AllCalm :
      (k : String) (v : Json W) (fs : Fields W)
      → validate_param_change k v ≢ raises
      → AllCalm fs
      → AllCalm (with_member k v fs)
  unfolding with_member AllCalm
  with_member-AllCalm k v end n c = (n, tt)
  with_member-AllCalm k v (field j w fs) n c = elim (Bool-cases (str_eq j k)) [
    | inl same ↦ rw same (n, c.1)
    | inr other ↦ rw other (c.0, with_member-AllCalm k v fs n c.1)
  ]

  with_member-UniqueKeys :
      (k : String) (v : Json W) (fs : Fields W) → UniqueKeys fs → UniqueKeys (with_member k v fs)
  unfolding with_member member
  with_member-UniqueKeys k v end u = (refl, tt)
  with_member-UniqueKeys k v (field j w fs) u = elim (Bool-cases (str_eq j k)) [
    | inl same ↦ rw same (subst (λ i. member i fs ≡ none) ((eq_iff j k).0 same) u.0, u.1)
    | inr other ↦ rw other (
      member-with_member k j v fs ∙ ground (arith, u.0, other, eq_iff j k, eq_iff k j),
      with_member-UniqueKeys k v fs u.1,
    )
  ]

  -- The coerced value of a change that validates, validates, and is coerced to itself.
  coerced-fine :
      (k : String) (v : Json W)
      → validate_param_change k v ≡ fine
      → (validate_param_change k (coerced k v) ≡ fine) × (coerced k (coerced k v) ≡ coerced k v)
  coerced-fine k v h =
      let (bounds, g, c, n) = fine-validate_param_change k v h in
      let (x, t, i) = fine-check_value bounds v c in
      let e = coerced-eq k v bounds x g t in
      let (again, (y, t', e')) = coerce-Stable laws whole bounds x i in
      let again' = subst (λ w. check_value bounds w ≡ fine) (sym e) again in
      let t'' = subst (λ w. to_float w ≡ some y) (sym e) t' in
      (
        validate-eq k (coerced k v) bounds n g ∙ again',
        coerced-eq k (coerced k v) bounds y g t'' ∙ e' ∙ sym e,
      )

  write-applied :
      (fs new : Fields W) (k : String) (v : Json W)
      → write fs k v ≡ applied new
      → with_member k v fs ≡ new
  unfolding write
  write-applied fs new k v h = elim (Bool-cases (equals (member k fs) v)) [
    | inl same ↦ absurd (kept-ne-applied (rw same at h))
    | inr other ↦ applied-inj (rw other at h)
  ]

  apply-applied :
      (fs new : Fields W) (k : String) (v : Json W)
      → apply_param_override (some (some (obj fs))) k v ≡ applied new
      → (validate_param_change k v ≡ fine) × (with_member k (coerced k v) fs ≡ new)
  unfolding apply_param_override
  apply-applied fs new k v h = elim (Check-cases (validate_param_change k v)) [
    | inl e ↦ (e, write-applied fs new k (coerced k v) (rw (e, apply_param_override) at h))
    | inr (inl (r, e)) ↦ absurd (kept-ne-applied (rw (e, apply_param_override) at h))
    | inr (inr e) ↦ absurd (overflow-ne-applied (rw (e, apply_param_override) at h))
  ]

  chosen-put :
      (k j : String) (c : Json W) (o old : Option (Json W))
      → validate_param_change k c ≡ fine
      → coerced k c ≡ c
      → old ≡ chosen j o (get j [])
      → chosen j (if str_eq k j then some c else o) (get j [])
        ≡ (if str_eq k j then some c else old)
  unfolding chosen chosen_by
  chosen-put k j c o old again same e = elim (Bool-cases (str_eq k j)) [
    | inl eq ↦ rw eq (
        subst (λ i. chosen i (some c) (get i []) ≡ some c) ((eq_iff k j).0 eq)
          (rw (again, same) refl))
    | inr other ↦ rw other (sym e)
  ]

  -- If a change is applied to a document that loads, and whose keys do not repeat, the new document
  -- loads too: the parameter has the value that was applied, coerced, and every other override is as
  -- it was. This rests on the laws of floats.
  pub load_overrides-apply_param_override :
      (fs new : Fields W) (k : String) (v : Json W) (old : Dict (Json W))
      → UniqueKeys fs
      → load_overrides (some (obj fs)) ≡ some old
      → apply_param_override (some (some (obj fs))) k v ≡ applied new
      → (loaded : Dict (Json W)) × (load_overrides (some (obj new)) ≡ some loaded)
        × ((j : String) → get j loaded ≡ (if str_eq k j then some (coerced k v) else get j old))
  unfolding load_overrides
  load_overrides-apply_param_override fs new k v old u h a =
      let (fine', e) = apply-applied fs new k v a in
      let (again, same) = coerced-fine k v fine' in
      let c = coerced k v in
      let calm = with_member-AllCalm k c fs (λ r. cc) (sanitize-AllCalm [] fs old h) in
      let (loaded, done) = AllCalm-sanitize [] (with_member k c fs) calm in
      let unique = with_member-UniqueKeys k c fs u in
      (
        loaded,
        subst (λ x. load_overrides (some (obj x)) ≡ some loaded) e done,
        λ j.
            sanitize-get [] (with_member k c fs) loaded j unique done
            ∙ ap (λ o. chosen j o (get j [])) (member-with_member k j c fs)
            ∙ chosen-put k j c (member j fs) (get j old) again same (sanitize-get [] fs old j u h),
      )
