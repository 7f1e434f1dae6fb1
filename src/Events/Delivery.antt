-- ===== src/Events/Delivery.antt =====
-- What the subscribers of the stream are called with.
use mathlib.Core.List.{append-nil, append_assoc}
use trading_control.Prelude.{
  ℕ, ◌+◌, ◌≡◌, refl, sym, ap, List, [], ◌∷◌, ◌++◌, arith, map, ◌==◌, if◌then◌else◌, Bool-cases, inl,
  inr,
}
use trading_control.Events.{Event, EventStream, Draft, numbered, emit, emit_all}

-- How often the subscriber is registered.
abbrev pub registrations : ℕ → List ℕ → ℕ
registrations i [] = 0
registrations i (j ∷ js) = (if j == i then 1 else 0) + registrations i js

module _ {ℓ} {P : Type ℓ} where
  -- What the subscriber `i` was called with.
  pub received : ℕ → List (ℕ × Event P) → List (Event P)
  received i [] = []
  received i ((j, e) ∷ ds) = if j == i then e ∷ received i ds else received i ds

  -- The events that drafts become, numbered from `n`.
  pub issued : ℕ → List (Draft P) → List (Event P)
  issued n [] = []
  issued n (d ∷ ds) = numbered n d ∷ issued (n + 1) ds

  received-append :
      (i : ℕ) (xs ys : List (ℕ × Event P)) → received i (xs ++ ys) ≡ received i xs ++ received i ys
  unfolding received
  received-append i [] ys = refl
  received-append i ((j, e) ∷ xs) ys = elim (Bool-cases (j == i)) [
    | inl h ↦ rw h (ap (◌∷◌ e) (received-append i xs ys))
    | inr h ↦ rw h (received-append i xs ys)
  ]

  received-none :
      (i : ℕ) (e : Event P) (subs : List ℕ)
      → registrations i subs ≡ 0
      → received i (map (λ j. (j, e)) subs) ≡ []
  unfolding received
  received-none i e [] h = refl
  received-none i e (j ∷ subs) h = ground (arith, received-none i e subs)

  received-once :
      (i : ℕ) (e : Event P) (subs : List ℕ)
      → registrations i subs ≡ 1
      → received i (map (λ j. (j, e)) subs) ≡ e ∷ []
  unfolding received
  received-once i e [] h = absurd (omega arith)
  received-once i e (j ∷ subs) h = ground (arith, received-once i e subs, received-none i e subs)

  -- A subscriber that is registered once is called with every later event, once and in order,
  -- those included that the cap has dropped from the stream since.
  pub received-emit_all :
      (i : ℕ) (s : EventStream P) (ds : List (Draft P))
      → registrations i s.subscribers ≡ 1
      → received i (emit_all s ds).delivered ≡ received i s.delivered ++ issued s.emitted ds
  unfolding emit_all emit issued
  received-emit_all i s [] h = sym (append-nil (received i s.delivered))
  received-emit_all i s (d ∷ ds) h =
      let e = numbered s.emitted d in
      rw
        (
          received-emit_all i (emit s d).0 ds h,
          received-append i s.delivered (map (λ j. (j, e)) s.subscribers),
          received-once i e s.subscribers h,
          append_assoc,
        )
        refl
