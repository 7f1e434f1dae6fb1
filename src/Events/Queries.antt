-- ===== src/Events/Queries.antt =====
-- `events` and `latest`.
pub use Prim.Native.Nat.{min}
use trading_control.Prelude.{
  ℕ, zero, suc, ◌-◌, ◌≡◌, refl, Bool, Option, none, some, List, [], ◌∷◌, ◌++◌, arith, length, drop,
  take, keep, find_last, length-drop, ◌==◌, if◌then◌else◌, Bool-cases, inl, inr,
}
use trading_control.Prelude.Int.{pos}
use trading_control.Events.{EventType, Event, EventStream, of_kind, last_slice, select, latest}

module _ {ℓ} {A : Type ℓ} where
  abbrev pub last? : List A → Option A
  last? [] = none
  last? (x ∷ xs) = elim (last? xs) [ none ↦ some x | some y ↦ some y ]

  find_last-eq-last?-keep :
      (test : A → Bool) (xs : List A) → find_last test xs ≡ last? (keep test xs)
  find_last-eq-last?-keep test [] = refl
  find_last-eq-last?-keep test (x ∷ xs) = ground (arith, find_last-eq-last?-keep test xs)

  pub take-append-drop : (n : ℕ) (xs : List A) → take n xs ++ drop n xs ≡ xs
  take-append-drop zero xs = refl
  take-append-drop (suc n) [] = refl
  take-append-drop (suc n) (x ∷ xs) = rw (take-append-drop n xs)

module _ {ℓ} {P : Type ℓ} where
  -- `latest` is the last event that `events` lists of the kind, and none where it lists none.
  pub latest-eq-last?-select :
      (s : EventStream P) (k : EventType) → latest s k ≡ last? (select s (some k) none)
  unfolding latest select
  latest-eq-last?-select s k = find_last-eq-last?-keep (of_kind k) s.events

  abbrev IsFinalPart : ℕ → List (Event P) → List (Event P) → Type ℓ
  IsFinalPart n all part =
      (take (length all - length part) all ++ part ≡ all)
      × (length part ≡ (if n == 0 then length all else min n (length all)))

  last_slice-IsFinalPart : (n : ℕ) (all : List (Event P)) → IsFinalPart n all (last_slice n all)
  unfolding last_slice
  last_slice-IsFinalPart n all =
      let size = length-drop (length all - n) all in
      elim (Bool-cases (n == 0)) [
        | inl h ↦
            let all_of_it : length all - length all ≡ 0 = omega arith in
            rw h (rw all_of_it refl, refl)
        | inr h ↦
            let cut : length all - length (drop (length all - n) all) ≡ length all - n =
              omega (arith, size) in
            rw h (rw cut (take-append-drop (length all - n) all), ground (arith, size))
      ]

  -- A limit keeps a final part of the events of the kind. From 1 on the part has as many events as
  -- the limit allows, and for the limit 0 it has them all.
  pub select-limit :
      (s : EventStream P) (kind : Option EventType) (n : ℕ)
      → let all = select s kind none in
        let part = select s kind (some (pos n)) in
        (take (length all - length part) all ++ part ≡ all)
        × (length part ≡ (if n == 0 then length all else min n (length all)))
  unfolding select
  select-limit s kind n = last_slice-IsFinalPart n (select s kind none)
