-- ===== src/Events/Retention.antt =====
-- What the retention cap keeps, and what the subscribers get.
use trading_control.Prelude.{
  ℕ, suc, ◌+◌, ◌-◌, ◌≤◌, ◌<◌, ◌≡◌, refl, sym, ap, ◌∙◌, subst, false, Option, none, some, List, [],
  ◌∷◌, ◌++◌, arith, length, drop, length-append, length-drop, drop-append, drop-suc, drop-nil,
  Bool-cases, ltb, inl, inr,
}
use trading_control.Events.{Event, EventStream, Draft, stream, numbered, over_cap, emit, emit_all}

-- The numbers of the events run on from `n`.
abbrev pub Numbered {ℓ} : {P : Type ℓ} → ℕ → List (Event P) → Type 0
Numbered n [] = Unit {0}
Numbered n (e ∷ es) = (e.seq ≡ n) × Numbered (n + 1) es

abbrev pub WithinCap : Option ℕ → ℕ → Type 0
WithinCap none n = Unit {0}
WithinCap (some cap) n = n ≤ cap

pub record IsValid {ℓ} {P : Type ℓ} (s : EventStream P) : Type 0 where
  pub counted : s.emitted ≡ s.dropped + length s.events
  pub numbered : Numbered s.dropped s.events
  pub within_cap : WithinCap s.max_events (length s.events)

WithinCap-room : (cap : Option ℕ) (n : ℕ) → over_cap cap n ≡ false → WithinCap cap n
WithinCap-room none n h = tt
WithinCap-room (some cap) n h = ground arith

module _ {ℓ} {P : Type ℓ} where
  Numbered-append :
      (n : ℕ) (es : List (Event P)) (e : Event P)
      → Numbered n es
      → e.seq ≡ n + length es
      → Numbered n (es ++ (e ∷ []))
  Numbered-append n [] e h k = (omega arith, tt)
  Numbered-append n (x ∷ es) e h k = (h.0, Numbered-append (n + 1) es e h.1 (omega arith))

  Numbered-drop :
      (n : ℕ) (es : List (Event P)) → Numbered n es → 0 < length es → Numbered (n + 1) (drop 1 es)
  Numbered-drop n [] h k = absurd (omega arith)
  Numbered-drop n (x ∷ es) h k = h.1

  pub emit-IsValid : (s : EventStream P) (d : Draft P) → IsValid s → IsValid (emit s d).0
  unfolding emit
  emit-IsValid s d v =
      let event = numbered s.emitted d in
      let grown = s.events ++ (event ∷ []) in
      let len = length-append s.events (event ∷ []) in
      let ok = Numbered-append s.dropped s.events event v.numbered v.counted in
      elim (Bool-cases (over_cap s.max_events (length grown))) [
        | inl full ↦ rw full (record {
          counted = omega (arith, len, length-drop 1 grown, v.counted);
          numbered = Numbered-drop s.dropped grown ok (omega (arith, len));
          within_cap =
              let same : length s.events ≡ length (drop 1 grown) =
                omega (arith, len, length-drop 1 grown) in
              subst (WithinCap s.max_events) same v.within_cap;
        })
        | inr room ↦ rw room (record {
          counted = omega (arith, len, v.counted);
          numbered = ok;
          within_cap = WithinCap-room s.max_events (length grown) room;
        })
      ]

  -- Emits keep a stream well formed: the events are numbered one after another from the count of
  -- those dropped, `emitted` counts both, and there are no more than the cap.
  pub emit_all-IsValid :
      (s : EventStream P) (ds : List (Draft P)) → IsValid s → IsValid (emit_all s ds)
  unfolding emit_all
  emit_all-IsValid s [] v = v
  emit_all-IsValid s (d ∷ ds) v = emit_all-IsValid (emit s d).0 ds (emit-IsValid s d v)

  pub stream-IsValid : (cap : Option ℕ) → IsValid (stream {P = P} cap)
  stream-IsValid none = record { counted = refl; numbered = tt; within_cap = tt }
  stream-IsValid (some cap) = record { counted = refl; numbered = tt; within_cap = omega arith }

  -- A stream with a cap beside one without that was given the same events.
  record Mirrors (cap : ℕ) (s t : EventStream P) : Type ℓ where
    capped : s.max_events ≡ some cap
    uncapped : t.max_events ≡ none
    counted : length t.events ≡ t.emitted
    together : s.emitted ≡ t.emitted
    dropped : s.dropped ≡ s.emitted - cap
    suffix : s.events ≡ drop (s.emitted - cap) t.events

  emit-Mirrors :
      (cap : ℕ) (s t : EventStream P) (d : Draft P)
      → Mirrors cap s t
      → Mirrors cap (emit s d).0 (emit t d).0
  unfolding emit
  emit-Mirrors cap s t d m =
      let e = numbered t.emitted d in
      let n = s.emitted - cap in
      let short : n ≤ length t.events = omega (arith, m.counted, m.together) in
      let grown : s.events ++ (numbered s.emitted d ∷ []) ≡ drop n (t.events ++ (e ∷ [])) =
        rw (m.suffix, drop-append n t.events (e ∷ []) short, m.together) refl in
      let size : length (s.events ++ (numbered s.emitted d ∷ [])) ≡ s.emitted - n + 1 = rw grown (
        omega (
          arith,
          length-drop n (t.events ++ (e ∷ [])),
          length-append t.events (e ∷ []),
          m.counted,
          m.together,
        )) in
      let all = t.events ++ (e ∷ []) in
      elim (Bool-cases (ltb cap (length (s.events ++ (numbered s.emitted d ∷ []))))) [
        | inl full ↦
            let next : suc n ≡ s.emitted + 1 - cap = ground (arith, size) in
            rw (m.capped, m.uncapped, full)
              (record {
                capped = refl;
                uncapped = refl;
                counted = omega (arith, length-append t.events (e ∷ []), m.counted);
                together = omega (arith, m.together);
                dropped = omega (arith, m.dropped, next);
                suffix = ap (drop 1) grown ∙ sym (drop-suc n all) ∙ ap (λ k. drop k all) next;
              })
        | inr room ↦
            let next : n ≡ s.emitted + 1 - cap = ground (arith, size) in
            rw (m.capped, m.uncapped, room)
              (record {
                capped = refl;
                uncapped = refl;
                counted = omega (arith, length-append t.events (e ∷ []), m.counted);
                together = omega (arith, m.together);
                dropped = omega (arith, m.dropped, next);
                suffix = grown ∙ ap (λ k. drop k all) next;
              })
      ]

  emit_all-Mirrors :
      (cap : ℕ) (s t : EventStream P) (ds : List (Draft P))
      → Mirrors cap s t
      → Mirrors cap (emit_all s ds) (emit_all t ds)
  unfolding emit_all
  emit_all-Mirrors cap s t [] m = m
  emit_all-Mirrors cap s t (d ∷ ds) m =
      emit_all-Mirrors cap (emit s d).0 (emit t d).0 ds (emit-Mirrors cap s t d m)

  pub emitted-emit_all :
      (s : EventStream P) (ds : List (Draft P)) → (emit_all s ds).emitted ≡ s.emitted + length ds
  unfolding emit_all emit
  emitted-emit_all s [] = omega arith
  emitted-emit_all s (d ∷ ds) = omega (arith, emitted-emit_all (emit s d).0 ds)

  -- A capped stream holds the last `cap` events of the history that a stream without a cap holds,
  -- under the same numbers, and has counted all the others as dropped.
  pub events-emit_all :
      (cap : ℕ) (ds : List (Draft P))
      → let s = emit_all (stream (some cap)) ds in
        (s.events ≡ drop (length ds - cap) (emit_all (stream none) ds).events)
        × (s.dropped ≡ length ds - cap)
        × (s.emitted ≡ length ds)
  events-emit_all cap ds =
      let s : EventStream P = stream (some cap) in
      let m = emit_all-Mirrors cap s (stream none) ds (record {
        capped = refl;
        uncapped = refl;
        counted = refl;
        together = refl;
        dropped = omega arith;
        suffix = sym (drop-nil (0 - cap));
      }) in
      let count = emitted-emit_all s ds in
      let same : (emit_all s ds).emitted - cap ≡ length ds - cap = omega (arith, count) in
      (
        m.suffix ∙ ap (λ k. drop k (emit_all (stream none) ds).events) same,
        omega (arith, m.dropped, count),
        omega (arith, count),
      )
