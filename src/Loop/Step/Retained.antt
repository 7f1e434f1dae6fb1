-- ===== src/Loop/Step/Retained.antt =====
-- The decision of a step is found again in the stream.
use mathlib.Core.List.{append-nil, append_assoc}
use mathlib.Core.Bool.{false≢true}
use trading_control.Prelude.{
  ℕ, ◌+◌, ◌≡◌, refl, sym, ap, ◌∙◌, Bool, true, false, Option, none, some, List, [], ◌∷◌, ◌++◌,
  String, str_eq, eq_iff, arith, length, length-snoc, drop, find_last, Bool-cases, inl, inr,
}
use trading_control.Float.{Float}
use trading_control.Events.{Event, EventStream, Draft, numbered, over_cap, emit, emit_all, of_kind}
use trading_control.Events
use trading_control.Agents.{MarketView}
use trading_control.Loop.{Loop, decided, gated, executed}
use trading_control.Loop.Step.{
  Position, traced, decides, payload_of, decision_for, perceive, step, trace_of,
}

over_cap-less : (cap : Option ℕ) (m n : ℕ) → over_cap cap (m + n) ≡ false → over_cap cap m ≡ false
over_cap-less none m n h = refl
over_cap-less (some c) m n h = ground arith

module _ {ℓ} {P : Type ℓ} where
  max_events-emit_all :
      (s : EventStream P) (ds : List (Draft P)) → (emit_all s ds).max_events ≡ s.max_events
  unfolding emit_all emit
  max_events-emit_all s [] = refl
  max_events-emit_all s (d ∷ ds) = max_events-emit_all (emit s d).0 ds

  drop-tail :
      (cap : Option ℕ) (es ws tail : List (Event P)) (e : Event P)
      → es ≡ ws ++ tail
      → over_cap cap (length tail + 1) ≡ false
      → over_cap cap (length (es ++ (e ∷ []))) ≡ true
      → (vs : List (Event P)) × (drop 1 (es ++ (e ∷ [])) ≡ vs ++ (tail ++ (e ∷ [])))
  drop-tail cap es [] tail e h room full =
      let size = length-snoc es e ∙ ap (λ xs. length xs + 1) h in
      absurd (false≢true (sym room ∙ (ap (over_cap cap) (sym size) ∙ full)))
  drop-tail cap es (w ∷ ws) tail e h room full =
      (ws, ap (λ xs. drop 1 (xs ++ (e ∷ []))) h ∙ append_assoc ws tail (e ∷ []))

  -- An emit keeps the events at the end, if the cap leaves room for them and the new one.
  emit-tail :
      (s : EventStream P) (d : Draft P) (ws tail : List (Event P))
      → s.events ≡ ws ++ tail
      → over_cap s.max_events (length tail + 1) ≡ false
      → (vs : List (Event P)) × ((emit s d).0.events ≡ vs ++ (tail ++ (numbered s.emitted d ∷ [])))
  unfolding emit
  emit-tail s d ws tail h room =
      elim (Bool-cases (over_cap s.max_events (length (s.events ++ (numbered s.emitted d ∷ []))))) [
        | inr fits ↦
            (ws, rw fits (ap (λ es. es ++ (numbered s.emitted d ∷ [])) h ∙ append_assoc ws tail _))
        | inl full ↦
            let (vs, e) =
              drop-tail s.max_events s.events ws tail (numbered s.emitted d) h room full in
            (vs, rw full e)
      ]

  find_last-tail :
      (test : Event P → Bool) (ws tail : List (Event P)) (e : Event P)
      → find_last test tail ≡ some e
      → find_last test (ws ++ tail) ≡ some e
  find_last-tail test [] tail e h = h
  find_last-tail test (w ∷ ws) tail e h = rw (find_last-tail test ws tail e h) refl

  find_last-first :
      (test : Event P → Bool) (a b c : Event P)
      → test a ≡ true
      → test b ≡ false
      → test c ≡ false
      → find_last test (a ∷ b ∷ c ∷ []) ≡ some a
  find_last-first test a b c ha hb hc = ground arith

  -- Three events in a row are at the end of the stream, if the cap is at least three.
  emit_all-three :
      (s : EventStream P) (a b c : Draft P)
      → over_cap s.max_events 3 ≡ false
      → (vs : List (Event P)) × ((emit_all s (a ∷ b ∷ c ∷ [])).events
          ≡ vs
            ++ (numbered s.emitted a
                ∷ numbered (s.emitted + 1) b
                ∷ numbered (s.emitted + 1 + 1) c
                ∷ []))
  unfolding emit_all emit
  emit_all-three s a b c room =
      let one = over_cap-less s.max_events 1 2 room in
      let two = over_cap-less s.max_events 2 1 room in
      let s1 = (emit s a).0 in
      let s2 = (emit s1 b).0 in
      let (v1, e1) = emit-tail s a s.events [] (sym (append-nil s.events)) one in
      let (v2, e2) = emit-tail s1 b v1 (numbered s.emitted a ∷ []) e1 two in
      emit-tail s2 c v2 (numbered s.emitted a ∷ numbered s1.emitted b ∷ []) e2 room

same_key : (k : String) → str_eq k k ≡ true
same_key k = ground (arith, eq_iff k k)

module _ {W : Type 0} ⦃f : Float W⦄ where
  -- The decision of a step is the one found under its trace id, if the stream keeps at least three
  -- events.
  pub decision_for-step :
      (l : Loop W) (m : MarketView W) (p : Position W)
      → over_cap l.stream.max_events 3 ≡ false
      → decision_for (step l m p).0.stream (step l m p).1.trace_id
        ≡ some (decided (step l m p).1.decision l.config.version l.config_proposal_id)
  unfolding step decision_for
  decision_for-step l m p room =
      let trace = trace_of l p.trace_id in
      let s = emit_all l.stream (perceive m trace).0 in
      let r = (step l m p).1 in
      let a =
        traced Events.decision (decided r.decision l.config.version l.config_proposal_id) trace
          "decision_engine" m.ts in
      let b = traced Events.risk_gate (gated r.gate) trace "risk_engine" m.ts in
      let c =
        traced Events.execution (executed r.execution l.config.version l.config_proposal_id) trace
          "execution_engine" m.ts in
      let room' =
        ap (λ cap. over_cap cap 3) (max_events-emit_all l.stream (perceive m trace).0) ∙ room in
      let (vs, e) = emit_all-three s a b c room' in
      let x = numbered s.emitted a in
      let y = numbered (s.emitted + 1) b in
      let z = numbered (s.emitted + 1 + 1) c in
      let found = find_last-first (decides trace) x y z (same_key trace) refl refl in
      ap payload_of (
        ap (find_last (decides trace)) e
        ∙ find_last-tail (decides trace) vs (x ∷ y ∷ z ∷ []) x found)
