-- ===== src/Loop/Step/Traces.antt =====
-- The trace ids that `step` makes up.
use Prim.Native.String.{◌++◌ as str_append}
use trading_control.Prelude.{
  ℕ, ◌+◌, ◌≡◌, refl, sym, ap, ◌∙◌, true, none, some, List, [], ◌∷◌, ◌++◌, arith, length,
  length-snoc, length-drop,
}
use trading_control.Float.{Float}
use trading_control.Events.{EventStream, Draft, numbered, emit, emit_all, over_cap}
use trading_control.Agents.{MarketView}
use trading_control.Loop.{Loop}
use trading_control.Loop.Step.{Position, text_of, trace_of, step}

module _ {ℓ} {P : Type ℓ} where
  IsFull : EventStream P → ℕ → Type 0
  IsFull s cap = (s.max_events ≡ some cap) × (length s.events ≡ cap)

  IsFull-emit : (s : EventStream P) (d : Draft P) (cap : ℕ) → IsFull s cap → IsFull (emit s d).0 cap
  unfolding emit IsFull
  IsFull-emit s d cap (c, n) =
      let grown = s.events ++ (numbered s.emitted d ∷ []) in
      let size : length grown ≡ cap + 1 =
        length-snoc s.events (numbered s.emitted d) ∙ ap (λ k. k + 1) n in
      let full : over_cap s.max_events (length grown) ≡ true = rw (c, size) (ground arith) in
      (c, rw full (omega (arith, length-drop 1 grown, size)))

  IsFull-emit_all :
      (s : EventStream P) (ds : List (Draft P)) (cap : ℕ)
      → IsFull s cap
      → IsFull (emit_all s ds) cap
  unfolding emit_all
  IsFull-emit_all s [] cap h = h
  IsFull-emit_all s (d ∷ ds) cap h = IsFull-emit_all (emit s d).0 ds cap (IsFull-emit s d cap h)

module _ {W : Type 0} ⦃f : Float W⦄ where
  IsFull-step :
      (l : Loop W) (m : MarketView W) (p : Position W) (cap : ℕ)
      → IsFull l.stream cap
      → IsFull (step l m p).0.stream cap
  unfolding step
  IsFull-step l m p cap h = IsFull-emit_all _ _ cap (IsFull-emit_all _ _ cap h)

  trace_id-trace_of :
      (l : Loop W) (m : MarketView W) (p : Position W)
      → (step l m p).1.trace_id ≡ trace_of l p.trace_id
  unfolding step
  trace_id-trace_of l m p = refl

  trace_of-length :
      (l l' : Loop W)
      → length l'.stream.events ≡ length l.stream.events
      → trace_of l' none ≡ trace_of l none
  unfolding trace_of
  trace_of-length l l' h = ap (λ k. str_append "trace-" (text_of k)) h

  -- Two steps in a row that are given no trace id get the same one, once the stream holds as many
  -- events as its cap allows.
  pub trace_id-step :
      (l : Loop W) (m n : MarketView W) (p q : Position W) (cap : ℕ)
      → l.stream.max_events ≡ some cap
      → length l.stream.events ≡ cap
      → p.trace_id ≡ none
      → q.trace_id ≡ none
      → (step (step l m p).0 n q).1.trace_id ≡ (step l m p).1.trace_id
  unfolding IsFull
  trace_id-step l m n p q cap c h np nq =
      let opened = (step l m p).0 in
      let full = (IsFull-step l m p cap (c, h)).1 in
      trace_id-trace_of opened n q
      ∙ (ap (trace_of opened) nq
          ∙ (trace_of-length l opened (full ∙ sym h)
              ∙ (sym (ap (trace_of l) np) ∙ sym (trace_id-trace_of l m p))))
