-- ===== src/Drift/Series.antt =====
-- The series of a metric is bounded.
use mathlib.Core.List.{append-nil, append_assoc}
use trading_control.Prelude.{
  ℕ, suc, ◌+◌, ◌-◌, ◌*◌, ◌≤◌, ◌<◌, ◌≡◌, refl, sym, ap, ◌∙◌, Bool, true, false, Option, some, List,
  [], ◌∷◌, ◌++◌, String, str_eq, eq_iff, arith, length, drop, drop-append, drop-nil, drop-suc,
  length-drop, length-snoc, ltb, Bool-cases, Option-cases, inl, inr,
}
use trading_control.Prelude.Dict.{get, put, get-put}
use trading_control.Drift.{Spec, Metric, DriftMonitor, register, push, observe}

-- The last `n` of a list.
abbrev pub last_of {ℓ} : {A : Type ℓ} → ℕ → List A → List A
last_of n xs = drop (length xs - n) xs

push-last_of :
    {W : Type 0} (n : ℕ) (xs : List W) (x : W)
    → push n (last_of n xs) x ≡ last_of n (xs ++ (x ∷ []))
unfolding push
push-last_of n xs x =
    let k = length xs - n in
    let grown : drop k xs ++ (x ∷ []) ≡ drop k (xs ++ (x ∷ [])) =
      sym (drop-append k xs (x ∷ []) (omega arith)) in
    let size : length (drop k xs ++ (x ∷ [])) ≡ length xs - k + 1 =
      length-snoc (drop k xs) x ∙ ap (λ m. m + 1) (length-drop k xs) in
    let total : length (xs ++ (x ∷ [])) ≡ length xs + 1 = length-snoc xs x in
    elim (Bool-cases (ltb n (length (drop k xs ++ (x ∷ []))))) [
      | inl full ↦
          let many : n < length (drop k xs ++ (x ∷ [])) = ground arith in
          let next : suc k ≡ length (xs ++ (x ∷ [])) - n = omega (arith, size, total, many) in
          rw full (
            ap (drop 1) grown
            ∙ (sym (drop-suc k (xs ++ (x ∷ []))) ∙ ap (λ j. drop j (xs ++ (x ∷ []))) next))
      | inr room ↦
          let few : length (drop k xs ++ (x ∷ [])) ≤ n = ground arith in
          let next : k ≡ length (xs ++ (x ∷ [])) - n = omega (arith, size, total, few) in
          rw room (grown ∙ ap (λ j. drop j (xs ++ (x ∷ []))) next)
    ]

same_key : (k : String) → str_eq k k ≡ true
same_key k = ground (arith, eq_iff k k)

module _ {W : Type 0} where
  pub observe_all : DriftMonitor W → String → List W → DriftMonitor W
  observe_all m metric [] = m
  observe_all m metric (v ∷ vs) = observe_all (observe m metric v) metric vs

  -- The monitor with one more sample of a metric that it knows.
  abbrev pub pushed : DriftMonitor W → String → Metric W → W → DriftMonitor W
  pushed m metric entry v = record m {
    metrics = put metric (record entry { series = push (m.window * 2) entry.series v }) m.metrics;
  }

  observe-known :
      (m : DriftMonitor W) (metric : String) (v : W) (entry : Metric W)
      → get metric m.metrics ≡ some entry
      → observe m metric v ≡ pushed m metric entry v
  unfolding observe
  observe-known m metric v entry h = rw (h, observe) refl

  get-pushed :
      (m : DriftMonitor W) (metric : String) (v : W) (entry : Metric W)
      → get metric (pushed m metric entry v).metrics
        ≡ some (record entry { series = push (m.window * 2) entry.series v })
  get-pushed m metric v entry = get-put metric metric _ m.metrics ∙ rw (same_key metric) refl

  get-observe_all :
      (m : DriftMonitor W) (metric : String) (entry : Metric W) (xs vs : List W)
      → get metric m.metrics ≡ some (record entry { series = last_of (m.window * 2) xs })
      → get metric (observe_all m metric vs).metrics
        ≡ some (record entry { series = last_of (m.window * 2) (xs ++ vs) })
  unfolding observe_all
  get-observe_all m metric entry xs [] h =
      h
      ∙ ap (λ ys. some (record entry { series = last_of (m.window * 2) ys })) (sym (append-nil xs))
  get-observe_all m metric entry xs (v ∷ vs) h =
      let held = record entry { series = last_of (m.window * 2) xs } in
      let series_ : List W → Option (Metric W) = λ ys. some (record entry { series = ys }) in
      let grown = get-pushed m metric v held ∙ ap series_ (push-last_of (m.window * 2) xs v) in
      ap (λ d. get metric (observe_all d metric vs).metrics) (observe-known m metric v held h)
      ∙ (get-observe_all (pushed m metric held v) metric entry (xs ++ (v ∷ [])) vs grown
          ∙ ap (λ ys. series_ (last_of (m.window * 2) ys)) (append_assoc xs (v ∷ []) vs))

  get-observe_other :
      (m : DriftMonitor W) (metric other : String) (v : W)
      → str_eq metric other ≡ false
      → get other (observe m metric v).metrics ≡ get other m.metrics
  get-observe_other m metric other v d = elim (Option-cases (get metric m.metrics)) [
    | inl e ↦ unfold observe in (rw (e, observe) refl)
    | inr (entry, e) ↦
        ap (λ n. get other n.metrics) (observe-known m metric v entry e)
        ∙ (get-put metric other _ m.metrics ∙ rw d refl)
  ]

  get-other :
      (m : DriftMonitor W) (metric other : String) (vs : List W)
      → str_eq metric other ≡ false
      → get other (observe_all m metric vs).metrics ≡ get other m.metrics
  unfolding observe_all
  get-other m metric other [] d = refl
  get-other m metric other (v ∷ vs) d =
      get-other (observe m metric v) metric other vs d ∙ get-observe_other m metric other v d

  -- A metric that has been registered holds its specification and the last samples observed of it,
  -- at most twice the window, and the samples of one metric leave every other one as it was.
  pub get-observe_all-register :
      (m : DriftMonitor W) (metric other : String) (better : Bool) (threshold : W) (vs : List W)
      → str_eq metric other ≡ false
      → let after = observe_all (register m metric better threshold) metric vs in
        (get metric after.metrics
          ≡ some (record {
            spec = record { higher_is_better = better; threshold = threshold };
            series = last_of (m.window * 2) vs;
          }))
        × (get other after.metrics ≡ get other m.metrics)
  unfolding register
  get-observe_all-register m metric other better threshold vs d =
      let spec : Spec W = record { higher_is_better = better; threshold = threshold } in
      let entry : Metric W = record { spec = spec; series = [] } in
      let m' = record m { metrics = put metric entry m.metrics } in
      (
        get-observe_all m' metric entry [] vs (
            get-put metric metric entry m.metrics
            ∙ rw (same_key metric)
                (ap (λ (ys : List W). some (record entry { series = ys })) (sym (drop-nil _)))),
        get-other m' metric other vs d ∙ (get-put metric other entry m.metrics ∙ rw d refl),
      )
