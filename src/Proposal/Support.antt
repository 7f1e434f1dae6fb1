-- ===== src/Proposal/Support.antt =====
-- The observation behind a weight proposal.
use mathlib.Core.Option.{some-injective}
use mathlib.Core.Bool.{false≢true}
use trading_control.Prelude.{
  zero, suc, ◌≡◌, refl, sym, ◌∙◌, subst, Bool, true, false, some, List, [], ◌∷◌, str_eq, any, keep,
  All, In, Bool-cases, Option-cases, inl, inr,
}
use trading_control.Prelude.Dict.{get}
use trading_control.Float.{Float, IsOrdered, ◌≼◌}
use trading_control.Float.Order.{round_unit}
use trading_control.Config.{CognitiveConfig, weight_keys, weight_bounds}
use trading_control.Config.Bounds.{Within}
use trading_control.Config.Loading.{list_cases, clamp_weight-Within}
use trading_control.Learning.{Edge, Observation}
use trading_control.Proposal.{
  Proposal, ProposalScorecard, weight_change, success_rate, weight_proposal, strongest,
  required_confidence, shifted, propose_for, propose,
}

In-keep-next {ℓ} :
    {A : Type ℓ} (test : A → Bool) (x y : A) (ys : List A)
    → test y ≡ true
    → (In x (keep test ys) → In x ys × (test x ≡ true))
    → In x (y ∷ keep test ys)
    → In x (y ∷ ys) × (test x ≡ true)
In-keep-next test x y ys e rest (zero, h) =
    ((zero, h), subst (λ z. test z ≡ true) (some-injective _ _ h) e)
In-keep-next test x y ys e rest (suc i, h) = let (m, t) = rest (i, h) in ((suc m.0, m.1), t)

module _ {ℓ} {A : Type ℓ} (test : A → Bool) where
  keep-true : (y : A) (ys : List A) → test y ≡ true → keep test (y ∷ ys) ≡ y ∷ keep test ys
  keep-true y ys e = rw (e, keep) refl

  keep-false : (y : A) (ys : List A) → test y ≡ false → keep test (y ∷ ys) ≡ keep test ys
  keep-false y ys e = rw (e, keep) refl

  In-keep : (x : A) (xs : List A) → In x (keep test xs) → In x xs × (test x ≡ true)
  In-keep x [] (i, h) = cc
  In-keep x (y ∷ ys) h = elim (Bool-cases (test y)) [
    | inl e ↦ In-keep-next test x y ys e (In-keep x ys) (subst (In x) (keep-true y ys e) h)
    | inr e ↦ let (m, t) = In-keep x ys (subst (In x) (keep-false y ys e) h) in ((suc m.0, m.1), t)
  ]

  All-keep : (P : A → Type 0) (xs : List A) → All P xs → All P (keep test xs)
  All-keep P [] h = tt
  All-keep P (x ∷ xs) h = elim (Bool-cases (test x)) [
    | inl e ↦ subst (All P) (sym (keep-true x xs e)) (h.0, All-keep P xs h.1)
    | inr e ↦ subst (All P) (sym (keep-false x xs e)) (All-keep P xs h.1)
  ]

  All-keep-back :
      (P : A → Type 0) (xs : List A) → All P (keep test xs) → All (λ x. test x ≡ true → P x) xs
  All-keep-back P [] h = tt
  All-keep-back P (x ∷ xs) h = elim (Bool-cases (test x)) [
    | inl e ↦ let h' = subst (All P) (keep-true x xs e) h in (λ t. h'.0, All-keep-back P xs h'.1)
    | inr e ↦ (
      λ t. absurd (false≢true (sym e ∙ t)),
      All-keep-back P xs (subst (All P) (keep-false x xs e) h),
    )
  ]

module _ {W : Type 0} ⦃f : Float W⦄ where
  In-skip :
      (o n : Observation W) (os : List (Observation W)) (best : Observation W)
      → In best (o ∷ os)
      → In best (o ∷ n ∷ os)
  In-skip o n os best (zero, h) = (zero, h)
  In-skip o n os best (suc i, h) = (suc (suc i), h)

  In-strongest : (o : Observation W) (os : List (Observation W)) → In (strongest o os) (o ∷ os)
  unfolding strongest
  In-strongest o [] = (0, refl)
  In-strongest o (n ∷ os) = elim (Bool-cases (f.lt o.confidence n.confidence)) [
    | inl e ↦ let (i, h) = In-strongest n os in rw (e, strongest) (suc i, h)
    | inr e ↦ rw (e, strongest) (In-skip o n os (strongest o os) (In-strongest o os))
  ]

  strongest-AtMost :
      IsOrdered W
      → (o : Observation W) (os : List (Observation W))
      → All (λ (n : Observation W). n.confidence ≼ n.confidence) (o ∷ os)
      → All (λ (n : Observation W). n.confidence ≼ (strongest o os).confidence) (o ∷ os)
  unfolding strongest
  strongest-AtMost laws o [] h = h
  strongest-AtMost laws o (n ∷ os) h =
      let AtMost : Observation W → Type 0 =
        λ best. All (λ (m : Observation W). m.confidence ≼ best.confidence) (o ∷ n ∷ os) in
      elim (Bool-cases (f.lt o.confidence n.confidence)) [
        | inl e ↦
            let rest = strongest-AtMost laws n os h.1 in
            let same_ : strongest o (n ∷ os) ≡ strongest n os = rw (e, strongest) refl in
            subst AtMost (sym same_) (laws.le_trans _ _ _ (laws.le_of_lt _ _ e) rest.0, rest)
        | inr e ↦
            let rest = strongest-AtMost laws o os (h.0, h.1.1) in
            let below = laws.le_of_not_lt o.confidence n.confidence h.0 h.1.0 e in
            let same_ : strongest o (n ∷ os) ≡ strongest o os = rw (e, strongest) refl in
            subst AtMost (sym same_) (rest.0, (laws.le_trans _ _ _ below rest.0, rest.1))
      ]

  -- What stands behind the proposal of a weight: an observation of a signal that has a weight, the
  -- confidence that the success rate asks for, and a change to a weight in bounds.
  pub record Support (step min_confidence : W) (os : List (Observation W))
      (config : CognitiveConfig W) (card : ProposalScorecard) (p : Proposal W) : Type 0 where
    pub best : Observation W
    pub weight : W
    pub observed : In best os
    pub known : any (str_eq best.signal) weight_keys ≡ true
    pub confident :
        f.lt best.confidence (required_confidence min_confidence (success_rate card weight_change))
        ≡ false
    pub current : get best.signal config.weights ≡ some weight
    pub change :
        let (old_value, new_value) =
          shifted step (success_rate card weight_change) weight best.direction in
        (p ≡ weight_proposal best.signal old_value new_value)
        × (f.same new_value old_value ≡ false)
        × Within weight_bounds new_value

  new_value-Within :
      IsOrdered W
      → (step rate weight : W) (d : Edge) → Within weight_bounds (shifted step rate weight d).1
  unfolding shifted
  new_value-Within laws step rate weight d = round_unit laws 4 _ (clamp_weight-Within laws _)

  -- The choice among the candidates, once there is one.
  propose-best :
      (step min_confidence : W) (os : List (Observation W)) (config : CognitiveConfig W)
      (card : ProposalScorecard) {p : Proposal W}
      → propose step min_confidence os config card ≡ some (some p)
      → (best : Observation W) × In best os
        × (any (str_eq best.signal) weight_keys ≡ true)
        × (IsOrdered W
            → All (λ (o : Observation W). o.confidence ≼ o.confidence) os
            → All
                (λ (o : Observation W).
                  any (str_eq o.signal) weight_keys ≡ true → o.confidence ≼ best.confidence)
                os)
        × (f.lt best.confidence
              (required_confidence min_confidence (success_rate card weight_change))
            ≡ false)
        × (propose_for step (success_rate card weight_change) config best ≡ some (some p))
  unfolding propose
  propose-best step min_confidence os config card h =
      let test : Observation W → Bool = λ o. any (str_eq o.signal) weight_keys in
      elim (list_cases (keep test os)) [
        | inl k ↦ let h' = rw (k, propose) at h in cc h'
        | inr (o, rest, k) ↦
            let best = strongest o rest in
            let (found, known) =
              In-keep test best os (subst (In best) (sym k) (In-strongest o rest)) in
            elim (Bool-cases (
              f.lt best.confidence
                (required_confidence min_confidence (success_rate card weight_change)))) [
                  | inl e ↦ let h' = rw (k, e, propose) at h in cc h'
                  | inr e ↦ (
                    best,
                    found,
                    known,
                    λ laws nums. All-keep-back test _ os (
                        subst (All (λ (n : Observation W). n.confidence ≼ best.confidence)) (sym k)
                          (strongest-AtMost laws o rest (
                            subst (All (λ (n : Observation W). n.confidence ≼ n.confidence)) k
                              (All-keep test _ os nums)))),
                    e,
                    rw (k, e, propose) at h,
                  )
                ]
      ]

  propose_for-Support :
      (step rate : W) (config : CognitiveConfig W) (best : Observation W) {p : Proposal W}
      → propose_for step rate config best ≡ some (some p)
      → (weight : W) × (get best.signal config.weights ≡ some weight)
        × (p
            ≡ weight_proposal best.signal
                (shifted step rate weight best.direction).0
                (shifted step rate weight best.direction).1)
        × (f.same
              (shifted step rate weight best.direction).1
              (shifted step rate weight best.direction).0
            ≡ false)
  unfolding propose_for
  propose_for-Support step rate config best h =
      elim (Option-cases (get best.signal config.weights)) [
        | inl m ↦ let h' = rw (m, propose_for) at h in cc h'
        | inr (w, m) ↦
            elim (Bool-cases (
              f.same (shifted step rate w best.direction).1
                (shifted step rate w best.direction).0)) [
                  | inl e ↦ let h' = rw (m, e, propose_for) at h in cc h'
                  | inr e ↦ (
                    w,
                    m,
                    sym (some-injective _ _ (some-injective _ _ (rw (m, e, propose_for) at h))),
                    e,
                  )
                ]
      ]

  -- Every proposal of the agent rests on an observation of the list of a signal that has a weight,
  -- as confident as the success rate of weight changes asks for; among such observations, if all
  -- confidences are numbers, it is the most confident. The proposed weight differs from the current
  -- one and lies between 0 and 1. This rests on the laws of floats.
  pub propose-Support :
      IsOrdered W
      → (step min_confidence : W) (os : List (Observation W)) (config : CognitiveConfig W)
        (card : ProposalScorecard) {p : Proposal W}
      → propose step min_confidence os config card ≡ some (some p)
      → (s : Support step min_confidence os config card p) × (All
            (λ (o : Observation W). o.confidence ≼ o.confidence)
            os
          → All
              (λ (o : Observation W).
                any (str_eq o.signal) weight_keys ≡ true → o.confidence ≼ s.best.confidence)
              os)
  propose-Support laws step min_confidence os config card h =
      let rate = success_rate card weight_change in
      let (best, found, known, largest, e, h') =
        propose-best step min_confidence os config card h in
      let (w, m, is, differs) = propose_for-Support step rate config best h' in
      (
        record {
          best = best;
          weight = w;
          observed = found;
          known = known;
          confident = e;
          current = m;
          change = (is, differs, new_value-Within laws step rate w best.direction);
        },
        largest laws,
      )
