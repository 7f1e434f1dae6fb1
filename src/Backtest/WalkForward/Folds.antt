-- ===== src/Backtest/WalkForward/Folds.antt =====
-- The segments of a walk-forward evaluation.
use mathlib.Core.List.{append-nil}
use native.Mathlib.Nat.{mul-div-le, le-div_iff_mul-le, zero-mul}
use trading_control.Prelude.{
  ℕ, zero, suc, ◌+◌, ◌*◌, ◌/◌, ◌≤◌, ◌≡◌, refl, ◌∙◌, ap, false, Option, List, [], ◌∷◌, ◌++◌, arith,
  All, length, slice, take, drop, ltb, ◌||◌, map, none, some,
}
use trading_control.Float.{Float}
use trading_control.Config.{CognitiveConfig}
use trading_control.Backtest.WalkForward.{
  segments, evaluate_folds, walk_forward, BacktestDelta, evaluate_proposal,
}

module _ {ℓ} {A : Type ℓ} where
  -- The parts of the list between the bounds, one after another.
  pub cut : List A → List (ℕ × ℕ) → List A
  cut xs [] = []
  cut xs ((start, end) ∷ rest) = slice start end xs ++ cut xs rest

  slice-append-drop : (a b : ℕ) (xs : List A) → a ≤ b → slice a b xs ++ drop b xs ≡ drop a xs
  slice-append-drop zero zero xs h = refl
  slice-append-drop (suc a) zero xs h = absurd (omega arith)
  slice-append-drop zero (suc b) [] h = refl
  slice-append-drop zero (suc b) (x ∷ xs) h = ap (◌∷◌ x) (slice-append-drop zero b xs (omega arith))
  slice-append-drop (suc a) (suc b) [] h = refl
  slice-append-drop (suc a) (suc b) (x ∷ xs) h = slice-append-drop a b xs (omega arith)

  take_all : (xs : List A) → take (length xs) xs ≡ xs
  take_all [] = refl
  take_all (x ∷ xs) = ap (◌∷◌ x) (take_all xs)

  cut-segments_from :
      (xs : List A) (seg left fold : ℕ)
      → cut xs (segments (length xs) seg (suc left) fold) ≡ drop (fold * seg) xs
  unfolding cut segments
  cut-segments_from xs seg zero fold = append-nil _ ∙ ap (drop (fold * seg)) (take_all xs)
  cut-segments_from xs seg (suc left) fold =
      rw (cut-segments_from xs seg left (fold + 1))
        (slice-append-drop (fold * seg) ((fold + 1) * seg) xs (grind arith))

abbrev pub IsLong : ℕ × ℕ → Type 0
IsLong bounds = bounds.0 + 2 ≤ bounds.1

segments-IsLong :
    (n seg left fold : ℕ)
    → 2 ≤ seg
    → fold * seg + left * seg ≤ n
    → All IsLong (segments n seg left fold)
unfolding segments
segments-IsLong n seg zero fold h k = tt
segments-IsLong n seg (suc zero) fold h k = (grind arith, tt)
segments-IsLong n seg (suc (suc left)) fold h k =
    (grind arith, segments-IsLong n seg (suc left) (fold + 1) h (grind arith))

length-segments : (n seg left fold : ℕ) → length (segments n seg left fold) ≡ left
unfolding segments
length-segments n seg zero fold = refl
length-segments n seg (suc zero) fold = refl
length-segments n seg (suc (suc left)) fold = ap suc (length-segments n seg (suc left) (fold + 1))

module _ {W : Type 0} ⦃f : Float W⦄ where
  -- What a fold is evaluated on: the prices between its bounds, and the news between them, if any.
  abbrev pub piece : List W → Option (List W) → ℕ × ℕ → List W × Option (List W)
  piece prices none (start, end) = (slice start end prices, none)
  piece prices (some news) (start, end) = (slice start end prices, some (slice start end news))

  -- The one evaluation of each piece, with the seeds counted up.
  abbrev pub judged :
      (ℕ → ℕ → W)
      → CognitiveConfig W
      → CognitiveConfig W
      → ℕ
      → List (List W × Option (List W))
      → List (BacktestDelta W)
  judged uniform b c seed [] = []
  judged uniform b c seed ((prices, news) ∷ pieces) =
      evaluate_proposal uniform prices b c news seed ∷ judged uniform b c (seed + 1) pieces

module _ {W : Type 0} ⦃f : Float W⦄ (uniform : ℕ → ℕ → W) where
  evaluate_folds-judged :
      (prices : List W) (b c : CognitiveConfig W) (news : Option (List W)) (seed : ℕ)
      (parts : List (ℕ × ℕ))
      → evaluate_folds uniform prices b c news seed parts
        ≡ judged uniform b c seed (map (piece prices news) parts)
  unfolding evaluate_folds
  evaluate_folds-judged prices b c news seed [] = refl
  evaluate_folds-judged prices b c none seed ((start, end) ∷ parts) =
      ap (◌∷◌ (evaluate_proposal uniform (slice start end prices) b c none seed))
        (evaluate_folds-judged prices b c none (seed + 1) parts)
  evaluate_folds-judged prices b c (some ns) seed ((start, end) ∷ parts) =
      ap
        (◌∷◌
          (evaluate_proposal uniform (slice start end prices) b c (some (slice start end ns)) seed))
        (evaluate_folds-judged prices b c (some ns) (seed + 1) parts)

  -- A series that is long enough is cut into as many parts as there are folds, which have at least two
  -- prices each and laid end to end are the whole series. The folds of the result are the evaluations of
  -- these parts, each on its own prices and its own news, in order.
  pub walk_forward_covers :
      (prices : List W) (b c : CognitiveConfig W) (folds : ℕ) (news : Option (List W)) (seed : ℕ)
      → 2 ≤ folds
      → folds * 2 ≤ length prices
      → let parts = segments (length prices) (length prices / folds) folds 0 in
        (cut prices parts ≡ prices)
        × All IsLong parts
        × (length parts ≡ folds)
        × ((walk_forward uniform prices b c folds news seed).folds
            ≡ judged uniform b c seed (map (piece prices news) parts))
  unfolding walk_forward
  walk_forward_covers prices b c zero news seed h k = absurd (omega arith)
  walk_forward_covers prices b c (suc m) news seed h k =
      let n = length prices in
      let folds = suc m in
      let seg = n / folds in
      let fits : folds * seg ≤ n = mul-div-le n folds in
      let long : 2 ≤ seg = (le-div_iff_mul-le (omega arith)).1 (omega arith) in
      let split : (ltb folds 2 || ltb n (folds * 2)) ≡ false = ground arith in
      (
        cut-segments_from prices seg m 0 ∙ ap (λ k. drop k prices) (zero-mul seg),
        segments-IsLong n seg folds 0 long (omega arith),
        length-segments n seg folds 0,
        rw split (evaluate_folds-judged prices b c news seed (segments n seg folds 0)),
      )
