-- ===== src/Policy/Decisions.antt =====
-- When the policy buys and sells, and when it raises.
use trading_control.Prelude.Options.{◌>>=◌, first_some, some-inj, chain_iff, pair_none, last_none}
use trading_control.Prelude.{
  ◌≡◌, ◌↔◌, ◌⊎◌, refl, true, false, Option, none, some, String, Bool-cases, inl, inr, arith, subst,
  Bool, ◌||◌, if◌then◌else◌,
}
use trading_control.Float.{Float, IsOrdered, ◌≼◌, ◌≺◌, dec}
use trading_control.Float.Order.{clamp_bounds, not_lt_of_le}
use trading_control.Json.{Json, Fields, member, section, float_or, reads_as}
use trading_control.Regime.{is_risk_off, buy_threshold, min_confidence}
use trading_control.Regime.Posture.{max-eq-le, posture-Tightens}
use trading_control.Policy.{
  Action, buy, sell, PolicyParams, Perception, Decision, direction_sign, macro_sign, perceive,
  score_of, choose, decide, decide_policy, direction,
}

-- A choice by two groups of words, and else by a number that may not be read.
worded_none :
    {A B : Type 0} (a b c d e g : Bool) (x y : B) (m : Option A) (h : A → B)
    → ((if a || b || c then some x else if d || e || g then some y else (m >>= λ z. some (h z)))
        ≡ none)
      ↔ ((a ≡ false)
          × (b ≡ false)
          × (c ≡ false)
          × (d ≡ false)
          × (e ≡ false)
          × (g ≡ false)
          × (m ≡ none))
worded_none true b c d e g x y m h = ((λ k. cc), (λ k. cc))
worded_none false true c d e g x y m h = ((λ k. cc), (λ k. cc))
worded_none false false true d e g x y m h = ((λ k. cc), (λ k. cc))
worded_none false false false true e g x y m h = ((λ k. cc), (λ k. cc))
worded_none false false false false true g x y m h = ((λ k. cc), (λ k. cc))
worded_none false false false false false true x y m h = ((λ k. cc), (λ k. cc))
worded_none false false false false false false x y none h =
    ((λ k. (refl, refl, refl, refl, refl, refl, refl)), (λ k. refl))
worded_none false false false false false false x y (some z) h = ((λ k. cc), (λ k. cc))

module _ {W : Type 0} ⦃f : Float W⦄ where
  open f use {le, lt, neg}

  -- A number of an object in the context cannot be read.
  abbrev pub Unread : String → String → Fields W → Type 0
  Unread name key context =
      (section (member name context) >>= λ fs. float_or (dec 0 0) (member key fs)) ≡ none

  -- The direction is none of the words for it, and the move that stands in for it is not a number.
  abbrev pub Undirected : Fields W → Type 0
  Undirected data' =
      let raw = direction data' in
      (reads_as raw "bullish" ≡ false)
      × (reads_as raw "buy" ≡ false)
      × (reads_as raw "long" ≡ false)
      × (reads_as raw "bearish" ≡ false)
      × (reads_as raw "sell" ≡ false)
      × (reads_as raw "short" ≡ false)
      × (float_or (dec 0 0) (member "pct" data') ≡ none)

  direction_sign-none : (data' : Fields W) → (direction_sign data' ≡ none) ↔ Undirected data'
  unfolding direction_sign
  direction_sign-none data' =
      let raw = direction data' in
      worded_none (reads_as raw "bullish") (reads_as raw "buy") (reads_as raw "long")
        (reads_as raw "bearish") (reads_as raw "sell") (reads_as raw "short") _ _
        (float_or (dec 0 0) (member "pct" data')) _

  macro_sign-none :
      (context : Fields W)
      → (macro_sign context ≡ none) ↔ (section (member "macro_regime" context) ≡ none)
  unfolding macro_sign
  macro_sign-none context = last_none (section (member "macro_regime" context)) _

  -- What stands in the way of a decision.
  abbrev pub Malformed : Fields W → Fields W → Type 0
  Malformed data' context =
      Undirected data'
      ⊎ (Unread "news_sentiment" "sentiment" context
          ⊎ ((section (member "macro_regime" context) ≡ none)
              ⊎ (Unread "order_book" "imbalance" context
                  ⊎ (float_or (dec 0 0) (member "composite_score" data') ≡ none))))

  perceive-none :
      (data' context : Fields W) → (perceive data' context ≡ none) ↔ Malformed data' context
  unfolding perceive
  perceive-none data' context = chain_iff (direction_sign-none data') λ momentum.
      pair_none (section (member "news_sentiment" context)) _ _ _ λ sentiment.
        chain_iff (macro_sign-none context) λ macro.
          pair_none (section (member "order_book" context)) _ _ _
            λ imbalance. last_none (float_or (dec 0 0) (member "composite_score" data')) _

  -- The policy raises exactly in one of five cases: the direction is none of its six words and the
  -- move is not a number, the macro regime is not an object, the news or the order book is not an
  -- object or its sentiment or imbalance not a number, or the confidence is not a number. A falsy value
  -- counts as an empty object or as zero, and an int beyond the floats is not a number.
  pub decide_policy-none :
      (data' context : Fields W) (params : PolicyParams W)
      → (decide_policy data' context params ≡ none) ↔ Malformed data' context
  unfolding decide_policy
  decide_policy-none data' context params =
      let last = last_none (perceive data' context) (decide params) in
      let read = perceive-none data' context in ((λ h. read.0 (last.0 h)), (λ h. last.1 (read.1 h)))

  -- The score that a purchase needs.
  abbrev pub cut_of : PolicyParams W → Perception W → W
  cut_of params p = buy_threshold p.regime params.buy_threshold p.momentum

  chosen :
      (params : PolicyParams W) (p : Perception W) (score : W)
      → let floor = min_confidence p.regime params.min_confidence true in
        (((choose params p score).0 ≡ buy) ↔ (
          (lt p.confidence params.min_confidence ≡ false)
          × (le (cut_of params p) score ≡ true)
          × (lt p.confidence floor ≡ false)))
        × (((choose params p score).0 ≡ sell) ↔ (
            (lt p.confidence params.min_confidence ≡ false)
            × (le (cut_of params p) score ≡ false)
            × (le score (neg params.sell_threshold) ≡ true)))
  unfolding choose
  chosen params p score = ((ground arith, ground arith), (ground arith, ground arith))

  -- The confidence that is read is clamped, and so a number, whatever the field holds.
  confidence-num :
      IsOrdered W
      → (data' context : Fields W) (p : Perception W) → perceive data' context ≡ some p
      → p.confidence ≼ p.confidence
  unfolding perceive
  confidence-num laws data' context p h =
      let (a, ea, ha) = first_some (direction_sign data') _ h in
      let (b, eb, hb) = first_some (section (member "news_sentiment" context)) _ ha in
      let (c, ec, hc) = first_some (float_or (dec 0 0) (member "sentiment" b)) _ hb in
      let (d, ed, hd) = first_some (macro_sign context) _ hc in
      let (e, ee, he) = first_some (section (member "order_book" context)) _ hd in
      let (i, ei, hi) = first_some (float_or (dec 0 0) (member "imbalance" e)) _ he in
      let (k, ek, hk) = first_some (float_or (dec 0 0) (member "composite_score" data')) _ hi in
      let unit = clamp_bounds laws (dec 0 0) (dec 1 0) k (laws.le_lit _ _ (omega arith)) in
      subst (λ (x : Perception W). x.confidence ≼ x.confidence) (some-inj hk)
        (laws.le_nums _ _ unit.0).1

  -- The floor of a purchase is the confidence that any order needs, and more in a risk-off regime.
  floor_iff :
      IsOrdered W
      → (regime : Option (Json W)) (least confidence : W) → least ≼ least
      → least ≼ confidence
      → (min_confidence regime least true ≼ confidence)
        ↔ (is_risk_off regime ≡ true → dec 35 2 ≼ confidence)
  unfolding min_confidence
  floor_iff laws regime least confidence n h = elim (Bool-cases (is_risk_off regime)) [
    | inr off ↦ rw off ((λ _ k. cc), (λ _. h))
    | inl on ↦ rw on (
      (λ k _.
          laws.le_trans _ _ _ (max-eq-le laws least (dec 35 2) n (laws.le_lit _ _ (omega arith)))
            k),
      (λ k. elim (Bool-cases (lt least (dec 35 2))) [ inl l ↦ rw l (k refl) | inr l ↦ rw l h ]),
    )
  ]

  -- The decision that is made of what is read, by its score.
  abbrev pub Decides : PolicyParams W → Perception W → W → Action → Type 0
  Decides params p score action =
      ((action ≡ buy) ↔ (
        (params.min_confidence ≼ p.confidence)
        × (cut_of params p ≼ score)
        × (is_risk_off p.regime ≡ true → dec 35 2 ≼ p.confidence)))
      × ((action ≡ sell) ↔ (
          (params.min_confidence ≼ p.confidence)
          × (le (cut_of params p) score ≡ false)
          × (score ≼ neg params.sell_threshold)))
      × (neg params.sell_threshold ≺ dec 0 0
          → dec 0 0 ≼ params.buy_threshold
          → params.min_confidence ≼ p.confidence
          → score ≼ neg params.sell_threshold
          → action ≡ sell)

  convinced_iff :
      IsOrdered W
      → (least confidence : W) → least ≼ least
      → confidence ≼ confidence
      → (lt confidence least ≡ false) ↔ (least ≼ confidence)
  convinced_iff laws least confidence n m =
      ((λ h. laws.le_of_not_lt confidence least m n h), (λ h. not_lt_of_le laws least confidence h))

  floor_num :
      IsOrdered W
      → (regime : Option (Json W)) (least : W) → least ≼ least
      → min_confidence regime least true ≼ min_confidence regime least true
  floor_num laws regime least n =
      (laws.le_nums _ _
        (posture-Tightens laws regime true least least least least n n n).0.confidence).1

  -- A cut that is not negative is above a score under a negative one.
  not_over_cut :
      IsOrdered W
      → (cut score low : W) → dec 0 0 ≼ cut
      → low ≺ dec 0 0
      → score ≼ low
      → le cut score ≡ false
  not_over_cut laws cut score low h l s = elim (Bool-cases (le cut score)) [
    | inr under ↦ under
    | inl over ↦
        let below = laws.not_le_of_lt _ _ l in
        let above = laws.le_trans _ _ _ (laws.le_trans _ _ _ h over) s in cc
  ]

  choose-Decides :
      IsOrdered W
      → (params : PolicyParams W) (p : Perception W) (score : W)
      → params.min_confidence ≼ params.min_confidence
      → p.confidence ≼ p.confidence
      → Decides params p score (choose params p score).0
  choose-Decides laws params p score n m =
      let c = convinced_iff laws params.min_confidence p.confidence n m in
      let k =
        convinced_iff laws _ p.confidence (floor_num laws p.regime params.min_confidence n) m in
      let g = floor_iff laws p.regime params.min_confidence p.confidence n in
      let (b, s) = chosen params p score in
      (
        (
          (λ h. let (x, y, z) = b.0 h in (c.0 x, y, (g (c.0 x)).0 (k.0 z))),
          (λ h. let (x, y, z) = h in b.1 (c.1 x, y, k.1 ((g x).1 z))),
        ),
        (
          (λ h. let (x, y, z) = s.0 h in (c.0 x, y, z)),
          (λ h. let (x, y, z) = h in s.1 (c.1 x, y, z)),
        ),
        (λ low pos sure under.
            let t = (laws.le_nums _ _ pos).1 in
            let b = params.buy_threshold in
            let (tight, neutral, daily, eased, floored) =
              posture-Tightens laws p.regime true b b b p.momentum t t t in
            s.1 (c.1 sure, not_over_cut laws _ score _ (floored pos) low under, under)),
      )

  -- A decision that is returned buys exactly if the confidence reaches that of the parameters, the
  -- score reaches the cut and, in a risk-off regime, the confidence is at least 0.35. It sells exactly
  -- if the confidence suffices and the score is not at the cut, but at or below the threshold of a sale.
  -- Where the thresholds have their signs, no regime keeps a score at or below that threshold from a
  -- sale. This rests on the laws of floats, for a confidence of the parameters that is a number.
  pub decide_policy-Decides :
      IsOrdered W
      → (data' context : Fields W) (params : PolicyParams W) (d : Decision W)
      → params.min_confidence ≼ params.min_confidence
      → decide_policy data' context params ≡ some d
      → (p : Perception W) × (perceive data' context ≡ some p)
        × Decides params p (score_of params p) d.action
  unfolding decide_policy decide
  decide_policy-Decides laws data' context params d n h =
      let (p, read, made) = first_some (perceive data' context) _ h in
      let m = confidence-num laws data' context p read in
      (
        p,
        read,
        subst (λ (x : Decision W). Decides params p (score_of params p) x.action) (some-inj made)
            (choose-Decides laws params p (score_of params p) n m),
      )
