-- ===== src/Policy.antt =====
-- api/services/decision_policy.py. `perceive` is what `decide_policy` reads, and `decide` the rest of it;
-- a field that cannot be read raises, which is `none`. The texts of the factors are left out, and a
-- reason is a constructor.
pub mod Decisions
use trading_control.Prelude.Options.{◌>>=◌}
use trading_control.Prelude.{
  Bool, true, false, ◌&&◌, ◌||◌, Option, none, some, String, if◌then◌else◌,
}
use trading_control.Float.{Float, dec, minus_dec, max, min}
use trading_control.Json.{Json, Fields, member, section, first_truthy, float_or, reads_as}
use trading_control.Regime.{regime_of, buy_threshold, min_confidence}

pub data Action : Type 0 where
  buy sell hold : Action

-- Why an action is chosen, in the order of the tests.
pub data Why : Type 0 where
  unconvinced marginal_long over_cut under_cut inside : Why

pub record PolicyParams (W : Type 0) : Type 0 where
  pub buy_threshold : W
  pub sell_threshold : W
  pub min_confidence : W
  pub w_momentum : W
  pub w_sentiment : W
  pub w_macro : W
  pub w_imbalance : W
  pub base_size_pct : W
  pub stop_atr_x : W
  pub rr_ratio : W
  pub directional_bias : W

-- The features that are read of a signal and its context.
pub record Perception (W : Type 0) : Type 0 where
  pub momentum : W
  pub sentiment : W
  pub macro : W
  pub imbalance : W
  pub confidence : W
  pub regime : Option (Json W)

pub record Decision (W : Type 0) : Type 0 where
  pub action : Action
  pub why : Why
  pub confidence : W
  pub size_pct : W
  pub stop_atr_x : W
  pub rr_ratio : W

module _ {W : Type 0} ⦃f : Float W⦄ where
  open f use {add, mul, neg, lt, le, round}

  abbrev pub default_policy_params : PolicyParams W
  default_policy_params = record {
    buy_threshold = dec 15 2;
    sell_threshold = dec 15 2;
    min_confidence = dec 20 2;
    w_momentum = dec 50 2;
    w_sentiment = dec 20 2;
    w_macro = dec 20 2;
    w_imbalance = dec 10 2;
    base_size_pct = dec 2 2;
    stop_atr_x = dec 15 1;
    rr_ratio = dec 2 0;
    directional_bias = dec 0 0;
  }

  -- The active parameters after `set_policy_params(params)`, which the caller of the policy passes on.
  unfoldable pub set_policy_params : Option (PolicyParams W) → PolicyParams W
  set_policy_params none = default_policy_params
  set_policy_params (some params) = params

  -- `_clamp(value, lo, hi)`
  abbrev pub clamp : W → W → W → W
  clamp value lo hi = max lo (min hi value)

  -- `data.get(DIRECTION) or data.get(SIGNAL) or data.get(ACTION)`
  unfoldable pub direction : Fields W → Option (Json W)
  unfolding first_truthy member
  direction data' =
      first_truthy (member "direction" data')
        (first_truthy (member "signal" data') (member "action" data'))

  unfoldable pub direction_sign : Fields W → Option W
  unfolding direction reads_as float_or member
  direction_sign data' =
      let raw = direction data' in
      let moved = (do
        pct ← float_or (dec 0 0) (member "pct" data')
        some (
            if lt (dec 0 0) pct
            then dec 1 0
            else if lt pct (dec 0 0)
            then minus_dec 1 0
            else dec 0 0)) in
      if reads_as raw "bullish" || reads_as raw "buy" || reads_as raw "long"
      then some (dec 1 0)
      else if reads_as raw "bearish" || reads_as raw "sell" || reads_as raw "short"
      then some (minus_dec 1 0)
      else moved

  unfoldable pub macro_sign : Fields W → Option W
  unfolding section reads_as member
  macro_sign context = do
    macro ← section (member "macro_regime" context)
    let regime = member "regime" macro
    some (
        if reads_as regime "risk_on"
        then dec 1 0
        else if reads_as regime "risk_off"
        then minus_dec 1 0
        else dec 0 0)

  -- What `decide_policy` reads, in its order; `context` is the empty dict where none is given.
  unfoldable pub perceive : Fields W → Fields W → Option (Perception W)
  unfolding direction_sign macro_sign section float_or member regime_of
  perceive data' context = do
    momentum ← direction_sign data'
    news ← section (member "news_sentiment" context)
    sentiment ← float_or (dec 0 0) (member "sentiment" news)
    macro ← macro_sign context
    book ← section (member "order_book" context)
    imbalance ← float_or (dec 0 0) (member "imbalance" book)
    confidence ← float_or (dec 0 0) (member "composite_score" data')
    some (record {
      momentum = momentum;
      sentiment = clamp sentiment (minus_dec 1 0) (dec 1 0);
      macro = macro;
      imbalance = clamp imbalance (minus_dec 1 0) (dec 1 0);
      confidence = clamp confidence (dec 0 0) (dec 1 0);
      regime = regime_of (member "macro_regime" context);
    })

  unfoldable pub score_of : PolicyParams W → Perception W → W
  score_of params p =
      let blended =
        add
          (add (add (mul params.w_momentum p.momentum) (mul params.w_sentiment p.sentiment))
            (mul params.w_macro p.macro))
          (mul params.w_imbalance p.imbalance) in
      round 4 (clamp (add blended params.directional_bias) (minus_dec 1 0) (dec 1 0))

  -- The chain of tests on the score and the confidence.
  unfoldable pub choose : PolicyParams W → Perception W → W → Action × Why
  unfolding buy_threshold min_confidence
  choose params p score =
      let buy_cut = buy_threshold p.regime params.buy_threshold p.momentum in
      let long_floor = min_confidence p.regime params.min_confidence true in
      if lt p.confidence params.min_confidence
      then (hold, unconvinced)
      else if le buy_cut score && lt p.confidence long_floor
      then (hold, marginal_long)
      else if le buy_cut score
      then (buy, over_cut)
      else if le score (neg params.sell_threshold)
      then (sell, under_cut)
      else (hold, inside)

  unfoldable pub decide : PolicyParams W → Perception W → Decision W
  unfolding score_of choose
  decide params p =
      let (action, why) = choose params p (score_of params p) in
      record {
        action = action;
        why = why;
        confidence = round 4 p.confidence;
        size_pct =
            round 4 (clamp (mul params.base_size_pct p.confidence) (dec 5 3) params.base_size_pct);
        stop_atr_x = params.stop_atr_x;
        rr_ratio = params.rr_ratio;
      }

  unfoldable pub decide_policy : Fields W → Fields W → PolicyParams W → Option (Decision W)
  unfolding perceive decide
  decide_policy data' context params = perceive data' context >>= λ p. some (decide params p)
