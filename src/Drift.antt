-- ===== src/Drift.antt =====
-- cognitive/drift.py: `DriftMonitor`. The source registers a metric in two dicts at once; here one
-- dict holds both its specification and its series. `maxlen` is twice the window.
pub mod Series
use trading_control.Prelude.{
  ℕ, ◌+◌, ◌*◌, ◌/◌, Bool, true, false, Option, none, some, List, [], ◌∷◌, ◌++◌, String, length,
  take, drop, ltb, if◌then◌else◌,
}
use trading_control.Prelude.Dict.{Dict, get, put}
use trading_control.Float.{Float}

pub record Spec (W : Type 0) : Type 0 where
  pub higher_is_better : Bool
  pub threshold : W

pub record Metric (W : Type 0) : Type 0 where
  pub spec : Spec W
  -- oldest first
  pub series : List W

pub record DriftMonitor (W : Type 0) : Type 0 where
  pub window : ℕ
  pub min_samples : ℕ
  pub metrics : Dict (Metric W)

pub record DriftAlert (W : Type 0) : Type 0 where
  pub metric : String
  -- "down" of a metric that should be high, "up" of one that should be low
  pub direction : String
  pub recent : W
  pub baseline : W
  pub delta : W

module _ {W : Type 0} where
  pub register : DriftMonitor W → String → Bool → W → DriftMonitor W
  unfolding put
  register m metric higher_is_better threshold =
      let spec : Spec W = record { higher_is_better = higher_is_better; threshold = threshold } in
      record m { metrics = put metric (record { spec = spec; series = [] }) m.metrics }

  -- `append` to a `deque(maxlen=…)`, which drops the oldest when it is full
  pub push : ℕ → List W → W → List W
  push maxlen series value =
      let grown = series ++ (value ∷ []) in
      if ltb maxlen (length grown) then drop 1 grown else grown

  pub observe : DriftMonitor W → String → W → DriftMonitor W
  unfolding get put push
  observe m metric value = elim (get metric m.metrics) [
    | none ↦ m
    | some entry ↦ record m {
      metrics =
          put metric (record entry { series = push (m.window * 2) entry.series value }) m.metrics;
    }
  ]

module _ {W : Type 0} ⦃f : Float W⦄ where
  open f use {sub, lt, fmean, round}

  pub assess_metric : ℕ → String × Metric W → List (DriftAlert W)
  assess_metric min_samples (name, m) =
      let half = length m.series / 2 in
      let baseline = fmean (take half m.series) in
      let recent = fmean (drop half m.series) in
      let better = m.spec.higher_is_better in
      let degradation = if better then sub baseline recent else sub recent baseline in
      let alert : DriftAlert W = record {
        metric = name;
        direction = if better then "down" else "up";
        recent = round 4 recent;
        baseline = round 4 baseline;
        delta = round 4 degradation;
      } in
      if ltb (length m.series) (2 * min_samples)
      then []
      else if lt m.spec.threshold degradation
      then alert ∷ []
      else []

  pub assess_each : ℕ → Dict (Metric W) → List (DriftAlert W)
  unfolding assess_metric
  assess_each min_samples [] = []
  assess_each min_samples (e ∷ es) = assess_metric min_samples e ++ assess_each min_samples es

  pub assess : DriftMonitor W → List (DriftAlert W)
  unfolding assess_each
  assess m = assess_each m.min_samples m.metrics
