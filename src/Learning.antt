-- ===== src/Learning.antt =====
-- cognitive/learning.py: the attribution of a trade, the importance metadata and the observations.
-- A dict whose keys are the three of `WEIGHT_KEYS` is a record of three fields.
pub mod Importance
pub mod Observing
use Prim.Native.String.{◌++◌ as str_append}
use trading_control.Prelude.{
  ℕ, zero, suc, ◌+◌, ◌*◌, Bool, true, false, not, ◌&&◌, ◌||◌, List, [], ◌∷◌, ◌++◌, String, ltb,
  if◌then◌else◌,
}
use trading_control.Prelude.Int.{ℤ, pos, negsuc, leb_ℤ}
use trading_control.Prelude.Dict.{Dict, get_or}
use trading_control.Float.{Float, dec, of_ℕ, max, min}
use trading_control.Grading.{Stats, grade_agent, Card}

pub record PerSignal (A : Type 0) : Type 0 where
  pub news : A
  pub tech : A
  pub macro : A

-- `{key: g(key, d[key]) for key in WEIGHT_KEYS}`
abbrev pub each : {A B : Type 0} → (A → B) → PerSignal A → PerSignal B
each g d = record { news = g d.news; tech = g d.tech; macro = g d.macro }

abbrev pub each2 : {A B C : Type 0} → (A → B → C) → PerSignal A → PerSignal B → PerSignal C
each2 g d e = record { news = g d.news e.news; tech = g d.tech e.tech; macro = g d.macro e.macro }

abbrev pub items : {A : Type 0} → PerSignal A → List (String × A)
items d = ("news", d.news) ∷ ("tech", d.tech) ∷ ("macro", d.macro) ∷ []

pub record Attribution (W : Type 0) : Type 0 where
  pub contributions : PerSignal W
  pub shares : PerSignal W
  pub pnl_attribution : PerSignal W
  pub realized_pnl : W

pub record SignalAcc (W : Type 0) : Type 0 where
  pub samples : ℕ
  pub abs_contribution : W
  pub pnl : W
  pub correct : ℕ

-- `"outperforming" | "underperforming"`
pub data Edge : Type 0 where
  outperforming underperforming : Edge

pub record Evidence (W : Type 0) : Type 0 where
  pub agent_grade : String
  pub correct_rate : W
  pub contribution : W
  pub sample_size : ℕ

pub record Observation (W : Type 0) : Type 0 where
  pub observation : String
  pub confidence : W
  pub signal : String
  pub direction : Edge
  pub evidence : Evidence W

pub record LearningEngine (W : Type 0) : Type 0 where
  -- positive: `observe` divides by it
  pub min_samples : ℕ
  pub outperform_rate : W
  pub underperform_rate : W

-- `(value > 0) - (value < 0)`, of the two tests
abbrev pub sign_of : Bool → Bool → ℤ
sign_of true false = pos 1
sign_of false true = negsuc 0
sign_of _ _ = pos 0

-- `s != 0 and s == t`
abbrev pub agrees : ℤ → ℤ → Bool
agrees s t = not (leb_ℤ s (pos 0) && leb_ℤ (pos 0) s) && (leb_ℤ s t && leb_ℤ t s)

module _ {W : Type 0} ⦃f : Float W⦄ where
  open f use {add, sub, mul, div, abs, lt, le, round, sum}

  abbrev pub sign : W → ℤ
  sign x = sign_of (lt (dec 0 0) x) (lt x (dec 0 0))

  pub attribute : Dict W → W → Attribution W
  unfolding get_or
  attribute breakdown realized_pnl =
      let value : String → W = λ key. get_or key (dec 0 0) breakdown in
      let contributions : PerSignal W = record {
        news = value "news";
        tech = value "tech";
        macro = value "macro";
      } in
      let total =
        sum (abs contributions.news ∷ abs contributions.tech ∷ abs contributions.macro ∷ []) in
      let shares : PerSignal W =
        if lt (dec 0 0) total
        then each (λ v. round 6 (div (abs v) total)) contributions
        else each (λ v. dec 0 0) contributions in
      record {
        contributions = contributions;
        shares = shares;
        pnl_attribution = each (λ share. round 6 (mul share realized_pnl)) shares;
        realized_pnl = round 6 realized_pnl;
      }

  abbrev pub no_trades : PerSignal (SignalAcc W)
  no_trades =
      let acc : SignalAcc W = record {
        samples = 0;
        abs_contribution = dec 0 0;
        pnl = dec 0 0;
        correct = 0;
      } in
      record { news = acc; tech = acc; macro = acc }

  pub fold_trade : ℤ → SignalAcc W → W → W → SignalAcc W
  fold_trade outcome_sign acc contribution pnl = record {
    samples = acc.samples + 1;
    abs_contribution = add acc.abs_contribution (abs contribution);
    pnl = add acc.pnl pnl;
    correct = if agrees (sign contribution) outcome_sign then acc.correct + 1 else acc.correct;
  }

  -- `ImportanceTracker.update`
  pub update : PerSignal (SignalAcc W) → Attribution W → ℤ → PerSignal (SignalAcc W)
  unfolding fold_trade
  update accs a outcome_sign =
      each2 (λ (g : W → SignalAcc W) (pnl : W). g pnl)
        (each2 (fold_trade outcome_sign) accs a.contributions) a.pnl_attribution

  -- `round(x / n, 6) if n else 0.0`
  abbrev pub per_sample : W → ℕ → W
  per_sample x zero = dec 0 0
  per_sample x (suc n) = round 6 (div x (of_ℕ (suc n)))

  pub metadata : PerSignal (SignalAcc W) → PerSignal (Stats W)
  metadata = each λ (acc : SignalAcc W). record {
    samples = acc.samples;
    avg_abs_contribution = per_sample acc.abs_contribution acc.samples;
    total_pnl_attribution = round 6 acc.pnl;
    correct_rate = per_sample (of_ℕ acc.correct) acc.samples;
  }

  abbrev pub default_engine : LearningEngine W
  default_engine = record {
    min_samples = 30;
    outperform_rate = dec 60 2;
    underperform_rate = dec 40 2;
  }

  pub confidence_of : ℕ → Stats W → W
  confidence_of min_samples stats =
      let effect = mul (abs (sub stats.correct_rate (dec 5 1))) (dec 2 0) in
      let coverage = min (dec 1 0) (div (of_ℕ stats.samples) (of_ℕ (min_samples * 3))) in
      round 2 (max (dec 0 0) (min (dec 1 0) (add (mul (dec 6 1) effect) (mul (dec 4 1) coverage))))

  pub observation_of : LearningEngine W → String → Stats W → Edge → String → Observation W
  unfolding confidence_of
  observation_of engine signal stats direction suffix = record {
    observation = str_append signal suffix;
    confidence = confidence_of engine.min_samples stats;
    signal = signal;
    direction = direction;
    evidence = record {
      agent_grade = (grade_agent engine.min_samples stats).grade;
      correct_rate = stats.correct_rate;
      contribution = stats.total_pnl_attribution;
      sample_size = stats.samples;
    };
  }

  pub observe_signal : LearningEngine W → String × Stats W → List (Observation W)
  unfolding observation_of
  observe_signal engine (signal, stats) =
      let rate = stats.correct_rate in
      let contribution = stats.total_pnl_attribution in
      if ltb stats.samples engine.min_samples
      then []
      else if le engine.outperform_rate rate && le (dec 0 0) contribution
      then observation_of engine signal stats outperforming "_agent_outperforming" ∷ []
      else if le rate engine.underperform_rate || lt contribution (dec 0 0)
      then observation_of engine signal stats underperforming "_agent_underperforming" ∷ []
      else []

  pub observe_each : LearningEngine W → List (String × Stats W) → List (Observation W)
  unfolding observe_signal
  observe_each engine [] = []
  observe_each engine (e ∷ es) = observe_signal engine e ++ observe_each engine es

  pub observe : LearningEngine W → PerSignal (Stats W) → List (Observation W)
  unfolding observe_each
  observe engine stats = observe_each engine (items stats)
