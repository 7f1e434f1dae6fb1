-- ===== src/Grading.antt =====
-- cognitive/grading.py: the report cards of trades, agents, proposals and config versions. The
-- fields of a card that repeat an argument are left out.
pub mod Scores
use Prim.Native.String.{◌++◌ as str_append}
use trading_control.Prelude.{
  ℕ, Bool, true, false, List, [], ◌∷◌, String, str_eq, ltb, if◌then◌else◌,
}
use trading_control.Float.{Float, dec, of_ℕ, max, min}

pub record Card (W : Type 0) : Type 0 where
  pub grade : String
  pub score : W

pub record Components (W : Type 0) : Type 0 where
  pub direction : W
  pub risk : W
  pub execution : W
  pub timing : W

pub record TradeGradeCard (W : Type 0) : Type 0 where
  pub overall_grade : String
  pub overall_score : W
  pub direction_grade : String
  pub risk_grade : String
  pub execution_grade : String
  pub timing_grade : String
  pub components : Components W

-- What the importance metadata says of one signal.
pub record Stats (W : Type 0) : Type 0 where
  pub samples : ℕ
  pub avg_abs_contribution : W
  pub total_pnl_attribution : W
  pub correct_rate : W

module _ {W : Type 0} ⦃f : Float W⦄ where
  open f use {add, sub, mul, div, abs, lt, le, same, round, tanh, sum}

  abbrev pub percent : W → W
  percent x = max (dec 0 0) (min (dec 100 0) x)

  abbrev pub letters : List (String × W)
  letters = ("A", dec 90 0) ∷ ("B", dec 80 0) ∷ ("C", dec 70 0) ∷ ("D", dec 60 0) ∷ []

  abbrev pub with_modifier : String → W → String
  with_modifier letter offset =
      if le (dec 6667 3) offset
      then str_append letter "+"
      else if lt offset (dec 3333 3)
      then str_append letter "-"
      else letter

  pub letter_from : W → List (String × W) → String
  letter_from score [] = "F"
  letter_from score ((letter, low) ∷ rest) =
      if le low score then with_modifier letter (sub score low) else letter_from score rest

  pub letter_grade : W → String
  unfolding letter_from
  letter_grade score =
      let s = percent score in if lt s (dec 60 0) then "F" else letter_from s letters

  pub direction_component : W → W → W
  direction_component decision_score realized_pnl_pct =
      let correct = lt (dec 0 0) realized_pnl_pct in
      let move = min (dec 1 0) (div (abs realized_pnl_pct) (dec 3 0)) in
      let conviction = min (dec 1 0) (div (abs decision_score) (dec 5 1)) in
      let strength = add (mul (dec 5 1) move) (mul (dec 5 1) conviction) in
      if same realized_pnl_pct (dec 0 0)
      then dec 50 0
      else if correct
      then add (dec 50 0) (mul (dec 50 0) strength)
      else sub (dec 50 0) (mul (dec 50 0) strength)

  pub risk_component : W → W → W
  risk_component realized_pnl_pct max_adverse_pct =
      let ratio = div realized_pnl_pct (add (abs max_adverse_pct) (dec 5 1)) in
      percent (add (dec 50 0) (mul (dec 50 0) (tanh ratio)))

  pub execution_component : W → W
  execution_component slippage_bps = percent (sub (dec 100 0) (mul (abs slippage_bps) (dec 8 0)))

  pub timing_component : String → W → W → W → W
  timing_component side entry_price window_low window_high =
      let span = sub window_high window_low in
      let position = div (sub entry_price window_low) span in
      let quality = if str_eq side "buy" then sub (dec 1 0) position else position in
      if le span (dec 0 0) then dec 50 0 else percent (mul (dec 100 0) quality)

  pub overall_of : Components W → W
  overall_of c = round 2 (
      sum (
        mul c.direction (dec 40 2)
        ∷ mul c.risk (dec 25 2)
        ∷ mul c.execution (dec 15 2)
        ∷ mul c.timing (dec 20 2)
        ∷ []))

  pub grade_trade : W → W → W → W → String → W → W → W → TradeGradeCard W
  unfolding letter_grade direction_component risk_component execution_component timing_component
      overall_of
  grade_trade decision_score realized_pnl_pct max_adverse_pct slippage_bps side entry low high =
      let c : Components W = record {
        direction = round 2 (direction_component decision_score realized_pnl_pct);
        risk = round 2 (risk_component realized_pnl_pct max_adverse_pct);
        execution = round 2 (execution_component slippage_bps);
        timing = round 2 (timing_component side entry low high);
      } in
      record {
        overall_grade = letter_grade (overall_of c);
        overall_score = overall_of c;
        direction_grade = letter_grade c.direction;
        risk_grade = letter_grade c.risk;
        execution_grade = letter_grade c.execution;
        timing_grade = letter_grade c.timing;
        components = c;
      }

  pub grade_agent : ℕ → Stats W → Card W
  unfolding letter_grade
  grade_agent min_samples stats =
      let c = stats.total_pnl_attribution in
      let pnl_sign = add (dec 5 1) (mul (dec 5 1) (tanh (div c (add (abs c) (dec 1 0))))) in
      let blend = add (mul (dec 7 1) stats.correct_rate) (mul (dec 3 1) pnl_sign) in
      let score = round 2 (mul (dec 100 0) blend) in
      if ltb stats.samples min_samples
      then record { grade = "NR"; score = dec 0 0 }
      else record { grade = letter_grade score; score = score }

  pub grade_proposal : W → W → Card W
  unfolding letter_grade
  grade_proposal pnl_delta sharpe_delta =
      let raw =
        add (add (dec 50 0) (mul (dec 30 0) (tanh sharpe_delta)))
          (mul (dec 20 0) (tanh pnl_delta)) in
      let score = round 2 (percent raw) in record { grade = letter_grade score; score = score }

  pub grade_config_version : W → W → Card W
  unfolding letter_grade
  grade_config_version sharpe max_drawdown_pct =
      let raw =
        sub (add (dec 60 0) (mul (dec 28 0) (tanh sharpe))) (mul (dec 12 1) max_drawdown_pct) in
      let score = round 2 (percent raw) in record { grade = letter_grade score; score = score }
