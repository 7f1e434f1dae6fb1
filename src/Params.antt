-- ===== src/Params.antt =====
-- api/services/param_evolution.py and api/services/param_overrides.py: the bounds of the tunable
-- parameters, their validation, and the file of overrides as `json.loads` reads it. The text of that
-- file, with its sorted keys, is left out: a document is the object that is written.
pub mod Bounded
pub mod Hypotheses
pub mod Overflow
pub mod Stable
pub mod Reloaded
use trading_control.Prelude.Texts.{eq_stripped}
use trading_control.Prelude.{
  ℕ, Bool, true, false, ◌&&◌, ◌||◌, not, Option, none, some, List, [], ◌∷◌, String, str_eq, leb,
  ◌==◌, ltb, if◌then◌else◌,
}
use Prim.Native.Char.{code}
use trading_control.Prelude.Int.{ℤ, pos, leb_ℤ}
use trading_control.Prelude.Dict.{Dict, get, put}
use trading_control.Float.{Float, dec}
use trading_control.Json.{
  Json, null, bool, int, num, text, arr, obj, Fields, end, field, member, with_member, to_float,
}

-- `_NAME_RE`, `^[A-Z][A-Z0-9_]*$`: the `$` also matches before a last line feed.
abbrev pub is_capital : ℕ → Bool
is_capital c = leb 65 c && leb c 90

abbrev pub is_name_char : ℕ → Bool
is_name_char c = is_capital c || (leb 48 c && leb c 57) || c == 95

unfoldable pub is_name_rest : String → Bool
is_name_rest String.[] = true
is_name_rest (String.◌∷◌ c String.[]) = is_name_char (code c) || code c == 10
is_name_rest (String.◌∷◌ c (String.◌∷◌ d s)) =
    is_name_char (code c) && is_name_rest (String.◌∷◌ d s)

unfoldable pub is_name : String → Bool
unfolding is_name_rest
is_name String.[] = false
is_name (String.◌∷◌ c s) = is_capital (code c) && is_name_rest s

-- Why a change is refused.
pub data Refusal : Type 0 where
  invalid_name not_allowed not_numeric out_of_bounds not_an_object invalid_json unchanged : Refusal

-- The answer of a validation; `raises` is the `OverflowError` of `float(n)`.
pub data Check : Type 0 where
  fine : Check
  refused : Refusal → Check
  raises : Check

-- The document that is written, why none is, or an `OverflowError`.
pub data Applied (W : Type 0) : Type 0 where
  applied : Fields W → Applied W
  kept_back : Refusal → Applied W
  overflow : Applied W

module _ {W : Type 0} ⦃f : Float W⦄ where
  open f use {le, same, of_ℤ, truncate, overflows}

  abbrev pub param_bounds : Dict (W × W)
  param_bounds =
      ("SIGNAL_CONFIDENCE_MIN_GATE", (dec 30 2, dec 80 2))
      ∷ ("EXECUTION_DECISION_THRESHOLD", (dec 40 2, dec 80 2))
      ∷ ("EXECUTION_DECISION_THRESHOLD_MEMORY", (dec 30 2, dec 80 2))
      ∷ ("STOP_LOSS_PCT", (dec 1 2, dec 15 2))
      ∷ ("TAKE_PROFIT_PCT", (dec 2 2, dec 40 2))
      ∷ ("MAX_RISK_PER_TRADE_PCT", (dec 5 3, dec 5 2))
      ∷ ("KELLY_FRACTION_SCALE", (dec 5 2, dec 50 2))
      ∷ ("TRAILING_STOP_ARM_PCT", (dec 5 3, dec 8 2))
      ∷ ("TRAILING_STOP_GIVEBACK_FRAC", (dec 10 2, dec 80 2))
      ∷ ("STALE_POSITION_MAX_AGE_SECONDS", (dec 1800 0, dec 259200 0))
      ∷ ("STALE_POSITION_PNL_BAND_PCT", (dec 0 0, dec 5 2))
      ∷ ("LLM_CALL_DELAY_MS", (dec 0 0, dec 2000 0))
      ∷ []

  -- `isinstance(value, bool)` or None
  unfoldable pub is_bool_or_none : Json W → Bool
  is_bool_or_none null = true
  is_bool_or_none (bool b) = true
  is_bool_or_none _ = false

  -- whether `float(value)` raises `OverflowError`
  unfoldable pub overflowing : Json W → Bool
  overflowing (int n) = overflows n
  overflowing _ = false

  unfoldable pub in_bounds : W × W → W → Bool
  in_bounds (lo, hi) x = le lo x && le x hi

  -- `validate_param_change` for a parameter of these bounds
  unfoldable pub check_value : W × W → Json W → Check
  unfolding is_bool_or_none overflowing to_float in_bounds
  check_value bounds value =
      if is_bool_or_none value
      then refused not_numeric
      else if overflowing value
      then raises
      else elim (to_float value) [
        | none ↦ refused not_numeric
        | some x ↦ if in_bounds bounds x then fine else refused out_of_bounds
      ]

  unfoldable pub validate_param_change : String → Json W → Check
  unfolding is_name check_value get
  validate_param_change parameter value =
      if not (is_name parameter) then refused invalid_name else elim (get parameter param_bounds) [
        | none ↦ refused not_allowed
        | some bounds ↦ check_value bounds value
      ]

  -- `float(x).is_integer()`
  unfoldable pub is_integer : W → Bool
  is_integer x = elim (truncate x) [ none ↦ false | some n ↦ same (of_ℤ n) x ]

  unfoldable pub is_whole : W × W → Bool
  unfolding is_integer
  is_whole (lo, hi) = is_integer lo && is_integer hi

  -- `_coerce_like_bounds` of a value that is in bounds, so that `int` does not raise
  unfoldable pub coerce : W × W → W → Json W
  unfolding is_whole
  coerce bounds x =
      if is_whole bounds then elim (truncate x) [ none ↦ num x | some n ↦ int n ] else num x

  -- The coerced value of an entry that validates.
  unfoldable pub coerced : String → Json W → Json W
  unfolding coerce to_float get
  coerced parameter value = elim (get parameter param_bounds) [
    | none ↦ value
    | some bounds ↦ elim (to_float value) [ none ↦ value | some x ↦ coerce bounds x ]
  ]

  -- The loop of `sanitize_overrides`; none where it raises.
  unfoldable pub sanitize : Dict (Json W) → Fields W → Option (Dict (Json W))
  unfolding validate_param_change coerced put
  sanitize clean end = some clean
  sanitize clean (field key value rest) =
      let kept = sanitize (put key (coerced key value) clean) rest in
      let dropped = sanitize clean rest in
      elim (validate_param_change key value) [ fine ↦ kept | refused r ↦ dropped | raises ↦ none ]

  unfoldable pub sanitize_overrides : Json W → Option (Dict (Json W))
  unfolding sanitize
  sanitize_overrides (obj fs) = sanitize [] fs
  sanitize_overrides _ = some []

  -- What the file holds: nothing that can be read as JSON, or a document.
  unfoldable pub load_overrides : Option (Json W) → Option (Dict (Json W))
  unfolding sanitize_overrides
  load_overrides none = some []
  load_overrides (some document) = sanitize_overrides document

  -- `current.get(parameter) == new_value`
  unfoldable pub equals : Option (Json W) → Json W → Bool
  equals (some (int m)) (int n) = leb_ℤ m n && leb_ℤ n m
  equals (some (num x)) (int n) = same x (of_ℤ n)
  equals (some (int m)) (num y) = same (of_ℤ m) y
  equals (some (num x)) (num y) = same x y
  equals (some (bool b)) (int n) = let m = pos (if b then 1 else 0) in leb_ℤ m n && leb_ℤ n m
  equals (some (bool b)) (num y) = same (of_ℤ (pos (if b then 1 else 0))) y
  equals _ _ = false

  unfoldable pub write : Fields W → String → Json W → Applied W
  unfolding equals member with_member
  write current parameter new_value =
      if equals (member parameter current) new_value
      then kept_back unchanged
      else applied (with_member parameter new_value current)

  -- `raw_text` is empty, `none`, or what `json.loads` makes of it, where `none` is invalid.
  unfoldable pub apply_param_override : Option (Option (Json W)) → String → Json W → Applied W
  unfolding validate_param_change coerced write
  apply_param_override raw parameter value = elim (validate_param_change parameter value) [
    | raises ↦ overflow
    | refused r ↦ kept_back r
    | fine ↦ elim raw [
      | none ↦ write end parameter (coerced parameter value)
      | some none ↦ kept_back invalid_json
      | some (some (obj fs)) ↦ write fs parameter (coerced parameter value)
      | some (some _) ↦ kept_back not_an_object
    ]
  ]
