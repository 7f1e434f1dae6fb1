-- ===== src/Json.antt =====
-- What `json.loads` returns, and how `float`, `int` and `or {}` read such a value.
pub mod Members
use trading_control.Prelude.{
  zero, Bool, true, false, Option, none, some, String, str_eq, if◌then◌else◌, not,
}
use trading_control.Prelude.Texts.{eq_lower}
use trading_control.Prelude.Int.{ℤ, pos}
use trading_control.Float.{Float, of_ℕ, dec}

mutual
  pub data Json (W : Type 0) : Type 0 where
    null : Json W
    bool : Bool → Json W
    int : ℤ → Json W
    num : W → Json W
    text : String → Json W
    arr : Items W → Json W
    obj : Fields W → Json W

  pub data Items (W : Type 0) : Type 0 where
    nil : Items W
    cons : Json W → Items W → Items W

  pub data Fields (W : Type 0) : Type 0 where
    end : Fields W
    field : String → Json W → Fields W → Fields W

module _ {W : Type 0} where
  -- `data.get(key)`
  unfoldable pub member : String → Fields W → Option (Json W)
  member k end = none
  member k (field j v fs) = if str_eq j k then some v else member k fs

  -- `data[key] = value`
  unfoldable pub with_member : String → Json W → Fields W → Fields W
  with_member k v end = field k v end
  with_member k v (field j w fs) =
      if str_eq j k then field k v fs else field j w (with_member k v fs)

module _ {W : Type 0} ⦃f : Float W⦄ where
  open f use {of_ℤ, overflows, truncate, parse, parse_int, same}

  -- `float(value)`; none where it raises, an `OverflowError` included.
  unfoldable pub to_float : Json W → Option W
  to_float null = none
  to_float (bool true) = some (of_ℕ 1)
  to_float (bool false) = some (of_ℕ 0)
  to_float (int n) = if overflows n then none else some (of_ℤ n)
  to_float (num x) = some x
  to_float (text s) = parse s
  to_float (arr xs) = none
  to_float (obj fs) = none

  -- `int(value)`; none where it raises.
  unfoldable pub to_int : Json W → Option ℤ
  to_int null = none
  to_int (bool true) = some (pos 1)
  to_int (bool false) = some (pos 0)
  to_int (int n) = some n
  to_int (num x) = truncate x
  to_int (text s) = parse_int s
  to_int (arr xs) = none
  to_int (obj fs) = none

  -- `data.get(key) or {}`, as an object to read from: a falsy value is the empty one, and on any
  -- other value `.get` raises.
  unfoldable pub section : Option (Json W) → Option (Fields W)
  section none = some end
  section (some null) = some end
  section (some (bool false)) = some end
  section (some (int (pos zero))) = some end
  section (some (num x)) = if same x (dec 0 0) then some end else none
  section (some (text s)) = if str_eq s "" then some end else none
  section (some (arr nil)) = some end
  section (some (obj fs)) = some fs
  section (some _) = none

  -- `bool(value)`
  unfoldable pub truthy : Json W → Bool
  truthy null = false
  truthy (bool b) = b
  truthy (int (pos zero)) = false
  truthy (int n) = true
  truthy (num x) = not (same x (dec 0 0))
  truthy (text s) = not (str_eq s "")
  truthy (arr nil) = false
  truthy (arr (cons x xs)) = true
  truthy (obj end) = false
  truthy (obj (field k v fs)) = true

  -- `data.get(key) or value`, where the first is a falsy value or missing.
  unfoldable pub first_truthy : Option (Json W) → Option (Json W) → Option (Json W)
  unfolding truthy
  first_truthy none other = other
  first_truthy (some v) other = if truthy v then some v else other

  -- `float(data.get(key) or default)`; none where it raises.
  unfoldable pub float_or : W → Option (Json W) → Option W
  unfolding truthy to_float
  float_or default none = some default
  float_or default (some v) = if truthy v then to_float v else some default

  -- `str(value or "").lower() == word`: only a text reads like one of the words that are asked for.
  unfoldable pub reads_as : Option (Json W) → String → Bool
  unfolding eq_lower
  reads_as (some (text s)) word = eq_lower s word
  reads_as _ word = false
