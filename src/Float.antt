-- ===== src/Float.antt =====
-- Python's `float`: what the program does with one, as an interface that the models take as an
-- instance argument, and the documented laws of IEEE doubles as a record of named hypotheses.
pub mod Fixed
pub mod FixedLaws
pub mod Order
use trading_control.Prelude.{
  ℕ, ◌+◌, ◌*◌, ◌^◌, ◌-◌, ◌≤◌, ◌≡◌, Bool, true, false, Option, String, List, if◌then◌else◌, some,
}
use trading_control.Prelude.Int.{ℤ, pos, negsuc, neg_ℤ, ◌≤ℤ◌, ◌<ℤ◌, pos_part, neg_part}

pub record Float (W : Type 0) : Type 0 where
  -- the double nearest to so many times 10⁻¹²
  pub lit : ℤ → W
  pub add : W → W → W
  pub sub : W → W → W
  pub mul : W → W → W
  pub div : W → W → W
  pub neg : W → W
  pub abs : W → W
  pub lt : W → W → Bool
  pub le : W → W → Bool
  pub same : W → W → Bool
  -- `round(x, n)`, digits first
  pub round : ℕ → W → W
  -- `float(n)` of an int, `int(x)` of a float (none where it raises), and what `float` and `int`
  -- read from a text
  pub of_ℤ : ℤ → W
  pub truncate : W → Option ℤ
  -- whether `float(n)` raises `OverflowError`
  pub overflows : ℤ → Bool
  pub parse : String → Option W
  pub parse_int : String → Option ℤ
  pub tanh : W → W
  pub sqrt : W → W
  pub copysign : W → W → W
  -- `sum`
  pub sum : List W → W
  -- `statistics.fmean` and `statistics.pstdev`, of a list that is not empty
  pub fmean : List W → W
  pub pstdev : List W → W
  -- `repr`, as an f-string writes it
  pub show : W → String

-- A decimal of the source with so many places: 0.15 is `dec 15 2`, for at most twelve places.
abbrev pub millis : ℕ → ℕ → ℕ
millis m places = m * 10 ^ (12 - places)

abbrev pub decimal : ℕ → ℕ → ℤ
decimal m places = pos (millis m places)

module _ {W : Type 0} ⦃f : Float W⦄ where
  open f use {lit, lt, of_ℤ}

  abbrev pub dec : ℕ → ℕ → W
  dec m places = lit (decimal m places)

  abbrev pub minus_dec : ℕ → ℕ → W
  minus_dec m places = lit (neg_ℤ (decimal m places))

  abbrev pub of_ℕ : ℕ → W
  of_ℕ n = of_ℤ (pos n)

  -- `max(x, y)` keeps the first unless the second is larger, `min(x, y)` unless it is smaller.
  abbrev pub max : W → W → W
  max x y = if lt x y then y else x

  abbrev pub min : W → W → W
  min x y = if lt y x then y else x

infix 50 ◌≼◌ ◌≺◌
abbrev pub ◌≼◌ : {W : Type 0} ⦃f : Float W⦄ → W → W → Type 0
◌≼◌ ⦃f⦄ x y = f.le x y ≡ true

abbrev pub ◌≺◌ : {W : Type 0} ⦃f : Float W⦄ → W → W → Type 0
◌≺◌ ⦃f⦄ x y = f.lt x y ≡ true

-- What IEEE 754 and Python promise. NaN is the value that is not `<=` itself, and no law is claimed
-- of it but that it compares false.
pub record IsOrdered (W : Type 0) ⦃f : Float W⦄ : Type 0 where
  pub le_nums : (x y : W) → x ≼ y → (x ≼ x) × (y ≼ y)
  pub le_trans : (x y z : W) → x ≼ y → y ≼ z → x ≼ z
  pub le_of_lt : (x y : W) → x ≺ y → x ≼ y
  pub le_of_not_lt : (x y : W) → x ≼ x → y ≼ y → f.lt x y ≡ false → y ≼ x
  pub not_le_of_lt : (x y : W) → x ≺ y → f.le y x ≡ false
  -- decimals are read to the nearest double, which keeps their order
  pub le_lit : (a b : ℤ) → a ≤ℤ b → f.lit a ≼ f.lit b
  -- fifteen significant digits tell two decimals apart
  pub lt_lit :
      (a b : ℤ)
      → pos_part a + neg_part a ≤ 10 ^ 15
      → pos_part b + neg_part b ≤ 10 ^ 15
      → a <ℤ b
      → f.lit a ≺ f.lit b
  -- rounding to so many decimals is monotone, and keeps the whole numbers
  pub round_mono : (n : ℕ) (x y : W) → x ≼ y → f.round n x ≼ f.round n y
  pub round_whole : (n k : ℕ) → k ≤ 100 → f.round n (dec k 0) ≡ dec k 0
  pub round_num : (n : ℕ) (x : W) → f.round n x ≼ f.round n x → x ≼ x
  pub tanh_range : (x : W) → f.tanh x ≼ f.tanh x → (minus_dec 1 0 ≼ f.tanh x) × (f.tanh x ≼ dec 1 0)
  pub round_minus_one : (n : ℕ) → f.round n (minus_dec 1 0) ≡ minus_dec 1 0
  -- a difference of ordered numbers, if it is a number, is not negative, and `-(-x)` is `x`
  pub sub_nonneg : (x y : W) → x ≼ y → f.sub y x ≼ f.sub y x → dec 0 0 ≼ f.sub y x
  pub neg_neg : (x : W) → f.neg (f.neg x) ≡ x

-- What IEEE 754 promises of sums, products and magnitudes: NaN comes out where it goes in, and a
-- factor of 1 or -1 loses nothing.
pub record IsSigned (W : Type 0) ⦃f : Float W⦄ : Type 0 where
  pub add_nums : (x y : W) → f.add x y ≼ f.add x y → (x ≼ x) × (y ≼ y)
  pub mul_num : (x y : W) → f.mul x y ≼ f.mul x y → x ≼ x
  pub add_nonneg : (x y : W) → dec 0 0 ≼ x → dec 0 0 ≼ y → dec 0 0 ≼ f.add x y
  pub mul_one : (x : W) → f.mul x (f.of_ℤ (pos 1)) ≡ x
  pub add_minus : (x y : W) → f.add x (f.mul y (f.of_ℤ (negsuc 0))) ≡ f.sub x y
  pub abs_zero : (x : W) → dec 0 0 ≼ x → x ≼ dec 0 0 → f.abs x ≼ dec 0 0

-- What Python promises of `int(x)`, which drops the fraction of a finite number, and of `float(n)`.
pub record IsTruncating (W : Type 0) ⦃f : Float W⦄ : Type 0 where
  pub truncate_between :
      (x y z : W) (a c : ℤ)
      → x ≼ y
      → y ≼ z
      → f.truncate x ≡ some a
      → f.truncate z ≡ some c
      → (b : ℤ) × (f.truncate y ≡ some b) × (f.of_ℤ a ≼ f.of_ℤ b) × (f.of_ℤ b ≼ f.of_ℤ c)
  pub truncate-of_ℤ : (x : W) (n : ℤ) → f.truncate x ≡ some n → f.truncate (f.of_ℤ n) ≡ some n
  pub overflows-truncate : (x : W) (n : ℤ) → f.truncate x ≡ some n → f.overflows n ≡ false
  pub le_of_same : (x y : W) → f.same x y ≡ true → (x ≼ y) × (y ≼ x)
