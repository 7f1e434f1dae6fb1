-- ===== src/Float/Fixed.antt =====
-- A carrier at which the laws of `Float` hold and every operation runs: whole multiples of 10⁻¹²,
-- with half-up rounding of the magnitude. Texts are not read as numbers. `tanh` is cut off at ±1, and `pstdev` is half the range,
-- which is the deviation of two values.
use Prim.Native.String.{◌++◌}
use mathlib.Core.List.{foldl}
use trading_control.Prelude.{
  ℕ, zero, suc, ◌+◌, ◌*◌, ◌/◌, ◌%◌, ◌^◌, Bool, true, false, ◌&&◌, none, some, String, List, length,
  if◌then◌else◌, leb,
}
use trading_control.Prelude.Int.{
  ℤ, pos, negsuc, neg_ℤ, ◌+ℤ◌, ◌-ℤ◌, pos_part, neg_part, ltb_ℤ, leb_ℤ,
}
use trading_control.Float.{Float}
use trading_control.Prelude.Decimal.{digit}

abbrev pub one : ℕ
one = 10 ^ 12

-- A value by its sign and its magnitude.
abbrev pub signed : Bool → ℕ → ℤ
signed true m = neg_ℤ (pos m)
signed false m = pos m

abbrev pub is_negative : ℤ → Bool
is_negative (pos m) = false
is_negative (negsuc m) = true

abbrev pub magnitude : ℤ → ℕ
magnitude a = pos_part a + neg_part a

abbrev pub on_magnitudes : (ℕ → ℕ → ℕ) → ℤ → ℤ → ℤ
on_magnitudes f (pos m) (pos n) = pos (f m n)
on_magnitudes f (pos m) (negsuc n) = neg_ℤ (pos (f m (suc n)))
on_magnitudes f (negsuc m) (pos n) = neg_ℤ (pos (f (suc m) n))
on_magnitudes f (negsuc m) (negsuc n) = pos (f (suc m) (suc n))

-- The unit of the last digit that `round` keeps.
abbrev pub quantum : ℕ → ℕ
quantum zero = 10 ^ 12
quantum (suc zero) = 10 ^ 11
quantum (suc (suc zero)) = 10 ^ 10
quantum (suc (suc (suc (suc zero)))) = 10 ^ 8
quantum (suc (suc (suc (suc (suc (suc zero)))))) = 10 ^ 6
quantum (suc (suc (suc (suc (suc (suc (suc (suc zero)))))))) = 10 ^ 4
quantum _ = 1

abbrev pub round_to : ℕ → ℕ → ℕ
round_to q m = (m + q / 2) / q * q

abbrev pub round_by : ℕ → ℤ → ℤ
round_by q (pos m) = pos (round_to q m)
round_by q (negsuc m) = neg_ℤ (pos (round_to q (suc m)))

abbrev pub sum : List ℤ → ℤ
sum = foldl ◌+ℤ◌ (pos 0)

abbrev pub mean : List ℤ → ℤ
mean xs = on_magnitudes (λ m n. m / n) (sum xs) (pos (length xs))

abbrev pub largest : List ℤ → ℤ
largest List.[] = pos 0
largest (List.◌∷◌ x List.[]) = x
largest (List.◌∷◌ x xs) = let m = largest xs in if ltb_ℤ m x then x else m

abbrev pub smallest : List ℤ → ℤ
smallest List.[] = pos 0
smallest (List.◌∷◌ x List.[]) = x
smallest (List.◌∷◌ x xs) = let m = smallest xs in if ltb_ℤ x m then x else m

abbrev pub half_range : List ℤ → ℤ
half_range xs = pos (magnitude (largest xs -ℤ smallest xs) / 2)

-- The square root, rounded down: one binary digit at a time.
abbrev pub root : ℕ → ℕ → ℕ
root zero n = 0
root (suc k) n = let r = 2 * root k (n / 4) in if leb ((r + 1) * (r + 1)) n then r + 1 else r

abbrev pub clip : ℤ → ℤ
clip a =
    if ltb_ℤ (pos one) a then pos one else if ltb_ℤ a (neg_ℤ (pos one)) then neg_ℤ (pos one) else a

-- The lowest `n` digits of a number.
abbrev pub digits : ℕ → ℕ → String
digits zero m = ""
digits (suc n) m = digits n (m / 10) ++ digit (m % 10)

abbrev pub text : ℤ → String
text a = (if is_negative a then "-" else "") ++ digits 18 (magnitude a)

instance abbrev pub fixed : Float ℤ
fixed = record {
  lit = λ a. a;
  add = ◌+ℤ◌;
  sub = ◌-ℤ◌;
  mul = on_magnitudes (λ m n. m * n / one);
  div = on_magnitudes (λ m n. m * one / n);
  neg = neg_ℤ;
  abs = λ a. pos (magnitude a);
  lt = ltb_ℤ;
  le = leb_ℤ;
  same = λ a b. leb_ℤ a b && leb_ℤ b a;
  round = λ n. round_by (quantum n);
  of_ℤ = on_magnitudes (λ m n. m * n) (pos one);
  overflows = λ a. false;
  truncate = λ a. some (on_magnitudes (λ m n. m / n) a (pos one));
  parse = λ s. none;
  parse_int = λ s. none;
  tanh = clip;
  sqrt = λ a. pos (root 64 (pos_part a * one));
  copysign = λ a b. signed (is_negative b) (magnitude a);
  sum = sum;
  fmean = mean;
  pstdev = half_range;
  show = text;
}
