-- ===== src/Float/FixedLaws.antt =====
-- The laws of floats hold of the multiples of 10⁻¹².
use trading_control.Prelude.{
  ℕ, zero, suc, ◌*◌, ◌^◌, ◌≤◌, ◌≡◌, ap, true, arith, ◌/◌, refl, some, subst, ◌∙◌,
}
use trading_control.Prelude.Int.{ℤ, pos, negsuc, ◌≤ℤ◌, leb_ℤ, neg_ℤ}
use trading_control.Float.{IsOrdered, IsSigned, some, ◌≼◌, IsTruncating}
use trading_control.Float.Fixed.{fixed, quantum, round_to, round_by}

leb-of-le : (a b : ℤ) → a ≤ℤ b → leb_ℤ a b ≡ true
leb-of-le a b h = ground arith

le-of-leb : (a b : ℤ) → leb_ℤ a b ≡ true → a ≤ℤ b
le-of-leb a b h = ground arith

round_to_mono : (q m n : ℕ) → m ≤ n → round_to q m ≤ round_to q n
round_to_mono q m n h = grind arith

round_by_mono : (q : ℕ) (a b : ℤ) → a ≤ℤ b → round_by q a ≤ℤ round_by q b
round_by_mono q (pos m) (pos n) h = ground (arith, round_to_mono q m n)
round_by_mono q (pos m) (negsuc n) h = absurd (omega arith)
round_by_mono q (negsuc m) (pos n) h = ground arith
round_by_mono q (negsuc m) (negsuc n) h = ground (arith, round_to_mono q (suc n) (suc m))

round_whole : (n k : ℕ) → round_to (quantum n) (k * 10 ^ 12) ≡ k * 10 ^ 12
round_whole zero k = omega arith
round_whole (suc zero) k = omega arith
round_whole (suc (suc zero)) k = omega arith
round_whole (suc (suc (suc (suc zero)))) k = omega arith
round_whole (suc (suc (suc (suc (suc (suc zero)))))) k = omega arith
round_whole (suc (suc (suc (suc (suc (suc (suc (suc zero)))))))) k = omega arith
round_whole _ k = omega arith

round_minus_one : (n : ℕ) → round_to (quantum n) (10 ^ 12) ≡ 10 ^ 12
round_minus_one zero = omega arith
round_minus_one (suc zero) = omega arith
round_minus_one (suc (suc zero)) = omega arith
round_minus_one (suc (suc (suc (suc zero)))) = omega arith
round_minus_one (suc (suc (suc (suc (suc (suc zero)))))) = omega arith
round_minus_one (suc (suc (suc (suc (suc (suc (suc (suc zero)))))))) = omega arith
round_minus_one _ = omega arith

pub fixed-IsOrdered : IsOrdered ℤ
fixed-IsOrdered = record {
  le_nums = ground arith;
  le_trans = ground arith;
  le_of_lt = ground arith;
  le_of_not_lt = ground arith;
  not_le_of_lt = ground arith;
  le_lit = ground arith;
  lt_lit = ground arith;
  round_mono = λ n a b h.
      leb-of-le (round_by (quantum n) a) (round_by (quantum n) b)
        (round_by_mono (quantum n) a b (le-of-leb a b h));
  round_whole = λ n k h. ap pos (round_whole n k);
  round_num = λ n x h. ground arith;
  tanh_range = ground arith;
  round_minus_one = λ n. ap (λ m. neg_ℤ (pos m)) (round_minus_one n);
  sub_nonneg = ground arith;
  neg_neg = ground arith;
}

unscale : (n : ℕ) → n * 10 ^ 12 / 10 ^ 12 ≡ n
unscale n = omega arith

times_one : (x : ℤ) → fixed.mul x (fixed.of_ℤ (pos 1)) ≡ x
times_one (pos n) = ap pos (unscale n)
times_one (negsuc n) = ground (arith, unscale (suc n))

times_minus_one : (x : ℤ) → fixed.mul x (fixed.of_ℤ (negsuc 0)) ≡ neg_ℤ x
times_minus_one (pos n) = ap (λ m. neg_ℤ (pos m)) (unscale n)
times_minus_one (negsuc n) = ground (arith, unscale (suc n))

pub fixed-IsSigned : IsSigned ℤ
fixed-IsSigned = record {
  add_nums = ground arith;
  mul_num = ground arith;
  add_nonneg = ground arith;
  mul_one = times_one;
  add_minus = λ x y. rw (times_minus_one y) (ground arith);
  abs_zero = ground arith;
}

whole : ℤ → ℤ
whole (pos m) = pos (m / 10 ^ 12)
whole (negsuc m) = neg_ℤ (pos (suc m / 10 ^ 12))

truncate-whole : (x : ℤ) → fixed.truncate x ≡ some (whole x)
unfolding whole
truncate-whole (pos m) = refl
truncate-whole (negsuc m) = refl

rescaled-mono : (x y : ℤ) → x ≤ℤ y → fixed.of_ℤ (whole x) ≼ fixed.of_ℤ (whole y)
unfolding whole
rescaled-mono (pos m) (pos n) h = ground arith
rescaled-mono (pos m) (negsuc n) h = absurd (omega arith)
rescaled-mono (negsuc m) (pos n) h = ground arith
rescaled-mono (negsuc m) (negsuc n) h = ground arith

whole-negative : (q : ℕ) → whole (fixed.of_ℤ (neg_ℤ (pos q))) ≡ neg_ℤ (pos q)
unfolding whole
whole-negative zero = refl
whole-negative (suc q) = ground arith

whole-of_ℤ : (x : ℤ) → whole (fixed.of_ℤ (whole x)) ≡ whole x
unfolding whole
whole-of_ℤ (pos m) = ap pos (omega arith)
whole-of_ℤ (negsuc m) = whole-negative (suc m / 10 ^ 12)

pub fixed-IsTruncating : IsTruncating ℤ
fixed-IsTruncating = record {
  truncate_between = λ x y z a c h k t u.
      let a' : whole x ≡ a = cc (truncate-whole x) in
      let c' : whole z ≡ c = cc (truncate-whole z) in
      (
        whole y,
        truncate-whole y,
        subst (λ n. fixed.of_ℤ n ≼ fixed.of_ℤ (whole y)) a' (rescaled-mono x y (le-of-leb x y h)),
        subst (λ n. fixed.of_ℤ (whole y) ≼ fixed.of_ℤ n) c' (rescaled-mono y z (le-of-leb y z k)),
      );
  truncate-of_ℤ = λ x n h.
      let n' : whole x ≡ n = cc (truncate-whole x) in
      subst (λ k. fixed.truncate (fixed.of_ℤ k) ≡ some k) n'
        (truncate-whole (fixed.of_ℤ (whole x)) ∙ ap some (whole-of_ℤ x));
  overflows-truncate = λ x n h. refl;
  le_of_same = ground arith;
}
