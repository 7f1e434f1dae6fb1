-- ===== src/Prelude/Decimal.antt =====
-- The decimal text of a natural number, as an f-string writes it, and how it is read back.
use Prim.Native.String.{String, ◌++◌}
use Prim.Native.Char.{Char, code}
use Prim.Native.Nat.{ℕ, zero, suc, ◌+◌, ◌-◌, ◌*◌, ◌/◌, ◌%◌, ◌≤◌, ◌<◌}
use mathlib.Core.Path.{◌≡◌, refl, ap, ◌∙◌, sym}
use mathlib.Core.Logic.{inl, inr}
use mathlib.Core.Bool.{true, false, ◌&&◌}
use native.Mathlib.Omega.{arith}
use text.Mathlib.TextLemmas.{append_assoc, cons-append, nil-append}
use trading_control.Prelude.Tests.{ltb, leb, ◌==◌, if◌then◌else◌, Bool-cases}

abbrev pub digit : ℕ → String
digit d =
    if d == 0
    then "0"
    else if d == 1
    then "1"
    else if d == 2
    then "2"
    else if d == 3
    then "3"
    else if d == 4
    then "4"
    else if d == 5
    then "5"
    else if d == 6
    then "6"
    else if d == 7
    then "7"
    else if d == 8
    then "8"
    else "9"

-- With as many steps as the number itself.
pub text_from : ℕ → ℕ → String
text_from zero n = digit n
text_from (suc k) n = elim (ltb n 10) [
  | true ↦ digit n
  | false ↦ text_from k (n / 10) ++ digit (n % 10)
]

unfoldable pub text_of : ℕ → String
unfolding text_from
text_of n = text_from n n

-- The number at the head of a text, after what has been read.
number_from : ℕ → String → ℕ
number_from read String.[] = read
number_from read (String.◌∷◌ c s) =
    let rest = number_from (read * 10 + (code c - 48)) s in
    if leb 48 (code c) && leb (code c) 57 then rest else read

number_from-char :
    (read : ℕ) (c : Char) (s : String)
    → number_from read (String.◌∷◌ c String.[] ++ s) ≡ (
        if leb 48 (code c) && leb (code c) 57
        then number_from (read * 10 + (code c - 48)) s
        else read)
unfolding number_from
number_from-char read c s = rw (cons-append c String.[] s, nil-append s) refl

number_from-digit :
    (read d : ℕ) (s : String)
    → d < 10
    → number_from read (digit d ++ s) ≡ number_from (read * 10 + d) s
number_from-digit read zero s h = number_from-char read "0" s
number_from-digit read (suc zero) s h = number_from-char read "1" s
number_from-digit read (suc (suc zero)) s h = number_from-char read "2" s
number_from-digit read (suc (suc (suc zero))) s h = number_from-char read "3" s
number_from-digit read (suc (suc (suc (suc zero)))) s h = number_from-char read "4" s
number_from-digit read (suc (suc (suc (suc (suc zero))))) s h = number_from-char read "5" s
number_from-digit read (suc (suc (suc (suc (suc (suc zero)))))) s h = number_from-char read "6" s
number_from-digit read (suc (suc (suc (suc (suc (suc (suc zero))))))) s h =
    number_from-char read "7" s
number_from-digit read (suc (suc (suc (suc (suc (suc (suc (suc zero)))))))) s h =
    number_from-char read "8" s
number_from-digit read (suc (suc (suc (suc (suc (suc (suc (suc (suc zero))))))))) s h =
    number_from-char read "9" s
number_from-digit read (suc (suc (suc (suc (suc (suc (suc (suc (suc (suc d)))))))))) s h =
    absurd (omega arith)

number_from-text_from :
    (k n : ℕ) (s : String) → n ≤ k → number_from 0 (text_from k n ++ s) ≡ number_from n s
unfolding text_from
number_from-text_from zero n s h =
    number_from-digit 0 n s (omega arith) ∙ ap (λ m. number_from m s) (omega arith)
number_from-text_from (suc k) n s h = elim (Bool-cases (ltb n 10)) [
  | inl small ↦
      rw (small, text_from)
        (number_from-digit 0 n s (ground arith) ∙ ap (λ m. number_from m s) (omega arith))
  | inr large ↦
      rw (large, text_from)
        (ap (number_from 0) (append_assoc (text_from k (n / 10)) (digit (n % 10)) s)
          ∙ number_from-text_from k (n / 10) (digit (n % 10) ++ s) (ground arith)
          ∙ number_from-digit (n / 10) (n % 10) s (omega arith)
          ∙ ap (λ m. number_from m s) (omega arith))
]

-- Two numbers are equal if their texts are, each with a dash and more behind it.
pub text_of_inj :
    (m n : ℕ) (s t : String) → text_of m ++ ("-" ++ s) ≡ text_of n ++ ("-" ++ t) → m ≡ n
unfolding text_of
text_of_inj m n s t h =
    sym (number_from-char m "-" s)
    ∙ sym (number_from-text_from m m ("-" ++ s) (omega arith))
    ∙ ap (number_from 0) h
    ∙ number_from-text_from n n ("-" ++ t) (omega arith)
    ∙ number_from-char n "-" t
