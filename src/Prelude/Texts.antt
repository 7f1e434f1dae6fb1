-- ===== src/Prelude/Texts.antt =====
-- `s.lower() == w`, for a word of ASCII characters. Besides the letters A to Z only the Kelvin sign,
-- 0x212A, becomes one of these by itself, `k`.
use Prim.Native.String.{String}
use Prim.Native.Char.{code}
use Prim.Native.Nat.{ℕ, ◌+◌}
use mathlib.Core.Bool.{Bool, true, false, ◌&&◌, ◌||◌}
use trading_control.Prelude.Tests.{leb, ◌==◌, if◌then◌else◌}

abbrev pub small : ℕ → ℕ
small c = if leb 65 c && leb c 90 then c + 32 else if c == 0x212a then 107 else c

unfoldable pub eq_lower : String → String → Bool
eq_lower String.[] String.[] = true
eq_lower (String.◌∷◌ c s) (String.◌∷◌ d t) = (small (code c) == code d) && eq_lower s t
eq_lower _ _ = false

-- The characters that `strip` takes off.
abbrev pub is_space : ℕ → Bool
is_space c =
    (leb 9 c && leb c 13)
    || (leb 28 c && leb c 32)
    || c == 0x85
    || c == 0xa0
    || c == 0x1680
    || (leb 0x2000 c && leb c 0x200a)
    || c == 0x2028
    || c == 0x2029
    || c == 0x202f
    || c == 0x205f
    || c == 0x3000

unfoldable pub all_space : String → Bool
all_space String.[] = true
all_space (String.◌∷◌ c s) = is_space (code c) && all_space s

-- The word, in any case, and then only space.
unfoldable pub starts_lower : String → String → Bool
unfolding all_space
starts_lower s String.[] = all_space s
starts_lower String.[] (String.◌∷◌ d t) = false
starts_lower (String.◌∷◌ c s) (String.◌∷◌ d t) = (small (code c) == code d) && starts_lower s t

-- `s.strip().lower() == w`, for a word without space.
unfoldable pub eq_stripped : String → String → Bool
unfolding starts_lower
eq_stripped String.[] w = starts_lower String.[] w
eq_stripped (String.◌∷◌ c s) w =
    let rest = eq_stripped s w in
    if is_space (code c) then rest else starts_lower (String.◌∷◌ c s) w
