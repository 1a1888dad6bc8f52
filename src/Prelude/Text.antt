-- ===== src/Prelude/Text.antt =====
-- A Go string that the program takes apart, as the list of its code points, and what the program
-- uses of `strings` and `strconv` on it.
use Prim.Native.Char.{code}
use Prim.Native.Nat.{ℕ, zero, suc, ◌+◌, ◌-◌, ◌*◌, ◌/◌, ◌%◌, ◌^◌}
use Prim.Native.String.{String}
use mathlib.Core.Path.{◌≡◌}
use mathlib.Core.Logic.{◌↔◌}
use mathlib.Core.Bool.{Bool, true, false, ◌&&◌, ◌||◌}
use mathlib.Core.List.{List, [], ◌∷◌, ◌++◌, reverse}
use mathlib.Core.Option.{Option, none, some}
use native.Mathlib.Omega.{arith}
use cdtalive.Prelude.Tests.{ltb, leb, ◌==◌, if◌then◌else◌}
use cdtalive.Prelude.Int.{ℤ, pos, negsuc}

abbrev pub Text : Type 0
Text = List ℕ

-- The code points of a literal.
abbrev pub codes : String → Text
codes String.[] = []
codes (String.◌∷◌ c s) = code c ∷ codes s

abbrev pub text_eq : Text → Text → Bool
text_eq [] [] = true
text_eq (a ∷ s) (b ∷ t) = (a == b) && text_eq s t
text_eq _ _ = false

pub text_eq_iff : (s t : Text) → (text_eq s t ≡ true) ↔ (s ≡ t)
text_eq_iff [] [] = ground arith
text_eq_iff [] (b ∷ t) = ground arith
text_eq_iff (a ∷ s) [] = ground arith
text_eq_iff (a ∷ s) (b ∷ t) = ground (arith, text_eq_iff s t)

-- `unicode.IsSpace`.
unfoldable pub is_space : ℕ → Bool
is_space c =
    (leb 9 c && leb c 13)
    || (c == 32)
    || (c == 0x85)
    || (c == 0xa0)
    || (c == 0x1680)
    || (leb 0x2000 c && leb c 0x200a)
    || (c == 0x2028)
    || (c == 0x2029)
    || (c == 0x202f)
    || (c == 0x205f)
    || (c == 0x3000)

unfoldable pub trim_left : Text → Text
unfolding is_space
trim_left [] = []
trim_left (c ∷ s) = let rest = trim_left s in if is_space c then rest else c ∷ s

-- `strings.TrimSpace`.
unfoldable pub trim_space : Text → Text
unfolding trim_left
trim_space s = reverse (trim_left (reverse (trim_left s)))

-- `strings.Split(s, sep)` at a separator of one character: at least one part.
split_from : ℕ → Text → Text → List Text
split_from sep cur [] = cur ∷ []
split_from sep cur (c ∷ s) =
    let cut = cur ∷ split_from sep [] s in
    let more = split_from sep (cur ++ c ∷ []) s in if c == sep then cut else more

unfoldable pub split : ℕ → Text → List Text
unfolding split_from
split sep s = split_from sep [] s

-- `strings.SplitN(s, sep, 2)` with the test `len(parts) != 2`: the text before the first separator
-- and all behind it, or none where the separator does not occur.
cut_from : ℕ → Text → Text → Option (Text × Text)
cut_from sep cur [] = none
cut_from sep cur (c ∷ s) =
    let more = cut_from sep (cur ++ c ∷ []) s in if c == sep then some (cur, s) else more

unfoldable pub split_two : ℕ → Text → Option (Text × Text)
unfolding cut_from
split_two sep s = cut_from sep [] s

-- `strings.Join(parts, sep)`.
unfoldable pub join : Text → List Text → Text
join sep [] = []
join sep (p ∷ []) = p
join sep (p ∷ q ∷ ps) = p ++ sep ++ join sep (q ∷ ps)

unfoldable pub is_digit : ℕ → Bool
is_digit c = leb b'0' c && leb c b'9'

unfoldable pub digits_value : ℕ → Text → Option ℕ
unfolding is_digit
digits_value n [] = some n
digits_value n (c ∷ s) =
    let rest = digits_value (n * 10 + (c - b'0')) s in if is_digit c then rest else none

abbrev nonempty_value : Text → Option ℕ
unfolding digits_value
nonempty_value [] = none
nonempty_value (c ∷ s) = digits_value 0 (c ∷ s)

-- The range of a 64-bit `int`.
abbrev to_int : Bool → Option ℕ → Option ℤ
to_int _ none = none
to_int false (some n) = if ltb n (2 ^ 63) then some (pos n) else none
to_int true (some zero) = some (pos 0)
to_int true (some (suc n)) = if ltb n (2 ^ 63) then some (negsuc n) else none

-- `strconv.Atoi`: an optional sign and digits; `none` is its error.
unfoldable pub atoi : Text → Option ℤ
unfolding nonempty_value
atoi [] = none
atoi (c ∷ s) =
    if c == b'-'
    then to_int true (nonempty_value s)
    else if c == b'+'
    then to_int false (nonempty_value s)
    else to_int false (nonempty_value (c ∷ s))

digits_onto : ℕ → ℕ → Text → Text
digits_onto zero n out = out
digits_onto (suc fuel) n out =
    let here = (b'0' + n % 10) ∷ out in
    let more = digits_onto fuel (n / 10) here in if ltb n 10 then here else more

-- The decimal digits of a number. It has at most as many of them as `n + 1`, the fuel.
unfoldable pub decimal : ℕ → Text
unfolding digits_onto
decimal n = digits_onto (suc n) n []

-- `fmt.Sprintf("%02d", n)`.
unfoldable pub format_02d : ℤ → Text
unfolding decimal
format_02d (pos n) = if ltb n 10 then b'0' ∷ decimal n else decimal n
format_02d (negsuc n) = b'-' ∷ decimal (suc n)
