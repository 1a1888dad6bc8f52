-- ===== src/Config/Clock.antt =====
-- Clock times in internal/config/config.go: `normalizeClock`, `normalizeScheduleClock` and
-- `scheduleClockMinutes`.
pub mod Laws
use cdtalive.Prelude.{
  ℕ, suc, ◌+◌, ◌-◌, ◌*◌, Option, none, some, List, [], ◌∷◌, ◌++◌, Bool, true, false, ◌&&◌, ◌||◌,
  ◌==◌, if◌then◌else◌,
}
use cdtalive.Prelude.Int.{pos, ltb_ℤ}
use cdtalive.Prelude.Options.{◌>>=◌}
use cdtalive.Prelude.Text.{Text, codes, text_eq, split, atoi, format_02d, is_digit}

-- `len(parts) != 2`, and the two parts.
abbrev two_parts : List Text → Option (Text × Text)
two_parts (a ∷ b ∷ []) = some (a, b)
two_parts _ = none

-- The empty text that the source returns beside `false` is left out.
unfoldable pub normalize_clock : Text → Option Text
normalize_clock value = do
  parts ← two_parts (split b':' value)
  hour ← atoi parts.0
  minute ← atoi parts.1
  if ltb_ℤ hour (pos 0) || ltb_ℤ (pos 23) hour || ltb_ℤ minute (pos 0) || ltb_ℤ (pos 59) minute
      then none
      else some (format_02d hour ++ b':' ∷ format_02d minute)

abbrev pub end_of_day : Text
end_of_day = codes "24:00"

unfoldable pub normalize_schedule_clock : Text → Bool → Option Text
normalize_schedule_clock value allow_end_of_day =
    if allow_end_of_day && text_eq value end_of_day then some value else normalize_clock value

scan_digits : ℕ → Text → ℕ × Text
unfolding is_digit
scan_digits n [] = (n, [])
scan_digits n (c ∷ s) =
    let rest = scan_digits (n * 10 + (c - b'0')) s in if is_digit c then rest else (n, c ∷ s)

-- `%d` of `fmt.Sscanf`, on texts that begin with neither a space nor a sign, such as the normalized
-- clocks and windows, which are the only ones it reads.
unfoldable pub scan_number : Text → Option (ℕ × Text)
unfolding scan_digits
scan_number [] = none
scan_number (c ∷ s) = if is_digit c then some (scan_digits 0 (c ∷ s)) else none

-- A character of the format that stands for itself.
unfoldable pub scan_literal : ℕ → Text → Option Text
scan_literal c [] = none
scan_literal c (d ∷ s) = if d == c then some s else none

abbrev minute_or_zero : Option (ℕ × Text) → ℕ
minute_or_zero none = 0
minute_or_zero (some (minute, _)) = minute

-- The error of `Sscanf` is ignored: what it did not reach is still zero.
unfoldable pub schedule_clock_minutes : Text → ℕ
unfolding scan_number scan_literal
schedule_clock_minutes value = elim (scan_number value) [
  | none ↦ 0
  | some (hour, rest) ↦ hour * 60 + minute_or_zero (scan_literal b':' rest >>= scan_number)
]
