-- ===== src/App/Schedule.antt =====
-- Start schedules against the clock in internal/app/service.go: `withinStartSchedule` and what it
-- calls.
pub mod Laws
pub mod Meaning
pub mod Migrated
use cdtalive.Prelude.{
  ℕ, ◌+◌, ◌*◌, List, [], ◌∷◌, Bool, true, false, ◌&&◌, ◌||◌, any, ltb, leb, Option, some,
  if◌then◌else◌,
}
use cdtalive.Prelude.Int.{ℤ, pos, ◌-ℤ◌, int_eq}
use cdtalive.Prelude.Results.{Result, ok, err, ◌>>=◌, or_err}
use cdtalive.Prelude.Text.{Text}
use cdtalive.Time.{LocalTime}
use cdtalive.Config.Errors.{ConfigError, scan_failed, index_out_of_range}
use cdtalive.Config.Clock.{scan_number, scan_literal}
use cdtalive.Config.Schedules.{StartSchedule, validate_start_schedules}

-- The variable `value` of `stopWeekdaySelected`: Sunday counts as 7.
abbrev pub weekday_value : ℤ → ℤ
weekday_value weekday = if int_eq weekday (pos 0) then pos 7 else weekday

unfoldable pub stop_weekday_selected : List ℤ → ℤ → Bool
stop_weekday_selected weekdays weekday =
    any (λ selected. int_eq selected (weekday_value weekday)) weekdays

unfoldable pub previous_weekday : ℤ → ℤ
previous_weekday weekday = if int_eq weekday (pos 1) then pos 0 else weekday -ℤ pos 1

-- `validated[0].Windows[0]`
abbrev first_window : List StartSchedule → Result ConfigError Text
first_window [] = err index_out_of_range
first_window (s ∷ _) = elim s.windows [ [] ↦ err index_out_of_range | w ∷ _ ↦ ok w ]

-- `fmt.Sscanf` with the format "%d:%d-%d:%d".
unfoldable pub scan_window : Text → Result ConfigError (ℕ × ℕ)
scan_window text = do
  hour ← or_err (scan_number text) scan_failed
  rest ← or_err (scan_literal b':' hour.1) scan_failed
  minute ← or_err (scan_number rest) scan_failed
  rest' ← or_err (scan_literal b'-' minute.1) scan_failed
  end_hour ← or_err (scan_number rest') scan_failed
  rest'' ← or_err (scan_literal b':' end_hour.1) scan_failed
  end_minute ← or_err (scan_number rest'') scan_failed
  ok (hour.0 * 60 + minute.0, end_hour.0 * 60 + end_minute.0)

unfoldable pub start_schedule_window_minutes : Text → Result ConfigError (ℕ × ℕ)
start_schedule_window_minutes window = do
  validated ←
      validate_start_schedules (record { weekdays = pos 1 ∷ []; windows = window ∷ [] } ∷ [])
  text ← first_window validated
  scan_window text

-- The three tests of the loop's body, for a window in minutes.
abbrev pub minutes_are_on : List ℤ → LocalTime → ℕ × ℕ → Bool
minutes_are_on weekdays now (start, end) =
    let current = now.hour * 60 + now.minute in
    (ltb start end
      && leb start current
      && ltb current end
      && stop_weekday_selected weekdays now.weekday)
    || (ltb end start && leb start current && stop_weekday_selected weekdays now.weekday)
    || (ltb end start
        && ltb current end
        && stop_weekday_selected weekdays (previous_weekday now.weekday))

-- A window that cannot be read is passed over.
abbrev pub result_is_on : List ℤ → LocalTime → Result ConfigError (ℕ × ℕ) → Bool
result_is_on weekdays now (err _) = false
result_is_on weekdays now (ok minutes) = minutes_are_on weekdays now minutes

abbrev pub window_is_on : List ℤ → LocalTime → Text → Bool
window_is_on weekdays now window = result_is_on weekdays now (start_schedule_window_minutes window)

unfoldable pub within_start_schedule : List StartSchedule → LocalTime → Bool
within_start_schedule schedules now =
    any (λ schedule. any (window_is_on schedule.weekdays now) schedule.windows) schedules
