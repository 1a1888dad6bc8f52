-- ===== src/Tests/Schedule.antt =====
-- The start schedules at concrete inputs.
use cdtalive.Config.Clock.{normalize_schedule_clock, normalize_clock, schedule_clock_minutes}
use cdtalive.Config.Schedules.{validate_start_schedules}
use cdtalive.Config.Schedules.Laws.{validate_start_schedules_idem}
use cdtalive.Config.Weekdays.{validate_stop_weekdays}
use cdtalive.Config.Windows.{validate_start_windows, normalize_start_window}
use cdtalive.Time.{local_days}
use cdtalive.App.Boundary.{next_start_schedule_boundary, next_start_schedule_time, days_from}
use cdtalive.App.Boundary.Soonest.{IsSoonest}
use cdtalive.App.Boundary.Laws.{
  week_marks, span_marks, next_start_schedule_boundary-IsSoonest,
  next_start_schedule_time-IsSoonest, start_marks,
}
use cdtalive.Prelude.{refl, ℕ, Option, ◌-◌, ◌≡◌, List, [], ◌∷◌, map, true, false, not, arith}
use cdtalive.Prelude.Int.{pos}
use cdtalive.Prelude.Results.{ok, traverse}
use cdtalive.Prelude.Text.{Text, codes, split_two, split, trim_space, atoi, format_02d}
use cdtalive.Config.Migrate.{migrate_stop_schedules}
use cdtalive.Config.Migrate.Laws.{is_stopped}
use cdtalive.Config.Windows.Laws.{window}
use cdtalive.App.Schedule.{within_start_schedule, start_schedule_window_minutes}
use cdtalive.App.Schedule.Laws.{start_schedule_window_minutes-window}
use cdtalive.App.Schedule.Meaning.{
  Plan, schedule_of, moment, within_start_schedule-is_on, within_start_schedule_sunday,
}
use cdtalive.App.Schedule.Migrated.{within_start_schedule-migrate_stop_schedules}

abbrev night : List Text
night = codes "22:00-06:00" ∷ codes "12:00-12:00" ∷ []

-- On a Sunday at 05:30, after a Saturday whose night is stopped.
within_start_schedule-migrate_stop_schedules_example :
    within_start_schedule (migrate_stop_schedules night (pos 6 ∷ [])) (moment 7 5 30)
    ≡ not (is_stopped night (pos 6 ∷ []) 7 330)
within_start_schedule-migrate_stop_schedules_example =
    within_start_schedule-migrate_stop_schedules night (pos 6 ∷ []) 7 5 30 (omega arith)
      (omega arith) (omega arith) (omega arith)

-- From 22:00 on Friday and on Saturday to 06:00 of the next day.
abbrev weekend : List Plan
weekend = record { days = pos 5 ∷ pos 6 ∷ []; spans = record { start = 1320; end = 360 } ∷ [] } ∷ []

within_start_schedule-is_on_example :
    within_start_schedule (map schedule_of weekend) (moment 6 5 30) ≡ true
within_start_schedule-is_on_example =
    within_start_schedule-is_on weekend 6 5 30 ((omega arith, tt), tt) (omega arith) (omega arith)

-- The same night's tail on the next day, a Sunday, is left out.
within_start_schedule_sunday_example :
    within_start_schedule (map schedule_of weekend) (moment 7 5 30) ≡ false
within_start_schedule_sunday_example =
    within_start_schedule_sunday weekend 5 30
      ((((omega arith, omega arith), ((omega arith, omega arith), tt)), (omega arith, tt)), tt)

start_schedule_window_minutes-window_example :
    start_schedule_window_minutes (window 1320 360) ≡ ok (1320, 360)
start_schedule_window_minutes-window_example =
    start_schedule_window_minutes-window 1320 360 (omega arith) (omega arith) (omega arith)

weekend_validated :
    validate_start_schedules (map schedule_of weekend) ≡ ok (map schedule_of weekend)
unfolding validate_start_schedules validate_stop_weekdays validate_start_windows traverse
    normalize_start_window split_two normalize_schedule_clock normalize_clock split trim_space atoi
    schedule_clock_minutes format_02d
weekend_validated = refl

-- At 08:10 on a Thursday in a zone eight hours ahead.
next_start_schedule_boundary-IsSoonest_example :
    (b : Option ℕ) × (next_start_schedule_boundary
        (pos 28800)
        (map schedule_of weekend)
        600000000000
      ≡ ok b)
    × IsSoonest 600000000000 b (
        week_marks
          (span_marks (pos 28800))
          (days_from (local_days (pos 28800) 600000000000 - 1) 10)
          weekend)
next_start_schedule_boundary-IsSoonest_example =
    next_start_schedule_boundary-IsSoonest (pos 28800) 600000000000 weekend
      (validate_start_schedules_idem (map schedule_of weekend) (map schedule_of weekend)
        weekend_validated).0
      ((omega arith, tt), tt)

next_start_schedule_time-IsSoonest_example :
    (b : Option ℕ) × (next_start_schedule_time (pos 28800) (map schedule_of weekend) 600000000000
      ≡ ok b)
    × IsSoonest 600000000000 b (
        week_marks
          (start_marks (pos 28800))
          (days_from (local_days (pos 28800) 600000000000) 9)
          weekend)
next_start_schedule_time-IsSoonest_example =
    next_start_schedule_time-IsSoonest (pos 28800) 600000000000 weekend
      (validate_start_schedules_idem (map schedule_of weekend) (map schedule_of weekend)
        weekend_validated).0
      ((omega arith, tt), tt)
