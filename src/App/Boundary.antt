-- ===== src/App/Boundary.antt =====
-- `NextStartScheduleBoundary`, `NextStartScheduleTime` and `scheduleCandidate` of
-- internal/app/service.go. A `time.Time` of the code is the number of its seconds here, and the zero
-- time is none.
pub mod Soonest
pub mod Laws
use cdtalive.Prelude.{
  ℕ, zero, suc, ◌+◌, ◌-◌, ◌*◌, ◌/◌, ◌%◌, List, [], ◌∷◌, Bool, true, ◌&&◌, Option, none, some, ltb,
  ◌==◌, if◌then◌else◌,
}
use cdtalive.Prelude.Results.{Result, ok, ◌>>=◌}
use cdtalive.Prelude.Text.{Text}
use cdtalive.Time.{Location, Instant, second, from_local, local_days, weekday_of_days}
use cdtalive.Config.Errors.{ConfigError}
use cdtalive.Config.Schedules.{StartSchedule, is_empty, validate_start_schedules}
use cdtalive.App.Schedule.{stop_weekday_selected, start_schedule_window_minutes}

unfoldable pub schedule_candidate : Location → ℕ → ℕ → ℕ
schedule_candidate zone day minutes =
    if minutes == 1440
    then from_local zone ((day + 1) * 86400)
    else from_local zone (day * 86400 + minutes / 60 * 3600 + minutes % 60 * 60)

-- The start and the end of a window of a day.
unfoldable pub boundaries_of : Location → ℕ → ℕ × ℕ → List ℕ
unfolding schedule_candidate
boundaries_of zone day (start, end) =
    let end_day = if ltb end start then day + 1 else day in
    schedule_candidate zone day start ∷ schedule_candidate zone end_day end ∷ []

unfoldable pub start_of : Location → ℕ → ℕ × ℕ → List ℕ
unfolding schedule_candidate
start_of zone day (start, end) = schedule_candidate zone day start ∷ []

-- `next.IsZero() || candidate.Before(next)`
abbrev pub is_sooner : ℕ → Option ℕ → Bool
is_sooner candidate none = true
is_sooner candidate (some next) = ltb candidate next

abbrev pub sooner : Instant → Option ℕ → ℕ → Option ℕ
sooner now next candidate =
    if ltb now (candidate * second) && is_sooner candidate next then some candidate else next

abbrev pub soonest : Instant → Option ℕ → List ℕ → Option ℕ
soonest now next [] = next
soonest now next (candidate ∷ candidates) = soonest now (sooner now next candidate) candidates

-- `from`, and the days after it.
abbrev pub days_from : ℕ → ℕ → List ℕ
days_from from zero = []
days_from from (suc n) = from ∷ days_from (suc from) n

-- The three loops, over the windows of a schedule, the schedules of a day, and the days.
module _ (candidates : ℕ → ℕ × ℕ → List ℕ) (now : Instant) where
  unfoldable pub scan_windows : ℕ → List Text → Option ℕ → Result ConfigError (Option ℕ)
  scan_windows day [] next = ok next
  scan_windows day (window ∷ windows) next = start_schedule_window_minutes window >>= λ minutes.
      scan_windows day windows (soonest now next (candidates day minutes))

  unfoldable pub scan_schedules : ℕ → List StartSchedule → Option ℕ → Result ConfigError (Option ℕ)
  unfolding scan_windows
  scan_schedules day [] next = ok next
  scan_schedules day (schedule ∷ schedules) next =
      (if stop_weekday_selected schedule.weekdays (weekday_of_days day)
        then scan_windows day schedule.windows next
        else ok next)
      >>= scan_schedules day schedules

  unfoldable pub scan_days : List ℕ → List StartSchedule → Option ℕ → Result ConfigError (Option ℕ)
  unfolding scan_schedules
  scan_days [] schedules next = ok next
  scan_days (day ∷ days) schedules next =
      scan_schedules day schedules next >>= scan_days days schedules

unfoldable pub next_start_schedule_boundary :
    Location → List StartSchedule → Instant → Result ConfigError (Option ℕ)
unfolding boundaries_of scan_days
next_start_schedule_boundary zone schedules now =
    validate_start_schedules schedules >>= λ normalized.
    if is_empty normalized
    then ok none
    else scan_days (boundaries_of zone) now (days_from (local_days zone now - 1) 10) normalized none

unfoldable pub next_start_schedule_time :
    Location → List StartSchedule → Instant → Result ConfigError (Option ℕ)
unfolding start_of scan_days
next_start_schedule_time zone schedules now = validate_start_schedules schedules >>= λ normalized.
    if is_empty normalized
    then ok none
    else scan_days (start_of zone) now (days_from (local_days zone now) 9) normalized none
