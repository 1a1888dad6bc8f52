-- ===== src/Time.antt =====
-- What the program uses of Go's `time`: instants, and the calendar of a location whose offset from
-- UTC is fixed, such as the program's default, Asia/Shanghai.
use cdtalive.Prelude.{
  any, [], ◌∷◌, ℕ, ◌+◌, ◌-◌, ◌*◌, ◌/◌, ◌%◌, Bool, ◌&&◌, ◌||◌, not, ltb, leb, ◌==◌, if◌then◌else◌,
}
use cdtalive.Prelude.Int.{ℤ, pos, pos_part, neg_part}

-- Nanoseconds since 1970. Times before are not modelled.
abbrev pub Instant : Type 0
Instant = ℕ

abbrev pub second : ℕ
second = 1_000_000_000

-- `t.Unix()`
abbrev pub unix_seconds : Instant → ℕ
unix_seconds t = t / second

abbrev pub unix : Instant → ℤ
unix t = pos (unix_seconds t)

-- The location: the seconds that it is ahead of UTC.
abbrev pub Location : Type 0
Location = ℤ

unfoldable pub local_seconds : Location → Instant → ℕ
local_seconds zone t = unix_seconds t + pos_part zone - neg_part zone

-- The instant at which a location's clock shows a number of seconds since its 1970.
unfoldable pub from_local : Location → ℕ → ℕ
from_local zone s = s + neg_part zone - pos_part zone

unfoldable pub local_days : Location → Instant → ℕ
unfolding local_seconds
local_days zone t = local_seconds zone t / 86400

-- What the schedules read of a `time.Time`. A `time.Weekday` counts from Sunday, 0, to Saturday, 6.
pub record LocalTime : Type 0 where
  pub weekday : ℤ
  pub hour : ℕ
  pub minute : ℕ

-- 1 January 1970 was a Thursday.
unfoldable pub weekday_of_days : ℕ → ℤ
weekday_of_days days = pos ((days + 4) % 7)

unfoldable pub local_time : Location → Instant → LocalTime
unfolding local_days weekday_of_days
local_time zone t =
    let s = local_seconds zone t in
    record {
      weekday = weekday_of_days (s / 86400);
      hour = s % 86400 / 3600;
      minute = s % 3600 / 60;
    }

pub record Date : Type 0 where
  pub year : ℕ
  pub month : ℕ
  pub day : ℕ

-- The proleptic Gregorian calendar, in eras of 400 years that begin on 1 March.
unfoldable pub date_of_days : ℕ → Date
date_of_days days =
    let z = days + 719468 in
    let era = z / 146097 in
    let day_of_era = z % 146097 in
    let year_of_era =
      (day_of_era + day_of_era / 36524 - day_of_era / 1460 - day_of_era / 146096) / 365 in
    let day_of_year = day_of_era + year_of_era / 100 - (365 * year_of_era + year_of_era / 4) in
    let shifted_month = (5 * day_of_year + 2) / 153 in
    let month = if ltb shifted_month 10 then shifted_month + 3 else shifted_month - 9 in
    record {
      year = year_of_era + era * 400 + (if leb month 2 then 1 else 0);
      month = month;
      day = day_of_year - (153 * shifted_month + 2) / 5 + 1;
    }

unfoldable pub is_leap : ℕ → Bool
is_leap y = (y % 4 == 0) && (not (y % 100 == 0) || (y % 400 == 0))

-- `time.Date(y, m+1, 0, …).Day()`
unfoldable pub days_in_month : ℕ → ℕ → ℕ
unfolding is_leap
days_in_month year month =
    let is_short = any (λ short. month == short) (4 ∷ 6 ∷ 9 ∷ 11 ∷ []) in
    if month == 2 then (if is_leap year then 29 else 28) else if is_short then 30 else 31

-- `time.Date(y, m, d, 0, …)` of the instant's own day.
unfoldable pub day_start : Location → Instant → ℕ
unfolding local_days from_local
day_start zone t = from_local zone (local_days zone t * 86400)

-- `time.Date(y, m, 1, 0, …)` of the instant's own month.
unfoldable pub month_start : Location → Instant → ℕ
unfolding local_days from_local date_of_days
month_start zone t =
    let days = local_days zone t in from_local zone ((days + 1 - (date_of_days days).day) * 86400)

-- The first day of the month before.
unfoldable pub previous_month_start : Location → Instant → ℕ
unfolding local_days from_local date_of_days days_in_month
previous_month_start zone t =
    let days = local_days zone t in
    let date = date_of_days days in
    let before =
      if date.month == 1
      then days_in_month (date.year - 1) 12
      else days_in_month date.year (date.month - 1) in
    from_local zone ((days + 1 - date.day - before) * 86400)
