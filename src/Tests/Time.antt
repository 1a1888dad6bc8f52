-- ===== src/Tests/Time.antt =====
-- The calendar at concrete days.
use cdtalive.Prelude.{◌≡◌, refl}
use cdtalive.Prelude.Int.{pos}
use cdtalive.Time.{date_of_days, weekday_of_days}

-- 29 February 2024, a Thursday: day 19782.
leap_day : date_of_days 19782 ≡ record { year = 2024; month = 2; day = 29 }
unfolding date_of_days
leap_day = refl

leap_thursday : weekday_of_days 19782 ≡ pos 4
unfolding weekday_of_days
leap_thursday = refl

new_year : date_of_days 20454 ≡ record { year = 2026; month = 1; day = 1 }
unfolding date_of_days
new_year = refl
