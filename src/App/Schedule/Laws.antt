-- ===== src/App/Schedule/Laws.antt =====
-- `startScheduleWindowMinutes` of internal/app/service.go on normalized windows.
use cdtalive.Prelude.{ℕ, ◌/◌, ◌%◌, ◌<◌, ◌≤◌, ◌≡◌, ◌≢◌, refl, [], ◌∷◌, ◌++◌, false, some, arith}
use cdtalive.Prelude.Int.{pos}
use cdtalive.Prelude.Decimals.{two_digits}
use cdtalive.Prelude.Results.{ok}
use cdtalive.Prelude.Text.{Text, is_digit}
use cdtalive.Config.Clock.{scan_number, scan_literal}
use cdtalive.Config.Clock.Laws.{clock}
use cdtalive.Config.Schedules.Laws.{validate_start_schedules-fixed}
use cdtalive.Config.Windows.Laws.{window}
use cdtalive.App.Schedule.{scan_window, start_schedule_window_minutes}

scan_number-two_digits :
    (n c : ℕ) (rest : Text)
    → n < 100
    → is_digit c ≡ false
    → scan_number (two_digits n ++ c ∷ rest) ≡ some (n, c ∷ rest)
unfolding scan_number is_digit
scan_number-two_digits n c rest h k = ground arith

scan_number-two_digits_end : (n : ℕ) → n < 100 → scan_number (two_digits n) ≡ some (n, [])
unfolding scan_number is_digit
scan_number-two_digits_end n h = ground arith

not_digit : {c : ℕ} → b'9' < c → is_digit c ≡ false
unfolding is_digit
not_digit h = ground arith

dash_not_digit : is_digit b'-' ≡ false
unfolding is_digit
dash_not_digit = refl

colon_not_digit : is_digit b':' ≡ false
unfolding is_digit
colon_not_digit = refl

scan_window-window : (s e : ℕ) → s < 6000 → e < 6000 → scan_window (window s e) ≡ ok (s, e)
unfolding scan_window scan_literal
scan_window-window s e hs he =
    rw
      (
        scan_number-two_digits (s / 60) b':' (two_digits (s % 60) ++ b'-' ∷ clock e) (omega arith)
            colon_not_digit,
        scan_number-two_digits (s % 60) b'-' (clock e) (omega arith) dash_not_digit,
        scan_number-two_digits (e / 60) b':' (two_digits (e % 60)) (omega arith) colon_not_digit,
        scan_number-two_digits_end (e % 60) (omega arith),
      )
      (ground arith)

-- A normalized window is read as the two minutes that it stands for.
pub start_schedule_window_minutes-window :
    (s e : ℕ) → s < 1440 → e ≤ 1440 → s ≢ e → start_schedule_window_minutes (window s e) ≡ ok (s, e)
unfolding start_schedule_window_minutes
start_schedule_window_minutes-window s e hs he ne =
    rw
      (validate_start_schedules-fixed
        (record { weekdays = pos 1 ∷ []; windows = window s e ∷ [] } ∷ [])
        (
          record {
            ascending = (tt, tt);
            on_calendar = (omega arith, tt);
            canonical = ((s, e, hs, he, ne, refl), tt);
            some_day = refl;
            some_window = refl;
          },
          tt,
        ))
      (scan_window-window s e (omega arith) (omega arith))
