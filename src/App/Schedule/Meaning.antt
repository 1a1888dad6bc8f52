-- ===== src/App/Schedule/Meaning.antt =====
-- `withinStartSchedule` against what schedules mean: days and minutes.
use cdtalive.Prelude.{
  ℕ, ◌+◌, ◌*◌, ◌<◌, ◌≤◌, ◌≡◌, ◌≢◌, refl, List, [], ◌∷◌, map, Bool, false, ◌&&◌, ◌||◌, any, All, ltb,
  leb, ◌==◌, arith, if◌then◌else◌, ◌∙◌, ap,
}
use cdtalive.Prelude.Int.{ℤ, pos, negsuc, int_eq, ◌-ℤ◌}
use cdtalive.Prelude.Text.{Text}
use cdtalive.Config.Intervals.{MinuteInterval}
use cdtalive.Config.Intervals.Complement.{text_of}
use cdtalive.Config.Migrate.{day_before}
use cdtalive.Config.Schedules.{StartSchedule}
use cdtalive.Config.Weekdays.Laws.{IsWeekday}
use cdtalive.Time.{LocalTime}
use cdtalive.App.Schedule.{
  result_is_on, weekday_value, stop_weekday_selected, previous_weekday, minutes_are_on,
  window_is_on, within_start_schedule,
}
use cdtalive.App.Schedule.Laws.{start_schedule_window_minutes-window}

-- A schedule without its texts: days from Monday, 1, to Sunday, 7, and windows in minutes.
pub record Plan : Type 0 where
  pub days : List ℤ
  pub spans : List MinuteInterval

-- A window that `validateStartWindows` can return.
abbrev pub IsSpan : MinuteInterval → Type 0
IsSpan i = (i.start < 1440) × (i.end ≤ 1440) × (i.start ≢ i.end)

abbrev pub IsPlan : Plan → Type 0
IsPlan p = All IsSpan p.spans

abbrev pub schedule_of : Plan → StartSchedule
schedule_of p = record { weekdays = p.days; windows = map text_of p.spans }

abbrev pub is_day : List ℤ → ℕ → Bool
is_day days day = any (int_eq (pos day)) days

-- A span holds a minute on its own day, or runs past midnight into it from the day before.
abbrev pub span_is_on : List ℤ → ℕ → ℕ → MinuteInterval → Bool
span_is_on days day m i =
    (is_day days day && leb i.start m && (ltb m i.end || ltb i.end i.start))
    || (is_day days (day_before day) && ltb i.end i.start && ltb m i.end)

abbrev pub is_on : List Plan → ℕ → ℕ → Bool
is_on plans day m = any (λ p. any (span_is_on p.days day m) p.spans) plans

-- The moment of a day of the week, 1 to 7, in Go's terms.
abbrev pub moment : ℕ → ℕ → ℕ → LocalTime
moment day h m = record { weekday = if day == 7 then pos 0 else pos day; hour = h; minute = m }

int_eq_comm : (a : ℕ) (d : ℤ) → int_eq d (pos a) ≡ int_eq (pos a) d
int_eq_comm a (pos d) = ground arith
int_eq_comm a (negsuc d) = refl

any_day : (days : List ℤ) (day : ℕ) → any (λ d. int_eq d (pos day)) days ≡ is_day days day
any_day [] day = refl
any_day (d ∷ days) day = rw (int_eq_comm day d, any_day days day)

module _ (days : List ℤ) where
  pub selected_at :
      (w : ℤ) (day : ℕ) → weekday_value w ≡ pos day → stop_weekday_selected days w ≡ is_day days day
  unfolding stop_weekday_selected
  selected_at w day e = rw e (any_day days day)

pub go_weekday_today :
    (day : ℕ) → 1 ≤ day → day ≤ 7 → weekday_value (if day == 7 then pos 0 else pos day) ≡ pos day
go_weekday_today day h k = ground arith

go_weekday_yesterday :
    (day : ℕ)
    → 1 ≤ day
    → day ≤ 6
    → weekday_value (previous_weekday (if day == 7 then pos 0 else pos day)) ≡ pos (day_before day)
unfolding previous_weekday ◌-ℤ◌
go_weekday_yesterday day h k = ground arith

pub window_is_on-span :
    (days : List ℤ) (now : LocalTime) (i : MinuteInterval)
    → IsSpan i
    → window_is_on days now (text_of i) ≡ minutes_are_on days now (i.start, i.end)
window_is_on-span days now i (hs, he, ne) =
    ap (result_is_on days now) (start_schedule_window_minutes-window i.start i.end hs he ne)

module _ (day h m : ℕ) (lo : 1 ≤ day) (hi : day ≤ 6) where
  window_is_on-text_of :
      (days : List ℤ) (i : MinuteInterval)
      → IsSpan i
      → window_is_on days (moment day h m) (text_of i) ≡ span_is_on days day (h * 60 + m) i
  window_is_on-text_of days i span =
      window_is_on-span days (moment day h m) i span
      ∙ rw
          (
            selected_at days (moment day h m).weekday day (go_weekday_today day lo (omega arith)),
            selected_at days (previous_weekday (moment day h m).weekday) (day_before day)
                (go_weekday_yesterday day lo hi),
          )
          (same_tests (is_day days day) (is_day days (day_before day)) (h * 60 + m) i span.2)
    where
      same_tests :
          (today yesterday : Bool) (t : ℕ) (i : MinuteInterval)
          → i.start ≢ i.end
          → ((ltb i.start i.end && leb i.start t && ltb t i.end && today)
              || (ltb i.end i.start && leb i.start t && today)
              || (ltb i.end i.start && ltb t i.end && yesterday))
            ≡ ((today && leb i.start t && (ltb t i.end || ltb i.end i.start))
                || (yesterday && ltb i.end i.start && ltb t i.end))
      same_tests today yesterday t i ne = ground arith

any_spans :
    (f : Text → Bool) (g : MinuteInterval → Bool) (is : List MinuteInterval)
    → ((i : MinuteInterval) → IsSpan i → f (text_of i) ≡ g i)
    → All IsSpan is
    → any f (map text_of is) ≡ any g is
any_spans f g [] h k = refl
any_spans f g (i ∷ is) h k = rw (h i k.0, any_spans f g is h k.1)

module _ (now : LocalTime) (on : List ℤ → MinuteInterval → Bool) where
  any_plans :
      (Q : List ℤ → Type 0)
      → ((days : List ℤ) (i : MinuteInterval)
          → Q days
          → IsSpan i
          → window_is_on days now (text_of i) ≡ on days i)
      → (plans : List Plan) → All (λ p. Q p.days × IsPlan p) plans
      → within_start_schedule (map schedule_of plans) now ≡ any (λ p. any (on p.days) p.spans) plans
  unfolding within_start_schedule
  any_plans Q h [] k = refl
  any_plans Q h (p ∷ plans) k = rw (
    any_spans (window_is_on p.days now) (on p.days) p.spans (λ i. h p.days i k.0.0) k.0.1,
    any_plans Q h plans k.1,
  )

with_any_days : (plans : List Plan) → All IsPlan plans → All (λ p. Unit {0} × IsPlan p) plans
with_any_days [] k = tt
with_any_days (p ∷ plans) k = ((tt, k.0), with_any_days plans k.1)

-- From Monday to Saturday the code turns the instance on exactly in the minutes that the schedules
-- mean, the parts of windows that run past midnight included.
pub within_start_schedule-is_on :
    (plans : List Plan) (day h m : ℕ)
    → All IsPlan plans
    → 1 ≤ day
    → day ≤ 6
    → within_start_schedule (map schedule_of plans) (moment day h m) ≡ is_on plans day (h * 60 + m)
within_start_schedule-is_on plans day h m k lo hi =
    any_plans (moment day h m) (λ days. span_is_on days day (h * 60 + m)) (λ _. Unit {0})
      (λ days i _ span. window_is_on-text_of day h m lo hi days i span) plans
      (with_any_days plans k)

-- What the code looks at on a Sunday: the windows that begin on that day.
abbrev pub own_day_is_on : List Plan → ℕ → ℕ → Bool
own_day_is_on plans day m =
    any
      (λ p.
        any (λ i. is_day p.days day && leb i.start m && (ltb m i.end || ltb i.end i.start)) p.spans)
      plans

no_day_before_sunday :
    (days : List ℤ)
    → All IsWeekday days
    → stop_weekday_selected days (previous_weekday (pos 0)) ≡ false
unfolding stop_weekday_selected previous_weekday ◌-ℤ◌
no_day_before_sunday [] h = refl
no_day_before_sunday (d ∷ days) h = ground (arith, never d, no_day_before_sunday days h.1)
  where
    never : (d : ℤ) → IsWeekday d → int_eq d (negsuc 0) ≡ false
    never (pos n) k = refl
    never (negsuc n) k = ground arith

-- On a Sunday `withinStartSchedule` leaves out every window that began on Saturday and runs past midnight.
pub within_start_schedule_sunday :
    (plans : List Plan) (h m : ℕ)
    → All (λ p. All IsWeekday p.days × IsPlan p) plans
    → within_start_schedule (map schedule_of plans) (moment 7 h m)
      ≡ own_day_is_on plans 7 (h * 60 + m)
within_start_schedule_sunday plans h m k =
    any_plans (moment 7 h m)
      (λ days i.
        is_day days 7 && leb i.start (h * 60 + m) && (ltb (h * 60 + m) i.end || ltb i.end i.start))
      (All IsWeekday) sunday plans k
  where
    sunday_tests :
        (today : Bool) (t : ℕ) (i : MinuteInterval)
        → i.start ≢ i.end
        → ((ltb i.start i.end && leb i.start t && ltb t i.end && today)
            || (ltb i.end i.start && leb i.start t && today)
            || (ltb i.end i.start && ltb t i.end && false))
          ≡ (today && leb i.start t && (ltb t i.end || ltb i.end i.start))
    sunday_tests today t i ne = ground arith

    sunday :
        (days : List ℤ) (i : MinuteInterval)
        → All IsWeekday days
        → IsSpan i
        → window_is_on days (moment 7 h m) (text_of i) ≡ (
            is_day days 7
            && leb i.start (h * 60 + m)
            && (ltb (h * 60 + m) i.end || ltb i.end i.start))
    sunday days i week span =
        window_is_on-span days (moment 7 h m) i span
        ∙ rw (selected_at days (pos 0) 7 refl, no_day_before_sunday days week)
            (sunday_tests (is_day days 7) (h * 60 + m) i span.2)
