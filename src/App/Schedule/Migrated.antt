-- ===== src/App/Schedule/Migrated.antt =====
-- The migration of legacy stop windows, judged by the code that reads its result.
use cdtalive.Prelude.{
  ℕ, ◌+◌, ◌*◌, ◌<◌, ◌≤◌, ◌≡◌, refl, List, [], ◌∷◌, map, Bool, false, ◌&&◌, ◌||◌, not, any, All, ltb,
  leb, arith, ◌∙◌, ap,
}
use cdtalive.Prelude.Int.{ℤ}
use cdtalive.Prelude.Results.{Result, ok, err}
use cdtalive.Prelude.Text.{Text}
use cdtalive.Prelude.Sorting.{sort_by}
use cdtalive.Config.Errors.{ConfigError}
use cdtalive.Config.Intervals.{MinuteInterval}
use cdtalive.Config.Intervals.Complement.{text_of, IsGap}
use cdtalive.Config.Intervals.Laws.{covers}
use cdtalive.Config.Migrate.{
  stop_intervals, windows_for_day, migrate_stop_schedules, first_day_order, with_windows,
  group_days, week,
}
use cdtalive.Config.Migrate.Laws.{is_stopped, windows_for_day_lem}
use cdtalive.Config.Migrate.Groups.{IsCanonical, on_day, group_days-week, group_days-IsCanonical}
use cdtalive.Config.Schedules.{StartSchedule}
use cdtalive.App.Schedule.{
  stop_weekday_selected, previous_weekday, window_is_on, within_start_schedule,
  start_schedule_window_minutes,
}
use cdtalive.App.Schedule.Laws.{start_schedule_window_minutes-window}
use cdtalive.App.Schedule.Meaning.{moment, is_day, selected_at, go_weekday_today, window_is_on-span}

-- A minute lies in a window of its own day.
abbrev holds_minute : ℕ → Result ConfigError (ℕ × ℕ) → Bool
holds_minute m (err _) = false
holds_minute m (ok (s, e)) = leb s m && ltb m e

abbrev some_window_holds : ℕ → List Text → Bool
some_window_holds m ws = any (λ w. holds_minute m (start_schedule_window_minutes w)) ws

gap_minutes :
    (g : MinuteInterval) → IsGap g → start_schedule_window_minutes (text_of g) ≡ ok (g.start, g.end)
gap_minutes g k = start_schedule_window_minutes-window g.start g.end (omega arith) k.1 (omega arith)

module _ (day h m : ℕ) (lo : 1 ≤ day) (hi : day ≤ 7) where
  gap_is_on :
      (days : List ℤ) (g : MinuteInterval)
      → IsGap g
      → window_is_on days (moment day h m) (text_of g) ≡ (is_day days day && covers (h * 60 + m) g)
  gap_is_on days g k =
      window_is_on-span days (moment day h m) g (omega arith, k.1, omega arith)
      ∙ rw (selected_at days (moment day h m).weekday day (go_weekday_today day lo hi)) (
          same_tests (is_day days day)
            (stop_weekday_selected days (previous_weekday (moment day h m).weekday)) (h * 60 + m) g
            k.0)
    where
      same_tests :
          (today before : Bool) (t : ℕ) (i : MinuteInterval)
          → i.start < i.end
          → ((ltb i.start i.end && leb i.start t && ltb t i.end && today)
              || (ltb i.end i.start && leb i.start t && today)
              || (ltb i.end i.start && ltb t i.end && before))
            ≡ (today && (leb i.start t && ltb t i.end))
      same_tests today before t i lt = ground arith

  gaps_are_on :
      (days : List ℤ) (gs : List MinuteInterval)
      → All IsGap gs
      → any (window_is_on days (moment day h m)) (map text_of gs)
        ≡ (is_day days day && some_window_holds (h * 60 + m) (map text_of gs))
  gaps_are_on days [] k = ground arith
  gaps_are_on days (g ∷ gs) k =
      rw (gap_is_on days g k.0, gaps_are_on days gs k.1, gap_minutes g k.0) (ground arith)

  schedules_are_on :
      (ss : List StartSchedule)
      → All (λ s. IsCanonical s.windows) ss
      → within_start_schedule ss (moment day h m)
        ≡ any (on_day (some_window_holds (h * 60 + m)) day) ss
  unfolding within_start_schedule
  schedules_are_on [] k = refl
  schedules_are_on (s ∷ ss) ((gs, same, gaps), k) =
      rw (same, gaps_are_on s.weekdays gs gaps, schedules_are_on ss k)

holds-covers :
    (t : ℕ) (gs : List MinuteInterval)
    → All IsGap gs
    → some_window_holds t (map text_of gs) ≡ any (covers t) gs
holds-covers t [] k = refl
holds-covers t (g ∷ gs) k = rw (gap_minutes g k.0, holds-covers t gs k.1)

day_windows-IsCanonical :
    (windows : List Text) (weekdays : List ℤ) (day : ℕ)
    → IsCanonical (windows_for_day weekdays (stop_intervals windows) day)
day_windows-IsCanonical windows weekdays day =
    let (gs, same, gaps, _) = windows_for_day_lem windows weekdays day in (gs, same, gaps)

-- The migrated schedules turn the instance on in exactly the minutes that the legacy stop windows
-- did not stop, on every day of the week and for any lists of windows and days, whatever texts
-- among them are no windows.
pub within_start_schedule-migrate_stop_schedules :
    (windows : List Text) (weekdays : List ℤ) (day h m : ℕ)
    → 1 ≤ day
    → day ≤ 7
    → h < 24
    → m < 60
    → within_start_schedule (migrate_stop_schedules windows weekdays) (moment day h m)
      ≡ not (is_stopped windows weekdays day (h * 60 + m))
unfolding migrate_stop_schedules
within_start_schedule-migrate_stop_schedules windows weekdays day h m lo hi hh hm =
    let by_day = windows_for_day weekdays (stop_intervals windows) in
    let canonical = day_windows-IsCanonical windows weekdays in
    let (gs, same, gaps, free) = windows_for_day_lem windows weekdays day in
    schedules_are_on day h m lo hi
      (sort_by first_day_order (with_windows (group_days by_day week [])))
      (group_days-IsCanonical by_day canonical)
    ∙ group_days-week (some_window_holds (h * 60 + m)) day by_day canonical refl lo hi
    ∙ ap (some_window_holds (h * 60 + m)) same
    ∙ holds-covers (h * 60 + m) gs gaps
    ∙ free (h * 60 + m) (omega arith)
