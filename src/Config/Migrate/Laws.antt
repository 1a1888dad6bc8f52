-- ===== src/Config/Migrate/Laws.antt =====
-- The windows that `migrateStopSchedules` of internal/config/config.go computes for a day.
use cdtalive.Prelude.{
  ℕ, ◌<◌, ◌≡◌, refl, ap, ◌∙◌, List, [], ◌∷◌, map, Bool, true, false, ◌&&◌, ◌||◌, not, none, some,
  any, All, arith, ltb, leb, Option,
}
use cdtalive.Prelude.Int.{ℤ}
use cdtalive.Prelude.Options.{>>=-eq-some}
use cdtalive.Prelude.Text.{Text, split_two, trim_space}
use cdtalive.Config.Clock.{normalize_clock, schedule_clock_minutes}
use cdtalive.Config.Clock.Laws.{normalize_clock-IsClock, schedule_clock_minutes-clock}
use cdtalive.Config.Intervals.{MinuteInterval}
use cdtalive.Config.Intervals.Laws.{covers, InDay}
use cdtalive.Config.Intervals.Complement.{text_of, IsGap, complement_windows-merge_intervals}
use cdtalive.Config.Migrate.{
  is_selected, stop_interval, stop_intervals, day_stops, day_before, windows_for_day,
}

-- A minute of a day is stopped by a window that holds it on that day, or that began on the day
-- before and runs past midnight.
abbrev pub stopped_by : Bool → Bool → ℕ → ℕ × ℕ → Bool
stopped_by today yesterday m (s, e) =
    (ltb s e && (today && (leb s m && ltb m e)))
    || (ltb e s && ((today && leb s m) || (yesterday && ltb m e)))

day_stops-covers :
    (today yesterday : Bool) (m : ℕ) (is : List (ℕ × ℕ))
    → m < 1440
    → any (covers m) (day_stops today yesterday is) ≡ any (stopped_by today yesterday m) is
unfolding day_stops
day_stops-covers today yesterday m [] h = refl
day_stops-covers true true m ((s, e) ∷ is) h = ground (arith, day_stops-covers true true m is h)
day_stops-covers true false m ((s, e) ∷ is) h = ground (arith, day_stops-covers true false m is h)
day_stops-covers false true m ((s, e) ∷ is) h = ground (arith, day_stops-covers false true m is h)
day_stops-covers false false m ((s, e) ∷ is) h = ground (arith, day_stops-covers false false m is h)

-- Both ends are minutes of the day.
abbrev IsMinutes : ℕ × ℕ → Type 0
IsMinutes (s, e) = (s < 1440) × (e < 1440)

day_stops-InDay :
    (today yesterday : Bool) (is : List (ℕ × ℕ))
    → All IsMinutes is
    → All InDay (day_stops today yesterday is)
unfolding day_stops
day_stops-InDay today yesterday [] h = tt
day_stops-InDay today yesterday ((s, e) ∷ is) h =
    ground (arith, day_stops-InDay today yesterday is h.1)

stop_interval-IsMinutes : (raw : Text) (i : ℕ × ℕ) → stop_interval raw ≡ some i → IsMinutes i
unfolding stop_interval
stop_interval-IsMinutes raw i e =
    let (parts, _, e₁) = >>=-eq-some (split_two b'-' raw) _ e in
    let (start, es, e₂) = >>=-eq-some (normalize_clock (trim_space parts.0)) _ e₁ in
    let (end, ee, e₃) = >>=-eq-some (normalize_clock (trim_space parts.1)) _ e₂ in
    let (s, hs, cs) = normalize_clock-IsClock (trim_space parts.0) start es in
    let (t, ht, ct) = normalize_clock-IsClock (trim_space parts.1) end ee in
    let ms : schedule_clock_minutes start ≡ s =
      ap schedule_clock_minutes cs ∙ schedule_clock_minutes-clock s (omega arith) in
    let mt : schedule_clock_minutes end ≡ t =
      ap schedule_clock_minutes ct ∙ schedule_clock_minutes-clock t (omega arith) in
    ground arith

abbrev IsMinutes? : Option (ℕ × ℕ) → Type 0
IsMinutes? none = Unit
IsMinutes? (some i) = IsMinutes i

stop_interval_bounds :
    (o : Option (ℕ × ℕ)) → ((i : ℕ × ℕ) → o ≡ some i → IsMinutes i) → IsMinutes? o
stop_interval_bounds none h = tt
stop_interval_bounds (some i) h = h i refl

stop_intervals-IsMinutes : (ws : List Text) → All IsMinutes (stop_intervals ws)
unfolding stop_intervals
stop_intervals-IsMinutes [] = tt
stop_intervals-IsMinutes (w ∷ ws) = ground (
  arith,
  stop_interval_bounds (stop_interval w) (stop_interval-IsMinutes w),
  stop_intervals-IsMinutes ws,
)

-- A minute of a day falls into one of the legacy stop windows.
abbrev pub is_stopped : List Text → List ℤ → ℕ → ℕ → Bool
is_stopped windows weekdays day m =
    any (stopped_by (is_selected weekdays day) (is_selected weekdays (day_before day)) m)
      (stop_intervals windows)

-- A day's windows are windows of that day alone, and hold the minutes that are not stopped.
pub windows_for_day_lem :
    (windows : List Text) (weekdays : List ℤ) (day : ℕ)
    → (free : List MinuteInterval) × (windows_for_day weekdays (stop_intervals windows) day
        ≡ map text_of free)
      × All IsGap free
      × ((m : ℕ) → m < 1440 → any (covers m) free ≡ not (is_stopped windows weekdays day m))
unfolding windows_for_day
windows_for_day_lem windows weekdays day =
    let today = is_selected weekdays day in
    let yesterday = is_selected weekdays (day_before day) in
    let is = stop_intervals windows in
    let (free, same, gaps, free_iff) =
      complement_windows-merge_intervals (day_stops today yesterday is)
        (day_stops-InDay today yesterday is (stop_intervals-IsMinutes windows)) in
    (free, same, gaps, λ m h. free_iff m h ∙ ap not (day_stops-covers today yesterday m is h))
