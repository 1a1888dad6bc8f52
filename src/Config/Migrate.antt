-- ===== src/Config/Migrate.antt =====
-- The migration of legacy stop windows in internal/config/config.go: `migrateStopSchedules`.
pub mod Laws
pub mod Groups
use cdtalive.Prelude.{
  ℕ, ◌-◌, List, [], ◌∷◌, ◌++◌, Bool, true, false, ◌&&◌, not, none, some, any, ltb, ◌==◌,
  if◌then◌else◌,
}
use cdtalive.Prelude.Int.{ℤ, pos, leb_ℤ, int_eq}
use cdtalive.Prelude.Options.{◌>>=◌}
use cdtalive.Prelude.Sorting.{sort_by}
use cdtalive.Prelude.Text.{Text, text_eq, split_two, trim_space, join}
use cdtalive.Config.Clock.{normalize_clock, schedule_clock_minutes}
use cdtalive.Config.Intervals.{MinuteInterval, merge_intervals, complement_windows}
use cdtalive.Config.Schedules.{StartSchedule, is_empty}
use mathlib.Core.Option.{Option}

-- The set `selected`: the days of the list that are days of the week.
unfoldable pub is_selected : List ℤ → ℕ → Bool
is_selected weekdays day =
    any (λ d. leb_ℤ (pos 1) d && leb_ℤ d (pos 7) && int_eq (pos day) d) weekdays

-- One stop window in minutes; a text that is no window is passed over.
unfoldable pub stop_interval : Text → Option (ℕ × ℕ)
stop_interval raw = do
  parts ← split_two b'-' raw
  start ← normalize_clock (trim_space parts.0)
  end ← normalize_clock (trim_space parts.1)
  if text_eq start end
      then none
      else some (schedule_clock_minutes start, schedule_clock_minutes end)

unfoldable pub stop_intervals : List Text → List (ℕ × ℕ)
stop_intervals [] = []
stop_intervals (w ∷ ws) =
    let rest = stop_intervals ws in elim (stop_interval w) [ none ↦ rest | some i ↦ i ∷ rest ]

-- The stops of one day, with the part of the day before that runs past midnight.
unfoldable pub day_stops : Bool → Bool → List (ℕ × ℕ) → List MinuteInterval
day_stops today yesterday [] = []
day_stops today yesterday ((start, end) ∷ rest) =
    (if ltb start end
      then (if today then record { start = start; end = end } ∷ [] else [])
      else if ltb end start
      then (if today then record { start = start; end = 1440 } ∷ [] else [])
        ++ (if yesterday then record { start = 0; end = end } ∷ [] else [])
      else [])
    ++ day_stops today yesterday rest

abbrev pub day_before : ℕ → ℕ
day_before day = if day - 1 == 0 then 7 else day - 1

unfoldable pub windows_for_day : List ℤ → List (ℕ × ℕ) → ℕ → List Text
windows_for_day weekdays intervals day = complement_windows (
    merge_intervals
      (day_stops (is_selected weekdays day) (is_selected weekdays (day_before day)) intervals))

-- The map `grouped`, from the joined windows to the schedule of the days that have them.
abbrev pub Groups : Type 0
Groups = List (Text × StartSchedule)

unfoldable pub add_to_group : Text → ℕ → List Text → Groups → Groups
add_to_group key day windows [] = (key, record { weekdays = pos day ∷ []; windows = windows }) ∷ []
add_to_group key day windows ((k, s) ∷ groups) =
    if text_eq k key
    then (k, record s { weekdays = s.weekdays ++ pos day ∷ [] }) ∷ groups
    else (k, s) ∷ add_to_group key day windows groups

unfoldable pub group_days : (ℕ → List Text) → List ℕ → Groups → Groups
unfolding add_to_group
group_days windows [] groups = groups
group_days windows (day ∷ days) groups =
    group_days windows days (add_to_group (join (b',' ∷ []) (windows day)) day (windows day) groups)

-- The values of `grouped` that have a window. Their order in the map is lost in the sort below,
-- since no two have the same first day.
unfoldable pub with_windows : Groups → List StartSchedule
with_windows [] = []
with_windows ((k, s) ∷ groups) =
    let rest = with_windows groups in if is_empty s.windows then rest else s ∷ rest

abbrev first_day : StartSchedule → ℤ
first_day s = elim s.weekdays [ [] ↦ pos 0 | d ∷ _ ↦ d ]

abbrev pub first_day_order : StartSchedule → StartSchedule → Bool
first_day_order a b = leb_ℤ (first_day a) (first_day b)

abbrev pub week : List ℕ
week = 1 ∷ 2 ∷ 3 ∷ 4 ∷ 5 ∷ 6 ∷ 7 ∷ []

unfoldable pub migrate_stop_schedules : List Text → List ℤ → List StartSchedule
unfolding is_selected stop_interval stop_intervals day_stops windows_for_day group_days with_windows
migrate_stop_schedules windows weekdays =
    sort_by first_day_order
      (with_windows (group_days (windows_for_day weekdays (stop_intervals windows)) week []))
