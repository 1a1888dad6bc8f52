-- ===== src/Config/Intervals.antt =====
-- Intervals of minutes in internal/config/config.go: `mergeIntervals`, `complementWindows` and
-- `formatScheduleWindow`.
pub mod Laws
pub mod Complement
use cdtalive.Prelude.{ℕ, ◌/◌, ◌%◌, List, [], ◌∷◌, ◌++◌, Bool, ltb, leb, if◌then◌else◌, length}
use cdtalive.Prelude.Int.{pos}
use cdtalive.Prelude.Sorting.{sort_by}
use cdtalive.Prelude.Text.{Text, format_02d}
use mathlib.Core.List.{reverse}

pub record MinuteInterval : Type 0 where
  pub start : ℕ
  pub end : ℕ

abbrev pub starts_first : MinuteInterval → MinuteInterval → Bool
starts_first a b = leb a.start b.start

-- One round of the loop in `mergeIntervals`; the merged intervals are held last one first.
abbrev pub merge_step : List MinuteInterval → MinuteInterval → List MinuteInterval
merge_step [] i = if leb i.end i.start then [] else i ∷ []
merge_step (last ∷ merged) i =
    if leb i.end i.start
    then last ∷ merged
    else if ltb last.end i.start
    then i ∷ last ∷ merged
    else if ltb last.end i.end
    then record last { end = i.end } ∷ merged
    else last ∷ merged

unfoldable pub merge_onto : List MinuteInterval → List MinuteInterval → List MinuteInterval
merge_onto merged [] = reverse merged
merge_onto merged (i ∷ rest) = merge_onto (merge_step merged i) rest

unfoldable pub merge_intervals : List MinuteInterval → List MinuteInterval
unfolding sort_by
merge_intervals intervals =
    if ltb (length intervals) 2 then intervals else merge_onto [] (sort_by starts_first intervals)

unfoldable pub format_schedule_window : ℕ → ℕ → Text
format_schedule_window start end =
    format_02d (pos (start / 60))
    ++ b':' ∷ format_02d (pos (start % 60))
    ++ b'-' ∷ format_02d (pos (end / 60))
    ++ b':' ∷ format_02d (pos (end % 60))

-- The loop of `complementWindows`, from its variable `start` on.
unfoldable pub complement_from : ℕ → List MinuteInterval → List Text
complement_from start [] = if ltb start 1440 then format_schedule_window start 1440 ∷ [] else []
complement_from start (stop ∷ stops) =
    let rest = complement_from (if ltb start stop.end then stop.end else start) stops in
    if ltb start stop.start then format_schedule_window start stop.start ∷ rest else rest

unfoldable pub complement_windows : List MinuteInterval → List Text
complement_windows stops = complement_from 0 stops
