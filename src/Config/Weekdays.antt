-- ===== src/Config/Weekdays.antt =====
-- Weekday lists in internal/config/config.go: `ValidateStopWeekdays` and the default list.
pub mod Laws
use cdtalive.Prelude.{List, [], ◌∷◌, ◌++◌, Bool, true, false, ◌||◌, any, if◌then◌else◌}
use cdtalive.Prelude.Int.{ℤ, pos, ltb_ℤ, leb_ℤ, int_eq}
use cdtalive.Prelude.Results.{Result, ok, err, ◌>>=◌}
use cdtalive.Prelude.Sorting.{sort_by}
use cdtalive.Config.Errors.{ConfigError, invalid_weekday}

-- The loop of `ValidateStopWeekdays`. The set `seen` holds the members of `normalized`.
unfoldable pub collect_weekdays : List ℤ → List ℤ → Result ConfigError (List ℤ)
collect_weekdays normalized [] = ok normalized
collect_weekdays normalized (weekday ∷ rest) =
    let next =
      collect_weekdays
        (if any (int_eq weekday) normalized then normalized else normalized ++ weekday ∷ []) rest in
    if ltb_ℤ weekday (pos 1) || ltb_ℤ (pos 7) weekday then err (invalid_weekday weekday) else next

unfoldable pub validate_stop_weekdays : List ℤ → Result ConfigError (List ℤ)
unfolding collect_weekdays sort_by
validate_stop_weekdays weekdays = do
  normalized ← collect_weekdays [] weekdays
  ok (sort_by leb_ℤ normalized)

abbrev pub default_stop_weekdays : List ℤ
default_stop_weekdays = pos 1 ∷ pos 2 ∷ pos 3 ∷ pos 4 ∷ pos 5 ∷ pos 6 ∷ pos 7 ∷ []
