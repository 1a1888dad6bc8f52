-- ===== src/Config/Schedules.antt =====
-- Start schedules in internal/config/config.go: `StartSchedule` and `ValidateStartSchedules`.
pub mod Laws
use cdtalive.Prelude.{List, [], ◌∷◌, Bool, true, false, ◌||◌, if◌then◌else◌}
use cdtalive.Prelude.Int.{ℤ}
use cdtalive.Prelude.Results.{Result, ok, ◌>>=◌}
use cdtalive.Prelude.Text.{Text}
use cdtalive.Config.Errors.{ConfigError}
use cdtalive.Config.Weekdays.{validate_stop_weekdays}
use cdtalive.Config.Windows.{validate_start_windows}

pub record StartSchedule : Type 0 where
  pub weekdays : List ℤ
  pub windows : List Text

abbrev pub is_empty {ℓ} : {A : Type ℓ} → List A → Bool
is_empty [] = true
is_empty (x ∷ xs) = false

-- A schedule without days or without windows is dropped.
unfoldable pub validate_start_schedules :
    List StartSchedule → Result ConfigError (List StartSchedule)
validate_start_schedules [] = ok []
validate_start_schedules (schedule ∷ rest) = do
  weekdays ← validate_stop_weekdays schedule.weekdays
  windows ← validate_start_windows schedule.windows
  normalized ← validate_start_schedules rest
  ok (
      if is_empty weekdays || is_empty windows
      then normalized
      else record { weekdays = weekdays; windows = windows } ∷ normalized)
