-- ===== src/Config/Windows.antt =====
-- Time windows in internal/config/config.go: `ValidateStopWindows` and `validateStartWindows`.
pub mod Laws
use cdtalive.Prelude.{List, ◌∷◌, ◌++◌, true, false, ◌==◌}
use cdtalive.Prelude.Results.{Result, ok, err, ◌>>=◌, ◌>>◌, fail_if, or_err, traverse}
use cdtalive.Prelude.Text.{Text, text_eq, split_two, trim_space}
use cdtalive.Config.Errors.{ConfigError, invalid_window, invalid_start_window}
use cdtalive.Config.Clock.{normalize_clock, normalize_schedule_clock, schedule_clock_minutes}

-- One round of the loop in `ValidateStopWindows`.
unfoldable pub normalize_stop_window : Text → Result ConfigError Text
normalize_stop_window raw = do
  parts ← or_err (split_two b'-' raw) (invalid_window raw)
  start ← or_err (normalize_clock (trim_space parts.0)) (invalid_window raw)
  end ← or_err (normalize_clock (trim_space parts.1)) (invalid_window raw)
  fail_if (text_eq start end) (invalid_window raw)
  ok (start ++ b'-' ∷ end)

unfoldable pub validate_stop_windows : List Text → Result ConfigError (List Text)
validate_stop_windows windows = traverse normalize_stop_window windows

-- One round of the loop in `validateStartWindows`.
unfoldable pub normalize_start_window : Text → Result ConfigError Text
normalize_start_window raw = do
  parts ← or_err (split_two b'-' raw) (invalid_start_window raw)
  start ← or_err (normalize_schedule_clock (trim_space parts.0) false) (invalid_start_window raw)
  end ← or_err (normalize_schedule_clock (trim_space parts.1) true) (invalid_start_window raw)
  fail_if (schedule_clock_minutes start == schedule_clock_minutes end) (invalid_start_window raw)
  ok (start ++ b'-' ∷ end)

unfoldable pub validate_start_windows : List Text → Result ConfigError (List Text)
validate_start_windows windows = traverse normalize_start_window windows
