-- ===== src/Config/Errors.antt =====
-- The errors that internal/config/config.go returns, one constructor for each message, with the
-- values that the message prints.
use cdtalive.Prelude.{String, List}
use cdtalive.Prelude.Int.{ℤ}
use cdtalive.Prelude.Text.{Text}

pub data ConfigError : Type 0 where
  invalid_window : Text → ConfigError
  invalid_start_window : Text → ConfigError
  invalid_weekday : ℤ → ConfigError
  invalid_power_mode : ConfigError
  invalid_weekday_list : ConfigError
  not_a_number : String → ConfigError
  missing_fields : List String → ConfigError
  already_initialized : ConfigError
  interval_too_short : ConfigError
  bad_file : ConfigError
  bad_start_schedules : ConfigError
  io_error : ConfigError
  scan_failed : ConfigError
  index_out_of_range : ConfigError
