-- ===== src/Config/Settings.antt =====
-- `Config` in internal/config/config.go, its defaults and the checks of single fields. A slice that
-- may be nil is an optional list.
use cdtalive.Prelude.{
  List, [], ◌∷◌, ◌++◌, Bool, ◌&&◌, not, Option, none, some, String, str_eq, if◌then◌else◌,
}
use cdtalive.Prelude.Floats.{FloatOps}
use cdtalive.Prelude.Int.{ℤ, pos}
use cdtalive.Prelude.Results.{Result, fail_if}
use cdtalive.Prelude.Text.{Text, codes}
use cdtalive.Config.Errors.{ConfigError, invalid_power_mode, missing_fields}
use cdtalive.Config.Schedules.{StartSchedule, is_empty}
use cdtalive.Config.Weekdays.{default_stop_weekdays}

pub record Config (F : Type 0) : Type 0 where
  pub access_key_id : Text
  pub access_key_secret : Text
  pub ecs_instance_id : Text
  pub region_id : Text
  pub traffic_threshold_gb : F
  pub balance_threshold : F
  pub run_interval_seconds : ℤ
  pub daily_stop_windows : Option (List Text)
  pub daily_stop_weekdays : Option (List ℤ)
  pub daily_start_schedules : Option (List StartSchedule)
  pub power_mode : String

abbrev pub defaults : {F : Type 0} ⦃ops : FloatOps F⦄ → Config F
defaults ⦃ops⦄ = record {
  access_key_id = [];
  access_key_secret = [];
  ecs_instance_id = [];
  region_id = codes "cn-hongkong";
  traffic_threshold_gb = ops.of_int (pos 190);
  balance_threshold = ops.of_int (pos 1);
  run_interval_seconds = pos 300;
  daily_stop_windows = some [];
  daily_stop_weekdays = some default_stop_weekdays;
  daily_start_schedules = none;
  power_mode = "auto";
}

unfoldable pub validate_power_mode : String → Result ConfigError (Unit {0})
validate_power_mode mode =
    fail_if (not (str_eq mode "on") && not (str_eq mode "auto") && not (str_eq mode "off"))
      invalid_power_mode

-- The list behind a slice that may be nil.
abbrev pub list_of {ℓ} : {A : Type ℓ} → Option (List A) → List A
list_of none = []
list_of (some xs) = xs

abbrev pub missing_if : Bool → String → List String
missing_if b name = if b then name ∷ [] else []

unfoldable pub validate : {F : Type 0} → Config F → Result ConfigError (Unit {0})
validate cfg =
    let missing =
      missing_if (is_empty cfg.access_key_id) "access_key_id"
      ++ (missing_if (is_empty cfg.access_key_secret) "access_key_secret"
          ++ missing_if (is_empty cfg.ecs_instance_id) "ecs_instance_id") in
    fail_if (not (is_empty missing)) (missing_fields missing)
