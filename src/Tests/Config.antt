-- ===== src/Tests/Config.antt =====
-- The configuration at concrete inputs.
use cdtalive.Prelude.{true, none, ◌⊎◌, ◌≡◌, refl, ℕ, List, [], ◌∷◌, Bool, any, All, arith, some}
use cdtalive.Prelude.Int.{ℤ, pos, negsuc}
use cdtalive.Prelude.Results.{ok, err, Ensures, traverse}
use cdtalive.Prelude.Sorting.{sort_by}
use cdtalive.Prelude.Text.{Text, codes, text_eq, split_two, split, trim_space, atoi, format_02d}
use cdtalive.Config.Clock.{normalize_schedule_clock, normalize_clock, schedule_clock_minutes}
use cdtalive.Config.Windows.{validate_start_windows, normalize_start_window}
use cdtalive.Config.Errors.{invalid_weekday, io_error}
use cdtalive.Config.Intervals.{MinuteInterval, merge_intervals}
use cdtalive.Config.Intervals.Laws.{covers, IsSorted, merge_intervals_lem}
use cdtalive.Prelude.Hoare.{Post}
use cdtalive.Config.Save.{init, save_settings, load_file_only, write}
use cdtalive.Config.Save.Reload.{completed, save_settings-load}
use cdtalive.Config.Save.Init.{IsInitialized, IsBegun, init_result}
use cdtalive.Config.Settings.{Config, defaults, validate_power_mode}
use cdtalive.Config.Disk.{
  exists_in, succeeds, cut_after, Disk, Yaml, write_file, chmod, mkdir_all, disk_call,
}
use cdtalive.Config.Save.Laws.{saved, IsSaved, IsOldOrSaved, save_settings_result}
use cdtalive.Config.Load.{load}
use cdtalive.Config.Load.Laws.{IsLoaded, load-IsLoaded}
use cdtalive.Config.Migrate.{
  windows_for_day, stop_intervals, with_windows, group_days, week, first_day_order,
}
use cdtalive.Config.Migrate.Groups.{IsCanonical, on_day, group_days-week}
use cdtalive.Config.Migrate.Laws.{windows_for_day_lem}
use cdtalive.Config.Schedules.{StartSchedule, validate_start_schedules}
use cdtalive.Config.Schedules.Laws.{IsNormal, validate_start_schedules_idem}
use cdtalive.Config.Weekdays.{default_stop_weekdays, validate_stop_weekdays}
use cdtalive.Config.Weekdays.Laws.{
  IsValidatedFrom, validate_stop_weekdays-IsValidatedFrom, error_of, validate_stop_weekdays_error,
}
use cdtalive.Tests.Fixtures.{whole, all_day, env, yaml, disk}

load-IsLoaded_example : Ensures IsLoaded ((load env yaml disk).0)
load-IsLoaded_example = load-IsLoaded env yaml disk

abbrev raw_schedules : List StartSchedule
raw_schedules =
    record { weekdays = pos 7 ∷ pos 1 ∷ pos 7 ∷ []; windows = codes " 9:05 - 24:00 " ∷ [] }
    ∷ record { weekdays = []; windows = codes "08:00-10:00" ∷ [] }
    ∷ []

abbrev schedules : List StartSchedule
schedules = record { weekdays = pos 1 ∷ pos 7 ∷ []; windows = codes "09:05-24:00" ∷ [] } ∷ []

schedules_validated : validate_start_schedules raw_schedules ≡ ok schedules
unfolding validate_start_schedules validate_stop_weekdays validate_start_windows traverse
    normalize_start_window split_two normalize_schedule_clock normalize_clock split trim_space atoi
    schedule_clock_minutes format_02d
schedules_validated = refl

validate_start_schedules_idem_example :
    All IsNormal schedules × (validate_start_schedules schedules ≡ ok schedules)
validate_start_schedules_idem_example =
    validate_start_schedules_idem raw_schedules schedules schedules_validated

abbrev days : List ℤ
days = pos 7 ∷ pos 1 ∷ pos 7 ∷ pos 8 ∷ negsuc 0 ∷ []

validate_stop_weekdays-IsValidatedFrom_example :
    Ensures
      (IsValidatedFrom (pos 7 ∷ pos 1 ∷ pos 7 ∷ []))
      (validate_stop_weekdays (pos 7 ∷ pos 1 ∷ pos 7 ∷ []))
validate_stop_weekdays-IsValidatedFrom_example =
    validate_stop_weekdays-IsValidatedFrom (pos 7 ∷ pos 1 ∷ pos 7 ∷ [])

validate_stop_weekdays_error_example :
    error_of (validate_stop_weekdays days) ≡ some (invalid_weekday (pos 8))
validate_stop_weekdays_error_example = validate_stop_weekdays_error days

abbrev overlapping : List MinuteInterval
overlapping =
    record { start = 600; end = 700 }
    ∷ record { start = 0; end = 60 }
    ∷ record { start = 650; end = 720 }
    ∷ []

merge_intervals_lem_example :
    ((m : ℕ) → any (covers m) (merge_intervals overlapping) ≡ any (covers m) overlapping)
    × IsSorted (merge_intervals overlapping)
merge_intervals_lem_example = merge_intervals_lem overlapping

abbrev night : List Text
night = codes "22:00-06:00" ∷ []

abbrev night_windows : ℕ → List Text
night_windows = windows_for_day (pos 5 ∷ []) (stop_intervals night)

night_windows-IsCanonical : (day : ℕ) → IsCanonical (night_windows day)
night_windows-IsCanonical day =
    let (gs, same, gaps, _) = windows_for_day_lem night (pos 5 ∷ []) day in (gs, same, gaps)

abbrev opens_at_six : List Text → Bool
opens_at_six windows = any (λ w. text_eq w (codes "06:00-24:00")) windows

-- The rest of Friday's night is left out on Saturday.
group_days-week_example :
    any
      (on_day opens_at_six 6)
      (sort_by first_day_order (with_windows (group_days night_windows week [])))
    ≡ opens_at_six (night_windows 6)
group_days-week_example =
    group_days-week opens_at_six 6 night_windows night_windows-IsCanonical refl (omega arith)
      (omega arith)

save_settings_result_example :
    Post
      (IsSaved yaml disk raw_schedules "off")
      (IsOldOrSaved yaml disk raw_schedules "off")
      (save_settings yaml raw_schedules "off" disk)
save_settings_result_example = save_settings_result yaml disk raw_schedules "off"

abbrev first_config : Config ℤ
first_config = record (defaults {F = ℤ}) {
  access_key_id = codes " key ";
  access_key_secret = codes "secret";
  ecs_instance_id = codes "i-1";
}

abbrev set_config : Config ℤ
set_config = record first_config { daily_start_schedules = some [] }

abbrev no_disk : Disk
no_disk = record { file = none; faults = [] }

init_result_example :
    Post
      (λ _. IsInitialized yaml first_config none)
      (λ d. (d.file ≡ none) ⊎ IsBegun yaml first_config none d)
      (init yaml first_config no_disk)
init_result_example = init_result yaml first_config no_disk

-- The write of the file breaks off, and a file is left.
init_breaks_off :
    let ended =
      init yaml set_config (record { file = none; faults = succeeds ∷ cut_after 3 ∷ [] }) in
    (ended.0 ≡ err io_error) × (exists_in ended.1 ≡ true)
unfolding init write validate_stop_weekdays validate_start_schedules trim_space traverse mkdir_all
    write_file chmod disk_call
init_breaks_off = (refl, refl)

-- A file that stands for one configuration, forced on.
abbrev kept_on : Config ℤ
kept_on = record (defaults {F = ℤ}) {
  daily_stop_windows = some [];
  daily_stop_weekdays = some default_stop_weekdays;
  daily_start_schedules = some (all_day ∷ []);
  power_mode = "on";
}

abbrev yaml_on : Yaml ℤ
yaml_on = record yaml { unmarshal = λ text cfg. some kept_on }

save_settings-load_example :
    (load env yaml_on (save_settings yaml_on (all_day ∷ []) "on" disk).1).0
    ≡ ok (completed (saved yaml_on disk kept_on (all_day ∷ []) "on") default_stop_weekdays)
unfolding save_settings load_file_only validate_start_schedules validate_stop_weekdays
    validate_start_windows normalize_start_window traverse normalize_clock normalize_schedule_clock
    schedule_clock_minutes split_two split trim_space atoi format_02d validate_power_mode write
    write_file chmod mkdir_all disk_call
save_settings-load_example =
    save_settings-load env yaml_on (λ key. refl) (all_day ∷ []) "on" disk (all_day ∷ [], "on")
      kept_on default_stop_weekdays refl refl refl (λ text e. refl)
