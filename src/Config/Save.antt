-- ===== src/Config/Save.antt =====
-- `Init` and `SaveSettings` in internal/config/config.go, and what they call.
pub mod Write
pub mod Laws
pub mod Init
pub mod Reload
use cdtalive.Prelude.{List, ◌++◌, not, none, some, String}
use cdtalive.Prelude.Actions.{pure, lift, gets, ◌>>=◌, ◌>>◌}
use cdtalive.Prelude.Floats.{FloatOps}
use cdtalive.Prelude.Int.{pos, ltb_ℤ}
use cdtalive.Prelude.Results.{or_err, fail_if}
use cdtalive.Prelude.Text.{trim_space}
use cdtalive.Config.Disk.{DiskAction, Yaml, exists_in, read_file, write_file, chmod, mkdir_all}
use cdtalive.Config.Errors.{bad_file, already_initialized, missing_fields, interval_too_short}
use cdtalive.Config.Migrate.{migrate_stop_schedules}
use cdtalive.Config.Schedules.{StartSchedule, is_empty, validate_start_schedules}
use cdtalive.Config.Settings.{Config, defaults, list_of, missing_if, validate_power_mode}
use cdtalive.Config.Weekdays.{default_stop_weekdays, validate_stop_weekdays}

-- The schedules of a configuration, or the legacy windows migrated.
abbrev pub schedules_or_migrated : {F : Type 0} → Config F → List StartSchedule
schedules_or_migrated cfg = elim cfg.daily_start_schedules [
  | some schedules ↦ schedules
  | none ↦
      migrate_stop_schedules (list_of cfg.daily_stop_windows)
        (elim cfg.daily_stop_weekdays [ none ↦ default_stop_weekdays | some days ↦ days ])
]

module _ {F : Type 0} ⦃ops : FloatOps F⦄ (yaml : Yaml F) where
  unfoldable pub write : Config F → DiskAction (Unit {0})
  unfolding mkdir_all write_file chmod
  write cfg = do text ← lift (or_err (yaml.marshal cfg) bad_file); mkdir_all; write_file text; chmod

  -- The environment is left out, so that it is not written into the file.
  unfoldable pub load_file_only : DiskAction (Config F)
  load_file_only = do
    text ← read_file
    cfg ← lift (or_err (yaml.unmarshal text defaults) bad_file)
    schedules ← lift (validate_start_schedules (schedules_or_migrated cfg))
    pure (record cfg {
      daily_stop_windows = some (list_of cfg.daily_stop_windows);
      daily_stop_weekdays =
          some (elim cfg.daily_stop_weekdays [ none ↦ default_stop_weekdays | some days ↦ days ]);
      daily_start_schedules = some schedules;
    })

  unfoldable pub save_settings :
      List StartSchedule → String → DiskAction (List StartSchedule × String)
  unfolding load_file_only write
  save_settings schedules power_mode = do
    normalized ← lift (validate_start_schedules schedules)
    lift (validate_power_mode power_mode)
    cfg ← load_file_only
    write (record cfg { daily_start_schedules = some normalized; power_mode = power_mode })
    pure (normalized, power_mode)

  abbrev pub blank_fields : Config F → List String
  blank_fields cfg =
      missing_if (is_empty (trim_space cfg.access_key_id)) "access_key_id"
      ++ (missing_if (is_empty (trim_space cfg.access_key_secret)) "access_key_secret"
          ++ (missing_if (is_empty (trim_space cfg.ecs_instance_id)) "ecs_instance_id"
              ++ missing_if (is_empty (trim_space cfg.region_id)) "region_id"))

  unfoldable pub init : Config F → DiskAction (Unit {0})
  unfolding write
  init cfg = do
    present ← gets exists_in
    lift (fail_if present already_initialized)
    lift (fail_if (not (is_empty (blank_fields cfg))) (missing_fields (blank_fields cfg)))
    lift (fail_if (ltb_ℤ cfg.run_interval_seconds (pos 60)) interval_too_short)
    weekdays ← lift (
        validate_stop_weekdays
          (elim cfg.daily_stop_weekdays [ none ↦ default_stop_weekdays | some ds ↦ ds ]))
    schedules ← lift (
        validate_start_schedules
          (schedules_or_migrated (record cfg { daily_stop_weekdays = some weekdays })))
    write (record cfg {
      access_key_id = trim_space cfg.access_key_id;
      access_key_secret = trim_space cfg.access_key_secret;
      ecs_instance_id = trim_space cfg.ecs_instance_id;
      region_id = trim_space cfg.region_id;
      daily_stop_windows = some (list_of cfg.daily_stop_windows);
      daily_stop_weekdays = some weekdays;
      daily_start_schedules = some schedules;
      power_mode = "auto";
    })
