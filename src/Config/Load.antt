-- ===== src/Config/Load.antt =====
-- `Load` in internal/config/config.go: the file, the environment over it, and the migration of
-- legacy stop windows.
pub mod Laws
use cdtalive.Prelude.{List, ◌&&◌, not, none, some, if◌then◌else◌}
use cdtalive.Prelude.Actions.{pure, lift, ◌>>=◌, ◌>>◌}
use cdtalive.Prelude.Floats.{FloatOps}
use cdtalive.Prelude.Results
use cdtalive.Prelude.Text.{Text}
use cdtalive.Prelude.Results.{Result, ok, or_err}
use cdtalive.Config.Disk.{DiskAction, Yaml, read_file, write_file, chmod}
use cdtalive.Config.Environment.{Env, is_set, apply_environment}
use cdtalive.Config.Errors.{ConfigError, bad_file}
use cdtalive.Config.Migrate.{migrate_stop_schedules}
use cdtalive.Config.Schedules.{StartSchedule, validate_start_schedules}
use cdtalive.Config.Settings.{Config, defaults, list_of, validate_power_mode}

module _ {F : Type 0} ⦃ops : FloatOps F⦄ (env : Env) (yaml : Yaml F) where
  unfoldable pub persist_migrated_start_schedules : List StartSchedule → DiskAction (Unit {0})
  unfolding write_file chmod
  persist_migrated_start_schedules schedules = do
    text ← read_file
    migrated ← lift (or_err (yaml.set_start_schedules text schedules) bad_file)
    write_file migrated
    chmod

  -- Which schedules hold: those of the file or the environment, or the legacy windows migrated. What
  -- was migrated because the file had none is written back.
  unfoldable pub effective_schedules : Config F → DiskAction (List StartSchedule)
  unfolding persist_migrated_start_schedules
  effective_schedules cfg =
      let migrated =
        migrate_stop_schedules (list_of cfg.daily_stop_windows) (list_of cfg.daily_stop_weekdays) in
      let replaced = is_set env "CDT_DAILY_START_SCHEDULES" in
      if is_set env "CDT_DAILY_STOP_WINDOWS" && not replaced
      then pure migrated
      else elim cfg.daily_start_schedules [
        | some schedules ↦ pure schedules
        | none ↦
            if replaced
            then pure migrated
            else (do persist_migrated_start_schedules migrated; pure migrated)
      ]

  -- The file's text with the environment over it.
  unfoldable pub decode : Text → Result ConfigError (Config F)
  decode text =
      Results.◌>>=◌ (or_err (yaml.unmarshal text defaults) bad_file) (apply_environment env yaml)

  unfoldable pub with_schedules : Config F → List StartSchedule → Result ConfigError (Config F)
  with_schedules cfg schedules = Results.◌>>=◌ (validate_start_schedules schedules) λ normalized.
      Results.◌>>◌ (validate_power_mode cfg.power_mode)
        (ok (record cfg { daily_start_schedules = some normalized }))

  unfoldable pub load : DiskAction (Config F)
  unfolding effective_schedules decode with_schedules
  load = do
    text ← read_file
    cfg ← lift (decode text)
    schedules ← effective_schedules cfg
    lift (with_schedules cfg schedules)
