-- ===== src/Config/Save/Reload.antt =====
-- `Load` of internal/config/config.go after `SaveSettings`.
use cdtalive.Prelude.{◌≡◌, refl, sym, ap, ◌∙◌, List, false, none, some, String, if◌then◌else◌}
use cdtalive.Prelude.Actions.{pure, lift, ◌>>=◌, ◌>>◌}
use cdtalive.Prelude.Floats.{FloatOps}
use cdtalive.Prelude.Hoare.{Post-ok}
use cdtalive.Prelude.Int.{ℤ, pos, ltb_ℤ}
use cdtalive.Prelude.Results.{Result, ok, err}
use cdtalive.Prelude.Text.{Text}
use cdtalive.Config.Disk.{Disk, Yaml}
use cdtalive.Config.Environment.{
  Env, is_set, apply_environment, float_env, interval_env, weekdays_env, schedules_env,
}
use cdtalive.Config.Errors.{ConfigError}
use cdtalive.Config.Load.{load, decode, with_schedules, effective_schedules}
use cdtalive.Config.Save.{load_file_only, write, save_settings}
use cdtalive.Config.Save.Laws.{saved, IsSaved, IsOldOrSaved, save_settings_result}
use cdtalive.Config.Schedules.{StartSchedule, validate_start_schedules}
use cdtalive.Config.Schedules.Laws.{validate_start_schedules_idem}
use cdtalive.Config.Settings.{Config, defaults, list_of, validate_power_mode}
use cdtalive.Config.Weekdays.{default_stop_weekdays, validate_stop_weekdays}

-- The days of a configuration, or the default ones.
abbrev pub days_of : {F : Type 0} → Config F → List ℤ
days_of cfg = elim cfg.daily_stop_weekdays [ none ↦ default_stop_weekdays | some ds ↦ ds ]

-- What `Load` makes of a configuration where no variable is set.
abbrev pub completed : {F : Type 0} → Config F → List ℤ → Config F
completed cfg days = record cfg {
  run_interval_seconds =
      if ltb_ℤ cfg.run_interval_seconds (pos 60) then pos 60 else cfg.run_interval_seconds;
  daily_stop_windows = some (list_of cfg.daily_stop_windows);
  daily_stop_weekdays = some days;
}

module _ {F : Type 0} ⦃ops : FloatOps F⦄ (yaml : Yaml F) (given : List StartSchedule)
    (mode : String) (disk : Disk) (out : List StartSchedule × String) where
  saves_power_mode :
      (save_settings yaml given mode disk).0 ≡ ok out → validate_power_mode mode ≡ ok tt
  unfolding save_settings
  saves_power_mode = go (validate_start_schedules given) (validate_power_mode mode)
    where
      go :
          (r : Result ConfigError (List StartSchedule)) (s : Result ConfigError (Unit {0}))
          → ((lift r >>= λ normalized.
                lift s
                >> (load_file_only yaml >>= λ cfg.
                    write yaml (saved yaml disk cfg normalized mode) >> pure (normalized, mode)))
              disk).0
            ≡ ok out
          → s ≡ ok tt
      go (err z) s h = cc
      go (ok normalized) (err z) h = cc
      go (ok normalized) (ok _) h = refl

module _ {F : Type 0} ⦃ops : FloatOps F⦄ (env : Env) (yaml : Yaml F)
    (unset : (key : String) → is_set env key ≡ false) where
  apply_environment_unset :
      (cfg : Config F) (days : List ℤ)
      → validate_stop_weekdays (days_of cfg) ≡ ok days
      → apply_environment env yaml cfg ≡ ok (completed cfg days)
  unfolding apply_environment float_env interval_env weekdays_env schedules_env
  apply_environment_unset cfg days valid =
      rw
        (
          unset "CDT_TRAFFIC_THRESHOLD_GB",
          unset "CDT_BALANCE_THRESHOLD_CNY",
          unset "CDT_RUN_INTERVAL_SECONDS",
          unset "CDT_DAILY_STOP_WEEKDAYS",
          unset "CDT_DAILY_START_SCHEDULES",
          valid,
          unset "CDT_ACCESS_KEY_ID",
          unset "CDT_ACCESS_KEY_SECRET",
          unset "CDT_ECS_INSTANCE_ID",
          unset "CDT_REGION_ID",
          unset "CDT_DAILY_STOP_WINDOWS",
          unset "CDT_POWER_MODE",
        )
        refl

  load_text :
      (cfg : Config F) (days : List ℤ) (schedules : List StartSchedule) (text : Text) (d : Disk)
      → d.file ≡ some text
      → yaml.unmarshal text defaults ≡ some cfg
      → validate_stop_weekdays (days_of cfg) ≡ ok days
      → cfg.daily_start_schedules ≡ some schedules
      → validate_start_schedules schedules ≡ ok schedules
      → validate_power_mode cfg.power_mode ≡ ok tt
      → (load env yaml d).0 ≡ ok (completed cfg days)
  unfolding load decode with_schedules effective_schedules
  load_text cfg days schedules text d file read valid given normal mode =
      rw
        (
          file,
          read,
          apply_environment_unset cfg days valid,
          unset "CDT_DAILY_STOP_WINDOWS",
          given,
          normal,
          mode,
        )
        refl

  -- After a save of settings, and where no variable of the environment is set, a load gives the
  -- configuration that the file had, with the saved schedules, normalized, and the saved mode, its
  -- interval raised to a minute where it is shorter, and its stop days validated. It is assumed that
  -- these stop days are valid, and that the YAML library reads what it wrote of this configuration.
  pub save_settings-load :
      (given : List StartSchedule) (mode : String) (disk : Disk) (out : List StartSchedule × String)
      (cfg : Config F) (days : List ℤ)
      → (save_settings yaml given mode disk).0 ≡ ok out
      → (load_file_only yaml disk).0 ≡ ok cfg
      → validate_stop_weekdays (days_of cfg) ≡ ok days
      → ((text : Text)
          → yaml.marshal (saved yaml disk cfg out.0 mode) ≡ some text
          → yaml.unmarshal text defaults ≡ some (saved yaml disk cfg out.0 mode))
      → (load env yaml (save_settings yaml given mode disk).1).0
        ≡ ok (completed (saved yaml disk cfg out.0 mode) days)
  save_settings-load given mode disk out cfg days done read valid reads_back =
      let d = (save_settings yaml given mode disk).1 in
      let (normal, same, (cfg', read', (text, written, file))) =
        Post-ok (IsSaved yaml disk given mode) (IsOldOrSaved yaml disk given mode)
          (save_settings yaml given mode disk).0 d out (save_settings_result yaml disk given mode)
          done in
      let new : Config F = saved yaml disk cfg out.0 mode in
      let same_cfg : cfg' ≡ cfg = cc in
      load_text new days out.0 text d file
        (reads_back text
          (ap (λ c. yaml.marshal (saved yaml disk c out.0 mode)) (sym same_cfg) ∙ written))
        valid refl (validate_start_schedules_idem given out.0 normal).1
        (saves_power_mode yaml given mode disk out done)
