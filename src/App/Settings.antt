-- ===== src/App/Settings.antt =====
-- `Settings` and `UpdateSettings` of internal/app/service.go.
use cdtalive.Prelude.{List, Option, some, String}
use cdtalive.Prelude.Actions.{pure, ◌>>=◌}
use cdtalive.Prelude.Floats.{FloatOps}
use cdtalive.Config.Load.{load}
use cdtalive.Config.Save.{save_settings}
use cdtalive.Config.Schedules.{StartSchedule}
use cdtalive.Config.Settings.{Config}
use cdtalive.App.World.{Platform, WorldAction, on_disk}

-- The map of the two settings. A nil slice of schedules is none.
pub record SettingsView : Type 0 where
  pub daily_start_schedules : Option (List StartSchedule)
  pub power_mode : String

abbrev pub settings_of : {F : Type 0} → Config F → SettingsView
settings_of cfg = record {
  daily_start_schedules = cfg.daily_start_schedules;
  power_mode = cfg.power_mode;
}

module _ {F C : Type 0} ⦃ops : FloatOps F⦄ (p : Platform F C) where
  unfoldable pub settings : WorldAction F C SettingsView
  settings = do cfg ← on_disk (load p.env p.yaml); pure (settings_of cfg)

  unfoldable pub update_settings : List StartSchedule → String → WorldAction F C SettingsView
  update_settings schedules power_mode = do
    saved ← on_disk (save_settings p.yaml schedules power_mode)
    pure (record { daily_start_schedules = some saved.0; power_mode = saved.1 })
