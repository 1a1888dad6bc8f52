-- ===== src/App/Policy.antt =====
-- The power policy of `RunOnce` in internal/app/service.go: its `switch`, from the readings to the
-- requests.
pub mod Laws
pub mod Rules
use cdtalive.Prelude.{
  List, [], ◌∷◌, Bool, true, false, Option, none, some, String, str_eq, if◌then◌else◌,
}
use cdtalive.Prelude.Actions.{pure, ◌>>=◌, ◌>>◌}
use cdtalive.Prelude.Floats.{FloatOps}
use cdtalive.Prelude.Text.{Text}
use cdtalive.Time.{LocalTime}
use cdtalive.Config.Settings.{Config, list_of}
use cdtalive.App.Schedule.{within_start_schedule}
use cdtalive.App.Values.{Value, str, actions}
use cdtalive.App.World.{Platform, WorldAction, on_cloud}
use cdtalive.App.Instances.{start_instance, stop_instance, stop_each}

-- What a case of the `switch` puts into the result map; a case may leave the status out.
pub record Outcome (F : Type 0) : Type 0 where
  pub action : Value F
  pub reason : String
  pub ecs_status : Option String

-- The cases of the `switch`, in their order.
pub data Case : Type 0 where
  over_threshold forced_on forced_off low_balance in_window outside : Case

module _ {F : Type 0} ⦃ops : FloatOps F⦄ where
  unfoldable pub choose : Config F → F → F → LocalTime → Case
  choose cfg traffic balance now =
      if ops.ge traffic cfg.traffic_threshold_gb
      then over_threshold
      else if str_eq cfg.power_mode "on"
      then forced_on
      else if str_eq cfg.power_mode "off"
      then forced_off
      else if ops.lt balance cfg.balance_threshold
      then low_balance
      else if within_start_schedule (list_of cfg.daily_start_schedules) now
      then in_window
      else outside

-- What the result map gets of a start and of a stop of the configured instance.
module _ {F C : Type 0} where
  abbrev pub start_outcome : String → String → WorldAction F C (Outcome F)
  start_outcome reason action = pure (record {
    action = str action;
    reason = reason;
    ecs_status = some (if str_eq action "already_running" then "Running" else "Starting");
  })

  abbrev pub stop_outcome : String → String → WorldAction F C (Outcome F)
  stop_outcome reason action = pure (record {
    action = str action;
    reason = reason;
    ecs_status = some (if str_eq action "already_stopped" then "Stopped" else "Stopping");
  })

module _ {F C : Type 0} (p : Platform F C) where
  unfoldable pub stop_all : String → Option String → WorldAction F C (Outcome F)
  stop_all reason status = do
    is ← on_cloud p.cloud.instances
    done ← stop_each p is []
    pure (record { action = actions done; reason = reason; ecs_status = status })

  unfoldable pub start_for : String → Text → WorldAction F C (Outcome F)
  start_for reason id = do action ← start_instance p id; start_outcome reason action

  unfoldable pub stop_for : String → Text → WorldAction F C (Outcome F)
  stop_for reason id = do action ← stop_instance p id; stop_outcome reason action

  unfoldable pub act : Text → Case → WorldAction F C (Outcome F)
  unfolding stop_all start_for stop_for
  act id over_threshold = stop_all "traffic_threshold_reached" (some "Stopping")
  act id forced_on = start_for "forced_on" id
  act id forced_off = stop_for "forced_off" id
  act id low_balance = stop_all "low_balance" none
  act id in_window = start_for "scheduled_start_window" id
  act id outside = stop_for "outside_start_schedule" id
