-- ===== src/App/Instances.antt =====
-- `start` and `stop` of internal/app/service.go: power requests that are left out where they are
-- not needed.
use cdtalive.Prelude.{List, [], ◌∷◌, Bool, false, Option, none, some, String, str_eq, if◌then◌else◌}
use cdtalive.Prelude.Actions.{pure, ◌>>=◌, ◌>>◌}
use cdtalive.Prelude.Text.{Text}
use cdtalive.App.Values.{set_action}
use cdtalive.App.World.{
  Instance, Platform, WorldAction, on_cloud, log_request, start_request, stop_request,
}

-- `instance != nil && instance.Status == status`
abbrev pub has_status : String → Option Instance → Bool
has_status status none = false
has_status status (some i) = str_eq i.status status

module _ {F C : Type 0} (p : Platform F C) where
  -- `client.Start` and `client.Stop`, with the request noted.
  unfoldable pub ask_start : Text → WorldAction F C String
  ask_start id = do
    log_request (start_request id)
    on_cloud (p.cloud.start id)
    pure "start_requested"

  unfoldable pub ask_stop : Text → WorldAction F C String
  ask_stop id = do log_request (stop_request id); on_cloud (p.cloud.stop id); pure "stop_requested"

  unfoldable pub start_instance : Text → WorldAction F C String
  unfolding ask_start
  start_instance id = do
    instance' ← on_cloud (p.cloud.instance_of id)
    if has_status "Running" instance' then pure "already_running" else ask_start id

  unfoldable pub stop_instance : Text → WorldAction F C String
  unfolding ask_stop
  stop_instance id = do
    instance' ← on_cloud (p.cloud.instance_of id)
    if has_status "Stopped" instance' then pure "already_stopped" else ask_stop id

  -- The loop over all instances, with the map of actions so far.
  unfoldable pub stop_each :
      List Instance → List (Text × String) → WorldAction F C (List (Text × String))
  unfolding stop_instance set_action
  stop_each [] done = pure done
  stop_each (i ∷ is) done = do
    action ← stop_instance i.id
    stop_each is (set_action i.id action done)
