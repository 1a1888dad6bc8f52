-- ===== src/Web.antt =====
-- The handlers of internal/web/server.go, on the service and the signals of the scheduler. What gin
-- binds from the body of a request is an argument.
pub mod Laws
pub mod Given
pub mod Saving
pub mod Init
pub mod Frames
use cdtalive.Prelude.{
  ℕ, List, [], ◌∷◌, Bool, true, false, not, Option, none, some, String, str_eq, if◌then◌else◌,
}
use cdtalive.Prelude.Actions.{Action, pure, raise, gets, modify, ◌>>=◌, ◌>>◌}
use cdtalive.Prelude.Floats.{FloatOps}
use cdtalive.Prelude.Int.{pos}
use cdtalive.Prelude.Results.{Result, ok, err}
use cdtalive.Prelude.Text.{Text}
use cdtalive.Config.Disk.{exists_in}
use cdtalive.Config.Save.{init}
use cdtalive.Config.Schedules.{StartSchedule}
use cdtalive.Config.Settings.{Config, list_of}
use cdtalive.App.Dashboard.{dashboard}
use cdtalive.App.Views.{DashboardView}
use cdtalive.App.Service.{run_once, is_transitioning}
use cdtalive.App.Settings.{SettingsView, settings, update_settings}
use cdtalive.App.Signals.{Signals, notify, run_immediately}
use cdtalive.App.Values.{Failure, Fields, null, str}
use cdtalive.App.World.{Platform, World, WorldAction, on_disk}

-- What a response carries. `detail` and `failed` are both the map with the key `detail`, of a text or of
-- the text of an error.
pub data Body (F : Type 0) : Type 0 where
  page : Text → Body F
  plain : String → Body F
  fields : Fields F → Body F
  view : DashboardView F → Body F
  shown : SettingsView → Body F
  detail : String → Body F
  failed : Failure → Body F

pub record Response (F : Type 0) : Type 0 where
  pub code : ℕ
  pub body : Body F

-- The service and the scheduler of a `Server`.
pub record Server (F C : Type 0) : Type 0 where
  pub world : World F C
  pub signals : Signals

-- A handler ends with its response, or before its end with one as the error.
abbrev pub Handler : Type 0 → Type 0 → Type 0 → Type 0
Handler F C A = Action (Server F C) (Response F) A

-- The payload of `saveSettings`.
pub record SettingsPayload : Type 0 where
  pub daily_start_schedules : Option (List StartSchedule)
  pub power_mode : String

-- The routes, with what is bound from the body, or the error of that.
pub data Call (F : Type 0) : Type 0 where
  get_index get_status get_dashboard get_settings post_run : Call F
  put_settings : Result String SettingsPayload → Call F
  post_init : Result String (Config F) → Call F

abbrev pub respond : {F : Type 0} → ℕ → Body F → Response F
respond code body = record { code = code; body = body }

abbrev pub fail_with : {F A : Type 0} → ℕ → Result Failure A → Result (Response F) A
fail_with code (ok a) = ok a
fail_with code (err e) = err (respond code (failed e))

-- The dashboard where there is no configuration file.
abbrev pub uninitialized : {F : Type 0} → DashboardView F
uninitialized = record {
  last_run = ("status", str "未初始化") ∷ ("error", str "配置文件不存在") ∷ [];
  balance = none;
  ecs = none;
  run_interval_seconds = pos 300;
  next_run_at = null;
  next_start_at = null;
}

abbrev pub no_settings : SettingsView
no_settings = record { daily_start_schedules = some []; power_mode = "auto" }

abbrev pub uninitialized_detail : {F : Type 0} → Body F
uninitialized_detail = detail "配置文件不存在，请先初始化配置。"

abbrev pub mode_to_save : String → String
mode_to_save mode = if str_eq mode "" then "auto" else mode

abbrev pub answer_of : {F : Type 0} → Result (Response F) (Response F) → Response F
answer_of (ok r) = r
answer_of (err r) = r

module _ {F C : Type 0} where
  abbrev pub has_config : Handler F C Bool
  has_config s = (ok (exists_in s.world.disk), s)

  -- `if test { respond; return }`
  abbrev pub return_if : Bool → ℕ → Body F → Handler F C (Unit {0})
  return_if true code body = raise (respond code body)
  return_if false code body = pure tt

  -- A call of the service, whose error is answered.
  abbrev pub on_service : {A : Type 0} → ℕ → WorldAction F C A → Handler F C A
  on_service code m s = let (r, w) = m s.world in (fail_with code r, record s { world = w })

  abbrev pub bound_or : {A : Type 0} → Result String A → (String → String) → Handler F C A
  bound_or (ok a) describe = pure a
  bound_or (err e) describe = raise (respond 422 (detail (describe e)))

  unfoldable pub notify_scheduler : Handler F C (Unit {0})
  unfolding notify
  notify_scheduler = modify (λ s. record s { signals = notify s.signals })

  unfoldable pub force_run : Handler F C (Unit {0})
  unfolding run_immediately
  force_run = modify (λ s. record s { signals = run_immediately s.signals })

  -- The embedded pages are a parameter.
  unfoldable pub index : (String → Result String Text) → Handler F C (Response F)
  index read_page = do
    present ← has_config
    elim (read_page (if present then "dashboard.html" else "init.html")) [
      | ok data' ↦ pure (respond 200 (page data'))
      | err e ↦ raise (respond 500 (plain e))
    ]

  unfoldable pub status_handler : Handler F C (Response F)
  status_handler = do result ← gets (λ s. s.world.last); pure (respond 200 (fields result))

module _ {F C : Type 0} ⦃ops : FloatOps F⦄ (p : Platform F C) where
  unfoldable pub dashboard_handler : Handler F C (Response F)
  dashboard_handler = do
    present ← has_config
    return_if (not present) 200 (view uninitialized)
    result ← on_service 500 (dashboard p)
    pure (respond 200 (view result))

  unfoldable pub settings_handler : Handler F C (Response F)
  settings_handler = do
    present ← has_config
    return_if (not present) 200 (shown no_settings)
    result ← on_service 500 (settings p)
    pure (respond 200 (shown result))

  -- The schedules of the payload, or the ones that are set. The type assertion of the code always
  -- holds, and its nil slice has no elements.
  unfoldable pub schedules_to_save : Option (List StartSchedule) → Handler F C (List StartSchedule)
  schedules_to_save (some schedules) = pure schedules
  schedules_to_save none = do
    current ← on_service 500 (settings p)
    pure (list_of current.daily_start_schedules)

  unfoldable pub save_settings_handler : Result String SettingsPayload → Handler F C (Response F)
  unfolding schedules_to_save force_run
  save_settings_handler bound = do
    present ← has_config
    return_if (not present) 400 uninitialized_detail
    payload ← bound_or bound (λ e. "daily_start_schedules 必须是规则列表")
    schedules ← schedules_to_save payload.daily_start_schedules
    result ← on_service 422 (update_settings p schedules (mode_to_save payload.power_mode))
    force_run
    pure (respond 200 (shown result))

  unfoldable pub initialize : Result String (Config F) → Handler F C (Response F)
  unfolding notify_scheduler
  initialize bound = do
    present ← has_config
    return_if present 400 (detail "配置文件已存在，无法重复初始化。")
    payload ← bound_or bound (λ e. e)
    on_service 422 (on_disk (init p.yaml payload))
    notify_scheduler
    pure (respond 200 (fields (("status", str "success") ∷ [])))

  unfoldable pub notify_if : Bool → Handler F C (Unit {0})
  unfolding notify_scheduler
  notify_if true = notify_scheduler
  notify_if false = pure tt

  unfoldable pub run_now_handler : Handler F C (Response F)
  unfolding notify_if
  run_now_handler = do
    present ← has_config
    return_if (not present) 400 uninitialized_detail
    result ← on_service 500 (run_once p)
    transitioning ← gets (λ s. is_transitioning s.world)
    notify_if transitioning
    pure (respond 200 (fields result))

  module _ (read_page : String → Result String Text) where
    -- The routes of `New`.
    unfoldable pub route : Call F → Handler F C (Response F)
    unfolding index status_handler dashboard_handler settings_handler save_settings_handler
        initialize run_now_handler
    route get_index = index read_page
    route get_status = status_handler
    route get_dashboard = dashboard_handler
    route get_settings = settings_handler
    route (put_settings bound) = save_settings_handler bound
    route (post_init bound) = initialize bound
    route post_run = run_now_handler

    unfoldable pub handle : Call F → Server F C → Response F × Server F C
    unfolding route
    handle call s = let (r, s') = route call s in (answer_of r, s')
