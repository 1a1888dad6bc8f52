-- ===== src/App/Recording.antt =====
-- `recordInstanceState` and `cloudStartTimestamp` of internal/app/service.go.
pub mod Laws
pub mod Events
use cdtalive.Prelude.{
  List, [], ◌∷◌, Bool, true, false, ◌&&◌, ◌||◌, not, Option, none, some, String, str_eq,
  if◌then◌else◌,
}
use cdtalive.Prelude.Actions.{pure, ◌>>=◌, ◌>>◌}
use cdtalive.Prelude.Int.{ℤ}
use cdtalive.Prelude.Text.{Text}
use cdtalive.Time.{Instant, unix}
use cdtalive.Store.Tables.{EcsState}
use cdtalive.Store.Statements.{ecs_state, record_ecs_state}
use cdtalive.App.World.{Instance, Platform, WorldAction, on_cloud, on_store, read_clock}

-- The status that the cloud reports, or the fallback where it reports none.
abbrev pub reported_status : String → Option Instance → String
reported_status fallback none = fallback
reported_status fallback (some i) = if str_eq i.status "" then fallback else i.status

-- `status == "" || status == a || status == b`
abbrev pub is_one_of : String → String → String → Bool
is_one_of status a b = str_eq status "" || str_eq status a || str_eq status b

-- A start or stop that was just asked for holds against a report from before it.
unfoldable pub settled_status : String → Option Instance → String
settled_status fallback instance' =
    let reported = reported_status fallback instance' in
    let started =
      if str_eq fallback "Starting" && is_one_of reported "Stopped" "Stopping"
      then fallback
      else reported in
    if str_eq fallback "Stopping" && is_one_of started "Running" "Starting"
    then fallback
    else started

abbrev pub is_up : String → Bool
is_up status = str_eq status "Running" || str_eq status "Starting"

abbrev pub is_down : String → Bool
is_down status = str_eq status "Stopped" || str_eq status "Stopping"

abbrev pub is_scheduled : String → Bool
is_scheduled reason = str_eq reason "outside_start_schedule"

abbrev pub is_service_initiated : String → Bool
is_service_initiated reason =
    str_eq reason "outside_start_schedule"
    || str_eq reason "forced_off"
    || str_eq reason "traffic_threshold_reached"
    || str_eq reason "low_balance"

unfoldable pub is_scheduled_event : EcsState → String → Bool
is_scheduled_event state reason = is_scheduled reason && not state.scheduled_stop_active

unfoldable pub is_unexpected_event : EcsState → String → String → Bool
is_unexpected_event state reason status =
    is_down status
    && is_up state.last_status
    && not state.scheduled_stop_active
    && not (is_service_initiated reason)

abbrev pub start_layouts : List String
start_layouts = "2006-01-02T15:04:05Z07:00" ∷ "2006-01-02T15:04Z07:00" ∷ []

-- The first layout that fits.
abbrev pub first_parse : (String → Option ℤ) → List String → ℤ → ℤ
first_parse parse [] fallback = fallback
first_parse parse (layout ∷ layouts) fallback = elim (parse layout) [
  | some at ↦ at
  | none ↦ first_parse parse layouts fallback
]

unfoldable pub cloud_start_timestamp : (String → String → Option ℤ) → Option Instance → ℤ → ℤ
cloud_start_timestamp parse none fallback = fallback
cloud_start_timestamp parse (some i) fallback =
    if str_eq i.start_time ""
    then fallback
    else first_parse (λ layout. parse layout i.start_time) start_layouts fallback

-- The state after a check that found `status`.
unfoldable pub next_state :
    (String → String → Option ℤ) → ℤ → String → Option Instance → String → EcsState → EcsState
unfolding is_scheduled_event is_unexpected_event cloud_start_timestamp
next_state parse now reason instance' status state = record {
  last_status = status;
  last_startup_timestamp =
      if is_up status
      then cloud_start_timestamp parse instance' now
      else state.last_startup_timestamp;
  scheduled_stop_active = is_scheduled reason;
  last_scheduled_stop_timestamp =
      if is_scheduled_event state reason then now else state.last_scheduled_stop_timestamp;
  last_unexpected_timestamp =
      if is_unexpected_event state reason status then now else state.last_unexpected_timestamp;
}

abbrev pub ip_of : Option Instance → String
ip_of none = ""
ip_of (some i) = i.public_ip

module _ {F C : Type 0} (p : Platform F C) where
  -- The new state is stored, with its events; the status and the public address are returned.
  unfoldable pub record_state :
      String → String → Option Instance → ℤ → EcsState → WorldAction F C (String × String)
  unfolding settled_status next_state
  record_state fallback reason instance' now state = do
    on_store (
        record_ecs_state
          (next_state p.parse_time now reason instance' (settled_status fallback instance') state)
          (is_scheduled_event state reason)
          (is_unexpected_event state reason (settled_status fallback instance')) now)
    pure (settled_status fallback instance', ip_of instance')

  unfoldable pub record_found :
      String → String → Instant → Option Instance → WorldAction F C (String × String)
  unfolding record_state
  record_found fallback reason at instance' = do
    state ← on_store ecs_state
    record_state fallback reason instance' (unix at) state

  unfoldable pub record_at : Text → String → String → Instant → WorldAction F C (String × String)
  unfolding record_found
  record_at id fallback reason at = do
    instance' ← on_cloud (p.cloud.instance_of id)
    record_found fallback reason at instance'

  unfoldable pub record_instance_state : Text → String → String → WorldAction F C (String × String)
  unfolding record_at
  record_instance_state id fallback reason = do at ← read_clock p; record_at id fallback reason at
