-- ===== src/App/World.antt =====
-- What the service of internal/app/service.go works on, and the interfaces of what it calls.
use cdtalive.Prelude.{List, [], ◌∷◌, ◌++◌, Option, String}
use cdtalive.Prelude.Actions.{Action}
use cdtalive.Prelude.Int.{ℤ}
use cdtalive.Prelude.Results.{Result, ok, err}
use cdtalive.Prelude.Text.{Text}
use cdtalive.Time.{Instant, Location}
use cdtalive.Config.Disk.{Disk, DiskAction, Yaml}
use cdtalive.Config.Environment.{Env}
use cdtalive.Config.Errors.{ConfigError}
use cdtalive.Config.Settings.{Config}
use cdtalive.Store.Db.{Db, StoreAction}
use cdtalive.App.Values.{Failure, config_failure, store_failure, cloud_failure, Fields}

-- `aliyun.Instance`
pub record Instance : Type 0 where
  pub id : Text
  pub status : String
  pub start_time : String
  pub public_ip : String

-- The interface `cloud` of the service, the factory of its clients, and `time.Now`, over a state of
-- which nothing is known. `instance_of` gives none for a nil pointer.
pub record Cloud (F C : Type 0) : Type 0 where
  pub now : C → Instant × C
  pub connect : Config F → C → Result String (Unit {0}) × C
  pub traffic_gb : C → Result String F × C
  pub balance : C → Result String F × C
  pub instances : C → Result String (List Instance) × C
  pub instance_of : Text → C → Result String (Option Instance) × C
  pub start : Text → C → Result String (Unit {0}) × C
  pub stop : Text → C → Result String (Unit {0}) × C

-- encoding/json on result maps; `none` is an error.
pub record Json (F : Type 0) : Type 0 where
  pub marshal : Fields F → Option Text
  pub unmarshal : Text → Option (Fields F)

-- What surrounds the service and does not change while it runs.
pub record Platform (F C : Type 0) : Type 0 where
  pub env : Env
  pub yaml : Yaml F
  pub json : Json F
  pub cloud : Cloud F C
  pub location : Location
  -- `time.Parse(layout, value)` as a Unix time
  pub parse_time : String → String → Option ℤ

-- A request that changes the power of an instance.
pub data Request : Type 0 where
  start_request : Text → Request
  stop_request : Text → Request

pub record World (F C : Type 0) : Type 0 where
  pub disk : Disk
  pub db : Db F
  pub cloud_state : C
  pub last : Fields F
  pub next_run_at : ℤ
  -- every power request so far, in order; no code reads it
  pub requests : List Request

abbrev pub WorldAction : Type 0 → Type 0 → Type 0 → Type 0
WorldAction F C A = Action (World F C) Failure A

abbrev pub map_error {ℓ} : {E G : Type 0} {A : Type ℓ} → (E → G) → Result E A → Result G A
map_error f (ok a) = ok a
map_error f (err e) = err (f e)

module _ {F C A : Type 0} where
  abbrev pub on_disk : DiskAction A → WorldAction F C A
  on_disk m w = let (r, d) = m w.disk in (map_error config_failure r, record w { disk = d })

  abbrev pub on_store : StoreAction F A → WorldAction F C A
  on_store m w = let (r, d) = m w.db in (map_error store_failure r, record w { db = d })

  abbrev pub on_cloud : (C → Result String A × C) → WorldAction F C A
  on_cloud m w =
      let (r, c) = m w.cloud_state in (map_error cloud_failure r, record w { cloud_state = c })

abbrev pub config_result : {F C A : Type 0} → Result ConfigError A → WorldAction F C A
config_result r w = (map_error config_failure r, w)

abbrev pub log_request : {F C : Type 0} → Request → WorldAction F C (Unit {0})
log_request q w = (ok tt, record w { requests = w.requests ++ q ∷ [] })

module _ {F C : Type 0} (p : Platform F C) where
  -- `time.Now()`
  abbrev pub read_clock : WorldAction F C Instant
  read_clock w = let (t, c) = p.cloud.now w.cloud_state in (ok t, record w { cloud_state = c })
