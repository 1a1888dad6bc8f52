-- ===== src/Tests/Fixtures.antt =====
-- A platform in memory: whole numbers for floats, a file that stands for one configuration, and a
-- cloud with one instance, which is stopped.
use cdtalive.Prelude.{ℕ, ◌+◌, ◌*◌, [], ◌∷◌, not, none, some, if◌then◌else◌}
use cdtalive.Prelude.Floats.{FloatOps}
use cdtalive.Prelude.Int.{ℤ, pos, ltb_ℤ, ◌+ℤ◌, ◌-ℤ◌}
use cdtalive.Prelude.Results.{ok}
use cdtalive.Prelude.Text.{codes}
use cdtalive.Config.Disk.{Disk, Yaml}
use cdtalive.Config.Environment.{Env}
use cdtalive.Config.Schedules.{StartSchedule}
use cdtalive.Store.Db.{Db}
use cdtalive.Store.Tables.{Tables}
use cdtalive.App.World.{Cloud, Instance, Json, Platform, World}

instance abbrev pub whole : FloatOps ℤ
whole = record {
  of_int = λ n. n;
  to_int = λ n. n;
  add = λ a b. a +ℤ b;
  sub = λ a b. a -ℤ b;
  mul = λ a b. a;
  div = λ a b. a;
  lt = ltb_ℤ;
  ge = λ a b. not (ltb_ℤ a b);
  max = λ a b. if ltb_ℤ a b then b else a;
  round_half = λ a. a;
  parse = λ t. none;
}

-- Always on.
abbrev pub all_day : StartSchedule
all_day = record {
  weekdays = pos 1 ∷ pos 2 ∷ pos 3 ∷ pos 4 ∷ pos 5 ∷ pos 6 ∷ pos 7 ∷ [];
  windows = codes "00:00-24:00" ∷ [];
}

abbrev pub yaml : Yaml ℤ
yaml = record {
  unmarshal = λ text cfg. some (record cfg {
    access_key_id = codes "key";
    access_key_secret = codes "secret";
    ecs_instance_id = codes "i-1";
    daily_start_schedules = some (all_day ∷ []);
  });
  marshal = λ cfg. some (codes "power_mode: auto");
  unmarshal_schedules = λ value old. none;
  set_start_schedules = λ text schedules. some text;
}

abbrev pub env : Env
env key = ""

abbrev pub stopped : Instance
stopped = record {
  id = codes "i-1";
  status = "Stopped";
  start_time = "";
  public_ip = "203.0.113.7";
}

abbrev pub cloud : Cloud ℤ ℕ
cloud = record {
  now = λ t. (t * 1000000000, t + 1);
  connect = λ cfg t. (ok tt, t);
  traffic_gb = λ t. (ok (pos 12), t);
  balance = λ t. (ok (pos 5), t);
  instances = λ t. (ok (stopped ∷ []), t);
  instance_of = λ id t. (ok (some stopped), t);
  start = λ id t. (ok tt, t);
  stop = λ id t. (ok tt, t);
}

abbrev pub json : Json ℤ
json = record { marshal = λ fields. some (codes "{}"); unmarshal = λ text. some [] }

abbrev pub platform : Platform ℤ ℕ
platform = record {
  env = env;
  yaml = yaml;
  json = json;
  cloud = cloud;
  location = pos 28800;
  parse_time = λ layout value. none;
}

abbrev pub disk : Disk
disk = record { file = some (codes "power_mode: auto"); faults = [] }

abbrev pub empty_tables : Tables ℤ
empty_tables = record {
  last_result = none;
  latest_metrics = none;
  balance_samples = [];
  traffic_samples = [];
  ecs_state = none;
  stop_events = [];
}

abbrev pub db : Db ℤ
db = record { tables = empty_tables; faults = [] }

-- In the morning of a Thursday.
abbrev pub world : World ℤ ℕ
world = record {
  disk = disk;
  db = db;
  cloud_state = 10800;
  last = [];
  next_run_at = pos 0;
  requests = [];
}
