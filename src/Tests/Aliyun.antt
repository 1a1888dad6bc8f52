-- ===== src/Tests/Aliyun.antt =====
-- The client on an SDK in memory, with one instance.
use cdtalive.Prelude.{
  ℕ, ltb, ap, ◌+◌, if◌then◌else◌, Option, ◌≡◌, ◌≤◌, List, [], ◌∷◌, length, none, some, arith,
}
use cdtalive.Prelude.Int.{ℤ, pos}
use cdtalive.Prelude.Results.{ok, err, traverse}
use cdtalive.Prelude.Text.{codes}
use cdtalive.Time.{Instant}
use cdtalive.App.Policy.{stop_all}
use cdtalive.App.World.{Platform, World}
use cdtalive.Aliyun.{Sdk, SdkInstance, Decoder, Connection, number, sum_traffic, client_cloud}
use cdtalive.Aliyun.Laws.{summed, sum_traffic_lem}
use cdtalive.Aliyun.Limits.{IsPaged, AtMost, stop_all_bound}
use cdtalive.Tests.Fixtures.{whole, platform, world}

abbrev decoder : Decoder ℤ
decoder = record {
  traffic_details = λ content. ok (codes "3" ∷ codes "4" ∷ []);
  available_amount = λ content. ok (codes "5");
  read_float = λ raw. some (pos (length raw));
  read_text = λ raw. ok raw;
  parse_float = λ text. err "no number";
  quote = λ text. text;
}

abbrev running : SdkInstance
running = record {
  instance_id = codes "i-1";
  status = "Running";
  start_time = "";
  eip_address = "";
  public_ip_addresses = [];
}

-- One instance, where at least one may be described.
abbrev described : Option ℕ → List SdkInstance
described none = []
described (some n) = if ltb 0 n then running ∷ [] else []

abbrev sdk : Sdk (Unit {0}) ℕ
sdk = record {
  new_client = λ region id secret c. (ok tt, c);
  new_ecs_client = λ region id secret c. (ok tt, c);
  process_common_request = λ h request c. (ok (codes "{}"), c);
  describe_instances = λ h request c. (ok (described request.page_size), c);
  start_instances = λ h request c. (ok tt, c);
  stop_instances = λ h request c. (ok tt, c);
}

sum_traffic_lem_example :
    sum_traffic decoder (pos 0) (codes "3" ∷ codes "44" ∷ [])
    ≡ summed (pos 0) (traverse (number decoder) (codes "3" ∷ codes "44" ∷ []))
sum_traffic_lem_example = sum_traffic_lem decoder (pos 0) (codes "3" ∷ codes "44" ∷ [])

abbrev clock : ℕ → Instant × ℕ
clock t = (t, t + 1)

abbrev connected : Connection (Unit {0}) ℕ
connected = record { remote = 7; client = some (record { common = tt; ecs = tt }) }

abbrev sdk_platform : Platform ℤ (Connection (Unit {0}) ℕ)
sdk_platform = record {
  env = platform.env;
  yaml = platform.yaml;
  json = platform.json;
  cloud = client_cloud sdk decoder clock;
  location = platform.location;
  parse_time = platform.parse_time;
}

abbrev sdk_world : World ℤ (Connection (Unit {0}) ℕ)
sdk_world = record {
  disk = world.disk;
  db = world.db;
  cloud_state = connected;
  last = [];
  next_run_at = pos 0;
  requests = [];
}

described_few : (size : Option ℕ) (n : ℕ) → size ≡ some n → length (described size) ≤ n
described_few none n e = cc
described_few (some m) n e = ground arith

sdk-IsPaged : IsPaged sdk
sdk-IsPaged h request n c items e given =
    let same : items ≡ described request.page_size = cc in
    omega (arith, described_few request.page_size n e, ap length same)

stop_all_bound_example :
    AtMost sdk_platform sdk_world.requests 100
      (stop_all sdk_platform "low_balance" none sdk_world).1
stop_all_bound_example =
    stop_all_bound sdk decoder clock sdk_platform sdk-IsPaged "low_balance" none sdk_world
