-- ===== src/Aliyun.antt =====
-- internal/aliyun/client.go: the calls of the cloud, on the SDK of Alibaba Cloud and on the JSON of its
-- answers, and the client as the interface `cloud` that internal/app/service.go works with.
pub mod Laws
pub mod Limits
use cdtalive.Prelude.{
  ℕ, ◌*◌, List, [], ◌∷◌, ◌++◌, map, Bool, false, ◌||◌, not, Option, none, some, String, str_eq,
  if◌then◌else◌,
}
use Prim.Native.String.{◌++◌ as str_append}
use cdtalive.Prelude.Actions.{Action, pure, lift, ◌>>=◌, ◌>>◌}
use cdtalive.Prelude.Floats.{FloatOps}
use cdtalive.Prelude.Int.{pos}
use cdtalive.Prelude.Results.{Result, ok, err}
use cdtalive.Prelude.Text.{Text, codes, text_eq}
use cdtalive.Time.{Instant}
use cdtalive.Config.Schedules.{is_empty}
use cdtalive.Config.Settings.{Config}
use cdtalive.App.World.{Cloud, Instance}

-- `requests.CommonRequest`, as far as it is set.
pub record CommonRequest : Type 0 where
  pub method : String
  pub scheme : String
  pub domain : String
  pub version : String
  pub api_name : String

-- `ecs.DescribeInstancesRequest`; a field that is not set is none.
pub record DescribeRequest : Type 0 where
  pub scheme : String
  pub page_size : Option ℕ
  pub instance_ids : Option Text

pub record StartRequest : Type 0 where
  pub scheme : String
  pub instance_ids : List Text

pub record StopRequest : Type 0 where
  pub scheme : String
  pub instance_ids : List Text
  pub force_stop : Bool
  pub stopped_mode : String

-- `ecs.Instance`, as far as it is read.
pub record SdkInstance : Type 0 where
  pub instance_id : Text
  pub status : String
  pub start_time : String
  pub eip_address : String
  pub public_ip_addresses : List String

-- The SDK, with clients of a type of its own and a state of which nothing is known.
pub record Sdk (H C : Type 0) : Type 0 where
  -- with the region, the key and its secret
  pub new_client : Text → Text → Text → Action C String H
  pub new_ecs_client : Text → Text → Text → Action C String H
  pub process_common_request : H → CommonRequest → Action C String Text
  pub describe_instances : H → DescribeRequest → Action C String (List SdkInstance)
  pub start_instances : H → StartRequest → Action C String (Unit {0})
  pub stop_instances : H → StopRequest → Action C String (Unit {0})

-- encoding/json on the answers, `strconv.ParseFloat`, and the verb `%q` of fmt. A raw value is its
-- text, which is empty where the value is absent.
pub record Decoder (F : Type 0) : Type 0 where
  pub traffic_details : Text → Result String (List Text)
  pub available_amount : Text → Result String Text
  pub read_float : Text → Option F
  pub read_text : Text → Result String Text
  pub parse_float : Text → Result String F
  pub quote : Text → Text

pub record Client (H : Type 0) : Type 0 where
  pub common : H
  pub ecs : H

-- `instanceFromSDK`
unfoldable pub instance_from_sdk : SdkInstance → Instance
instance_from_sdk item = record {
  id = item.instance_id;
  status = item.status;
  start_time = item.start_time;
  public_ip = elim item.public_ip_addresses [
    | [] ↦ item.eip_address
    | first ∷ _ ↦ (if str_eq item.eip_address "" then first else item.eip_address)
  ];
}

abbrev pub first_instance : List SdkInstance → Option Instance
first_instance [] = none
first_instance (item ∷ _) = some (instance_from_sdk item)

abbrev pub page_size : ℕ
page_size = 100

abbrev pub traffic_request : CommonRequest
traffic_request = record {
  method = "POST";
  scheme = "https";
  domain = "cdt.aliyuncs.com";
  version = "2021-08-13";
  api_name = "ListCdtInternetTraffic";
}

abbrev pub balance_request : CommonRequest
balance_request = record {
  method = "POST";
  scheme = "https";
  domain = "business.aliyuncs.com";
  version = "2017-12-14";
  api_name = "QueryAccountBalance";
}

abbrev pub page_request : DescribeRequest
page_request = record { scheme = "https"; page_size = some page_size; instance_ids = none }

module _ {F : Type 0} ⦃ops : FloatOps F⦄ (decoder : Decoder F) where
  abbrev pub parse_text : Text → Result String F
  parse_text text = if is_empty text then ok (ops.of_int (pos 0)) else decoder.parse_float text

  unfoldable pub number : Text → Result String F
  number raw = elim (decoder.read_float raw) [
    | some value ↦ ok value
    | none ↦ elim (decoder.read_text raw) [ ok text ↦ parse_text text | err e ↦ err e ]
  ]

  -- The loop over the details, with `bytes` so far.
  unfoldable pub sum_traffic : F → List Text → Result String F
  unfolding number
  sum_traffic bytes [] = ok bytes
  sum_traffic bytes (detail ∷ details) = elim (number detail) [
    | ok value ↦ sum_traffic (ops.add bytes value) details
    | err e ↦ err (str_append "解析 CDT 流量失败: " e)
  ]

  unfoldable pub balance_of_amount : Text → Result String F
  unfolding number
  balance_of_amount raw =
      if is_empty raw || text_eq raw (codes "null") then ok (ops.of_int (pos 0)) else number raw

module _ {H C : Type 0} (sdk : Sdk H C) where
  -- `New`
  unfoldable pub new_client : {F : Type 0} → Config F → Action C String (Client H)
  new_client cfg = do
    common ← sdk.new_client cfg.region_id cfg.access_key_id cfg.access_key_secret
    ecs ← sdk.new_ecs_client cfg.region_id cfg.access_key_id cfg.access_key_secret
    pure (record { common = common; ecs = ecs })

  unfoldable pub instances : Client H → Action C String (List Instance)
  unfolding instance_from_sdk
  instances client = do
    items ← sdk.describe_instances client.ecs page_request
    pure (map instance_from_sdk items)

  unfoldable pub start : Text → Client H → Action C String (Unit {0})
  start id client =
      sdk.start_instances client.ecs (record { scheme = "https"; instance_ids = id ∷ [] })

  unfoldable pub stop : Text → Client H → Action C String (Unit {0})
  stop id client = sdk.stop_instances client.ecs (record {
    scheme = "https";
    instance_ids = id ∷ [];
    force_stop = false;
    stopped_mode = "StopCharging";
  })

module _ {F H C : Type 0} ⦃ops : FloatOps F⦄ (sdk : Sdk H C) (decoder : Decoder F) where
  unfoldable pub traffic_gb : Client H → Action C String F
  unfolding sum_traffic
  traffic_gb client = do
    content ← sdk.process_common_request client.common traffic_request
    details ← lift (decoder.traffic_details content)
    bytes ← lift (sum_traffic decoder (ops.of_int (pos 0)) details)
    pure (ops.div bytes (ops.of_int (pos (1024 * 1024 * 1024))))

  unfoldable pub balance : Client H → Action C String F
  unfolding balance_of_amount
  balance client = do
    content ← sdk.process_common_request client.common balance_request
    amount ← lift (decoder.available_amount content)
    lift (balance_of_amount decoder amount)

  unfoldable pub instance_of : Text → Client H → Action C String (Option Instance)
  unfolding instance_from_sdk
  instance_of id client = do
    items ← sdk.describe_instances client.ecs (record {
      scheme = "https";
      page_size = none;
      instance_ids = some (codes "[" ++ decoder.quote id ++ codes "]");
    })
    pure (first_instance items)

-- The remote side, and the client of the run that is going on.
pub record Connection (H C : Type 0) : Type 0 where
  pub remote : C
  pub client : Option (Client H)

module _ {H C : Type 0} where
  unfoldable pub connect_by : Action C String (Client H) → Action (Connection H C) String (Unit {0})
  connect_by new s =
      let (r, c) = new s.remote in
      elim r [
        | ok client ↦ (ok tt, record { remote = c; client = some client })
        | err e ↦ (err e, record s { remote = c })
      ]

  -- A run calls nothing before it has connected, so that a client is there.
  unfoldable pub with_client :
      {A : Type 0} → (Client H → Action C String A) → Action (Connection H C) String A
  with_client call s = elim s.client [
    | none ↦ (err "", s)
    | some client ↦ (let (r, c) = call client s.remote in (r, record s { remote = c }))
  ]

-- The client behind the interface of the service, with a clock.
abbrev pub client_cloud :
    {F H C : Type 0}
    → ⦃ops : FloatOps F⦄ → Sdk H C
    → Decoder F
    → (C → Instant × C)
    → Cloud F (Connection H C)
client_cloud sdk decoder now = record {
  now = λ s. (let (t, c) = now s.remote in (t, record s { remote = c }));
  connect = λ cfg. connect_by (new_client sdk cfg);
  traffic_gb = with_client (traffic_gb sdk decoder);
  balance = with_client (balance sdk decoder);
  instances = with_client (instances sdk);
  instance_of = λ id. with_client (instance_of sdk decoder id);
  start = λ id. with_client (start sdk id);
  stop = λ id. with_client (stop sdk id);
}
