-- ===== src/Config/Environment.antt =====
-- The environment variables that `Load` of internal/config/config.go lays over the file, and the
-- list formats among them.
use cdtalive.Prelude.{List, [], ◌∷◌, Bool, not, Option, none, some, String, str_eq, if◌then◌else◌}
use cdtalive.Prelude.Floats.{FloatOps}
use cdtalive.Prelude.Int.{ℤ, pos, ltb_ℤ}
use cdtalive.Prelude.Results.{Result, ok, or_err, traverse, ◌>>=◌}
use cdtalive.Prelude.Text.{Text, codes, split, trim_space, atoi}
use cdtalive.Config.Disk.{Yaml}
use cdtalive.Config.Errors.{ConfigError, not_a_number, invalid_weekday_list, bad_start_schedules}
use cdtalive.Config.Schedules.{StartSchedule, is_empty}
use cdtalive.Config.Settings.{Config, list_of}
use cdtalive.Config.Weekdays.{default_stop_weekdays, validate_stop_weekdays}

-- `os.Getenv`: the empty text where the variable is not set.
abbrev pub Env : Type 0
Env = String → String

abbrev pub is_set : Env → String → Bool
is_set env key = not (str_eq (env key) "")

-- `applyStringEnv`
abbrev pub string_env {ℓ} : {A : Type ℓ} → Env → String → (String → A) → A → A
string_env env key read old = if is_set env key then read (env key) else old

-- The items of a list behind commas, without blanks and without empty ones.
trimmed_items : List Text → List Text
trimmed_items [] = []
trimmed_items (item ∷ items) =
    let rest = trimmed_items items in
    if is_empty (trim_space item) then rest else trim_space item ∷ rest

unfoldable pub split_windows : Text → List Text
unfolding trimmed_items
split_windows value = trimmed_items (split b',' value)

parse_weekdays : List Text → Result ConfigError (List ℤ)
parse_weekdays items = traverse (λ item. or_err (atoi item) invalid_weekday_list) items

unfoldable pub split_weekdays : Text → Result ConfigError (List ℤ)
unfolding split_windows parse_weekdays
split_weekdays value = parse_weekdays (split_windows value) >>= validate_stop_weekdays

module _ {F : Type 0} ⦃ops : FloatOps F⦄ where
  -- `applyFloatEnv`
  unfoldable pub float_env : Env → String → F → Result ConfigError F
  float_env env key old =
      if is_set env key then or_err (ops.parse (codes (env key))) (not_a_number key) else ok old

  unfoldable pub interval_env : Env → Config F → Result ConfigError ℤ
  interval_env env cfg =
      if is_set env "CDT_RUN_INTERVAL_SECONDS"
      then (or_err (ops.parse (codes (env "CDT_RUN_INTERVAL_SECONDS")))
            (not_a_number "CDT_RUN_INTERVAL_SECONDS")
          >>= λ parsed. ok (ops.to_int parsed))
      else ok cfg.run_interval_seconds

  unfoldable pub weekdays_env : Env → Config F → Result ConfigError (Option (List ℤ))
  weekdays_env env cfg =
      if is_set env "CDT_DAILY_STOP_WEEKDAYS"
      then (split_weekdays (codes (env "CDT_DAILY_STOP_WEEKDAYS")) >>= λ days. ok (some days))
      else ok cfg.daily_stop_weekdays

  unfoldable pub schedules_env :
      Env → Yaml F → Config F → Result ConfigError (Option (List StartSchedule))
  schedules_env env yaml cfg =
      if is_set env "CDT_DAILY_START_SCHEDULES"
      then or_err
          (yaml.unmarshal_schedules (env "CDT_DAILY_START_SCHEDULES") cfg.daily_start_schedules)
          bad_start_schedules
      else ok cfg.daily_start_schedules

  -- Every variable over the file's value, the shortest interval, and the days.
  unfoldable pub apply_environment : Env → Yaml F → Config F → Result ConfigError (Config F)
  unfolding float_env interval_env weekdays_env schedules_env
  apply_environment env yaml cfg = do
    traffic ← float_env env "CDT_TRAFFIC_THRESHOLD_GB" cfg.traffic_threshold_gb
    balance ← float_env env "CDT_BALANCE_THRESHOLD_CNY" cfg.balance_threshold
    interval ← interval_env env cfg
    weekdays ← weekdays_env env cfg
    schedules ← schedules_env env yaml cfg
    days ← validate_stop_weekdays (elim weekdays [ none ↦ default_stop_weekdays | some ds ↦ ds ])
    ok (record {
      access_key_id = string_env env "CDT_ACCESS_KEY_ID" codes cfg.access_key_id;
      access_key_secret = string_env env "CDT_ACCESS_KEY_SECRET" codes cfg.access_key_secret;
      ecs_instance_id = string_env env "CDT_ECS_INSTANCE_ID" codes cfg.ecs_instance_id;
      region_id = string_env env "CDT_REGION_ID" codes cfg.region_id;
      traffic_threshold_gb = traffic;
      balance_threshold = balance;
      run_interval_seconds = if ltb_ℤ interval (pos 60) then pos 60 else interval;
      daily_stop_windows = some (
          string_env env "CDT_DAILY_STOP_WINDOWS" (λ v. split_windows (codes v))
            (list_of cfg.daily_stop_windows));
      daily_stop_weekdays = some days;
      daily_start_schedules = schedules;
      power_mode = string_env env "CDT_POWER_MODE" (λ v. v) cfg.power_mode;
    })
