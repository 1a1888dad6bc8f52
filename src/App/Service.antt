-- ===== src/App/Service.antt =====
-- The operations of `Service` in internal/app/service.go.
pub mod Steps
pub mod Frames
pub mod Requests
pub mod Results
use cdtalive.Prelude.{
  ℕ, ◌+◌, ◌-◌, ◌^◌, [], ◌∷◌, Bool, ◌||◌, Option, none, some, String, str_eq, if◌then◌else◌, ltb,
}
use cdtalive.Prelude.Actions.{pure, modify, gets, ◌>>=◌, ◌>>◌}
use cdtalive.Prelude.Floats.{FloatOps}
use cdtalive.Prelude.Int.{ℤ, pos}
use cdtalive.Time.{Location, Instant, unix, local_days, local_time, date_of_days, days_in_month}
use cdtalive.Config.Load.{load}
use cdtalive.Config.Settings.{Config, validate}
use cdtalive.Store.Statements.{add_balance, add_traffic, save_metrics, save_last_result}
use cdtalive.App.Policy.{Outcome, choose, act}
use cdtalive.App.Recording.{record_instance_state}
use cdtalive.App.Values.{int, float, str, failure, Failure, Fields, get_string, set, set_all}
use cdtalive.App.World.{
  Platform, World, WorldAction, on_disk, on_store, on_cloud, config_result, read_clock,
}

-- `daysInMonth - now.Day() + 1`, at least 1.
unfoldable pub days_left : Location → Instant → ℕ
unfolding local_days date_of_days days_in_month
days_left zone now =
    let date = date_of_days (local_days zone now) in
    let left = days_in_month date.year date.month + 1 - date.day in if ltb left 1 then 1 else left

module _ {F : Type 0} ⦃ops : FloatOps F⦄ where
  unfoldable pub round : F → ℕ → F
  round value decimals =
      let factor = ops.of_int (pos (10 ^ decimals)) in
      ops.div (ops.round_half (ops.mul value factor)) factor

  unfoldable pub daily_remaining : Config F → F → ℕ → F
  unfolding round
  daily_remaining cfg traffic left =
      round
        (ops.div (ops.max (ops.sub cfg.traffic_threshold_gb traffic) (ops.of_int (pos 0)))
          (ops.of_int (pos left)))
        4

module _ {F C : Type 0} where
  -- `setLast`, and `Status`; the maps that they clone are values here.
  abbrev pub set_last : Fields F → WorldAction F C (Unit {0})
  set_last result = modify (λ w. record w { last = result })

  abbrev pub status : WorldAction F C (Fields F)
  status = gets (λ w. w.last)

  unfoldable pub set_failure : Failure → WorldAction F C (Unit {0})
  set_failure e = set_last (("status", str "失败") ∷ ("error", failure e) ∷ [])

  unfoldable pub set_uninitialized : WorldAction F C (Unit {0})
  set_uninitialized = set_last (("status", str "未初始化") ∷ ("error", str "配置文件不存在") ∷ [])

  unfoldable pub set_next_run_at : ℤ → WorldAction F C (Unit {0})
  set_next_run_at timestamp = modify (λ w. record w { next_run_at = timestamp })

  unfoldable pub is_transitioning : World F C → Bool
  unfolding get_string
  is_transitioning w =
      let status = get_string "ecs_status" w.last in
      str_eq status "Starting" || str_eq status "Stopping"

abbrev pub put_status : {F : Type 0} → Option String → Fields F → Fields F
put_status none m = m
put_status (some s) m = set "ecs_status" (str s) m

module _ {F C : Type 0} ⦃ops : FloatOps F⦄ (p : Platform F C) where
  -- The client of a configuration.
  unfoldable pub connect_with : Config F → WorldAction F C (Config F)
  connect_with cfg = do config_result (validate cfg); on_cloud (p.cloud.connect cfg); pure cfg

  -- The loaded configuration with its client.
  unfoldable pub connect : WorldAction F C (Config F)
  unfolding connect_with
  connect = do cfg ← on_disk (load p.env p.yaml); connect_with cfg

  unfoldable pub keep_traffic : Config F → Instant → F → F → WorldAction F C (F × F)
  unfolding round daily_remaining days_left
  keep_traffic cfg now balance traffic = do
    on_store (add_traffic (unix now) (round traffic 4))
    on_store (
        save_metrics (record {
          traffic_gb = round traffic 4;
          traffic_threshold = cfg.traffic_threshold_gb;
          daily_remaining_gb = daily_remaining cfg traffic (days_left p.location now);
        }))
    pure (balance, traffic)

  unfoldable pub keep_balance : Config F → Instant → F → WorldAction F C (F × F)
  unfolding keep_traffic
  keep_balance cfg now balance = do
    on_store (add_balance (unix now) balance)
    traffic ← on_cloud p.cloud.traffic_gb
    keep_traffic cfg now balance traffic

  -- The readings of a run, each stored as it is made: balance and traffic.
  unfoldable pub take_readings : Config F → Instant → WorldAction F C (F × F)
  unfolding keep_balance
  take_readings cfg now = do balance ← on_cloud p.cloud.balance; keep_balance cfg now balance

  -- The map `result` after the `switch`.
  unfoldable pub run_fields : Config F → Instant → F → F → Outcome F → Fields F
  unfolding set round daily_remaining days_left
  run_fields cfg now balance traffic outcome = put_status outcome.ecs_status (
      ("timestamp", int (unix now))
      ∷ ("action", outcome.action)
      ∷ ("balance_cny", float balance)
      ∷ ("traffic_gb", float (round traffic 4))
      ∷ ("daily_remaining_gb", float (daily_remaining cfg traffic (days_left p.location now)))
      ∷ ("traffic_threshold_gb", float cfg.traffic_threshold_gb)
      ∷ ("reason", str outcome.reason)
      ∷ [])

  -- The status and the address of the check are put into the map, and the map is stored and shown.
  unfoldable pub keep_result :
      (Fields F → Fields F) → Fields F → String × String → WorldAction F C (Fields F)
  unfolding set
  keep_result complete result checked = do
    let completed =
        complete (set "ecs_public_ip" (str checked.1) (set "ecs_status" (str checked.0) result))
    on_store (save_last_result (p.json.marshal completed))
    set_last completed
    pure completed

  -- The tail that `RunOnce` and `RefreshECSStatus` share.
  unfoldable pub check_and_keep :
      Config F → (Fields F → Fields F) → Fields F → WorldAction F C (Fields F)
  unfolding keep_result get_string
  check_and_keep cfg complete result = do
    checked ←
        record_instance_state p cfg.ecs_instance_id (get_string "ecs_status" result)
          (get_string "reason" result)
    keep_result complete result checked

  -- `RunOnce` from the end of its `switch` on.
  unfoldable pub run_to_end : Config F → Instant → F × F → Outcome F → WorldAction F C (Fields F)
  unfolding run_fields check_and_keep set_all
  run_to_end cfg now readings outcome =
      check_and_keep cfg (λ result. set_all result (("status", str "完成") ∷ []))
        (run_fields cfg now readings.0 readings.1 outcome)

  -- `RunOnce` from its `switch` on.
  unfoldable pub run_on : Config F → Instant → F × F → WorldAction F C (Fields F)
  unfolding choose act run_to_end
  run_on cfg now readings = do
    outcome ←
        act p cfg.ecs_instance_id (choose cfg readings.1 readings.0 (local_time p.location now))
    run_to_end cfg now readings outcome

  unfoldable pub run_with : Config F → WorldAction F C (Fields F)
  unfolding take_readings run_on
  run_with cfg = do now ← read_clock p; readings ← take_readings cfg now; run_on cfg now readings

  unfoldable pub run_once : WorldAction F C (Fields F)
  unfolding connect run_with
  run_once = do cfg ← connect; run_with cfg

  unfoldable pub refresh_ecs_status : WorldAction F C (Fields F)
  unfolding connect check_and_keep
  refresh_ecs_status = do
    cfg ← connect
    shown ← status
    now ← read_clock p
    check_and_keep cfg (λ result. result) (set "ecs_checked_at" (int (unix now)) shown)
