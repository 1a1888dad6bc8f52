-- ===== src/App/Views.antt =====
-- What `Dashboard` of internal/app/service.go makes of a result, of the samples and of the state of the
-- instance, with `spentSince` and `abs64`. The maps have fixed keys, and are records here.
use cdtalive.Prelude.{
  ℕ, suc, List, [], ◌∷◌, Bool, ◌&&◌, ◌||◌, not, Option, none, some, String, str_eq, if◌then◌else◌,
}
use cdtalive.Prelude.Floats.{FloatOps}
use cdtalive.Prelude.Int.{ℤ, pos, negsuc, ◌-ℤ◌, ltb_ℤ, leb_ℤ, int_eq}
use cdtalive.Time.{Location, Instant, month_start, local_days, date_of_days, days_in_month}
use cdtalive.Store.Tables.{BalanceSample, EcsState, Metrics}
use cdtalive.App.Recording.{is_up, is_scheduled}
use cdtalive.App.Service.{round}
use cdtalive.App.Values.{
  Value, float, null, int, Fields, get, get_string, set, set_if_missing, nullable_timestamp,
}

pub record BalanceView (F : Type 0) : Type 0 where
  pub available_cny : F
  pub spent_24h_cny : F
  pub spent_current_month_cny : F
  pub estimated_monthly_cny : F
  pub updated_at : ℤ

pub record EcsView (F : Type 0) : Type 0 where
  pub state : String
  pub public_ip : Value F
  pub scheduled_stops_30d : ℕ
  pub unexpected_stops_30d : ℕ
  pub last_started_at : Value F
  pub running_days : Value F
  pub running_seconds : Value F
  pub scheduled_stop_active : Bool

pub record DashboardView (F : Type 0) : Type 0 where
  pub last_run : Fields F
  pub balance : Option (BalanceView F)
  pub ecs : Option (EcsView F)
  pub run_interval_seconds : ℤ
  pub next_run_at : Value F
  pub next_start_at : Value F

unfoldable pub abs64 : ℤ → ℤ
abs64 (pos n) = pos n
abs64 (negsuc n) = pos (suc n)

module _ {F : Type 0} where
  -- `abs64(sample.Timestamp-target)`
  abbrev pub distance : ℤ → BalanceSample F → ℤ
  distance target sample = abs64 (sample.timestamp -ℤ target)

  -- The loop over `samples[1:]`, with the baseline so far.
  unfoldable pub baseline_from : ℤ → BalanceSample F → List (BalanceSample F) → BalanceSample F
  unfolding abs64 ◌-ℤ◌
  baseline_from target baseline [] = baseline
  baseline_from target baseline (sample ∷ samples) =
      baseline_from target
        (if ltb_ℤ (distance target sample) (distance target baseline) then sample else baseline)
        samples

  -- `samples[len(samples)-1]`
  unfoldable pub latest_of : BalanceSample F → List (BalanceSample F) → BalanceSample F
  latest_of sample [] = sample
  latest_of sample (next ∷ samples) = latest_of next samples

-- The days of the month of a moment.
unfoldable pub month_days : Location → Instant → ℕ
unfolding local_days date_of_days days_in_month
month_days zone now =
    let date = date_of_days (local_days zone now) in days_in_month date.year date.month

-- `elapsedSeconds`, where the instance is up and its start is known.
unfoldable pub elapsed : String → EcsState → ℤ → Option ℤ
unfolding ◌-ℤ◌
elapsed state' state now =
    if is_up state'
      && ltb_ℤ (pos 0) state.last_startup_timestamp
      && leb_ℤ state.last_startup_timestamp now
    then some (now -ℤ state.last_startup_timestamp)
    else none

-- Whether anything is known of the instance.
abbrev pub is_known : EcsState → Bool
is_known state =
    not (str_eq state.last_status "") || not (int_eq state.last_startup_timestamp (pos 0))

module _ {F : Type 0} ⦃ops : FloatOps F⦄ where
  -- The loop of `spentSince`, with `previous` and `spent` so far.
  unfoldable pub spent_from : ℤ → Option F → F → List (BalanceSample F) → F
  spent_from since previous spent [] = spent
  spent_from since none spent (sample ∷ samples) =
      spent_from since (some sample.available_amount) spent samples
  spent_from since (some before) spent (sample ∷ samples) =
      spent_from since (some sample.available_amount)
        (if leb_ℤ since sample.timestamp
          then ops.add spent (ops.max (ops.sub before sample.available_amount) (ops.of_int (pos 0)))
          else spent)
        samples

  unfoldable pub spent_since : List (BalanceSample F) → ℤ → F
  unfolding spent_from
  spent_since samples since = spent_from since none (ops.of_int (pos 0)) samples

  -- `max(0, baseline - latest)`, of the last day.
  unfoldable pub spent_24h : BalanceSample F → List (BalanceSample F) → F
  unfolding baseline_from latest_of ◌-ℤ◌
  spent_24h first samples =
      let latest = latest_of first samples in
      let baseline = baseline_from (latest.timestamp -ℤ pos 86400) first samples in
      ops.max (ops.of_int (pos 0)) (ops.sub baseline.available_amount latest.available_amount)

  unfoldable pub balance_view :
      Location → Instant → BalanceSample F → List (BalanceSample F) → BalanceView F
  unfolding spent_24h spent_since latest_of month_start month_days round
  balance_view zone now first samples =
      let latest = latest_of first samples in
      let spent = spent_24h first samples in
      record {
        available_cny = latest.available_amount;
        spent_24h_cny = round spent 2;
        spent_current_month_cny =
            round (spent_since (first ∷ samples) (pos (month_start zone now))) 2;
        estimated_monthly_cny = round (ops.mul spent (ops.of_int (pos (month_days zone now)))) 2;
        updated_at = latest.timestamp;
      }

  -- The status of the result, or the stored one where the result has none.
  abbrev pub current_state : Fields F → EcsState → String
  current_state result state =
      let shown = get_string "ecs_status" result in
      if str_eq shown "" then state.last_status else shown

  abbrev pub seconds_value : Option ℤ → Value F
  seconds_value none = null
  seconds_value (some seconds) = int seconds

  abbrev pub days_value : Option ℤ → Value F
  days_value none = null
  days_value (some seconds) =
      float (round (ops.div (ops.of_int seconds) (ops.of_int (pos 86400))) 2)

  -- The reason of the result says whether a scheduled stop is active, where it has one.
  abbrev pub active_shown : Fields F → EcsState → Bool
  active_shown result state =
      let reason = get_string "reason" result in
      if str_eq reason "" then state.scheduled_stop_active else is_scheduled reason

  -- `result[k]`: nil where there is none.
  abbrev pub value_or_null : Option (Value F) → Value F
  value_or_null none = null
  value_or_null (some v) = v

  unfoldable pub ecs_view : Fields F → EcsState → ℤ → ℕ × ℕ → EcsView F
  unfolding get get_string elapsed
  ecs_view result state now counts =
      let shown = current_state result state in
      record {
        state = shown;
        public_ip = value_or_null (get "ecs_public_ip" result);
        scheduled_stops_30d = counts.0;
        unexpected_stops_30d = counts.1;
        last_started_at = nullable_timestamp state.last_startup_timestamp;
        running_days = days_value (elapsed shown state now);
        running_seconds = seconds_value (elapsed shown state now);
        scheduled_stop_active = active_shown result state;
      }

  -- The metrics of the last run, for the keys that the result lacks.
  unfoldable pub with_metrics : Option (Metrics F) → Fields F → Fields F
  unfolding set_if_missing
  with_metrics none result = result
  with_metrics (some m) result = set_if_missing "daily_remaining_gb" (float m.daily_remaining_gb) (
      set_if_missing "traffic_threshold_gb" (float m.traffic_threshold)
        (set_if_missing "traffic_gb" (float m.traffic_gb) result))

  unfoldable pub with_today : Option F → Fields F → Fields F
  unfolding set round
  with_today none result = set "today_traffic_gb" (float (ops.of_int (pos 0))) result
  with_today (some traffic) result =
      set "today_traffic_gb" (float (round (ops.max traffic (ops.of_int (pos 0))) 4))
        (set "today_traffic_gb" (float (ops.of_int (pos 0))) result)
