-- ===== src/App/Dashboard.antt =====
-- `Dashboard` of internal/app/service.go: what it reads, and in which order.
pub mod Baseline
pub mod Spending
pub mod Reads
pub mod Shows
use cdtalive.Prelude.{ℕ, ◌*◌, List, [], ◌∷◌, Option, none, some, if◌then◌else◌}
use cdtalive.Prelude.Actions.{pure, gets, ◌>>=◌, ◌>>◌}
use cdtalive.Prelude.Floats.{FloatOps}
use cdtalive.Prelude.Int.{ℤ, pos, ◌-ℤ◌}
use cdtalive.Prelude.Text.{Text}
use cdtalive.Time.{unix}
use cdtalive.Config.Load.{load}
use cdtalive.Config.Settings.{Config, list_of}
use cdtalive.Store.Statements.{
  read_last_result, metrics, today_traffic, balance_samples, ecs_state, stop_counts,
}
use cdtalive.Store.Tables.{BalanceSample, EcsState}
use cdtalive.App.Boundary.{next_start_schedule_time}
use cdtalive.App.Service.{status}
use cdtalive.App.Values.{Fields, nullable_timestamp}
use cdtalive.App.World.{Json, Platform, WorldAction, on_disk, on_store, config_result, read_clock}
use cdtalive.App.Views.{
  BalanceView, DashboardView, EcsView, balance_view, ecs_view, is_known, with_metrics, with_today,
}

-- The stored result, or the fallback where there is none or its text cannot be read.
abbrev pub stored_or : {F : Type 0} → Json F → Fields F → Option Text → Fields F
stored_or json fallback none = fallback
stored_or json fallback (some text) = elim (json.unmarshal text) [ none ↦ fallback | some m ↦ m ]

module _ {F C : Type 0} ⦃ops : FloatOps F⦄ (p : Platform F C) where
  -- `LastResult(s.Status())`
  unfoldable pub last_result : WorldAction F C (Fields F)
  last_result = do
    fallback ← status
    stored ← on_store read_last_result
    pure (stored_or p.json fallback stored)

  -- The map `result` of the dashboard.
  unfoldable pub shown_result : WorldAction F C (Fields F)
  unfolding last_result with_metrics with_today
  shown_result = do
    result ← last_result
    measured ← on_store metrics
    now ← read_clock p
    traffic ← on_store (today_traffic p.location now)
    pure (with_today traffic (with_metrics measured result))

  unfoldable pub balance_of : List (BalanceSample F) → WorldAction F C (Option (BalanceView F))
  unfolding balance_view
  balance_of [] = pure none
  balance_of (first ∷ samples) = do
    now ← read_clock p
    pure (some (balance_view p.location now first samples))

  unfoldable pub shown_balance : WorldAction F C (Option (BalanceView F))
  unfolding balance_of
  shown_balance = do samples ← on_store balance_samples; balance_of samples

  unfoldable pub known_ecs : Fields F → EcsState → WorldAction F C (Option (EcsView F))
  unfolding ecs_view ◌-ℤ◌
  known_ecs result state = do
    now ← read_clock p
    counts ← on_store (stop_counts (unix now -ℤ pos (30 * 86400)))
    pure (some (ecs_view result state (unix now) counts))

  unfoldable pub shown_ecs : Fields F → WorldAction F C (Option (EcsView F))
  unfolding known_ecs
  shown_ecs result = do
    state ← on_store ecs_state
    if is_known state then known_ecs result state else pure none

  abbrev pub timestamp_of : Option ℕ → ℤ
  timestamp_of none = pos 0
  timestamp_of (some at) = pos at

  -- The dashboard from the loading of the configuration on.
  unfoldable pub with_config :
      Fields F
      → Option (BalanceView F)
      → Option (EcsView F)
      → Config F
      → WorldAction F C (DashboardView F)
  with_config result balance ecs cfg = do
    now ← read_clock p
    start ←
        config_result (next_start_schedule_time p.location (list_of cfg.daily_start_schedules) now)
    next_run ← gets (λ w. w.next_run_at)
    pure (record {
      last_run = result;
      balance = balance;
      ecs = ecs;
      run_interval_seconds = cfg.run_interval_seconds;
      next_run_at = nullable_timestamp next_run;
      next_start_at = nullable_timestamp (timestamp_of start);
    })

  unfoldable pub dashboard : WorldAction F C (DashboardView F)
  unfolding shown_result shown_balance shown_ecs with_config
  dashboard = do
    result ← shown_result
    balance ← shown_balance
    ecs ← shown_ecs result
    cfg ← on_disk (load p.env p.yaml)
    with_config result balance ecs cfg
