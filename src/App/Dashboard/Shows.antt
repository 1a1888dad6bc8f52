-- ===== src/App/Dashboard/Shows.antt =====
-- The next run in the dashboard of internal/app/service.go.
use cdtalive.Prelude.{ℕ, ◌≡◌, ap, refl, inl, Option}
use cdtalive.Prelude.Actions.{pure, gets, ◌>>=◌}
use cdtalive.Prelude.Floats.{FloatOps}
use cdtalive.Prelude.Hoare.{Keeps, Triple, Triple->>=, Triple-of-Keeps, Post, Post-weaken}
use cdtalive.Prelude.Int.{ℤ}
use cdtalive.Time.{Instant}
use cdtalive.Config.Load.{load}
use cdtalive.Config.Settings.{Config, list_of}
use cdtalive.App.Boundary.{next_start_schedule_time}
use cdtalive.App.Dashboard.{
  shown_result, shown_balance, shown_ecs, timestamp_of, with_config, dashboard,
}
use cdtalive.App.Views.{BalanceView, EcsView, DashboardView}
use cdtalive.App.Dashboard.Reads.{
  IsUnchanged, shown_result-Keeps, shown_balance-Keeps, shown_ecs-Keeps, loads-Keeps,
}
use cdtalive.App.Values.{Fields, nullable_timestamp}
use cdtalive.App.World.{Platform, World, WorldAction, on_disk, config_result, read_clock}

module _ {F C : Type 0} where
  -- The view shows a moment as the next run.
  abbrev pub ShowsNextRun : ℤ → DashboardView F → World F C → Type 0
  ShowsNextRun at view w = view.next_run_at ≡ nullable_timestamp at

  abbrev pub Failed : World F C → Type 0
  Failed w = Unit

module _ {F C : Type 0} ⦃ops : FloatOps F⦄ (p : Platform F C) (before : World F C) where
  abbrev ShowsNext : DashboardView F → World F C → Type 0
  ShowsNext = ShowsNextRun before.next_run_at

  -- A part of the dashboard before its end.
  after_reading :
      {A : Type 0} (m : WorldAction F C A) (f : A → WorldAction F C (DashboardView F))
      → Keeps (IsUnchanged before) m
      → ((a : A) → Triple (IsUnchanged before) (f a) ShowsNext Failed)
      → Triple (IsUnchanged before) (m >>= f) ShowsNext Failed
  after_reading m f keeps shows =
      Triple->>= (IsUnchanged before) (λ _. IsUnchanged before) ShowsNext Failed m f
        (λ w h.
          Post-weaken (λ _. IsUnchanged before) (λ _. IsUnchanged before) (IsUnchanged before)
            Failed (m w) (λ a v k. k) (λ v k. tt)
            (Triple-of-Keeps (IsUnchanged before) m keeps w h))
        shows

  with_config_shows :
      (result : Fields F) (balance : Option (BalanceView F)) (ecs : Option (EcsView F))
      (cfg : Config F)
      → Triple (IsUnchanged before) (with_config p result balance ecs cfg) ShowsNext Failed
  unfolding with_config
  with_config_shows result balance ecs cfg =
      let start : Instant → WorldAction F C (Option ℕ) = λ now.
        config_result
          (next_start_schedule_time p.location (list_of cfg.daily_start_schedules) now) in
      let next_run : WorldAction F C ℤ = gets (λ w. w.next_run_at) in
      let finish : Option ℕ → ℤ → WorldAction F C (DashboardView F) = λ start next_run.
        pure (record {
          last_run = result;
          balance = balance;
          ecs = ecs;
          run_interval_seconds = cfg.run_interval_seconds;
          next_run_at = nullable_timestamp next_run;
          next_start_at = nullable_timestamp (timestamp_of p start);
        }) in
      after_reading (read_clock p) (λ now. start now >>= λ start. next_run >>= finish start)
        (λ w h. h)
        λ now.
          after_reading (start now) (λ start. next_run >>= finish start) (λ w h. h)
            λ start. λ w h. ap nullable_timestamp h.2

  -- A dashboard that is shown has the next run of the service.
  dashboard_shows : (w : World F C) → IsUnchanged before w → Post ShowsNext Failed (dashboard p w)
  unfolding dashboard
  dashboard_shows =
      after_reading (shown_result p)
        (λ result. shown_balance p >>= λ balance. shown_ecs p result >>= λ ecs.
          on_disk (load p.env p.yaml) >>= with_config p result balance ecs)
        (shown_result-Keeps p before)
        λ result.
          after_reading (shown_balance p)
            (λ balance. shown_ecs p result >>= λ ecs.
              on_disk (load p.env p.yaml) >>= with_config p result balance ecs)
            (shown_balance-Keeps p before)
            λ balance.
              after_reading (shown_ecs p result)
                (λ ecs. on_disk (load p.env p.yaml) >>= with_config p result balance ecs)
                (shown_ecs-Keeps p before result)
                λ ecs.
                  after_reading (on_disk (load p.env p.yaml)) (with_config p result balance ecs)
                    (loads-Keeps p before) (with_config_shows result balance ecs)

module _ {F C : Type 0} ⦃ops : FloatOps F⦄ (p : Platform F C) where
  pub dashboard_next_run :
      (w : World F C) → Post (ShowsNextRun w.next_run_at) Failed (dashboard p w)
  dashboard_next_run w = dashboard_shows p w w (refl, refl, refl, refl, inl refl)
