-- ===== src/App/Dashboard/Reads.antt =====
-- What `Dashboard` of internal/app/service.go leaves as it was.
use cdtalive.Prelude.{
  ℕ, ◌*◌, ◌≡◌, refl, inl, List, [], ◌∷◌, Bool, true, false, ◌==◌, Option, none, some, if◌then◌else◌,
}
use cdtalive.Prelude.Actions.{pure, gets, ◌>>=◌}
use cdtalive.Prelude.Floats.{FloatOps}
use cdtalive.Prelude.Hoare.{Keeps, Keeps->>=}
use cdtalive.Prelude.Int.{ℤ, pos, leb_ℤ, ltb_ℤ, ◌-ℤ◌}
use cdtalive.Prelude.Text.{Text}
use cdtalive.Time.{Location, Instant, unix, day_start, local_days, date_of_days}
use cdtalive.Config.Load.{load}
use cdtalive.Config.Presence.{IsKeptFile, load-Keeps}
use cdtalive.Config.Settings.{Config, list_of}
use cdtalive.Store.Db.{Db, StoreAction, query}
use cdtalive.Prelude.Sorting.{sort_by}
use cdtalive.Store.Tables.{
  scheduled, unexpected, Tables, Metrics, EcsState, BalanceSample, TrafficSample, latest_where,
}
use cdtalive.Store.Statements.{
  read_last_result, metrics, today_traffic, balance_samples, ecs_state, stop_counts, count_events,
  of_row,
}
use cdtalive.App.Boundary.{next_start_schedule_time}
use cdtalive.App.Service.{status}
use cdtalive.App.Values.{Fields, nullable_timestamp}
use cdtalive.App.World.{Platform, World, WorldAction, on_disk, on_store, config_result, read_clock}
use cdtalive.App.Dashboard.{
  stored_or, last_result, shown_result, balance_of, shown_balance, known_ecs, shown_ecs,
  timestamp_of, with_config, dashboard,
}
use cdtalive.App.Views.{
  BalanceView, EcsView, DashboardView, with_metrics, with_today, ecs_view, is_known,
}

module _ {F : Type 0} (t : Tables F) where
  -- A statement that only reads, whether it fails or not.
  abbrev pub Reads : {A : Type 0} → StoreAction F A → Type 0
  Reads m = Keeps (λ (db : Db F). db.tables ≡ t) m

  query-Reads : {A : Type 0} (read : Tables F → A) → Reads (query read)
  unfolding query
  query-Reads read db h = h

module _ {F : Type 0} ⦃ops : FloatOps F⦄ (t : Tables F) where
  today_traffic-Reads : (zone : Location) (now : Instant) → Reads t (today_traffic zone now)
  unfolding today_traffic
  today_traffic-Reads zone now =
      Keeps->>= (λ db. db.tables ≡ t)
        (query (λ t.
          latest_where (λ s. s.timestamp) (λ at. leb_ℤ (pos (day_start zone now)) at)
            t.traffic_samples))
        from_latest
        (query-Reads t (λ t.
          latest_where (λ s. s.timestamp) (λ at. leb_ℤ (pos (day_start zone now)) at)
            t.traffic_samples))
        from_latest-Reads
    where
      difference : TrafficSample F → Option (TrafficSample F) → StoreAction F (Option F)
      difference sample baseline = pure (elim baseline [
        | none ↦ some sample.traffic_gb
        | some before ↦ some (ops.sub sample.traffic_gb before.traffic_gb)
      ])

      baseline : StoreAction F (Option (TrafficSample F))
      baseline = query (λ t.
          latest_where (λ s. s.timestamp) (λ at. ltb_ℤ at (pos (day_start zone now)))
            t.traffic_samples)

      from_sample : TrafficSample F → Bool → StoreAction F (Option F)
      from_sample sample first =
          if first then pure (some sample.traffic_gb) else baseline >>= difference sample

      from_latest : Option (TrafficSample F) → StoreAction F (Option F)
      from_latest latest = elim latest [
        | none ↦ pure none
        | some sample ↦ from_sample sample ((date_of_days (local_days zone now)).day == 1)
      ]

      from_sample-Reads :
          (sample : TrafficSample F) (first : Bool) → Reads t (from_sample sample first)
      from_sample-Reads sample true = λ db h. h
      from_sample-Reads sample false =
          Keeps->>= (λ db. db.tables ≡ t) baseline (difference sample)
            (query-Reads t (λ t.
              latest_where (λ s. s.timestamp) (λ at. ltb_ℤ at (pos (day_start zone now)))
                t.traffic_samples))
            (λ b db h. h)

      from_latest-Reads : (latest : Option (TrafficSample F)) → Reads t (from_latest latest)
      from_latest-Reads none = λ db h. h
      from_latest-Reads (some sample) =
          from_sample-Reads sample ((date_of_days (local_days zone now)).day == 1)

module _ {F C : Type 0} (before : World F C) where
  -- The tables, the shown result, the next run and the requests are as before, and the file is too or
  -- was written.
  abbrev pub IsUnchanged : World F C → Type 0
  IsUnchanged w =
      (w.db.tables ≡ before.db.tables)
      × (w.last ≡ before.last)
      × (w.next_run_at ≡ before.next_run_at)
      × (w.requests ≡ before.requests)
      × IsKeptFile before.disk.file w.disk

  Reads-keep :
      {A : Type 0} (m : StoreAction F A)
      → Reads before.db.tables m
      → Keeps IsUnchanged (on_store {C = C} m)
  Reads-keep m reads w (h, last, next, requests, file) = (reads w.db h, last, next, requests, file)

  query-Keeps :
      {A : Type 0} (read : Tables F → A) → Keeps IsUnchanged (on_store {C = C} (query read))
  query-Keeps read = Reads-keep (query read) (query-Reads before.db.tables read)

module _ {F C : Type 0} ⦃ops : FloatOps F⦄ (p : Platform F C) (before : World F C) where
  abbrev Same : World F C → Type 0
  Same = IsUnchanged before

  last_result-Keeps : Keeps Same (last_result p)
  unfolding last_result read_last_result
  last_result-Keeps =
      let finish : Fields F → Option Text → WorldAction F C (Fields F) =
        λ fallback stored. pure (stored_or p.json fallback stored) in
      Keeps->>= Same status (λ fallback. on_store read_last_result >>= finish fallback) (λ w h. h)
        λ fallback.
          Keeps->>= Same (on_store read_last_result) (finish fallback)
            (query-Keeps before (λ t. t.last_result)) (λ stored w h. h)

  pub shown_result-Keeps : Keeps Same (shown_result p)
  unfolding shown_result metrics
  shown_result-Keeps =
      let finish : Fields F → Option (Metrics F) → Option F → WorldAction F C (Fields F) =
        λ result measured traffic. pure (with_today traffic (with_metrics measured result)) in
      Keeps->>= Same (last_result p)
        (λ result. on_store metrics >>= λ measured. read_clock p >>= λ now.
          on_store (today_traffic p.location now) >>= finish result measured)
        last_result-Keeps
        λ result.
          Keeps->>= Same (on_store metrics)
            (λ measured. read_clock p >>= λ now.
              on_store (today_traffic p.location now) >>= finish result measured)
            (query-Keeps before (λ t. t.latest_metrics))
            λ measured.
              Keeps->>= Same (read_clock p)
                (λ now. on_store (today_traffic p.location now) >>= finish result measured)
                (λ w h. h)
                λ now.
                  Keeps->>= Same (on_store (today_traffic p.location now)) (finish result measured)
                    (Reads-keep before (today_traffic p.location now)
                      (today_traffic-Reads before.db.tables p.location now))
                    (λ traffic w h. h)

  balance_of-Keeps : (samples : List (BalanceSample F)) → Keeps Same (balance_of p samples)
  unfolding balance_of
  balance_of-Keeps [] = λ w h. h
  balance_of-Keeps (first ∷ samples) = λ w h. h

  pub shown_balance-Keeps : Keeps Same (shown_balance p)
  unfolding shown_balance balance_samples
  shown_balance-Keeps =
      Keeps->>= Same (on_store balance_samples) (balance_of p)
        (query-Keeps before (λ t. sort_by (λ a b. leb_ℤ a.timestamp b.timestamp) t.balance_samples))
        balance_of-Keeps

  known_ecs-Keeps : (result : Fields F) (state : EcsState) → Keeps Same (known_ecs p result state)
  unfolding known_ecs stop_counts
  known_ecs-Keeps result state =
      let counts : Instant → WorldAction F C (ℕ × ℕ) =
        λ now. on_store (stop_counts (unix now -ℤ pos (30 * 86400))) in
      let finish : Instant → ℕ × ℕ → WorldAction F C (Option (EcsView F)) =
        λ now counts. pure (some (ecs_view result state (unix now) counts)) in
      Keeps->>= Same (read_clock p) (λ now. counts now >>= finish now) (λ w h. h)
        λ now.
          Keeps->>= Same (counts now) (finish now)
            (query-Keeps before {A = ℕ × ℕ} (λ t. (
              count_events scheduled (unix now -ℤ pos (30 * 86400)) t.stop_events,
              count_events unexpected (unix now -ℤ pos (30 * 86400)) t.stop_events,
            )))
            (λ c w h. h)

  pub shown_ecs-Keeps : (result : Fields F) → Keeps Same (shown_ecs p result)
  unfolding shown_ecs ecs_state
  shown_ecs-Keeps result =
      Keeps->>= Same (on_store ecs_state)
        (λ state. if is_known state then known_ecs p result state else pure none)
        (query-Keeps before (λ t. of_row t.ecs_state)) λ state. choice state (is_known state)
    where
      choice :
          (state : EcsState) (b : Bool)
          → Keeps Same (if b then known_ecs p result state else pure none)
      choice state true = known_ecs-Keeps result state
      choice state false = λ w h. h

  with_config-Keeps :
      (result : Fields F) (balance : Option (BalanceView F)) (ecs : Option (EcsView F))
      (cfg : Config F)
      → Keeps Same (with_config p result balance ecs cfg)
  unfolding with_config
  with_config-Keeps result balance ecs cfg =
      let start : Instant → WorldAction F C (Option ℕ) = λ now.
        config_result
          (next_start_schedule_time p.location (list_of cfg.daily_start_schedules) now) in
      let next_run : WorldAction F C ℤ = gets (λ w. w.next_run_at) in
      let finish : Option ℕ → ℤ → WorldAction F C (DashboardView F) = λ start next_run.
        pure (record {
          last_run = result;
          balance = balance;
          ecs = ecs;
          run_interval_seconds = cfg.run_interval_seconds;
          next_run_at = nullable_timestamp next_run;
          next_start_at = nullable_timestamp (timestamp_of p start);
        }) in
      Keeps->>= Same (read_clock p) (λ now. start now >>= λ start. next_run >>= finish start)
        (λ w h. h)
        λ now.
          Keeps->>= Same (start now) (λ start. next_run >>= finish start) (λ w h. h)
            λ start. Keeps->>= Same next_run (finish start) (λ w h. h) (λ n w h. h)

  pub loads-Keeps : Keeps Same (on_disk {F = F} {C = C} (load p.env p.yaml))
  loads-Keeps w (tables, last, next, requests, file) =
      (tables, last, next, requests, load-Keeps p.env p.yaml before.disk.file w.disk file)

  dashboard-Keeps : Keeps Same (dashboard p)
  unfolding dashboard
  dashboard-Keeps =
      Keeps->>= Same (shown_result p)
        (λ result. shown_balance p >>= λ balance. shown_ecs p result >>= λ ecs.
          on_disk (load p.env p.yaml) >>= with_config p result balance ecs)
        shown_result-Keeps
        λ result.
          Keeps->>= Same (shown_balance p)
            (λ balance. shown_ecs p result >>= λ ecs.
              on_disk (load p.env p.yaml) >>= with_config p result balance ecs)
            shown_balance-Keeps
            λ balance.
              Keeps->>= Same (shown_ecs p result)
                (λ ecs. on_disk (load p.env p.yaml) >>= with_config p result balance ecs)
                (shown_ecs-Keeps result)
                λ ecs.
                  Keeps->>= Same (on_disk (load p.env p.yaml)) (with_config p result balance ecs)
                    loads-Keeps (with_config-Keeps result balance ecs)

module _ {F C : Type 0} ⦃ops : FloatOps F⦄ (p : Platform F C) where
  -- With a view or with an error, the dashboard leaves the tables, the result that is shown, the next
  -- run and the power requests as they were, and the configuration file too, or it was written anew.
  pub dashboard-IsUnchanged : (w : World F C) → IsUnchanged w (dashboard p w).1
  dashboard-IsUnchanged w = dashboard-Keeps p w w (refl, refl, refl, refl, inl refl)
