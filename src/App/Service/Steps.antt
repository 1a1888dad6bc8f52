-- ===== src/App/Service/Steps.antt =====
-- The steps of `RunOnce` in internal/app/service.go under invariants of the world.
use cdtalive.Prelude.{◌≡◌, refl, inl, sym, ap, String, Option}
use cdtalive.Prelude.Actions.{pure, ◌>>=◌, ◌>>◌}
use cdtalive.Prelude.Floats.{FloatOps}
use cdtalive.Prelude.Int.{ℤ}
use cdtalive.Prelude.Hoare.{
  Keeps, Keeps->>=, Triple, Triple->>=, Post, Post-weaken, Triple-of-Keeps,
}
use cdtalive.Prelude.Results.{Result, ok, err}
use cdtalive.Prelude.Text.{Text}
use cdtalive.Time.{Instant, unix}
use cdtalive.Config.Disk.{Disk}
use cdtalive.Config.Load.{load}
use cdtalive.Config.Presence.{IsKeptFile, load-Keeps}
use cdtalive.Config.Settings.{Config, validate}
use cdtalive.App.Values.{cloud_failure, config_failure}
use cdtalive.App.World.{
  Instance, Platform, World, WorldAction, Request, on_cloud, on_disk, on_store, read_clock,
  config_result, map_error,
}
use cdtalive.Config.Errors.{ConfigError}
use cdtalive.Store.Db.{StoreAction}
use cdtalive.Store.Tables.{EcsState, Metrics}
use cdtalive.Store.Statements.{ecs_state, record_ecs_state, add_balance, add_traffic, save_metrics}
use cdtalive.App.Frames.{IsStable, Keeps-cloud, Keeps-store, Keeps-clock}
use cdtalive.App.Recording.{
  settled_status, next_state, is_scheduled_event, is_unexpected_event, ip_of, record_instance_state,
  record_at, record_found, record_state,
}
use cdtalive.App.Service.{
  round, daily_remaining, days_left, connect, connect_with, keep_traffic, keep_balance,
  take_readings,
}

module _ {F C : Type 0} (p : Platform F C) where
  -- The readings that a cloud gives from a state on: the balance, and the traffic behind it.
  abbrev pub AreReadings : C → F × F → Type 0
  AreReadings c r =
      ((p.cloud.balance c).0 ≡ ok r.0) × ((p.cloud.traffic_gb (p.cloud.balance c).1).0 ≡ ok r.1)

module _ {F C : Type 0} ⦃ops : FloatOps F⦄ (p : Platform F C) (Test : Request → Type 0)
    (Here : World F C → Type 0) (stable : IsStable Test Here) where
  cloud-Keeps : {A : Type 0} (m : C → Result String A × C) → Keeps Here (on_cloud {F = F} m)
  cloud-Keeps = Keeps-cloud Test Here stable

  store-Keeps : {A : Type 0} (m : StoreAction F A) → Keeps Here (on_store {C = C} m)
  store-Keeps = Keeps-store Test Here stable

  -- The cloud is in a given state.
  abbrev pub At : C → World F C → Type 0
  At c w = Here w × (w.cloud_state ≡ c)

  store-At : {A : Type 0} (m : StoreAction F A) (c : C) → Keeps (At c) (on_store m)
  store-At m c w (h, same) = (store-Keeps m w h, same)

  -- A call of the cloud, with what it answers in that state.
  pub on_cloud_reads :
      {A : Type 0} (read : C → Result String A × C) (c : C)
      → Triple (At c) (on_cloud read) (λ a w. At (read c).1 w × ((read c).0 ≡ ok a)) Here
  on_cloud_reads {A} read c w (h, same) = rw same (go (read c).0 refl)
    where
      after : World F C
      after = record w { cloud_state = (read c).1 }

      go :
          (r : Result String A)
          → (read c).0 ≡ r
          → Post
              (λ a w'. At (read c).1 w' × ((read c).0 ≡ ok a))
              Here
              (map_error cloud_failure r, after)
      go (ok a) e = ((stable.cloud_step w (read c).1 h, refl), e)
      go (err x) e = stable.cloud_step w (read c).1 h

  pub clock_reads :
      (c : C)
      → Triple
          (At c)
          (read_clock p)
          (λ now w. At (p.cloud.now c).1 w × (now ≡ (p.cloud.now c).0))
          Here
  clock_reads c w (h, same) = rw same ((stable.cloud_step w (p.cloud.now c).1 h, refl), refl)

  connect_with_returns :
      (cfg : Config F) (c : C)
      → Triple (At c) (connect_with p cfg) (λ r w. At (p.cloud.connect cfg c).1 w × (r ≡ cfg)) Here
  unfolding connect_with
  connect_with_returns cfg c =
      let done : WorldAction F C (Config F) = pure cfg in
      let End : Config F → World F C → Type 0 = λ r w. At (p.cloud.connect cfg c).1 w × (r ≡ cfg) in
      Triple->>= (At c) (λ _. At c) End Here (config_result (validate cfg))
        (λ _. on_cloud (p.cloud.connect cfg) >> done)
        (λ w h.
          Post-weaken (λ _. At c) (λ _. At c) (At c) Here (config_result (validate cfg) w)
            (λ _ _ k. k) (λ _ k. k.0)
            (Triple-of-Keeps (At c) (config_result (validate cfg)) (λ w h. h) w h))
        λ _.
          Triple->>= (At c)
            (λ u w. At (p.cloud.connect cfg c).1 w × ((p.cloud.connect cfg c).0 ≡ ok u)) End Here
            (on_cloud (p.cloud.connect cfg)) (λ _. done) (on_cloud_reads (p.cloud.connect cfg) c)
            λ _ w h. (h.0, refl)

  load_returns :
      (disk : Disk) (c : C)
      → Triple
          (λ w. At c w × (w.disk ≡ disk))
          (on_disk (load p.env p.yaml))
          (λ cfg w. At c w × ((load p.env p.yaml disk).0 ≡ ok cfg))
          Here
  load_returns disk c w ((h, at), same) =
      go (load p.env p.yaml w.disk).0 (ap (λ d. (load p.env p.yaml d).0) (sym same))
    where
      kept : IsKeptFile w.disk.file (load p.env p.yaml w.disk).1
      kept = load-Keeps p.env p.yaml w.disk.file w.disk (inl refl)

      go :
          (r : Result ConfigError (Config F))
          → (load p.env p.yaml disk).0 ≡ r
          → Post
              (λ cfg w'. At c w' × ((load p.env p.yaml disk).0 ≡ ok cfg))
              Here
              (map_error config_failure r, record w { disk = (load p.env p.yaml w.disk).1 })
      go (ok cfg) e = ((stable.disk_step w (load p.env p.yaml w.disk).1 kept h, at), e)
      go (err x) e = stable.disk_step w (load p.env p.yaml w.disk).1 kept h

  pub connect_loads :
      (disk : Disk) (c : C)
      → Triple
          (λ w. At c w × (w.disk ≡ disk))
          (connect p)
          (λ cfg w. At (p.cloud.connect cfg c).1 w × ((load p.env p.yaml disk).0 ≡ ok cfg))
          Here
  unfolding connect
  connect_loads disk c =
      Triple->>= (λ w. At c w × (w.disk ≡ disk))
        (λ cfg w. At c w × ((load p.env p.yaml disk).0 ≡ ok cfg))
        (λ cfg w. At (p.cloud.connect cfg c).1 w × ((load p.env p.yaml disk).0 ≡ ok cfg)) Here
        (on_disk (load p.env p.yaml)) (connect_with p) (load_returns disk c)
        λ cfg w (h, e).
          Post-weaken (λ r w. At (p.cloud.connect cfg c).1 w × (r ≡ cfg))
            (λ r w. At (p.cloud.connect r c).1 w × ((load p.env p.yaml disk).0 ≡ ok r)) Here Here
            (connect_with p cfg w) (λ r w' (h', same). rw same (h', e)) (λ w' h'. h')
            (connect_with_returns cfg c w h)

  abbrev metrics_of : Config F → Instant → F → Metrics F
  metrics_of cfg now traffic = record {
    traffic_gb = round traffic 4;
    traffic_threshold = cfg.traffic_threshold_gb;
    daily_remaining_gb = daily_remaining cfg traffic (days_left p.location now);
  }

  keep_traffic_returns :
      (cfg : Config F) (now : Instant) (balance traffic : F)
      → Triple Here
          (keep_traffic p cfg now balance traffic)
          (λ r w. Here w × (r ≡ (balance, traffic)))
          Here
  unfolding keep_traffic
  keep_traffic_returns cfg now balance traffic =
      let sample : WorldAction F C (Unit {0}) =
        on_store (add_traffic (unix now) (round traffic 4)) in
      let metrics : WorldAction F C (Unit {0}) =
        on_store (save_metrics (metrics_of cfg now traffic)) in
      let done : WorldAction F C (F × F) = pure (balance, traffic) in
      let End : F × F → World F C → Type 0 = λ r w. Here w × (r ≡ (balance, traffic)) in
      Triple->>= Here (λ _ w. Here w) End Here sample (λ _. metrics >> done)
        (Triple-of-Keeps Here sample (store-Keeps (add_traffic (unix now) (round traffic 4))))
        λ _.
          Triple->>= Here (λ _ w. Here w) End Here metrics (λ _. done)
            (Triple-of-Keeps Here metrics (store-Keeps (save_metrics (metrics_of cfg now traffic))))
            λ _ w h. (h, refl)

  abbrev Reads : C → F × F → World F C → Type 0
  Reads c r w = Here w × AreReadings p c r

  keep_balance-Reads :
      (cfg : Config F) (now : Instant) (balance : F) (c : C)
      → (p.cloud.balance c).0 ≡ ok balance
      → Triple (At (p.cloud.balance c).1) (keep_balance p cfg now balance) (Reads c) Here
  unfolding keep_balance
  keep_balance-Reads cfg now balance c given =
      let sample : WorldAction F C (Unit {0}) = on_store (add_balance (unix now) balance) in
      let traffic_read : WorldAction F C F = on_cloud p.cloud.traffic_gb in
      let behind : C = (p.cloud.balance c).1 in
      Triple->>= (At behind) (λ _. At behind) (Reads c) Here sample
        (λ _. traffic_read >>= keep_traffic p cfg now balance)
        (λ w h.
          Post-weaken (λ _. At behind) (λ _. At behind) (At behind) Here (sample w) (λ _ _ k. k)
            (λ _ k. k.0)
            (Triple-of-Keeps (At behind) sample (store-At (add_balance (unix now) balance) behind) w
              h))
        λ _.
          Triple->>= (At behind)
            (λ traffic w.
              At (p.cloud.traffic_gb behind).1 w × ((p.cloud.traffic_gb behind).0 ≡ ok traffic))
            (Reads c) Here traffic_read (keep_traffic p cfg now balance)
            (on_cloud_reads p.cloud.traffic_gb behind)
            λ traffic w (h, read).
              Post-weaken (λ r w. Here w × (r ≡ (balance, traffic))) (Reads c) Here Here
                (keep_traffic p cfg now balance traffic w)
                (λ r w' (h', same). (h', (rw same given, rw same read))) (λ w' h'. h')
                (keep_traffic_returns cfg now balance traffic w h.0)

  pub take_readings-Reads :
      (cfg : Config F) (now : Instant) (c : C)
      → Triple (At c) (take_readings p cfg now) (Reads c) Here
  unfolding take_readings
  take_readings-Reads cfg now c =
      Triple->>= (At c)
        (λ balance w. At (p.cloud.balance c).1 w × ((p.cloud.balance c).0 ≡ ok balance)) (Reads c)
        Here (on_cloud p.cloud.balance) (keep_balance p cfg now) (on_cloud_reads p.cloud.balance c)
        λ balance w (h, given). keep_balance-Reads cfg now balance c given w h

  record_state-Keeps :
      (fallback reason : String) (found : Option Instance) (now : ℤ) (state : EcsState)
      → Keeps Here (record_state p fallback reason found now state)
  unfolding record_state
  record_state-Keeps fallback reason found now state =
      let stored : WorldAction F C (Unit {0}) = on_store (
        record_ecs_state
          (next_state p.parse_time now reason found (settled_status fallback found) state)
          (is_scheduled_event state reason)
          (is_unexpected_event state reason (settled_status fallback found)) now) in
      let done : WorldAction F C (String × String) =
        pure (settled_status fallback found, ip_of found) in
      Keeps->>= Here stored (λ _. done)
        (store-Keeps (
          record_ecs_state
            (next_state p.parse_time now reason found (settled_status fallback found) state)
            (is_scheduled_event state reason)
            (is_unexpected_event state reason (settled_status fallback found)) now))
        λ _ w h. h

  pub record_instance_state-Keeps :
      (id : Text) (fallback reason : String)
      → Keeps Here (record_instance_state p id fallback reason)
  unfolding record_instance_state record_at record_found
  record_instance_state-Keeps id fallback reason =
      Keeps->>= Here (read_clock p) (record_at p id fallback reason)
        (Keeps-clock Test Here stable p)
        λ at.
          Keeps->>= Here (on_cloud (p.cloud.instance_of id)) (record_found p fallback reason at)
            (cloud-Keeps (p.cloud.instance_of id))
            λ found.
              Keeps->>= Here (on_store ecs_state) (record_state p fallback reason found (unix at))
                (store-Keeps ecs_state) (record_state-Keeps fallback reason found (unix at))
