-- ===== src/App/Service/Requests.antt =====
-- The power requests of `RunOnce` in internal/app/service.go.
use cdtalive.Prelude.{◌≡◌, refl, sym, List, [], ◌∷◌, append-nil}
use cdtalive.Prelude.Actions.{◌>>=◌}
use cdtalive.Prelude.Floats.{FloatOps}
use cdtalive.Prelude.Hoare.{Keeps, Keeps->>=, Triple, Triple->>=, Triple-of-Keeps, Post-both}
use cdtalive.Prelude.Results.{ok}
use cdtalive.Time.{Instant, local_time}
use cdtalive.Config.Disk.{Disk}
use cdtalive.Config.Load.{load}
use cdtalive.Config.Settings.{Config}
use cdtalive.App.Values.{Fields, str, set_all}
use cdtalive.App.World.{Platform, World, Request, read_clock}
use cdtalive.App.Policy.{Outcome, choose, act}
use cdtalive.App.Frames.{Issued, IsStable, Issued-IsStable}
use cdtalive.App.Policy.Laws.{Allows, act-Keeps}
use cdtalive.App.Service.Frames.{check_and_keep-Keeps}
use cdtalive.App.Service.Steps.{AreReadings, At, clock_reads, take_readings-Reads, connect_loads}
use cdtalive.App.Service.{
  connect, run_with, run_on, run_to_end, take_readings, run_fields, check_and_keep, run_once,
}

module _ {F C : Type 0} ⦃ops : FloatOps F⦄ (p : Platform F C) where
  -- What a run may ask for that begins with a disk and with the cloud in a state. The configuration
  -- is loaded from this disk; then the client is made, the clock is read, and the balance and the
  -- traffic are asked of the cloud, each where the call before it left the cloud. The policy picks
  -- the case for just these.
  abbrev pub RunAllows : Disk → C → Request → Type 0
  RunAllows disk c q =
      (cfg : Config F) × (balance : F) × (traffic : F) × ((load p.env p.yaml disk).0 ≡ ok cfg)
      × AreReadings p (p.cloud.now (p.cloud.connect cfg c).1).1 (balance, traffic)
      × Allows cfg.ecs_instance_id
          (choose cfg traffic balance
            (local_time p.location (p.cloud.now (p.cloud.connect cfg c).1).0))
          q

module _ {F C : Type 0} ⦃ops : FloatOps F⦄ (p : Platform F C) (Test : Request → Type 0)
    (before : List Request) where
  abbrev Here : World F C → Type 0
  Here = Issued Test before

  check_and_keep_Issued :
      (cfg : Config F) (complete : Fields F → Fields F) (result : Fields F)
      → Keeps Here (check_and_keep p cfg complete result)
  check_and_keep_Issued =
      check_and_keep-Keeps p Test Here (Issued-IsStable Test before) (λ w result h. h)

  run_to_end_Issued :
      (cfg : Config F) (now : Instant) (readings : F × F) (outcome : Outcome F)
      → Keeps Here (run_to_end p cfg now readings outcome)
  unfolding run_to_end
  run_to_end_Issued cfg now readings outcome =
      check_and_keep_Issued cfg (λ result. set_all result (("status", str "完成") ∷ []))
        (run_fields p cfg now readings.0 readings.1 outcome)

module _ {F C : Type 0} ⦃ops : FloatOps F⦄ (p : Platform F C) (disk : Disk) (c : C)
    (before : List Request) where
  abbrev Fine : World F C → Type 0
  Fine = Issued (RunAllows p disk c) before

  stable : IsStable (RunAllows p disk c) Fine
  stable = Issued-IsStable (RunAllows p disk c) before

  module _ (cfg : Config F) (loaded : (load p.env p.yaml disk).0 ≡ ok cfg) where
    -- The state of the cloud in which a run reads the clock.
    abbrev connected : C
    connected = (p.cloud.connect cfg c).1

    run_on_Issued :
        (readings : F × F)
        → AreReadings p (p.cloud.now connected).1 readings
        → Keeps Fine (run_on p cfg (p.cloud.now connected).0 readings)
    unfolding run_on
    run_on_Issued readings read =
        let now : Instant = (p.cloud.now connected).0 in
        let chosen = choose cfg readings.1 readings.0 (local_time p.location now) in
        Keeps->>= Fine (act p cfg.ecs_instance_id chosen) (run_to_end p cfg now readings)
          (act-Keeps p cfg.ecs_instance_id (RunAllows p disk c) Fine stable chosen
            (λ q ok'. (cfg, readings.0, readings.1, loaded, read, ok')))
          (run_to_end_Issued p (RunAllows p disk c) before cfg now readings)

    run_with_Issued :
        Triple (At p (RunAllows p disk c) Fine stable connected) (run_with p cfg) (λ _. Fine) Fine
    unfolding run_with
    run_with_Issued =
        let Here : C → World F C → Type 0 = At p (RunAllows p disk c) Fine stable in
        let behind : C = (p.cloud.now connected).1 in
        Triple->>= (Here connected) (λ now w. Here behind w × (now ≡ (p.cloud.now connected).0))
          (λ _. Fine) Fine (read_clock p) (λ now. take_readings p cfg now >>= run_on p cfg now)
          (clock_reads p (RunAllows p disk c) Fine stable connected)
          λ now w (h, same). rw same (
            Triple->>= (Here behind) (λ readings w. Fine w × AreReadings p behind readings)
              (λ _. Fine) Fine (take_readings p cfg (p.cloud.now connected).0)
              (run_on p cfg (p.cloud.now connected).0)
              (take_readings-Reads p (RunAllows p disk c) Fine stable cfg (p.cloud.now connected).0
                behind)
              (λ readings v (k, read).
                Triple-of-Keeps Fine (run_on p cfg (p.cloud.now connected).0 readings)
                  (run_on_Issued readings read) v k)
              w h)

  pub run_once_Issued :
      (w : World F C) → w.disk ≡ disk → w.cloud_state ≡ c → Fine w → Fine (run_once p w).1
  unfolding run_once
  run_once_Issued w same at h =
      let Here : C → World F C → Type 0 = At p (RunAllows p disk c) Fine stable in
      Post-both Fine (run_once p w) (
        Triple->>= (λ v. Here c v × (v.disk ≡ disk))
          (λ cfg v. Here (p.cloud.connect cfg c).1 v × ((load p.env p.yaml disk).0 ≡ ok cfg))
          (λ _. Fine) Fine (connect p) (run_with p)
          (connect_loads p (RunAllows p disk c) Fine stable disk c)
          (λ cfg v (k, loaded). run_with_Issued cfg loaded v k) w ((h, at), same))

module _ {F C : Type 0} ⦃ops : FloatOps F⦄ (p : Platform F C) where
  -- Every start and stop that a run asks the cloud for, also one that ends in an error, is allowed by
  -- the case that the policy picks for the configuration loaded from the disk of the beginning, for
  -- the time that this run reads from the clock, and for the balance and the traffic that the cloud
  -- gives this run.
  pub run_once_requests :
      (w : World F C) → Issued (RunAllows p w.disk w.cloud_state) w.requests (run_once p w).1
  run_once_requests w =
      run_once_Issued p w.disk w.cloud_state w.requests w refl refl
        ([], sym (append-nil w.requests), tt)
