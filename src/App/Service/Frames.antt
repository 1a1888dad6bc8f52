-- ===== src/App/Service/Frames.antt =====
-- Invariants that `RunOnce` and `RefreshECSStatus` of internal/app/service.go keep: those that do not
-- read the shown result either.
use cdtalive.Prelude.{◌≡◌, refl, [], ◌∷◌, String}
use cdtalive.Prelude.Actions.{pure, ◌>>=◌, ◌>>◌}
use cdtalive.Prelude.Floats.{FloatOps}
use cdtalive.Prelude.Hoare.{Keeps, Keeps->>=, Post-weaken, Post-both}
use cdtalive.Prelude.Results.{ok}
use cdtalive.Time.{Instant, unix, local_time}
use cdtalive.Config.Load.{load}
use cdtalive.Config.Settings.{Config}
use cdtalive.Store.Statements.{save_last_result}
use cdtalive.App.Values.{Fields, set, str, int, set_all, get_string}
use cdtalive.App.World.{Platform, World, WorldAction, Request, on_store, read_clock}
use cdtalive.App.Frames.{IsStable, Keeps-store, Keeps-clock}
use cdtalive.App.Policy.{choose, act}
use cdtalive.App.Policy.Laws.{act-Keeps}
use cdtalive.App.Recording.{record_instance_state}
use cdtalive.App.Service.Steps.{
  AreReadings, At, take_readings-Reads, connect_loads, record_instance_state-Keeps,
}
use cdtalive.App.Service.{
  connect, run_with, run_on, run_to_end, take_readings, run_fields, check_and_keep, run_once,
  refresh_ecs_status, status, keep_result, set_last,
}

-- Every request passes.
abbrev pub AnyRequest : Request → Type 0
AnyRequest q = Unit

module _ {F C : Type 0} ⦃ops : FloatOps F⦄ (p : Platform F C) (Test : Request → Type 0)
    (Here : World F C → Type 0) (stable : IsStable Test Here)
    (show : (w : World F C) (result : Fields F) → Here w → Here (record w { last = result })) where
  connect-Keeps : Keeps Here (connect p)
  connect-Keeps w h = Post-both Here (connect p w) (
      let c : C = w.cloud_state in
      Post-weaken
        (λ cfg v.
          At p Test Here stable (p.cloud.connect cfg c).1 v
          × ((load p.env p.yaml w.disk).0 ≡ ok cfg))
        (λ _. Here) Here Here (connect p w) (λ cfg v (k, _). k.0) (λ v k. k)
        (connect_loads p Test Here stable w.disk c w ((h, refl), refl)))

  take_readings-Keeps : (cfg : Config F) (now : Instant) → Keeps Here (take_readings p cfg now)
  take_readings-Keeps cfg now w h = Post-both Here (take_readings p cfg now w) (
      Post-weaken (λ r v. Here v × AreReadings p w.cloud_state r) (λ _. Here) Here Here
        (take_readings p cfg now w) (λ r v (k, _). k) (λ v k. k)
        (take_readings-Reads p Test Here stable cfg now w.cloud_state w (h, refl)))

  keep_result-Keeps :
      (complete : Fields F → Fields F) (result : Fields F) (checked : String × String)
      → Keeps Here (keep_result p complete result checked)
  unfolding keep_result
  keep_result-Keeps complete result checked =
      let completed =
        complete (set "ecs_public_ip" (str checked.1) (set "ecs_status" (str checked.0) result)) in
      let stored : WorldAction F C (Unit {0}) =
        on_store (save_last_result (p.json.marshal completed)) in
      let shown : WorldAction F C (Unit {0}) = set_last completed in
      let done : WorldAction F C (Fields F) = pure completed in
      Keeps->>= Here stored (λ _. shown >> done)
        (Keeps-store Test Here stable (save_last_result (p.json.marshal completed)))
        λ _. Keeps->>= Here shown (λ _. done) (λ w h. show w completed h) λ _ w h. h

  pub check_and_keep-Keeps :
      (cfg : Config F) (complete : Fields F → Fields F) (result : Fields F)
      → Keeps Here (check_and_keep p cfg complete result)
  unfolding check_and_keep
  check_and_keep-Keeps cfg complete result =
      Keeps->>= Here
        (record_instance_state p cfg.ecs_instance_id (get_string "ecs_status" result)
          (get_string "reason" result))
        (keep_result p complete result)
        (record_instance_state-Keeps p Test Here stable cfg.ecs_instance_id
          (get_string "ecs_status" result) (get_string "reason" result))
        (keep_result-Keeps complete result)

  pub refresh_ecs_status-Keeps : Keeps Here (refresh_ecs_status p)
  unfolding refresh_ecs_status
  refresh_ecs_status-Keeps =
      let rest : Config F → Fields F → Instant → WorldAction F C (Fields F) = λ cfg seen now.
        check_and_keep p cfg (λ result. result) (set "ecs_checked_at" (int (unix now)) seen) in
      Keeps->>= Here (connect p) (λ cfg. status >>= λ seen. read_clock p >>= rest cfg seen)
        connect-Keeps
        λ cfg.
          Keeps->>= Here status (λ seen. read_clock p >>= rest cfg seen) (λ w h. h)
            λ seen.
              Keeps->>= Here (read_clock p) (rest cfg seen) (Keeps-clock Test Here stable p) λ now.
                check_and_keep-Keeps cfg (λ result. result)
                  (set "ecs_checked_at" (int (unix now)) seen)

module _ {F C : Type 0} ⦃ops : FloatOps F⦄ (p : Platform F C) (Here : World F C → Type 0)
    (stable : IsStable AnyRequest Here)
    (show : (w : World F C) (result : Fields F) → Here w → Here (record w { last = result })) where
  run_on-Keeps :
      (cfg : Config F) (now : Instant) (readings : F × F) → Keeps Here (run_on p cfg now readings)
  unfolding run_on run_to_end
  run_on-Keeps cfg now readings =
      let chosen = choose cfg readings.1 readings.0 (local_time p.location now) in
      Keeps->>= Here (act p cfg.ecs_instance_id chosen) (run_to_end p cfg now readings)
        (act-Keeps p cfg.ecs_instance_id AnyRequest Here stable chosen (λ q _. tt))
        λ outcome.
          check_and_keep-Keeps p AnyRequest Here stable show cfg
            (λ result. set_all result (("status", str "完成") ∷ []))
            (run_fields p cfg now readings.0 readings.1 outcome)

  run_with-Keeps : (cfg : Config F) → Keeps Here (run_with p cfg)
  unfolding run_with
  run_with-Keeps cfg =
      Keeps->>= Here (read_clock p) (λ now. take_readings p cfg now >>= run_on p cfg now)
        (Keeps-clock AnyRequest Here stable p)
        λ now.
          Keeps->>= Here (take_readings p cfg now) (run_on p cfg now)
            (take_readings-Keeps p AnyRequest Here stable show cfg now) (run_on-Keeps cfg now)

  pub run_once-Keeps : Keeps Here (run_once p)
  unfolding run_once
  run_once-Keeps =
      Keeps->>= Here (connect p) (run_with p) (connect-Keeps p AnyRequest Here stable show)
        run_with-Keeps
