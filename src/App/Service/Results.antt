-- ===== src/App/Service/Results.antt =====
-- How a run of internal/app/service.go ends: what is stored, shown and returned.
use cdtalive.Prelude.{◌≡◌, refl, [], ◌∷◌, Bool-cases, inl, inr, String, Option, none, some}
use cdtalive.Prelude.Actions.{pure, ◌>>=◌, ◌>>◌}
use cdtalive.Prelude.Floats.{FloatOps}
use cdtalive.Prelude.Hoare.{Triple, Triple->>=, Post, Post-weaken, Triple-of-Keeps}
use cdtalive.Prelude.Results.{ok}
use cdtalive.Prelude.Text.{Text}
use cdtalive.Time.{Instant, local_time, unix}
use cdtalive.Config.Load.{load}
use cdtalive.Config.Settings.{Config}
use cdtalive.Store.Db.{next_fails, exec}
use cdtalive.Store.Statements.{save_last_result}
use cdtalive.App.Frames.{IsStable}
use cdtalive.App.Policy.{Outcome, choose, act}
use cdtalive.App.Policy.Laws.{act-Keeps}
use cdtalive.App.Recording.{record_instance_state}
use cdtalive.App.Values.{Fields, set, str, int, set_all, get_string}
use cdtalive.App.World.{Platform, World, WorldAction, Request, on_store, read_clock}
use cdtalive.App.Service.{
  connect, take_readings, run_fields, keep_result, check_and_keep, run_to_end, run_on, run_with,
  run_once, refresh_ecs_status, set_last, status,
}
use cdtalive.App.Service.Steps.{
  AreReadings, At, take_readings-Reads, connect_loads, record_instance_state-Keeps,
}

abbrev Any : Request → Type 0
Any _ = Unit

module _ {F C : Type 0} (p : Platform F C) where
  -- The result that was returned is shown, and its text is stored.
  abbrev pub IsKept : Fields F → World F C → Type 0
  IsKept result w =
      (w.last ≡ result)
      × ((text : Text) × (p.json.marshal result ≡ some text)
          × (w.db.tables.last_result ≡ some text))

module _ {F C : Type 0} ⦃ops : FloatOps F⦄ (p : Platform F C) (shown : Fields F) where
  abbrev pub Shows : World F C → Type 0
  Shows w = w.last ≡ shown

  Shows-IsStable : IsStable Any Shows
  Shows-IsStable = record {
    cloud_step = λ w c h. h;
    store_step = λ w d h. h;
    disk_step = λ w d k h. h;
    request_step = λ w q t h. h;
  }

  save_last_result_stores :
      (result : Fields F)
      → Triple Shows
          (on_store (save_last_result (p.json.marshal result)))
          (λ _ w.
            (text : Text) × (p.json.marshal result ≡ some text)
            × (w.db.tables.last_result ≡ some text))
          Shows
  unfolding save_last_result exec
  save_last_result_stores result w h = go (p.json.marshal result) refl
    where
      go :
          (m : Option Text)
          → p.json.marshal result ≡ m
          → Post
              (λ _ w.
                (text : Text) × (p.json.marshal result ≡ some text)
                × (w.db.tables.last_result ≡ some text))
              Shows
              (on_store (save_last_result m) w)
      go none e = h
      go (some text) e = elim (Bool-cases (next_fails w.db.faults)) [
        | inl fails ↦ rw (fails, Post) h
        | inr works ↦ rw (works, Post) (text, e, refl)
      ]

  keep_result_keeps :
      (complete : Fields F → Fields F) (result : Fields F) (checked : String × String)
      → Triple Shows (keep_result p complete result checked) (IsKept p) Shows
  unfolding keep_result
  keep_result_keeps complete result checked =
      let completed =
        complete (set "ecs_public_ip" (str checked.1) (set "ecs_status" (str checked.0) result)) in
      let stored : WorldAction F C (Unit {0}) =
        on_store (save_last_result (p.json.marshal completed)) in
      let show : WorldAction F C (Unit {0}) = set_last completed in
      let done : WorldAction F C (Fields F) = pure completed in
      Triple->>= Shows
        (λ _ w.
          (text : Text) × (p.json.marshal completed ≡ some text)
          × (w.db.tables.last_result ≡ some text))
        (IsKept p) Shows stored (λ _. show >> done) (save_last_result_stores completed)
        λ _ w h. (refl, h)

  check_and_keep_keeps :
      (cfg : Config F) (complete : Fields F → Fields F) (result : Fields F)
      → Triple Shows (check_and_keep p cfg complete result) (IsKept p) Shows
  unfolding check_and_keep
  check_and_keep_keeps cfg complete result =
      let check =
        record_instance_state p cfg.ecs_instance_id (get_string "ecs_status" result)
          (get_string "reason" result) in
      Triple->>= Shows (λ _. Shows) (IsKept p) Shows check (keep_result p complete result)
        (Triple-of-Keeps Shows check (
          record_instance_state-Keeps p Any Shows Shows-IsStable cfg.ecs_instance_id
            (get_string "ecs_status" result) (get_string "reason" result)))
        (keep_result_keeps complete result)

  run_to_end_keeps :
      (cfg : Config F) (now : Instant) (readings : F × F) (outcome : Outcome F)
      → Triple Shows (run_to_end p cfg now readings outcome) (IsKept p) Shows
  unfolding run_to_end
  run_to_end_keeps cfg now readings outcome =
      check_and_keep_keeps cfg (λ result. set_all result (("status", str "完成") ∷ []))
        (run_fields p cfg now readings.0 readings.1 outcome)

  run_on_keeps :
      (cfg : Config F) (now : Instant) (readings : F × F)
      → Triple Shows (run_on p cfg now readings) (IsKept p) Shows
  unfolding run_on
  run_on_keeps cfg now readings =
      let chosen = choose cfg readings.1 readings.0 (local_time p.location now) in
      Triple->>= Shows (λ _. Shows) (IsKept p) Shows (act p cfg.ecs_instance_id chosen)
        (run_to_end p cfg now readings)
        (Triple-of-Keeps Shows (act p cfg.ecs_instance_id chosen)
          (act-Keeps p cfg.ecs_instance_id Any Shows Shows-IsStable chosen (λ _ _. tt)))
        (run_to_end_keeps cfg now readings)

  run_with_keeps : (cfg : Config F) → Triple Shows (run_with p cfg) (IsKept p) Shows
  unfolding run_with
  run_with_keeps cfg =
      Triple->>= Shows (λ _. Shows) (IsKept p) Shows (read_clock p)
        (λ now. take_readings p cfg now >>= run_on p cfg now) (λ w h. h)
        λ now.
          Triple->>= Shows (λ _. Shows) (IsKept p) Shows (take_readings p cfg now)
            (run_on p cfg now)
            (λ w h.
              Post-weaken (λ r v. Shows v × AreReadings p w.cloud_state r) (λ _. Shows) Shows Shows
                (take_readings p cfg now w) (λ r v (k, _). k) (λ v k. k)
                (take_readings-Reads p Any Shows Shows-IsStable cfg now w.cloud_state w (h, refl)))
            (run_on_keeps cfg now)

  connect-Shows : Triple Shows (connect p) (λ _. Shows) Shows
  connect-Shows w h =
      let c : C = w.cloud_state in
      Post-weaken
        (λ cfg v.
          At p Any Shows Shows-IsStable (p.cloud.connect cfg c).1 v
          × ((load p.env p.yaml w.disk).0 ≡ ok cfg))
        (λ _. Shows) Shows Shows (connect p w) (λ cfg v (k, _). k.0) (λ v k. k)
        (connect_loads p Any Shows Shows-IsStable w.disk c w ((h, refl), refl))

  run_once_keeps : Triple Shows (run_once p) (IsKept p) Shows
  unfolding run_once
  run_once_keeps =
      Triple->>= Shows (λ _. Shows) (IsKept p) Shows (connect p) (run_with p) connect-Shows
        run_with_keeps

  refresh_ecs_status_keeps : Triple Shows (refresh_ecs_status p) (IsKept p) Shows
  unfolding refresh_ecs_status
  refresh_ecs_status_keeps =
      let rest : Config F → Fields F → Instant → WorldAction F C (Fields F) = λ cfg seen now.
        check_and_keep p cfg (λ result. result) (set "ecs_checked_at" (int (unix now)) seen) in
      Triple->>= Shows (λ _. Shows) (IsKept p) Shows (connect p)
        (λ cfg. status >>= λ seen. read_clock p >>= rest cfg seen) connect-Shows
        λ cfg.
          Triple->>= Shows (λ _. Shows) (IsKept p) Shows status
            (λ seen. read_clock p >>= rest cfg seen) (λ w h. h)
            λ seen.
              Triple->>= Shows (λ _. Shows) (IsKept p) Shows (read_clock p) (rest cfg seen)
                (λ w h. h)
                λ now.
                  check_and_keep_keeps cfg (λ result. result)
                    (set "ecs_checked_at" (int (unix now)) seen)

module _ {F C : Type 0} ⦃ops : FloatOps F⦄ (p : Platform F C) (w : World F C) where
  -- A run ends in one of two ways. With a result, that result is the one that is shown afterwards,
  -- and the database holds its text. With an error, what was shown before is shown still.
  pub run_once_result : Post (IsKept p) (λ v. v.last ≡ w.last) (run_once p w)
  run_once_result = run_once_keeps p w.last w refl

  -- A quick check ends in one of two ways. With a result, that result is the one that is shown
  -- afterwards, and the database holds its text. With an error, what was shown before is shown still.
  pub refresh_ecs_status_result : Post (IsKept p) (λ v. v.last ≡ w.last) (refresh_ecs_status p w)
  refresh_ecs_status_result = refresh_ecs_status_keeps p w.last w refl
