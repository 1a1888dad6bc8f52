-- ===== src/App/Scheduler/Frames.antt =====
-- What the loop of internal/app/scheduler.go keeps of the world.
use cdtalive.Prelude.{refl, inl, [], ◌∷◌, Bool, true, false, Option, none, some, if◌then◌else◌}
use cdtalive.Prelude.Actions.{pure, gets, ◌>>=◌, ◌>>◌}
use cdtalive.Prelude.Floats.{FloatOps}
use cdtalive.Prelude.Hoare.{Keeps, Keeps->>=, Leads, Leads->>=}
use cdtalive.Prelude.Int.{ℤ}
use cdtalive.Time.{Instant, unix}
use cdtalive.Config.Disk.{exists_in}
use cdtalive.Config.Load.{load}
use cdtalive.Config.Presence.{load-Keeps}
use cdtalive.Config.Settings.{Config}
use cdtalive.App.Frames.{IsStable, Keeps-clock}
use cdtalive.App.Scheduler.{
  Loop, Kind, regular, boundary, quick, idle, kind_of, wake_at, attempt, attempt_value, report,
  run_kind, after_run, interval_of, ahead, find_boundary, boundary_at, settle, go_round, make_round,
  turn,
}
use cdtalive.App.Service.{is_transitioning, set_failure, set_next_run_at, set_uninitialized}
use cdtalive.App.Service.Frames.{AnyRequest, run_once-Keeps, refresh_ecs_status-Keeps}
use cdtalive.App.Values.{Failure, Fields, str, failure}
use cdtalive.App.World.{Platform, World, WorldAction, Request, on_disk, read_clock}

module _ {F C : Type 0} ⦃ops : FloatOps F⦄ (p : Platform F C) (Test : Request → Type 0)
    (Before Ready Here : World F C → Type 0) (stable : IsStable Test Here)
    (show : (w : World F C) (result : Fields F) → Here w → Here (record w { last = result }))
    (show_next : (w : World F C) (at : ℤ) → Here w → Here (record w { next_run_at = at }))
    (begin : (w : World F C) → Before w → Here w) (tick : Leads Before (read_clock p) Ready)
    (run : (kind : Kind) → Leads Ready (run_kind p kind) Here) where
  clock-Keeps : Keeps Here (read_clock p)
  clock-Keeps = Keeps-clock Test Here stable p

  report-Keeps : (failed : Option Failure) → Keeps Here (report failed)
  unfolding report set_failure
  report-Keeps none w h = h
  report-Keeps (some e) w h = show w (("status", str "失败") ∷ ("error", failure e) ∷ []) h

  loaded-Keeps : Keeps Here (attempt_value (on_disk (load p.env p.yaml)))
  unfolding attempt_value
  loaded-Keeps w h =
      stable.disk_step w (load p.env p.yaml w.disk).1
        (load-Keeps p.env p.yaml w.disk.file w.disk (inl refl)) h

  after_run-Keeps : (kind : Kind) (loop : Loop) → Keeps Here (after_run p kind loop)
  unfolding after_run
  after_run-Keeps regular loop =
      let later : Option (Config F) → Instant → WorldAction F C Loop = λ cfg now.
        pure (record loop {
          force_run = false;
          next_regular = some (ahead now (interval_of p cfg));
        }) in
      Keeps->>= Here (attempt_value (on_disk (load p.env p.yaml)))
        (λ cfg. read_clock p >>= later cfg) loaded-Keeps
        λ cfg. Keeps->>= Here (read_clock p) (later cfg) clock-Keeps λ now w h. h
  after_run-Keeps boundary loop = λ w h. h
  after_run-Keeps quick loop = λ w h. h
  after_run-Keeps idle loop = λ w h. h

  found : Option (Config F) → WorldAction F C (Option Instant)
  found none = pure none
  found (some cfg) = read_clock p >>= λ now. pure (boundary_at p cfg now)

  find_boundary-Keeps : Keeps Here (find_boundary p)
  unfolding find_boundary found
  find_boundary-Keeps =
      Keeps->>= Here (attempt_value (on_disk (load p.env p.yaml))) found loaded-Keeps found-Keeps
    where
      found-Keeps : (cfg : Option (Config F)) → Keeps Here (found cfg)
      found-Keeps none w h = h
      found-Keeps (some cfg) w h = clock-Keeps w h

  settle-Keeps : (loop : Loop) → Keeps Here (settle p loop)
  unfolding settle set_next_run_at
  settle-Keeps loop =
      let finish : Option Instant → Instant → Bool → WorldAction F C (Instant × Loop) =
        λ next now transitioning.
          set_next_run_at (unix (wake_at next loop.next_regular transitioning now))
          >> pure (
            wake_at next loop.next_regular transitioning now,
            record loop { next_boundary = next },
          ) in
      Keeps->>= Here (find_boundary p)
        (λ next. read_clock p >>= λ now. gets is_transitioning >>= finish next now)
        find_boundary-Keeps
        λ next.
          Keeps->>= Here (read_clock p) (λ now. gets is_transitioning >>= finish next now)
            clock-Keeps
            λ now.
              Keeps->>= Here (gets is_transitioning) (finish next now) (λ w h. h)
                λ transitioning w h.
                  show_next w (unix (wake_at next loop.next_regular transitioning now)) h

  go_round_leads : (loop : Loop) (kind : Kind) → Leads Ready (go_round p loop kind) Here
  unfolding go_round
  go_round_leads loop kind =
      Leads->>= Ready Here (run_kind p kind)
        (λ failed. report failed >> (after_run p kind loop >>= settle p)) (run kind)
        λ failed.
          Keeps->>= Here (report failed) (λ _. after_run p kind loop >>= settle p)
            (report-Keeps failed)
            λ _.
              Keeps->>= Here (after_run p kind loop) (settle p) (after_run-Keeps kind loop)
                settle-Keeps

  make_round_leads : (loop : Loop) → Leads Before (make_round p loop) Here
  unfolding make_round
  make_round_leads loop w h =
      go_round_leads loop
        (kind_of loop (p.cloud.now w.cloud_state).0 (is_transitioning (read_clock p w).1))
        (read_clock p w).1 (tick w h)

  -- What holds behind every turn, from what holds behind its run.
  pub turn_leads : (loop : Loop) → Leads Before (turn p loop) Here
  unfolding turn set_uninitialized
  turn_leads loop w h = choice (exists_in w.disk) w h
    where
      waits : Instant × Loop → WorldAction F C (Option Instant × Loop)
      waits waited = pure (some waited.0, waited.1)

      over : WorldAction F C (Option Instant × Loop)
      over = pure (none, record loop { next_regular = none; next_boundary = none })

      choice :
          (present : Bool)
          → Leads Before
              (if present then make_round p loop >>= waits else set_uninitialized >> over)
              Here
      choice true =
          Leads->>= Before Here (make_round p loop) waits (make_round_leads loop) λ waited w h. h
      choice false =
          λ v k. show v (("status", str "未初始化") ∷ ("error", str "配置文件不存在") ∷ []) (begin v k)

module _ {F C : Type 0} ⦃ops : FloatOps F⦄ (p : Platform F C) (Here : World F C → Type 0)
    (stable : IsStable AnyRequest Here)
    (show : (w : World F C) (result : Fields F) → Here w → Here (record w { last = result }))
    (show_next : (w : World F C) (at : ℤ) → Here w → Here (record w { next_run_at = at })) where
  run_kind-Keeps : (kind : Kind) → Keeps Here (run_kind p kind)
  unfolding run_kind attempt
  run_kind-Keeps regular w h = run_once-Keeps p Here stable show w h
  run_kind-Keeps boundary w h = run_once-Keeps p Here stable show w h
  run_kind-Keeps quick w h = refresh_ecs_status-Keeps p AnyRequest Here stable show w h
  run_kind-Keeps idle w h = h

  pub turn-Keeps : (loop : Loop) → Keeps Here (turn p loop)
  turn-Keeps =
      turn_leads p AnyRequest Here Here Here stable show show_next (λ w h. h)
        (Keeps-clock AnyRequest Here stable p) run_kind-Keeps
