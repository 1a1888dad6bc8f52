-- ===== src/App/Scheduler/Laws.antt =====
-- The times of internal/app/scheduler.go: the end of the wait, and how a turn of the loop ends.
use cdtalive.Prelude.{
  ◌+◌, ◌*◌, ◌≤◌, ◌≡◌, refl, ◌⊎◌, [], ◌∷◌, Bool, true, false, Option, none, some, if◌then◌else◌,
  arith,
}
use cdtalive.Prelude.Actions.{pure, gets, ◌>>=◌, ◌>>◌}
use cdtalive.Prelude.Int.{ℤ}
use cdtalive.Prelude.Floats.{FloatOps}
use cdtalive.Prelude.Hoare.{Post, Triple, Triple->>=}
use cdtalive.App.Values.{Failure, Fields, failure, str, get, get_string}
use cdtalive.Config.Settings.{Config}
use cdtalive.Config.Disk.{Disk, exists_in}
use cdtalive.Time.{Instant, second, unix}
use cdtalive.Config.Load.{load}
use cdtalive.App.Scheduler.{
  Loop, Kind, regular, boundary, quick, idle, kind_of, poll_interval, wake_at, attempt,
  attempt_value, failure_of, report, run_kind, after_run, interval_of, ahead, find_boundary,
  boundary_at, settle, go_round, make_round, turn,
}
use cdtalive.App.World.{Platform, World, WorldAction, on_disk, read_clock}
use cdtalive.App.Service.{
  is_transitioning, run_once, refresh_ecs_status, set_failure, set_next_run_at, set_uninitialized,
}

-- No later than a time, where there is one.
abbrev pub IsBy : Instant → Option Instant → Type 0
IsBy t none = Unit
IsBy t (some at) = t ≤ at

-- What a round waits for besides the boundary: where a start or stop is awaited, 15 seconds ahead, and
-- else the next regular run.
abbrev pub regular_wake : Option Instant → Bool → Instant → Option Instant
regular_wake next_regular true now = some (now + poll_interval)
regular_wake next_regular false now = next_regular

-- The instant that a round waits for is the sooner one of the next boundary and, where a start or stop
-- is awaited, the instant 15 seconds ahead, or else the next regular run. Where there is neither,
-- it is five minutes ahead.
pub wake_at_lem :
    (next_boundary next_regular : Option Instant) (transitioning : Bool) (now : Instant)
    → IsBy (wake_at next_boundary next_regular transitioning now) next_boundary
      × IsBy
          (wake_at next_boundary next_regular transitioning now)
          (regular_wake next_regular transitioning now)
      × ((some (wake_at next_boundary next_regular transitioning now) ≡ next_boundary)
          ⊎ (some (wake_at next_boundary next_regular transitioning now)
              ≡ regular_wake next_regular transitioning now)
          ⊎ ((next_boundary ≡ none)
              × (regular_wake next_regular transitioning now ≡ none)
              × (wake_at next_boundary next_regular transitioning now ≡ now + 300 * second)))
unfolding wake_at
wake_at_lem none none true now = ground arith
wake_at_lem none (some r) true now = ground arith
wake_at_lem (some b) none true now = ground arith
wake_at_lem (some b) (some r) true now = ground arith
wake_at_lem none none false now = ground arith
wake_at_lem none (some r) false now = ground arith
wake_at_lem (some b) none false now = ground arith
wake_at_lem (some b) (some r) false now = ground arith

module _ {F C : Type 0} ⦃ops : FloatOps F⦄ (p : Platform F C) where
  abbrev pub Any : World F C → Type 0
  Any w = Unit

  abbrev pub Never : World F C → Type 0
  Never w = ⊥

  -- The service shows the instant that a turn waits for, or that there is no configuration.
  abbrev pub ShowsWait : Option Instant × Loop → World F C → Type 0
  ShowsWait (some at, loop) w = w.next_run_at ≡ unix at
  ShowsWait (none, loop) w = get_string "status" w.last ≡ "未初始化"

  abbrev ShowsNext : Instant × Loop → World F C → Type 0
  ShowsNext r w = w.next_run_at ≡ unix r.0

  pub run_kind_ends : (kind : Kind) → Triple Any (run_kind p kind) (λ _. Any) Never
  unfolding run_kind attempt
  run_kind_ends regular w h = tt
  run_kind_ends boundary w h = tt
  run_kind_ends quick w h = tt
  run_kind_ends idle w h = tt

  pub report_ends : (failed : Option Failure) → Triple Any (report failed) (λ _. Any) Never
  unfolding report set_failure
  report_ends none w h = tt
  report_ends (some e) w h = tt

  module _ (Here : World F C → Type 0)
      (cloud_step : (w : World F C) (c : C) → Here w → Here (record w { cloud_state = c }))
      (disk_step : (w : World F C) (d : Disk) → Here w → Here (record w { disk = d }))
      (next_step : (w : World F C) (at : ℤ) → Here w → Here (record w { next_run_at = at })) where
    clock_ends : Triple Here (read_clock p) (λ _. Here) Never
    clock_ends w h = cloud_step w (p.cloud.now w.cloud_state).1 h

    loaded_ends : Triple Here (attempt_value (on_disk (load p.env p.yaml))) (λ _. Here) Never
    unfolding attempt_value
    loaded_ends w h = disk_step w (load p.env p.yaml w.disk).1 h

    after_run_ends :
        (kind : Kind) (loop : Loop) → Triple Here (after_run p kind loop) (λ _. Here) Never
    unfolding after_run
    after_run_ends regular loop =
        let later : Option (Config F) → Instant → WorldAction F C Loop = λ cfg now.
          pure (record loop {
            force_run = false;
            next_regular = some (ahead now (interval_of p cfg));
          }) in
        Triple->>= Here (λ _. Here) (λ _. Here) Never (attempt_value (on_disk (load p.env p.yaml)))
          (λ cfg. read_clock p >>= later cfg) loaded_ends
          λ cfg.
            Triple->>= Here (λ _. Here) (λ _. Here) Never (read_clock p) (later cfg) clock_ends
              λ now w h. h
    after_run_ends boundary loop = λ w h. h
    after_run_ends quick loop = λ w h. h
    after_run_ends idle loop = λ w h. h

    found : Option (Config F) → WorldAction F C (Option Instant)
    found none = pure none
    found (some cfg) = read_clock p >>= λ now. pure (boundary_at p cfg now)

    pub find_boundary_ends : Triple Here (find_boundary p) (λ _. Here) Never
    unfolding find_boundary found
    find_boundary_ends =
        Triple->>= Here (λ _. Here) (λ _. Here) Never (attempt_value (on_disk (load p.env p.yaml)))
          found loaded_ends found_ends
      where
        found_ends : (cfg : Option (Config F)) → Triple Here (found cfg) (λ _. Here) Never
        found_ends none w h = h
        found_ends (some cfg) w h = clock_ends w h

    abbrev HasNext : Instant × Loop → World F C → Type 0
    HasNext r w = ShowsNext r w × Here w

    settle_ends : (loop : Loop) → Triple Here (settle p loop) HasNext Never
    unfolding settle set_next_run_at
    settle_ends loop =
        let finish : Option Instant → Instant → Bool → WorldAction F C (Instant × Loop) =
          λ next now transitioning.
            set_next_run_at (unix (wake_at next loop.next_regular transitioning now))
            >> pure (
              wake_at next loop.next_regular transitioning now,
              record loop { next_boundary = next },
            ) in
        Triple->>= Here (λ _. Here) HasNext Never (find_boundary p)
          (λ next. read_clock p >>= λ now. gets is_transitioning >>= finish next now)
          find_boundary_ends
          λ next.
            Triple->>= Here (λ _. Here) HasNext Never (read_clock p)
              (λ now. gets is_transitioning >>= finish next now) clock_ends
              λ now.
                Triple->>= Here (λ _. Here) HasNext Never (gets is_transitioning) (finish next now)
                  (λ w h. h)
                  λ transitioning w h.
                    (refl, next_step w (unix (wake_at next loop.next_regular transitioning now)) h)

    -- What follows the run of a round and the report of its error.
    pub settled_ends :
        (kind : Kind) (loop : Loop) → Triple Here (after_run p kind loop >>= settle p) HasNext Never
    settled_ends kind loop =
        Triple->>= Here (λ _. Here) HasNext Never (after_run p kind loop) (settle p)
          (after_run_ends kind loop) settle_ends

  -- What the run of a round returns in error, and what it leaves.
  abbrev pub run_end : Kind → World F C → Option Failure × World F C
  run_end regular w = (failure_of (run_once p w).0, (run_once p w).1)
  run_end boundary w = (failure_of (run_once p w).0, (run_once p w).1)
  run_end quick w = (failure_of (refresh_ecs_status p w).0, (refresh_ecs_status p w).1)
  run_end idle w = (none, w)

  -- The error of a run is shown as a failed run; else what the run left is shown.
  abbrev pub ShowsEnd : Option Failure × World F C → World F C → Type 0
  ShowsEnd (none, ran) w = w.last ≡ ran.last
  ShowsEnd (some e, ran) w = w.last ≡ ("status", str "失败") ∷ ("error", failure e) ∷ []

  -- With a configuration file, what the end of the run shows that the round makes.
  abbrev pub ShowsRun : Bool → Loop → World F C → World F C → Type 0
  ShowsRun false loop before w = Unit
  ShowsRun true loop before w =
      let begun : World F C = (read_clock p before).1 in
      ShowsEnd
        (run_end (kind_of loop (p.cloud.now before.cloud_state).0 (is_transitioning begun)) begun) w

  abbrev HasEnd : Option Failure × World F C → Instant × Loop → World F C → Type 0
  HasEnd end r w = ShowsNext r w × ShowsEnd end w

  reported_ends :
      (failed : Option Failure) (kind : Kind) (loop : Loop) (w : World F C)
      → Post (HasEnd (failed, w)) Never ((report failed >> (after_run p kind loop >>= settle p)) w)
  unfolding report set_failure
  reported_ends none kind loop w =
      settled_ends (λ v. v.last ≡ w.last) (λ v c h. h) (λ v d h. h) (λ v at h. h) kind loop w refl
  reported_ends (some e) kind loop w =
      let shown : Fields F = ("status", str "失败") ∷ ("error", failure e) ∷ [] in
      settled_ends (λ v. v.last ≡ shown) (λ v c h. h) (λ v d h. h) (λ v at h. h) kind loop
        (record w { last = shown }) refl

  go_round_ends :
      (loop : Loop) (kind : Kind) (w : World F C)
      → Post (HasEnd (run_end kind w)) Never (go_round p loop kind w)
  unfolding go_round run_kind attempt
  go_round_ends loop regular w =
      reported_ends (failure_of (run_once p w).0) regular loop (run_once p w).1
  go_round_ends loop boundary w =
      reported_ends (failure_of (run_once p w).0) boundary loop (run_once p w).1
  go_round_ends loop quick w =
      reported_ends (failure_of (refresh_ecs_status p w).0) quick loop (refresh_ecs_status p w).1
  go_round_ends loop idle w = reported_ends none idle loop w

  pub turn_waits :
      (loop : Loop) (w : World F C)
      → Post (λ r v. ShowsWait r v × ShowsRun (exists_in w.disk) loop w v) (λ _. ⊥) (turn p loop w)
  unfolding turn make_round set_uninitialized get_string get
  turn_waits loop w = choice (exists_in w.disk)
    where
      begun : World F C
      begun = (read_clock p w).1

      kind : Kind
      kind = kind_of loop (p.cloud.now w.cloud_state).0 (is_transitioning begun)

      waits : Instant × Loop → WorldAction F C (Option Instant × Loop)
      waits waited = pure (some waited.0, waited.1)

      over : WorldAction F C (Option Instant × Loop)
      over = pure (none, record loop { next_regular = none; next_boundary = none })

      choice :
          (present : Bool)
          → Post
              (λ r v. ShowsWait r v × ShowsRun present loop w v)
              (λ _. ⊥)
              ((if present then make_round p loop >>= waits else set_uninitialized >> over) w)
      choice true =
          Triple->>= (λ v. v ≡ w) (HasEnd (run_end kind begun))
            (λ r v. ShowsWait r v × ShowsRun true loop w v) Never (make_round p loop) waits
            (λ v same. rw same (go_round_ends loop kind begun)) (λ waited v h. h) w refl
      choice false = (refl, tt)
