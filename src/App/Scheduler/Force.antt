-- ===== src/App/Scheduler/Force.antt =====
-- The variable `forceRun` of the loop in internal/app/scheduler.go.
use cdtalive.Prelude.{
  ◌≡◌, refl, ap, ◌∙◌, ◌⊎◌, inl, inr, Bool, true, false, Option, none, some, if◌then◌else◌,
}
use cdtalive.Prelude.Actions.{pure, gets, ◌>>=◌, ◌>>◌}
use cdtalive.Prelude.Floats.{FloatOps}
use cdtalive.Prelude.Hoare.{Post, Post-weaken, Triple, Triple->>=}
use cdtalive.Time.{Instant, unix}
use cdtalive.Config.Disk.{exists_in}
use cdtalive.App.Scheduler.{
  Loop, Kind, regular, boundary, quick, idle, kind_of, wake_at, attempt_value, report, run_kind,
  after_run, find_boundary, settle, go_round, make_round, turn,
}
use cdtalive.App.Scheduler.Laws.{Any, Never, run_kind_ends, report_ends, find_boundary_ends}
use cdtalive.App.Service.{is_transitioning, set_next_run_at, set_uninitialized}
use cdtalive.App.World.{Platform, World, WorldAction, read_clock}

module _ {F C : Type 0} ⦃ops : FloatOps F⦄ (p : Platform F C) where
  -- The kind of the run that a turn makes, where there is a configuration file.
  abbrev pub turn_kind : Loop → World F C → Option Kind
  turn_kind loop w =
      if exists_in w.disk
      then some (kind_of loop (p.cloud.now w.cloud_state).0 (is_transitioning (read_clock p w).1))
      else none

  -- `forceRun` is as it was, or the run was a regular one.
  abbrev IsForced : Loop → Kind → Loop → Type 0
  IsForced before kind loop = (loop.force_run ≡ before.force_run) ⊎ (kind ≡ regular)

  settle_force :
      (loop : Loop)
      → Triple (Any p) (settle p loop) (λ r _. r.1.force_run ≡ loop.force_run) (Never p)
  unfolding settle set_next_run_at
  settle_force loop =
      let After : Instant × Loop → World F C → Type 0 = λ r _. r.1.force_run ≡ loop.force_run in
      let finish : Option Instant → Instant → Bool → WorldAction F C (Instant × Loop) =
        λ next now transitioning.
          set_next_run_at (unix (wake_at next loop.next_regular transitioning now))
          >> pure (
            wake_at next loop.next_regular transitioning now,
            record loop { next_boundary = next },
          ) in
      Triple->>= (Any p) (λ _. Any p) After (Never p) (find_boundary p)
        (λ next. read_clock p >>= λ now. gets is_transitioning >>= finish next now)
        (find_boundary_ends p (Any p) (λ w c h. tt) (λ w d h. tt) (λ w at h. tt)) λ next w h. refl

  after_run_force :
      (kind : Kind) (loop : Loop)
      → Triple (Any p) (after_run p kind loop) (λ l _. IsForced loop kind l) (Never p)
  unfolding after_run attempt_value
  after_run_force regular loop w h = inr refl
  after_run_force boundary loop w h = inl refl
  after_run_force quick loop w h = inl refl
  after_run_force idle loop w h = inl refl

  abbrev Round : Loop → Kind → Instant × Loop → World F C → Type 0
  Round loop kind r w = IsForced loop kind r.1

  go_round_force :
      (loop : Loop) (kind : Kind)
      → Triple (Any p) (go_round p loop kind) (Round loop kind) (Never p)
  unfolding go_round
  go_round_force loop kind =
      Triple->>= (Any p) (λ _. Any p) (Round loop kind) (Never p) (run_kind p kind)
        (λ failed. report failed >> (after_run p kind loop >>= settle p)) (run_kind_ends p kind)
        λ failed.
          Triple->>= (Any p) (λ _. Any p) (Round loop kind) (Never p) (report failed)
            (λ _. after_run p kind loop >>= settle p) (report_ends p failed)
            λ _.
              Triple->>= (Any p) (λ l _. IsForced loop kind l) (Round loop kind) (Never p)
                (after_run p kind loop) (settle p) (after_run_force kind loop) settled
    where
      settled :
          (l : Loop) → Triple (λ _. IsForced loop kind l) (settle p l) (Round loop kind) (Never p)
      settled l w (inl same) =
          Post-weaken (λ r _. r.1.force_run ≡ l.force_run) (Round loop kind) (Never p) (Never p)
            (settle p l w) (λ r _ e. inl (e ∙ same)) (λ _ e. e) (settle_force l w tt)
      settled l w (inr e) =
          Post-weaken (λ r _. r.1.force_run ≡ l.force_run) (Round loop kind) (Never p) (Never p)
            (settle p l w) (λ r _ _. inr e) (λ _ e. e) (settle_force l w tt)

  -- A turn leaves `forceRun` as it was, unless it makes a regular run.
  pub turn_force :
      (loop : Loop) (w : World F C)
      → Post
          (λ r _. (r.1.force_run ≡ loop.force_run) ⊎ (turn_kind loop w ≡ some regular))
          (λ _. ⊥)
          (turn p loop w)
  unfolding turn make_round set_uninitialized
  turn_force loop w = choice (exists_in w.disk)
    where
      kind : Kind
      kind = kind_of loop (p.cloud.now w.cloud_state).0 (is_transitioning (read_clock p w).1)

      waits : Instant × Loop → WorldAction F C (Option Instant × Loop)
      waits waited = pure (some waited.0, waited.1)

      over : WorldAction F C (Option Instant × Loop)
      over = pure (none, record loop { next_regular = none; next_boundary = none })

      choice :
          (present : Bool)
          → Post
              (λ r _.
                (r.1.force_run ≡ loop.force_run)
                ⊎ ((if present then some kind else none) ≡ some regular))
              (λ _. ⊥)
              ((if present then make_round p loop >>= waits else set_uninitialized >> over) w)
      choice true =
          Triple->>= (λ v. v ≡ w) (Round loop kind)
            (λ r _. (r.1.force_run ≡ loop.force_run) ⊎ (some kind ≡ some regular)) (Never p)
            (make_round p loop) waits
            (λ v same. rw same (go_round_force loop kind (read_clock p w).1 tt))
            (λ waited v h. elim h [ inl same ↦ inl same | inr e ↦ inr (ap some e) ]) w refl
      choice false = inl refl
