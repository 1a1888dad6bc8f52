-- ===== src/App/Scheduler.antt =====
-- The loop of `Run` in internal/app/scheduler.go, from its head to the `select` at its end, and what
-- the `select` does with the loop's variables. A zero `time.Time` of the code is none here.
pub mod Laws
pub mod Frames
pub mod Requests
pub mod Force
use cdtalive.Prelude.{
  ℕ, ◌+◌, ◌-◌, ◌*◌, ◌%◌, ◌^◌, Bool, true, false, ◌&&◌, ◌||◌, not, Option, none, some, ltb, leb,
  if◌then◌else◌,
}
use cdtalive.Prelude.Actions.{pure, gets, ◌>>=◌, ◌>>◌}
use cdtalive.Prelude.Floats.{FloatOps}
use cdtalive.Prelude.Int.{pos_part}
use cdtalive.Prelude.Results.{Result, ok, err}
use cdtalive.Time.{Instant, second, unix}
use cdtalive.Config.Disk.{exists_in}
use cdtalive.Config.Load.{load}
use cdtalive.Config.Settings.{Config, list_of}
use cdtalive.App.Boundary.{next_start_schedule_boundary}
use cdtalive.App.Values.{Failure}
use cdtalive.App.World.{Platform, WorldAction, on_disk, read_clock}
use cdtalive.App.Service.{
  is_transitioning, refresh_ecs_status, run_once, set_failure, set_next_run_at, set_uninitialized,
}

-- The variables `nextRegular`, `nextBoundary` and `forceRun`.
pub record Loop : Type 0 where
  pub next_regular : Option Instant
  pub next_boundary : Option Instant
  pub force_run : Bool

-- Before the first round.
abbrev pub started : Loop
started = record { next_regular = none; next_boundary = none; force_run = false }

-- `runKind`, and the quick check that is made where it is empty.
pub data Kind : Type 0 where
  regular boundary quick idle : Kind

-- `!now.Before(t)`, with a value for the zero time.
abbrev pub is_due : Bool → Option Instant → Instant → Bool
is_due when_zero none now = when_zero
is_due when_zero (some t) now = leb t now

unfoldable pub kind_of : Loop → Instant → Bool → Kind
kind_of loop now transitioning =
    if (loop.force_run || is_due true loop.next_regular now) && not transitioning
    then regular
    else if is_due false loop.next_boundary now
    then boundary
    else if transitioning
    then quick
    else idle

-- `earlier`
abbrev pub earlier : Option Instant → Instant → Instant
earlier none right = right
earlier (some left) right = if ltb right left then right else left

-- The instant an interval ahead. `time.Duration(interval) * time.Second` wraps around in 64 bits, and a
-- negative duration goes back, here at most to the instant 0, which like any past one is due.
abbrev pub ahead : Instant → ℕ → Instant
ahead now interval =
    let duration = interval * second % 2 ^ 64 in
    if ltb duration (2 ^ 63) then now + duration else now - (2 ^ 64 - duration)

abbrev pub poll_interval : ℕ
poll_interval = 15 * second

-- `wakeAt`
unfoldable pub wake_at : Option Instant → Option Instant → Bool → Instant → Instant
wake_at next_boundary next_regular true now = earlier next_boundary (now + poll_interval)
wake_at next_boundary (some at) false now = earlier next_boundary at
wake_at (some at) none false now = at
wake_at none none false now = now + 300 * second

-- What ends the wait of a round, other than the end of the program.
pub data Event : Type 0 where
  wake run_now timer : Event

unfoldable pub after_wait : Event → Loop → Loop
after_wait wake loop = loop
after_wait run_now loop = record loop { force_run = true }
after_wait timer loop = loop

abbrev pub failure_of : {A : Type 0} → Result Failure A → Option Failure
failure_of (ok a) = none
failure_of (err e) = some e

abbrev pub value_of : {A : Type 0} → Result Failure A → Option A
value_of (ok a) = some a
value_of (err e) = none

module _ {F C : Type 0} where
  -- The error of an action as its result; what it did stays done.
  unfoldable pub attempt : {A : Type 0} → WorldAction F C A → WorldAction F C (Option Failure)
  attempt m w = let (r, w') = m w in (ok (failure_of r), w')

  unfoldable pub attempt_value : {A : Type 0} → WorldAction F C A → WorldAction F C (Option A)
  attempt_value m w = let (r, w') = m w in (ok (value_of r), w')

  unfoldable pub report : Option Failure → WorldAction F C (Unit {0})
  unfolding set_failure
  report none = pure tt
  report (some e) = set_failure e

module _ {F C : Type 0} ⦃ops : FloatOps F⦄ (p : Platform F C) where
  unfoldable pub run_kind : Kind → WorldAction F C (Option Failure)
  unfolding attempt
  run_kind regular = attempt (run_once p)
  run_kind boundary = attempt (run_once p)
  run_kind quick = attempt (refresh_ecs_status p)
  run_kind idle = pure none

  abbrev pub interval_of : Option (Config F) → ℕ
  interval_of none = 300
  interval_of (some cfg) = pos_part cfg.run_interval_seconds

  -- After a regular run the next one is set an interval ahead.
  unfoldable pub after_run : Kind → Loop → WorldAction F C Loop
  unfolding attempt_value
  after_run regular loop = do
    cfg ← attempt_value (on_disk (load p.env p.yaml))
    now ← read_clock p
    pure (record loop { force_run = false; next_regular = some (ahead now (interval_of cfg)) })
  after_run _ loop = pure loop

  -- `nextBoundary`, with a second behind the boundary, or none after an error.
  abbrev pub boundary_at : Config F → Instant → Option Instant
  boundary_at cfg now =
      elim (next_start_schedule_boundary p.location (list_of cfg.daily_start_schedules) now) [
        | ok (some at) ↦ some (at * second + second)
        | ok none ↦ none
        | err e ↦ none
      ]

  unfoldable pub find_boundary : WorldAction F C (Option Instant)
  unfolding attempt_value
  find_boundary = do
    cfg ← attempt_value (on_disk (load p.env p.yaml))
    elim cfg [ none ↦ pure none | some cfg' ↦ (do now ← read_clock p; pure (boundary_at cfg' now)) ]

  -- The end of a round: when to wake, and the variables for the next one.
  unfoldable pub settle : Loop → WorldAction F C (Instant × Loop)
  unfolding find_boundary wake_at set_next_run_at
  settle loop = do
    next_boundary ← find_boundary
    now ← read_clock p
    transitioning ← gets is_transitioning
    let at = wake_at next_boundary loop.next_regular transitioning now
    set_next_run_at (unix at)
    pure (at, record loop { next_boundary = next_boundary })

  unfoldable pub go_round : Loop → Kind → WorldAction F C (Instant × Loop)
  unfolding run_kind report after_run settle
  go_round loop kind = do
    failed ← run_kind kind
    report failed
    loop' ← after_run kind loop
    settle loop'

  -- A round with a configuration file.
  unfoldable pub make_round : Loop → WorldAction F C (Instant × Loop)
  unfolding go_round kind_of
  make_round loop = do
    now ← read_clock p
    transitioning ← gets is_transitioning
    go_round loop (kind_of loop now transitioning)

  -- A whole round. Without a file there is no time to wake at, and the two times are zero again once
  -- `wake` ends the wait.
  unfoldable pub turn : Loop → WorldAction F C (Option Instant × Loop)
  unfolding make_round set_uninitialized
  turn loop = do
    present ← gets (λ w. exists_in w.disk)
    if present then (do waited ← make_round loop; pure (some waited.0, waited.1)) else (do
      set_uninitialized
      pure (none, record loop { next_regular = none; next_boundary = none }))
