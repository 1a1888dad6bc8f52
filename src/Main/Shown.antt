-- ===== src/Main/Shown.antt =====
-- The next run that the service of internal/app/service.go shows, while the scheduler waits.
use cdtalive.Prelude.{◌≡◌, ◌∙◌, Option, none, some, String}
use cdtalive.Prelude.Floats.{FloatOps}
use cdtalive.Prelude.Hoare.{Post, Post-weaken}
use cdtalive.Config.Disk.{exists_in}
use cdtalive.Prelude.Int.{ℤ}
use cdtalive.Prelude.Results.{Result, ok, err}
use cdtalive.Prelude.Text.{Text}
use cdtalive.Time.{Instant, unix}
use mathlib.Core.Path.{subst}
use cdtalive.App.Dashboard.{dashboard}
use cdtalive.App.Dashboard.Shows.{ShowsNextRun, Failed, dashboard_next_run}
use cdtalive.App.Dashboard.Reads.{dashboard-IsUnchanged}
use cdtalive.App.Frames.{IsStable}
use cdtalive.App.Scheduler.{Loop, turn}
use cdtalive.App.Scheduler.Laws.{ShowsWait, ShowsRun, turn_waits}
use cdtalive.App.Service.Frames.{AnyRequest, run_once-Keeps}
use cdtalive.App.Values.{Failure}
use cdtalive.App.World.{Platform, World}
use cdtalive.Web.{Call, Server, handle}
use cdtalive.Web.Frames.{handle_leads}
use cdtalive.Main.{
  Phase, ready, waiting, System, world_of, with_world, new_system, after_turn, after_call,
  after_maintenance, prune_now, Step, answers, turns, ends_wait, maintains, elapses, Reaches, stays,
  goes,
}

module _ {F C : Type 0} ⦃ops : FloatOps F⦄ (p : Platform F C)
    (read_page : String → Result String Text) where
  module _ (at : ℤ) where
    abbrev NextRun : World F C → Type 0
    NextRun w = w.next_run_at ≡ at

    NextRun-IsStable : IsStable AnyRequest NextRun
    NextRun-IsStable = record {
      cloud_step = λ w c h. h;
      store_step = λ w d h. h;
      disk_step = λ w d k h. h;
      request_step = λ w q t h. h;
    }

    handle_keeps_NextRun :
        (call : Call F) (s : Server F C)
        → NextRun s.world
        → NextRun (handle p read_page call s).1.world
    handle_keeps_NextRun =
        let Here : Server F C → Type 0 = λ v. NextRun v.world in
        handle_leads p Here Here (λ v h. h) (λ v d file h. h)
          (λ v h. (dashboard-IsUnchanged p v.world).2 ∙ h)
          (λ v h. run_once-Keeps p NextRun NextRun-IsStable (λ w result h. h) v.world h) (λ v h. h)
          (λ v h. h) read_page

  -- While the loop waits for an instant, that is the next run.
  abbrev pub ShowsPhase : Phase → World F C → Type 0
  ShowsPhase ready w = Unit
  ShowsPhase (waiting none) w = Unit
  ShowsPhase (waiting (some at)) w = w.next_run_at ≡ unix at

  call_shows :
      (phase : Phase) (call : Call F) (s : Server F C)
      → ShowsPhase phase s.world
      → ShowsPhase phase (handle p read_page call s).1.world
  call_shows ready call s h = tt
  call_shows (waiting none) call s h = tt
  call_shows (waiting (some at)) call s h = handle_keeps_NextRun (unix at) call s h

  turn_shows :
      (s : System F C)
      → ShowsPhase s.phase (world_of s)
      → s.phase ≡ ready
      → ShowsPhase (after_turn p s).phase (world_of (after_turn p s))
  unfolding after_turn
  turn_shows s h idle = go (turn p s.loop (world_of s)).0 (turn p s.loop (world_of s)).1 (
      Post-weaken
        (λ r v. ShowsWait p r v × ShowsRun p (exists_in (world_of s).disk) s.loop (world_of s) v)
        (ShowsWait p) (λ _. ⊥) (λ _. ⊥) (turn p s.loop (world_of s)) (λ r v (shown, _). shown)
        (λ v e. e) (turn_waits p s.loop (world_of s)))
    where
      after : Result Failure (Option Instant × Loop) → World F C → System F C
      after r w = elim r [
        | ok waited ↦ record (with_world s w) { loop = waited.1; phase = waiting waited.0 }
        | err e ↦ with_world s w
      ]

      go :
          (r : Result Failure (Option Instant × Loop)) (w : World F C)
          → Post (ShowsWait p) (λ _. ⊥) (r, w)
          → ShowsPhase (after r w).phase (world_of (after r w))
      go (ok (some at, loop)) w shown = shown
      go (ok (none, loop)) w shown = tt
      go (err e) w never = elim never [ ]

  Step-shows :
      (s t : System F C)
      → Step p read_page s t
      → ShowsPhase s.phase (world_of s)
      → ShowsPhase t.phase (world_of t)
  unfolding after_call after_maintenance prune_now
  Step-shows _ _ (answers call s) h = call_shows s.phase call s.server h
  Step-shows _ _ (turns s idle) h = turn_shows s h idle
  Step-shows _ _ (ends_wait event at s idle signals received) h = tt
  Step-shows _ _ (maintains s) h = same s.phase h
    where
      same :
          (phase : Phase)
          → ShowsPhase phase (world_of s)
          → ShowsPhase phase (prune_now p (world_of s)).1
      same ready h = tt
      same (waiting none) h = tt
      same (waiting (some at)) h = h
  Step-shows _ _ (elapses c s) h = same s.phase h
    where
      same :
          (phase : Phase)
          → ShowsPhase phase (world_of s)
          → ShowsPhase phase (record (world_of s) { cloud_state = c })
      same ready h = tt
      same (waiting none) h = tt
      same (waiting (some at)) h = h

  reached_shows :
      (s t : System F C)
      → Reaches p read_page s t
      → ShowsPhase s.phase (world_of s)
      → ShowsPhase t.phase (world_of t)
  reached_shows _ _ (stays s) h = h
  reached_shows _ _ (goes s t u way step) h = Step-shows t u step (reached_shows s t way h)

  -- From the start of the program on, whatever steps follow: while the scheduler waits for an
  -- instant, that is the next run of the service, and a dashboard that is given without an error
  -- shows it.
  pub reached_next_run :
      (w : World F C) (t : System F C) (at : Instant)
      → Reaches p read_page (new_system w) t
      → t.phase ≡ waiting (some at)
      → ((world_of t).next_run_at ≡ unix at)
        × Post (ShowsNextRun (unix at)) Failed (dashboard p (world_of t))
  reached_next_run w t at way waits =
      let next : (world_of t).next_run_at ≡ unix at =
        subst (λ phase. ShowsPhase phase (world_of t)) waits
          (reached_shows (new_system w) t way tt) in
      (
        next,
        subst (λ n. Post (ShowsNextRun n) Failed (dashboard p (world_of t))) next
            (dashboard_next_run p (world_of t)),
      )
