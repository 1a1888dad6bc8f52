-- ===== src/Main/Requests.antt =====
-- The power requests of the whole program: of its handlers and of its scheduler.
use cdtalive.Prelude.{
  ◌≡◌, refl, sym, ◌∙◌, ap, ◌⊎◌, inl, inr, List, [], ◌∷◌, append-nil, All, String, Option,
}
use cdtalive.Prelude.Floats.{FloatOps}
use cdtalive.Prelude.Results.{Result, ok, err}
use cdtalive.Prelude.Text.{Text}
use cdtalive.Time.{Instant}
use cdtalive.App.Dashboard.{dashboard}
use cdtalive.App.Dashboard.Reads.{dashboard-IsUnchanged}
use cdtalive.App.Frames.{Issued}
use cdtalive.App.Scheduler.{Loop, turn}
use cdtalive.App.Scheduler.Requests.{turn_requests}
use cdtalive.App.Service.Requests.{RunAllows, run_once_requests}
use cdtalive.App.Values.{Failure}
use cdtalive.App.World.{Platform, World, Request}
use cdtalive.Web.{Call, Server, handle}
use cdtalive.Web.Frames.{handle_leads}
use cdtalive.Main.{
  waiting, System, world_of, with_world, after_turn, after_call, after_maintenance, prune_now, Step,
  answers, turns, ends_wait, maintains, elapses, Reaches,
}

module _ {F C : Type 0} ⦃ops : FloatOps F⦄ (p : Platform F C)
    (read_page : String → Result String Text) where
  -- Nothing is asked for.
  none_Issued :
      (Test : Request → Type 0) (before : List Request) (w : World F C)
      → w.requests ≡ before
      → Issued Test before w
  none_Issued Test before w same = ([], same ∙ sym (append-nil before), tt)

  -- What a step may ask for: what a run may that begins with the disk before it and with the cloud as it
  -- is then, or, for a turn of the scheduler, as it is once the clock was read.
  abbrev pub StepAllows : World F C → Request → Type 0
  StepAllows w q =
      RunAllows p w.disk w.cloud_state q ⊎ RunAllows p w.disk (p.cloud.now w.cloud_state).1 q

  Issued-weaken :
      (Test Weaker : Request → Type 0) (before : List Request) (w : World F C)
      → ((q : Request) → Test q → Weaker q)
      → Issued Test before w
      → Issued Weaker before w
  Issued-weaken Test Weaker before w h (new, same, all) = (new, same, go new all)
    where
      go : (qs : List Request) → All Test qs → All Weaker qs
      go [] all = tt
      go (q ∷ qs) (t, all) = (h q t, go qs all)

  handle_requests :
      (call : Call F) (s : Server F C)
      → Issued
          (RunAllows p s.world.disk s.world.cloud_state)
          s.world.requests
          (handle p read_page call s).1.world
  handle_requests call s =
      let Test : Request → Type 0 = RunAllows p s.world.disk s.world.cloud_state in
      let same_requests : (v : Server F C)
          → v.world ≡ s.world
          → v.world.requests ≡ s.world.requests =
        λ v same. ap (λ w. w.requests) same in
      handle_leads p (λ v. v.world ≡ s.world) (λ v. Issued Test s.world.requests v.world)
        (λ v same. none_Issued Test s.world.requests v.world (same_requests v same))
        (λ v d file same.
          none_Issued Test s.world.requests (record v.world { disk = d }) (same_requests v same))
        (λ v same.
          none_Issued Test s.world.requests (dashboard p v.world).1
            ((dashboard-IsUnchanged p v.world).3 ∙ same_requests v same))
        (λ v same. rw same (run_once_requests p s.world)) (λ v h. h) (λ v h. h) read_page call s
        refl

  pub after_turn_world :
      (s : System F C) → world_of (after_turn p s) ≡ (turn p s.loop (world_of s)).1
  unfolding after_turn
  after_turn_world s = go (turn p s.loop (world_of s)).0 (turn p s.loop (world_of s)).1
    where
      go :
          (r : Result Failure (Option Instant × Loop)) (w : World F C)
          → world_of (elim r as (λ _. System F C) [
            | ok waited ↦ record (with_world s w) { loop = waited.1; phase = waiting waited.0 }
            | err e ↦ with_world s w
          ])
            ≡ w
      go (ok waited) w = refl
      go (err e) w = refl

  pub Step-requests :
      (s t : System F C)
      → Step p read_page s t
      → Issued (StepAllows (world_of s)) (world_of s).requests (world_of t)
  unfolding after_call after_maintenance prune_now
  Step-requests _ _ (answers call s) =
      let w : World F C = world_of s in
      Issued-weaken (RunAllows p w.disk w.cloud_state) (StepAllows w) w.requests
        (handle p read_page call s.server).1.world (λ q h. inl h) (handle_requests call s.server)
  Step-requests _ _ (turns s idle) =
      let w : World F C = world_of s in
      rw (after_turn_world s) (
        Issued-weaken (RunAllows p w.disk (p.cloud.now w.cloud_state).1) (StepAllows w) w.requests
          (turn p s.loop w).1 (λ q h. inr h) (turn_requests p s.loop w))
  Step-requests _ _ (ends_wait event at s idle signals received) =
      none_Issued (StepAllows (world_of s)) (world_of s).requests (world_of s) refl
  Step-requests _ _ (maintains s) =
      none_Issued (StepAllows (world_of s)) (world_of s).requests (prune_now p (world_of s)).1 refl
  Step-requests _ _ (elapses c s) =
      none_Issued (StepAllows (world_of s)) (world_of s).requests
        (record (world_of s) { cloud_state = c }) refl

  -- A run allowed the request with the disk and the cloud of some moment on the way.
  abbrev pub IsAllowedOnTheWay : System F C → System F C → Request → Type 0
  IsAllowedOnTheWay s t q =
      (u : System F C) × Reaches p read_page s u
      × Reaches p read_page u t
      × StepAllows (world_of u) q
