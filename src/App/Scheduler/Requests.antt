-- ===== src/App/Scheduler/Requests.antt =====
-- The power requests of the loop in internal/app/scheduler.go.
use cdtalive.Prelude.{◌≡◌, refl, sym, ap, List, [], append-nil}
use cdtalive.Prelude.Floats.{FloatOps}
use cdtalive.Prelude.Hoare.{Leads}
use cdtalive.Config.Disk.{Disk}
use cdtalive.App.Frames.{Issued, Issued-IsStable}
use cdtalive.App.Scheduler.Frames.{turn_leads}
use cdtalive.App.Scheduler.{Loop, Kind, regular, boundary, quick, idle, attempt, run_kind, turn}
use cdtalive.App.World.{Platform, World, Request}
use cdtalive.App.Service.Frames.{refresh_ecs_status-Keeps}
use cdtalive.App.Service.Requests.{RunAllows, run_once_Issued}

module _ {F C : Type 0} ⦃ops : FloatOps F⦄ (p : Platform F C) (disk : Disk) (c : C)
    (before : List Request) where
  abbrev Fine : World F C → Type 0
  Fine = Issued (RunAllows p disk c) before

  abbrev Fresh : World F C → Type 0
  Fresh w = (w.disk ≡ disk) × (w.cloud_state ≡ c) × Fine w

  run_kind-Fine : (kind : Kind) → Leads Fresh (run_kind p kind) Fine
  unfolding run_kind attempt
  run_kind-Fine regular w (same, at, h) = run_once_Issued p disk c before w same at h
  run_kind-Fine boundary w (same, at, h) = run_once_Issued p disk c before w same at h
  run_kind-Fine quick w (same, at, h) =
      refresh_ecs_status-Keeps p (RunAllows p disk c) Fine
        (Issued-IsStable (RunAllows p disk c) before) (λ w result h. h) w h
  run_kind-Fine idle w (same, at, h) = h

module _ {F C : Type 0} ⦃ops : FloatOps F⦄ (p : Platform F C) (loop : Loop) where
  -- A turn of the scheduler's loop makes only requests that are allowed to a run which begins with
  -- the disk that the turn begins with, and with the cloud as it is when the turn has read the clock.
  pub turn_requests :
      (w : World F C)
      → Issued (RunAllows p w.disk (p.cloud.now w.cloud_state).1) w.requests (turn p loop w).1
  turn_requests w =
      let c : C = (p.cloud.now w.cloud_state).1 in
      let Before : World F C → Type 0 =
        λ v. (v.disk ≡ w.disk) × (v.cloud_state ≡ w.cloud_state) × Fine p w.disk c w.requests v in
      turn_leads p (RunAllows p w.disk c) Before (Fresh p w.disk c w.requests)
        (Fine p w.disk c w.requests) (Issued-IsStable (RunAllows p w.disk c) w.requests)
        (λ v result h. h) (λ v at h. h) (λ v h. h.2)
        (λ v (same, at, h). (same, ap (λ c. (p.cloud.now c).1) at, h))
        (run_kind-Fine p w.disk c w.requests) loop w
        (refl, refl, ([], sym (append-nil w.requests), tt))
