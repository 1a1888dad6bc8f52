-- ===== src/Main/Configured.antt =====
-- The configuration file in the life of the program, and the handler `initialize` of
-- internal/web/server.go once there is one.
use cdtalive.Prelude.{
  inl, inr, ◌≡◌, refl, ap, ◌∙◌, List, [], ◌∷◌, ◌++◌, All, Bool, true, false, Option, none, some,
  String, append-nil,
}
use cdtalive.Prelude.Floats.{FloatOps}
use cdtalive.Prelude.Results.{Result, err}
use cdtalive.Prelude.Text.{Text}
use cdtalive.Config.Disk.{Disk, exists_in}
use cdtalive.Config.Errors.{io_error}
use cdtalive.Config.Load.{load}
use cdtalive.Config.Presence.{IsKeptFile-exists}
use cdtalive.Config.Settings.{Config}
use cdtalive.App.Dashboard.{dashboard}
use cdtalive.App.Dashboard.Reads.{dashboard-IsUnchanged}
use cdtalive.App.Frames.{IsStable}
use cdtalive.App.Scheduler.Frames.{turn-Keeps}
use cdtalive.App.Service.Frames.{AnyRequest, run_once-Keeps}
use cdtalive.App.Service.Requests.{RunAllows}
use cdtalive.App.World.{Platform, World, Request}
use cdtalive.Web.{Call, Server, post_init, respond, detail, handle, route, initialize}
use cdtalive.Web.Frames.{handle_leads}
use cdtalive.Main.{
  System, world_of, after_call, after_maintenance, prune_now, Step, answers, turns, ends_wait,
  maintains, elapses, Reaches, stays, goes,
}
use cdtalive.Main.Requests.{StepAllows, after_turn_world, Step-requests}

module _ {F C : Type 0} where
  -- There is a configuration file.
  abbrev pub IsConfigured : World F C → Type 0
  IsConfigured w = exists_in w.disk ≡ true

  IsConfigured-IsStable : IsStable AnyRequest IsConfigured
  IsConfigured-IsStable = record {
    cloud_step = λ w c h. h;
    store_step = λ w d h. h;
    disk_step = λ w d kept h. IsKeptFile-exists w.disk d kept h;
    request_step = λ w q t h. h;
  }

module _ {F C : Type 0} ⦃ops : FloatOps F⦄ (p : Platform F C)
    (read_page : String → Result String Text) where
  handle-IsConfigured :
      (call : Call F) (s : Server F C)
      → IsConfigured s.world
      → IsConfigured (handle p read_page call s).1.world
  handle-IsConfigured =
      let Here : Server F C → Type 0 = λ v. IsConfigured v.world in
      handle_leads p Here Here (λ v h. h) (λ v d kept h. IsKeptFile-exists v.world.disk d kept h)
        (λ v h.
          IsKeptFile-exists v.world.disk (dashboard p v.world).1.disk
            (dashboard-IsUnchanged p v.world).4 h)
        (λ v h. run_once-Keeps p IsConfigured IsConfigured-IsStable (λ w result h. h) v.world h)
        (λ v h. h) (λ v h. h) read_page

  Step-IsConfigured :
      (s t : System F C)
      → Step p read_page s t
      → IsConfigured (world_of s)
      → IsConfigured (world_of t)
  unfolding after_call after_maintenance prune_now
  Step-IsConfigured _ _ (answers call s) h = handle-IsConfigured call s.server h
  Step-IsConfigured _ _ (turns s idle) h = rw (after_turn_world p read_page s) (
      turn-Keeps p IsConfigured IsConfigured-IsStable (λ w result h. h) (λ w at h. h) s.loop
        (world_of s) h)
  Step-IsConfigured _ _ (ends_wait event at s idle signals received) h = h
  Step-IsConfigured _ _ (maintains s) h = h
  Step-IsConfigured _ _ (elapses c s) h = h

  reached-IsConfigured :
      (s t : System F C)
      → Reaches p read_page s t
      → IsConfigured (world_of s)
      → IsConfigured (world_of t)
  reached-IsConfigured _ _ (stays s) h = h
  reached-IsConfigured _ _ (goes s t u way step) h =
      Step-IsConfigured t u step (reached-IsConfigured s t way h)

  -- Once there is a configuration file there is one ever after, whatever steps follow, and every
  -- request to initialize is refused with 400 and changes nothing.
  pub reached_initialize :
      (s t : System F C) (bound : Result String (Config F))
      → Reaches p read_page s t
      → exists_in (world_of s).disk ≡ true
      → (exists_in (world_of t).disk ≡ true)
        × (handle p read_page (post_init bound) t.server
            ≡ (respond 400 (detail "配置文件已存在，无法重复初始化。"), t.server))
  unfolding handle route initialize
  reached_initialize s t bound way h =
      let present : exists_in (world_of t).disk ≡ true = reached-IsConfigured s t way h in
      (present, rw present refl)

  missing :
      (file : Option Text)
      → elim file as (λ _. Bool) [ none ↦ false | some _ ↦ true ] ≡ false
      → file ≡ none
  missing none h = refl
  missing (some t) h = cc

  load_missing : (d : Disk) → d.file ≡ none → (load p.env p.yaml d).0 ≡ err io_error
  unfolding load
  load_missing d e = rw e refl

  no_run : (d : Disk) (c : C) (q : Request) → exists_in d ≡ false → ¬ RunAllows p d c q
  no_run d c q absent (cfg, balance, traffic, loaded, _, _) =
      let failed : (load p.env p.yaml d).0 ≡ err io_error =
        load_missing d (missing d.file absent) in
      cc

  none_All :
      (w : World F C) (qs : List Request)
      → exists_in w.disk ≡ false
      → All (StepAllows p read_page w) qs
      → qs ≡ []
  none_All w [] absent all = refl
  none_All w (q ∷ qs) absent (inl allows, all) =
      elim (no_run w.disk w.cloud_state q absent allows) [ ]
  none_All w (q ∷ qs) absent (inr allows, all) =
      elim (no_run w.disk (p.cloud.now w.cloud_state).1 q absent allows) [ ]

  -- As long as there is no configuration file, no step of the program asks the cloud for a start or a
  -- stop.
  pub unconfigured_requests :
      (s t : System F C)
      → Step p read_page s t
      → exists_in (world_of s).disk ≡ false
      → (world_of t).requests ≡ (world_of s).requests
  unconfigured_requests s t step absent =
      let (new, same, allows) = Step-requests p read_page s t step in
      same
      ∙ ap (λ qs. (world_of s).requests ++ qs) (none_All (world_of s) new absent allows)
      ∙ append-nil (world_of s).requests
