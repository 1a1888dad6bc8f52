-- ===== src/Web/Frames.antt =====
-- What holds of the service and of the signals behind every handler of internal/web/server.go, from what holds behind
-- the operations of the service that the handlers call.
use mathlib.Core.Path.{subst}
use cdtalive.Prelude.{inl, refl, ℕ, sym, Bool, true, false, not, String, if◌then◌else◌}
use cdtalive.Prelude.Actions.{pure, raise, gets, ◌>>=◌, ◌>>◌}
use cdtalive.Prelude.Floats.{FloatOps}
use cdtalive.Prelude.Hoare.{Keeps, Keeps->>=, Leads, Leads->>=, Ends}
use cdtalive.Prelude.Results.{Result, ok, err}
use cdtalive.Prelude.Text.{Text}
use cdtalive.Config.Disk.{Disk, exists_in}
use cdtalive.Config.Errors.{ConfigError}
use cdtalive.Config.Load.{load}
use cdtalive.Config.Presence.{IsKeptFile, load-Keeps}
use cdtalive.Config.Settings.{Config}
use cdtalive.App.Dashboard.{dashboard}
use cdtalive.App.Views.{DashboardView}
use cdtalive.App.Service.{run_once, is_transitioning}
use cdtalive.App.Settings.{SettingsView, settings, settings_of}
use cdtalive.App.Values.{Failure, config_failure, Fields}
use cdtalive.App.World.{Platform, World, map_error}
use cdtalive.Web.{
  Server, Handler, Response, Body, SettingsPayload, Call, get_index, get_status, get_dashboard,
  get_settings, post_run, put_settings, post_init, page, plain, fields, view, shown, respond,
  has_config, return_if, on_service, notify_if, notify_scheduler, index, status_handler,
  dashboard_handler, settings_handler, save_settings_handler, initialize, run_now_handler, handle,
  route, uninitialized, uninitialized_detail, no_settings,
}
use cdtalive.Web.Init.{
  IsInitAccepted, IsInitRefused, accepted_init_kept, refused_init_kept, initialize_result,
  notify_lem,
}
use cdtalive.Web.Given.{IsAccepted, IsRefused, accepted_kept, refused_kept}
use cdtalive.Web.Saving.{save_settings_handler_result}

Ends-both :
    {S E A : Type 0} (P : S → Type 0) (r : Result E A) (s : S)
    → (Q : A → S → Type 0) (Z : E → S → Type 0) → ((a : A) (s : S) → Q a s → P s)
    → ((e : E) (s : S) → Z e s → P s)
    → Ends Q Z (r, s)
    → P s
Ends-both P (ok a) s Q Z f g h = f a s h
Ends-both P (err e) s Q Z f g h = g e s h

module _ {F C : Type 0} ⦃ops : FloatOps F⦄ (p : Platform F C) (Before After : Server F C → Type 0)
    (weaken : (s : Server F C) → Before s → After s)
    (save : (s : Server F C) (d : Disk)
      → IsKeptFile s.world.disk.file d
      → Before s
      → After (record s { world = record s.world { disk = d } }))
    (show : (s : Server F C) → Before s → After (record s { world = (dashboard p s.world).1 }))
    (run : (s : Server F C) → Before s → After (record s { world = (run_once p s.world).1 }))
    (wakes : (s : Server F C)
      → After s
      → After (record s { signals = record s.signals { wake = true } }))
    (forces : (s : Server F C)
      → After s
      → After (record s { signals = record s.signals { run_now = true } })) where
  guarded_leads :
      {A : Type 0} (test : Bool → Bool) (code : ℕ) (body : Body F) (rest : Handler F C A)
      → Leads Before rest After
      → Leads Before (has_config >>= λ present. return_if (test present) code body >> rest) After
  guarded_leads test code body rest h s k = go (test (exists_in s.world.disk))
    where
      go : (b : Bool) → After ((return_if b code body >> rest) s).1
      go true = weaken s k
      go false = h s k

  index_leads :
      (read_page : String → Result String Text) → Leads Before (index {C = C} read_page) After
  unfolding index
  index_leads read_page s k =
      go (read_page (if exists_in s.world.disk then "dashboard.html" else "init.html"))
    where
      go :
          (r : Result String Text)
          → After
              ((elim r as (λ _. Handler F C (Response F)) [
                | ok d ↦ pure (respond 200 (page d))
                | err e ↦ raise (respond 500 (plain e))
              ])
                s).1
      go (ok d) = weaken s k
      go (err e) = weaken s k

  dashboard_leads : Leads Before (dashboard_handler p) After
  unfolding dashboard_handler
  dashboard_leads =
      let answer : DashboardView F → Handler F C (Response F) =
        λ result. pure (respond 200 (view result)) in
      guarded_leads not 200 (view uninitialized) (on_service 500 (dashboard p) >>= answer)
        (Leads->>= Before After (on_service 500 (dashboard p)) answer show (λ result s k. k))

  loads : Leads Before (on_service {C = C} 500 (settings p)) After
  unfolding settings
  loads s k = go (load p.env p.yaml s.world.disk).0
    where
      left : World F C
      left = record s.world { disk = (load p.env p.yaml s.world.disk).1 }

      kept : IsKeptFile s.world.disk.file (load p.env p.yaml s.world.disk).1
      kept = load-Keeps p.env p.yaml s.world.disk.file s.world.disk (inl refl)

      go :
          (r : Result ConfigError (Config F))
          → After (record s {
            world =
                (elim (map_error config_failure r)
                  as (λ _. Result Failure SettingsView × World F C) [
                    | ok cfg ↦ (ok (settings_of cfg), left)
                    | err e ↦ (err e, left)
                  ]).1;
          })
      go (ok cfg) = save s (load p.env p.yaml s.world.disk).1 kept k
      go (err e) = save s (load p.env p.yaml s.world.disk).1 kept k

  settings_leads : Leads Before (settings_handler p) After
  unfolding settings_handler
  settings_leads =
      let answer : SettingsView → Handler F C (Response F) =
        λ result. pure (respond 200 (shown result)) in
      guarded_leads not 200 (shown no_settings) (on_service 500 (settings p) >>= answer)
        (Leads->>= Before After (on_service 500 (settings p)) answer loads (λ result s k. k))

  notified :
      (result : Fields F) (b : Bool)
      → Keeps After (notify_if p b >> pure (respond 200 (fields result)))
  unfolding notify_if notify_scheduler
  notified result true =
      λ s k. subst (λ g. After (record s { signals = g })) (sym (notify_lem s.signals)) (wakes s k)
  notified result false = λ s k. k

  run_now_leads : Leads Before (run_now_handler p) After
  unfolding run_now_handler
  run_now_leads =
      let answer : Fields F → Bool → Handler F C (Response F) =
        λ result transitioning. notify_if p transitioning >> pure (respond 200 (fields result)) in
      let seen : Fields F → Handler F C (Response F) =
        λ result. gets (λ s. is_transitioning s.world) >>= answer result in
      guarded_leads not 400 uninitialized_detail (on_service 500 (run_once p) >>= seen) (
        Leads->>= Before After (on_service 500 (run_once p)) seen run λ result.
          Keeps->>= After (gets (λ s. is_transitioning s.world)) (answer result) (λ s k. k)
            (notified result))

  save_settings_leads :
      (bound : Result String SettingsPayload) → Leads Before (save_settings_handler p bound) After
  save_settings_leads bound s k =
      Ends-both After (save_settings_handler p bound s).0 (save_settings_handler p bound s).1
        (IsAccepted p bound s) (IsRefused p bound s)
        (λ r s' h. subst After (sym h.8) (
          forces (record s { world = record s.world { disk = s'.world.disk } })
            (save s s'.world.disk (accepted_kept p bound s r s' h) k)))
        (λ r s' h. subst After (sym h.1) (save s s'.world.disk (refused_kept p bound s r s' h) k))
        (save_settings_handler_result p bound s)

  initialize_leads : (bound : Result String (Config F)) → Leads Before (initialize p bound) After
  initialize_leads bound s k =
      Ends-both After (initialize p bound s).0 (initialize p bound s).1 (IsInitAccepted p bound s)
        (IsInitRefused p bound s)
        (λ r s' h. subst After (sym h.4) (
          wakes (record s { world = record s.world { disk = s'.world.disk } })
            (save s s'.world.disk (accepted_init_kept p bound s r s' h) k)))
        (λ r s' h.
          subst After (sym h.1) (save s s'.world.disk (refused_init_kept p bound s r s' h) k))
        (initialize_result p bound s)

  pub handle_leads :
      (read_page : String → Result String Text) (call : Call F) (s : Server F C)
      → Before s
      → After (handle p read_page call s).1
  unfolding handle route status_handler
  handle_leads read_page get_index = index_leads read_page
  handle_leads read_page get_status = λ s k. weaken s k
  handle_leads read_page get_dashboard = dashboard_leads
  handle_leads read_page get_settings = settings_leads
  handle_leads read_page post_run = run_now_leads
  handle_leads read_page (put_settings bound) = save_settings_leads bound
  handle_leads read_page (post_init bound) = initialize_leads bound
