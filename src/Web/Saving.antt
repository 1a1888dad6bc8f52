-- ===== src/Web/Saving.antt =====
-- The handler `saveSettings` of internal/web/server.go.
use cdtalive.Prelude.{
  ◌≡◌, refl, ap, ◌∙◌, sym, inl, inr, List, Bool, true, false, Bool-cases, not, arith, some, String,
}
use cdtalive.Prelude.Actions.{pure, ◌>>=◌, ◌>>◌}
use cdtalive.Prelude.Floats.{FloatOps}
use cdtalive.Prelude.Hoare.{Ends, Ends-weaken, Finishes, Finishes->>=, Post-ok, Post-err}
use cdtalive.Prelude.Results.{Result, ok, err}
use cdtalive.Config.Disk.{Disk, DiskAction, exists_in}
use cdtalive.Config.Errors.{ConfigError}
use cdtalive.Config.Save.{save_settings}
use cdtalive.Config.Save.Laws.{IsSaved, IsOldOrSaved, save_settings_result}
use cdtalive.Config.Schedules.{StartSchedule}
use cdtalive.App.Settings.{SettingsView, update_settings}
use cdtalive.App.Signals.{Signals, run_immediately}
use cdtalive.App.World.{Platform, on_disk}
use cdtalive.Web.{
  Server, Handler, Response, shown, detail, SettingsPayload, respond, on_service, has_config,
  return_if, bound_or, schedules_to_save, mode_to_save, force_run, save_settings_handler,
  uninitialized_detail,
}
use cdtalive.Web.Laws.{OnlyDisk, service_on_disk, return_if_ends}
use cdtalive.Web.Given.{IsGiven, IsAccepted, IsRefused, Gives, unsaved, schedules_to_save_ends}

run_immediately_lem : (s : Signals) → run_immediately s ≡ record s { run_now = true }
unfolding run_immediately
run_immediately_lem s = elim (Bool-cases s.run_now) [
  | inl full ↦ rw full refl
  | inr free ↦ rw free refl
]

false_of_not : (b : Bool) → not b ≡ true → b ≡ false
false_of_not b h = ground arith

true_of_not : (b : Bool) → not b ≡ false → b ≡ true
true_of_not b h = ground arith

module _ {F C : Type 0} ⦃ops : FloatOps F⦄ (p : Platform F C)
    (bound : Result String SettingsPayload) (s0 : Server F C) where
  abbrev disk0 : Disk
  disk0 = s0.world.disk

  abbrev Accepted : Response F → Server F C → Type 0
  Accepted = IsAccepted p bound s0

  abbrev Refused : Response F → Server F C → Type 0
  Refused = IsRefused p bound s0

  module _ (payload : SettingsPayload) (same : bound ≡ ok payload)
      (given : List StartSchedule) where
    abbrev mode : String
    mode = mode_to_save payload.power_mode

    abbrev Saves : SettingsView → Server F C → Type 0
    Saves v s =
        (d : Disk) × (out : List StartSchedule × String) × IsGiven p bound s0
          payload.daily_start_schedules given d
        × IsSaved p.yaml d given mode out s.world.disk
        × (v ≡ record { daily_start_schedules = some out.0; power_mode = out.1 })
        × OnlyDisk s0 s.world.disk s

    update_ends :
        Finishes
          (Gives p bound s0 payload.daily_start_schedules given)
          (on_service 422 (update_settings p given mode))
          Saves
          Refused
    unfolding update_settings
    update_ends s (d, from, h) =
        Ends-weaken
          (λ v s.
            (out : List StartSchedule × String) × (v ≡ seen out)
            × ((saving d).0 ≡ ok out)
            × OnlyDisk s0 (saving d).1 s)
          Saves
          (λ r s.
            (r.code ≡ 422)
            × ((e : ConfigError) × ((saving d).0 ≡ err e))
            × OnlyDisk s0 (saving d).1 s)
          Refused (on_service 422 (on_disk saving >>= λ out. pure (seen out)) s) good bad
          (service_on_disk s0 422 d saving seen s h)
      where
        saving : DiskAction (List StartSchedule × String)
        saving = save_settings p.yaml given mode

        seen : List StartSchedule × String → SettingsView
        seen out = record { daily_start_schedules = some out.0; power_mode = out.1 }

        at_disk : (s : Server F C) → OnlyDisk s0 (saving d).1 s → s.world.disk ≡ (saving d).1
        at_disk s k = ap (λ s. s.world.disk) k

        only : (s : Server F C) → OnlyDisk s0 (saving d).1 s → OnlyDisk s0 s.world.disk s
        only s k =
            k ∙ ap (λ d. record s0 { world = record s0.world { disk = d } }) (sym (at_disk s k))

        good :
            (v : SettingsView) (s : Server F C)
            → (out : List StartSchedule × String) × (v ≡ seen out)
              × ((saving d).0 ≡ ok out)
              × OnlyDisk s0 (saving d).1 s
            → Saves v s
        good v s (out, e, saved, k) = (
          d,
          out,
          from,
          rw (at_disk s k) (
              Post-ok (IsSaved p.yaml d given mode) (IsOldOrSaved p.yaml d given mode) (saving d).0
                (saving d).1 out (save_settings_result p.yaml d given mode) saved),
          e,
          only s k,
        )

        bad :
            (r : Response F) (s : Server F C)
            → (r.code ≡ 422)
              × ((e : ConfigError) × ((saving d).0 ≡ err e))
              × OnlyDisk s0 (saving d).1 s
            → Refused r s
        bad r s (code, (e, failed), k) =
            unsaved p bound s0 r (saving d).1
              (inr (
                inr (
                  inr (
                    payload,
                    given,
                    d,
                    same,
                    from,
                    (e, failed),
                    code,
                    Post-err (IsSaved p.yaml d given mode) (IsOldOrSaved p.yaml d given mode)
                        (saving d).0 (saving d).1 e (save_settings_result p.yaml d given mode)
                        failed,
                  ))))
              s k

    update_and_force_ends :
        Finishes
          (Gives p bound s0 payload.daily_start_schedules given)
          (on_service 422 (update_settings p given mode) >>= λ result.
            force_run >> pure (respond 200 (shown result)))
          Accepted
          Refused
    unfolding force_run
    update_and_force_ends =
        Finishes->>= (Gives p bound s0 payload.daily_start_schedules given) Saves Accepted Refused
          (on_service 422 (update_settings p given mode))
          (λ result. force_run >> pure (respond 200 (shown result))) update_ends
          λ v s (d, out, from, saved, e, k). (
            payload,
            given,
            d,
            out,
            same,
            from,
            saved,
            ap (λ v. respond 200 (shown v)) e,
            ap {A = Server F C} (λ s. record s { signals = run_immediately s.signals }) k
                ∙ ap
                    (λ g. record s0 {
                      world = record s0.world { disk = s.world.disk };
                      signals = g;
                    })
                    (run_immediately_lem s0.signals),
          )

  bound_ends :
      exists_in disk0 ≡ true
      → Finishes
          (OnlyDisk s0 disk0)
          (bound_or {F = F} {C = C} bound (λ e. "daily_start_schedules 必须是规则列表"))
          (λ payload s. (bound ≡ ok payload) × OnlyDisk s0 disk0 s)
          Refused
  bound_ends present s h = go bound refl
    where
      go :
          (b : Result String SettingsPayload)
          → bound ≡ b
          → Ends
              (λ payload s. (bound ≡ ok payload) × OnlyDisk s0 disk0 s)
              Refused
              (bound_or {F = F} {C = C} b (λ e. "daily_start_schedules 必须是规则列表") s)
      go (ok payload) e = (e, h)
      go (err x) e =
          unsaved p bound s0 (respond 422 (detail "daily_start_schedules 必须是规则列表")) disk0
            (inr (inl (present, (x, e), refl, refl))) s h

  pub save_settings_handler_result :
      Ends (IsAccepted p bound s0) (IsRefused p bound s0) (save_settings_handler p bound s0)
  unfolding save_settings_handler
  save_settings_handler_result =
      let finish : List StartSchedule → String → Handler F C (Response F) = λ given mode.
        on_service 422 (update_settings p given mode) >>= λ result.
        force_run >> pure (respond 200 (shown result)) in
      let saves : SettingsPayload → Handler F C (Response F) = λ payload.
        schedules_to_save p payload.daily_start_schedules >>= λ given.
        finish given (mode_to_save payload.power_mode) in
      let binds : Handler F C SettingsPayload =
        bound_or bound (λ e. "daily_start_schedules 必须是规则列表") in
      let Seen : Bool → Server F C → Type 0 =
        λ present s. OnlyDisk s0 disk0 s × (exists_in disk0 ≡ present) in
      Finishes->>= (OnlyDisk s0 disk0) Seen Accepted Refused has_config
        (λ present. return_if (not present) 400 uninitialized_detail >> (binds >>= saves))
        (λ s h. (h, ap (λ s. exists_in s.world.disk) (sym h)))
        (λ present.
          Finishes->>= (Seen present) (λ _ s. Seen present s × (not present ≡ false)) Accepted
            Refused (return_if (not present) 400 uninitialized_detail) (λ _. binds >>= saves)
            (return_if_ends (Seen present) Refused (not present) 400 uninitialized_detail
              (λ absent s (h, e).
                unsaved p bound s0 (respond 400 uninitialized_detail) disk0
                  (inl (e ∙ false_of_not present absent, refl, refl)) s h))
            λ _ s ((h, e), there).
              Finishes->>= (OnlyDisk s0 disk0)
                (λ payload s. (bound ≡ ok payload) × OnlyDisk s0 disk0 s) Accepted Refused binds
                saves (bound_ends (e ∙ true_of_not present there))
                (λ payload s (same, h).
                  Finishes->>= (OnlyDisk s0 disk0) (Gives p bound s0 payload.daily_start_schedules)
                    Accepted Refused (schedules_to_save p payload.daily_start_schedules)
                    (λ given. finish given (mode_to_save payload.power_mode))
                    (schedules_to_save_ends p bound s0 payload payload.daily_start_schedules same
                      refl)
                    (update_and_force_ends payload same) s h)
                s h)
        s0 refl
