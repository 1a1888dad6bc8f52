-- ===== src/Web/Given.antt =====
-- How a request to `saveSettings` of internal/web/server.go may end, and the schedules that it saves.
use cdtalive.Prelude.{
  ◌≡◌, refl, ap, ◌∙◌, sym, ◌⊎◌, inl, inr, List, true, false, Option, none, some, String,
}
use cdtalive.Prelude.Actions.{pure, ◌>>=◌}
use cdtalive.Prelude.Floats.{FloatOps}
use cdtalive.Prelude.Hoare.{Ends-weaken, Finishes, Finishes->>=}
use cdtalive.Prelude.Results.{Result, ok, err}
use mathlib.Core.Path.{subst}
use cdtalive.Config.Disk.{Disk, DiskAction, exists_in}
use cdtalive.Config.Save.{save_settings}
use cdtalive.Config.Errors.{ConfigError}
use cdtalive.Config.Load.{load}
use cdtalive.Config.Presence.{IsKeptFile, IsKeptFile-trans, load-Keeps}
use cdtalive.Config.Save.Laws.{IsSaved, IsOldOrSaved}
use cdtalive.Config.Schedules.{StartSchedule}
use cdtalive.Config.Settings.{Config, list_of}
use cdtalive.App.Settings.{SettingsView, settings, settings_of}
use cdtalive.App.World.{Platform, on_disk}
use cdtalive.Web.{
  Server, Response, shown, SettingsPayload, respond, on_service, schedules_to_save, mode_to_save,
}
use cdtalive.Web.Laws.{OnlyDisk, service_on_disk}

module _ {F C : Type 0} ⦃ops : FloatOps F⦄ (p : Platform F C)
    (bound : Result String SettingsPayload) (s0 : Server F C) where
  abbrev disk0 : Disk
  disk0 = s0.world.disk

  -- The schedules that are saved, and the disk that the save begins with: those of the payload, or,
  -- where it names none, those that the file gives now.
  abbrev pub IsGiven : Option (List StartSchedule) → List StartSchedule → Disk → Type 0
  IsGiven (some schedules) given d = (given ≡ schedules) × (d ≡ disk0)
  IsGiven none given d =
      (d ≡ (load p.env p.yaml disk0).1)
      × ((cfg : Config F) × ((load p.env p.yaml disk0).0 ≡ ok cfg)
          × (given ≡ list_of cfg.daily_start_schedules))

  abbrev pub IsAccepted : Response F → Server F C → Type 0
  IsAccepted r s =
      (payload : SettingsPayload) × (given : List StartSchedule) × (d : Disk) × (out : List
          StartSchedule
        × String)
      × (bound ≡ ok payload)
      × IsGiven payload.daily_start_schedules given d
      × IsSaved p.yaml d given (mode_to_save payload.power_mode) out s.world.disk
      × (r
          ≡ respond 200 (shown (record { daily_start_schedules = some out.0; power_mode = out.1 })))
      × (s ≡ record s0 {
        world = record s0.world { disk = s.world.disk };
        signals = record s0.signals { run_now = true };
      })

  -- Why a request is refused, with the code and the disk that it leaves: there is no file; the body
  -- could not be bound; the schedules that are set now could not be loaded; or the save failed.
  abbrev pub IsRefusedAs : Response F → Disk → Type 0
  IsRefusedAs r disk =
      ((exists_in disk0 ≡ false) × (r.code ≡ 400) × (disk ≡ disk0))
      ⊎ ((exists_in disk0 ≡ true)
          × ((e : String) × (bound ≡ err e))
          × (r.code ≡ 422)
          × (disk ≡ disk0))
      ⊎ ((payload : SettingsPayload) × (bound ≡ ok payload)
          × (payload.daily_start_schedules ≡ none)
          × ((e : ConfigError) × ((load p.env p.yaml disk0).0 ≡ err e))
          × (r.code ≡ 500)
          × (disk ≡ (load p.env p.yaml disk0).1))
      ⊎ ((payload : SettingsPayload) × (given : List StartSchedule) × (d : Disk) × (bound
            ≡ ok payload)
          × IsGiven payload.daily_start_schedules given d
          × ((e : ConfigError) × ((save_settings p.yaml given (mode_to_save payload.power_mode) d).0
                ≡ err e))
          × (r.code ≡ 422)
          × IsOldOrSaved p.yaml d given (mode_to_save payload.power_mode) disk)

  abbrev pub IsRefused : Response F → Server F C → Type 0
  IsRefused r s = IsRefusedAs r s.world.disk × OnlyDisk s0 s.world.disk s

  -- The file stays, however the save ends.
  pub accepted_kept :
      (r : Response F) (s : Server F C) → IsAccepted r s → IsKeptFile disk0.file s.world.disk
  accepted_kept r s (_, _, _, _, _, _, (_, _, (_, _, (text, _, e))), _, _) = inr (text, e)

  begins_kept :
      (d : Disk) → (d ≡ disk0) ⊎ (d ≡ (load p.env p.yaml disk0).1) → IsKeptFile disk0.file d
  begins_kept d (inl same) = inl (ap (λ d. d.file) same)
  begins_kept d (inr same) = rw same (load-Keeps p.env p.yaml disk0.file disk0 (inl refl))

  pub begins_at :
      (wanted : Option (List StartSchedule)) (given : List StartSchedule) (d : Disk)
      → IsGiven wanted given d
      → (d ≡ disk0) ⊎ (d ≡ (load p.env p.yaml disk0).1)
  begins_at (some xs) given d h = inl h.1
  begins_at none given d h = inr h.0

  pub refused_kept :
      (r : Response F) (s : Server F C) → IsRefused r s → IsKeptFile disk0.file s.world.disk
  refused_kept r s (inl (_, _, e), _) = inl (ap (λ d. d.file) e)
  refused_kept r s (inr (inl (_, _, _, e)), _) = inl (ap (λ d. d.file) e)
  refused_kept r s (inr (inr (inl (_, _, _, _, _, e))), _) = begins_kept s.world.disk (inr e)
  refused_kept r s (inr (inr (inr (payload, given, d, _, from, _, _, inl old))), _) =
      IsKeptFile-trans disk0.file d s.world.disk
        (begins_kept d (begins_at payload.daily_start_schedules given d from)) (inl old)
  refused_kept r s
        (inr (inr (inr (_, _, _, _, _, _, _, inr (_, (_, _, (_, _, (_, front, _, _, e))))))), _) =
      inr (front, e)

  pub unsaved :
      (r : Response F) (d : Disk)
      → IsRefusedAs r d
      → (s : Server F C) → OnlyDisk s0 d s
      → IsRefused r s
  unsaved r d why s h =
      let same : s.world.disk ≡ d = ap (λ s. s.world.disk) h in
      (
        subst (λ d. IsRefusedAs r d) (sym same) why,
        h ∙ ap (λ d. record s0 { world = record s0.world { disk = d } }) (sym same),
      )

  abbrev pub Gives : Option (List StartSchedule) → List StartSchedule → Server F C → Type 0
  Gives wanted given s = (d : Disk) × IsGiven wanted given d × OnlyDisk s0 d s

  pub schedules_to_save_ends :
      (payload : SettingsPayload) (wanted : Option (List StartSchedule))
      → bound ≡ ok payload
      → payload.daily_start_schedules ≡ wanted
      → Finishes (OnlyDisk s0 disk0) (schedules_to_save p wanted) (Gives wanted) IsRefused
  unfolding schedules_to_save settings
  schedules_to_save_ends payload (some schedules) same wants = λ s h. (disk0, (refl, refl), h)
  schedules_to_save_ends payload none same wants = go
    where
      loaded : DiskAction (Config F)
      loaded = load p.env p.yaml

      Read : SettingsView → Server F C → Type 0
      Read v s =
          (cfg : Config F) × (v ≡ settings_of cfg)
          × ((loaded disk0).0 ≡ ok cfg)
          × OnlyDisk s0 (loaded disk0).1 s

      read :
          Finishes
            (OnlyDisk s0 disk0)
            (on_service 500 (on_disk loaded >>= λ cfg. pure (settings_of cfg)))
            Read
            IsRefused
      read s h =
          Ends-weaken Read Read
            (λ r s.
              (r.code ≡ 500)
              × ((e : ConfigError) × ((loaded disk0).0 ≡ err e))
              × OnlyDisk s0 (loaded disk0).1 s)
            IsRefused (on_service 500 (on_disk loaded >>= λ cfg. pure (settings_of cfg)) s)
            (λ _ _ k. k)
            (λ r s (code, failed, k).
              unsaved r (loaded disk0).1
                (inr (inr (inl (payload, same, wants, failed, code, refl)))) s k)
            (service_on_disk s0 500 disk0 loaded settings_of s h)

      go :
          Finishes
            (OnlyDisk s0 disk0)
            (on_service 500 (on_disk loaded >>= λ cfg. pure (settings_of cfg)) >>= λ current.
              pure (list_of current.daily_start_schedules))
            (Gives none)
            IsRefused
      go =
          Finishes->>= (OnlyDisk s0 disk0) Read (Gives none) IsRefused
            (on_service 500 (on_disk loaded >>= λ cfg. pure (settings_of cfg)))
            (λ current. pure (list_of current.daily_start_schedules)) read
            (λ v s (cfg, seen, e, k). (
              (loaded disk0).1,
              (refl, (cfg, e, ap (λ v. list_of v.daily_start_schedules) seen)),
              k,
            ))
