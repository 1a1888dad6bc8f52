-- ===== src/Config/Presence.antt =====
-- The configuration file stays where it is under the operations of internal/config/config.go.
use cdtalive.Prelude.{
  take, ◌≡◌, refl, ◌∙◌, ◌⊎◌, inl, inr, List, Bool, true, false, ◌&&◌, not, Option, none, some,
  if◌then◌else◌,
}
use cdtalive.Prelude.Actions.{pure, lift, ◌>>=◌, ◌>>◌}
use cdtalive.Prelude.Floats.{FloatOps}
use cdtalive.Prelude.Hoare.{Keeps, Keeps->>=}
use cdtalive.Prelude.Results.{Result, ok, err, or_err}
use cdtalive.Prelude.Text.{Text}
use cdtalive.Config.Disk.{
  Fault, succeeds, refused, cut_after, rest_of, Disk, DiskAction, Yaml, exists_in, next_fault,
  disk_call, read_file, write_file, chmod,
}
use cdtalive.Config.Environment.{Env, is_set}
use cdtalive.Config.Errors.{ConfigError, bad_file, io_error}
use cdtalive.Config.Load.{
  load, decode, with_schedules, effective_schedules, persist_migrated_start_schedules,
}
use cdtalive.Config.Migrate.{migrate_stop_schedules}
use cdtalive.Config.Schedules.{StartSchedule}
use cdtalive.Config.Settings.{Config, list_of}

-- The file is a given one, or was written.
abbrev pub IsKeptFile : Option Text → Disk → Type 0
IsKeptFile file d = (d.file ≡ file) ⊎ ((text : Text) × (d.file ≡ some text))

pub IsKeptFile-exists :
    (before d : Disk) → IsKeptFile before.file d → exists_in before ≡ true → exists_in d ≡ true
IsKeptFile-exists before d (inl same) h = rw same h
IsKeptFile-exists before d (inr (text, e)) h = rw e refl

pub IsKeptFile-trans :
    (file : Option Text) (d e : Disk) → IsKeptFile file d → IsKeptFile d.file e → IsKeptFile file e
IsKeptFile-trans file d e h (inr written) = inr written
IsKeptFile-trans file d e (inl same) (inl again) = inl (again ∙ same)
IsKeptFile-trans file d e (inr (text, same)) (inl again) = inr (text, again ∙ same)

module _ (file : Option Text) where
  write_file-Keeps : (text : Text) → Keeps (IsKeptFile file) (write_file text)
  unfolding write_file disk_call
  write_file-Keeps text d h = go (next_fault d.faults)
    where
      go :
          (fault : Fault)
          → IsKeptFile file
              (elim fault as (λ _. Result ConfigError (Unit {0}) × Disk) [
                | succeeds ↦ (ok tt, record d { file = some text; faults = rest_of d.faults })
                | refused ↦ (err io_error, record d { faults = rest_of d.faults })
                | cut_after n ↦ (
                  err io_error,
                  record d { file = some (take n text); faults = rest_of d.faults },
                )
              ]).1
      go succeeds = inr (text, refl)
      go refused = h
      go (cut_after n) = inr (take n text, refl)

  chmod-Keeps : Keeps (IsKeptFile file) chmod
  unfolding chmod disk_call
  chmod-Keeps d h = go (next_fault d.faults)
    where
      go :
          (fault : Fault)
          → IsKeptFile file
              (elim fault as (λ _. Result ConfigError (Unit {0}) × Disk) [
                | succeeds ↦ (ok tt, record d { faults = rest_of d.faults })
                | refused ↦ (err io_error, record d { faults = rest_of d.faults })
                | cut_after n ↦ (err io_error, record d { faults = rest_of d.faults })
              ]).1
      go succeeds = h
      go refused = h
      go (cut_after n) = h

  lift-Keeps : {A : Type 0} (r : Result ConfigError A) → Keeps (IsKeptFile file) (lift {S = Disk} r)
  lift-Keeps r d h = h

module _ {F : Type 0} ⦃ops : FloatOps F⦄ (env : Env) (yaml : Yaml F) (file : Option Text) where
  persist-Keeps :
      (schedules : List StartSchedule)
      → Keeps (IsKeptFile file) (persist_migrated_start_schedules env yaml schedules)
  unfolding persist_migrated_start_schedules
  persist-Keeps schedules =
      let migrate : Text → DiskAction Text =
        λ text. lift (or_err (yaml.set_start_schedules text schedules) bad_file) in
      let store : Text → DiskAction (Unit {0}) = λ migrated. write_file migrated >> chmod in
      Keeps->>= (IsKeptFile file) read_file (λ text. migrate text >>= store) (λ d h. h)
        λ text.
          Keeps->>= (IsKeptFile file) (migrate text) store
            (lift-Keeps file (or_err (yaml.set_start_schedules text schedules) bad_file))
            λ migrated.
              Keeps->>= (IsKeptFile file) (write_file migrated) (λ _. chmod)
                (write_file-Keeps file migrated) λ _. chmod-Keeps file

  effective_schedules-Keeps :
      (cfg : Config F) → Keeps (IsKeptFile file) (effective_schedules env yaml cfg)
  unfolding effective_schedules
  effective_schedules-Keeps cfg =
      go (is_set env "CDT_DAILY_STOP_WINDOWS" && not (is_set env "CDT_DAILY_START_SCHEDULES"))
        (is_set env "CDT_DAILY_START_SCHEDULES") cfg.daily_start_schedules
    where
      migrated : List StartSchedule
      migrated =
          migrate_stop_schedules (list_of cfg.daily_stop_windows) (list_of cfg.daily_stop_weekdays)

      persisted : DiskAction (List StartSchedule)
      persisted = persist_migrated_start_schedules env yaml migrated >> pure migrated

      go :
          (legacy replaced : Bool) (given : Option (List StartSchedule))
          → Keeps (IsKeptFile file) (
              if legacy
              then pure migrated
              else elim given as (λ _. DiskAction (List StartSchedule)) [
                | some schedules ↦ pure schedules
                | none ↦ (if replaced then pure migrated else persisted)
              ])
      go true replaced given = λ d h. h
      go false replaced (some schedules) = λ d h. h
      go false true none = λ d h. h
      go false false none =
          Keeps->>= (IsKeptFile file) (persist_migrated_start_schedules env yaml migrated)
            (λ _. pure migrated) (persist-Keeps migrated) (λ _ d h. h)

  pub load-Keeps : Keeps (IsKeptFile file) (load env yaml)
  unfolding load
  load-Keeps =
      let finish : Config F → List StartSchedule → DiskAction (Config F) =
        λ cfg schedules. lift (with_schedules env yaml cfg schedules) in
      let decoded : Text → DiskAction (Config F) = λ text. lift (decode env yaml text) in
      Keeps->>= (IsKeptFile file) read_file
        (λ text. decoded text >>= λ cfg. effective_schedules env yaml cfg >>= finish cfg) (λ d h. h)
        λ text.
          Keeps->>= (IsKeptFile file) (decoded text)
            (λ cfg. effective_schedules env yaml cfg >>= finish cfg)
            (lift-Keeps file (decode env yaml text))
            λ cfg.
              Keeps->>= (IsKeptFile file) (effective_schedules env yaml cfg) (finish cfg)
                (effective_schedules-Keeps cfg)
                λ schedules. lift-Keeps file (with_schedules env yaml cfg schedules)
