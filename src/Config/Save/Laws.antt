-- ===== src/Config/Save/Laws.antt =====
-- The file that `Init` and `SaveSettings` of internal/config/config.go leave.
use cdtalive.Prelude.{◌≡◌, refl, ap, ◌⊎◌, inl, inr, List, none, some, String}
use cdtalive.Prelude.Actions.{pure, lift, ◌>>=◌, ◌>>◌}
use cdtalive.Prelude.Floats.{FloatOps}
use cdtalive.Prelude.Hoare.{Post, Post-weaken, Keeps, Triple, Triple->>=}
use cdtalive.Prelude.Results.{Result, ok, err, or_err}
use cdtalive.Prelude.Text.{Text}
use cdtalive.Config.Disk.{Disk, DiskAction, Yaml}
use cdtalive.Config.Errors.{ConfigError, bad_file, io_error}
use cdtalive.Config.Save.{schedules_or_migrated, write, load_file_only, save_settings}
use cdtalive.Config.Schedules.{StartSchedule, validate_start_schedules}
use cdtalive.Config.Settings.{Config, defaults, list_of, validate_power_mode}
use cdtalive.Config.Weekdays.{default_stop_weekdays}
use cdtalive.Config.Save.Write.{Holds, HoldsStart, IsOldOr, write_ends}

-- An action that leaves the state as it was gives there what it gave before.
reads_at :
    {A : Type 0} (m : DiskAction A) (s : Disk)
    → Keeps (λ v. v ≡ s) m
    → Triple (λ v. v ≡ s) m (λ a v. (v ≡ s) × ((m s).0 ≡ ok a)) (λ v. v ≡ s)
reads_at {A} m s keeps v same = rw same (go (m s).0 refl)
  where
    go :
        (r : Result ConfigError A)
        → (m s).0 ≡ r
        → Post (λ a v. (v ≡ s) × ((m s).0 ≡ ok a)) (λ v. v ≡ s) (r, (m s).1)
    go (ok a) e = (keeps s refl, e)
    go (err z) e = keeps s refl

module _ {F : Type 0} ⦃ops : FloatOps F⦄ (yaml : Yaml F) (disk : Disk) where
  load_file_only-Keeps : Keeps (λ v. v ≡ disk) (load_file_only yaml)
  unfolding load_file_only
  load_file_only-Keeps v same = go (or_err v.file io_error)
    where
      finish : Config F → List StartSchedule → Config F
      finish cfg schedules = record cfg {
        daily_stop_windows = some (list_of cfg.daily_stop_windows);
        daily_stop_weekdays =
            some (elim cfg.daily_stop_weekdays [ none ↦ default_stop_weekdays | some days ↦ days ]);
        daily_start_schedules = some schedules;
      }

      valid :
          Config F → Result ConfigError (List StartSchedule) → Result ConfigError (Config F) × Disk
      valid cfg r = elim r [ ok schedules ↦ (ok (finish cfg schedules), v) | err z ↦ (err z, v) ]

      valid-same :
          (cfg : Config F) (r : Result ConfigError (List StartSchedule)) → (valid cfg r).1 ≡ disk
      valid-same cfg (ok ss) = same
      valid-same cfg (err z) = same

      parsed :
          (r : Result ConfigError (Config F))
          → (elim r as (λ _. Result ConfigError (Config F) × Disk) [
            | ok cfg ↦ valid cfg (validate_start_schedules (schedules_or_migrated cfg))
            | err z ↦ (err z, v)
          ]).1
            ≡ disk
      parsed (ok cfg) = valid-same cfg (validate_start_schedules (schedules_or_migrated cfg))
      parsed (err z) = same

      go :
          (r : Result ConfigError Text)
          → ((lift r >>= λ text. lift (or_err (yaml.unmarshal text defaults) bad_file) >>= λ cfg.
                lift (validate_start_schedules (schedules_or_migrated cfg)) >>= λ ss.
                pure (finish cfg ss))
              v).1
            ≡ disk
      go (ok text) = parsed (or_err (yaml.unmarshal text defaults) bad_file)
      go (err z) = same

  -- What a save writes: the configuration of the file with the two settings replaced.
  abbrev pub saved : Config F → List StartSchedule → String → Config F
  saved cfg schedules mode = record cfg {
    daily_start_schedules = some schedules;
    power_mode = mode;
  }

  -- The result of a save, and what the file has of the configuration that is saved.
  abbrev pub IsSavedAs :
      (Config F → Disk → Type 0)
      → List StartSchedule
      → String
      → List StartSchedule × String
      → Disk
      → Type 0
  IsSavedAs Has given mode out d =
      (validate_start_schedules given ≡ ok out.0)
      × (out.1 ≡ mode)
      × ((cfg : Config F) × ((load_file_only yaml disk).0 ≡ ok cfg) × Has (saved cfg out.0 mode) d)

  abbrev pub IsSaved : List StartSchedule → String → List StartSchedule × String → Disk → Type 0
  IsSaved = IsSavedAs (Holds yaml)

  abbrev pub IsOldOrSaved : List StartSchedule → String → Disk → Type 0
  IsOldOrSaved given mode d =
      (d.file ≡ disk.file)
      ⊎ ((out : List StartSchedule × String) × IsSavedAs (HoldsStart yaml) given mode out d)

  module _ (given : List StartSchedule) (mode : String) where
    save_ends :
        (normalized : List StartSchedule)
        → validate_start_schedules given ≡ ok normalized
        → Triple
            (λ v. v ≡ disk)
            (load_file_only yaml >>= λ cfg.
              write yaml (saved cfg normalized mode) >> pure (normalized, mode))
            (IsSaved given mode)
            (IsOldOrSaved given mode)
    save_ends normalized valid v same =
        let done : DiskAction (List StartSchedule × String) = pure (normalized, mode) in
        Triple->>= (λ v. v ≡ disk) (λ cfg v. (v ≡ disk) × ((load_file_only yaml disk).0 ≡ ok cfg))
          (IsSaved given mode) (IsOldOrSaved given mode) (load_file_only yaml)
          (λ cfg. write yaml (saved cfg normalized mode) >> done)
          (λ v same.
            Post-weaken (λ cfg v. (v ≡ disk) × ((load_file_only yaml disk).0 ≡ ok cfg))
              (λ cfg v. (v ≡ disk) × ((load_file_only yaml disk).0 ≡ ok cfg)) (λ v. v ≡ disk)
              (IsOldOrSaved given mode) (load_file_only yaml v) (λ _ _ k. k)
              (λ v k. inl (ap (λ d. d.file) k))
              (reads_at (load_file_only yaml) disk load_file_only-Keeps v same))
          (λ cfg v (same, read).
            let saves : (d : Disk)
                → Holds yaml (saved cfg normalized mode) d
                → IsSaved given mode (normalized, mode) d =
              λ d k. (valid, refl, (cfg, read, k)) in
            Triple->>= (λ d. d.file ≡ disk.file) (λ _. Holds yaml (saved cfg normalized mode))
              (IsSaved given mode) (IsOldOrSaved given mode)
              (write yaml (saved cfg normalized mode)) (λ _. done)
              (λ d h.
                Post-weaken (λ _. Holds yaml (saved cfg normalized mode))
                  (λ _. Holds yaml (saved cfg normalized mode))
                  (IsOldOr yaml disk.file (saved cfg normalized mode)) (IsOldOrSaved given mode)
                  (write yaml (saved cfg normalized mode) d) (λ _ _ k. k)
                  (λ d k. elim k [
                    | inl old ↦ inl old
                    | inr new ↦ inr ((normalized, mode), (valid, refl, (cfg, read, new)))
                  ])
                  (write_ends yaml (saved cfg normalized mode) disk.file d h))
              (λ _ d k. saves d k) v (ap (λ d. d.file) same))
          v same

    -- A save of settings returns the validated schedules and the mode, and the file then holds the text
    -- of the configuration that was read from it, without the environment, with these two replaced. A
    -- save that fails leaves the file as it was, or holding just that text, or the beginning of it
    -- where the write broke off.
    pub save_settings_result :
        Post (IsSaved given mode) (IsOldOrSaved given mode) (save_settings yaml given mode disk)
    unfolding save_settings
    save_settings_result = go (validate_start_schedules given) (validate_power_mode mode) refl
      where
        go :
            (r : Result ConfigError (List StartSchedule)) (s : Result ConfigError (Unit {0}))
            → validate_start_schedules given ≡ r
            → Post (IsSaved given mode) (IsOldOrSaved given mode) (
                (lift r >>= λ normalized.
                lift s
                >> (load_file_only yaml >>= λ cfg.
                    write yaml (saved cfg normalized mode) >> pure (normalized, mode)))
                  disk)
        go (err z) s e = inl refl
        go (ok normalized) (err z) e = inl refl
        go (ok normalized) (ok _) e = save_ends normalized e disk refl
