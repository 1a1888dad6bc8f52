-- ===== src/Config/Save/Init.antt =====
-- The file that `Init` of internal/config/config.go leaves.
use cdtalive.Prelude.{
  ◌≡◌, refl, sym, ◌∙◌, ◌⊎◌, inl, inr, List, ◌++◌, Bool, true, false, not, Option, none, some, All,
  arith,
}
use cdtalive.Prelude.Actions.{lift, gets, ◌>>=◌, ◌>>◌}
use cdtalive.Prelude.Floats.{FloatOps}
use cdtalive.Prelude.Hoare.{Post, Post-weaken, Triple, Triple->>=}
use cdtalive.Prelude.Int.{ℤ, pos, ltb_ℤ, ◌≤ℤ◌}
use cdtalive.Prelude.Results.{Result, ok, err, fail_if, Ensures-ok}
use cdtalive.Prelude.Text.{Text, trim_space}
use cdtalive.Config.Disk.{Disk, DiskAction, Yaml, exists_in}
use cdtalive.Config.Errors.{ConfigError, already_initialized, missing_fields, interval_too_short}
use cdtalive.Config.Save.{schedules_or_migrated, write, blank_fields, init}
use cdtalive.Config.Save.Write.{Holds, HoldsStart, IsOldOr, write_ends}
use cdtalive.Config.Schedules.{StartSchedule, is_empty, validate_start_schedules}
use cdtalive.Config.Schedules.Laws.{IsNormal, validate_start_schedules-All}
use cdtalive.Config.Settings.{Config, list_of, validate, missing_if}
use cdtalive.Config.Weekdays.{default_stop_weekdays, validate_stop_weekdays}

-- A result that is computed aside, with the state as it was.
lift_ends :
    {A : Type 0} (P : Disk → Type 0) (Z : Disk → Type 0) (r : Result ConfigError A)
    → ((v : Disk) → P v → Z v)
    → Triple P (lift r) (λ a v. P v × (r ≡ ok a)) Z
lift_ends P Z (ok a) h v k = (k, refl)
lift_ends P Z (err z) h v k = h v k

fail_if_ok : (b : Bool) (e : ConfigError) (u : Unit {0}) → fail_if b e ≡ ok u → b ≡ false
fail_if_ok true e u h = cc
fail_if_ok false e u h = refl

no_file : (d : Disk) → exists_in d ≡ false → d.file ≡ none
no_file d = go d.file
  where
    go :
        (file : Option Text)
        → elim file as (λ _. Bool) [ none ↦ false | some _ ↦ true ] ≡ false
        → file ≡ none
    go none h = refl
    go (some t) h = grind arith

no_blanks :
    (a b c d : Bool)
    → is_empty (
        missing_if a "access_key_id"
        ++ (missing_if b "access_key_secret"
            ++ (missing_if c "ecs_instance_id" ++ missing_if d "region_id")))
      ≡ true
    → (a ≡ false) × (b ≡ false) × (c ≡ false)
no_blanks false false false false h = (refl, refl, refl)
no_blanks false false false true h = grind arith
no_blanks false false true d h = grind arith
no_blanks false true c d h = grind arith
no_blanks true b c d h = grind arith

long_enough : (i : ℤ) → ltb_ℤ i (pos 60) ≡ false → pos 60 ≤ℤ i
long_enough i h = ground arith

true_of_not : (b : Bool) → not b ≡ false → b ≡ true
true_of_not b h = ground arith

module _ {F : Type 0} where
  -- What `RunOnce` needs of a configuration, and what `Load` keeps of it.
  abbrev pub IsInitial : Config F → Type 0
  IsInitial c =
      (validate c ≡ ok tt)
      × (pos 60 ≤ℤ c.run_interval_seconds)
      × (c.power_mode ≡ "auto")
      × ((schedules : List StartSchedule) × (c.daily_start_schedules ≡ some schedules)
          × All IsNormal schedules)

  -- The configuration that is written: the one that was given, with its texts trimmed, validated stop
  -- days and schedules, a list of windows, and the mode `auto`.
  abbrev pub initial : Config F → List ℤ → List StartSchedule → Config F
  initial cfg weekdays schedules = record cfg {
    access_key_id = trim_space cfg.access_key_id;
    access_key_secret = trim_space cfg.access_key_secret;
    ecs_instance_id = trim_space cfg.ecs_instance_id;
    region_id = trim_space cfg.region_id;
    daily_stop_windows = some (list_of cfg.daily_stop_windows);
    daily_stop_weekdays = some weekdays;
    daily_start_schedules = some schedules;
    power_mode = "auto";
  }

module _ {F : Type 0} ⦃ops : FloatOps F⦄ (yaml : Yaml F) where
  initial-IsInitial :
      (cfg : Config F) (weekdays : List ℤ) (raw schedules : List StartSchedule)
      → is_empty (blank_fields yaml cfg) ≡ true
      → ltb_ℤ cfg.run_interval_seconds (pos 60) ≡ false
      → validate_start_schedules raw ≡ ok schedules
      → IsInitial (initial cfg weekdays schedules)
  unfolding validate
  initial-IsInitial cfg weekdays raw schedules filled long valid =
      let (a, b, c) =
        no_blanks (is_empty (trim_space cfg.access_key_id))
          (is_empty (trim_space cfg.access_key_secret)) (is_empty (trim_space cfg.ecs_instance_id))
          (is_empty (trim_space cfg.region_id)) filled in
      (
        rw (a, b, c) refl,
        long_enough cfg.run_interval_seconds long,
        refl,
        (
          schedules,
          refl,
          Ensures-ok (All IsNormal) (validate_start_schedules raw)
              (validate_start_schedules-All raw) valid,
        ),
      )

module _ {F : Type 0} (cfg : Config F) where
  -- The schedules that `Init` validates: those of the configuration, or its windows migrated.
  abbrev pub raw_of : List ℤ → List StartSchedule
  raw_of weekdays = schedules_or_migrated (record cfg { daily_stop_weekdays = some weekdays })

  -- The stop days of the configuration, or the default ones, validated.
  abbrev pub days_of : Result ConfigError (List ℤ)
  days_of =
      validate_stop_weekdays
        (elim cfg.daily_stop_weekdays [ none ↦ default_stop_weekdays | some ds ↦ ds ])

module _ {F : Type 0} ⦃ops : FloatOps F⦄ (yaml : Yaml F) (cfg : Config F) (file : Option Text) where
  abbrev Old : Disk → Type 0
  Old d = d.file ≡ file

  -- There was no file, and the one there is has something of the configuration that is written first.
  abbrev pub IsInitializedAs : (Config F → Disk → Type 0) → Disk → Type 0
  IsInitializedAs Has d =
      (file ≡ none)
      × ((weekdays : List ℤ) × (schedules : List StartSchedule) × (days_of cfg ≡ ok weekdays)
          × (validate_start_schedules (raw_of cfg weekdays) ≡ ok schedules)
          × IsInitial (initial cfg weekdays schedules)
          × Has (initial cfg weekdays schedules) d)

  -- It holds its text.
  abbrev pub IsInitialized : Disk → Type 0
  IsInitialized = IsInitializedAs (Holds yaml)

  -- It holds its text or the beginning of it.
  abbrev pub IsBegun : Disk → Type 0
  IsBegun = IsInitializedAs (HoldsStart yaml)

  abbrev Z : Disk → Type 0
  Z d = Old d ⊎ IsBegun d

  first_write_ends :
      (weekdays : List ℤ) (schedules : List StartSchedule)
      → file ≡ none
      → days_of cfg ≡ ok weekdays
      → validate_start_schedules (raw_of cfg weekdays) ≡ ok schedules
      → IsInitial (initial cfg weekdays schedules)
      → Triple Old (write yaml (initial cfg weekdays schedules)) (λ _. IsInitialized) Z
  first_write_ends weekdays schedules free days valid good d h =
      let c : Config F = initial cfg weekdays schedules in
      Post-weaken (λ _. Holds yaml c) (λ _. IsInitialized) (IsOldOr yaml file c) Z (write yaml c d)
        (λ _ _ k. (free, (weekdays, schedules, days, valid, good, k)))
        (λ _ k. elim k [
          | inl old ↦ inl old
          | inr new ↦ inr (free, (weekdays, schedules, days, valid, good, new))
        ])
        (write_ends yaml c file d h)

  checked_ends :
      file ≡ none
      → Triple Old
          (lift (
              fail_if
                (not (is_empty (blank_fields yaml cfg)))
                (missing_fields (blank_fields yaml cfg)))
            >> (lift (fail_if (ltb_ℤ cfg.run_interval_seconds (pos 60)) interval_too_short)
                >> (lift (days_of cfg) >>= λ days.
                    lift (validate_start_schedules (raw_of cfg days)) >>= λ ss.
                    write yaml (initial cfg days ss))))
          (λ _. IsInitialized)
          Z
  checked_ends free =
      let filled =
        fail_if (not (is_empty (blank_fields yaml cfg))) (missing_fields (blank_fields yaml cfg)) in
      let long = fail_if (ltb_ℤ cfg.run_interval_seconds (pos 60)) interval_too_short in
      let store : List ℤ → List StartSchedule → DiskAction (Unit {0}) =
        λ days ss. write yaml (initial cfg days ss) in
      let finish : List ℤ → DiskAction (Unit {0}) =
        λ days. lift (validate_start_schedules (raw_of cfg days)) >>= store days in
      Triple->>= Old (λ u d. Old d × (filled ≡ ok u)) (λ _. IsInitialized) Z (lift filled)
        (λ _. lift long >> (lift (days_of cfg) >>= finish)) (lift_ends Old Z filled (λ v k. inl k))
        λ u v (k, full).
          Triple->>= Old (λ u d. Old d × (long ≡ ok u)) (λ _. IsInitialized) Z (lift long)
            (λ _. lift (days_of cfg) >>= finish) (lift_ends Old Z long (λ v k. inl k))
            (λ u' v (k, rare).
              Triple->>= Old (λ days d. Old d × (days_of cfg ≡ ok days)) (λ _. IsInitialized) Z
                (lift (days_of cfg)) finish (lift_ends Old Z (days_of cfg) (λ v k. inl k))
                (λ days v (k, counted).
                  Triple->>= Old
                    (λ ss d. Old d × (validate_start_schedules (raw_of cfg days) ≡ ok ss))
                    (λ _. IsInitialized) Z (lift (validate_start_schedules (raw_of cfg days)))
                    (store days)
                    (lift_ends Old Z (validate_start_schedules (raw_of cfg days)) (λ v k. inl k))
                    (λ ss v (k, valid).
                      first_write_ends days ss free counted valid
                        (initial-IsInitial yaml cfg days (raw_of cfg days) ss
                          (true_of_not (is_empty (blank_fields yaml cfg)) (
                            fail_if_ok (not (is_empty (blank_fields yaml cfg)))
                              (missing_fields (blank_fields yaml cfg)) u full))
                          (fail_if_ok (ltb_ℤ cfg.run_interval_seconds (pos 60)) interval_too_short
                            u' rare)
                          valid)
                        v k)
                    v k)
                v k)
            v k

  init_ends : Triple Old (init yaml cfg) (λ _. IsInitialized) Z
  unfolding init
  init_ends =
      let filled =
        fail_if (not (is_empty (blank_fields yaml cfg))) (missing_fields (blank_fields yaml cfg)) in
      let long = fail_if (ltb_ℤ cfg.run_interval_seconds (pos 60)) interval_too_short in
      let finish : List ℤ → DiskAction (Unit {0}) = λ days.
        lift (validate_start_schedules (raw_of cfg days)) >>= λ ss.
        write yaml (initial cfg days ss) in
      Triple->>= Old (λ present d. Old d × (exists_in d ≡ present)) (λ _. IsInitialized) Z
        (gets exists_in)
        (λ present.
          lift (fail_if present already_initialized)
          >> (lift filled >> (lift long >> (lift (days_of cfg) >>= finish))))
        (λ d h. (h, refl))
        λ present d (h, seen).
          Triple->>= Old (λ u d. Old d × (fail_if present already_initialized ≡ ok u))
            (λ _. IsInitialized) Z (lift (fail_if present already_initialized))
            (λ _. lift filled >> (lift long >> (lift (days_of cfg) >>= finish)))
            (lift_ends Old Z (fail_if present already_initialized) (λ v k. inl k))
            (λ u v (k, absent).
              let free =
                sym h ∙ no_file d (seen ∙ fail_if_ok present already_initialized u absent) in
              checked_ends free v k)
            d h

module _ {F : Type 0} ⦃ops : FloatOps F⦄ (yaml : Yaml F) (cfg : Config F) (disk : Disk) where
  -- `Init` never replaces a file: it succeeds only where there is none, and leaves a file with the
  -- text of the configuration that was given, with its keys, instance and region trimmed, its stop days
  -- and its schedules, or else its migrated windows, validated, and the mode `auto`. This
  -- configuration passes `Validate`, and has an interval of at least 60 seconds and normalized
  -- schedules. Where it fails the file is as before, or there was none and it holds that text, or the
  -- beginning of it where the write broke off.
  pub init_result :
      Post
        (λ _. IsInitialized yaml cfg disk.file)
        (λ d. (d.file ≡ disk.file) ⊎ IsBegun yaml cfg disk.file d)
        (init yaml cfg disk)
  init_result = init_ends yaml cfg disk.file disk refl
