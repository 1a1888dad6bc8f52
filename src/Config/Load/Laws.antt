-- ===== src/Config/Load/Laws.antt =====
-- The configurations that `Load` of internal/config/config.go returns.
use cdtalive.Prelude.{
  ◌≡◌, refl, ◌⊎◌, inl, inr, List, none, some, String, str_eq, str_eq_iff, All, arith, if◌then◌else◌,
  Bool-cases,
}
use cdtalive.Prelude.Actions.{lift, ◌>>=◌, Yields->>=, Yields-lift, Yields-any, Ensures-any}
use cdtalive.Prelude.Floats.{FloatOps}
use cdtalive.Prelude.Int.{ℤ, pos, ◌≤ℤ◌, ltb_ℤ}
use cdtalive.Prelude.Results.{or_err, Ensures, Ensures->>=}
use cdtalive.Prelude.Text.{Text}
use cdtalive.Config.Disk.{Disk, Yaml, read_file}
use cdtalive.Config.Environment.{
  Env, apply_environment, float_env, interval_env, weekdays_env, schedules_env,
}
use cdtalive.Config.Errors.{bad_file}
use cdtalive.Config.Load.{load, decode, with_schedules, effective_schedules}
use cdtalive.Config.Schedules.{StartSchedule, validate_start_schedules}
use cdtalive.Config.Schedules.Laws.{IsNormal, validate_start_schedules-All}
use cdtalive.Config.Settings.{Config, defaults, validate_power_mode}
use cdtalive.Config.Weekdays.{default_stop_weekdays, validate_stop_weekdays}
use cdtalive.Config.Weekdays.Laws.{
  IsAscending, IsWeekday, IsValidatedFrom, validate_stop_weekdays-IsValidatedFrom,
}

abbrev pub IsPowerMode : String → Type 0
IsPowerMode mode = (mode ≡ "on") ⊎ (mode ≡ "auto") ⊎ (mode ≡ "off")

pub validate_power_mode-IsPowerMode :
    (mode : String) → Ensures (λ _. IsPowerMode mode) (validate_power_mode mode)
unfolding validate_power_mode
validate_power_mode-IsPowerMode mode = elim (Bool-cases (str_eq mode "on")) [
  | inl e ↦ rw e (inl ((str_eq_iff mode "on").0 e))
  | inr e₁ ↦ elim (Bool-cases (str_eq mode "auto")) [
    | inl e ↦ rw (e₁, e) (inr (inl ((str_eq_iff mode "auto").0 e)))
    | inr e₂ ↦ elim (Bool-cases (str_eq mode "off")) [
      | inl e ↦ rw (e₁, e₂, e) (inr (inr ((str_eq_iff mode "off").0 e)))
      | inr e₃ ↦ rw (e₁, e₂, e₃) tt
    ]
  ]
]

module _ {F : Type 0} where
  -- At least a minute between two runs, and the stop days in order and on the calendar.
  abbrev pub HasSafeEnvironment : Config F → Type 0
  HasSafeEnvironment cfg =
      (pos 60 ≤ℤ cfg.run_interval_seconds)
      × ((days : List ℤ) × (cfg.daily_stop_weekdays ≡ some days)
          × IsAscending days
          × All IsWeekday days)

  abbrev pub IsLoaded : Config F → Type 0
  IsLoaded cfg =
      HasSafeEnvironment cfg
      × ((schedules : List StartSchedule) × (cfg.daily_start_schedules ≡ some schedules)
          × All IsNormal schedules)
      × IsPowerMode cfg.power_mode

shortest : (i : ℤ) → pos 60 ≤ℤ (if ltb_ℤ i (pos 60) then pos 60 else i)
shortest i = ground arith

module _ {F : Type 0} ⦃ops : FloatOps F⦄ (env : Env) (yaml : Yaml F) where
  apply_environment-HasSafeEnvironment :
      (cfg : Config F) → Ensures HasSafeEnvironment (apply_environment env yaml cfg)
  unfolding apply_environment
  apply_environment-HasSafeEnvironment cfg =
      Ensures->>= (λ _. Unit {0}) HasSafeEnvironment
        (float_env env "CDT_TRAFFIC_THRESHOLD_GB" cfg.traffic_threshold_gb) _
        (Ensures-any (float_env env "CDT_TRAFFIC_THRESHOLD_GB" cfg.traffic_threshold_gb))
        λ traffic _.
          Ensures->>= (λ _. Unit {0}) HasSafeEnvironment
            (float_env env "CDT_BALANCE_THRESHOLD_CNY" cfg.balance_threshold) _
            (Ensures-any (float_env env "CDT_BALANCE_THRESHOLD_CNY" cfg.balance_threshold))
            λ balance _.
              Ensures->>= (λ _. Unit {0}) HasSafeEnvironment (interval_env env cfg) _
                (Ensures-any (interval_env env cfg))
                λ interval _.
                  Ensures->>= (λ _. Unit {0}) HasSafeEnvironment (weekdays_env env cfg) _
                    (Ensures-any (weekdays_env env cfg))
                    λ weekdays _.
                      Ensures->>= (λ _. Unit {0}) HasSafeEnvironment (schedules_env env yaml cfg) _
                        (Ensures-any (schedules_env env yaml cfg))
                        λ schedules _.
                          let given = elim weekdays as (λ _. List ℤ) [
                            | none ↦ default_stop_weekdays
                            | some ds ↦ ds
                          ] in
                          Ensures->>= (IsValidatedFrom given) HasSafeEnvironment
                            (validate_stop_weekdays given) _
                            (validate_stop_weekdays-IsValidatedFrom given)
                            λ days valid. (shortest interval, (days, refl, valid.0, valid.1))

  decode-HasSafeEnvironment : (text : Text) → Ensures HasSafeEnvironment (decode env yaml text)
  unfolding decode
  decode-HasSafeEnvironment text =
      Ensures->>= (λ _. Unit {0}) HasSafeEnvironment
        (or_err (yaml.unmarshal text defaults) bad_file) (apply_environment env yaml)
        (Ensures-any (or_err (yaml.unmarshal text defaults) bad_file))
        λ decoded _. apply_environment-HasSafeEnvironment decoded

  with_schedules-IsLoaded :
      (cfg : Config F) (schedules : List StartSchedule)
      → HasSafeEnvironment cfg
      → Ensures IsLoaded (with_schedules env yaml cfg schedules)
  unfolding with_schedules
  with_schedules-IsLoaded cfg schedules safe =
      Ensures->>= (All IsNormal) IsLoaded (validate_start_schedules schedules) _
        (validate_start_schedules-All schedules)
        λ normalized normal.
          Ensures->>= (λ _. IsPowerMode cfg.power_mode) IsLoaded
            (validate_power_mode cfg.power_mode) _ (validate_power_mode-IsPowerMode cfg.power_mode)
            λ _ mode. (safe, (normalized, refl, normal), mode)

  -- A configuration that `Load` returns has an interval of at least 60 seconds, validated stop days,
  -- normalized start schedules and one of the three power modes, whatever the file and the
  -- environment hold.
  pub load-IsLoaded : (disk : Disk) → Ensures IsLoaded (load env yaml disk).0
  unfolding load
  load-IsLoaded =
      Yields->>= (λ _. Unit {0}) IsLoaded read_file
        (λ text. lift (decode env yaml text) >>= λ cfg.
          effective_schedules env yaml cfg >>= λ schedules.
          lift (with_schedules env yaml cfg schedules))
        (Yields-any read_file)
        λ text _.
          Yields->>= HasSafeEnvironment IsLoaded (lift (decode env yaml text))
            (λ cfg. effective_schedules env yaml cfg >>= λ schedules.
              lift (with_schedules env yaml cfg schedules))
            (Yields-lift HasSafeEnvironment (decode env yaml text) (decode-HasSafeEnvironment text))
            λ cfg safe.
              Yields->>= (λ _. Unit {0}) IsLoaded (effective_schedules env yaml cfg)
                (λ schedules. lift (with_schedules env yaml cfg schedules))
                (Yields-any (effective_schedules env yaml cfg))
                λ schedules _.
                  Yields-lift IsLoaded (with_schedules env yaml cfg schedules)
                    (with_schedules-IsLoaded cfg schedules safe)
