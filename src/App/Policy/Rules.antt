-- ===== src/App/Policy/Rules.antt =====
-- What the order of the cases of the `switch` in internal/app/service.go comes to.
use cdtalive.Prelude.{◌≡◌, refl, ap, ◌⊎◌, inl, inr, Bool, true, false, str_eq, if◌then◌else◌, arith}
use cdtalive.Prelude.Floats.{FloatOps}
use cdtalive.Prelude.Text.{Text}
use cdtalive.Time.{LocalTime}
use cdtalive.Config.Settings.{Config, list_of}
use cdtalive.App.Policy.{
  choose, Case, over_threshold, forced_on, forced_off, low_balance, in_window, outside,
}
use cdtalive.App.Policy.Laws.{Allows}
use cdtalive.App.Schedule.{within_start_schedule}
use cdtalive.App.World.{Request, start_request, stop_request}

-- The case that the answers of the guards pick.
abbrev case_of : Bool → Bool → Bool → Bool → Bool → Case
case_of over on off low window =
    if over
    then over_threshold
    else if on
    then forced_on
    else if off
    then forced_off
    else if low
    then low_balance
    else if window
    then in_window
    else outside

abbrev id_of : Request → Text
id_of (start_request id) = id
id_of (stop_request id) = id

case_of_start :
    (own id : Text) (over on off low window : Bool)
    → Allows own (case_of over on off low window) (start_request id)
    → (id ≡ own)
      × (over ≡ false)
      × ((on ≡ true) ⊎ ((off ≡ false) × (low ≡ false) × (window ≡ true)))
case_of_start own id true on off low window h = elim h [ ]
case_of_start own id false true off low window h = (ap id_of h, refl, inl refl)
case_of_start own id false false true low window h = grind arith
case_of_start own id false false false true window h = elim h [ ]
case_of_start own id false false false false true h = (ap id_of h, refl, inr (refl, refl, refl))
case_of_start own id false false false false false h = grind arith

case_of_stop_other :
    (own id : Text) (over on off low window : Bool)
    → Allows own (case_of over on off low window) (stop_request id)
    → ¬ (id ≡ own)
    → (over ≡ true) ⊎ ((on ≡ false) × (off ≡ false) × (low ≡ true))
case_of_stop_other own id true on off low window h other = inl refl
case_of_stop_other own id false true off low window h other = grind arith
case_of_stop_other own id false false true low window h other = elim (other (ap id_of h)) [ ]
case_of_stop_other own id false false false true window h other = inr (refl, refl, refl)
case_of_stop_other own id false false false false true h other = grind arith
case_of_stop_other own id false false false false false h other = elim (other (ap id_of h)) [ ]

module _ {F : Type 0} ⦃ops : FloatOps F⦄ (cfg : Config F) (traffic balance : F)
    (now : LocalTime) where
  -- The configured power mode lets an instance be up.
  abbrev pub MayStart : Type 0
  MayStart =
      (str_eq cfg.power_mode "on" ≡ true)
      ⊎ ((str_eq cfg.power_mode "off" ≡ false)
          × (ops.lt balance cfg.balance_threshold ≡ false)
          × (within_start_schedule (list_of cfg.daily_start_schedules) now ≡ true))

  abbrev pub MayStopAny : Type 0
  MayStopAny =
      (ops.ge traffic cfg.traffic_threshold_gb ≡ true)
      ⊎ ((str_eq cfg.power_mode "on" ≡ false)
          × (str_eq cfg.power_mode "off" ≡ false)
          × (ops.lt balance cfg.balance_threshold ≡ true))

  -- A case that allows a start allows it for the configured instance alone, and it is picked only
  -- below the traffic threshold, and in the mode `on`, or in a mode other than `off` with a balance
  -- that is not below its threshold in a minute of the start schedules.
  pub choose_start :
      (id : Text)
      → Allows cfg.ecs_instance_id (choose cfg traffic balance now) (start_request id)
      → (id ≡ cfg.ecs_instance_id) × (ops.ge traffic cfg.traffic_threshold_gb ≡ false) × MayStart
  unfolding choose
  choose_start id =
      case_of_start cfg.ecs_instance_id id (ops.ge traffic cfg.traffic_threshold_gb)
        (str_eq cfg.power_mode "on") (str_eq cfg.power_mode "off")
        (ops.lt balance cfg.balance_threshold)
        (within_start_schedule (list_of cfg.daily_start_schedules) now)

  -- A case that allows a stop of an instance other than the configured one is picked only at or over
  -- the traffic threshold, or, in a mode that is neither `on` nor `off`, with a low balance.
  pub choose_stop_other :
      (id : Text)
      → Allows cfg.ecs_instance_id (choose cfg traffic balance now) (stop_request id)
      → ¬ (id ≡ cfg.ecs_instance_id)
      → MayStopAny
  unfolding choose
  choose_stop_other id =
      case_of_stop_other cfg.ecs_instance_id id (ops.ge traffic cfg.traffic_threshold_gb)
        (str_eq cfg.power_mode "on") (str_eq cfg.power_mode "off")
        (ops.lt balance cfg.balance_threshold)
        (within_start_schedule (list_of cfg.daily_start_schedules) now)
