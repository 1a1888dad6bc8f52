-- ===== src/Config/Schedules/Laws.antt =====
-- The normal form that `ValidateStartSchedules` of internal/config/config.go returns.
use cdtalive.Prelude.{◌≡◌, refl, List, [], ◌∷◌, false, ◌||◌, All, arith, inl, inr, Bool-cases}
use cdtalive.Prelude.Results.{ok, Ensures, Ensures->>=, Ensures-ok}
use cdtalive.Config.Weekdays.Laws.{
  IsAscending, IsWeekday, IsValidatedFrom, validate_stop_weekdays-IsValidatedFrom,
  validate_stop_weekdays-fixed,
}
use cdtalive.Config.Windows.Laws.{
  IsStartWindow, validate_start_windows-All, validate_start_windows-fixed,
}
use cdtalive.Config.Schedules.{StartSchedule, is_empty, validate_start_schedules}

-- A normalized schedule: its days in order and on the calendar, its windows canonical, and neither
-- list empty.
pub record IsNormal (s : StartSchedule) : Type 0 where
  pub ascending : IsAscending s.weekdays
  pub on_calendar : All IsWeekday s.weekdays
  pub canonical : All IsStartWindow s.windows
  pub some_day : is_empty s.weekdays ≡ false
  pub some_window : is_empty s.windows ≡ false

pub validate_start_schedules-All :
    (raw : List StartSchedule) → Ensures (All IsNormal) (validate_start_schedules raw)
unfolding validate_start_schedules
validate_start_schedules-All [] = tt
validate_start_schedules-All (s ∷ raw) =
    Ensures->>= (IsValidatedFrom s.weekdays) (All IsNormal) _ _
      (validate_stop_weekdays-IsValidatedFrom s.weekdays)
      λ weekdays days.
        Ensures->>= (All IsStartWindow) (All IsNormal) _ _ (validate_start_windows-All s.windows)
          λ windows canonical.
            Ensures->>= (All IsNormal) (All IsNormal) _ _ (validate_start_schedules-All raw)
              λ rest normal. elim (Bool-cases (is_empty weekdays || is_empty windows)) [
                | inl drop ↦ rw drop normal
                | inr keep ↦ rw keep (
                  record {
                    ascending = days.0;
                    on_calendar = days.1;
                    canonical = canonical;
                    some_day = ground arith;
                    some_window = ground arith;
                  },
                  normal,
                )
              ]

pub validate_start_schedules-fixed :
    (ss : List StartSchedule) → All IsNormal ss → validate_start_schedules ss ≡ ok ss
unfolding validate_start_schedules
validate_start_schedules-fixed [] h = refl
validate_start_schedules-fixed (s ∷ ss) (n, ns) = rw (
  validate_stop_weekdays-fixed s.weekdays n.ascending n.on_calendar,
  validate_start_windows-fixed s.windows n.canonical,
  validate_start_schedules-fixed ss ns,
  n.some_day,
  n.some_window,
)

-- Validation is a projection: what it returns it accepts unchanged, and every schedule of it is
-- normalized.
pub validate_start_schedules_idem :
    (raw ss : List StartSchedule)
    → validate_start_schedules raw ≡ ok ss
    → All IsNormal ss × (validate_start_schedules ss ≡ ok ss)
validate_start_schedules_idem raw ss e =
    let normal =
      Ensures-ok (All IsNormal) (validate_start_schedules raw) (validate_start_schedules-All raw)
        e in
    (normal, validate_start_schedules-fixed ss normal)
