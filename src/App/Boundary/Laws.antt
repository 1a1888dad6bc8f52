-- ===== src/App/Boundary/Laws.antt =====
-- `NextStartScheduleBoundary` and `NextStartScheduleTime` of internal/app/service.go against the starts
-- and the ends of all windows.
use cdtalive.Prelude.{
  ℕ, ◌+◌, ◌-◌, ◌*◌, ◌≤◌, ◌≡◌, refl, ap, sym, ◌∙◌, inl, inr, List, [], ◌∷◌, ◌++◌, map, true,
  Bool-cases, Option, none, ltb, ◌==◌, if◌then◌else◌, All, arith,
}
use cdtalive.Prelude.Results.{ok, ◌>>=◌}
use cdtalive.Time.{Location, Instant, from_local, local_days, weekday_of_days}
use cdtalive.Config.Intervals.{MinuteInterval}
use cdtalive.Config.Intervals.Complement.{text_of}
use cdtalive.Config.Schedules.{validate_start_schedules, is_empty}
use cdtalive.Config.Schedules.Laws.{IsNormal, validate_start_schedules-fixed}
use cdtalive.App.Schedule.{stop_weekday_selected}
use cdtalive.App.Schedule.Laws.{start_schedule_window_minutes-window}
use cdtalive.App.Schedule.Meaning.{Plan, IsSpan, IsPlan, schedule_of}
use cdtalive.App.Boundary.{
  schedule_candidate, boundaries_of, start_of, soonest, days_from, scan_windows, scan_schedules,
  scan_days, next_start_schedule_boundary, next_start_schedule_time,
}
use cdtalive.App.Boundary.Soonest.{soonest-append, IsSoonest, soonest_lem}

-- The second of a location's clock at a minute of a day; 1440 is the midnight after it.
abbrev pub mark : Location → ℕ → ℕ → ℕ
mark zone day minute = from_local zone (day * 86400 + minute * 60)

-- The two ends of a span that begins on a day.
abbrev pub span_marks : Location → ℕ → MinuteInterval → List ℕ
span_marks zone day i =
    mark zone day i.start ∷ mark zone (if ltb i.end i.start then day + 1 else day) i.end ∷ []

abbrev pub all_marks : (ℕ → MinuteInterval → List ℕ) → ℕ → List MinuteInterval → List ℕ
all_marks marks day [] = []
all_marks marks day (i ∷ is) = marks day i ++ all_marks marks day is

abbrev pub day_marks : (ℕ → MinuteInterval → List ℕ) → ℕ → List Plan → List ℕ
day_marks marks day [] = []
day_marks marks day (p ∷ plans) =
    (if stop_weekday_selected p.days (weekday_of_days day) then all_marks marks day p.spans else [])
    ++ day_marks marks day plans

abbrev pub week_marks : (ℕ → MinuteInterval → List ℕ) → List ℕ → List Plan → List ℕ
week_marks marks [] plans = []
week_marks marks (day ∷ days) plans = day_marks marks day plans ++ week_marks marks days plans

schedule_candidate-mark :
    (zone : Location) (day minutes : ℕ)
    → minutes ≤ 1440
    → schedule_candidate zone day minutes ≡ mark zone day minutes
unfolding schedule_candidate
schedule_candidate-mark zone day minutes h = elim (Bool-cases (minutes == 1440)) [
  | inl e ↦ rw e (ap (from_local zone) (midnight e))
  | inr e ↦ rw e (ap (from_local zone) (omega arith))
]
  where
    midnight : (minutes == 1440) ≡ true → (day + 1) * 86400 ≡ day * 86400 + minutes * 60
    midnight e = ground arith

module _ (candidates : ℕ → ℕ × ℕ → List ℕ) (marks : ℕ → MinuteInterval → List ℕ)
    (agree : (day : ℕ) (i : MinuteInterval)
      → IsSpan i
      → candidates day (i.start, i.end) ≡ marks day i)
    (now : Instant) where
  scan_windows_lem :
      (day : ℕ) (is : List MinuteInterval) (next : Option ℕ)
      → All IsSpan is
      → scan_windows candidates now day (map text_of is) next
        ≡ ok (soonest now next (all_marks marks day is))
  unfolding scan_windows
  scan_windows_lem day [] next h = refl
  scan_windows_lem day (i ∷ is) next ((hs, he, ne), h) =
      ap
        (λ r. r >>= λ minutes.
          scan_windows candidates now day (map text_of is)
            (soonest now next (candidates day minutes)))
        (start_schedule_window_minutes-window i.start i.end hs he ne)
      ∙ rw (agree day i (hs, he, ne)) (
          scan_windows_lem day is (soonest now next (marks day i)) h
          ∙ ap ok (sym (soonest-append now next (marks day i) (all_marks marks day is))))

  scan_schedules_lem :
      (day : ℕ) (plans : List Plan) (next : Option ℕ)
      → All IsPlan plans
      → scan_schedules candidates now day (map schedule_of plans) next
        ≡ ok (soonest now next (day_marks marks day plans))
  unfolding scan_schedules
  scan_schedules_lem day [] next h = refl
  scan_schedules_lem day (p ∷ plans) next (hp, h) =
      elim (Bool-cases (stop_weekday_selected p.days (weekday_of_days day))) [
        | inl e ↦ rw e (
            ap (λ r. r >>= scan_schedules candidates now day (map schedule_of plans))
              (scan_windows_lem day p.spans next hp)
            ∙ scan_schedules_lem day plans (soonest now next (all_marks marks day p.spans)) h
            ∙ ap ok (
                sym (
                  soonest-append now next (all_marks marks day p.spans)
                    (day_marks marks day plans))))
        | inr e ↦ rw e (scan_schedules_lem day plans next h)
      ]

  scan_days_lem :
      (days : List ℕ) (plans : List Plan) (next : Option ℕ)
      → All IsPlan plans
      → scan_days candidates now days (map schedule_of plans) next
        ≡ ok (soonest now next (week_marks marks days plans))
  unfolding scan_days
  scan_days_lem [] plans next h = refl
  scan_days_lem (day ∷ days) plans next h =
      ap (λ r. r >>= scan_days candidates now days (map schedule_of plans))
        (scan_schedules_lem day plans next h)
      ∙ scan_days_lem days plans (soonest now next (day_marks marks day plans)) h
      ∙ ap ok
          (sym (soonest-append now next (day_marks marks day plans) (week_marks marks days plans)))

  no_plans : (days : List ℕ) → week_marks marks days [] ≡ []
  no_plans [] = refl
  no_plans (day ∷ days) = no_plans days

  -- The scan of schedules in normal form, also of none.
  scan_lem :
      (days : List ℕ) (plans : List Plan)
      → All IsNormal (map schedule_of plans)
      → All IsPlan plans
      → (validate_start_schedules (map schedule_of plans) >>= λ normalized.
          if is_empty normalized then ok none else scan_days candidates now days normalized none)
        ≡ ok (soonest now none (week_marks marks days plans))
  scan_lem days [] normal h =
      rw (validate_start_schedules-fixed [] tt)
        (ap (λ xs. ok (soonest now none xs)) (sym (no_plans days)))
  scan_lem days (p ∷ plans) normal h =
      rw (validate_start_schedules-fixed (map schedule_of (p ∷ plans)) normal)
        (scan_days_lem days (p ∷ plans) none h)

module _ (zone : Location) where
  boundaries_of-span_marks :
      (day : ℕ) (i : MinuteInterval)
      → IsSpan i
      → boundaries_of zone day (i.start, i.end) ≡ span_marks zone day i
  unfolding boundaries_of
  boundaries_of-span_marks day i (hs, he, ne) =
      rw
        (
          schedule_candidate-mark zone day i.start (omega arith),
          schedule_candidate-mark zone (if ltb i.end i.start then day + 1 else day) i.end he,
        )
        refl

  -- The start of a span that begins on a day.
  abbrev pub start_marks : ℕ → MinuteInterval → List ℕ
  start_marks day i = mark zone day i.start ∷ []

  start_of-start_marks :
      (day : ℕ) (i : MinuteInterval)
      → IsSpan i
      → start_of zone day (i.start, i.end) ≡ start_marks day i
  unfolding start_of
  start_of-start_marks day i (hs, he, ne) =
      rw (schedule_candidate-mark zone day i.start (omega arith)) refl

module _ (zone : Location) (now : Instant) where
  -- The next boundary of schedules in normal form is the soonest of the two ends of their spans after
  -- now: it is an end of a span that begins on one of their days, from yesterday to eight days ahead,
  -- and no such end lies between. Where there is no boundary, all these ends are past.
  pub next_start_schedule_boundary-IsSoonest :
      (plans : List Plan)
      → All IsNormal (map schedule_of plans)
      → All IsPlan plans
      → (b : Option ℕ) × (next_start_schedule_boundary zone (map schedule_of plans) now ≡ ok b)
        × IsSoonest now b
            (week_marks (span_marks zone) (days_from (local_days zone now - 1) 10) plans)
  unfolding next_start_schedule_boundary
  next_start_schedule_boundary-IsSoonest plans normal h =
      let marks = week_marks (span_marks zone) (days_from (local_days zone now - 1) 10) plans in
      (
        soonest now none marks,
        scan_lem (boundaries_of zone) (span_marks zone) (boundaries_of-span_marks zone) now
            (days_from (local_days zone now - 1) 10) plans normal h,
        soonest_lem now marks,
      )

  -- The next start of schedules in normal form is the soonest start of their spans after now: it is the
  -- start of a span on one of their days, from today to eight days ahead, and no such start lies
  -- between. Where there is none, all these starts are past.
  pub next_start_schedule_time-IsSoonest :
      (plans : List Plan)
      → All IsNormal (map schedule_of plans)
      → All IsPlan plans
      → (b : Option ℕ) × (next_start_schedule_time zone (map schedule_of plans) now ≡ ok b)
        × IsSoonest now b (week_marks (start_marks zone) (days_from (local_days zone now) 9) plans)
  unfolding next_start_schedule_time
  next_start_schedule_time-IsSoonest plans normal h =
      let marks = week_marks (start_marks zone) (days_from (local_days zone now) 9) plans in
      (
        soonest now none marks,
        scan_lem (start_of zone) (start_marks zone) (start_of-start_marks zone) now
            (days_from (local_days zone now) 9) plans normal h,
        soonest_lem now marks,
      )
