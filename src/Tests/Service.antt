-- ===== src/Tests/Service.antt =====
-- The service on the platform in memory.
use cdtalive.Prelude.{◌≡◌, refl, List, [], ◌∷◌, false, String, some, arith}
use cdtalive.Prelude.Hoare.{Post}
use cdtalive.Prelude.Int.{ℤ, pos}
use cdtalive.Prelude.Text.{codes, split_two, split, trim_space, atoi, format_02d}
use cdtalive.Prelude.Results.{traverse}
use cdtalive.Config.Clock.{normalize_schedule_clock, normalize_clock, schedule_clock_minutes}
use cdtalive.Config.Schedules.{validate_start_schedules}
use cdtalive.Config.Weekdays.{validate_stop_weekdays}
use cdtalive.Config.Windows.{validate_start_windows, normalize_start_window}
use cdtalive.Store.Tables.{scheduled, unexpected}
use cdtalive.App.Frames.{Issued}
use cdtalive.App.Recording.{settled_status, record_instance_state}
use cdtalive.App.Recording.Events.{
  Check, of_kind, check_all, check_all_scheduled, check_all_unexpected,
}
use cdtalive.App.Recording.Laws.{IsCheck, record_instance_state_result}
use cdtalive.App.Service.{run_once, refresh_ecs_status}
use cdtalive.App.Service.Requests.{RunAllows, run_once_requests}
use cdtalive.App.Service.Results.{IsKept, run_once_result, refresh_ecs_status_result}
use cdtalive.Time.{LocalTime}
use cdtalive.Config.Settings.{Config, defaults}
use cdtalive.App.Schedule.{
  within_start_schedule, start_schedule_window_minutes, scan_window, stop_weekday_selected,
}
use cdtalive.App.Policy.{choose}
use cdtalive.App.Policy.Rules.{MayStart, MayStopAny, choose_start, choose_stop_other}
use cdtalive.Tests.Fixtures.{all_day, whole, platform, world, stopped, empty_tables}

run_once_requests_example :
    Issued
      (RunAllows platform world.disk world.cloud_state)
      world.requests
      ((run_once platform world).1)
run_once_requests_example = run_once_requests platform world

run_once_result_example :
    Post (IsKept platform) (λ v. v.last ≡ world.last) (run_once platform world)
run_once_result_example = run_once_result platform world

refresh_ecs_status_result_example :
    Post (IsKept platform) (λ v. v.last ≡ world.last) (refresh_ecs_status platform world)
refresh_ecs_status_result_example = refresh_ecs_status_result platform world

record_instance_state_result_example :
    Post
      (IsCheck platform world.db.tables world.cloud_state (codes "i-1") "Starting" "forced_on")
      (λ v. v.db.tables ≡ world.db.tables)
      (record_instance_state platform (codes "i-1") "Starting" "forced_on" world)
record_instance_state_result_example =
    record_instance_state_result platform (codes "i-1") "Starting" "forced_on" world

-- A stop for the schedule that two checks see, and a start.
abbrev checks : List Check
checks =
    record {
      fallback = "Stopping";
      reason = "outside_start_schedule";
      found = some stopped;
      now = pos 100;
    }
    ∷ record {
      fallback = "Stopped";
      reason = "outside_start_schedule";
      found = some stopped;
      now = pos 160;
    }
    ∷ record {
      fallback = "Starting";
      reason = "scheduled_start_window";
      found = some stopped;
      now = pos 220;
    }
    ∷ record {
      fallback = "Stopped";
      reason = "scheduled_start_window";
      found = some stopped;
      now = pos 280;
    }
    ∷ []

check_all_scheduled_example :
    of_kind scheduled (check_all platform checks empty_tables).stop_events ≡ 1
check_all_scheduled_example = check_all_scheduled platform checks empty_tables

check_all_unexpected_example :
    of_kind unexpected (check_all platform checks empty_tables).stop_events ≡ 1
unfolding settled_status
check_all_unexpected_example = check_all_unexpected platform checks empty_tables

abbrev in_mode : String → Config ℤ
in_mode mode = record (defaults {F = ℤ}) {
  ecs_instance_id = codes "i-1";
  power_mode = mode;
  daily_start_schedules = some (all_day ∷ []);
}

abbrev noon : LocalTime
noon = record { weekday = pos 4; hour = 12; minute = 0 }

choose_start_example :
    (codes "i-1" ≡ codes "i-1")
    × (whole.ge (pos 12) (pos 190) ≡ false)
    × MayStart (in_mode "auto") (pos 12) (pos 5) noon
unfolding choose within_start_schedule start_schedule_window_minutes validate_start_schedules
    validate_stop_weekdays validate_start_windows traverse normalize_start_window split_two
    normalize_schedule_clock normalize_clock split trim_space atoi schedule_clock_minutes format_02d
    scan_window stop_weekday_selected
choose_start_example = choose_start (in_mode "auto") (pos 12) (pos 5) noon (codes "i-1") refl

differ : ¬ (codes "i-2" ≡ codes "i-1")
differ h = ground arith

choose_stop_other_example : MayStopAny (in_mode "auto") (pos 12) (pos 0) noon
unfolding choose
choose_stop_other_example =
    choose_stop_other (in_mode "auto") (pos 12) (pos 0) noon (codes "i-2") tt differ
