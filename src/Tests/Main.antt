-- ===== src/Tests/Main.antt =====
-- The handlers, the scheduler and the maintenance on the platform in memory.
use cdtalive.Prelude.{ℕ, ◌≡◌, refl, [], ◌∷◌, true, false, none, some, String, arith}
use cdtalive.Prelude.Hoare.{Ends, Post}
use cdtalive.Prelude.Int.{ℤ, pos, ◌-ℤ◌}
use cdtalive.Prelude.Results.{Result, ok, traverse}
use cdtalive.Prelude.Text.{Text, codes, trim_space}
use cdtalive.Config.Disk.{disk_call, write_file, chmod, mkdir_all}
use cdtalive.Config.Save.{init, write}
use cdtalive.Config.Schedules.{validate_start_schedules}
use cdtalive.Config.Settings.{Config, defaults}
use cdtalive.Config.Weekdays.{validate_stop_weekdays}
use cdtalive.App.Scheduler.{
  started, turn, make_round, go_round, kind_of, run_kind, attempt, report, after_run, attempt_value,
  settle, find_boundary, wake_at,
}
use cdtalive.App.Service.{is_transitioning, run_once, connect, set_failure, set_next_run_at}
use cdtalive.Config.Load.{load, decode}
use cdtalive.App.Signals.{notify}
use cdtalive.App.Values.{get_string, get}
use cdtalive.App.World.{Platform, World}
use cdtalive.Store.Tables.{scheduled}
use cdtalive.Store.Statements.{count_events}
use cdtalive.App.Views.{spent_since}
use cdtalive.App.Dashboard.Spending.{chronological}
use cdtalive.Time.{unix, previous_month_start, local_days, from_local, date_of_days, days_in_month}
use cdtalive.Web.{
  notify_scheduler, SettingsPayload, Server, put_settings, post_init, post_run, respond, detail,
  initialize, handle,
}
use cdtalive.Web.Init.{IsInitAccepted, IsInitRefused, initialize_result}
use cdtalive.Main.{
  System, waiting, new_system, world_of, after_turn, after_call, prune_now, answers, turns, Reaches,
  stays, goes,
}
use cdtalive.Main.Configured.{reached_initialize, unconfigured_requests}
use cdtalive.Config.Disk.{exists_in}
use cdtalive.Main.Maintenance.{prune_now_keeps}
use cdtalive.Main.Shown.{reached_next_run}
use cdtalive.App.Dashboard.{dashboard}
use cdtalive.App.Dashboard.Shows.{ShowsNextRun, Failed}
use cdtalive.Tests.Fixtures.{whole, platform, world}

abbrev no_page : String → Result String Text
no_page name = ok (codes "page")

-- Forced on, with the schedules as they are.
abbrev forced_on : Result String SettingsPayload
forced_on = ok (record { daily_start_schedules = some []; power_mode = "on" })

abbrev fresh : System ℤ ℕ
fresh = new_system world

abbrev server : Server ℤ ℕ
server = fresh.server

-- Before a configuration file is there.
abbrev bare : System ℤ ℕ
bare = new_system (record world { disk = record { file = none; faults = [] } })

abbrev first_config : Config ℤ
first_config = record (defaults {F = ℤ}) {
  access_key_id = codes " key ";
  access_key_secret = codes "secret";
  ecs_instance_id = codes "i-1";
  daily_start_schedules = some [];
}

initialize_result_example :
    Ends
      (IsInitAccepted platform (ok first_config) bare.server)
      (IsInitRefused platform (ok first_config) bare.server)
      (initialize platform (ok first_config) bare.server)
initialize_result_example = initialize_result platform (ok first_config) bare.server

initialize_first : (initialize platform (ok first_config) bare.server).1.signals.wake ≡ true
unfolding initialize init write validate_stop_weekdays validate_start_schedules mkdir_all write_file
    chmod disk_call notify_scheduler notify trim_space traverse
initialize_first = refl

-- After the first turn of the scheduler.
abbrev first_turn : System ℤ ℕ
first_turn = after_turn platform fresh

abbrev to_first_turn : Reaches platform no_page fresh first_turn
to_first_turn = goes fresh fresh first_turn (stays fresh) (turns fresh refl)

-- A file that cannot be read, after which the next run is five minutes ahead.
abbrev broken : Platform ℤ ℕ
broken = record platform { yaml = record platform.yaml { unmarshal = λ text cfg. none } }

abbrev failed_turn : System ℤ ℕ
failed_turn = after_turn broken fresh

failed_wait : failed_turn.phase ≡ waiting (some 11101000000000)
unfolding after_turn turn make_round go_round kind_of run_kind attempt run_once connect load decode
    report set_failure after_run attempt_value settle find_boundary wake_at set_next_run_at
    is_transitioning get_string get
failed_wait = refl

reached_next_run_example :
    ((world_of failed_turn).next_run_at ≡ unix 11101000000000)
    × Post (ShowsNextRun (unix 11101000000000)) Failed (dashboard broken (world_of failed_turn))
reached_next_run_example =
    reached_next_run broken no_page world failed_turn 11101000000000
      (goes fresh fresh failed_turn (stays fresh) (turns fresh refl)) failed_wait

abbrev saved : System ℤ ℕ
saved = after_call platform no_page (put_settings forced_on) fresh

-- The scheduler waits, and a run is forced.
abbrev forced : System ℤ ℕ
forced = record {
  server = record { world = world; signals = record { wake = false; run_now = true } };
  loop = started;
  phase = waiting (some 5);
}

-- A balance of the month before, and one of this month.
abbrev kept_world : World ℤ ℕ
kept_world = record world {
  cloud_state = 5000000;
  db = record world.db {
    tables = record world.db.tables {
      balance_samples =
          record { timestamp = pos 4300000; available_amount = pos 9 }
          ∷ record { timestamp = pos 4900000; available_amount = pos 7 }
          ∷ [];
    };
  };
}

prune_now_keeps_example :
    (count_events scheduled (pos 4900000) (prune_now platform kept_world).1.db.tables.stop_events
      ≡ count_events scheduled (pos 4900000) kept_world.db.tables.stop_events)
    × (spent_since
          (chronological (prune_now platform kept_world).1.db.tables.balance_samples)
          (pos 4800000)
        ≡ spent_since (chronological kept_world.db.tables.balance_samples) (pos 4800000))
unfolding ◌-ℤ◌ previous_month_start local_days from_local date_of_days days_in_month
prune_now_keeps_example =
    prune_now_keeps platform kept_world scheduled (pos 4900000) (pos 4800000) (omega arith)
      (omega arith) refl

reached_initialize_example :
    (exists_in (world_of first_turn).disk ≡ true)
    × (handle platform no_page (post_init (ok defaults)) first_turn.server
        ≡ (respond 400 (detail "配置文件已存在，无法重复初始化。"), first_turn.server))
reached_initialize_example =
    reached_initialize platform no_page fresh first_turn (ok defaults) to_first_turn refl

unconfigured_requests_example :
    (world_of (after_call platform no_page post_run bare)).requests ≡ (world_of bare).requests
unconfigured_requests_example =
    unconfigured_requests platform no_page bare (after_call platform no_page post_run bare)
      (answers post_run bare) refl
