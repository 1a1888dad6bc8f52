-- ===== src/Tests/Store.antt =====
-- The store at concrete inputs.
use cdtalive.Prelude.{[], ◌∷◌, true, false}
use cdtalive.Prelude.Int.{ℤ, pos}
use cdtalive.Store.Commit.{with_state, new_events, record_ecs_state-IsAtomic}
use cdtalive.Store.Db.{Db}
use cdtalive.Store.Statements.{record_ecs_state}
use cdtalive.Store.Tables.{EcsState}
use cdtalive.Store.Transactions.{IsAtomic}
use cdtalive.Tests.Fixtures.{empty_tables}

abbrev down : EcsState
down = record {
  last_status = "Stopped";
  last_startup_timestamp = pos 100;
  scheduled_stop_active = true;
  last_scheduled_stop_timestamp = pos 200;
  last_unexpected_timestamp = pos 0;
}

-- The third call fails: the insert of the event.
abbrev failing : Db ℤ
failing = record { tables = empty_tables; faults = false ∷ false ∷ true ∷ [] }

record_ecs_state-IsAtomic_example :
    IsAtomic
      (with_state down (new_events true false (pos 200)))
      empty_tables
      (record_ecs_state down true false (pos 200) failing)
record_ecs_state-IsAtomic_example = record_ecs_state-IsAtomic down true false (pos 200) failing
