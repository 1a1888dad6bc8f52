-- ===== src/Store/Statements.antt =====
-- The methods of `Store` in internal/store/store.go.
use cdtalive.Prelude.{
  ℕ, ◌+◌, List, [], ◌∷◌, ◌++◌, Bool, true, false, not, ◌==◌, ◌&&◌, if◌then◌else◌, Option, none,
  some,
}
use cdtalive.Prelude.Actions.{pure, lift, ◌>>=◌, ◌>>◌}
use cdtalive.Prelude.Floats.{FloatOps}
use cdtalive.Prelude.Int.{ℤ, pos, ltb_ℤ, leb_ℤ}
use cdtalive.Prelude.Results.{or_err}
use cdtalive.Prelude.Sorting.{sort_by}
use cdtalive.Prelude.Text.{Text}
use cdtalive.Time.{Location, Instant, day_start, local_days, date_of_days}
use cdtalive.Store.Db.{json_error, StoreAction, exec, query, transaction}
use cdtalive.Store.Tables.{
  BalanceSample, Metrics, EcsState, EcsRow, StopKind, scheduled, unexpected, StopEvent, Tables,
  delete_before, latest_where, kind_eq,
}

abbrev pub bool_int : Bool → ℕ
bool_int true = 1
bool_int false = 0

-- The scan of a row, and the zero value where there is none.
abbrev pub of_row : Option EcsRow → EcsState
of_row none = record {
  last_status = "";
  last_startup_timestamp = pos 0;
  scheduled_stop_active = false;
  last_scheduled_stop_timestamp = pos 0;
  last_unexpected_timestamp = pos 0;
}
of_row (some r) = record {
  last_status = r.last_status;
  last_startup_timestamp = r.last_startup_timestamp;
  scheduled_stop_active = not (r.scheduled_stop_active == 0);
  last_scheduled_stop_timestamp = r.last_scheduled_stop_timestamp;
  last_unexpected_timestamp = r.last_unexpected_stop_timestamp;
}

abbrev pub to_row : EcsState → EcsRow
to_row s = record {
  last_status = s.last_status;
  last_startup_timestamp = s.last_startup_timestamp;
  scheduled_stop_active = bool_int s.scheduled_stop_active;
  last_scheduled_stop_timestamp = s.last_scheduled_stop_timestamp;
  last_unexpected_stop_timestamp = s.last_unexpected_timestamp;
}

-- `SELECT kind, COUNT(*) … WHERE timestamp >= cutoff GROUP BY kind`, at one kind.
abbrev pub count_events : StopKind → ℤ → List StopEvent → ℕ
count_events kind cutoff [] = 0
count_events kind cutoff (e ∷ es) =
    (if leb_ℤ cutoff e.timestamp && kind_eq e.kind kind then 1 else 0) + count_events kind cutoff es

module _ {F : Type 0} where
  -- A map of results is kept as the text that `json.Marshal` writes, or its error.
  unfoldable pub save_last_result : Option Text → StoreAction F (Unit {0})
  unfolding exec
  save_last_result marshalled = do
    text ← lift (or_err marshalled json_error)
    exec (λ t. record t { last_result = some text })

  -- The row, or none (`sql.ErrNoRows`).
  unfoldable pub read_last_result : StoreAction F (Option Text)
  unfolding query
  read_last_result = query (λ t. t.last_result)

  unfoldable pub save_metrics : Metrics F → StoreAction F (Unit {0})
  unfolding exec
  save_metrics metrics = exec (λ t. record t { latest_metrics = some metrics })

  unfoldable pub metrics : StoreAction F (Option (Metrics F))
  unfolding query
  metrics = query (λ t. t.latest_metrics)

  unfoldable pub add_balance : ℤ → F → StoreAction F (Unit {0})
  unfolding exec
  add_balance timestamp available = exec (λ t. record t {
    balance_samples =
        t.balance_samples ++ record { timestamp = timestamp; available_amount = available } ∷ [];
  })

  unfoldable pub add_traffic : ℤ → F → StoreAction F (Unit {0})
  unfolding exec
  add_traffic timestamp traffic = exec (λ t. record t {
    traffic_samples =
        t.traffic_samples ++ record { timestamp = timestamp; traffic_gb = traffic } ∷ [];
  })

  -- `ORDER BY timestamp, id`
  unfoldable pub balance_samples : StoreAction F (List (BalanceSample F))
  unfolding query sort_by
  balance_samples = query (λ t. sort_by (λ a b. leb_ℤ a.timestamp b.timestamp) t.balance_samples)

  unfoldable pub ecs_state : StoreAction F EcsState
  unfolding query
  ecs_state = query (λ t. of_row t.ecs_state)

  abbrev pub add_event : StopKind → ℤ → Tables F → Tables F
  add_event kind now t = record t {
    stop_events = t.stop_events ++ record { kind = kind; timestamp = now } ∷ [];
  }

  abbrev pub exec_if : Bool → (Tables F → Tables F) → StoreAction F (Unit {0})
  exec_if b change = if b then exec change else pure tt

  unfoldable pub record_ecs_state : EcsState → Bool → Bool → ℤ → StoreAction F (Unit {0})
  unfolding transaction exec
  record_ecs_state state scheduled_event unexpected_event now = transaction (do
    exec (λ t. record t { ecs_state = some (to_row state) })
    exec_if scheduled_event (add_event scheduled now)
    exec_if unexpected_event (add_event unexpected now))

  unfoldable pub stop_counts : ℤ → StoreAction F (ℕ × ℕ)
  unfolding query
  stop_counts cutoff = query (λ t.
      (count_events scheduled cutoff t.stop_events, count_events unexpected cutoff t.stop_events))

  -- The three statements are run one after the other, and not in a transaction.
  unfoldable pub prune : ℤ → ℤ → StoreAction F (Unit {0})
  unfolding exec delete_before
  prune balance_cutoff event_cutoff = do
    exec (λ t. record t {
      balance_samples = delete_before (λ s. s.timestamp) balance_cutoff t.balance_samples;
    })
    exec (λ t. record t {
      traffic_samples = delete_before (λ s. s.timestamp) balance_cutoff t.traffic_samples;
    })
    exec (λ t. record t {
      stop_events = delete_before (λ e. e.timestamp) event_cutoff t.stop_events;
    })

module _ {F : Type 0} ⦃ops : FloatOps F⦄ where
  -- `TodayTraffic` at the start of the local day and its day of the month.
  unfoldable pub today_traffic : Location → Instant → StoreAction F (Option F)
  unfolding query latest_where day_start local_days date_of_days
  today_traffic zone now = do
    let start = pos (day_start zone now)
    latest ← query (λ t. latest_where (λ s. s.timestamp) (λ at. leb_ℤ start at) t.traffic_samples)
    elim latest [
      | none ↦ pure none
      | some sample ↦
          if (date_of_days (local_days zone now)).day == 1
          then pure (some sample.traffic_gb)
          else do
            baseline ←
                query
                  (λ t. latest_where (λ s. s.timestamp) (λ at. ltb_ℤ at start) t.traffic_samples)
            pure (elim baseline [
              | none ↦ some sample.traffic_gb
              | some before ↦ some (ops.sub sample.traffic_gb before.traffic_gb)
            ])
    ]
