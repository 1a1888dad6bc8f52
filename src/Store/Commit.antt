-- ===== src/Store/Commit.antt =====
-- The transaction of `RecordECSState` in internal/store/store.go.
use cdtalive.Prelude.{
  ◌≡◌, refl, inl, inr, List, [], ◌∷◌, ◌++◌, Bool, true, false, some, arith, if◌then◌else◌,
  append-nil, append_assoc, ◌∙◌,
}
use cdtalive.Prelude.Int.{ℤ}
use cdtalive.Store.Tables.{EcsState, scheduled, unexpected, StopEvent, Tables}
use cdtalive.Store.Db.{Db, exec}
use cdtalive.Store.Transactions.{
  Runs, IsAtomic, change_if, exec-Runs, exec_if-Runs, >>-Runs, transaction-IsAtomic,
}
use cdtalive.Prelude.Actions.{◌>>◌}
use cdtalive.Store.Statements.{exec_if, add_event, of_row, to_row, record_ecs_state}

-- The events that a call records.
abbrev pub new_events : Bool → Bool → ℤ → List StopEvent
new_events scheduled_event unexpected_event now =
    (if scheduled_event then record { kind = scheduled; timestamp = now } ∷ [] else [])
    ++ (if unexpected_event then record { kind = unexpected; timestamp = now } ∷ [] else [])

module _ {F : Type 0} where
  abbrev pub with_state : EcsState → List StopEvent → Tables F → Tables F
  with_state state events t = record t {
    ecs_state = some (to_row state);
    stop_events = t.stop_events ++ events;
  }

  abbrev changes : EcsState → Bool → Bool → ℤ → Tables F → Tables F
  changes state scheduled_event unexpected_event now t =
      change_if unexpected_event (add_event unexpected now) (
        change_if scheduled_event (add_event scheduled now)
          (record t { ecs_state = some (to_row state) }))

  changes-Runs :
      (state : EcsState) (scheduled_event unexpected_event : Bool) (now : ℤ)
      → Runs
          (exec (λ t. record t { ecs_state = some (to_row state) })
            >> (exec_if scheduled_event (add_event scheduled now)
                >> exec_if unexpected_event (add_event unexpected now)))
          (changes state scheduled_event unexpected_event now)
  changes-Runs state b c now =
      let first = exec_if b (add_event scheduled now) in
      let second = exec_if c (add_event unexpected now) in
      let change₁ = change_if b (add_event scheduled now) in
      let change₂ = change_if c (add_event unexpected now) in
      let set_row : Tables F → Tables F = λ t. record t { ecs_state = some (to_row state) } in
      >>-Runs (exec set_row) (first >> second) set_row (λ t. change₂ (change₁ t))
        (exec-Runs set_row)
        (>>-Runs first second change₁ change₂ (exec_if-Runs b (add_event scheduled now))
          (exec_if-Runs c (add_event unexpected now)))

  changes_lem :
      (state : EcsState) (scheduled_event unexpected_event : Bool) (now : ℤ) (t : Tables F)
      → changes state scheduled_event unexpected_event now t
        ≡ with_state state (new_events scheduled_event unexpected_event now) t
  changes_lem state true true now t = rw append_assoc
  changes_lem state true false now t = refl
  changes_lem state false true now t = refl
  changes_lem state false false now t = rw append-nil

  -- Either the call fails and no table has changed, or it succeeds and the state's row is the one
  -- that was given, with exactly the events of the call added.
  pub record_ecs_state-IsAtomic :
      (state : EcsState) (scheduled_event unexpected_event : Bool) (now : ℤ) (db : Db F)
      → IsAtomic
          (with_state state (new_events scheduled_event unexpected_event now))
          db.tables
          (record_ecs_state state scheduled_event unexpected_event now db)
  unfolding record_ecs_state
  record_ecs_state-IsAtomic state b c now db =
      elim (transaction-IsAtomic _ (changes state b c now) (changes-Runs state b c now) db) [
        | inl failed ↦ inl failed
        | inr (e, same) ↦ inr (e, same ∙ changes_lem state b c now db.tables)
      ]

-- A state survives the integer flag of its row.
pub of_row-to_row : (state : EcsState) → of_row (some (to_row state)) ≡ state
of_row-to_row state = ground arith
