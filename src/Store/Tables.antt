-- ===== src/Store/Tables.antt =====
-- The tables of `initializeSchema` in internal/store/store.go, and the statements on them. A table
-- with an `AUTOINCREMENT` key is the list of its rows in the order of the keys; a table whose key is
-- checked to be 1, or that is read at one key only, is its row, if there is one.
use cdtalive.Prelude.{
  ℕ, List, [], ◌∷◌, Bool, true, false, if◌then◌else◌, Option, none, some, String,
}
use cdtalive.Prelude.Int.{ℤ, ltb_ℤ, leb_ℤ}
use cdtalive.Prelude.Text.{Text}

pub record BalanceSample (F : Type 0) : Type 0 where
  pub timestamp : ℤ
  pub available_amount : F

pub record TrafficSample (F : Type 0) : Type 0 where
  pub timestamp : ℤ
  pub traffic_gb : F

pub record Metrics (F : Type 0) : Type 0 where
  pub traffic_gb : F
  pub traffic_threshold : F
  pub daily_remaining_gb : F

pub record EcsState : Type 0 where
  pub last_status : String
  pub last_startup_timestamp : ℤ
  pub scheduled_stop_active : Bool
  pub last_scheduled_stop_timestamp : ℤ
  pub last_unexpected_timestamp : ℤ

-- The row of `ecs_state`, where the flag is an integer.
pub record EcsRow : Type 0 where
  pub last_status : String
  pub last_startup_timestamp : ℤ
  pub scheduled_stop_active : ℕ
  pub last_scheduled_stop_timestamp : ℤ
  pub last_unexpected_stop_timestamp : ℤ

pub data StopKind : Type 0 where
  scheduled unexpected : StopKind

pub record StopEvent : Type 0 where
  pub kind : StopKind
  pub timestamp : ℤ

pub record Tables (F : Type 0) : Type 0 where
  -- the value at the key `last_result` of `runtime_state`
  pub last_result : Option Text
  pub latest_metrics : Option (Metrics F)
  pub balance_samples : List (BalanceSample F)
  pub traffic_samples : List (TrafficSample F)
  pub ecs_state : Option EcsRow
  pub stop_events : List StopEvent

-- `DELETE FROM t WHERE timestamp < cutoff`
module _ {A : Type 0} (timestamp : A → ℤ) where
  unfoldable pub delete_before : ℤ → List A → List A
  delete_before cutoff [] = []
  delete_before cutoff (row ∷ rows) =
      let rest = delete_before cutoff rows in
      if ltb_ℤ (timestamp row) cutoff then rest else row ∷ rest

  -- `ORDER BY timestamp DESC, id DESC LIMIT 1`, over the rows that pass a test.
  unfoldable pub latest_where : (ℤ → Bool) → List A → Option A
  latest_where test [] = none
  latest_where test (row ∷ rows) =
      let rest = latest_where test rows in
      if test (timestamp row)
      then elim rest [
        | none ↦ some row
        | some later ↦ if leb_ℤ (timestamp row) (timestamp later) then some later else some row
      ]
      else rest

abbrev pub kind_eq : StopKind → StopKind → Bool
kind_eq scheduled scheduled = true
kind_eq unexpected unexpected = true
kind_eq _ _ = false
