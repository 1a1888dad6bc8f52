-- ===== src/Store/Db.antt =====
-- The database under internal/store/store.go. Every statement may fail, and then changes nothing:
-- the outcomes to come are listed in the state, and a statement that finds none listed succeeds.
use cdtalive.Prelude.{List, [], ◌∷◌, Bool, false, if◌then◌else◌}
use cdtalive.Prelude.Actions.{Action, ◌>>◌}
use cdtalive.Prelude.Results.{ok, err}
use cdtalive.Store.Tables.{Tables}

pub data StoreError : Type 0 where
  sql_error : StoreError
  json_error : StoreError

pub record Db (F : Type 0) : Type 0 where
  pub tables : Tables F
  -- the statements to come that fail
  pub faults : List Bool

abbrev pub StoreAction : Type 0 → Type 0 → Type 0
StoreAction F A = Action (Db F) StoreError A

-- The next outcome, and the state behind it.
abbrev pub next_fails : List Bool → Bool
next_fails [] = false
next_fails (b ∷ _) = b

abbrev pub later_faults : List Bool → List Bool
later_faults [] = []
later_faults (_ ∷ rest) = rest

module _ {F : Type 0} where
  -- `s.db.Exec` of a statement.
  unfoldable pub exec : (Tables F → Tables F) → StoreAction F (Unit {0})
  exec change db =
      let after = record db { faults = later_faults db.faults } in
      if next_fails db.faults
      then (err sql_error, after)
      else (ok tt, record after { tables = change db.tables })

  -- `s.db.QueryRow` or `s.db.Query`, read to its end.
  unfoldable pub query : {A : Type 0} → (Tables F → A) → StoreAction F A
  query read db =
      let after = record db { faults = later_faults db.faults } in
      (if next_fails db.faults then err sql_error else ok (read db.tables), after)

  -- `s.db.Begin`, the statements, `tx.Commit`, and `tx.Rollback` on every other way out.
  unfoldable pub transaction : StoreAction F (Unit {0}) → StoreAction F (Unit {0})
  unfolding exec
  transaction statements db =
      let (r, db') = (do exec (λ t. t); statements; exec (λ t. t)) db in
      elim r [ ok _ ↦ (ok tt, db') | err e ↦ (err e, record db' { tables = db.tables }) ]
