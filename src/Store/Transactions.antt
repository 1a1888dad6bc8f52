-- ===== src/Store/Transactions.antt =====
-- Statements and transactions of internal/store/store.go.
use cdtalive.Prelude.{
  ◌≡◌, refl, ◌⊎◌, inl, inr, ◌∙◌, ap, Bool, true, false, if◌then◌else◌, Bool-cases,
}
use cdtalive.Prelude.Actions.{◌>>◌}
use cdtalive.Prelude.Results.{Result, ok, err}
use cdtalive.Store.Tables.{Tables}
use cdtalive.Store.Db.{Db, StoreAction, StoreError, sql_error, next_fails, exec, transaction}
use cdtalive.Store.Statements.{exec_if}

module _ {F : Type 0} where
  -- How an action that began with the tables `t` ended: it failed, or changed them as stated.
  abbrev pub Ends : (Tables F → Tables F) → Tables F → Result StoreError (Unit {0}) × Db F → Type 0
  Ends change t (err e, db') = e ≡ sql_error
  Ends change t (ok _, db') = db'.tables ≡ change t

  abbrev pub Runs : StoreAction F (Unit {0}) → (Tables F → Tables F) → Type 0
  Runs m change = (db : Db F) → Ends change db.tables (m db)

  pub exec-Runs : (change : Tables F → Tables F) → Runs (exec change) change
  unfolding exec
  exec-Runs change db = elim (Bool-cases (next_fails db.faults)) [
    | inl fails ↦ rw (fails, Ends) refl
    | inr works ↦ rw (works, Ends) refl
  ]

  abbrev pub change_if : Bool → (Tables F → Tables F) → Tables F → Tables F
  change_if b change t = if b then change t else t

  pub exec_if-Runs :
      (b : Bool) (change : Tables F → Tables F) → Runs (exec_if b change) (change_if b change)
  exec_if-Runs true change db = exec-Runs change db
  exec_if-Runs false change db = refl

  pub >>-Runs :
      (m k : StoreAction F (Unit {0})) (f g : Tables F → Tables F)
      → Runs m f
      → Runs k g
      → Runs (m >> k) (λ t. g (f t))
  >>-Runs m k f g hm hk db = go (m db) (hm db)
    where
      go :
          (x : Result StoreError (Unit {0}) × Db F)
          → Ends f db.tables x
          → Ends (λ t. g (f t)) db.tables (elim x.0 [ ok a ↦ k x.1 | err e ↦ (err e, x.1) ])
      go (err e, db') h = h
      go (ok _, db') h = then_ends (k db') (hk db')
        where
          then_ends :
              (y : Result StoreError (Unit {0}) × Db F)
              → Ends g db'.tables y
              → Ends (λ t. g (f t)) db.tables y
          then_ends (err e, db'') h' = h'
          then_ends (ok _, db'') h' = h' ∙ ap g h

  -- Failed with all tables as they were, or done with the tables changed as stated.
  abbrev pub IsAtomic :
      (Tables F → Tables F) → Tables F → Result StoreError (Unit {0}) × Db F → Type 0
  IsAtomic change t (r, db') =
      ((r ≡ err sql_error) × (db'.tables ≡ t)) ⊎ ((r ≡ ok tt) × (db'.tables ≡ change t))

  -- All of a transaction's statements, or none.
  pub transaction-IsAtomic :
      (m : StoreAction F (Unit {0})) (f : Tables F → Tables F)
      → Runs m f
      → (db : Db F) → IsAtomic f db.tables (transaction m db)
  unfolding transaction
  transaction-IsAtomic m f h db = go ((exec (λ t. t) >> (m >> exec (λ t. t))) db) (
      >>-Runs (exec (λ t. t)) (m >> exec (λ t. t)) (λ t. t) f (exec-Runs (λ t. t))
        (>>-Runs m (exec (λ t. t)) f (λ t. t) h (exec-Runs (λ t. t))) db)
    where
      go :
          (x : Result StoreError (Unit {0}) × Db F)
          → Ends f db.tables x
          → IsAtomic f db.tables (elim x.0 [
            | ok _ ↦ (ok tt, x.1)
            | err e ↦ (err e, record (x.1) { tables = db.tables })
          ])
      go (err e, db') same = inl (ap err same, refl)
      go (ok _, db') same = inr (refl, same)
