-- ===== src/Store/Retention.antt =====
-- `Prune` of internal/store/store.go, and the counts.
use cdtalive.Prelude.{◌≡◌, refl, List, [], ◌∷◌, arith, All}
use cdtalive.Prelude.Int.{ℤ, ◌≤ℤ◌}
use cdtalive.Store.Tables.{StopKind, StopEvent, delete_before}
use cdtalive.Store.Statements.{count_events}

-- Pruning the events before one moment changes no count from a later one on.
pub count_events-delete_before :
    (kind : StopKind) (cutoff from : ℤ) (es : List StopEvent)
    → cutoff ≤ℤ from
    → count_events kind from (delete_before (λ e. e.timestamp) cutoff es)
      ≡ count_events kind from es
unfolding delete_before
count_events-delete_before kind cutoff from [] h = refl
count_events-delete_before kind cutoff from (e ∷ es) h =
    ground (arith, count_events-delete_before kind cutoff from es h)

module _ {A : Type 0} (timestamp : A → ℤ) where
  -- No kept row is older than the cutoff.
  pub delete_before-All :
      (cutoff : ℤ) (rows : List A)
      → All (λ r. cutoff ≤ℤ timestamp r) (delete_before timestamp cutoff rows)
  unfolding delete_before
  delete_before-All cutoff [] = tt
  delete_before-All cutoff (r ∷ rows) = ground (arith, delete_before-All cutoff rows)
