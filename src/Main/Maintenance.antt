-- ===== src/Main/Maintenance.antt =====
-- What `prune` of cmd/cdtalive/main.go leaves of what the dashboard shows.
use cdtalive.Prelude.{◌≡◌, refl, ◌∙◌, ◌*◌, inl, inr, List, [], ◌∷◌, true, Bool-cases, arith}
use cdtalive.Prelude.Actions.{◌>>◌}
use cdtalive.Prelude.Floats.{FloatOps}
use cdtalive.Prelude.Hoare.{Keeps, Keeps->>=}
use cdtalive.Prelude.Int.{ℤ, pos, ◌≤ℤ◌, ◌-ℤ◌}
use cdtalive.Time.{unix, previous_month_start}
use cdtalive.Store.Db.{Db, exec, next_fails}
use cdtalive.Store.Retention.{count_events-delete_before}
use cdtalive.Store.Statements.{prune, count_events}
use cdtalive.Store.Tables.{Tables, BalanceSample, StopKind, delete_before}
use cdtalive.App.Views.{spent_since}
use cdtalive.App.Dashboard.Spending.{has_between, chronological, kept_from, spent_since-prune}
use cdtalive.App.World.{Platform, World}
use cdtalive.Main.{prune_now}

module _ {F : Type 0} where
  -- Pruning leaves a sample between the cutoff and a later moment, where there is one.
  has_between-delete_before :
      (cutoff since : ℤ) (rows : List (BalanceSample F))
      → has_between cutoff since (kept_from cutoff rows) ≡ has_between cutoff since rows
  unfolding delete_before
  has_between-delete_before cutoff since [] = refl
  has_between-delete_before cutoff since (s ∷ rows) =
      ground (arith, has_between-delete_before cutoff since rows)

  exec-Keeps :
      (P : Tables F → Type 0) (change : Tables F → Tables F)
      → ((t : Tables F) → P t → P (change t))
      → Keeps (λ db. P db.tables) (exec change)
  unfolding exec
  exec-Keeps P change h db k = elim (Bool-cases (next_fails db.faults)) [
    | inl fails ↦ rw fails k
    | inr works ↦ rw works (h db.tables k)
  ]

module _ {F : Type 0} ⦃ops : FloatOps F⦄ (balance_cutoff event_cutoff : ℤ) (kind : StopKind)
    (from since : ℤ) (t : Tables F) (recent : event_cutoff ≤ℤ from)
    (later : balance_cutoff ≤ℤ since) where
  -- The count of stops and the spending are as in the tables before, and a sample is kept from before.
  abbrev AsBefore : Tables F → Type 0
  AsBefore u =
      (count_events kind from u.stop_events ≡ count_events kind from t.stop_events)
      × (spent_since (chronological u.balance_samples) since
          ≡ spent_since (chronological t.balance_samples) since)
      × (has_between balance_cutoff since u.balance_samples ≡ true)

  prune-Keeps : Keeps (λ (db : Db F). AsBefore db.tables) (prune balance_cutoff event_cutoff)
  unfolding prune
  prune-Keeps =
      let balances : Tables F → Tables F = λ t. record t {
        balance_samples = delete_before (λ s. s.timestamp) balance_cutoff t.balance_samples;
      } in
      let traffic : Tables F → Tables F = λ t. record t {
        traffic_samples = delete_before (λ s. s.timestamp) balance_cutoff t.traffic_samples;
      } in
      let events : Tables F → Tables F = λ t. record t {
        stop_events = delete_before (λ e. e.timestamp) event_cutoff t.stop_events;
      } in
      let Here : Db F → Type 0 = λ db. AsBefore db.tables in
      Keeps->>= Here (exec balances) (λ _. exec traffic >> exec events)
        (exec-Keeps AsBefore balances (λ u (counts, spent, between). (
          counts,
          spent_since-prune balance_cutoff since u.balance_samples later between ∙ spent,
          has_between-delete_before balance_cutoff since u.balance_samples ∙ between,
        )))
        λ _.
          Keeps->>= Here (exec traffic) (λ _. exec events) (exec-Keeps AsBefore traffic (λ u h. h))
            λ _. exec-Keeps AsBefore events (λ u (counts, spent, between). (
              count_events-delete_before kind event_cutoff from u.stop_events recent ∙ counts,
              spent,
              between,
            ))

module _ {F C : Type 0} ⦃ops : FloatOps F⦄ (p : Platform F C) where
  -- The daily maintenance, also one that fails on its way, changes neither a count of stops from a
  -- moment on that is at most 30 days before it, nor the spending since a moment that is not before
  -- the first day of the month before, where a balance sample lies between that day and the moment.
  pub prune_now_keeps :
      (w : World F C) (kind : StopKind) (from since : ℤ)
      → (unix (p.cloud.now w.cloud_state).0 -ℤ pos (30 * 86400)) ≤ℤ from
      → pos (previous_month_start p.location (p.cloud.now w.cloud_state).0) ≤ℤ since
      → has_between
          (pos (previous_month_start p.location (p.cloud.now w.cloud_state).0))
          since
          w.db.tables.balance_samples
        ≡ true
      → (count_events kind from (prune_now p w).1.db.tables.stop_events
          ≡ count_events kind from w.db.tables.stop_events)
        × (spent_since (chronological (prune_now p w).1.db.tables.balance_samples) since
            ≡ spent_since (chronological w.db.tables.balance_samples) since)
  unfolding prune_now
  prune_now_keeps w kind from since recent later between =
      let now = (p.cloud.now w.cloud_state).0 in
      let (counts, spent, _) =
        prune-Keeps (pos (previous_month_start p.location now)) (unix now -ℤ pos (30 * 86400)) kind
          from since w.db.tables recent later w.db (refl, refl, between) in
      (counts, spent)
