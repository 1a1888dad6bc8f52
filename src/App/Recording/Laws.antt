-- ===== src/App/Recording/Laws.antt =====
-- What `recordInstanceState` of internal/app/service.go writes and returns.
use cdtalive.Prelude.{◌≡◌, refl, ap, ◌∙◌, inl, inr, Bool, false, Bool-cases, Option, String, str_eq}
use cdtalive.Prelude.Hoare.{Post, Post-weaken, Triple, Triple->>=}
use cdtalive.Prelude.Actions.{pure}
use cdtalive.Prelude.Int.{ℤ}
use cdtalive.Prelude.Results.{Result, ok, err}
use cdtalive.Prelude.Text.{Text}
use cdtalive.Time.{Instant, unix}
use cdtalive.Store.Tables.{EcsState, Tables}
use cdtalive.Store.Db.{Db, StoreError, next_fails, query}
use cdtalive.Store.Statements.{of_row, ecs_state, record_ecs_state}
use cdtalive.Store.Transactions.{IsAtomic}
use cdtalive.Store.Commit.{with_state, new_events, record_ecs_state-IsAtomic}
use cdtalive.App.World.{Instance, Platform, World, WorldAction, on_store, on_cloud, map_error}
use cdtalive.App.Values.{store_failure, cloud_failure}
use cdtalive.App.Recording.{
  reported_status, is_one_of, settled_status, is_scheduled_event, is_unexpected_event, next_state,
  ip_of, record_state, record_found, record_at, record_instance_state,
}

pub settled_starting :
    (found : Option Instance)
    → is_one_of (settled_status "Starting" found) "Stopped" "Stopping" ≡ false
unfolding settled_status
settled_starting found =
    elim (Bool-cases (is_one_of (reported_status "Starting" found) "Stopped" "Stopping")) [
      | inl held ↦ rw held refl
      | inr free ↦ rw free free
    ]

pub settled_stopping :
    (found : Option Instance)
    → is_one_of (settled_status "Stopping" found) "Running" "Starting" ≡ false
unfolding settled_status
settled_stopping found =
    elim (Bool-cases (is_one_of (reported_status "Stopping" found) "Running" "Starting")) [
      | inl held ↦ rw held refl
      | inr free ↦ rw free free
    ]

pub settled_other :
    (fallback : String) (found : Option Instance)
    → str_eq fallback "Starting" ≡ false
    → str_eq fallback "Stopping" ≡ false
    → settled_status fallback found ≡ reported_status fallback found
unfolding settled_status
settled_other fallback found a b = rw (a, b) refl

module _ {F C : Type 0} (p : Platform F C) where
  -- The tables after a check.
  abbrev pub checked_tables : String → String → Option Instance → ℤ → Tables F → Tables F
  checked_tables fallback reason found now t =
      let state = of_row t.ecs_state in
      let status = settled_status fallback found in
      with_state (next_state p.parse_time now reason found status state)
        (new_events (is_scheduled_event state reason) (is_unexpected_event state reason status) now)
        t

  module _ (t : Tables F) where
    abbrev pub Has : World F C → Type 0
    Has w = w.db.tables ≡ t

    ecs_state_returns :
        Triple Has (on_store ecs_state) (λ s w. Has w × (s ≡ of_row t.ecs_state)) Has
    unfolding ecs_state query
    ecs_state_returns w h = elim (Bool-cases (next_fails w.db.faults)) [
      | inl fails ↦ rw (fails, Post) h
      | inr works ↦ rw (works, Post) (h, ap (λ x. of_row x.ecs_state) h)
    ]

    record_ecs_state_ends :
        (state : EcsState) (b c : Bool) (now : ℤ)
        → Triple Has
            (on_store (record_ecs_state state b c now))
            (λ _ w. w.db.tables ≡ with_state state (new_events b c now) t)
            Has
    record_ecs_state_ends state b c now w h =
        go (record_ecs_state state b c now w.db) (record_ecs_state-IsAtomic state b c now w.db)
      where
        go :
            (x : Result StoreError (Unit {0}) × Db F)
            → IsAtomic (with_state state (new_events b c now)) w.db.tables x
            → Post
                (λ _ w. w.db.tables ≡ with_state state (new_events b c now) t)
                Has
                (map_error store_failure x.0, record w { db = x.1 })
        go (r, db') (inl (failed, same)) = rw (failed, Post) (same ∙ h)
        go (r, db') (inr (done, same)) =
            rw (done, Post) (same ∙ ap (with_state state (new_events b c now)) h)

    record_state_ends :
        (fallback reason : String) (found : Option Instance) (now : ℤ)
        → Triple Has
            (record_state p fallback reason found now (of_row t.ecs_state))
            (λ checked w.
              (checked ≡ (settled_status fallback found, ip_of found))
              × (w.db.tables ≡ checked_tables fallback reason found now t))
            Has
    unfolding record_state
    record_state_ends fallback reason found now =
        let state = of_row t.ecs_state in
        let status = settled_status fallback found in
        let stored : WorldAction F C (Unit {0}) = on_store (
          record_ecs_state (next_state p.parse_time now reason found status state)
            (is_scheduled_event state reason) (is_unexpected_event state reason status) now) in
        let done : WorldAction F C (String × String) = pure (status, ip_of found) in
        Triple->>= Has (λ _ w. w.db.tables ≡ checked_tables fallback reason found now t)
          (λ checked w.
            (checked ≡ (status, ip_of found))
            × (w.db.tables ≡ checked_tables fallback reason found now t))
          Has stored (λ _. done)
          (record_ecs_state_ends (next_state p.parse_time now reason found status state)
            (is_scheduled_event state reason) (is_unexpected_event state reason status) now)
          λ _ w h. (refl, h)

    -- How a check ended that began with the cloud in a state and did not fail: what the cloud said of
    -- the instance once the clock was read, and the rest from it and from the time that was read.
    abbrev pub IsCheck : C → Text → String → String → String × String → World F C → Type 0
    IsCheck c id fallback reason checked w =
        (found : Option Instance) × ((p.cloud.instance_of id (p.cloud.now c).1).0 ≡ ok found)
        × (checked ≡ (settled_status fallback found, ip_of found))
        × (w.db.tables ≡ checked_tables fallback reason found (unix (p.cloud.now c).0) t)

    record_found_ends :
        (id : Text) (fallback reason : String) (found : Option Instance) (c : C)
        → (p.cloud.instance_of id (p.cloud.now c).1).0 ≡ ok found
        → Triple Has
            (record_found p fallback reason (p.cloud.now c).0 found)
            (IsCheck c id fallback reason)
            Has
    unfolding record_found
    record_found_ends id fallback reason found c said =
        let at : Instant = (p.cloud.now c).0 in
        Triple->>= Has (λ s w. Has w × (s ≡ of_row t.ecs_state)) (IsCheck c id fallback reason) Has
          (on_store ecs_state) (record_state p fallback reason found (unix at)) ecs_state_returns
          λ s w (h, same).
            Post-weaken
              (λ checked w.
                (checked ≡ (settled_status fallback found, ip_of found))
                × (w.db.tables ≡ checked_tables fallback reason found (unix at) t))
              (IsCheck c id fallback reason) Has Has
              (record_state p fallback reason found (unix at) s w)
              (λ checked w' (a, b). (found, said, a, b)) (λ w' k. k)
              (rw same (record_state_ends fallback reason found (unix at) w h))

    instance_of_returns :
        (id : Text) (c : C)
        → Triple
            (λ w. Has w × (w.cloud_state ≡ c))
            (on_cloud (p.cloud.instance_of id))
            (λ found w. Has w × ((p.cloud.instance_of id c).0 ≡ ok found))
            Has
    instance_of_returns id c w (h, same) = rw same (go (p.cloud.instance_of id c).0 refl)
      where
        go :
            (r : Result String (Option Instance))
            → (p.cloud.instance_of id c).0 ≡ r
            → Post
                (λ found w. Has w × ((p.cloud.instance_of id c).0 ≡ ok found))
                Has
                (map_error cloud_failure r, record w { cloud_state = (p.cloud.instance_of id c).1 })
        go (ok found) e = (h, e)
        go (err x) e = h

    record_instance_state_ends :
        (id : Text) (fallback reason : String) (w : World F C)
        → Has w
        → Post
            (IsCheck w.cloud_state id fallback reason)
            Has
            (record_instance_state p id fallback reason w)
    unfolding record_instance_state record_at
    record_instance_state_ends id fallback reason w h =
        let c : C = w.cloud_state in
        let behind : C = (p.cloud.now c).1 in
        Triple->>= (λ v. Has v × (v.cloud_state ≡ behind))
          (λ found v. Has v × ((p.cloud.instance_of id behind).0 ≡ ok found))
          (IsCheck c id fallback reason) Has (on_cloud (p.cloud.instance_of id))
          (record_found p fallback reason (p.cloud.now c).0) (instance_of_returns id behind)
          (λ found v (k, said). record_found_ends id fallback reason found c said v k)
          (record w { cloud_state = behind }) (h, refl)

  -- A check that fails has changed no table. One that succeeds has stored the state and the events
  -- that follow from the state before, from what the cloud said of the instance and from the time
  -- that it read at its beginning, and it returns the settled status with the instance's address.
  pub record_instance_state_result :
      (id : Text) (fallback reason : String) (w : World F C)
      → Post
          (IsCheck w.db.tables w.cloud_state id fallback reason)
          (λ v. v.db.tables ≡ w.db.tables)
          (record_instance_state p id fallback reason w)
  record_instance_state_result id fallback reason w =
      record_instance_state_ends w.db.tables id fallback reason w refl
