-- ===== src/App/Policy/Laws.antt =====
-- The power requests of each case of the `switch` in internal/app/service.go.
use cdtalive.Prelude.{
  ◌≡◌, refl, List, [], ◌∷◌, Bool, true, false, String, Option, none, some, if◌then◌else◌,
}
use cdtalive.Prelude.Actions.{pure, ◌>>=◌, ◌>>◌}
use cdtalive.Prelude.Hoare.{Keeps, Keeps->>=}
use cdtalive.Prelude.Text.{Text}
use cdtalive.App.Values.{set_action, actions}
use cdtalive.App.World.{
  Instance, Platform, World, WorldAction, Request, start_request, stop_request, log_request,
  on_cloud,
}
use cdtalive.Prelude.Results.{Result}
use cdtalive.App.Frames.{IsStable, Keeps-cloud, Keeps-request, Issued, Issued-IsStable}
use cdtalive.App.Instances.{
  ask_start, ask_stop, start_instance, stop_instance, stop_each, has_status,
}
use cdtalive.App.Policy.{
  Case, over_threshold, forced_on, forced_off, low_balance, in_window, outside, act, stop_all,
  start_for, stop_for, start_outcome, stop_outcome, Outcome,
}

abbrev pub IsStop : Request → Type 0
IsStop (start_request id) = ⊥
IsStop (stop_request id) = Unit

-- What a case may ask for: a start or a stop of the configured instance, or stops of any.
abbrev pub Allows : Text → Case → Request → Type 0
Allows id over_threshold q = IsStop q
Allows id forced_on q = q ≡ start_request id
Allows id forced_off q = q ≡ stop_request id
Allows id low_balance q = IsStop q
Allows id in_window q = q ≡ start_request id
Allows id outside q = q ≡ stop_request id

module _ {F C : Type 0} (p : Platform F C) (Test : Request → Type 0) (Inv : World F C → Type 0)
    (stable : IsStable Test Inv) where
  cloud-Keeps : {A : Type 0} (m : C → Result String A × C) → Keeps Inv (on_cloud {F = F} m)
  cloud-Keeps = Keeps-cloud Test Inv stable

  ask_start-Keeps : (id : Text) → Test (start_request id) → Keeps Inv (ask_start p id)
  unfolding ask_start
  ask_start-Keeps id t =
      let asked : WorldAction F C String = pure "start_requested" in
      Keeps->>= Inv (log_request (start_request id)) (λ _. on_cloud (p.cloud.start id) >> asked)
        (Keeps-request Test Inv stable (start_request id) t)
        λ _.
          Keeps->>= Inv (on_cloud (p.cloud.start id)) (λ _. asked) (cloud-Keeps (p.cloud.start id))
            λ _ w h. h

  ask_stop-Keeps : (id : Text) → Test (stop_request id) → Keeps Inv (ask_stop p id)
  unfolding ask_stop
  ask_stop-Keeps id t =
      let asked : WorldAction F C String = pure "stop_requested" in
      Keeps->>= Inv (log_request (stop_request id)) (λ _. on_cloud (p.cloud.stop id) >> asked)
        (Keeps-request Test Inv stable (stop_request id) t)
        λ _.
          Keeps->>= Inv (on_cloud (p.cloud.stop id)) (λ _. asked) (cloud-Keeps (p.cloud.stop id))
            λ _ w h. h

  if_Keeps :
      (b : Bool) (x : String) (m : WorldAction F C String)
      → Keeps Inv m
      → Keeps Inv (if b then pure x else m)
  if_Keeps true x m h w k = k
  if_Keeps false x m h w k = h w k

  start_instance-Keeps : (id : Text) → Test (start_request id) → Keeps Inv (start_instance p id)
  unfolding start_instance
  start_instance-Keeps id t =
      let already : WorldAction F C String = pure "already_running" in
      Keeps->>= Inv (on_cloud (p.cloud.instance_of id))
        (λ found. if has_status "Running" found then already else ask_start p id)
        (cloud-Keeps (p.cloud.instance_of id))
        λ found.
          if_Keeps (has_status "Running" found) "already_running" (ask_start p id)
            (ask_start-Keeps id t)

  stop_instance-Keeps : (id : Text) → Test (stop_request id) → Keeps Inv (stop_instance p id)
  unfolding stop_instance
  stop_instance-Keeps id t =
      let already : WorldAction F C String = pure "already_stopped" in
      Keeps->>= Inv (on_cloud (p.cloud.instance_of id))
        (λ found. if has_status "Stopped" found then already else ask_stop p id)
        (cloud-Keeps (p.cloud.instance_of id))
        λ found.
          if_Keeps (has_status "Stopped" found) "already_stopped" (ask_stop p id)
            (ask_stop-Keeps id t)

  stop_each-Keeps :
      ((id : Text) → Test (stop_request id))
      → (is : List Instance) (done : List (Text × String)) → Keeps Inv (stop_each p is done)
  unfolding stop_each
  stop_each-Keeps t [] done = λ w h. h
  stop_each-Keeps t (i ∷ is) done =
      Keeps->>= Inv (stop_instance p i.id) (λ action. stop_each p is (set_action i.id action done))
        (stop_instance-Keeps i.id (t i.id))
        λ action. stop_each-Keeps t is (set_action i.id action done)

  stop_all-Keeps :
      ((id : Text) → Test (stop_request id))
      → (reason : String) (status : Option String) → Keeps Inv (stop_all p reason status)
  unfolding stop_all
  stop_all-Keeps t reason status =
      let outcome : List (Text × String) → WorldAction F C (Outcome F) =
        λ done. pure (record { action = actions done; reason = reason; ecs_status = status }) in
      Keeps->>= Inv (on_cloud p.cloud.instances) (λ is. stop_each p is [] >>= outcome)
        (cloud-Keeps p.cloud.instances)
        λ is. Keeps->>= Inv (stop_each p is []) outcome (stop_each-Keeps t is []) λ done w h. h

  start_for-Keeps :
      (reason : String) (id : Text) → Test (start_request id) → Keeps Inv (start_for p reason id)
  unfolding start_for
  start_for-Keeps reason id t =
      Keeps->>= Inv (start_instance p id) (start_outcome reason) (start_instance-Keeps id t)
        λ action w h. h

  stop_for-Keeps :
      (reason : String) (id : Text) → Test (stop_request id) → Keeps Inv (stop_for p reason id)
  unfolding stop_for
  stop_for-Keeps reason id t =
      Keeps->>= Inv (stop_instance p id) (stop_outcome reason) (stop_instance-Keeps id t)
        λ action w h. h

module _ {F C : Type 0} (p : Platform F C) (id : Text) where
  -- Every request of a case is one that the case allows, also where the case ends in an error.
  pub act-Keeps :
      (Test : Request → Type 0) (Inv : World F C → Type 0)
      → IsStable Test Inv
      → (c : Case) → ((q : Request) → Allows id c q → Test q)
      → Keeps Inv (act p id c)
  unfolding act
  act-Keeps Test Inv stable over_threshold t =
      stop_all-Keeps p Test Inv stable (λ j. t (stop_request j) tt) "traffic_threshold_reached"
        (some "Stopping")
  act-Keeps Test Inv stable forced_on t =
      start_for-Keeps p Test Inv stable "forced_on" id (t (start_request id) refl)
  act-Keeps Test Inv stable forced_off t =
      stop_for-Keeps p Test Inv stable "forced_off" id (t (stop_request id) refl)
  act-Keeps Test Inv stable low_balance t =
      stop_all-Keeps p Test Inv stable (λ j. t (stop_request j) tt) "low_balance" none
  act-Keeps Test Inv stable in_window t =
      start_for-Keeps p Test Inv stable "scheduled_start_window" id (t (start_request id) refl)
  act-Keeps Test Inv stable outside t =
      stop_for-Keeps p Test Inv stable "outside_start_schedule" id (t (stop_request id) refl)

  pub act-Issued :
      (c : Case) (before : List Request) → Keeps (Issued (Allows id c) before) (act p id c)
  act-Issued c before =
      act-Keeps (Allows id c) (Issued (Allows id c) before) (Issued-IsStable (Allows id c) before) c
        (λ q ok'. ok')
