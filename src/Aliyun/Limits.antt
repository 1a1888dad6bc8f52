-- ===== src/Aliyun/Limits.antt =====
-- How many instances internal/aliyun/client.go gives, and how many stops internal/app/service.go asks
-- for in a case that stops all of them.
use cdtalive.Prelude.{
  ℕ, suc, ◌+◌, ◌≤◌, ◌≡◌, refl, sym, ap, ◌∙◌, List, [], ◌∷◌, ◌++◌, map, length, length-append,
  append_assoc, append-nil, Bool, true, false, Option, none, some, String, arith, if◌then◌else◌,
}
use cdtalive.Prelude.Actions.{pure, ◌>>=◌, ◌>>◌}
use cdtalive.Prelude.Floats.{FloatOps}
use cdtalive.Prelude.Hoare.{Keeps, Keeps->>=, Leads, Leads->>=, Leads-then}
use cdtalive.Prelude.Results.{Result, ok, err}
use cdtalive.Prelude.Text.{Text}
use cdtalive.Time.{Instant}
use cdtalive.App.Instances.{ask_stop, stop_instance, stop_each, has_status}
use cdtalive.App.Policy.{Outcome, stop_all}
use cdtalive.App.Values.{Failure, cloud_failure, actions, set_action}
use cdtalive.App.World.{
  Instance, Platform, World, WorldAction, Request, stop_request, log_request, on_cloud, map_error,
}
use cdtalive.Aliyun.{
  Sdk, Decoder, Client, Connection, SdkInstance, DescribeRequest, page_size, page_request,
  instance_from_sdk, instances, with_client, client_cloud,
}

length-map : {A B : Type 0} (f : A → B) (xs : List A) → length (map f xs) ≡ length xs
length-map f [] = refl
length-map f (x ∷ xs) = ap (λ n. suc n) (length-map f xs)

module _ {H C : Type 0} (sdk : Sdk H C) where
  -- No page has more items than were asked for.
  abbrev pub IsPaged : Type 0
  IsPaged =
      (h : H) (request : DescribeRequest) (n : ℕ) (c : C) (items : List SdkInstance)
      → request.page_size ≡ some n
      → (sdk.describe_instances h request c).0 ≡ ok items
      → length items ≤ n

  instances_bound :
      IsPaged
      → (client : Client H) (c : C) (is : List Instance) → (instances sdk client c).0 ≡ ok is
      → length is ≤ page_size
  unfolding instances
  instances_bound paged client c is =
      go (sdk.describe_instances client.ecs page_request c).0
        (paged client.ecs page_request page_size c)
    where
      after : Result String (List SdkInstance) → Result String (List Instance) × C
      after r = elim r [
        | ok items ↦
            (ok (map instance_from_sdk items), (sdk.describe_instances client.ecs page_request c).1)
        | err e ↦ (err e, (sdk.describe_instances client.ecs page_request c).1)
      ]

      go :
          (r : Result String (List SdkInstance))
          → ((items : List SdkInstance)
              → some page_size ≡ some page_size
              → r ≡ ok items
              → length items ≤ page_size)
          → (after r).0 ≡ ok is
          → length is ≤ page_size
      go (ok items) bound e =
          let same : is ≡ map instance_from_sdk items = cc in
          omega (
            arith,
            bound items refl refl,
            ap (λ xs. length xs) same,
            length-map instance_from_sdk items,
          )
      go (err x) bound e = cc

module _ {F C : Type 0} (p : Platform F C) (before : List Request) where
  -- At most so many requests behind a list.
  abbrev pub AtMost : ℕ → World F C → Type 0
  AtMost n w = (new : List Request) × (w.requests ≡ before ++ new) × (length new ≤ n)

  weaker : (m n : ℕ) (w : World F C) → m ≤ n → AtMost m w → AtMost n w
  weaker m n w le (new, same, few) = (new, same, omega arith)

  log_request_leads : (n : ℕ) (q : Request) → Leads (AtMost n) (log_request q) (AtMost (n + 1))
  log_request_leads n q w (new, same, few) = (
    new ++ q ∷ [],
    ap (λ rs. rs ++ q ∷ []) same ∙ append_assoc before new (q ∷ []),
    omega (arith, length-append new (q ∷ [])),
  )

  on_cloud-Keeps :
      {A : Type 0} (n : ℕ) (m : C → Result String A × C) → Keeps (AtMost n) (on_cloud {F = F} m)
  on_cloud-Keeps n m w h = h

  ask_stop_leads : (n : ℕ) (id : Text) → Leads (AtMost n) (ask_stop p id) (AtMost (n + 1))
  unfolding ask_stop
  ask_stop_leads n id =
      let asked : WorldAction F C String = pure "stop_requested" in
      Leads->>= (AtMost n) (AtMost (n + 1)) (log_request (stop_request id))
        (λ _. on_cloud (p.cloud.stop id) >> asked) (log_request_leads n (stop_request id))
        λ _.
          Keeps->>= (AtMost (n + 1)) (on_cloud (p.cloud.stop id)) (λ _. asked)
            (on_cloud-Keeps (n + 1) (p.cloud.stop id)) λ _ w h. h

  stop_instance_leads : (n : ℕ) (id : Text) → Leads (AtMost n) (stop_instance p id) (AtMost (n + 1))
  unfolding stop_instance
  stop_instance_leads n id =
      Leads-then (AtMost n) (AtMost n) (AtMost (n + 1)) (on_cloud (p.cloud.instance_of id))
        (λ found. if has_status "Stopped" found then pure "already_stopped" else ask_stop p id)
        (λ w h. weaker n (n + 1) w (omega arith) h) (on_cloud-Keeps n (p.cloud.instance_of id))
        λ found. choice (has_status "Stopped" found)
    where
      choice :
          (b : Bool)
          → Leads (AtMost n) (if b then pure "already_stopped" else ask_stop p id) (AtMost (n + 1))
      choice true = λ w h. weaker n (n + 1) w (omega arith) h
      choice false = ask_stop_leads n id

  stop_each_leads :
      (n : ℕ) (is : List Instance) (done : List (Text × String))
      → Leads (AtMost n) (stop_each p is done) (AtMost (n + length is))
  unfolding stop_each
  stop_each_leads n [] done = λ w h. weaker n (n + 0) w (omega arith) h
  stop_each_leads n (i ∷ is) done =
      Leads-then (AtMost n) (AtMost (n + 1)) (AtMost (n + length (i ∷ is))) (stop_instance p i.id)
        (λ action. stop_each p is (set_action i.id action done))
        (λ w h. weaker (n + 1) (n + length (i ∷ is)) w (omega arith) h) (stop_instance_leads n i.id)
        λ action w h.
          weaker (n + 1 + length is) (n + length (i ∷ is))
            (stop_each p is (set_action i.id action done) w).1 (omega arith)
            (stop_each_leads (n + 1) is (set_action i.id action done) w h)

  stop_all_leads :
      (n : ℕ)
      → ((c : C) (is : List Instance) → (p.cloud.instances c).0 ≡ ok is → length is ≤ n)
      → (reason : String) (status : Option String)
      → Leads (AtMost 0) (stop_all p reason status) (AtMost n)
  unfolding stop_all
  stop_all_leads n bound reason status w h =
      go (p.cloud.instances w.cloud_state).0 (bound w.cloud_state)
    where
      finish : List (Text × String) → WorldAction F C (Outcome F)
      finish done = pure (record { action = actions done; reason = reason; ecs_status = status })

      left : World F C
      left = record w { cloud_state = (p.cloud.instances w.cloud_state).1 }

      after : Result Failure (List Instance) → Result Failure (Outcome F) × World F C
      after r = elim r [ ok is ↦ (stop_each p is [] >>= finish) left | err e ↦ (err e, left) ]

      go :
          (r : Result String (List Instance))
          → ((is : List Instance) → r ≡ ok is → length is ≤ n)
          → AtMost n (after (map_error cloud_failure r)).1
      go (ok is) few =
          Leads->>= (AtMost 0) (AtMost n) (stop_each p is []) finish
            (λ w h.
              weaker (0 + length is) n (stop_each p is [] w).1 (omega (arith, few is refl))
                (stop_each_leads 0 is [] w h))
            (λ done w h. h) left h
      go (err e) few = weaker 0 n left (omega arith) h

module _ {F H C : Type 0} ⦃ops : FloatOps F⦄ (sdk : Sdk H C) (decoder : Decoder F)
    (clock : C → Instant × C) where
  given_bound :
      IsPaged sdk
      → (s : Connection H C) (is : List Instance)
      → ((client_cloud sdk decoder clock).instances s).0 ≡ ok is
      → length is ≤ page_size
  unfolding with_client
  given_bound paged s is = go s.client
    where
      go :
          (client : Option (Client H))
          → (elim client as (λ _. Result String (List Instance) × Connection H C) [
            | none ↦ (err "", s)
            | some client ↦ (
              (instances sdk client s.remote).0,
              record s { remote = (instances sdk client s.remote).1 },
            )
          ]).0
            ≡ ok is
          → length is ≤ page_size
      go none e = cc
      go (some client) e = instances_bound sdk paged client s.remote is e

  -- Where no page of the SDK has more items than were asked for, a case that stops all instances asks for
  -- at most 100 stops, however many instances there are.
  pub stop_all_bound :
      (p : Platform F (Connection H C))
      → IsPaged sdk
      → (reason : String) (status : Option String) (w : World F (Connection H C))
      → AtMost
          (record p { cloud = client_cloud sdk decoder clock })
          w.requests
          100
          (stop_all (record p { cloud = client_cloud sdk decoder clock }) reason status w).1
  stop_all_bound p paged reason status w =
      stop_all_leads (record p { cloud = client_cloud sdk decoder clock }) w.requests 100
        (given_bound paged) reason status w ([], sym (append-nil w.requests), omega arith)
