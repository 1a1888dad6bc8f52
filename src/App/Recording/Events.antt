-- ===== src/App/Recording/Events.antt =====
-- Sequences of calls of `recordInstanceState` in internal/app/service.go, and the events of them.
use cdtalive.Prelude.{
  ℕ, ◌+◌, ◌≡◌, refl, ap, ◌∙◌, List, [], ◌∷◌, ◌++◌, Bool, true, false, ◌&&◌, not, Option, String,
  if◌then◌else◌, arith,
}
use cdtalive.Prelude.Int.{ℤ}
use cdtalive.Store.Tables.{Tables, StopEvent, StopKind, scheduled, unexpected, kind_eq}
use cdtalive.Store.Statements.{of_row}
use cdtalive.Store.Commit.{new_events, of_row-to_row}
use cdtalive.App.World.{Instance, Platform}
use cdtalive.App.Recording.{
  is_up, is_down, is_scheduled, is_service_initiated, settled_status, is_scheduled_event,
  is_unexpected_event, next_state,
}
use cdtalive.App.Recording.Laws.{checked_tables}

-- One check: what it is given, what the cloud says, and when.
pub record Check : Type 0 where
  pub fallback : String
  pub reason : String
  pub found : Option Instance
  pub now : ℤ

-- How many events of a kind there are.
abbrev pub of_kind : StopKind → List StopEvent → ℕ
of_kind kind [] = 0
of_kind kind (e ∷ es) = (if kind_eq e.kind kind then 1 else 0) + of_kind kind es

of_kind-append :
    (kind : StopKind) (es fs : List StopEvent)
    → of_kind kind (es ++ fs) ≡ of_kind kind es + of_kind kind fs
of_kind-append kind [] fs = omega arith
of_kind-append kind (e ∷ es) fs = omega (arith, of_kind-append kind es fs)

abbrev one_if : Bool → ℕ
one_if b = if b then 1 else 0

of_kind-new_events :
    (b c : Bool) (now : ℤ)
    → (of_kind scheduled (new_events b c now) ≡ one_if b)
      × (of_kind unexpected (new_events b c now) ≡ one_if c)
of_kind-new_events true true now = (refl, refl)
of_kind-new_events true false now = (refl, refl)
of_kind-new_events false true now = (refl, refl)
of_kind-new_events false false now = (refl, refl)

abbrev pub status_of : Check → String
status_of c = settled_status c.fallback c.found

-- The scheduled stops of a sequence of checks: those made for the schedule just after one that was
-- not. `before` says whether the check before the sequence was.
abbrev pub scheduled_stops : Bool → List Check → ℕ
scheduled_stops before [] = 0
scheduled_stops before (c ∷ cs) =
    one_if (is_scheduled c.reason && not before) + scheduled_stops (is_scheduled c.reason) cs

-- The unexpected stops: an instance that is down after it was up, where neither this check nor the
-- one before it explains that.
abbrev pub unexpected_stops : Bool → String → List Check → ℕ
unexpected_stops before status [] = 0
unexpected_stops before status (c ∷ cs) =
    one_if
      (is_down (status_of c) && is_up status && not before && not (is_service_initiated c.reason))
    + unexpected_stops (is_scheduled c.reason) (status_of c) cs

module _ {F C : Type 0} (p : Platform F C) where
  abbrev pub check : Check → Tables F → Tables F
  check c = checked_tables p c.fallback c.reason c.found c.now

  abbrev pub check_all : List Check → Tables F → Tables F
  check_all [] t = t
  check_all (c ∷ cs) t = check_all cs (check c t)

  check_state :
      (c : Check) (t : Tables F)
      → (of_row ((check c t).ecs_state)
          ≡ next_state p.parse_time c.now c.reason c.found (status_of c) (of_row t.ecs_state))
  check_state c t =
      of_row-to_row
        (next_state p.parse_time c.now c.reason c.found (status_of c) (of_row t.ecs_state))

  check_scheduled :
      (c : Check) (t : Tables F)
      → of_kind scheduled ((check c t).stop_events)
        ≡ of_kind scheduled t.stop_events
          + one_if (is_scheduled c.reason && not (of_row t.ecs_state).scheduled_stop_active)
  unfolding is_scheduled_event
  check_scheduled c t =
      of_kind-append scheduled t.stop_events _
      ∙ ap (λ n. of_kind scheduled t.stop_events + n)
          (of_kind-new_events (is_scheduled_event (of_row t.ecs_state) c.reason)
            (is_unexpected_event (of_row t.ecs_state) c.reason (status_of c)) c.now).0

  check_unexpected :
      (c : Check) (t : Tables F)
      → of_kind unexpected ((check c t).stop_events)
        ≡ of_kind unexpected t.stop_events
          + one_if (
              is_down (status_of c)
              && is_up (of_row t.ecs_state).last_status
              && not (of_row t.ecs_state).scheduled_stop_active
              && not (is_service_initiated c.reason))
  unfolding is_unexpected_event
  check_unexpected c t =
      of_kind-append unexpected t.stop_events _
      ∙ ap (λ n. of_kind unexpected t.stop_events + n)
          (of_kind-new_events (is_scheduled_event (of_row t.ecs_state) c.reason)
            (is_unexpected_event (of_row t.ecs_state) c.reason (status_of c)) c.now).1

  -- The scheduled stops that a sequence of checks adds to the table are the checks made for the
  -- schedule that follow one that was not: a stop that holds over several checks counts once.
  pub check_all_scheduled :
      (cs : List Check) (t : Tables F)
      → of_kind scheduled ((check_all cs t).stop_events)
        ≡ of_kind scheduled t.stop_events
          + scheduled_stops (of_row t.ecs_state).scheduled_stop_active cs
  unfolding next_state
  check_all_scheduled [] t = omega arith
  check_all_scheduled (c ∷ cs) t =
      let counted = check_all_scheduled cs (check c t) in
      let seen = ap (λ s. scheduled_stops s.scheduled_stop_active cs) (check_state c t) in
      omega (arith, counted, seen, check_scheduled c t)

  -- The unexpected stops that a sequence of checks adds are those where the instance went from up to
  -- down while neither the check nor the one before it was made for a stop of the service: the
  -- check before it not for the schedule, and the check itself for none of the service's reasons.
  pub check_all_unexpected :
      (cs : List Check) (t : Tables F)
      → of_kind unexpected ((check_all cs t).stop_events)
        ≡ of_kind unexpected t.stop_events
          + unexpected_stops
              (of_row t.ecs_state).scheduled_stop_active
              (of_row t.ecs_state).last_status
              cs
  unfolding next_state
  check_all_unexpected [] t = omega arith
  check_all_unexpected (c ∷ cs) t =
      let counted = check_all_unexpected cs (check c t) in
      let seen =
        ap (λ s. unexpected_stops s.scheduled_stop_active s.last_status cs) (check_state c t) in
      omega (arith, counted, seen, check_unexpected c t)
