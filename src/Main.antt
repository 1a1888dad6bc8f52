-- ===== src/Main.antt =====
-- cmd/cdtalive/main.go, and `NewService`, `NewScheduler` and `New`, which it calls: the pruning of the
-- database, and the program as a system of steps. A step is one answered request, one turn of the
-- scheduler's loop, one end of its wait, or one daily maintenance.
pub mod Requests
pub mod Pending
pub mod Shown
pub mod Configured
pub mod Maintenance
use cdtalive.Prelude.{
  ◌*◌, ◌≡◌, [], ◌∷◌, Bool, true, false, Option, none, some, String, str_eq, if◌then◌else◌,
}
use cdtalive.Prelude.Actions.{pure, gets, ◌>>=◌, ◌>>◌}
use cdtalive.Prelude.Floats.{FloatOps}
use cdtalive.Prelude.Int.{pos, ◌-ℤ◌}
use cdtalive.Prelude.Results.{Result, ok, err}
use cdtalive.Prelude.Text.{Text}
use cdtalive.Time.{Instant, unix, previous_month_start}
use cdtalive.Config.Environment.{Env}
use cdtalive.Store.Statements.{prune}
use cdtalive.App.Scheduler.{Event, Loop, started, turn, after_wait}
use cdtalive.App.Signals.{Signals, no_signals, receive}
use cdtalive.App.Values.{str}
use cdtalive.App.World.{Platform, World, WorldAction, on_store, read_clock}
use cdtalive.Web.{Call, Server, handle}

-- `envOr`
unfoldable pub env_or : Env → String → String → String
env_or env key fallback = let value = env key in if str_eq value "" then fallback else value

-- What the scheduler does: its loop goes on, or it waits, with the instant that the timer is set to.
-- Without a configuration file there is no timer.
pub data Phase : Type 0 where
  ready : Phase
  waiting : Option Instant → Phase

pub record System (F C : Type 0) : Type 0 where
  pub server : Server F C
  pub loop : Loop
  pub phase : Phase

abbrev pub has_timer : Option Instant → Bool
has_timer none = false
has_timer (some at) = true

module _ {F C : Type 0} where
  -- `NewService`, on a disk, a database and a cloud.
  abbrev pub new_service : World F C → World F C
  new_service w = record w { last = ("status", str "未执行") ∷ []; next_run_at = pos 0 }

  abbrev pub new_system : World F C → System F C
  new_system w = record {
    server = record { world = new_service w; signals = no_signals };
    loop = started;
    phase = ready;
  }

  abbrev pub with_world : System F C → World F C → System F C
  with_world s w = record s { server = record s.server { world = w } }

  -- The world of a system.
  abbrev pub world_of : System F C → World F C
  world_of s = s.server.world

module _ {F C : Type 0} ⦃ops : FloatOps F⦄ (p : Platform F C) where
  -- `prune`. The zone has a fixed offset, and 30 days are as many seconds.
  unfoldable pub prune_now : WorldAction F C (Unit {0})
  unfolding ◌-ℤ◌
  prune_now = do
    now ← read_clock p
    on_store (prune (pos (previous_month_start p.location now)) (unix now -ℤ pos (30 * 86400)))

  -- `main` up to the start of its goroutines; an error of the pruning ends the program.
  unfoldable pub launch : WorldAction F C (System F C)
  unfolding prune_now
  launch = do prune_now; w ← gets (λ w. w); pure (new_system w)

  -- The system behind a turn. A turn does not end in an error.
  unfoldable pub after_turn : System F C → System F C
  unfolding turn
  after_turn s =
      let (r, w) = turn p s.loop (world_of s) in
      elim r [
        | ok waited ↦ record (with_world s w) { loop = waited.1; phase = waiting waited.0 }
        | err e ↦ with_world s w
      ]

  -- A tick of `dailyMaintenance`: an error is only logged.
  unfoldable pub after_maintenance : System F C → System F C
  unfolding prune_now
  after_maintenance s = with_world s (prune_now (world_of s)).1

  module _ (read_page : String → Result String Text) where
    unfoldable pub after_call : Call F → System F C → System F C
    unfolding handle
    after_call call s = record s { server = (handle p read_page call s.server).1 }

    pub data Step : System F C → System F C → Type 0 where
      answers : (call : Call F) (s : System F C) → Step s (after_call call s)
      turns : (s : System F C) → s.phase ≡ ready → Step s (after_turn s)
      -- An event ends the wait of the scheduler. The timer may end it at any time here, since no time is
      -- part of a system: what holds however the steps follow holds also where it fires when it is due.
      ends_wait :
          (event : Event) (at : Option Instant) (s : System F C)
          → s.phase ≡ waiting at
          → (signals : Signals) → receive event (has_timer at) s.server.signals ≡ some signals
          → Step s (record s {
            server = record s.server { signals = signals };
            loop = after_wait event s.loop;
            phase = ready;
          })
      maintains : (s : System F C) → Step s (after_maintenance s)
      -- The cloud, and the time, go on by themselves.
      elapses :
          (c : C) (s : System F C) → Step s (with_world s (record (world_of s) { cloud_state = c }))

    -- What can come of a system.
    pub data Reaches : System F C → System F C → Type 0 where
      stays : (s : System F C) → Reaches s s
      goes : (s t u : System F C) → Reaches s t → Step t u → Reaches s u
