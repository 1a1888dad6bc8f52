-- ===== src/App/Signals.antt =====
-- The channels of `Scheduler` in internal/app/scheduler.go. Each holds one signal at most.
use cdtalive.Prelude.{Bool, true, false, Option, none, some, if◌then◌else◌}
use cdtalive.App.Scheduler.{Event, wake, run_now, timer}

-- Whether `wake` and `runNow` hold a signal.
pub record Signals : Type 0 where
  pub wake : Bool
  pub run_now : Bool

-- `make(chan struct{}, 1)`, twice
abbrev pub no_signals : Signals
no_signals = record { wake = false; run_now = false }

-- A send that is dropped where the channel is full.
unfoldable pub notify : Signals → Signals
notify s = if s.wake then s else record s { wake = true }

unfoldable pub run_immediately : Signals → Signals
run_immediately s = if s.run_now then s else record s { run_now = true }

-- What an event that ends a wait takes out of the channels, where it can occur at all. Without a
-- configuration file the wait has no timer and does not listen to `runNow`.
unfoldable pub receive : Event → Bool → Signals → Option Signals
receive wake has_timer s = if s.wake then some (record s { wake = false }) else none
receive run_now true s = if s.run_now then some (record s { run_now = false }) else none
receive run_now false s = none
receive timer true s = some s
receive timer false s = none
