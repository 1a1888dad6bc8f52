-- ===== src/Main/Pending.antt =====
-- What becomes of a run that a saved setting forces, from `saveSettings` of internal/web/server.go to
-- the loop of internal/app/scheduler.go.
use cdtalive.Prelude.{◌≡◌, ◌⊎◌, true, some, String}
use cdtalive.Prelude.Floats.{FloatOps}
use cdtalive.Prelude.Results.{Result}
use cdtalive.Prelude.Text.{Text}
use cdtalive.App.Scheduler.{regular, run_now}
use cdtalive.App.Scheduler.Force.{turn_kind}
use cdtalive.App.Signals.{Signals}
use cdtalive.App.World.{Platform, World}
use cdtalive.Main.{ready, System, world_of, after_turn, Reaches}

module _ {F C : Type 0} where
  -- A forced run is still to come: its signal is in the channel, or the loop has received it.
  abbrev pub IsPending : System F C → Type 0
  IsPending s = (s.server.signals.run_now ≡ true) ⊎ (s.loop.force_run ≡ true)

module _ {F C : Type 0} ⦃ops : FloatOps F⦄ (p : Platform F C)
    (read_page : String → Result String Text) where
  -- The loop is about to make a regular run.
  abbrev pub RunsNext : System F C → Type 0
  RunsNext s = (s.phase ≡ ready) × (turn_kind p s.loop (world_of s) ≡ some regular)

  -- The forced run is still to come, or was made on the way.
  abbrev pub IsKept : System F C → System F C → Type 0
  IsKept s t =
      IsPending t
      ⊎ ((u : System F C) × Reaches p read_page s u
          × RunsNext u
          × Reaches p read_page (after_turn p u) t)
