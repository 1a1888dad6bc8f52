-- ===== src/Tests/Scheduler.antt =====
-- The scheduler's loop on the platform in memory.
use cdtalive.Prelude.{none, ℕ, Option, ◌≡◌, ◌+◌, ◌*◌, ◌⊎◌, true, some}
use cdtalive.Time.{second}
use cdtalive.App.Frames.{Issued}
use cdtalive.App.Scheduler.{started, poll_interval, wake_at, turn}
use cdtalive.App.Scheduler.Laws.{IsBy, wake_at_lem}
use cdtalive.App.Scheduler.Requests.{turn_requests}
use cdtalive.App.Service.Requests.{RunAllows}
use cdtalive.Tests.Fixtures.{whole, platform, world}

turn_requests_example :
    Issued
      (RunAllows platform world.disk (platform.cloud.now world.cloud_state).1)
      world.requests
      ((turn platform started world).1)
turn_requests_example = turn_requests platform started world

wake_at_lem_example :
    IsBy (wake_at (some 900) (some 700) true 500) (some 900)
    × IsBy (wake_at (some 900) (some 700) true 500) (some (500 + poll_interval))
    × ((some (wake_at (some 900) (some 700) true 500) ≡ some 900)
        ⊎ (some (wake_at (some 900) (some 700) true 500) ≡ some (500 + poll_interval))
        ⊎ ((◌≡◌ {A = Option ℕ} (some 900) none)
            × (◌≡◌ {A = Option ℕ} (some (500 + poll_interval)) none)
            × (wake_at (some 900) (some 700) true 500 ≡ 500 + 300 * second)))
wake_at_lem_example = wake_at_lem (some 900) (some 700) true 500
