-- ===== src/Tests/Dashboard.antt =====
-- The dashboard on the platform in memory.
use cdtalive.Prelude.{[], ◌∷◌}
use cdtalive.Prelude.Int.{ℤ, pos}
use cdtalive.Store.Tables.{BalanceSample}
use cdtalive.App.Dashboard.{dashboard}
use cdtalive.App.Views.{baseline_from, distance}
use cdtalive.App.Dashboard.Baseline.{IsFirstLeast, baseline_from-IsFirstLeast}
use cdtalive.App.Dashboard.Reads.{IsUnchanged, dashboard-IsUnchanged}
use cdtalive.Tests.Fixtures.{whole, platform, world}

abbrev sample : ℤ → ℤ → BalanceSample ℤ
sample at amount = record { timestamp = at; available_amount = amount }

baseline_from-IsFirstLeast_example :
    IsFirstLeast
      (distance (pos 100))
      (baseline_from
        (pos 100)
        (sample (pos 40) (pos 9))
        (sample (pos 90) (pos 8) ∷ sample (pos 110) (pos 7) ∷ []))
      (sample (pos 40) (pos 9) ∷ sample (pos 90) (pos 8) ∷ sample (pos 110) (pos 7) ∷ [])
baseline_from-IsFirstLeast_example =
    baseline_from-IsFirstLeast (pos 100) (sample (pos 40) (pos 9))
      (sample (pos 90) (pos 8) ∷ sample (pos 110) (pos 7) ∷ [])

dashboard-IsUnchanged_example : IsUnchanged world (dashboard platform world).1
dashboard-IsUnchanged_example = dashboard-IsUnchanged platform world
