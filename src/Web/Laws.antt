-- ===== src/Web/Laws.antt =====
-- Calls of the service from the handlers of internal/web/server.go that only work on the disk, and
-- their early returns.
use cdtalive.Prelude.{ℕ, ◌≡◌, refl, Bool, true, false}
use cdtalive.Prelude.Actions.{pure, ◌>>=◌}
use cdtalive.Prelude.Hoare.{Ends, Finishes}
use cdtalive.Prelude.Results.{Result, ok, err}
use cdtalive.Config.Disk.{Disk, DiskAction}
use cdtalive.Config.Errors.{ConfigError}
use cdtalive.App.Values.{Failure, config_failure}
use cdtalive.App.World.{World, on_disk, map_error}
use cdtalive.Web.{Server, Response, Body, fail_with, respond, on_service, return_if}

module _ {F C : Type 0} (s0 : Server F C) where
  -- Nothing but the disk of the service may differ.
  abbrev pub OnlyDisk : Disk → Server F C → Type 0
  OnlyDisk d s = s ≡ record s0 { world = record s0.world { disk = d } }

  -- A call of the service that only works on the disk.
  pub service_on_disk :
      {A B : Type 0} (code : ℕ) (d : Disk) (m : DiskAction A) (g : A → B)
      → Finishes
          (OnlyDisk d)
          (on_service code (on_disk m >>= λ a. pure (g a)))
          (λ b s. (a : A) × (b ≡ g a) × ((m d).0 ≡ ok a) × OnlyDisk (m d).1 s)
          (λ r s. (r.code ≡ code) × ((e : ConfigError) × ((m d).0 ≡ err e)) × OnlyDisk (m d).1 s)
  service_on_disk {A} {B} code d m g s h = rw h (go (m d).0 refl)
    where
      left : World F C
      left = record s0.world { disk = (m d).1 }

      finish : Result Failure A → Result Failure B × World F C
      finish r = elim r [ ok a ↦ (ok (g a), left) | err e ↦ (err e, left) ]

      go :
          (r : Result ConfigError A)
          → (m d).0 ≡ r
          → Ends
              (λ b s. (a : A) × (b ≡ g a) × ((m d).0 ≡ ok a) × OnlyDisk (m d).1 s)
              (λ r s.
                (r.code ≡ code) × ((e : ConfigError) × ((m d).0 ≡ err e)) × OnlyDisk (m d).1 s)
              (
                fail_with {F = F} code (finish (map_error config_failure r)).0,
                record s0 { world = (finish (map_error config_failure r)).1 },
              )
      go (ok a) e = (a, refl, e, refl)
      go (err x) e = (refl, (x, e), refl)

pub return_if_ends :
    {F C : Type 0} (P : Server F C → Type 0) (Z : Response F → Server F C → Type 0) (b : Bool)
    (code : ℕ) (body : Body F)
    → (b ≡ true → (s : Server F C) → P s → Z (respond code body) s)
    → Finishes P (return_if {C = C} b code body) (λ _ s. P s × (b ≡ false)) Z
return_if_ends P Z true code body h s k = h refl s k
return_if_ends P Z false code body h s k = (k, refl)
