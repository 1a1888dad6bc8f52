-- ===== src/App/Frames.antt =====
-- Invariants of the world that the calls of the service keep, whatever these calls answer.
use cdtalive.Prelude.{◌≡◌, List, [], ◌∷◌, ◌++◌, append_assoc, ◌∙◌, ap, All, All-append, String}
use cdtalive.Prelude.Hoare.{Keeps}
use cdtalive.Prelude.Results.{Result}
use cdtalive.Config.Disk.{Disk}
use cdtalive.Config.Presence.{IsKeptFile}
use cdtalive.Store.Db.{Db, StoreAction}
use cdtalive.App.World.{Platform, World, Request, on_cloud, on_store, log_request, read_clock}

-- The invariant reads neither the database nor the cloud, nor more of the disk than whether there is a
-- file, and it bears requests that pass a test.
pub record IsStable {F C : Type 0} (Test : Request → Type 0) (Inv : World F C → Type 0)
    : Type 0 where
  pub cloud_step : (w : World F C) (c : C) → Inv w → Inv (record w { cloud_state = c })
  pub store_step : (w : World F C) (d : Db F) → Inv w → Inv (record w { db = d })
  pub disk_step :
      (w : World F C) (d : Disk) → IsKeptFile w.disk.file d → Inv w → Inv (record w { disk = d })
  pub request_step :
      (w : World F C) (q : Request)
      → Test q
      → Inv w
      → Inv (record w { requests = w.requests ++ q ∷ [] })

module _ {F C : Type 0} (Test : Request → Type 0) (Inv : World F C → Type 0)
    (stable : IsStable Test Inv) where
  pub Keeps-cloud : {A : Type 0} (m : C → Result String A × C) → Keeps Inv (on_cloud {F = F} m)
  Keeps-cloud m w = stable.cloud_step w (m w.cloud_state).1

  pub Keeps-store : {A : Type 0} (m : StoreAction F A) → Keeps Inv (on_store {C = C} m)
  Keeps-store m w = stable.store_step w (m w.db).1

  pub Keeps-clock : (p : Platform F C) → Keeps Inv (read_clock p)
  Keeps-clock p w = stable.cloud_step w (p.cloud.now w.cloud_state).1

  pub Keeps-request : (q : Request) → Test q → Keeps Inv (log_request q)
  Keeps-request q t w = stable.request_step w q t

-- The requests behind a given list all pass a test.
abbrev pub Issued : {F C : Type 0} → (Request → Type 0) → List Request → World F C → Type 0
Issued Allows before w = (new : List Request) × (w.requests ≡ before ++ new) × All Allows new

pub Issued-IsStable :
    {F C : Type 0} (Test : Request → Type 0) (before : List Request)
    → IsStable Test (Issued {F = F} {C = C} Test before)
Issued-IsStable Test before = record {
  cloud_step = λ w c h. h;
  store_step = λ w d h. h;
  disk_step = λ w d k h. h;
  request_step = λ w q t (new, same, all). (
    new ++ q ∷ [],
    ap (λ rs. rs ++ q ∷ []) same ∙ append_assoc before new (q ∷ []),
    All-append Test new (q ∷ []) all (t, tt),
  );
}
