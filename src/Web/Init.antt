-- ===== src/Web/Init.antt =====
-- The handler `initialize` of internal/web/server.go.
use cdtalive.Prelude.{
  ◌≡◌, refl, ap, ◌∙◌, sym, ◌⊎◌, inl, inr, [], ◌∷◌, Bool, true, false, Bool-cases, String,
}
use cdtalive.Prelude.Actions.{pure, ◌>>=◌, ◌>>◌}
use cdtalive.Prelude.Floats.{FloatOps}
use cdtalive.Prelude.Hoare.{Ends, Finishes, Finishes->>=, Post}
use cdtalive.Prelude.Results.{Result, ok, err}
use mathlib.Core.Path.{subst}
use cdtalive.Config.Disk.{Disk, exists_in}
use cdtalive.Config.Presence.{IsKeptFile}
use cdtalive.Config.Errors.{ConfigError}
use cdtalive.Config.Save.{init}
use cdtalive.Config.Save.Init.{IsInitialized, IsBegun, init_result}
use cdtalive.Config.Settings.{Config}
use cdtalive.App.Signals.{Signals, notify}
use cdtalive.App.Values.{str, config_failure}
use cdtalive.App.World.{Platform, on_disk, map_error}
use cdtalive.Web.{
  Server, Handler, Response, Body, fields, detail, fail_with, respond, on_service, has_config,
  return_if, bound_or, notify_scheduler, initialize,
}
use cdtalive.Web.Laws.{OnlyDisk, return_if_ends}

pub notify_lem : (s : Signals) → notify s ≡ record s { wake = true }
unfolding notify
notify_lem s = elim (Bool-cases s.wake) [ inl full ↦ rw full refl | inr free ↦ rw free refl ]

module _ {F C : Type 0} ⦃ops : FloatOps F⦄ (p : Platform F C) (bound : Result String (Config F))
    (s0 : Server F C) where
  abbrev disk0 : Disk
  disk0 = s0.world.disk

  abbrev pub IsInitAccepted : Response F → Server F C → Type 0
  IsInitAccepted r s =
      (payload : Config F) × (bound ≡ ok payload)
      × IsInitialized p.yaml payload disk0.file s.world.disk
      × (r ≡ respond 200 (fields (("status", str "success") ∷ [])))
      × (s ≡ record s0 {
        world = record s0.world { disk = s.world.disk };
        signals = record s0.signals { wake = true };
      })

  -- Why a request is refused, with the code and the disk that it leaves: there is a file; the body could
  -- not be bound; or `Init` failed.
  abbrev pub IsInitRefusedAs : Response F → Disk → Type 0
  IsInitRefusedAs r disk =
      ((exists_in disk0 ≡ true) × (r.code ≡ 400) × (disk ≡ disk0))
      ⊎ ((exists_in disk0 ≡ false)
          × ((e : String) × (bound ≡ err e))
          × (r.code ≡ 422)
          × (disk ≡ disk0))
      ⊎ ((exists_in disk0 ≡ false)
          × (r.code ≡ 422)
          × ((payload : Config F) × (bound ≡ ok payload)
              × ((e : ConfigError) × ((init p.yaml payload disk0).0 ≡ err e))
              × ((disk.file ≡ disk0.file) ⊎ IsBegun p.yaml payload disk0.file disk)))

  abbrev pub IsInitRefused : Response F → Server F C → Type 0
  IsInitRefused r s = IsInitRefusedAs r s.world.disk × OnlyDisk s0 s.world.disk s

  pub accepted_init_kept :
      (r : Response F) (s : Server F C) → IsInitAccepted r s → IsKeptFile disk0.file s.world.disk
  accepted_init_kept r s (_, _, (_, (_, _, _, _, _, (text, _, e))), _, _) = inr (text, e)

  pub refused_init_kept :
      (r : Response F) (s : Server F C) → IsInitRefused r s → IsKeptFile disk0.file s.world.disk
  refused_init_kept r s (inl (_, _, e), _) = inl (ap (λ d. d.file) e)
  refused_init_kept r s (inr (inl (_, _, _, e)), _) = inl (ap (λ d. d.file) e)
  refused_init_kept r s (inr (inr (_, _, (_, _, _, inl old))), _) = inl old
  refused_init_kept r s
        (inr (inr (_, _, (_, _, _, inr (_, (_, _, _, _, _, (_, front, _, _, e)))))), _) =
      inr (front, e)

  refused_as :
      (r : Response F) (d : Disk)
      → IsInitRefusedAs r d
      → (s : Server F C) → OnlyDisk s0 d s
      → IsInitRefused r s
  refused_as r d why s h =
      let same : s.world.disk ≡ d = ap (λ s. s.world.disk) h in
      (
        subst (λ d. IsInitRefusedAs r d) (sym same) why,
        h ∙ ap (λ d. record s0 { world = record s0.world { disk = d } }) (sym same),
      )

  abbrev answer : Handler F C (Response F)
  answer = notify_scheduler >> pure (respond 200 (fields (("status", str "success") ∷ [])))

  module _ (absent : exists_in disk0 ≡ false) (payload : Config F) (same : bound ≡ ok payload) where
    abbrev Inits : Unit {0} → Server F C → Type 0
    Inits _ s = IsInitialized p.yaml payload disk0.file s.world.disk × OnlyDisk s0 s.world.disk s

    service_init_ends :
        Finishes
          (OnlyDisk s0 disk0)
          (on_service 422 (on_disk (init p.yaml payload)))
          Inits
          IsInitRefused
    service_init_ends s h = rw h (
        go (init p.yaml payload disk0).0 (init p.yaml payload disk0).1 refl
          (init_result p.yaml payload disk0))
      where
        go :
            (r : Result ConfigError (Unit {0})) (d : Disk)
            → (init p.yaml payload disk0).0 ≡ r
            → Post
                (λ _. IsInitialized p.yaml payload disk0.file)
                (λ d. (d.file ≡ disk0.file) ⊎ IsBegun p.yaml payload disk0.file d)
                (r, d)
            → Ends Inits IsInitRefused (
              fail_with {F = F} 422 (map_error config_failure r),
              record s0 { world = record s0.world { disk = d } },
            )
        go (ok _) d e k = (k, refl)
        go (err x) d e k = (inr (inr (absent, refl, (payload, same, (x, e), k))), refl)

    init_and_notify_ends :
        Finishes
          (OnlyDisk s0 disk0)
          (on_service 422 (on_disk (init p.yaml payload)) >> answer)
          IsInitAccepted
          IsInitRefused
    unfolding notify_scheduler
    init_and_notify_ends =
        Finishes->>= (OnlyDisk s0 disk0) Inits IsInitAccepted IsInitRefused
          (on_service 422 (on_disk (init p.yaml payload))) (λ _. answer) service_init_ends
          λ _ s (new, k). (
            payload,
            same,
            new,
            refl,
            ap {A = Server F C} (λ s. record s { signals = notify s.signals }) k
                ∙ ap
                    (λ g. record s0 {
                      world = record s0.world { disk = s.world.disk };
                      signals = g;
                    })
                    (notify_lem s0.signals),
          )

  -- A request to initialize is answered with 200 only where there was no configuration file and its body
  -- could be bound; the file then holds the text of the configuration that was bound, as `Init` trims
  -- and validates it, with the mode `auto`, and the scheduler is woken. Otherwise no signal is sent,
  -- and the code is 400 where there is a file and 422 where there is none and the body cannot be
  -- bound, both with the disk unchanged, and 422 where `Init` fails, which leaves no file, or one that
  -- holds that text or the beginning of it. Nothing else of the service changes.
  pub initialize_result : Ends IsInitAccepted IsInitRefused (initialize p bound s0)
  unfolding initialize
  initialize_result =
      let finish : Config F → Handler F C (Response F) =
        λ payload. on_service 422 (on_disk (init p.yaml payload)) >> answer in
      let binds : Handler F C (Config F) = bound_or bound (λ e. e) in
      let exists_detail : Body F = detail "配置文件已存在，无法重复初始化。" in
      let Seen : Bool → Server F C → Type 0 =
        λ present s. OnlyDisk s0 disk0 s × (exists_in disk0 ≡ present) in
      Finishes->>= (OnlyDisk s0 disk0) Seen IsInitAccepted IsInitRefused has_config
        (λ present. return_if present 400 exists_detail >> (binds >>= finish))
        (λ s h. (h, ap (λ s. exists_in s.world.disk) (sym h)))
        (λ present.
          Finishes->>= (Seen present) (λ _ s. Seen present s × (present ≡ false)) IsInitAccepted
            IsInitRefused (return_if present 400 exists_detail) (λ _. binds >>= finish)
            (return_if_ends (Seen present) IsInitRefused present 400 exists_detail
              (λ there s (h, e).
                refused_as (respond 400 exists_detail) disk0 (inl (e ∙ there, refl, refl)) s h))
            λ _ s ((h, e), free).
              Finishes->>= (OnlyDisk s0 disk0)
                (λ payload s. (bound ≡ ok payload) × OnlyDisk s0 disk0 s) IsInitAccepted
                IsInitRefused binds finish (λ s h. go (e ∙ free) bound refl s h)
                (λ payload s (same, h). init_and_notify_ends (e ∙ free) payload same s h) s h)
        s0 refl
    where
      go :
          exists_in disk0 ≡ false
          → (b : Result String (Config F)) → bound ≡ b
          → Finishes
              (OnlyDisk s0 disk0)
              (bound_or {F = F} {C = C} b (λ e. e))
              (λ payload s. (bound ≡ ok payload) × OnlyDisk s0 disk0 s)
              IsInitRefused
      go absent (ok payload) e s h = (e, h)
      go absent (err x) e s h =
          refused_as (respond 422 (detail x)) disk0 (inr (inl (absent, (x, e), refl, refl))) s h
