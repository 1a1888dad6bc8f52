-- ===== src/Config/Save/Write.antt =====
-- What `write` of internal/config/config.go leaves in the file.
use cdtalive.Prelude.{
  ℕ, zero, suc, ◌≡◌, refl, ap, ◌⊎◌, inl, inr, [], ◌∷◌, ◌++◌, append-nil, take, Option, none, some,
}
use cdtalive.Prelude.Actions.{lift, ◌>>=◌, ◌>>◌}
use cdtalive.Prelude.Floats.{FloatOps}
use cdtalive.Prelude.Hoare.{Post, Post-weaken, Triple, Triple->>=}
use cdtalive.Prelude.Results.{Result, ok, err, or_err}
use cdtalive.Prelude.Text.{Text}
use cdtalive.Config.Disk.{
  Fault, succeeds, refused, cut_after, rest_of, Disk, DiskAction, Yaml, next_fault, disk_call,
  write_file, chmod, mkdir_all,
}
use cdtalive.Config.Errors.{ConfigError, bad_file, io_error}
use cdtalive.Config.Save.{write}
use cdtalive.Config.Settings.{Config}

abbrev HasFile : Option Text → Disk → Type 0
HasFile file d = d.file ≡ file

-- A text begins with another one.
abbrev pub IsStartOf : Text → Text → Type 0
IsStartOf front text = (rest : Text) × (front ++ rest ≡ text)

take-IsStartOf : (n : ℕ) (text : Text) → IsStartOf (take n text) text
take-IsStartOf zero text = (text, refl)
take-IsStartOf (suc n) [] = ([], refl)
take-IsStartOf (suc n) (c ∷ text) =
    let (rest, e) = take-IsStartOf n text in (rest, ap (λ xs. c ∷ xs) e)

disk_call_ends :
    (change : Option Text → Option Text) (cut : ℕ → Option Text → Option Text) (file : Option Text)
    (Z : Disk → Type 0)
    → ((d : Disk) → HasFile file d → Z d)
    → ((n : ℕ) (d : Disk) → HasFile (cut n file) d → Z d)
    → Triple (HasFile file) (disk_call change cut) (λ _. HasFile (change file)) Z
unfolding disk_call
disk_call_ends change cut file Z fails breaks d h = go (next_fault d.faults)
  where
    after : Disk
    after = record d { faults = rest_of d.faults }

    go :
        (fault : Fault)
        → Post
            (λ _. HasFile (change file))
            Z
            (elim fault as (λ _. Result ConfigError (Unit {0}) × Disk) [
              | succeeds ↦ (ok tt, record after { file = change d.file })
              | refused ↦ (err io_error, after)
              | cut_after n ↦ (err io_error, record after { file = cut n d.file })
            ])
    go succeeds = ap change h
    go refused = fails after h
    go (cut_after n) = breaks n (record after { file = cut n d.file }) (ap (cut n) h)

module _ {F : Type 0} ⦃ops : FloatOps F⦄ (yaml : Yaml F) where
  -- The file holds the text of a configuration.
  abbrev pub Holds : Config F → Disk → Type 0
  Holds cfg d = (text : Text) × (yaml.marshal cfg ≡ some text) × (d.file ≡ some text)

  -- The file holds the text of a configuration, or the beginning of this text.
  abbrev pub HoldsStart : Config F → Disk → Type 0
  HoldsStart cfg d =
      (text : Text) × (front : Text) × (yaml.marshal cfg ≡ some text)
      × IsStartOf front text
      × (d.file ≡ some front)

  -- The file is an old one, or holds the text of a configuration or the beginning of it.
  abbrev pub IsOldOr : Option Text → Config F → Disk → Type 0
  IsOldOr file cfg d = (d.file ≡ file) ⊎ HoldsStart cfg d

  write_text_ends :
      (cfg : Config F) (file : Option Text) (text : Text)
      → yaml.marshal cfg ≡ some text
      → Triple
          (HasFile file)
          (mkdir_all >> (write_file text >> chmod))
          (λ _. Holds cfg)
          (IsOldOr file cfg)
  unfolding mkdir_all write_file chmod
  write_text_ends cfg file text e =
      let keep : DiskAction (Unit {0}) = disk_call (λ f. f) (λ _ f. f) in
      let store : DiskAction (Unit {0}) = disk_call (λ _. some text) (λ n _. some (take n text)) in
      let stored : (d : Disk) → HasFile (some text) d → IsOldOr file cfg d =
        λ d k. inr (text, text, e, ([], append-nil text), k) in
      Triple->>= (HasFile file) (λ _. HasFile file) (λ _. Holds cfg) (IsOldOr file cfg) keep
        (λ _. store >> keep)
        (disk_call_ends (λ f. f) (λ _ f. f) file (IsOldOr file cfg) (λ d k. inl k) (λ n d k. inl k))
        λ _.
          Triple->>= (HasFile file) (λ _. HasFile (some text)) (λ _. Holds cfg) (IsOldOr file cfg)
            store (λ _. keep)
            (disk_call_ends (λ _. some text) (λ n _. some (take n text)) file (IsOldOr file cfg)
              (λ d k. inl k) (λ n d k. inr (text, take n text, e, take-IsStartOf n text, k)))
            λ _ d h.
              Post-weaken (λ _. HasFile (some text)) (λ _. Holds cfg) (IsOldOr file cfg)
                (IsOldOr file cfg) (keep d) (λ _ _ k. (text, e, k)) (λ _ k. k)
                (disk_call_ends (λ f. f) (λ _ f. f) (some text) (IsOldOr file cfg) stored
                  (λ n. stored) d h)

  pub write_ends :
      (cfg : Config F) (file : Option Text)
      → Triple (HasFile file) (write yaml cfg) (λ _. Holds cfg) (IsOldOr file cfg)
  unfolding write
  write_ends cfg file d h = go (yaml.marshal cfg) refl
    where
      go :
          (m : Option Text)
          → yaml.marshal cfg ≡ m
          → Post
              (λ _. Holds cfg)
              (IsOldOr file cfg)
              ((lift (or_err m bad_file) >>= λ text. mkdir_all >> (write_file text >> chmod)) d)
      go none e = inl h
      go (some text) e = write_text_ends cfg file text e d h
