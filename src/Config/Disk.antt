-- ===== src/Config/Disk.antt =====
-- The configuration file, and what internal/config/config.go does with it: `os` and the YAML library.
use cdtalive.Prelude.{ℕ, List, [], ◌∷◌, take, Bool, true, false, Option, none, some, String}
use cdtalive.Prelude.Actions.{Action}
use cdtalive.Prelude.Results.{ok, err, or_err}
use cdtalive.Prelude.Text.{Text}
use cdtalive.Config.Errors.{ConfigError, io_error}
use cdtalive.Config.Schedules.{StartSchedule}
use cdtalive.Config.Settings.{Config}

-- gopkg.in/yaml.v3, as the program uses it; `none` is an error.
pub record Yaml (F : Type 0) : Type 0 where
  -- `yaml.Unmarshal(data, &cfg)`: the fields that the text does not name stay
  pub unmarshal : Text → Config F → Option (Config F)
  pub marshal : Config F → Option Text
  -- `yaml.Unmarshal(value, &cfg.DailyStartSchedules)`
  pub unmarshal_schedules :
      String → Option (List StartSchedule) → Option (Option (List StartSchedule))
  -- the text read as a map, the key `daily_start_schedules` set, and the map written again
  pub set_start_schedules : Text → List StartSchedule → Option Text

-- How a writing call ends: well, with an error before anything was written, or, for `os.WriteFile`, with
-- an error behind some of the text, when the file holds its beginning and no more.
pub data Fault : Type 0 where
  succeeds refused : Fault
  cut_after : ℕ → Fault

-- The file, if it exists, and how the writing calls to come end.
pub record Disk : Type 0 where
  pub file : Option Text
  pub faults : List Fault

abbrev pub DiskAction : Type 0 → Type 0
DiskAction A = Action Disk ConfigError A

-- `os.Stat(Path())` without an error.
abbrev pub exists_in : Disk → Bool
exists_in disk = elim disk.file [ none ↦ false | some _ ↦ true ]

abbrev pub read_file : DiskAction Text
read_file disk = (or_err disk.file io_error, disk)

abbrev pub next_fault : List Fault → Fault
next_fault [] = succeeds
next_fault (fault ∷ _) = fault

abbrev pub rest_of : List Fault → List Fault
rest_of [] = []
rest_of (_ ∷ faults) = faults

-- A call that changes the file, or the directory, or the mode: `MkdirAll`, `WriteFile`, `Chmod`. What
-- the file is if the call breaks off is the second argument.
unfoldable pub disk_call :
    (Option Text → Option Text) → (ℕ → Option Text → Option Text) → DiskAction (Unit {0})
disk_call change cut disk =
    let after = record disk { faults = rest_of disk.faults } in
    elim (next_fault disk.faults) [
      | succeeds ↦ (ok tt, record after { file = change disk.file })
      | refused ↦ (err io_error, after)
      | cut_after n ↦ (err io_error, record after { file = cut n disk.file })
    ]

unfoldable pub write_file : Text → DiskAction (Unit {0})
unfolding disk_call
write_file text = disk_call (λ _. some text) (λ n _. some (take n text))

unfoldable pub chmod : DiskAction (Unit {0})
unfolding disk_call
chmod = disk_call (λ f. f) (λ _ f. f)

unfoldable pub mkdir_all : DiskAction (Unit {0})
unfolding disk_call
mkdir_all = disk_call (λ f. f) (λ _ f. f)
