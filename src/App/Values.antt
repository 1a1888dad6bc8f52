-- ===== src/App/Values.antt =====
-- The result maps of internal/app/service.go (`map[string]any`), and the helpers on them.
use cdtalive.Prelude.{List, [], ◌∷◌, Option, none, some, String, str_eq, if◌then◌else◌}
use cdtalive.Prelude.Int.{ℤ, pos, int_eq}
use cdtalive.Prelude.Text.{Text, text_eq}
use cdtalive.Config.Errors.{ConfigError}
use cdtalive.Store.Db.{StoreError}

-- The errors of the service, by where they come from.
pub data Failure : Type 0 where
  config_failure : ConfigError → Failure
  store_failure : StoreError → Failure
  cloud_failure : String → Failure

-- A value of a result map. `failure` is the text of an error.
pub data Value (F : Type 0) : Type 0 where
  null : Value F
  int : ℤ → Value F
  float : F → Value F
  str : String → Value F
  failure : Failure → Value F
  actions : List (Text × String) → Value F

-- A map, as the list of its entries.
abbrev pub Fields : Type 0 → Type 0
Fields F = List (String × Value F)

module _ {F : Type 0} where
  unfoldable pub get : String → Fields F → Option (Value F)
  get k [] = none
  get k ((j, v) ∷ m) = if str_eq j k then some v else get k m

  unfoldable pub set : String → Value F → Fields F → Fields F
  set k v [] = (k, v) ∷ []
  set k v ((j, w) ∷ m) = if str_eq j k then (k, v) ∷ m else (j, w) ∷ set k v m

  -- `value, _ := m[k].(string)`: the empty text where there is none.
  abbrev pub string_or_empty : Option (Value F) → String
  string_or_empty none = ""
  string_or_empty (some (str s)) = s
  string_or_empty (some _) = ""

  unfoldable pub get_string : String → Fields F → String
  unfolding get
  get_string k m = string_or_empty (get k m)

  -- `setIfMissing`
  unfoldable pub set_if_missing : String → Value F → Fields F → Fields F
  unfolding get set
  set_if_missing k v m = elim (get k m) [ none ↦ set k v m | some _ ↦ m ]

  -- `for key, value := range source { target[key] = value }`
  unfoldable pub set_all : Fields F → Fields F → Fields F
  unfolding set
  set_all [] target = target
  set_all ((k, v) ∷ source) target = set_all source (set k v target)

  -- `nullableTimestamp`
  abbrev pub nullable_timestamp : ℤ → Value F
  nullable_timestamp t = if int_eq t (pos 0) then null else int t

-- An entry of the map of actions, by instance.
unfoldable pub set_action : Text → String → List (Text × String) → List (Text × String)
set_action k v [] = (k, v) ∷ []
set_action k v ((j, w) ∷ m) = if text_eq j k then (k, v) ∷ m else (j, w) ∷ set_action k v m
