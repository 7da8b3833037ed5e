-- ===== src/Utils.antt =====
-- site-manager/pkg/utils/utils.go, with `strconv.ParseBool`. The file system and the YAML decoder are
-- parameters.
pub mod Search
use drnavigator.Common.{
  List, [], ◌∷◌, String, Bool, true, false, Option, none, some, Result, ok, err, GoError, ◌==◌,
  ◌||◌, ◌+++◌, if◌then◌else◌,
}

-- `os.Stat` says of a path whether it is a directory; `os.ReadFile` and `os.OpenFile` read it.
pub record Files : Type 0 where
  pub is_dir : String → Result String Bool
  pub read_file : String → Result String String

unfoldable pub check_file : Files → String → GoError
check_file files path = if path == "" then some "file is undefined" else elim (files.is_dir path) [
  | err e ↦ some ("can't get info for " +++ path +++ ": " +++ e)
  | ok dir ↦ if dir then some (path +++ " is not a file") else none
]

-- The decoder fills the object; unknown fields are errors.
unfoldable pub parse_yaml_file {ℓ} :
    {A : Type ℓ} → Files → (String → Result String A) → String → Result String A
parse_yaml_file files decode path = elim (check_file files path) [
  | some e ↦ err e
  | none ↦ elim (files.read_file path) [
    | err e ↦ err ("can't read file " +++ path +++ ": " +++ e)
    | ok text ↦ elim (decode text) [
      | err e ↦ err ("can't parse file content " +++ path +++ ": " +++ e)
      | ok object ↦ ok object
    ]
  ]
]

unfoldable pub parse_bool : String → Option Bool
parse_bool s =
    if s == "1" || s == "t" || s == "T" || s == "true" || s == "TRUE" || s == "True"
    then some true
    else if s == "0" || s == "f" || s == "F" || s == "false" || s == "FALSE" || s == "False"
    then some false
    else none

-- `Contains` and `FindFirstFromSlice`, over a comparison and a filter.
unfoldable pub contains {ℓ} : {A : Type ℓ} → (A → A → Bool) → List A → A → Bool
contains equal [] v = false
contains equal (e ∷ s) v = if equal v e then true else contains equal s v

unfoldable pub find_first_from_slice {ℓ} : {A : Type ℓ} → List A → (A → Bool) → Option A
find_first_from_slice [] filter = none
find_first_from_slice (value ∷ objects) filter =
    if filter value then some value else find_first_from_slice objects filter
