-- ===== src/Config.antt =====
-- The settings of src/utils/config.py: the check of values against the schema, and ConfigManager, whose
-- settings are the defaults under the local file under the overlay that the cloud has set.
pub mod Schema
pub mod Defaults
mod Valid
mod Local
mod Whole
mod Tests
use wqm.Prelude.{
  ℕ, ◌-◌, ◌^◌, leb, Bool, true, false, not, ◌&&◌, ◌||◌, Option, none, some, List, [], ◌∷◌, ◌++◌,
  String, if◌then◌else◌,
}
use wqm.Prelude.Int.{ℤ, pos, ◌*ℤ◌, leb_ℤ, abs}
use wqm.Prelude.Texts.{str_eq, has_name, find, put_name}
use wqm.Config.Schema.{Form, flags, wholes, decimals, texts, SettingSpec, settings_schema}
use wqm.Config.Defaults.{Value, flag, whole, decimal, nan, text, opaque, default_settings}
use Prim.Native.String.{count}

pub data Error : Type 0 where
  unknown_key not_remote bad_value : String → Error
  persist_failed : Error

abbrev at_least : Option ℤ → ℤ → Bool
at_least none v = true
at_least (some low) v = leb_ℤ low v

abbrev at_most : Option ℤ → ℤ → Bool
at_most none v = true
at_most (some high) v = leb_ℤ v high

abbrev pub fits : Option ℕ → String → Bool
fits none s = true
fits (some n) s = leb (count s) n

abbrev pub is_choice : Option (List String) → String → Bool
is_choice none s = true
is_choice (some names) s = has_name s names

abbrev pub in_range : Option ℤ → Option ℤ → ℤ → Bool
in_range low high v = at_least low v && at_most high v

-- The value as it is accepted, a whole number widened where a decimal is expected; none is an error.
-- NaN is neither below nor above a bound, so it passes.
unfoldable pub check_value : Form → Value → Option Value
check_value flags (flag b) = some (flag b)
check_value (wholes low high) (whole n) = if in_range low high n then some (whole n) else none
check_value (decimals low high) (whole n) =
    let v = n *ℤ pos 10000 in if in_range low high v then some (decimal v) else none
check_value (decimals low high) (decimal v) = if in_range low high v then some (decimal v) else none
check_value (decimals low high) nan = some nan
check_value (texts size choices) (text s) =
    if fits size s && is_choice choices s then some (text s) else none
check_value _ _ = none

abbrev pub Values : Type 0
Values = List (String × Value)

-- What a setting of a form is: also NaN is a number.
unfoldable pub holds : Form → Value → Bool
holds flags (flag b) = true
holds (wholes low high) (whole n) = in_range low high n
holds (decimals low high) (decimal v) = in_range low high v
holds (decimals low high) nan = true
holds (texts size choices) (text s) = fits size s && is_choice choices s
holds _ _ = false

unfoldable pub judge_value : String → Option Value → Values × List Error → Values × List Error
judge_value key none rest = (rest.0, bad_value key ∷ rest.1)
judge_value key (some v) rest = ((key, v) ∷ rest.0, rest.1)

unfoldable pub judge_key :
    Bool → String → Value → Option SettingSpec → Values × List Error → Values × List Error
judge_key remote key value none rest = (rest.0, unknown_key key ∷ rest.1)
judge_key remote key value (some s) rest =
    if remote && not s.remote
    then (rest.0, not_remote key ∷ rest.1)
    else judge_value key (check_value s.form value) rest

-- From this on a whole number is too large for `float`, which raises OverflowError.
abbrev pub float_limit : ℕ
float_limit = 2 ^ 1024 - 2 ^ 970

abbrev pub too_large : Form → Value → Bool
too_large (decimals low high) (whole n) = leb float_limit (abs n)
too_large _ _ = false

abbrev pub key_overflows : Bool → Value → Option SettingSpec → Bool
key_overflows remote value none = false
key_overflows remote value (some s) = not (remote && not s.remote) && too_large s.form value

-- Whether `validate_values` raises, at a key that it comes to check.
unfoldable pub overflows : Bool → Values → Bool
overflows remote [] = false
overflows remote ((key, value) ∷ values) =
    key_overflows remote value (find key settings_schema) || overflows remote values

-- The values that are accepted, in order, and the errors, where it does not raise.
unfoldable pub validate_values : Bool → Values → Values × List Error
validate_values remote [] = ([], [])
validate_values remote ((key, value) ∷ values) =
    judge_key remote key value (find key settings_schema) (validate_values remote values)

unfoldable pub hot_keys : Values → List String
hot_keys [] = []
hot_keys ((key, value) ∷ values) = elim (find key settings_schema) [
  | none ↦ hot_keys values
  | some s ↦ let rest = hot_keys values in if s.hot then key ∷ rest else rest
]

unfoldable pub set_all : Values → Values → Values
set_all [] s = s
set_all ((key, value) ∷ values) s = set_all values (put_name key value s)

-- The fields of Settings that the schema has not are taken from the local file as they are.
unfoldable pub tolerate : Option SettingSpec → String → Value → Values → Values
tolerate none key value rest = if str_eq key "retry_delays" then (key, value) ∷ rest else rest
tolerate (some s) key value rest = rest

unfoldable pub tolerated : Values → Values
tolerated [] = []
tolerated ((key, value) ∷ values) = tolerate (find key settings_schema) key value (tolerated values)

-- A file that is missing, cannot be read or is no mapping is none.
unfoldable pub apply_file : Option Values → Values → Values
apply_file none s = s
apply_file (some values) s = set_all ((validate_values false values).0 ++ tolerated values) s

pub record Overlay : Type 0 where
  pub version : Option ℕ
  pub values : Values

-- Inside a try clause: where the check raises nothing is set.
unfoldable pub apply_remote_overlay : Option Overlay → Values → Option ℕ × Values
apply_remote_overlay none s = (none, s)
apply_remote_overlay (some o) s =
    if overflows true o.values
    then (none, s)
    else (o.version, set_all (validate_values true o.values).0 s)

-- The files and what was made of them.
pub record Manager : Type 0 where
  pub base : Option Values
  pub overlay : Option Overlay
  pub settings : Values
  pub remote_version : Option ℕ

-- The check of the local file stands outside every try clause.
abbrev pub base_overflows : Option Values → Bool
base_overflows none = false
base_overflows (some values) = overflows false values

-- None where it raises, which leaves the manager as it was.
unfoldable pub reload : Manager → Option Manager
reload m =
    let out = apply_remote_overlay m.overlay (apply_file m.base default_settings) in
    if base_overflows m.base
    then none
    else some (record m { settings = out.1; remote_version = out.0 })

-- What a call returns, or that it raises.
pub data Applied : Type 0 where
  returned : Bool → List Error → Applied
  raised : Applied

abbrev pub reloaded : Manager → Option Manager → Applied × Manager
reloaded m none = (raised, m)
reloaded m (some m') = (returned true [], m')

-- The overlay is on the disk before the settings are built again.
unfoldable pub persist : Bool → ℕ → Values × List Error → Manager → Applied × Manager
persist writes version (accepted, e ∷ es) m = (returned false (e ∷ es), m)
persist false version (accepted, []) m = (returned false (persist_failed ∷ []), m)
persist true version (accepted, []) m =
    let m' = record m { overlay = some (record { version = some version; values = accepted }) } in
    reloaded m' (reload m')

-- Whether the file can be written is an argument.
unfoldable pub apply_remote_config : Bool → ℕ → Values → Manager → Applied × Manager
apply_remote_config writes version values m =
    if overflows true values
    then (raised, m)
    else persist writes version (validate_values true values) m
