-- ===== src/Config/Loading.antt =====
-- `load_config` of src/rastir/server/config.py. The environment, the two files that are parsed as
-- YAML and Python's conversions are outside; `null` in a file is an absent value. A value of a type that the
-- field does not hold makes the loading `none`: the code goes on with it, and fails where it is used.
use Prim.Native.String.{◌++◌ as append}
use rastir.Base.{
  ℕ, ◌+◌, ◌-◌, ◌*◌, String, Bool, true, false, not, ◌||◌, Option, none, some, List, ◌==◌, str_eq,
  if◌then◌else◌,
}
use rastir.Base.Integers.{ℤ, pos, negsuc}
use rastir.Dict
use rastir.Dict.{Dict}
use rastir.Config.{SreAgentConfig}

-- A value in a file; a `real` is in millionths.
pub data Setting : Type 0 where
  null : Setting
  int real : ℤ → Setting
  flag : Bool → Setting
  text : String → Setting

-- A parsed file: `none` is a section that is no dictionary.
abbrev pub File : Type 0
File = Dict (Option (Dict Setting))

abbrev pub present : Option Setting → Option Setting
present (some null) = none
present o = o

abbrev pub in_section : String → Option (Option (Dict Setting)) → Option Setting
in_section key (some (some section)) = present (Dict.get key section)
in_section key _ = none

-- `data.get(section, {}).get(key) if isinstance(...) else None`
unfoldable pub file_value : File → String → String → Option Setting
file_value file section key = in_section key (Dict.get section file)

-- What the loader calls or reads and does not implement; `float` gives millionths. The parsed
-- bucket lists, redaction patterns and agents stand for the JSON and list parsing of their values.
pub record Outside : Type 0 where
  pub environ : String → Option String
  pub strip : String → String
  pub upper : String → String
  pub lower : String → String
  pub parse_int : String → Option ℤ
  pub parse_float : String → Option ℤ
  pub buckets : String → Option (List ℤ)
  pub custom_patterns : List (String × String)
  pub agents : Dict SreAgentConfig

-- the type of a setting, for its environment variable
pub data AsType : Type 0 where
  as_int as_bool as_str : AsType

abbrev pub or_default : Setting → Option ℤ → Setting
or_default default none = default
or_default default (some n) = int n

abbrev pub is_true : String → Bool
is_true s = str_eq s "1" || str_eq s "true" || str_eq s "yes" || str_eq s "on"

-- the first that is there
abbrev pub first_of : Option Setting → Setting → Setting
first_of none later = later
first_of (some v) later = v

-- whole numbers; a flag counts as 0 or 1.
abbrev pub to_int : Setting → Option ℤ
to_int (int n) = some n
to_int (flag true) = some (pos 1)
to_int (flag false) = some (pos 0)
to_int v = none

abbrev pub to_text : Setting → Option String
to_text (text s) = some s
to_text v = none

abbrev pub to_optional_text : Setting → Option (Option String)
to_optional_text null = some none
to_optional_text (text s) = some (some s)
to_optional_text v = none

abbrev pub is_zero : ℤ → Bool
is_zero (pos n) = n == 0
is_zero (negsuc n) = false

-- Python's truth of a value
abbrev pub to_bool : Setting → Bool
to_bool null = false
to_bool (int n) = not (is_zero n)
to_bool (real n) = not (is_zero n)
to_bool (flag b) = b
to_bool (text s) = not (str_eq s "")

abbrev pub millionths : ℤ → ℤ
millionths (pos n) = pos (n * 1000000)
millionths (negsuc n) = negsuc ((n + 1) * 1000000 - 1)

module _ (outside : Outside) where
  abbrev pub blank_to_none : Option String → Option String
  blank_to_none none = none
  blank_to_none (some s) = if str_eq (outside.strip s) "" then none else some (outside.strip s)

  -- `_env`
  unfoldable pub env : String → Option String
  env name = blank_to_none (outside.environ name)

  abbrev pub env_name : String → String → String
  env_name section key =
      if str_eq section "server"
      then append "RASTIR_SERVER_" (outside.upper key)
      else append "RASTIR_SERVER_" (append (outside.upper section) (append "_" (outside.upper key)))

  -- the branch for an environment variable
  abbrev pub env_setting : AsType → Setting → Option String → Option Setting
  env_setting type default none = none
  env_setting as_int default (some s) = some (or_default default (outside.parse_int s))
  env_setting as_bool default (some s) = some (flag (is_true (outside.lower s)))
  env_setting as_str default (some s) = some (text s)

  -- `float(v)`
  abbrev pub to_float : Setting → Option ℤ
  to_float null = none
  to_float (int n) = some (millionths n)
  to_float (real n) = some n
  to_float (flag true) = some (pos 1000000)
  to_float (flag false) = some (pos 0)
  to_float (text s) = outside.parse_float s

  -- a value that is there and that `float` takes
  abbrev pub float_of : Option Setting → Option ℤ
  float_of none = none
  float_of (some v) = to_float v

  abbrev pub float_of_env : Option String → Option ℤ
  float_of_env none = none
  float_of_env (some s) = outside.parse_float s

  abbrev pub first_float : Option ℤ → ℤ → ℤ
  first_float none later = later
  first_float (some n) later = n

  -- `yaml_data` and `runtime_data`
  module _ (yaml runtime : File) where
    -- `_get`
    unfoldable pub get : AsType → String → String → Setting → Setting
    unfolding file_value env
    get type section key default = first_of (file_value runtime section key) (
        first_of (env_setting type default (env (env_name section key)))
          (first_of (file_value yaml section key) default))

    -- `_get_float`
    unfoldable pub get_float : String → String → ℤ → ℤ
    unfolding file_value env
    get_float section key default = first_float (float_of (file_value runtime section key)) (
        first_float (float_of_env (env (env_name section key)))
          (first_float (float_of (file_value yaml section key)) default))

    abbrev pub get_int : String → String → ℕ → Option ℤ
    get_int section key default = to_int (get as_int section key (int (pos default)))

    abbrev pub get_bool : String → String → Bool → Option Bool
    get_bool section key default = some (to_bool (get as_bool section key (flag default)))

    abbrev pub get_text : String → String → String → Option String
    get_text section key default = to_text (get as_str section key (text default))

    abbrev pub get_optional_text : String → String → Option (Option String)
    get_optional_text section key = to_optional_text (get as_str section key null)
