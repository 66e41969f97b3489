-- ===== src/Collector/Admin.antt =====
-- `PUT /config` and `POST /config/reload` of src/rastir/server/app.py. The configuration file, the
-- environment and what the loader calls are outside; the file of runtime overrides is read back only
-- if the variable RASTIR_SERVER_RUNTIME_CONFIG names it, and written at its default path else.
use rastir.Base.{
  String, Bool, true, false, ◌||◌, Option, none, some, List, [], ◌∷◌, str_eq, if◌then◌else◌,
}
use rastir.Dict.{Dict}
use rastir.Config.{ServerConfig}
use rastir.Config.Validation.{Verdict, accepted, invalid, validate_config}
use rastir.Config.Loading.{Setting, File, Outside}
use rastir.Config.Sections.{load_config}
use rastir.Config.Overrides.{merge}
use rastir.Collector.{Collector}

-- The body of the request; a section is `none` where it is no object.
pub data Body : Type 0 where
  no_json no_object : Body
  sections : List (String × Option (Dict Setting)) → Body

pub data Answer : Type 0 where
  ok bad_request failed : Answer

-- the process that serves: its loader, its configuration file, and whether the variable is set
pub record Host : Type 0 where
  pub outside : Outside
  pub yaml : File
  pub variable_set : Bool

abbrev pub is_allowed : String → Bool
is_allowed key =
    str_eq key "sampling"
    || str_eq key "evaluation"
    || str_eq key "rate_limit"
    || str_eq key "backpressure"
    || str_eq key "logging"
    || str_eq key "limits"
    || str_eq key "sre"

-- the two loops over the body; the sections of a body that passes them
unfoldable pub check_keys : List (String × Option (Dict Setting)) → Bool
check_keys [] = true
check_keys ((key, values) ∷ body) =
    let rest = check_keys body in if is_allowed key then rest else false

abbrev pub with_section :
    String
    → Option (Dict Setting)
    → Option (List (String × Dict Setting))
    → Option (List (String × Dict Setting))
with_section key (some values) (some rest) = some ((key, values) ∷ rest)
with_section key values rest = none

unfoldable pub check_objects :
    List (String × Option (Dict Setting)) → Option (List (String × Dict Setting))
check_objects [] = some []
check_objects ((key, values) ∷ body) = with_section key values (check_objects body)

abbrev pub answer_of : Option ServerConfig → Answer
answer_of none = failed
answer_of (some cfg) = ok

abbrev pub or_config : ServerConfig → Option ServerConfig → ServerConfig
or_config cfg none = cfg
or_config cfg (some cfg') = cfg'

abbrev pub if_valid : Verdict → ServerConfig → Option ServerConfig
if_valid accepted cfg = some cfg
if_valid (invalid problems) cfg = none

module _ (host : Host) where
  -- The overrides that the loader reads.
  abbrev pub runtime_data : File → File
  runtime_data overrides = if host.variable_set then overrides else []

  -- `load_config(cfg_path)` and `validate_config(new_cfg)`; `none` is an exception of one of them.
  unfoldable pub new_config : File → Option ServerConfig
  new_config overrides = elim (load_config host.outside host.yaml (runtime_data overrides)) [
    | none ↦ none
    | some cfg ↦ if_valid (validate_config host.outside.upper cfg) cfg
  ]

  unfoldable pub reload_config : Collector → Answer × Collector
  reload_config c =
      let cfg = new_config c.overrides in
      (answer_of cfg, record c { config = or_config c.config cfg })

  -- what follows the checks of the body: the file is written before the new configuration is loaded.
  unfoldable pub write_config : List (String × Dict Setting) → Collector → Answer × Collector
  unfolding reload_config
  write_config body c = elim (merge body c.overrides) [
    | none ↦ (failed, c)
    | some overrides ↦ reload_config (record c { overrides = overrides })
  ]

  unfoldable pub update_sections :
      List (String × Option (Dict Setting)) → Collector → Answer × Collector
  unfolding check_keys check_objects write_config
  update_sections body c =
      if check_keys body
      then elim (check_objects body) [
        | none ↦ (bad_request, c)
        | some checked ↦ write_config checked c
      ]
      else (bad_request, c)

  unfoldable pub update_config : Body → Collector → Answer × Collector
  unfolding update_sections
  update_config no_json c = (bad_request, c)
  update_config no_object c = (bad_request, c)
  update_config (sections body) c = update_sections body c
