-- ===== src/ClientConfig/Settings.antt =====
-- The sections of the configuration, and how a setting is resolved.
use rastir.Base.{
  String, Bool, false, not, ◌||◌, Option, none, some, List, [], ◌∷◌, str_eq, if◌then◌else◌,
}
use rastir.Base.Integers.{ℤ}
use rastir.Pricing
use rastir.Text.{text_strip, text_split}

pub record ExporterConfig : Type 0 where
  pub push_url : Option String
  pub api_key : Option String
  pub batch_size : ℤ
  pub flush_interval : ℤ
  pub timeout : ℤ
  pub max_retries : ℤ
  pub retry_backoff : ℤ
  pub shutdown_timeout : ℤ

pub record EvaluationConfig : Type 0 where
  pub enabled : Bool
  pub evaluation_types : List String
  pub capture_prompt : Bool
  pub capture_completion : Bool

pub record CostConfig : Type 0 where
  pub enabled : Bool
  pub pricing_profile : String
  pub pricing_source : Option String
  pub max_cost_per_call_alert : Option ℤ

pub record GlobalConfig : Type 0 where
  pub service : String
  pub env : String
  pub version : Option String
  pub exporter : ExporterConfig
  pub evaluation : EvaluationConfig
  pub cost : CostConfig
  pub enable_ttft : Bool

-- the parameters of `configure`
pub record Arguments : Type 0 where
  pub service : Option String
  pub env : Option String
  pub version : Option String
  pub push_url : Option String
  pub api_key : Option String
  pub batch_size : Option ℤ
  pub flush_interval : Option ℤ
  pub timeout : Option ℤ
  pub max_retries : Option ℤ
  pub retry_backoff : Option ℤ
  pub shutdown_timeout : Option ℤ
  pub evaluation_enabled : Option Bool
  pub evaluation_types : Option (List String)
  pub capture_prompt : Option Bool
  pub capture_completion : Option Bool
  pub enable_cost_calculation : Option Bool
  pub pricing_profile : Option String
  pub pricing_source : Option String
  pub max_cost_per_call_alert : Option ℤ
  pub enable_ttft : Option Bool

-- `os.environ.get`, `int`, `float` (in millionths), `str.lower`, and what JSON texts hold: the
-- variable RASTIR_PRICING_DATA, and the file at a path.
pub record Environment : Type 0 where
  pub environ : String → Option String
  pub parse_int : String → Option ℤ
  pub parse_float : String → Option ℤ
  pub lower : String → String
  pub pricing_data : Pricing.Source
  pub pricing_file : String → Option (List (String × Pricing.ProviderData))

abbrev pub or_value {ℓ} : {A : Type ℓ} → Option A → A → A
or_value none later = later
or_value (some a) later = a

-- `resolved or "default"`
abbrev pub or_default_text : Option String → String → String
or_default_text none later = later
or_default_text (some s) later = if str_eq s "" then later else s

-- the default behind `try: int(...) except ValueError`, and nothing without a text
abbrev pub parsed {ℓ} : {A : Type ℓ} → (String → Option A) → Option String → A → A
parsed parse none default = default
parsed parse (some s) default = or_value (parse s) default

-- `env_val is not None and env_val.strip()`, stripped
abbrev pub stripped : Option String → Option String
stripped none = none
stripped (some s) = if str_eq (text_strip s) "" then none else some (text_strip s)

abbrev pub is_on : String → Bool
is_on s = str_eq s "1" || str_eq s "true" || str_eq s "yes" || str_eq s "on"

-- the parts that are not blank, stripped
unfoldable pub kept_types : List String → List String
kept_types [] = []
kept_types (s ∷ rest) =
    let kept = kept_types rest in if str_eq (text_strip s) "" then kept else text_strip s ∷ kept

abbrev pub is_set : Option String → Bool
is_set none = false
is_set (some s) = not (str_eq s "")

abbrev pub default_types : List String
default_types = "hallucination" ∷ "relevance" ∷ []

abbrev pub types_of : Option String → List String
types_of none = default_types
types_of (some s) = if str_eq s "" then default_types else kept_types (text_split b',' s)

module _ (outside : Environment) where
  unfoldable pub env_value : String → Option String
  env_value name = stripped (outside.environ name)

  -- `_resolve`
  unfoldable pub resolve : Option String → String → Option String → Option String
  unfolding env_value
  resolve (some s) name default = some s
  resolve none name default = elim (env_value name) [ none ↦ default | some s ↦ some s ]

  -- `_resolve` with a default that is a text
  unfoldable pub resolve_text : Option String → String → String → String
  unfolding resolve
  resolve_text explicit name default = or_value (resolve explicit name (some default)) default

  -- `_resolve_int`
  unfoldable pub resolve_int : Option ℤ → String → ℤ → ℤ
  unfolding env_value
  resolve_int (some n) name default = n
  resolve_int none name default = parsed outside.parse_int (env_value name) default

  -- `_resolve_float`
  unfoldable pub resolve_float : Option ℤ → String → ℤ → ℤ
  unfolding env_value
  resolve_float (some n) name default = n
  resolve_float none name default = parsed outside.parse_float (env_value name) default

  -- `_resolve_bool`
  unfoldable pub resolve_bool : Option Bool → String → Bool → Bool
  unfolding env_value
  resolve_bool (some b) name default = b
  resolve_bool none name default = elim (env_value name) [
    | none ↦ default
    | some s ↦ is_on (outside.lower s)
  ]

  -- the list of evaluation types; an empty variable does not count, a blank one gives no types.
  unfoldable pub resolve_types : Option (List String) → List String
  unfolding kept_types
  resolve_types (some types) = types
  resolve_types none = types_of (outside.environ "RASTIR_EVALUATION_TYPES")

  -- the cost that raises an alert, where an argument or a variable that is not empty is given
  unfoldable pub resolve_alert : Option ℤ → ℤ → Option ℤ
  unfolding resolve_float
  resolve_alert (some n) default = some n
  resolve_alert none default =
      if is_set (outside.environ "RASTIR_MAX_COST_PER_CALL_ALERT")
      then some (resolve_float none "RASTIR_MAX_COST_PER_CALL_ALERT" default)
      else none
