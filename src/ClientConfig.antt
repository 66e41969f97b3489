-- ===== src/ClientConfig.antt =====
-- The configuration of the client library, src/rastir/config.py, with `start_exporter` and
-- `stop_exporter` of src/rastir/transport.py. The environment, Python's conversions and what a
-- pricing file holds are outside; the environment does not change between two readings. Settings
-- that are floats are in millionths. An exporter runs until it is stopped.
pub mod Settings
pub mod Lifecycle
use rastir.Base.{
  String, Bool, true, false, not, ◌||◌, Option, none, some, List, [], ◌∷◌, str_eq, if◌then◌else◌,
}
use rastir.Base.Integers.{ℤ, pos}
use rastir.Dict
use rastir.Dict.{Dict, is_some}
use rastir.Exec.{finished}
use rastir.Pricing
use rastir.ClientConfig.Settings.{
  Environment, ExporterConfig, EvaluationConfig, CostConfig, GlobalConfig, Arguments, resolve,
  resolve_text, resolve_int, resolve_float, resolve_bool, resolve_types, resolve_alert,
  default_types, or_default_text,
}

-- `GlobalConfig.global_labels`
unfoldable pub global_labels : GlobalConfig → Dict String
global_labels c = elim c.version [
  | none ↦ ("service", c.service) ∷ ("env", c.env) ∷ []
  | some version ↦
      if str_eq version ""
      then ("service", c.service) ∷ ("env", c.env) ∷ []
      else ("service", c.service) ∷ ("env", c.env) ∷ ("version", version) ∷ []
]

-- the module's variables, and the exporter that runs, by its configuration
pub record Module : Type 0 where
  pub global_config : Option GlobalConfig
  pub initialized : Bool
  pub pricing_registry : Option Pricing.Registry
  pub exporter : Option GlobalConfig

abbrev pub unconfigured : Module
unconfigured = record {
  global_config = none;
  initialized = false;
  pricing_registry = none;
  exporter = none;
}

-- `exporter.enabled`
abbrev pub is_enabled : ExporterConfig → Bool
is_enabled c = is_some c.push_url

-- `start_exporter`, with the exporter that runs
abbrev pub start_beside : Option GlobalConfig → GlobalConfig → Module → Module
start_beside (some running) config m = m
start_beside none config m =
    if is_enabled config.exporter then record m { exporter = some config } else m

unfoldable pub start_exporter : GlobalConfig → Module → Module
start_exporter config m = start_beside m.exporter config m

abbrev pub stop_exporter : Module → Module
stop_exporter m = record m { exporter = none }

-- What `configure` does: RuntimeError, another exception, or a configuration.
pub data Configured : Type 0 where
  already_called failed : Configured
  configured : GlobalConfig → Configured

module _ (outside : Environment) where
  unfoldable pub exporter_config : Arguments → ExporterConfig
  unfolding resolve resolve_int resolve_float
  exporter_config a = record {
    push_url = resolve outside a.push_url "RASTIR_PUSH_URL" none;
    api_key = resolve outside a.api_key "RASTIR_API_KEY" none;
    batch_size = resolve_int outside a.batch_size "RASTIR_BATCH_SIZE" (pos 100);
    flush_interval = resolve_int outside a.flush_interval "RASTIR_FLUSH_INTERVAL" (pos 5);
    timeout = resolve_int outside a.timeout "RASTIR_TIMEOUT" (pos 5);
    max_retries = resolve_int outside a.max_retries "RASTIR_MAX_RETRIES" (pos 3);
    retry_backoff = resolve_float outside a.retry_backoff "RASTIR_RETRY_BACKOFF" (pos 500000);
    shutdown_timeout =
        resolve_float outside a.shutdown_timeout "RASTIR_SHUTDOWN_TIMEOUT" (pos 5000000);
  }

  unfoldable pub evaluation_config : Arguments → EvaluationConfig
  unfolding resolve_bool resolve_types
  evaluation_config a = record {
    enabled = resolve_bool outside a.evaluation_enabled "RASTIR_EVALUATION_ENABLED" false;
    evaluation_types = resolve_types outside a.evaluation_types;
    capture_prompt = resolve_bool outside a.capture_prompt "RASTIR_CAPTURE_PROMPT" true;
    capture_completion = resolve_bool outside a.capture_completion "RASTIR_CAPTURE_COMPLETION" true;
  }

  unfoldable pub cost_config : Arguments → CostConfig
  unfolding resolve resolve_bool resolve_alert
  cost_config a = record {
    enabled = resolve_bool outside a.enable_cost_calculation "RASTIR_ENABLE_COST_CALCULATION" false;
    pricing_profile =
        or_default_text
          (resolve outside a.pricing_profile "RASTIR_PRICING_PROFILE" (some "default")) "default";
    pricing_source = resolve outside a.pricing_source "RASTIR_PRICING_SOURCE" none;
    max_cost_per_call_alert = resolve_alert outside a.max_cost_per_call_alert (pos 0);
  }

  -- what `configure` writes to `_global_config`
  unfoldable pub resolved_config : Arguments → GlobalConfig
  unfolding resolve resolve_text exporter_config evaluation_config cost_config resolve_bool
  resolved_config a = record {
    service = resolve_text outside a.service "RASTIR_SERVICE" "unknown";
    env = resolve_text outside a.env "RASTIR_ENV" "development";
    version = resolve outside a.version "RASTIR_VERSION" none;
    exporter = exporter_config a;
    evaluation = evaluation_config a;
    cost = cost_config a;
    enable_ttft = resolve_bool outside a.enable_ttft "RASTIR_ENABLE_TTFT" true;
  }

  -- `if pricing_file:`, and the file
  abbrev pub file_at : Option String → Pricing.Source
  file_at none = none
  file_at (some path) = if str_eq path "" then none else some (outside.pricing_file path)

  -- `PricingRegistry(pricing_file=...)`, or `none` where it raises
  abbrev pub new_registry : Option String → Option (Unit {0}) × Pricing.Registry
  new_registry source = Pricing.init outside.lower outside.pricing_data (file_at source) []

  -- the end of `configure`, with the registry as it was built
  abbrev pub after_pricing :
      GlobalConfig → Module → Option (Unit {0}) × Pricing.Registry → Configured × Module
  after_pricing config m (none, registry) = (failed, m)
  after_pricing config m (some done, registry) =
      (configured config, start_exporter config (record m { pricing_registry = some registry }))

  -- behind the guard
  unfoldable pub apply_config : GlobalConfig → Module → Configured × Module
  unfolding start_exporter
  apply_config config m =
      if config.cost.enabled
      then after_pricing config m (new_registry config.cost.pricing_source)
      else (configured config, start_exporter config m)

  unfoldable pub configure : Arguments → Module → Configured × Module
  unfolding apply_config resolved_config
  configure a m =
      if m.initialized
      then (already_called, m)
      else apply_config (resolved_config a)
          (record m { global_config = some (resolved_config a); initialized = true })

  -- what `get_config` reads from the environment; the other sections are the defaults of the class.
  unfoldable pub auto_config : GlobalConfig
  unfolding resolve resolve_text resolve_int resolve_float
  auto_config = record {
    service = resolve_text outside none "RASTIR_SERVICE" "unknown";
    env = resolve_text outside none "RASTIR_ENV" "development";
    version = resolve outside none "RASTIR_VERSION" none;
    exporter = record {
      push_url = resolve outside none "RASTIR_PUSH_URL" none;
      api_key = resolve outside none "RASTIR_API_KEY" none;
      batch_size = resolve_int outside none "RASTIR_BATCH_SIZE" (pos 100);
      flush_interval = resolve_int outside none "RASTIR_FLUSH_INTERVAL" (pos 5);
      timeout = resolve_int outside none "RASTIR_TIMEOUT" (pos 5);
      max_retries = resolve_int outside none "RASTIR_MAX_RETRIES" (pos 3);
      retry_backoff = resolve_float outside none "RASTIR_RETRY_BACKOFF" (pos 500000);
      shutdown_timeout = resolve_float outside none "RASTIR_SHUTDOWN_TIMEOUT" (pos 5000000);
    };
    evaluation = record {
      enabled = false;
      evaluation_types = default_types;
      capture_prompt = true;
      capture_completion = true;
    };
    cost = record {
      enabled = false;
      pricing_profile = "default";
      pricing_source = none;
      max_cost_per_call_alert = none;
    };
    enable_ttft = true;
  }

  unfoldable pub get_config : Module → GlobalConfig × Module
  unfolding auto_config
  get_config m = elim m.global_config [
    | some config ↦ (config, m)
    | none ↦ (auto_config, record m { global_config = some auto_config; initialized = true })
  ]

-- `reset_config`
unfoldable pub reset_config : Module → Module
reset_config m = record (stop_exporter m) {
  global_config = none;
  initialized = false;
  pricing_registry = none;
}
