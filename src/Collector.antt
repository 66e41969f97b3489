-- ===== src/Collector.antt =====
-- The server as src/rastir/server/app.py puts it together: `create_app` with the components that it
-- builds from the configuration. The patterns of the redactor are compiled outside, the log file is
-- opened outside, and the exporter's and the histograms' libraries take their settings or raise. A
-- tick of the clocks is a nanosecond.
pub mod Routes
pub mod Requests
pub mod Admin
pub mod Updates
pub mod Factories
pub mod Startup
pub mod Sound
pub mod Runs
pub mod Stopped
use mathlib.Core.Option
use rastir.Base.{
  ℕ, ◌*◌, ◌^◌, String, Bool, true, false, Option, none, some, List, [], ◌∷◌, ◌++◌, map,
  if◌then◌else◌, str_eq,
}
use rastir.Base.Integers.{ℤ, magnitude, times}
use rastir.Dict
use rastir.Dict.{Dict}
use rastir.Config.{
  ServerConfig, LimitsSection, RedactionSection, EvaluationSection, SreAgentConfig, SreSection,
  ExporterSection, HistogramSection, LoggingSection,
}
use rastir.Config.Validation.{Verdict, accepted, invalid, validate_config}
use rastir.Config.Loading.{File}
use rastir.Evaluators
use rastir.Evaluators.{Evaluator, EvaluatorRegistry, register}
use rastir.EvaluationQueue
use rastir.EvaluationQueue.{EvaluationQueue}
use rastir.TraceStore
use rastir.TraceStore.{TraceStore}
use rastir.RateLimiter
use rastir.RateLimiter.{RateLimiter}
use rastir.Redaction.{Redactor, no_op_redactor, regex_redactor, compiled}
use rastir.Metrics.{Metrics, Sample, Update, set, default_caps}
use rastir.Span.{Span}
use rastir.Queue.{Queue}
use rastir.Queue
use rastir.Ingestion.{Ingestion, Settings}

-- `app.state`; the worker's settings are what the components were built with.
pub record Collector : Type 0 where
  pub config : ServerConfig
  pub worker : Ingestion
  pub settings : Settings
  pub rate_limiter : Option RateLimiter
  pub evaluators : Option EvaluatorRegistry
  -- the file of runtime overrides
  pub overrides : File

-- What the factories call and do not implement.
pub record Library : Type 0 where
  pub upper : String → String
  pub built_in : List (String → String)
  pub compile : String × String → Option (String → String)
  -- whether the log file can be opened
  pub can_log : String → Bool
  -- whether a Prometheus histogram takes its buckets
  pub takes_buckets : List ℤ → Bool
  pub otlp_installed : Bool
  -- whether OpenTelemetry's exporter and processor take an endpoint, a bound of the queue, a batch
  -- size and a delay in milliseconds
  pub takes_exporter : String → ℤ → ℤ → ℤ → Bool

-- `configure_logging`, the console handler left out; `false` is an exception.
unfoldable pub configure_logging : Library → LoggingSection → Bool
configure_logging lib l = elim l.log_file [
  | none ↦ true
  | some file ↦ if str_eq file "" then true else lib.can_log file
]

-- `_build_redactor`
unfoldable pub build_redactor : Library → RedactionSection → Redactor
unfolding no_op_redactor regex_redactor compiled
build_redactor lib r =
    if r.enabled
    then regex_redactor (compiled lib.built_in (map lib.compile r.custom_patterns))
        (magnitude r.max_text_length)
    else no_op_redactor

abbrev pub toxicity : EvaluationSection → Evaluator
toxicity e = record {
  name = "toxicity";
  evaluator_model = e.judge_model;
  evaluator_provider = e.judge_provider;
}

abbrev pub hallucination : EvaluationSection → Evaluator
hallucination e = record {
  name = "hallucination";
  evaluator_model = e.judge_model;
  evaluator_provider = e.judge_provider;
}

-- the two built-in evaluators
unfoldable pub build_registry : EvaluationSection → Option EvaluatorRegistry
build_registry e =
    elim (register (toxicity e) (Evaluators.init (magnitude e.max_evaluation_types))) [
      | none ↦ none
      | some r ↦ register (hallucination e) r
    ]

abbrev pub both {ℓ} : {A B : Type ℓ} → Option A → Option B → Option (Option A × Option B)
both (some a) (some b) = some (some a, some b)
both _ _ = none

-- `_build_evaluation_components`; `none` is an exception.
unfoldable pub build_evaluation :
    EvaluationSection → Option (Option EvaluationQueue × Option EvaluatorRegistry)
unfolding build_registry
build_evaluation e =
    if e.enabled
    then both (EvaluationQueue.init (magnitude e.queue_size) e.drop_policy) (build_registry e)
    else some (none, none)

unfoldable pub caps_of : LimitsSection → Dict ℕ
caps_of l = Dict.put "error_type" (magnitude l.cardinality_error_type) (
    Dict.put "agent" (magnitude l.cardinality_agent) (
      Dict.put "tool_name" (magnitude l.cardinality_tool_name) (
        Dict.put "provider" (magnitude l.cardinality_provider)
          (Dict.put "model" (magnitude l.cardinality_model) default_caps))))

abbrev pub or_number : ℤ → Option ℤ → ℤ
or_number default none = default
or_number default (some n) = n

abbrev pub gauge : String → String → ℤ → Sample
gauge metric agent n = record {
  metric = metric;
  labels = ("agent", agent) ∷ [];
  update = set (magnitude n);
  exemplar = none;
}

-- the gauges of one agent, with the defaults for what it leaves out
abbrev pub agent_gauges : SreSection → String → SreAgentConfig → List Sample
agent_gauges s name a =
    gauge "rastir_slo_error_rate" name (or_number s.default_slo_error_rate a.slo_error_rate)
    ∷ gauge "rastir_cost_budget_usd" name (or_number s.default_cost_budget_usd a.cost_budget_usd)
    ∷ []

unfoldable pub sre_gauges : SreSection → Dict SreAgentConfig → List Sample
sre_gauges s [] = []
sre_gauges s ((name, a) ∷ agents) = agent_gauges s name a ++ sre_gauges s agents

-- the branch for an enabled `sre` section
unfoldable pub sre_samples : SreSection → List Sample
unfolding sre_gauges
sre_samples s =
    if s.enabled
    then gauge "rastir_slo_error_rate" "unknown" s.default_slo_error_rate
      ∷ gauge "rastir_cost_budget_usd" "unknown" s.default_cost_budget_usd
      ∷ sre_gauges s s.agents
    else []

unfoldable pub build_metrics : ServerConfig → Metrics
unfolding caps_of sre_samples
build_metrics c = record {
  max_label_len = magnitude c.limits.max_label_value_length;
  caps = caps_of c.limits;
  exemplars_enabled = c.exemplars.enabled;
  trace_id_format = c.exemplars.trace_id_format;
  models = [];
  providers = [];
  tools = [];
  agents = [];
  error_types = [];
  pricing_profiles = [];
  guardrail_ids = [];
  samples = sre_samples c.sre;
  rate_spans = 0;
  trace_epoch_cache = [];
}

unfoldable pub build_store : ServerConfig → Option TraceStore
build_store c =
    if c.trace_store.enabled
    then some (
        TraceStore.init (magnitude c.limits.max_traces)
          (magnitude c.trace_store.max_spans_per_trace)
          (magnitude c.trace_store.ttl_seconds * 10 ^ 9))
    else none

-- whether `MetricsRegistry` can build its histograms; `false` is an exception.
unfoldable pub takes_histograms : Library → HistogramSection → Bool
takes_histograms lib h =
    if lib.takes_buckets h.duration_buckets then lib.takes_buckets h.tokens_buckets else false

-- The exporter, with the spans that it has taken; `none` is an exception, since only a missing
-- library is caught.
unfoldable pub build_exporter : Library → ExporterSection → Option (Option (List Span))
build_exporter lib e = elim e.otlp_endpoint [
  | none ↦ some none
  | some endpoint ↦
      if lib.otlp_installed
      then (if lib.takes_exporter endpoint (times 10 e.batch_size) e.batch_size
            (times 1000 e.flush_interval)
          then some (some [])
          else none)
      else some none
]

unfoldable pub build_limiter : ServerConfig → Option RateLimiter
build_limiter c =
    if c.rate_limit.enabled
    then some (
        RateLimiter.init (magnitude c.rate_limit.per_ip_rpm)
          (magnitude c.rate_limit.per_service_rpm))
    else none

unfoldable pub build_settings : Library → ServerConfig → Settings
unfolding build_redactor
build_settings lib c = record {
  sampling_rate = magnitude c.sampling.rate;
  soft_limit_pct = magnitude c.backpressure.soft_limit_pct;
  mode = c.backpressure.mode;
  redactor = some (build_redactor lib c.redaction);
  drop_on_redaction_failure = c.redaction.drop_on_failure;
  default_sample_rate = magnitude c.evaluation.default_sample_rate;
  default_timeout_ms = magnitude c.evaluation.default_timeout_ms;
}

unfoldable pub build_worker : ServerConfig → Option (List Span) → Option EvaluationQueue → Ingestion
unfolding build_metrics build_store
build_worker c otlp eval_queue = record {
  metrics = build_metrics c;
  trace_store = build_store c;
  queue = Queue.empty (magnitude c.limits.max_queue_size);
  soft_warned = false;
  otlp = otlp;
  eval_queue = eval_queue;
  calls = 0;
}

unfoldable pub components :
    Library
    → ServerConfig
    → File
    → Option (List Span)
    → Option EvaluationQueue × Option EvaluatorRegistry
    → Collector
unfolding build_worker build_settings build_limiter
components lib c overrides otlp (eval_queue, evaluators) = record {
  config = c;
  worker = build_worker c otlp eval_queue;
  settings = build_settings lib c;
  rate_limiter = build_limiter c;
  evaluators = evaluators;
  overrides = overrides;
}

-- `_build_components`, with the overrides that are on disk
unfoldable pub build_components : Library → ServerConfig → File → Option Collector
unfolding build_evaluation build_exporter takes_histograms components
build_components lib c overrides = elim (build_exporter lib c.exporter) [
  | none ↦ none
  | some otlp ↦
      if takes_histograms lib c.histograms
      then Option.map (components lib c overrides otlp) (build_evaluation c.evaluation)
      else none
]

abbrev pub if_accepted {ℓ} : {A : Type ℓ} → Verdict → Option A → Option A
if_accepted accepted a = a
if_accepted (invalid problems) a = none

-- `create_app`
unfoldable pub create_app : Library → ServerConfig → File → Option Collector
unfolding configure_logging build_components
create_app lib c overrides =
    if_accepted (validate_config lib.upper c)
      (if configure_logging lib c.logging then build_components lib c overrides else none)
