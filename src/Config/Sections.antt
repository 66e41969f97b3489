-- ===== src/Config/Sections.antt =====
-- The sections that `load_config` of src/rastir/server/config.py puts together, with their defaults.
use rastir.Base.{true, false, Option, none, some, List, [], ◌∷◌}
use rastir.Base.Integers.{ℤ, pos}
use rastir.Config.{
  ServerConfig, ServerSection, LimitsSection, HistogramSection, TraceStoreSection, ExporterSection,
  MultiTenantSection, SamplingSection, BackpressureSection, RateLimitSection, ExemplarSection,
  ShutdownSection, LoggingSection, RedactionSection, EvaluationSection, SreSection,
}
use rastir.Config.Loading.{Outside, File, get_int, get_float, get_bool, get_text, get_optional_text}

infixl 5 ◌>>=◌
abbrev ◌>>=◌ {ℓ κ} : {A : Type ℓ} {B : Type κ} → Option A → (A → Option B) → Option B
none >>= f = none
some a >>= f = f a

-- `histograms.duration_buckets` and `tokens_buckets`, in millionths
abbrev pub default_duration_buckets : List ℤ
default_duration_buckets =
    pos 10000
    ∷ pos 50000
    ∷ pos 100000
    ∷ pos 250000
    ∷ pos 500000
    ∷ pos 1000000
    ∷ pos 2000000
    ∷ pos 5000000
    ∷ pos 10000000
    ∷ pos 30000000
    ∷ pos 60000000
    ∷ []

abbrev pub default_tokens_buckets : List ℤ
default_tokens_buckets =
    pos 10000000
    ∷ pos 50000000
    ∷ pos 100000000
    ∷ pos 250000000
    ∷ pos 500000000
    ∷ pos 1000000000
    ∷ pos 2000000000
    ∷ pos 4000000000
    ∷ pos 8000000000
    ∷ pos 16000000000
    ∷ pos 32000000000
    ∷ []

abbrev pub buckets_or : List ℤ → Option (List ℤ) → List ℤ
buckets_or default none = default
buckets_or default (some buckets) = buckets

module _ (outside : Outside) (yaml runtime : File) where
  unfoldable pub load_server : Option ServerSection
  load_server = do
    host ← get_text outside yaml runtime "server" "host" "0.0.0.0"
    port ← get_int outside yaml runtime "server" "port" 8080
    some (record { host = host; port = port })

  unfoldable pub load_limits : Option LimitsSection
  load_limits = do
    max_traces ← get_int outside yaml runtime "limits" "max_traces" 10000
    max_queue_size ← get_int outside yaml runtime "limits" "max_queue_size" 50000
    max_span_attributes ← get_int outside yaml runtime "limits" "max_span_attributes" 100
    max_label_value_length ← get_int outside yaml runtime "limits" "max_label_value_length" 128
    cardinality_model ← get_int outside yaml runtime "limits" "cardinality_model" 50
    cardinality_provider ← get_int outside yaml runtime "limits" "cardinality_provider" 10
    cardinality_tool_name ← get_int outside yaml runtime "limits" "cardinality_tool_name" 200
    cardinality_agent ← get_int outside yaml runtime "limits" "cardinality_agent" 200
    cardinality_error_type ← get_int outside yaml runtime "limits" "cardinality_error_type" 50
    some (record {
      max_traces = max_traces;
      max_queue_size = max_queue_size;
      max_span_attributes = max_span_attributes;
      max_label_value_length = max_label_value_length;
      cardinality_model = cardinality_model;
      cardinality_provider = cardinality_provider;
      cardinality_tool_name = cardinality_tool_name;
      cardinality_agent = cardinality_agent;
      cardinality_error_type = cardinality_error_type;
    })

  unfoldable pub load_trace_store : Option TraceStoreSection
  load_trace_store = do
    enabled ← get_bool outside yaml runtime "trace_store" "enabled" true
    max_spans_per_trace ← get_int outside yaml runtime "trace_store" "max_spans_per_trace" 500
    ttl_seconds ← get_int outside yaml runtime "trace_store" "ttl_seconds" 0
    some (record {
      enabled = enabled;
      max_spans_per_trace = max_spans_per_trace;
      ttl_seconds = ttl_seconds;
    })

  unfoldable pub load_exporter : Option ExporterSection
  load_exporter = do
    otlp_endpoint ← get_optional_text outside yaml runtime "exporter" "otlp_endpoint"
    batch_size ← get_int outside yaml runtime "exporter" "batch_size" 200
    flush_interval ← get_int outside yaml runtime "exporter" "flush_interval" 5
    some (record {
      otlp_endpoint = otlp_endpoint;
      batch_size = batch_size;
      flush_interval = flush_interval;
    })

  unfoldable pub load_multi_tenant : Option MultiTenantSection
  load_multi_tenant = do
    enabled ← get_bool outside yaml runtime "multi_tenant" "enabled" false
    header_name ← get_text outside yaml runtime "multi_tenant" "header_name" "X-Tenant-ID"
    some (record { enabled = enabled; header_name = header_name })

  unfoldable pub load_sampling : Option SamplingSection
  load_sampling = do
    rate ← some (get_float outside yaml runtime "sampling" "rate" (pos 1000000))
    some (record { rate = rate })

  unfoldable pub load_backpressure : Option BackpressureSection
  load_backpressure = do
    soft_limit_pct ←
        some (get_float outside yaml runtime "backpressure" "soft_limit_pct" (pos 80000000))
    hard_limit_pct ←
        some (get_float outside yaml runtime "backpressure" "hard_limit_pct" (pos 95000000))
    mode ← get_text outside yaml runtime "backpressure" "mode" "reject"
    some (record { soft_limit_pct = soft_limit_pct; hard_limit_pct = hard_limit_pct; mode = mode })

  unfoldable pub load_rate_limit : Option RateLimitSection
  load_rate_limit = do
    enabled ← get_bool outside yaml runtime "rate_limit" "enabled" false
    per_ip_rpm ← get_int outside yaml runtime "rate_limit" "per_ip_rpm" 600
    per_service_rpm ← get_int outside yaml runtime "rate_limit" "per_service_rpm" 3000
    some (record { enabled = enabled; per_ip_rpm = per_ip_rpm; per_service_rpm = per_service_rpm })

  unfoldable pub load_exemplars : Option ExemplarSection
  load_exemplars = do
    enabled ← get_bool outside yaml runtime "exemplars" "enabled" false
    trace_id_format ← get_text outside yaml runtime "exemplars" "trace_id_format" "w3c"
    some (record { enabled = enabled; trace_id_format = trace_id_format })

  unfoldable pub load_shutdown : Option ShutdownSection
  load_shutdown = do
    grace_period_seconds ← get_int outside yaml runtime "shutdown" "grace_period_seconds" 30
    drain_queue ← get_bool outside yaml runtime "shutdown" "drain_queue" true
    some (record { grace_period_seconds = grace_period_seconds; drain_queue = drain_queue })

  unfoldable pub load_logging : Option LoggingSection
  load_logging = do
    structured ← get_bool outside yaml runtime "logging" "structured" false
    level ← get_text outside yaml runtime "logging" "level" "INFO"
    log_file ← get_optional_text outside yaml runtime "logging" "log_file"
    some (record { structured = structured; level = level; log_file = log_file })

  unfoldable pub load_redaction : Option RedactionSection
  load_redaction = do
    enabled ← get_bool outside yaml runtime "redaction" "enabled" false
    max_text_length ← get_int outside yaml runtime "redaction" "max_text_length" 50000
    drop_on_failure ← get_bool outside yaml runtime "redaction" "drop_on_failure" true
    some (record {
      enabled = enabled;
      max_text_length = max_text_length;
      drop_on_failure = drop_on_failure;
      custom_patterns = outside.custom_patterns;
    })

  unfoldable pub load_evaluation : Option EvaluationSection
  load_evaluation = do
    enabled ← get_bool outside yaml runtime "evaluation" "enabled" false
    queue_size ← get_int outside yaml runtime "evaluation" "queue_size" 10000
    drop_policy ← get_text outside yaml runtime "evaluation" "drop_policy" "drop_new"
    worker_concurrency ← get_int outside yaml runtime "evaluation" "worker_concurrency" 4
    default_sample_rate ←
        some (get_float outside yaml runtime "evaluation" "default_sample_rate" (pos 1000000))
    default_timeout_ms ← get_int outside yaml runtime "evaluation" "default_timeout_ms" 30000
    max_evaluation_types ← get_int outside yaml runtime "evaluation" "max_evaluation_types" 20
    judge_model ← get_text outside yaml runtime "evaluation" "judge_model" "gpt-4o-mini"
    judge_provider ← get_text outside yaml runtime "evaluation" "judge_provider" "openai"
    judge_api_key ← get_optional_text outside yaml runtime "evaluation" "judge_api_key"
    judge_base_url ← get_optional_text outside yaml runtime "evaluation" "judge_base_url"
    some (record {
      enabled = enabled;
      queue_size = queue_size;
      drop_policy = drop_policy;
      worker_concurrency = worker_concurrency;
      default_sample_rate = default_sample_rate;
      default_timeout_ms = default_timeout_ms;
      max_evaluation_types = max_evaluation_types;
      judge_model = judge_model;
      judge_provider = judge_provider;
      judge_api_key = judge_api_key;
      judge_base_url = judge_base_url;
    })

  unfoldable pub load_sre : Option SreSection
  load_sre = do
    enabled ← get_bool outside yaml runtime "sre" "enabled" false
    default_slo_error_rate ←
        some (get_float outside yaml runtime "sre" "default_slo_error_rate" (pos 10000))
    default_cost_budget_usd ←
        some (get_float outside yaml runtime "sre" "default_cost_budget_usd" (pos 0))
    some (record {
      enabled = enabled;
      default_slo_error_rate = default_slo_error_rate;
      default_cost_budget_usd = default_cost_budget_usd;
      agents = outside.agents;
    })

  unfoldable pub load_histograms : HistogramSection
  load_histograms = record {
    duration_buckets = buckets_or default_duration_buckets (outside.buckets "duration_buckets");
    tokens_buckets = buckets_or default_tokens_buckets (outside.buckets "tokens_buckets");
  }

  unfoldable pub load_config : Option ServerConfig
  load_config = do
    server ← load_server
    limits ← load_limits
    trace_store ← load_trace_store
    exporter ← load_exporter
    multi_tenant ← load_multi_tenant
    sampling ← load_sampling
    backpressure ← load_backpressure
    rate_limit ← load_rate_limit
    exemplars ← load_exemplars
    shutdown ← load_shutdown
    logging ← load_logging
    redaction ← load_redaction
    evaluation ← load_evaluation
    sre ← load_sre
    some (record {
      server = server;
      limits = limits;
      histograms = load_histograms;
      trace_store = trace_store;
      exporter = exporter;
      multi_tenant = multi_tenant;
      sampling = sampling;
      backpressure = backpressure;
      rate_limit = rate_limit;
      exemplars = exemplars;
      shutdown = shutdown;
      logging = logging;
      redaction = redaction;
      evaluation = evaluation;
      sre = sre;
    })
