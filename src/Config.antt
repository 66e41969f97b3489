-- ===== src/Config.antt =====
-- The configuration of the server, src/rastir/server/config.py: the sections, as frozen records.
-- Rates, percentages, bucket bounds and budgets are whole millionths, where the code has floats.
pub mod Validation
pub mod Ranges
pub mod Loading
pub mod Sections
pub mod Overrides
use rastir.Base.{String, Bool, Option, List}
use rastir.Base.Integers.{ℤ}
use rastir.Dict.{Dict}

pub record ServerSection : Type 0 where
  pub host : String
  pub port : ℤ

pub record LimitsSection : Type 0 where
  pub max_traces : ℤ
  pub max_queue_size : ℤ
  pub max_span_attributes : ℤ
  pub max_label_value_length : ℤ
  pub cardinality_model : ℤ
  pub cardinality_provider : ℤ
  pub cardinality_tool_name : ℤ
  pub cardinality_agent : ℤ
  pub cardinality_error_type : ℤ

pub record HistogramSection : Type 0 where
  pub duration_buckets : List ℤ
  pub tokens_buckets : List ℤ

pub record TraceStoreSection : Type 0 where
  pub enabled : Bool
  pub max_spans_per_trace : ℤ
  pub ttl_seconds : ℤ

pub record ExporterSection : Type 0 where
  pub otlp_endpoint : Option String
  pub batch_size : ℤ
  pub flush_interval : ℤ

pub record MultiTenantSection : Type 0 where
  pub enabled : Bool
  pub header_name : String

pub record SamplingSection : Type 0 where
  pub rate : ℤ

pub record BackpressureSection : Type 0 where
  pub soft_limit_pct : ℤ
  pub hard_limit_pct : ℤ
  pub mode : String

pub record RateLimitSection : Type 0 where
  pub enabled : Bool
  pub per_ip_rpm : ℤ
  pub per_service_rpm : ℤ

pub record ExemplarSection : Type 0 where
  pub enabled : Bool
  pub trace_id_format : String

pub record ShutdownSection : Type 0 where
  pub grace_period_seconds : ℤ
  pub drain_queue : Bool

pub record LoggingSection : Type 0 where
  pub structured : Bool
  pub level : String
  pub log_file : Option String

pub record RedactionSection : Type 0 where
  pub enabled : Bool
  pub max_text_length : ℤ
  pub custom_patterns : List (String × String)
  pub drop_on_failure : Bool

pub record EvaluationSection : Type 0 where
  pub enabled : Bool
  pub queue_size : ℤ
  pub drop_policy : String
  pub worker_concurrency : ℤ
  pub default_sample_rate : ℤ
  pub default_timeout_ms : ℤ
  pub max_evaluation_types : ℤ
  pub judge_model : String
  pub judge_provider : String
  pub judge_api_key : Option String
  pub judge_base_url : Option String

pub record SreAgentConfig : Type 0 where
  pub slo_error_rate : Option ℤ
  pub cost_budget_usd : Option ℤ

pub record SreSection : Type 0 where
  pub enabled : Bool
  pub default_slo_error_rate : ℤ
  pub default_cost_budget_usd : ℤ
  pub agents : Dict SreAgentConfig

pub record ServerConfig : Type 0 where
  pub server : ServerSection
  pub limits : LimitsSection
  pub histograms : HistogramSection
  pub trace_store : TraceStoreSection
  pub exporter : ExporterSection
  pub multi_tenant : MultiTenantSection
  pub sampling : SamplingSection
  pub backpressure : BackpressureSection
  pub rate_limit : RateLimitSection
  pub exemplars : ExemplarSection
  pub shutdown : ShutdownSection
  pub logging : LoggingSection
  pub redaction : RedactionSection
  pub evaluation : EvaluationSection
  pub sre : SreSection
