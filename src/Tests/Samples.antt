-- ===== src/Tests/Samples.antt =====
-- A configuration and a collector for the runs.
use rastir.Base.{true, false, none, [], ◌∷◌}
use rastir.Base.Integers.{pos}
use rastir.Config.{ServerConfig}
use rastir.Config.Loading
use rastir.Ingestion.{Outside}
use rastir.Collector.{Library}
use rastir.Collector.Admin.{Host}

-- The configuration that an environment without variables gives, with short lists of buckets.
abbrev pub config : ServerConfig
config = record {
  server = record { host = "0.0.0.0"; port = pos 8080 };
  limits = record {
    max_traces = pos 10000;
    max_queue_size = pos 2;
    max_span_attributes = pos 100;
    max_label_value_length = pos 128;
    cardinality_model = pos 50;
    cardinality_provider = pos 10;
    cardinality_tool_name = pos 200;
    cardinality_agent = pos 200;
    cardinality_error_type = pos 50;
  };
  histograms = record { duration_buckets = pos 1 ∷ pos 2 ∷ []; tokens_buckets = pos 10 ∷ [] };
  trace_store = record { enabled = true; max_spans_per_trace = pos 500; ttl_seconds = pos 0 };
  exporter = record { otlp_endpoint = none; batch_size = pos 200; flush_interval = pos 5 };
  multi_tenant = record { enabled = false; header_name = "X-Tenant-ID" };
  sampling = record { rate = pos 1000000 };
  backpressure = record {
    soft_limit_pct = pos 80000000;
    hard_limit_pct = pos 95000000;
    mode = "reject";
  };
  rate_limit = record { enabled = true; per_ip_rpm = pos 600; per_service_rpm = pos 3000 };
  exemplars = record { enabled = false; trace_id_format = "w3c" };
  shutdown = record { grace_period_seconds = pos 30; drain_queue = true };
  logging = record { structured = false; level = "INFO"; log_file = none };
  redaction = record {
    enabled = false;
    max_text_length = pos 50000;
    custom_patterns = [];
    drop_on_failure = true;
  };
  evaluation = record {
    enabled = true;
    queue_size = pos 10000;
    drop_policy = "drop_new";
    worker_concurrency = pos 4;
    default_sample_rate = pos 1000000;
    default_timeout_ms = pos 30000;
    max_evaluation_types = pos 20;
    judge_model = "gpt-4o-mini";
    judge_provider = "openai";
    judge_api_key = none;
    judge_base_url = none;
  };
  sre = record {
    enabled = false;
    default_slo_error_rate = pos 10000;
    default_cost_budget_usd = pos 0;
    agents = [];
  };
}

-- An environment without variables.
abbrev pub no_variables : Loading.Outside
no_variables = record {
  environ = λ name. none;
  strip = λ s. s;
  upper = λ s. s;
  lower = λ s. s;
  parse_int = λ s. none;
  parse_float = λ s. none;
  buckets = λ name. none;
  custom_patterns = [];
  agents = [];
}

abbrev pub host : Host
host = record { outside = no_variables; yaml = []; variable_set = false }

abbrev pub library : Library
library = record {
  upper = λ s. s;
  built_in = [];
  compile = λ p. none;
  can_log = λ f. true;
  takes_buckets = λ b. true;
  otlp_installed = false;
  takes_exporter = λ e q b d. true;
}

-- Clocks that count the calls.
abbrev pub outside : Outside
outside = record {
  show = λ v. "";
  random = λ n. n;
  monotonic = λ n. n;
  wall = λ n. n;
  export_span = λ n span. true;
  percent = λ a b. a;
  memory_bytes = λ n. none;
  rate = λ n spans. none;
}
