-- ===== src/Tests/Worker.antt =====
-- The ingestion worker on concrete inputs.
use rastir.Base.{ℕ, String, ◌≡◌, refl, true, false, none, some, [], ◌∷◌, arith, eq_iff}
use rastir.Dict
use rastir.Span.{Span, text}
use rastir.TraceStore
use rastir.TraceStore.{TraceStore}
use rastir.Metrics.{Metrics, default_caps}
use rastir.Sampling
use rastir.Sampling.{should_store}
use rastir.Redaction.{Redactor, redact_span}
use rastir.Ingestion.{Outside, Ingestion, Settings, Batch, over_soft_limit, enqueue}
use rastir.Ingestion.Process.{process_span, process_spans}
use rastir.Ingestion.Backpressure.{enqueue_lem}
use rastir.Ingestion.Pipeline.{
  SameKept, failed_redaction-SameKept, sampled_kept, process_spans-raise,
}

abbrev span_of : String → Span
span_of trace_id = record {
  trace_id = some trace_id;
  span_id = some "1";
  parent_id = none;
  name = some "step";
  span_type = some "llm";
  status = some "OK";
  service = none;
  start_time = some 1;
  end_time = some 2;
  duration_ms = some 1;
  start_time_unix_nano = none;
  attributes = ("model", text "m") ∷ ("prompt_text", text "me@x.org") ∷ [];
  events = [];
}

-- An exporter that takes every span, and clocks that count the calls.
abbrev outside : Outside
outside = record {
  show = λ v. "";
  random = λ n. n;
  monotonic = λ n. n;
  wall = λ n. n;
  export_span = λ n span. true;
  percent = λ a b. a;
  memory_bytes = λ n. none;
  rate = λ n spans. none;
}

abbrev metrics : Metrics
metrics = record {
  max_label_len = 128;
  caps = default_caps;
  exemplars_enabled = false;
  trace_id_format = "w3c";
  models = [];
  providers = [];
  tools = [];
  agents = [];
  error_types = [];
  pricing_profiles = [];
  guardrail_ids = [];
  samples = [];
  rate_spans = 0;
  trace_epoch_cache = [];
}

abbrev store : TraceStore
store = record {
  max_traces = 2;
  max_spans_per_trace = 2;
  ttl = 0;
  traces = [];
  timestamps = [];
  total_spans = 0;
  evicted_traces = 0;
  spans_truncated = 0;
}

abbrev batch : String → Batch
batch service = record { service = service; env = "prod"; version = "1"; spans = [] }

-- A worker whose queue of two batches is full.
abbrev worker : Ingestion
worker = record {
  metrics = metrics;
  trace_store = some store;
  queue = record { maxsize = 2; items = batch "a" ∷ batch "b" ∷ [] };
  soft_warned = false;
  otlp = some [];
  eval_queue = none;
  calls = 0;
}

abbrev settings : ℕ → String → Redactor → Settings
settings rate mode redactor = record {
  sampling_rate = rate;
  soft_limit_pct = 80000000;
  mode = mode;
  redactor = some redactor;
  drop_on_redaction_failure = true;
  default_sample_rate = 1000000;
  default_timeout_ms = 30000;
}

abbrev masked : Redactor
masked s context = some "***"

-- A redactor that raises.
abbrev broken : Redactor
broken s context = none

enqueue_lem_example :
    ((enqueue outside (settings 1000000 "reject" masked) (batch "c") worker).0 ≡ some false)
    × ((enqueue outside (settings 1000000 "reject" masked) (batch "c") worker).1.queue.items
        ≡ batch "a" ∷ batch "b" ∷ [])
    × ((enqueue outside (settings 1000000 "reject" masked) (batch "c") worker).1.queue.maxsize ≡ 2)
    × ((enqueue outside (settings 1000000 "reject" masked) (batch "c") worker).1.soft_warned ≡ true)
unfolding over_soft_limit
enqueue_lem_example =
    enqueue_lem outside (settings 1000000 "reject" masked) (batch "c") worker (omega arith)
      (omega arith)

failed_redaction-SameKept_example :
    ((process_span outside (settings 1000000 "reject" broken) "shop" "prod" (span_of "a") worker).0
      ≡ some tt)
    × SameKept worker
        (process_span outside
          (settings 1000000 "reject" broken)
          "shop"
          "prod"
          (span_of "a")
          worker).1
unfolding should_store redact_span Dict.get
failed_redaction-SameKept_example =
    failed_redaction-SameKept outside (settings 1000000 "reject" broken) "shop" "prod" (span_of "a")
      worker broken refl refl refl refl refl

abbrev kept_span : Span
kept_span = record (span_of "a") {
  attributes = ("model", text "m") ∷ ("prompt_text", text "***") ∷ [];
}

sampled_kept_example :
    ((process_span outside
        (settings 1000000 "reject" masked)
        "shop"
        "prod"
        (span_of "a")
        worker).1.trace_store
      ≡ some (TraceStore.insert "a" (kept_span ∷ []) 1 2 store).1)
    × ((process_span outside
          (settings 1000000 "reject" masked)
          "shop"
          "prod"
          (span_of "a")
          worker).1.otlp
        ≡ some (kept_span ∷ []))
unfolding should_store redact_span Dict.get Dict.put
sampled_kept_example =
    sampled_kept outside (settings 1000000 "reject" masked) "shop" "prod" (span_of "a") worker
      masked "a" [] store refl refl refl refl refl refl refl (λ e. ground (arith, e, eq_iff "a" ""))

not_hex :
    (draw : ℕ)
    → should_store (settings 500000 "reject" masked).sampling_rate (span_of "xyz") draw ≡ none
unfolding should_store rastir.Text.Hex.int16 Sampling.last_eight rastir.Text.is_white
    rastir.Text.text_strip
not_hex draw = refl

process_spans-raise_example :
    ((process_spans outside
        (settings 500000 "reject" masked)
        "shop"
        "prod"
        (span_of "0a" ∷ span_of "xyz" ∷ span_of "0b" ∷ [])
        worker).0
      ≡ none)
    × (process_spans outside
          (settings 500000 "reject" masked)
          "shop"
          "prod"
          (span_of "0a" ∷ span_of "xyz" ∷ span_of "0b" ∷ [])
          worker
        ≡ process_spans outside
            (settings 500000 "reject" masked)
            "shop"
            "prod"
            (span_of "0a" ∷ span_of "xyz" ∷ [])
            worker)
process_spans-raise_example =
    process_spans-raise outside (settings 500000 "reject" masked) "shop" "prod" (span_of "0a" ∷ [])
      (span_of "0b" ∷ []) (span_of "xyz") worker not_hex
