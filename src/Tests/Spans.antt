-- ===== src/Tests/Spans.antt =====
-- Spans, sampling, redaction, the label guard and the exporter on concrete inputs.
use rastir.Base.{
  ℕ, String, ◌-◌, ◌≤◌, ◌≡◌, refl, true, Option, none, some, List, [], ◌∷◌, length, All, arith, ltb,
  if◌then◌else◌,
}
use rastir.Dict
use rastir.Dict.{Dict}
use rastir.Span.{Span, Value}
use rastir.SpanRecord.{SpanRecord, llm, ok}
use rastir.SpanQueue.{SpanQueue}
use rastir.Metrics.Cardinality.{guard_all, Known, DistinctLabels, guard_all_bounded}
use rastir.Sampling.{should_store}
use rastir.Redaction.{Redactor}
use rastir.Transport.{Reply, status, transient, Exporter, send_batch, flush_all}
use rastir.Transport.Sending.{attempts, Sent, decided, send_batch-Sent}
use rastir.Transport.Flushing.{Flushed, flush_all-Flushed}
use rastir.TraceStore
use rastir.TraceStore.{TraceStore, summary, recent, search, Summary}
use rastir.TraceStore.Queries.{search_lem, recent_lem}

abbrev span_of : List (String × Value) → Span
span_of attributes = record {
  trace_id = some "00000000000000000000000010000000";
  span_id = some "1";
  parent_id = none;
  name = some "step";
  span_type = some "llm";
  status = some "OK";
  service = some "shop";
  start_time = some 1;
  end_time = some 2;
  duration_ms = some 1;
  start_time_unix_nano = none;
  attributes = attributes;
  events = [];
}

abbrev started : String → Option String → ℕ → SpanRecord
started id parent mono = record {
  name = "step";
  span_type = llm;
  trace_id = "a";
  span_id = id;
  parent_id = parent;
  start_time = 1000 - mono;
  end_time = none;
  status = ok;
  attributes = [];
  events = [];
  mono_start = mono;
}

kept_at_low_rate : should_store 250000 (span_of []) 0 ≡ some true
unfolding should_store rastir.Text.Hex.int16 rastir.Sampling.last_eight rastir.Text.is_white
    rastir.Text.text_strip
kept_at_low_rate = refl

-- Three values under a cap of two.
guard_all_bounded_example :
    (length (guard_all 8 2 ("a" ∷ "b" ∷ "c" ∷ []) []).1 ≤ 2)
    × DistinctLabels (guard_all 8 2 ("a" ∷ "b" ∷ "c" ∷ []) []).1
    × All
        (Known (guard_all 8 2 ("a" ∷ "b" ∷ "c" ∷ []) []).1)
        (guard_all 8 2 ("a" ∷ "b" ∷ "c" ∷ []) []).0
guard_all_bounded_example = guard_all_bounded 8 2 ("a" ∷ "b" ∷ "c" ∷ []) [] (omega arith) tt

-- A redactor that masks every text.
abbrev masked : Redactor
masked s context = some "***"

-- A network that fails once and then takes every post.
abbrev flaky : ℕ → Reply
flaky n = if ltb 0 n then status 200 else transient

abbrev no_posts : Exporter
no_posts = record {
  export_successes = 0;
  export_failures = 0;
  spans_exported = 0;
  spans_dropped = 0;
  posts = 0;
  slept = [];
}

send_batch-Sent_example :
    ((send_batch flaky 3 500 (started "1" none 4 ∷ []) no_posts).0 ≡ true)
    × Sent true 1 2 no_posts (send_batch flaky 3 500 (started "1" none 4 ∷ []) no_posts).1
unfolding decided attempts rastir.Transport.verdict
send_batch-Sent_example = send_batch-Sent flaky 3 500 (started "1" none 4 ∷ []) no_posts

abbrev ended : SpanQueue
ended = record {
  maxsize = 5;
  items = started "1" none 4 ∷ started "2" (some "1") 5 ∷ started "3" (some "1") 6 ∷ [];
}

flush_all-Flushed_example :
    Flushed flaky 3 500 ended no_posts (flush_all flaky 3 500 2 ended no_posts)
flush_all-Flushed_example = flush_all-Flushed flaky 3 500 2 ended no_posts (omega arith)

-- Two traces, one of them of another service.
abbrev two_traces : TraceStore
two_traces = record {
  max_traces = 2;
  max_spans_per_trace = 2;
  ttl = 0;
  traces = ("a", span_of [] ∷ []) ∷ ("b", record (span_of []) { service = some "bank" } ∷ []) ∷ [];
  timestamps = ("a", 5) ∷ ("b", 6) ∷ [];
  total_spans = 2;
  evicted_traces = 0;
  spans_truncated = 0;
}

-- A limit of 0 lists one trace.
search_lem_example :
    (search (some "shop") 0 9 two_traces).0 ≡ record { trace_id = "a"; span_count = 1 } ∷ []
unfolding TraceStore.expire_stale rastir.TraceStore.Queries.matching TraceStore.serves Dict.get
search_lem_example = search_lem (some "shop") 0 9 two_traces
