-- ===== src/Tests/Store.antt =====
-- The trace store and the rate limiter on concrete inputs.
use rastir.Base.{◌+◌, ◌≡◌, refl, String, none, some, [], ◌∷◌, arith, eq_iff}
use rastir.Dict
use rastir.Span.{Span, text}
use rastir.TraceStore.{TraceStore, done, expire_stale, insert}
use rastir.TraceStore.Invariant.{IsValid}
use rastir.TraceStore.Insert.{written, insert-IsValid, traces-insert, insert_accounted}

abbrev span_of : String → Span
span_of id = record {
  trace_id = some "a";
  span_id = some id;
  parent_id = none;
  name = some "step";
  span_type = some "llm";
  status = some "OK";
  service = some "shop";
  start_time = some 1;
  end_time = some 2;
  duration_ms = some 1;
  start_time_unix_nano = none;
  attributes = ("service", text "shop") ∷ [];
  events = [];
}

-- One trace of one span, at most two traces of two spans, a ttl of ten ticks.
abbrev one_trace : TraceStore
one_trace = record {
  max_traces = 2;
  max_spans_per_trace = 2;
  ttl = 10;
  traces = ("a", span_of "1" ∷ []) ∷ [];
  timestamps = ("a", 5) ∷ [];
  total_spans = 1;
  evicted_traces = 0;
  spans_truncated = 0;
}

one_trace-IsValid : IsValid one_trace
unfolding Dict.has Dict.get
one_trace-IsValid = record {
  distinct = (refl, tt);
  stamps_distinct = (refl, tt);
  stamped = λ k. ground (arith, eq_iff "a" k);
  counted = refl;
  bounded = omega arith;
  capped = λ k spans h. ground (arith, eq_iff "a" k);
}

-- A write within the ttl, beyond the cap of two spans.
insert-IsValid_example :
    ((insert "a" (span_of "2" ∷ span_of "3" ∷ []) 12 12 one_trace).0 ≡ done)
    × IsValid (insert "a" (span_of "2" ∷ span_of "3" ∷ []) 12 12 one_trace).1
insert-IsValid_example =
    insert-IsValid "a" (span_of "2" ∷ span_of "3" ∷ []) 12 12 one_trace (omega arith)
      one_trace-IsValid

traces-insert_example :
    (insert "a" (span_of "2" ∷ span_of "3" ∷ []) 12 12 one_trace).1.traces
    ≡ written "a"
        (span_of "2" ∷ span_of "3" ∷ [])
        (Dict.get "a" (expire_stale 12 one_trace).traces)
        (expire_stale 12 one_trace)
traces-insert_example =
    traces-insert "a" (span_of "2" ∷ span_of "3" ∷ []) 12 12 one_trace (omega arith)
      one_trace-IsValid

insert_accounted_example :
    (insert "a" (span_of "2" ∷ span_of "3" ∷ []) 12 12 one_trace).1.spans_truncated + 2 ≡ 3
unfolding expire_stale Dict.get
insert_accounted_example =
    insert_accounted "a" (span_of "2" ∷ span_of "3" ∷ []) 12 12 one_trace (omega arith)
      one_trace-IsValid
