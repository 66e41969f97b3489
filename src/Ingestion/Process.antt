-- ===== src/Ingestion/Process.antt =====
-- `_process_batch` and `_maybe_enqueue_evaluation` of src/rastir/server/ingestion.py. Log lines are
-- left out. The span is handed on as it is after redaction, which changes it in place.
use rastir.Base.{
  ℕ, ◌+◌, String, Bool, true, false, not, ◌||◌, Option, none, some, List, [], ◌∷◌, ◌++◌, length,
  ltb, leb, str_eq, if◌then◌else◌,
}
use rastir.Dict
use rastir.Dict.{Dict}
use rastir.Exec.{pure, lift, gets, modify, when, ◌>>=◌, ◌>>◌}
use rastir.Text.{text_chars}
use rastir.Span.{Span, Value, null, num, text, texts, truthy}
use rastir.TraceStore
use rastir.TraceStore.{TraceStore}
use rastir.EvaluationQueue
use rastir.EvaluationQueue.{EvaluationQueue, EvaluationTask}
use rastir.Metrics.{inc}
use rastir.Metrics.Labels.{attr_or, text_or, as_number}
use rastir.Metrics.RecordSpan.{record_span}
use rastir.Sampling.{should_store}
use rastir.Redaction.{Redactor, redact_span, attribute}
use rastir.Ingestion.{
  Outside, Ingestion, Settings, Batch, W, on_metrics, count, service_labels, next_call,
}

-- `list(eval_types)`
abbrev pub as_list : Value → Option (List String)
as_list (texts l) = some l
as_list (text s) = some (text_chars s)
as_list v = none

-- `_trace_epoch_cache.get(trace_id, span.get("start_time"))`
abbrev pub epoch_or : Option ℕ → Option ℕ → Option ℕ
epoch_or none start = start
epoch_or (some epoch) start = some epoch

abbrev pub or_absent : Option Value → Value
or_absent = attr_or null

unfoldable pub make_task :
    List String → Value → Option ℕ → ℕ → Span → String → String → EvaluationTask
make_task types timeout epoch wall span service env = record {
  trace_id = text_or "" span.trace_id;
  parent_span_id = text_or "" span.span_id;
  service = service;
  env = env;
  model = attr_or (text "unknown") (Dict.get "model" span.attributes);
  provider = attr_or (text "unknown") (Dict.get "provider" span.attributes);
  agent = or_absent (Dict.get "agent" span.attributes);
  prompt_text = or_absent (Dict.get "prompt_text" span.attributes);
  completion_text = or_absent (Dict.get "completion_text" span.attributes);
  evaluation_types = types;
  timeout_ms = timeout;
  span_start_time = epoch;
  span_end_time = span.end_time;
  enqueued_at = wall;
}

-- `self._eval_queue.put(task)` and the counter of dropped tasks
unfoldable pub put_task : EvaluationTask → EvaluationQueue → W (Unit {0})
unfolding count
put_task task q w =
    let (accepted, q') = EvaluationQueue.put task q in
    let w' : Ingestion = record w { eval_queue = some q' } in
    if accepted
    then (some tt, w')
    else count "rastir_evaluation_dropped_total" (service_labels task.service task.env) (inc 1) w'

module _ (o : Outside) (c : Settings) where
  -- `sample_rate < 1.0 and random.random() >= sample_rate`: is the span left out?
  unfoldable pub sampled_out : ℕ → W Bool
  unfolding next_call
  sampled_out rate =
      if ltb rate 1000000
      then (do call ← next_call; pure (leb rate (o.random call)))
      else pure false

  -- the part after the evaluation sampling
  unfoldable pub enqueue_task : Span → String → String → EvaluationQueue → W (Unit {0})
  unfolding next_call make_task put_task
  enqueue_task span service env q =
      let types = attr_or (texts []) (Dict.get "evaluation_types" span.attributes) in
      when (truthy types) (do
        epoch ← gets (λ w.
            epoch_or (Dict.get (text_or "" span.trace_id) w.metrics.trace_epoch_cache)
              span.start_time)
        types_list ← lift (as_list types)
        call ← next_call
        put_task
            (make_task types_list
              (attr_or (num c.default_timeout_ms)
                (Dict.get "evaluation_timeout_ms" span.attributes))
              epoch (o.wall call) span service env)
            q)

  unfoldable pub maybe_enqueue_evaluation : Span → String → String → EvaluationQueue → W (Unit {0})
  unfolding sampled_out enqueue_task
  maybe_enqueue_evaluation span service env q =
      when (truthy (or_absent (Dict.get "evaluation_enabled" span.attributes))) (do
        rate ← lift (
            as_number (
              attr_or (num c.default_sample_rate)
                (Dict.get "evaluation_sample_rate" span.attributes)))
        out ← sampled_out rate
        when (not out) (enqueue_task span service env q))

  -- step 3: the span to go on with, or `none` where it is dropped
  unfoldable pub redact_with : Option Redactor → Span → String → String → W (Option Span)
  unfolding count
  redact_with none span service env = pure (some span)
  redact_with (some redactor) span service env =
      if truthy (attribute "prompt_text" span) || truthy (attribute "completion_text" span)
      then (let (redacted, span') = redact_span redactor service env span in
          if redacted
          then (do
            count "rastir_redaction_applied_total" (service_labels service env) (inc 1)
            pure (some span'))
          else (do
            count "rastir_redaction_failures_total" (service_labels service env) (inc 1)
            pure (if c.drop_on_redaction_failure then none else some span')))
      else pure (some span)

  -- step 4: an exception of the store is logged, and what it changed stays.
  unfoldable pub store_in : Option TraceStore → String → Span → W (Unit {0})
  unfolding next_call
  store_in none trace_id span = pure tt
  store_in (some s) trace_id span = when (not (str_eq trace_id "")) (do
    checked ← next_call
    now ← next_call
    modify (λ w. record w {
      trace_store =
          some (TraceStore.insert trace_id (span ∷ []) (o.monotonic checked) (o.monotonic now) s).1;
    }))

  unfoldable pub store_span : Span → W (Unit {0})
  unfolding store_in
  store_span span = do
    store ← gets (λ w. w.trace_store)
    store_in store (text_or "" span.trace_id) span

  -- step 5
  unfoldable pub export_to : Option (List Span) → Bool → Span → String → String → W (Unit {0})
  unfolding count
  export_to none taken span service env = pure tt
  export_to (some spans) true span service env =
      modify (λ w. record w { otlp = some (spans ++ span ∷ []) })
  export_to (some spans) false span service env =
      count "rastir_export_failures_total" (service_labels service env) (inc 1)

  unfoldable pub export_span : Span → String → String → W (Unit {0})
  unfolding next_call export_to
  export_span span service env = do
    call ← next_call
    otlp ← gets (λ w. w.otlp)
    export_to otlp (o.export_span call span) span service env

  -- step 6
  unfoldable pub evaluate_in : Option EvaluationQueue → Span → String → String → W (Unit {0})
  unfolding maybe_enqueue_evaluation
  evaluate_in none span service env = pure tt
  evaluate_in (some q) span service env =
      when (not (str_eq (text_or "" span.status) "ERROR"))
        (maybe_enqueue_evaluation span service env q)

  -- an exception is logged, and what was changed before it stays.
  unfoldable pub evaluate_span : Span → String → String → W (Unit {0})
  unfolding evaluate_in
  evaluate_span span service env w =
      let (r, w') = evaluate_in w.eval_queue span service env w in (some tt, w')

  -- steps 4 to 6, for a span that was sampled and not dropped
  unfoldable pub keep_span : Option Span → String → String → W (Unit {0})
  unfolding store_span export_span
  keep_span none service env = pure tt
  keep_span (some span) service env = do
    store_span span
    export_span span service env
    evaluate_span span service env

  -- what follows the metrics, by the sampling decision
  unfoldable pub route_span : Bool → Span → String → String → W (Unit {0})
  unfolding count redact_with keep_span
  route_span false span service env =
      count "rastir_spans_dropped_by_sampling_total" (service_labels service env) (inc 1)
  route_span true span service env = do
    count "rastir_spans_sampled_total" (service_labels service env) (inc 1)
    kept ← redact_with c.redactor span service env
    keep_span kept service env

  -- one round of the loop of `_process_batch`
  unfoldable pub process_span : String → String → Span → W (Unit {0})
  unfolding next_call route_span on_metrics
  process_span service env span = do
    call ← next_call
    store ← lift (should_store c.sampling_rate span (o.random call))
    on_metrics (record_span o.show (o.wall call) span service env store)
    route_span store span service env

  -- the loop; an exception of the sampling decision ends it.
  unfoldable pub process_spans : String → String → List Span → W (Unit {0})
  process_spans service env [] = pure tt
  process_spans service env (span ∷ spans) = do
    process_span service env span
    process_spans service env spans

  unfoldable pub process_batch : Batch → W (Unit {0})
  process_batch b = do
    modify (λ w. record w {
      metrics = record w.metrics { rate_spans = w.metrics.rate_spans + length b.spans };
    })
    process_spans b.service b.env b.spans
