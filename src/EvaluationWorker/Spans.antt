-- ===== src/EvaluationWorker/Spans.antt =====
-- The spans that src/rastir/server/evaluation_worker.py hands back to the worker.
use rastir.Base.{
  ℕ, ◌+◌, ◌-◌, ◌≤◌, ◌<◌, String, ◌≡◌, refl, sym, ap, ◌∙◌, subst, true, map, none, some, List, [],
  ◌∷◌, ◌++◌, arith, length, All, str_eq,
}
use rastir.Dict
use rastir.Queue.Window.{keep}
use rastir.Span.{Span}
use rastir.Metrics.Labels.{as_number}
use rastir.EvaluationQueue.{EvaluationTask}
use rastir.Evaluators.{Evaluator}
use rastir.Ingestion.{Outside, Ingestion, Settings, Batch}
use rastir.Ingestion.Backpressure.{enqueue_lem}
use rastir.EvaluationWorker.Judged.{
  Judged, JudgedAll, OneEach, knows_one, runnable-OneEach, runnable_of_known, span-Judged,
}
use rastir.EvaluationWorker.{
  Pool, EvaluationResult, time_or, result_of, record_eval_metrics, Submitted, eval_span, submit,
  collect_one, collect, emit_spans, run_all, process_task,
}

-- A span of the task: it belongs to the trace, under the span that was evaluated, and has no attribute
-- that asks for an evaluation or a redaction.
pub record Correlated (task : EvaluationTask) (s : Span) : Type 0 where
  pub trace : s.trace_id ≡ some task.trace_id
  pub parent : s.parent_id ≡ some task.parent_span_id
  pub type : s.span_type ≡ some "evaluation"
  pub no_request : Dict.get "evaluation_enabled" s.attributes ≡ none
  pub no_prompt : Dict.get "prompt_text" s.attributes ≡ none
  pub no_completion : Dict.get "completion_text" s.attributes ≡ none

-- All but the metrics and the count of calls.
pub record Frame (w w' : Ingestion) : Type 0 where
  pub queue : w'.queue ≡ w.queue
  pub store : w'.trace_store ≡ w.trace_store
  pub tasks : w'.eval_queue ≡ w.eval_queue
  pub exported : w'.otlp ≡ w.otlp

eval_span-Correlated :
    (id : String) (task : EvaluationTask) (r : EvaluationResult) (duration : ℕ) (e : Evaluator)
    (start : ℕ)
    → Correlated task (eval_span id task r duration e start)
unfolding eval_span Dict.get
eval_span-Correlated id task r duration e start = record {
  trace = refl;
  parent = refl;
  type = refl;
  no_request = ground arith;
  no_prompt = ground arith;
  no_completion = ground arith;
}

abbrev of_submitted : Submitted → String × Evaluator
of_submitted s = (s.type, s.evaluator)

module _ (o : Outside) (p : Pool) where
  submit_all :
      (to_run : List (String × Evaluator)) (w : Ingestion)
      → (futures : List Submitted) × ((submit o p to_run w).0 ≡ some futures)
        × (map of_submitted futures ≡ to_run)
        × (length futures ≡ length to_run)
        × Frame w (submit o p to_run w).1
  unfolding submit
  submit_all [] w =
      ([], refl, refl, refl, record { queue = refl; store = refl; tasks = refl; exported = refl })
  submit_all ((type, e) ∷ to_run) w =
      let w1 : Ingestion = record w { calls = w.calls + 1 } in
      let (futures, same, named, counted, frame) = submit_all to_run w1 in
      let s : Submitted = record {
        type = type;
        evaluator = e;
        t0 = o.monotonic w.calls;
        wall_start = o.wall w.calls;
      } in
      (
        s ∷ futures,
        ground (arith, same),
        ap (λ l. (type, e) ∷ l) named,
        omega (arith, counted),
        ground (arith, same, frame),
      )

  pub submit_lem :
      (to_run : List (String × Evaluator)) (w : Ingestion)
      → (futures : List Submitted) × ((submit o p to_run w).0 ≡ some futures)
        × (length futures ≡ length to_run)
        × Frame w (submit o p to_run w).1
  submit_lem to_run w =
      let (futures, made, named, counted, frame) = submit_all to_run w in
      (futures, made, counted, frame)

  collect_one_lem :
      (task : EvaluationTask) (timeout : ℕ) (s : Submitted) (w : Ingestion)
      → (span : Span) × ((collect_one o p task timeout s w).0 ≡ some span)
        × Judged p task s.type s.evaluator span
        × Correlated task span
        × Frame w (collect_one o p task timeout s w).1
  unfolding collect_one record_eval_metrics
  collect_one_lem task timeout s w =
      let r = result_of p s.type timeout (p.evaluate w.calls s.evaluator task) in
      let duration = o.monotonic w.calls - s.t0 in
      let start = time_or task.span_end_time s.wall_start in
      (
        eval_span (p.fresh_id w.calls) task r duration s.evaluator start,
        ground arith,
        span-Judged p task (p.fresh_id w.calls) s.type timeout w.calls duration start s.evaluator,
        eval_span-Correlated (p.fresh_id w.calls) task r duration s.evaluator start,
        ground arith,
      )

  collect-All :
      (task : EvaluationTask) (timeout : ℕ) (futures : List Submitted) (w : Ingestion)
      → (spans : List Span) × ((collect o p task timeout futures w).0 ≡ some spans)
        × JudgedAll p task (map of_submitted futures) spans
        × (length spans ≡ length futures)
        × All (Correlated task) spans
        × Frame w (collect o p task timeout futures w).1
  unfolding collect
  collect-All task timeout [] w =
      ([], refl, tt, refl, tt, record { queue = refl; store = refl; tasks = refl; exported = refl })
  collect-All task timeout (s ∷ futures) w =
      let (span, made, judged, fits, frame) = collect_one_lem task timeout s w in
      let (spans, made', all_judged, counted, all_fit, frame') =
        collect-All task timeout futures (collect_one o p task timeout s w).1 in
      (
        span ∷ spans,
        ground (arith, made, made'),
        (judged, all_judged),
        omega (arith, counted),
        (fits, all_fit),
        ground (arith, made, made', frame, frame'),
      )

  pub collect_lem :
      (task : EvaluationTask) (timeout : ℕ) (futures : List Submitted) (w : Ingestion)
      → (spans : List Span) × ((collect o p task timeout futures w).0 ≡ some spans)
        × (length spans ≡ length futures)
        × All (Correlated task) spans
        × Frame w (collect o p task timeout futures w).1
  collect_lem task timeout futures w =
      let (spans, made, judged, counted, correlated, frame) = collect-All task timeout futures w in
      (spans, made, counted, correlated, frame)

  module _ (c : Settings) where
    -- On a worker whose queue has a bound and keeps it: a task with a time-out in numbers, of whose types
    -- the registry knows one at least, gives one span for each type that it knows, in their order,
    -- and no other. Each has the type, the score and the verdict that its evaluator gave, with the
    -- status ERROR exactly if that names an error, or the status ERROR with the score 0 if the
    -- evaluator raised or ran out of time. They go to the worker in one batch, belong to the trace of the task under its span, and ask for no evaluation; the queue
    -- holds, within its bound, the newest or the oldest batches.
    pub process_task_lem :
        (task : EvaluationTask) (w : Ingestion) (timeout : ℕ)
        → 0 < w.queue.maxsize
        → length w.queue.items ≤ w.queue.maxsize
        → as_number task.timeout_ms ≡ some timeout
        → knows_one p task task.evaluation_types ≡ true
        → ((process_task o p c task w).0 ≡ some tt)
          × (spans : List Span) × OneEach p task task.evaluation_types spans
          × All (Correlated task) spans
          × ((process_task o p c task w).1.queue.items
              ≡ keep (str_eq c.mode "drop_oldest") w.queue.maxsize (
                  w.queue.items
                  ++ record { service = task.service; env = task.env; version = ""; spans = spans }
                    ∷ []))
    unfolding process_task run_all emit_spans
    process_task_lem task w timeout pos fits number one_known =
        let (e, to_run, known) = runnable_of_known p task task.evaluation_types one_known in
        let (futures, made, named, counted, frame) = submit_all (e ∷ to_run) w in
        let w1 = (submit o p (e ∷ to_run) w).1 in
        let (spans, made', judged, counted', correlated, frame') =
          collect-All task timeout futures w1 in
        let w2 = (collect o p task timeout futures w1).1 in
        let b : Batch = record {
          service = task.service;
          env = task.env;
          version = "";
          spans = spans;
        } in
        (
          ground (arith, number, known, made, made'),
          spans,
          runnable-OneEach p task task.evaluation_types spans
              (subst (λ l. JudgedAll p task l spans) (named ∙ sym known) judged),
          correlated,
          ground (arith, number, known, made, made', frame, frame', enqueue_lem o c b w2),
        )
