-- ===== src/EvaluationWorker.antt =====
-- `EvaluationWorkerPool` of src/rastir/server/evaluation_worker.py: a task of the evaluation queue is
-- handed to its evaluators, and a span for each comes back to the worker. What a judge comes to,
-- the identifiers and Python's formatting of a message are outside. The details of a result, a
-- dictionary in the code, are one value. The thread pool is there; durations are clock ticks.
pub mod Judged
pub mod Spans
pub mod Rounds
use Prim.Native.String.{◌++◌ as append}
use rastir.Base.{
  ℕ, ◌+◌, ◌-◌, String, Bool, true, false, not, Option, none, some, List, [], ◌∷◌, ◌++◌, str_eq,
  ◌==◌, if◌then◌else◌,
}
use rastir.Dict
use rastir.Dict.{is_some}
use rastir.Exec.{pure, lift, gets, modify, when, ◌>>=◌, ◌>>◌}
use rastir.Span.{Span, Value, null, flag, num, text, truthy}
use rastir.Metrics.{Update, inc, observe, set, TraceRef, format_trace_id}
use rastir.Metrics.Labels.{Labels, emit, as_number}
use rastir.EvaluationQueue
use rastir.EvaluationQueue.{EvaluationQueue, EvaluationTask}
use rastir.Evaluators
use rastir.Evaluators.{Evaluator, EvaluatorRegistry}
use rastir.Ingestion.{Outside, Ingestion, Settings, Batch, W, next_call, enqueue}

-- A score is in millionths.
pub record EvaluationResult : Type 0 where
  pub evaluation_type : String
  pub score : ℕ
  pub passed : Bool
  pub details : Value
  pub error : Option String

-- What waiting for an evaluator comes to.
pub data Run : Type 0 where
  finished : EvaluationResult → Run
  timed_out : Run
  raised : String → Run

pub record Pool : Type 0 where
  pub registry : EvaluatorRegistry
  pub evaluate : ℕ → Evaluator → EvaluationTask → Run
  pub fresh_id : ℕ → String
  pub timeout_message : ℕ → String

abbrev error_result : String → String → EvaluationResult
error_result type message = record {
  evaluation_type = type;
  score = 0;
  passed = false;
  details = null;
  error = some message;
}

-- the result of the `try`, or of its handlers
unfoldable pub result_of : Pool → String → ℕ → Run → EvaluationResult
result_of p type timeout (finished r) = r
result_of p type timeout timed_out = error_result type (p.timeout_message timeout)
result_of p type timeout (raised message) = error_result type message

abbrev pub status_of : Option String → String
status_of none = "OK"
status_of (some e) = "ERROR"

abbrev pub error_attribute : Option String → Dict.Dict Value
error_attribute none = []
error_attribute (some e) = if str_eq e "" then [] else ("evaluation_error", text e) ∷ []

abbrev pub attribute_if : String → Value → Dict.Dict Value
attribute_if key v = if truthy v then (key, v) ∷ [] else []

-- `_eval_span_dict`, with the times that the caller fills in
unfoldable pub eval_span : String → EvaluationTask → EvaluationResult → ℕ → Evaluator → ℕ → Span
eval_span span_id task r duration e start = record {
  trace_id = some task.trace_id;
  span_id = some span_id;
  parent_id = some task.parent_span_id;
  name = some (append "evaluate:" r.evaluation_type);
  span_type = some "evaluation";
  status = some (status_of r.error);
  service = none;
  start_time = some start;
  end_time = some (start + duration);
  duration_ms = some duration;
  start_time_unix_nano = none;
  attributes =
      ("evaluation_type", text r.evaluation_type)
      ∷ ("evaluation_score", num r.score)
      ∷ ("evaluation_passed", flag r.passed)
      ∷ ("model", task.model)
      ∷ ("provider", task.provider)
      ∷ ("service", text task.service)
      ∷ ("env", text task.env)
      ∷ ("evaluator_model", text e.evaluator_model)
      ∷ ("evaluator_provider", text e.evaluator_provider)
      ∷ (attribute_if "agent" task.agent
          ++ attribute_if "evaluation_details" r.details
          ++ error_attribute r.error);
  events = [];
}

-- `a or b` for a time
abbrev pub time_or : Option ℕ → ℕ → ℕ
time_or none b = b
time_or (some a) b = if a == 0 then b else a

-- The evaluators of the types that the registry knows, in order.
unfoldable pub runnable : EvaluatorRegistry → List String → List (String × Evaluator)
runnable r [] = []
runnable r (type ∷ types) = elim (Evaluators.get type r) [
  | none ↦ runnable r types
  | some e ↦ (type, e) ∷ runnable r types
]

-- One of the `futures`.
pub record Submitted : Type 0 where
  pub type : String
  pub evaluator : Evaluator
  pub t0 : ℕ
  pub wall_start : ℕ

-- `start_time_unix_nano` of the stub, in ticks
abbrev span_stub : EvaluationTask → Span
span_stub task = record {
  trace_id = none;
  span_id = none;
  parent_id = none;
  name = none;
  span_type = none;
  status = none;
  service = none;
  start_time = none;
  end_time = none;
  duration_ms = none;
  start_time_unix_nano = some (time_or task.span_start_time task.enqueued_at);
  attributes = [];
  events = [];
}

abbrev or_empty : Value → Value
or_empty v = if truthy v then v else text ""

module _ (o : Outside) (p : Pool) where
  abbrev eval_labels : EvaluationTask → EvaluationResult → Evaluator → Labels
  eval_labels task r e =
      ("service", task.service)
      ∷ ("env", task.env)
      ∷ ("model", o.show task.model)
      ∷ ("provider", o.show task.provider)
      ∷ ("agent", o.show (or_empty task.agent))
      ∷ ("evaluation_type", r.evaluation_type)
      ∷ ("evaluator_model", e.evaluator_model)
      ∷ ("evaluator_provider", e.evaluator_provider)
      ∷ []

  unfoldable pub sample : String → Labels → Update → Option TraceRef → W (Unit {0})
  unfolding emit
  sample metric labels update exemplar w =
      (some tt, record w { metrics = (emit metric labels update exemplar w.metrics).1 })

  -- `_record_eval_metrics`, with the wall clock
  unfoldable pub record_eval_metrics :
      ℕ → EvaluationTask → EvaluationResult → ℕ → Evaluator → W (Unit {0})
  unfolding sample
  record_eval_metrics wall task r duration e = do
    exemplar ← gets (λ w.
        if str_eq task.trace_id ""
        then none
        else some (format_trace_id wall task.trace_id (span_stub task) w.metrics))
    let labels = eval_labels task r e
    sample "rastir_evaluation_runs_total" labels (inc 1) exemplar
    when (is_some r.error) (sample "rastir_evaluation_failures_total" labels (inc 1) exemplar)
    sample "rastir_evaluation_latency_seconds" labels (observe duration) exemplar
    sample "rastir_evaluation_score" labels (set r.score) none

  -- the loop that submits
  unfoldable pub submit : List (String × Evaluator) → W (List Submitted)
  unfolding next_call
  submit [] = pure []
  submit ((type, e) ∷ to_run) = do
    call ← next_call
    futures ← submit to_run
    pure (
        record { type = type; evaluator = e; t0 = o.monotonic call; wall_start = o.wall call }
        ∷ futures)

  -- one round of the loop that collects
  unfoldable pub collect_one : EvaluationTask → ℕ → Submitted → W Span
  unfolding next_call record_eval_metrics
  collect_one task timeout s = do
    call ← next_call
    let r = result_of p s.type timeout (p.evaluate call s.evaluator task)
    let duration = o.monotonic call - s.t0
    record_eval_metrics (o.wall call) task r duration s.evaluator
    pure (
        eval_span (p.fresh_id call) task r duration s.evaluator
          (time_or task.span_end_time s.wall_start))

  unfoldable pub collect : EvaluationTask → ℕ → List Submitted → W (List Span)
  unfolding collect_one
  collect task timeout [] = pure []
  collect task timeout (s ∷ futures) = do
    span ← collect_one task timeout s
    spans ← collect task timeout futures
    pure (span ∷ spans)

  module _ (c : Settings) where
    -- `self._emit_fn(...)`, which is the worker's `enqueue`
    unfoldable pub emit_spans : EvaluationTask → List Span → W (Unit {0})
    emit_spans task spans w = (
      some tt,
      (enqueue o c (record { service = task.service; env = task.env; version = ""; spans = spans })
          w).1,
    )

    unfoldable pub run_all : EvaluationTask → List (String × Evaluator) → W (Unit {0})
    unfolding submit collect emit_spans
    run_all task [] = pure tt
    run_all task (e ∷ to_run) = do
      timeout ← lift (as_number task.timeout_ms)
      futures ← submit (e ∷ to_run)
      spans ← collect task timeout futures
      emit_spans task spans

    -- `_process_task`
    unfoldable pub process_task : EvaluationTask → W (Unit {0})
    unfolding runnable run_all
    process_task task = run_all task (runnable p.registry task.evaluation_types)

    -- one round of `_drain_loop`; an exception of the task is logged.
    unfoldable pub drain_round : Ingestion → Ingestion
    unfolding process_task
    drain_round w = elim w.eval_queue [
      | none ↦ w
      | some q ↦ elim (EvaluationQueue.get q).0 [
        | none ↦ w
        | some task ↦
            (process_task task (record w { eval_queue = some (EvaluationQueue.get q).1 })).1
      ]
    ]
