-- ===== src/EvaluationWorker/Rounds.antt =====
-- The rounds of the evaluation workers of src/rastir/server/evaluation_worker.py, and what becomes of
-- their spans in the ingestion worker.
use rastir.Base.{
  ◌+◌, String, ◌≡◌, refl, subst, inl, inr, Bool, true, false, Option, none, some, List, [], ◌∷◌,
  arith, All, Option-cases,
}
use rastir.Exec.{continue, ◌>>◌}
use rastir.Span.{Span}
use rastir.Sampling.{should_store}
use rastir.Metrics.{inc}
use rastir.Metrics.Labels.{as_number}
use rastir.Metrics.RecordSpan.{record_span}
use rastir.EvaluationQueue
use rastir.EvaluationQueue.{EvaluationQueue, EvaluationTask}
use rastir.EvaluationQueue.Policies
use rastir.EvaluationQueue.Policies.{get-IsValid}
use rastir.Evaluators.{Evaluator}
use rastir.Redaction.{Redactor}
use rastir.Ingestion.{Outside, Ingestion, Settings, Batch, W, count, service_labels, on_metrics}
use rastir.Ingestion.Process.{
  maybe_enqueue_evaluation, evaluate_in, evaluate_span, store_span, export_span, redact_with,
  keep_span, route_span, process_span, process_spans, process_batch,
}
use rastir.Ingestion.Drain.{stored, exported}
use rastir.Ingestion.Sound.{Parts-same, WellFormed}
use rastir.Ingestion.Sound.Rounds.{enqueue-WellFormed}
use rastir.EvaluationWorker.{
  Pool, runnable, submit, collect, emit_spans, run_all, process_task, drain_round,
}
use rastir.EvaluationWorker.Spans.{Correlated, Frame, submit_lem, collect_lem}

module _ (o : Outside) (c : Settings) where
  -- `evaluate_span` on a span that asks for no evaluation
  tasks-evaluate_span :
      (task : EvaluationTask) (s : Span) (service env : String) (w : Ingestion)
      → Correlated task s
      → (evaluate_span o c s service env w).1.eval_queue ≡ w.eval_queue
  unfolding evaluate_span evaluate_in maybe_enqueue_evaluation
  tasks-evaluate_span task s service env w h = ground (arith, h.no_request)

  tasks-store_span : (s : Span) (w : Ingestion) → (store_span o c s w).1.eval_queue ≡ w.eval_queue
  unfolding store_span
  tasks-store_span s w = ground arith

  tasks-export_span :
      (s : Span) (service env : String) (w : Ingestion)
      → (export_span o c s service env w).1.eval_queue ≡ w.eval_queue
  unfolding export_span
  tasks-export_span s service env w = ground arith

  redact_with-Correlated :
      (task : EvaluationTask) (r : Option Redactor) (s : Span) (service env : String)
      (w : Ingestion)
      → Correlated task s
      → redact_with o c r s service env w ≡ (some (some s), w)
  unfolding redact_with
  redact_with-Correlated task none s service env w h = refl
  redact_with-Correlated task (some r) s service env w h =
      ground (arith, h.no_prompt, h.no_completion)

  tasks-keep_span :
      (task : EvaluationTask) (s : Span) (service env : String) (w : Ingestion)
      → Correlated task s
      → (keep_span o c (some s) service env w).1.eval_queue ≡ w.eval_queue
  unfolding keep_span
  tasks-keep_span task s service env w h =
      let w1 = (store_span o c s w).1 in
      let w2 = (export_span o c s service env w1).1 in
      ground (
        arith,
        stored o c s w,
        exported o c s service env w1,
        tasks-store_span s w,
        tasks-export_span s service env w1,
        tasks-evaluate_span task s service env w2 h,
      )

  tasks-route_span :
      (task : EvaluationTask) (s : Span) (store : Bool) (service env : String) (w : Ingestion)
      → Correlated task s
      → (route_span o c store s service env w).1.eval_queue ≡ w.eval_queue
  unfolding route_span count
  tasks-route_span task s false service env w h = refl
  tasks-route_span task s true service env w h =
      let w1 = (count "rastir_spans_sampled_total" (service_labels service env) (inc 1) w).1 in
      ground (
        arith,
        redact_with-Correlated task c.redactor s service env w1 h,
        tasks-keep_span task s service env w1 h,
      )

  tasks-process_span :
      (task : EvaluationTask) (service env : String) (s : Span) (w : Ingestion)
      → Correlated task s
      → (process_span o c service env s w).1.eval_queue ≡ w.eval_queue
  unfolding process_span
  tasks-process_span task service env s w h =
      routed (should_store c.sampling_rate s (o.random w.calls))
    where
      w1 : Ingestion
      w1 = record w { calls = w.calls + 1 }

      after : Bool → W (Unit {0})
      after store =
          on_metrics (record_span o.show (o.wall w.calls) s service env store)
          >> route_span o c store s service env

      routed : (r : Option Bool) → (continue r after w1).1.eval_queue ≡ w.eval_queue
      routed none = refl
      routed (some store) =
          tasks-route_span task s store service env
            (on_metrics (record_span o.show (o.wall w.calls) s service env store) w1).1 h

  tasks-process_spans :
      (task : EvaluationTask) (service env : String) (spans : List Span) (w : Ingestion)
      → All (Correlated task) spans
      → (process_spans o c service env spans w).1.eval_queue ≡ w.eval_queue
  unfolding process_spans
  tasks-process_spans task service env [] w h = refl
  tasks-process_spans task service env (s ∷ spans) w h = ground (
    arith,
    tasks-process_span task service env s w h.0,
    tasks-process_spans task service env spans (process_span o c service env s w).1 h.1,
  )

  -- The ingestion of a batch of evaluation spans, whatever the settings and whatever comes of it,
  -- queues no task: an evaluation is never evaluated.
  pub tasks-process_batch :
      (task : EvaluationTask) (b : Batch) (w : Ingestion)
      → All (Correlated task) b.spans
      → (process_batch o c b w).1.eval_queue ≡ w.eval_queue
  unfolding process_batch
  tasks-process_batch task b w h = tasks-process_spans task b.service b.env b.spans _ h

  WellFormed-same : (w w' : Ingestion) → Frame w w' → WellFormed w → WellFormed w'
  WellFormed-same w w' f h = record {
    queue = record {
      positive = ground (arith, f.queue, h.queue.positive);
      fits = ground (arith, f.queue, h.queue.fits);
    };
    parts = Parts-same w w' f.store f.tasks h.parts;
  }

  module _ (p : Pool) where
    process_task-WellFormed :
        (task : EvaluationTask) (w : Ingestion)
        → WellFormed w
        → WellFormed (process_task o p c task w).1
    unfolding process_task run_all emit_spans
    process_task-WellFormed task w h = by_types (runnable p.registry task.evaluation_types)
      where
        by_types : (to_run : List (String × Evaluator)) → WellFormed (run_all o p c task to_run w).1
        by_types [] = h
        by_types (e ∷ to_run) = elim (Option-cases (as_number task.timeout_ms)) [
          | inl f ↦ subst WellFormed (ground (arith, f)) h
          | inr (timeout, f) ↦
              let (futures, made, counted, frame) = submit_lem o p (e ∷ to_run) w in
              let w1 = (submit o p (e ∷ to_run) w).1 in
              let (spans, made', counted', correlated, frame') =
                collect_lem o p task timeout futures w1 in
              let w2 = (collect o p task timeout futures w1).1 in
              let b : Batch = record {
                service = task.service;
                env = task.env;
                version = "";
                spans = spans;
              } in
              subst WellFormed (ground (arith, f, made, made')) (
                enqueue-WellFormed o c b w2
                  (WellFormed-same w1 w2 frame' (WellFormed-same w w1 frame h)))
        ]

    without_task-WellFormed :
        (w : Ingestion) (q : EvaluationQueue) (task : EvaluationTask)
        → w.eval_queue ≡ some q
        → (EvaluationQueue.get q).0 ≡ some task
        → WellFormed w
        → WellFormed (record w { eval_queue = some (EvaluationQueue.get q).1 })
    without_task-WellFormed w q task e f h = record {
      queue = record { positive = h.queue.positive; fits = h.queue.fits };
      parts = record {
        store = h.parts.store;
        tasks =
            λ q' g. subst Policies.IsValid (ground (arith, g)) (get-IsValid q (h.parts.tasks q e));
      };
    }

    pub drain_round-WellFormed : (w : Ingestion) → WellFormed w → WellFormed (drain_round o p c w)
    unfolding drain_round
    drain_round-WellFormed w h = elim (Option-cases w.eval_queue) [
      | inl e ↦ subst WellFormed (ground (arith, e)) h
      | inr (q, e) ↦ elim (Option-cases (EvaluationQueue.get q).0) [
        | inl f ↦ subst WellFormed (ground (arith, e, f)) h
        | inr (task, f) ↦
            subst WellFormed (ground (arith, e, f))
              (process_task-WellFormed task _ (without_task-WellFormed w q task e f h))
      ]
    ]
