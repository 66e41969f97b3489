-- ===== src/Ingestion/Sound.antt =====
-- What every call of the worker keeps: the queue within its bound, the trace store and the evaluation
-- queue well formed.
pub mod Batches
pub mod Rounds
use rastir.Base.{
  ℕ, ◌+◌, ltb, leb, if◌then◌else◌, ◌≤◌, ◌<◌, String, ◌≡◌, refl, ap, sym, subst, ◌∙◌, inl, inr, Bool,
  true, false, Option, none, some, List, [], ◌∷◌, arith, length, str_eq, Bool-cases, Option-cases,
}
use rastir.Exec.{pure, continue, ◌>>◌}
use rastir.Span.{Span, num, texts, truthy}
use rastir.Queue
use rastir.Dict
use rastir.TraceStore.{TraceStore, insert}
use rastir.TraceStore.Invariant
use rastir.TraceStore.Insert.{insert-IsValid, max_traces-insert}
use rastir.EvaluationQueue.{EvaluationQueue, EvaluationTask, put}
use rastir.EvaluationQueue.Policies
use rastir.EvaluationQueue.Policies.{put-IsValid}
use rastir.Sampling.{should_store}
use rastir.Redaction.{Redactor}
use rastir.Metrics.{inc}
use rastir.Ingestion.Drain.{stored, exported}
use rastir.Metrics.RecordSpan.{record_span}
use rastir.Metrics.Labels.{attr_or, text_or, as_number}
use rastir.Ingestion.{
  Outside, Ingestion, Settings, Batch, W, on_metrics, count, service_labels, update_gauges, enqueue,
}
use rastir.Ingestion.Pipeline.{store-evaluate_span}
use rastir.Ingestion.Process.{
  as_list, epoch_or, or_absent, sampled_out, make_task, put_task, enqueue_task,
  maybe_enqueue_evaluation, evaluate_in, evaluate_span, store_in, store_span, export_span,
  redact_with, keep_span, route_span, process_span, process_spans, process_batch,
}

-- The trace store and the evaluation queue, if they are there, are well formed.
pub record Parts (w : Ingestion) : Type 0 where
  pub store : (s : TraceStore) → w.trace_store ≡ some s → Invariant.IsValid s × (0 < s.max_traces)
  pub tasks : (q : EvaluationQueue) → w.eval_queue ≡ some q → Policies.IsValid q

-- The queue has a bound and keeps it.
pub record Bounded (w : Ingestion) : Type 0 where
  pub positive : 0 < w.queue.maxsize
  pub fits : length w.queue.items ≤ w.queue.maxsize

pub record WellFormed (w : Ingestion) : Type 0 where
  pub queue : Bounded w
  pub parts : Parts w

pub Parts-same :
    (w w' : Ingestion)
    → w'.trace_store ≡ w.trace_store
    → w'.eval_queue ≡ w.eval_queue
    → Parts w
    → Parts w'
Parts-same w w' store tasks p = record {
  store = λ s e. p.store s (sym store ∙ e);
  tasks = λ q e. p.tasks q (sym tasks ∙ e);
}

-- The queue is what it was, or has been offered a task.
data Offered (q : EvaluationQueue) (old : Option EvaluationQueue)
    : Option EvaluationQueue → Type 0 where
  same : Offered q old old
  offered : (task : EvaluationTask) → Offered q old (some (put task q).1)

Offered-IsValid :
    (q : EvaluationQueue) (old new : Option EvaluationQueue)
    → Offered q old new
    → Policies.IsValid q
    → ((q' : EvaluationQueue) → old ≡ some q' → Policies.IsValid q')
    → (q' : EvaluationQueue) → new ≡ some q'
    → Policies.IsValid q'
Offered-IsValid q old _ same v h q' e = h q' e
Offered-IsValid q old _ (offered task) v h q' e =
    subst Policies.IsValid (ground (arith, e)) (put-IsValid task q v)

module _ (o : Outside) (c : Settings) where
  eval-put_task :
      (task : EvaluationTask) (q : EvaluationQueue) (w : Ingestion)
      → (put_task task q w).1.eval_queue ≡ some (put task q).1
  unfolding put_task
  eval-put_task task q w = ground arith

  enqueue_task-Offered :
      (span : Span) (service env : String) (q : EvaluationQueue) (w : Ingestion)
      → Offered q w.eval_queue (enqueue_task o c span service env q w).1.eval_queue
  unfolding enqueue_task
  enqueue_task-Offered span service env q w =
      let types = attr_or (texts []) (Dict.get "evaluation_types" span.attributes) in
      elim (Bool-cases (truthy types)) [
        | inr e ↦ subst (Offered q w.eval_queue) (ground (arith, e)) same
        | inl e ↦ elim (Option-cases (as_list types)) [
          | inl f ↦ subst (Offered q w.eval_queue) (ground (arith, e, f)) same
          | inr (l, f) ↦
              let epoch =
                epoch_or (Dict.get (text_or "" span.trace_id) w.metrics.trace_epoch_cache)
                  span.start_time in
              let timeout =
                attr_or (num c.default_timeout_ms)
                  (Dict.get "evaluation_timeout_ms" span.attributes) in
              let task = make_task l timeout epoch (o.wall w.calls) span service env in
              subst (Offered q w.eval_queue)
                (ground (arith, e, f, eval-put_task task q (record w { calls = w.calls + 1 })))
                (offered task)
        ]
      ]

  store-store_in :
      (s : TraceStore) (trace_id : String) (span : Span) (w : Ingestion)
      → (store_in o c (some s) trace_id span w).1.trace_store ≡ (
          if str_eq trace_id ""
          then w.trace_store
          else some
              (insert trace_id (span ∷ []) (o.monotonic w.calls) (o.monotonic (w.calls + 1)) s).1)
  unfolding store_in
  store-store_in s trace_id span w = ground arith

  maybe_enqueue_evaluation-Offered :
      (span : Span) (service env : String) (q : EvaluationQueue) (w : Ingestion)
      → Offered q w.eval_queue (maybe_enqueue_evaluation o c span service env q w).1.eval_queue
  unfolding maybe_enqueue_evaluation sampled_out
  maybe_enqueue_evaluation-Offered span service env q w =
      let number =
        as_number (
          attr_or (num c.default_sample_rate)
            (Dict.get "evaluation_sample_rate" span.attributes)) in
      let w1 : Ingestion = record w { calls = w.calls + 1 } in
      elim (Bool-cases (truthy (or_absent (Dict.get "evaluation_enabled" span.attributes)))) [
        | inr e ↦ subst (Offered q w.eval_queue) (ground (arith, e)) same
        | inl e ↦ elim (Option-cases number) [
          | inl f ↦ subst (Offered q w.eval_queue) (ground (arith, e, f)) same
          | inr (rate, f) ↦ elim (Bool-cases (ltb rate 1000000)) [
            | inr g ↦
                subst (Offered q w.eval_queue) (ground (arith, e, f, g))
                  (enqueue_task-Offered span service env q w)
            | inl g ↦ elim (Bool-cases (leb rate (o.random w.calls))) [
              | inl h ↦ subst (Offered q w.eval_queue) (ground (arith, e, f, g, h)) same
              | inr h ↦
                  subst (Offered q w.eval_queue) (ground (arith, e, f, g, h))
                    (enqueue_task-Offered span service env q w1)
            ]
          ]
        ]
      ]

  evaluate_span-Parts :
      (span : Span) (service env : String) (w : Ingestion)
      → Parts w
      → Parts (evaluate_span o c span service env w).1
  unfolding evaluate_span evaluate_in
  evaluate_span-Parts span service env w p = elim (Option-cases w.eval_queue) [
    | inl e ↦ Parts-same w _ (ground (arith, e)) (ground (arith, e)) p
    | inr (q, e) ↦ record {
      store = λ s f. p.store s (ground (arith, e, f, store-evaluate_span o c service env span w));
      tasks = elim (Bool-cases (str_eq (text_or "" span.status) "ERROR")) [
        | inl f ↦ λ q' g. p.tasks q' (ground (arith, e, f, g))
        | inr f ↦
            Offered-IsValid q w.eval_queue _
              (subst (Offered q w.eval_queue) (ground (arith, e, f))
                (maybe_enqueue_evaluation-Offered span service env q w))
              (p.tasks q e) p.tasks
      ];
    }
  ]

  store_span-Parts : (span : Span) (w : Ingestion) → Parts w → Parts (store_span o c span w).1
  unfolding store_span
  store_span-Parts span w p = elim (Option-cases w.trace_store) [
    | inl e ↦ Parts-same w _ (ground (arith, e)) (ground (arith, e)) p
    | inr (s, e) ↦
        let trace_id = text_or "" span.trace_id in
        let (valid, room) = p.store s e in
        record {
          store = elim (Bool-cases (str_eq trace_id "")) [
            | inl f ↦ λ s' g. p.store s' (ground (arith, e, f, g))
            | inr f ↦ λ s' g.
                let s1 =
                  (insert trace_id (span ∷ []) (o.monotonic w.calls) (o.monotonic (w.calls + 1))
                    s).1 in
                let same_store : s1 ≡ s' =
                  ground (arith, e, f, g, store-store_in s trace_id span w) in
                let kept : 0 < s1.max_traces = omega (
                  arith,
                  room,
                  max_traces-insert trace_id (span ∷ []) (o.monotonic w.calls)
                      (o.monotonic (w.calls + 1)) s room valid,
                ) in
                (
                  subst Invariant.IsValid same_store
                      (insert-IsValid trace_id (span ∷ []) (o.monotonic w.calls)
                        (o.monotonic (w.calls + 1)) s room valid).1,
                  subst (λ s. 0 < s.max_traces) same_store kept,
                )
          ];
          tasks = λ q f. p.tasks q (ground (arith, e, f));
        }
  ]

  export_span-Parts :
      (span : Span) (service env : String) (w : Ingestion)
      → Parts w
      → Parts (export_span o c span service env w).1
  unfolding export_span
  export_span-Parts span service env w = Parts-same w _ (ground arith) (ground arith)

  pub redact_with-Parts :
      (redactor : Option Redactor) (span : Span) (service env : String) (w : Ingestion)
      → Parts w
      → Parts (redact_with o c redactor span service env w).1
  unfolding redact_with
  redact_with-Parts redactor span service env w = Parts-same w _ (ground arith) (ground arith)

  pub keep_span-Parts :
      (kept : Option Span) (service env : String) (w : Ingestion)
      → Parts w
      → Parts (keep_span o c kept service env w).1
  unfolding keep_span
  keep_span-Parts none service env w p = p
  keep_span-Parts (some span) service env w p =
      let w1 = (store_span o c span w).1 in
      let w2 = (export_span o c span service env w1).1 in
      subst Parts (ground (arith, stored o c span w, exported o c span service env w1)) (
        evaluate_span-Parts span service env w2
          (export_span-Parts span service env w1 (store_span-Parts span w p)))
