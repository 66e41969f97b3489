-- ===== src/Collector/Stopped.antt =====
-- What src/rastir/server/app.py does once the consumer of its worker has stopped.
use mathlib.Core.List.{append_assoc}
use rastir.Base.{
  ◌++◌, sym, ap, ℕ, ◌≡◌, refl, ◌∙◌, inl, inr, Bool, true, false, Option, none, some, List, [], ◌∷◌,
  arith, Option-cases, String,
}
use rastir.Queue
use rastir.EvaluationQueue
use rastir.EvaluationQueue.{EvaluationQueue, EvaluationTask}
use rastir.Evaluators.{Evaluator}
use rastir.Metrics.Labels.{as_number}
use rastir.EvaluationWorker.{
  Pool, runnable, submit, collect, emit_spans, run_all, process_task, drain_round,
}
use rastir.EvaluationWorker.Spans.{submit_lem, collect_lem}
use rastir.Ingestion.{
  Outside, Ingestion, Settings, Batch, update_gauges, soft_warning, put_batch, evict_batch,
  hard_limit, enqueue,
}
use rastir.Ingestion.Backpressure.{soft_warning_lem}
use rastir.Ingestion.Loop.{stopped}
use rastir.Collector.{Collector}
use rastir.Collector.Routes.{
  Request, telemetry_batch, tag_tenant, check_rate, accept_batch, take_batch, ingest_telemetry,
  prometheus_metrics, query_traces,
}
use rastir.Collector.Admin.{Host}
use rastir.Collector.Updates.{reload_config-Guarded, update_config-Guarded}
use rastir.Collector.Runs.{
  System, Step, telemetry, scrape, query, update, evaluation, reload, round, Reach, here, step,
}

-- The tasks that wait for the evaluation, and how many have been dropped.
abbrev pub waiting : Option EvaluationQueue → List EvaluationTask
waiting none = []
waiting (some q) = q.queue.items

abbrev pub dropped : Option EvaluationQueue → ℕ
dropped none = 0
dropped (some q) = q.dropped

-- Nothing has been exported, and no task has been added for the evaluation: those that waited have been
-- taken from the front, or wait in their order.
pub record Idle (w w' : Ingestion) : Type 0 where
  pub exported : w'.otlp ≡ w.otlp
  pub taken : List EvaluationTask
  pub evaluated : waiting w.eval_queue ≡ taken ++ waiting w'.eval_queue
  pub none_dropped : dropped w'.eval_queue ≡ dropped w.eval_queue

record Still (w w' : Ingestion) : Type 0 where
  exported : w'.otlp ≡ w.otlp
  tasks : w'.eval_queue ≡ w.eval_queue

Still-Idle : {w w' : Ingestion} → Still w w' → Idle w w'
Still-Idle s = record {
  exported = s.exported;
  taken = [];
  evaluated = ap waiting (sym s.tasks);
  none_dropped = ap dropped s.tasks;
}

module _ (o : Outside) where
  module _ (c : Settings) where
    put_batch-Still : (b : Batch) (w : Ingestion) → Still w (put_batch o c b w).1
    unfolding put_batch update_gauges
    put_batch-Still b w = ground arith

    evict_batch-Still : (w : Ingestion) → Still w (evict_batch o c w).1
    unfolding evict_batch
    evict_batch-Still w = ground arith

    evicted : (w : Ingestion) → (evict_batch o c w).0 ≡ some tt
    unfolding evict_batch
    evicted w = ground arith

    soft_warning-Still : (w : Ingestion) → Still w (soft_warning o c w).1
    unfolding soft_warning
    soft_warning-Still w = ground arith

    hard_limit-Still :
        (b : Batch) (full : Bool) (w : Ingestion) → Still w (hard_limit o c b full w).1
    unfolding hard_limit
    hard_limit-Still b false w = put_batch-Still b w
    hard_limit-Still b true w =
        ground (arith, evict_batch-Still w, evicted w, put_batch-Still b (evict_batch o c w).1)

    enqueue-Still : (b : Batch) (w : Ingestion) → Still w (enqueue o c b w).1
    unfolding enqueue
    enqueue-Still b w =
        let w1 = (soft_warning o c w).1 in
        ground (
          arith,
          soft_warning_lem o c w,
          soft_warning-Still w,
          hard_limit-Still b (Queue.full w1.queue) w1,
        )

  ingest_telemetry-Still :
      (r : Request) (c : Collector) → Still c.worker (ingest_telemetry o r c).1.worker
  unfolding ingest_telemetry take_batch accept_batch
  ingest_telemetry-Still r c = elim (Option-cases (telemetry_batch r.payload)) [
    | inl e ↦ ground (arith, e)
    | inr (b, e) ↦ elim (Option-cases (check_rate c.rate_limiter r b.service).0) [
      | inr (d, f) ↦ ground (arith, e, f)
      | inl f ↦
          ground
            (arith, e, f, enqueue-Still c.settings (tag_tenant c.config.multi_tenant r b) c.worker)
    ]
  ]

  module _ (p : Pool) (c : Settings) where
    run_all-Still :
        (task : EvaluationTask) (to_run : List (String × Evaluator)) (w : Ingestion)
        → Still w (run_all o p c task to_run w).1
    unfolding run_all emit_spans
    run_all-Still task [] w = record { exported = refl; tasks = refl }
    run_all-Still task (e ∷ to_run) w = elim (Option-cases (as_number task.timeout_ms)) [
      | inl f ↦ ground (arith, f)
      | inr (timeout, f) ↦
          let (futures, made, counted, frame) = submit_lem o p (e ∷ to_run) w in
          let w1 = (submit o p (e ∷ to_run) w).1 in
          let (spans, made', counted', correlated, frame') =
            collect_lem o p task timeout futures w1 in
          let w2 = (collect o p task timeout futures w1).1 in
          let b : Batch = record {
            service = task.service;
            env = task.env;
            version = "";
            spans = spans;
          } in
          ground (arith, f, made, made', frame, frame', enqueue-Still c b w2)
    ]

    -- A task is taken from the front, if there is one.
    record Taken (q : EvaluationQueue) : Type 0 where
      taken : List EvaluationTask
      left : q.queue.items ≡ taken ++ (EvaluationQueue.get q).1.queue.items
      same : (EvaluationQueue.get q).1.dropped ≡ q.dropped

    get-Taken : (q : EvaluationQueue) → Taken q
    unfolding EvaluationQueue.get Queue.get_nowait
    get-Taken q = by_items q.queue.items refl
      where
        by_items : (items : List EvaluationTask) → q.queue.items ≡ items → Taken q
        by_items [] e = record { taken = []; left = ground (arith, e); same = ground (arith, e) }
        by_items (t ∷ rest) e = record {
          taken = t ∷ [];
          left = ground (arith, e);
          same = ground (arith, e);
        }

    drain_round-Idle : (w : Ingestion) → Idle w (drain_round o p c w)
    unfolding drain_round process_task
    drain_round-Idle w = elim (Option-cases w.eval_queue) [
      | inl e ↦ Still-Idle (ground (arith, e))
      | inr (q, e) ↦ elim (Option-cases (EvaluationQueue.get q).0) [
        | inl f ↦ Still-Idle (ground (arith, e, f))
        | inr (task, f) ↦
            let w1 : Ingestion = record w { eval_queue = some (EvaluationQueue.get q).1 } in
            let still = run_all-Still task (runnable p.registry task.evaluation_types) w1 in
            let got = get-Taken q in
            let result : drain_round o p c w
                ≡ (run_all o p c task (runnable p.registry task.evaluation_types) w1).1 =
              ground (arith, e, f) in
            let tasks = ap (λ w. w.eval_queue) result ∙ still.tasks in
            record {
              exported = ap (λ w. w.otlp) result ∙ still.exported;
              taken = got.taken;
              evaluated = ap waiting e ∙ got.left ∙ ap (λ t. got.taken ++ waiting t) (sym tasks);
              none_dropped = ap dropped tasks ∙ got.same ∙ ap dropped (sym e);
            }
      ]
    ]

  update_gauges-Still : (w : Ingestion) → Still w (update_gauges o w).1
  unfolding update_gauges
  update_gauges-Still w = ground arith

  query_traces-Still :
      (trace_id service : Option _) (limit : _) (now : ℕ) (c : Collector)
      → Still c.worker (query_traces trace_id service limit now c).1.worker
  unfolding query_traces
  query_traces-Still trace_id service limit now c = ground arith

  module _ (host : Host) where
    Step-Idle :
        (s t : System)
        → Step o host s t
        → s.phase ≡ stopped
        → (t.phase ≡ stopped) × Idle s.collector.worker t.collector.worker
    unfolding prometheus_metrics
    Step-Idle _ _ (telemetry r s) h = (h, Still-Idle (ingest_telemetry-Still r s.collector))
    Step-Idle _ _ (scrape s) h = (h, Still-Idle (update_gauges-Still s.collector.worker))
    Step-Idle _ _ (query trace_id service limit now s) h =
        (h, Still-Idle (query_traces-Still trace_id service limit now s.collector))
    Step-Idle _ _ (update body s) h =
        (h, Still-Idle (ground (arith, (update_config-Guarded host body s.collector).parts.worker)))
    Step-Idle _ _ (reload s) h =
        (h, Still-Idle (ground (arith, (reload_config-Guarded host s.collector).parts.worker)))
    Step-Idle _ _ (evaluation p s e) h =
        (h, drain_round-Idle p s.collector.settings s.collector.worker)
    Step-Idle _ _ (round c) h = absurd (ground (arith, h))

    -- Once the consumer has stopped it stays so, in every order of requests, scrapes, updates and
    -- evaluations: what is accepted from then on is never exported and never handed to the
    -- evaluation, whose tasks are those that waited before, without the ones taken since.
    pub Reach-stopped :
        (s t : System)
        → s.phase ≡ stopped
        → Reach o host s t
        → (t.phase ≡ stopped) × Idle s.collector.worker t.collector.worker
    Reach-stopped _ _ h (here s) = (h, Still-Idle (record { exported = refl; tasks = refl }))
    Reach-stopped _ _ h (step s t u one more) =
        let (phase, idle) = Step-Idle s t one h in
        let (phase', idle') = Reach-stopped t u phase more in
        (
          phase',
          record {
            exported = idle'.exported ∙ idle.exported;
            taken = idle.taken ++ idle'.taken;
            evaluated =
                idle.evaluated
                ∙ ap (λ l. idle.taken ++ l) idle'.evaluated
                ∙ sym (append_assoc idle.taken idle'.taken (waiting u.collector.worker.eval_queue));
            none_dropped = idle'.none_dropped ∙ idle.none_dropped;
          },
        )
