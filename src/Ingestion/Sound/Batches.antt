-- ===== src/Ingestion/Sound/Batches.antt =====
-- The batches of the worker, and what is put in its queue, keep its parts well formed.
use rastir.Base.{
  ◌+◌, String, refl, subst, inl, inr, Bool, true, false, Option, none, some, List, [], ◌∷◌, arith,
  str_eq, Bool-cases, Option-cases,
}
use rastir.Exec.{continue, ◌>>◌}
use rastir.Span.{Span}
use rastir.Queue
use rastir.Sampling.{should_store}
use rastir.Metrics.{inc}
use rastir.Metrics.RecordSpan.{record_span}
use rastir.Ingestion.{
  Outside, Ingestion, Settings, Batch, W, on_metrics, count, service_labels, update_gauges, enqueue,
}
use rastir.Ingestion.Process.{
  redact_with, keep_span, route_span, process_span, process_spans, process_batch,
}
use rastir.Ingestion.Sound.{Parts, Parts-same, keep_span-Parts, redact_with-Parts}
use rastir.Ingestion.{soft_warning, put_batch, evict_batch, hard_limit}
use rastir.Ingestion.Backpressure.{soft_warning_lem}

module _ (o : Outside) (c : Settings) where
  kept_after :
      (r : Option (Option Span)) (service env : String) (w : Ingestion)
      → Parts w
      → Parts (continue r (λ kept. keep_span o c kept service env) w).1
  kept_after none service env w p = p
  kept_after (some kept) service env w p = keep_span-Parts o c kept service env w p

  route_span-Parts :
      (store : Bool) (span : Span) (service env : String) (w : Ingestion)
      → Parts w
      → Parts (route_span o c store span service env w).1
  unfolding route_span count
  route_span-Parts false span service env w p = Parts-same w _ refl refl p
  route_span-Parts true span service env w p =
      let w1 = (count "rastir_spans_sampled_total" (service_labels service env) (inc 1) w).1 in
      kept_after (redact_with o c c.redactor span service env w1).0 service env _
        (redact_with-Parts o c c.redactor span service env w1 (Parts-same w w1 refl refl p))

  process_span-Parts :
      (service env : String) (span : Span) (w : Ingestion)
      → Parts w
      → Parts (process_span o c service env span w).1
  unfolding process_span
  process_span-Parts service env span w p =
      routed (should_store c.sampling_rate span (o.random w.calls))
    where
      w1 : Ingestion
      w1 = record w { calls = w.calls + 1 }

      after : Bool → W (Unit {0})
      after store =
          on_metrics (record_span o.show (o.wall w.calls) span service env store)
          >> route_span o c store span service env

      routed : (r : Option Bool) → Parts (continue r after w1).1
      routed none = Parts-same w w1 refl refl p
      routed (some store) =
          let w2 = (on_metrics (record_span o.show (o.wall w.calls) span service env store) w1).1 in
          route_span-Parts store span service env w2 (Parts-same w w2 refl refl p)

  after_span :
      (r : Option (Unit {0})) (rest : W (Unit {0})) (w : Ingestion)
      → Parts w
      → Parts (rest w).1
      → Parts (continue r (λ _. rest) w).1
  after_span none rest w p q = p
  after_span (some _) rest w p q = q

  process_spans-Parts :
      (service env : String) (spans : List Span) (w : Ingestion)
      → Parts w
      → Parts (process_spans o c service env spans w).1
  unfolding process_spans
  process_spans-Parts service env [] w p = p
  process_spans-Parts service env (span ∷ spans) w p =
      let w1 = (process_span o c service env span w).1 in
      let p1 = process_span-Parts service env span w p in
      after_span (process_span o c service env span w).0 (process_spans o c service env spans) w1 p1
        (process_spans-Parts service env spans w1 p1)

  pub process_batch-Parts : (b : Batch) (w : Ingestion) → Parts w → Parts (process_batch o c b w).1
  unfolding process_batch
  process_batch-Parts b w p =
      process_spans-Parts b.service b.env b.spans _ (Parts-same w _ refl refl p)

  pub update_gauges-Parts : (w : Ingestion) → Parts w → Parts (update_gauges o w).1
  unfolding update_gauges
  update_gauges-Parts w = Parts-same w _ (ground arith) (ground arith)

  put_batch-Parts : (b : Batch) (w : Ingestion) → Parts w → Parts (put_batch o c b w).1
  unfolding put_batch update_gauges
  put_batch-Parts b w = Parts-same w _ (ground arith) (ground arith)

  hard_limit-Parts :
      (b : Batch) (full : Bool) (w : Ingestion) → Parts w → Parts (hard_limit o c b full w).1
  unfolding hard_limit evict_batch count
  hard_limit-Parts b false w p = put_batch-Parts b w p
  hard_limit-Parts b true w p = elim (Bool-cases (str_eq c.mode "drop_oldest")) [
    | inr e ↦ Parts-same w _ (ground (arith, e)) (ground (arith, e)) p
    | inl e ↦ elim (Option-cases (Queue.get_nowait w.queue)) [
      | inl f ↦ subst Parts (ground (arith, e, f)) (put_batch-Parts b w p)
      | inr ((oldest, queue), f) ↦
          let w1 =
            (count "rastir_spans_dropped_by_backpressure_total" [] (inc 1)
              (record w { queue = queue })).1 in
          subst Parts (ground (arith, e, f)) (put_batch-Parts b w1 (Parts-same w w1 refl refl p))
    ]
  ]

  soft_warning-Parts : (w : Ingestion) → Parts w → Parts (soft_warning o c w).1
  unfolding soft_warning
  soft_warning-Parts w = Parts-same w _ (ground arith) (ground arith)

  pub enqueue-Parts : (b : Batch) (w : Ingestion) → Parts w → Parts (enqueue o c b w).1
  unfolding enqueue
  enqueue-Parts b w p =
      let w1 = (soft_warning o c w).1 in
      subst Parts (ground (arith, soft_warning_lem o c w))
        (hard_limit-Parts b (Queue.full w1.queue) w1 (soft_warning-Parts w p))
