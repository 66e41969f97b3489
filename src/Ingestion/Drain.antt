-- ===== src/Ingestion/Drain.antt =====
-- The final drain of `_run` in src/rastir/server/ingestion.py, after the stop signal.
use rastir.Base.{
  ℕ, zero, suc, ◌+◌, ◌≤◌, String, ◌≡◌, refl, ap, ◌∙◌, inl, inr, Bool, true, false, Option, none,
  some, List, [], ◌∷◌, arith, length, All, str_eq, if◌then◌else◌, Bool-cases,
}
use rastir.Queue
use rastir.Queue.{Queue}
use rastir.Exec.{pure, finished, continue, ◌>>◌}
use rastir.Span.{Span}
use rastir.Sampling.{should_store}
use rastir.Metrics.{inc}
use rastir.Redaction.{Redactor}
use rastir.Ingestion.{Outside, Ingestion, Settings, Batch, W, count, service_labels, on_metrics}
use rastir.Metrics.RecordSpan.{record_span}
use rastir.Ingestion.Process.{
  redact_with, store_span, export_span, evaluate_span, keep_span, route_span, process_span,
  process_spans, process_batch,
}

module _ (o : Outside) (c : Settings) where
  -- what is done with an item of the queue
  unfoldable pub drain_item : Batch → W (Unit {0})
  drain_item b = if str_eq b.service "__stop__" then pure tt else process_batch o c b

  -- the loop; each round takes an item.
  unfoldable pub drain_loop : ℕ → W (Unit {0})
  drain_loop zero w = (some tt, w)
  drain_loop (suc fuel) w = elim (Queue.get_nowait w.queue) [
    | none ↦ (some tt, w)
    | some (b, queue) ↦ (do drain_item b; drain_loop fuel) (record w { queue = queue })
  ]

  unfoldable pub final_drain : W (Unit {0})
  unfolding drain_loop
  final_drain w = drain_loop (Queue.qsize w.queue) w

  queue-evaluate_span :
      (span : Span) (service env : String) (w : Ingestion)
      → (evaluate_span o c span service env w).1.queue ≡ w.queue
  unfolding evaluate_span
  queue-evaluate_span span service env w = ground arith

  queue-store_span : (span : Span) (w : Ingestion) → (store_span o c span w).1.queue ≡ w.queue
  unfolding store_span
  queue-store_span span w = ground arith

  queue-export_span :
      (span : Span) (service env : String) (w : Ingestion)
      → (export_span o c span service env w).1.queue ≡ w.queue
  unfolding export_span
  queue-export_span span service env w = ground arith

  pub stored : (span : Span) (w : Ingestion) → (store_span o c span w).0 ≡ some tt
  unfolding store_span
  stored span w = ground arith

  pub exported :
      (span : Span) (service env : String) (w : Ingestion)
      → (export_span o c span service env w).0 ≡ some tt
  unfolding export_span
  exported span service env w = ground arith

  keep_span-Quiet :
      (kept : Option Span) (service env : String) (w : Ingestion)
      → ((keep_span o c kept service env w).0 ≡ some tt)
        × ((keep_span o c kept service env w).1.queue ≡ w.queue)
  unfolding keep_span evaluate_span
  keep_span-Quiet none service env w = (refl, refl)
  keep_span-Quiet (some span) service env w =
      let w1 = (store_span o c span w).1 in
      let w2 = (export_span o c span service env w1).1 in
      simp (stored span w, exported span service env w1)
        (
          refl,
          queue-evaluate_span span service env w2
              ∙ queue-export_span span service env w1
              ∙ queue-store_span span w,
        )

  redact_with-Quiet :
      (redactor : Option Redactor) (span : Span) (service env : String) (w : Ingestion)
      → (finished (redact_with o c redactor span service env w).0 ≡ true)
        × ((redact_with o c redactor span service env w).1.queue ≡ w.queue)
  unfolding redact_with
  redact_with-Quiet redactor span service env w = ground arith

  kept_after :
      (r : Option (Option Span)) (service env : String) (w : Ingestion)
      → finished r ≡ true
      → ((continue r (λ kept. keep_span o c kept service env) w).0 ≡ some tt)
        × ((continue r (λ kept. keep_span o c kept service env) w).1.queue ≡ w.queue)
  kept_after none service env w h = absurd (ground arith)
  kept_after (some kept) service env w h = keep_span-Quiet kept service env w

  pub route_span-Quiet :
      (store : Bool) (span : Span) (service env : String) (w : Ingestion)
      → ((route_span o c store span service env w).0 ≡ some tt)
        × ((route_span o c store span service env w).1.queue ≡ w.queue)
  unfolding route_span count
  route_span-Quiet false span service env w = ground arith
  route_span-Quiet true span service env w =
      let w1 = (count "rastir_spans_sampled_total" (service_labels service env) (inc 1) w).1 in
      let (done, same) = redact_with-Quiet c.redactor span service env w1 in
      let (done', same') =
        kept_after (redact_with o c c.redactor span service env w1).0 service env
          (redact_with o c c.redactor span service env w1).1 done in
      (done', same' ∙ same)

  -- The sampling decision of every span is made without an exception.
  abbrev pub Decides : Span → Type 0
  Decides span = (draw : ℕ) → finished (should_store c.sampling_rate span draw) ≡ true

  process_span-Quiet :
      (service env : String) (span : Span) (w : Ingestion)
      → Decides span
      → ((process_span o c service env span w).0 ≡ some tt)
        × ((process_span o c service env span w).1.queue ≡ w.queue)
  unfolding process_span
  process_span-Quiet service env span w d =
      routed (should_store c.sampling_rate span (o.random w.calls)) (d (o.random w.calls))
    where
      w1 : Ingestion
      w1 = record w { calls = w.calls + 1 }

      after : Bool → W (Unit {0})
      after store =
          on_metrics (record_span o.show (o.wall w.calls) span service env store)
          >> route_span o c store span service env

      routed :
          (r : Option Bool)
          → finished r ≡ true
          → ((continue r after w1).0 ≡ some tt) × ((continue r after w1).1.queue ≡ w.queue)
      routed none h = absurd (ground arith)
      routed (some store) h =
          route_span-Quiet store span service env
            (on_metrics (record_span o.show (o.wall w.calls) span service env store) w1).1

  process_spans-Quiet :
      (service env : String) (spans : List Span) (w : Ingestion)
      → All Decides spans
      → ((process_spans o c service env spans w).0 ≡ some tt)
        × ((process_spans o c service env spans w).1.queue ≡ w.queue)
  unfolding process_spans
  process_spans-Quiet service env [] w d = (refl, refl)
  process_spans-Quiet service env (span ∷ spans) w d =
      let (done, same) = process_span-Quiet service env span w d.0 in
      let (done', same') =
        process_spans-Quiet service env spans (process_span o c service env span w).1 d.1 in
      rw done (done', same' ∙ same)

  drain_item-Quiet :
      (b : Batch) (w : Ingestion)
      → All Decides b.spans
      → ((drain_item b w).0 ≡ some tt) × ((drain_item b w).1.queue ≡ w.queue)
  unfolding drain_item process_batch
  drain_item-Quiet b w d = elim (Bool-cases (str_eq b.service "__stop__")) [
    | inl stop ↦ rw stop (refl, refl)
    | inr batch ↦ rw batch (process_spans-Quiet b.service b.env b.spans _ d)
  ]

  drain_loop-empties :
      (fuel : ℕ) (w : Ingestion) (items : List Batch)
      → w.queue.items ≡ items
      → length items ≤ fuel
      → All (λ b. All Decides b.spans) items
      → ((drain_loop fuel w).0 ≡ some tt) × ((drain_loop fuel w).1.queue.items ≡ [])
  unfolding drain_loop Queue.get_nowait
  drain_loop-empties zero w [] e h d = (refl, e)
  drain_loop-empties zero w (b ∷ rest) e h d = absurd (omega arith)
  drain_loop-empties (suc fuel) w [] e h d = rw e (refl, refl)
  drain_loop-empties (suc fuel) w (b ∷ rest) e h d =
      let w' : Ingestion = record w { queue = record w.queue { items = rest } } in
      let (done, same) = drain_item-Quiet b w' d.0 in
      rw (e, done)
        (drain_loop-empties fuel (drain_item b w').1 rest (ap (λ q. q.items) same)
          (omega (arith, h)) d.1)

  -- Where the sampling decision of no queued span raises, the final drain goes through and leaves the
  -- queue empty.
  pub final_drain-empties :
      (w : Ingestion)
      → All (λ b. All Decides b.spans) w.queue.items
      → ((final_drain w).0 ≡ some tt) × ((final_drain w).1.queue.items ≡ [])
  unfolding final_drain
  final_drain-empties w d =
      drain_loop-empties (length w.queue.items) w w.queue.items refl (omega arith) d
