-- ===== src/Ingestion/Loop.antt =====
-- The consumer loop `_run` of src/rastir/server/ingestion.py: one batch after the other up to the
-- stop signal, which is a batch whose service is `__stop__`, and then the final drain.
use rastir.Base.{
  ℕ, zero, suc, ◌+◌, String, ◌≡◌, refl, sym, ap, subst, ◌∙◌, Bool, true, false, Option, none, some,
  List, [], ◌∷◌, ◌++◌, arith, length, All, str_eq, if◌then◌else◌,
}
use rastir.Queue
use rastir.Queue.{Queue}
use rastir.Exec.{continue, ◌>>◌}
use rastir.Span.{Span}
use rastir.Sampling.{should_store}
use rastir.Ingestion.{Outside, Ingestion, Settings, Batch, W, on_metrics, update_gauges}
use rastir.Ingestion.Process.{route_span, process_span, process_spans, process_batch}
use rastir.Metrics.RecordSpan.{record_span}
use rastir.Ingestion.Drain.{Decides, route_span-Quiet, final_drain, final_drain-empties}

-- Whether the consumer still runs.
pub data Phase : Type 0 where
  running stopped : Phase

module _ (o : Outside) (c : Settings) where
  -- an exception of the batch is logged, and what was changed before it stays.
  unfoldable pub process_logged : Batch → Ingestion → Ingestion
  process_logged b w = (process_batch o c b w).1

  -- one round of the loop: a batch, or the time-out of an empty queue
  unfoldable pub run_round : Ingestion → Phase × Ingestion
  unfolding process_logged
  run_round w = elim (Queue.get_nowait w.queue) [
    | none ↦ (running, (update_gauges o w).1)
    | some (b, queue) ↦
        (let w' = (update_gauges o (record w { queue = queue })).1 in
          if str_eq b.service "__stop__"
          then (stopped, (final_drain o c w').1)
          else (running, process_logged b w'))
  ]

  unfoldable pub run_rounds : ℕ → Ingestion → Phase × Ingestion
  run_rounds zero w = (running, w)
  run_rounds (suc n) w = elim (run_round w).0 [
    | stopped ↦ run_round w
    | running ↦ run_rounds n (run_round w).1
  ]

  pub queue-update_gauges : (w : Ingestion) → (update_gauges o w).1.queue ≡ w.queue
  unfolding update_gauges
  queue-update_gauges w = ground arith

  queue-process_span :
      (service env : String) (span : Span) (w : Ingestion)
      → (process_span o c service env span w).1.queue ≡ w.queue
  unfolding process_span
  queue-process_span service env span w =
      routed (should_store c.sampling_rate span (o.random w.calls))
    where
      w1 : Ingestion
      w1 = record w { calls = w.calls + 1 }

      after : Bool → W (Unit {0})
      after store =
          on_metrics (record_span o.show (o.wall w.calls) span service env store)
          >> route_span o c store span service env

      routed : (r : Option Bool) → (continue r after w1).1.queue ≡ w.queue
      routed none = refl
      routed (some store) =
          (route_span-Quiet o c store span service env
            (on_metrics (record_span o.show (o.wall w.calls) span service env store) w1).1).1

  queue-process_spans :
      (service env : String) (spans : List Span) (w : Ingestion)
      → (process_spans o c service env spans w).1.queue ≡ w.queue
  unfolding process_spans
  queue-process_spans service env [] w = refl
  queue-process_spans service env (span ∷ spans) w = ground (
    arith,
    queue-process_span service env span w,
    queue-process_spans service env spans (process_span o c service env span w).1,
  )

  -- Whatever comes of a batch, its processing leaves the queue alone.
  pub queue-process_batch : (b : Batch) (w : Ingestion) → (process_batch o c b w).1.queue ≡ w.queue
  unfolding process_batch
  queue-process_batch b w = queue-process_spans b.service b.env b.spans _

  abbrev pub IsBatch : Batch → Type 0
  IsBatch b = str_eq b.service "__stop__" ≡ false

  -- The batches in their order, each taken out of the queue and processed after a refresh of the
  -- gauges, with `rest` behind them.
  unfoldable pub process_each : List Batch → List Batch → Ingestion → Ingestion
  unfolding process_logged
  process_each [] rest w = w
  process_each (b ∷ batches) rest w =
      let queue : Queue Batch = record w.queue { items = batches ++ rest } in
      process_each batches rest (process_logged b (update_gauges o (record w { queue = queue })).1)

  unfoldable pub taken : (b : Batch) (behind : List Batch) (w : Ingestion) → Ingestion
  taken b behind w = (update_gauges o (record w { queue = record w.queue { items = behind } })).1

  pub queue-taken :
      (b : Batch) (behind : List Batch) (w : Ingestion)
      → (taken b behind w).queue ≡ record w.queue { items = behind }
  unfolding taken
  queue-taken b behind w = queue-update_gauges _

  pub round-batch :
      (b : Batch) (behind : List Batch) (w : Ingestion)
      → w.queue.items ≡ b ∷ behind
      → IsBatch b
      → run_round w ≡ (running, process_logged b (taken b behind w))
  unfolding run_round Queue.get_nowait taken
  round-batch b behind w e h = ground (arith, e, h)

  pub round-stop :
      (b : Batch) (behind : List Batch) (w : Ingestion)
      → w.queue.items ≡ b ∷ behind
      → str_eq b.service "__stop__" ≡ true
      → run_round w ≡ (stopped, (final_drain o c (taken b behind w)).1)
  unfolding run_round Queue.get_nowait taken
  round-stop b behind w e h = ground (arith, e, h)

  run_rounds-next :
      (n : ℕ) (w w' : Ingestion)
      → run_round w ≡ (running, w')
      → run_rounds (suc n) w ≡ run_rounds n w'
  unfolding run_rounds
  run_rounds-next n w w' e = ground (arith, e)

  -- Batches at the head of the queue, none of them a stop signal, are processed in their order in as
  -- many rounds, whether or not one raises an exception; then the loop still runs, and the queue holds
  -- what stood behind them.
  pub run_rounds-process_each :
      (batches rest : List Batch) (w : Ingestion)
      → w.queue.items ≡ batches ++ rest
      → All IsBatch batches
      → (run_rounds (length batches) w ≡ (running, process_each batches rest w))
        × ((run_rounds (length batches) w).1.queue.items ≡ rest)
  unfolding run_rounds process_each taken
  run_rounds-process_each [] rest w e h = (refl, e)
  run_rounds-process_each (b ∷ batches) rest w e h =
      let w1 = taken b (batches ++ rest) w in
      let queue = queue-process_batch b w1 ∙ queue-taken b (batches ++ rest) w in
      ground (
        arith,
        run_rounds-next (length batches) w (process_logged b w1)
            (round-batch b (batches ++ rest) w e h.0),
        run_rounds-process_each batches rest (process_logged b w1) (ap (λ q. q.items) queue) h.1,
      )

  -- A batch with the service `__stop__`, wherever it comes from, ends the loop behind the batches
  -- before it: the batches behind it are drained, and one round more than there are batches before it
  -- leaves the queue empty and the consumer stopped, where the sampling decision of no batch behind it
  -- raises.
  pub run_rounds-stopped :
      (batches rest : List Batch) (b : Batch) (w : Ingestion)
      → w.queue.items ≡ batches ++ b ∷ rest
      → All IsBatch batches
      → str_eq b.service "__stop__" ≡ true
      → All (λ b. All (Decides o c) b.spans) rest
      → ((run_rounds (suc (length batches)) w).0 ≡ stopped)
        × ((run_rounds (suc (length batches)) w).1.queue.items ≡ [])
  unfolding run_rounds taken process_logged
  run_rounds-stopped [] rest b w e h stop d =
      let w1 = taken b rest w in
      ground (
        arith,
        round-stop b rest w e stop,
        queue-taken b rest w,
        final_drain-empties o c w1 (
            subst (λ q. All (λ b. All (Decides o c) b.spans) q.items) (sym (queue-taken b rest w))
              d),
      )
  run_rounds-stopped (b' ∷ batches) rest b w e h stop d =
      let behind = batches ++ b ∷ rest in
      let w1 = taken b' behind w in
      let queue = queue-process_batch b' w1 ∙ queue-taken b' behind w in
      ground (
        arith,
        run_rounds-next (suc (length batches)) w (process_logged b' w1)
            (round-batch b' behind w e h.0),
        run_rounds-stopped batches rest b (process_logged b' w1) (ap (λ q. q.items) queue) h.1 stop
            d,
      )
