-- ===== src/Ingestion/Sound/Rounds.antt =====
-- The consumer loop and the enqueuing keep the worker well formed.
use rastir.Base.{
  ℕ, zero, suc, ◌≡◌, refl, subst, inl, inr, some, List, [], ◌∷◌, ◌++◌, arith, str_eq, Bool-cases,
  Option-cases,
}
use rastir.Queue
use rastir.Queue.{Queue}
use rastir.Queue.Window.{length-keep}
use rastir.Ingestion.{Outside, Ingestion, Settings, Batch, update_gauges, enqueue}
use rastir.Ingestion.Backpressure.{enqueue_lem}
use rastir.Ingestion.Drain.{drain_item, drain_loop, final_drain}
use rastir.Ingestion.Loop.{queue-process_batch, queue-update_gauges, process_logged, run_round}
use rastir.Ingestion.Process.{process_batch}
use rastir.Ingestion.Sound.{Parts-same, Bounded, WellFormed}
use rastir.Ingestion.Sound.Batches.{process_batch-Parts, update_gauges-Parts, enqueue-Parts}

-- A queue that is the old one, or the old one without its oldest item.
Bounded-same : (w w' : Ingestion) → w'.queue ≡ w.queue → Bounded w → Bounded w'
Bounded-same w w' e b = record {
  positive = ground (arith, e, b.positive);
  fits = ground (arith, e, b.fits);
}

module _ (o : Outside) (c : Settings) where
  pub enqueue-WellFormed :
      (b : Batch) (w : Ingestion) → WellFormed w → WellFormed (enqueue o c b w).1
  enqueue-WellFormed b w h =
      let (answer, items, bound, warned) = enqueue_lem o c b w h.queue.positive h.queue.fits in
      record {
        queue = record {
          positive = ground (arith, bound, h.queue.positive);
          fits = ground (
            arith,
            items,
            bound,
            length-keep (str_eq c.mode "drop_oldest") w.queue.maxsize (w.queue.items ++ b ∷ []),
          );
        };
        parts = enqueue-Parts o c b w h.parts;
      }

  process_batch-WellFormed :
      (b : Batch) (w : Ingestion) → WellFormed w → WellFormed (process_batch o c b w).1
  process_batch-WellFormed b w h = record {
    queue = Bounded-same w _ (queue-process_batch o c b w) h.queue;
    parts = process_batch-Parts o c b w h.parts;
  }

  pub update_gauges-WellFormed : (w : Ingestion) → WellFormed w → WellFormed (update_gauges o w).1
  update_gauges-WellFormed w h = record {
    queue = Bounded-same w _ (queue-update_gauges o c w) h.queue;
    parts = update_gauges-Parts o c w h.parts;
  }

  shorter :
      (w : Ingestion) (b : Batch) (queue : Queue Batch)
      → Queue.get_nowait w.queue ≡ some (b, queue)
      → WellFormed w
      → WellFormed (record w { queue = queue })
  unfolding Queue.get_nowait
  shorter w b queue e h = record {
    queue = by_items w.queue.items refl;
    parts = Parts-same w _ refl refl h.parts;
  }
    where
      by_items : (items : List Batch) → w.queue.items ≡ items → Bounded (record w { queue = queue })
      by_items [] f = absurd (ground (arith, e, f))
      by_items (b' ∷ rest) f = record {
        positive = ground (arith, e, f, h.queue.positive);
        fits = ground (arith, e, f, h.queue.fits);
      }

  drain_item-WellFormed :
      (b : Batch) (w : Ingestion) → WellFormed w → WellFormed (drain_item o c b w).1
  unfolding drain_item
  drain_item-WellFormed b w h = elim (Bool-cases (str_eq b.service "__stop__")) [
    | inl e ↦ subst WellFormed (ground (arith, e)) h
    | inr e ↦ subst WellFormed (ground (arith, e)) (process_batch-WellFormed b w h)
  ]

  drain_loop-WellFormed :
      (fuel : ℕ) (w : Ingestion) → WellFormed w → WellFormed (drain_loop o c fuel w).1
  unfolding drain_loop
  drain_loop-WellFormed zero w h = h
  drain_loop-WellFormed (suc fuel) w h = elim (Option-cases (Queue.get_nowait w.queue)) [
    | inl e ↦ subst WellFormed (ground (arith, e)) h
    | inr ((b, queue), e) ↦
        let w1 : Ingestion = record w { queue = queue } in
        let h1 = drain_item-WellFormed b w1 (shorter w b queue e h) in
        elim (Option-cases (drain_item o c b w1).0) [
          | inl f ↦ subst WellFormed (ground (arith, e, f)) h1
          | inr (u, f) ↦
              subst WellFormed (ground (arith, e, f))
                (drain_loop-WellFormed fuel (drain_item o c b w1).1 h1)
        ]
  ]

  pub run_round-WellFormed : (w : Ingestion) → WellFormed w → WellFormed (run_round o c w).1
  unfolding run_round process_logged final_drain
  run_round-WellFormed w h = elim (Option-cases (Queue.get_nowait w.queue)) [
    | inl e ↦ subst WellFormed (ground (arith, e)) (update_gauges-WellFormed w h)
    | inr ((b, queue), e) ↦
        let w1 = (update_gauges o (record w { queue = queue })).1 in
        let h1 = update_gauges-WellFormed (record w { queue = queue }) (shorter w b queue e h) in
        elim (Bool-cases (str_eq b.service "__stop__")) [
          | inl f ↦
              subst WellFormed (ground (arith, e, f))
                (drain_loop-WellFormed (Queue.qsize w1.queue) w1 h1)
          | inr f ↦ subst WellFormed (ground (arith, e, f)) (process_batch-WellFormed b w1 h1)
        ]
  ]
