-- ===== src/Transport/Flushing.antt =====
-- The final flush empties the span queue.
use rastir.Base.{
  ℕ, zero, suc, ◌+◌, ◌<◌, ◌≡◌, refl, List, [], ◌∷◌, arith, length, take-cons, length-drop,
  length-take,
}
use rastir.SpanRecord.{SpanRecord}
use rastir.SpanQueue.{SpanQueue, drain_batch, queue_size}
use rastir.SpanQueue.Fifo.{drain_batch_lem}
use rastir.Transport.{Reply, Exporter, send_batch, flush_loop, flush_all}
use rastir.Transport.Sending.{send_batch_counted}

drained_less :
    (batch_size : ℕ) (q : SpanQueue) {fuel : ℕ}
    → 0 < batch_size
    → length q.items < suc fuel
    → 0 < length q.items
    → length (drain_batch batch_size q).1.items < fuel
drained_less batch_size q pos big some_left =
    rw ((drain_batch_lem batch_size q).1) (omega (arith, length-drop batch_size q.items))

module _ (net : ℕ → Reply) (max_retries initial_backoff : ℕ) where
  -- The queue is empty, and what was in it is counted.
  pub record Flushed (q : SpanQueue) (x : Exporter) (r : SpanQueue × Exporter) : Type 0 where
    pub emptied : r.0.items ≡ []
    pub counted :
        r.1.spans_exported + r.1.spans_dropped ≡ x.spans_exported + x.spans_dropped + length q.items

  flush_round :
      (fuel batch_size : ℕ) (q : SpanQueue) (x : Exporter) (items batch : List SpanRecord)
      → 0 < batch_size
      → length q.items < suc fuel
      → q.items ≡ items
      → (drain_batch batch_size q).0 ≡ batch
      → ((q' : SpanQueue) (x' : Exporter)
          → length q'.items < fuel
          → Flushed q' x' (flush_loop net max_retries initial_backoff fuel batch_size q' x'))
      → Flushed q x (flush_loop net max_retries initial_backoff (suc fuel) batch_size q x)
  unfolding flush_loop queue_size
  flush_round fuel batch_size q x [] batch pos big e b ih = ground arith
  flush_round fuel batch_size q x (i ∷ items) [] pos big e b ih =
      absurd (ground (arith, drain_batch_lem batch_size q, take-cons batch_size i items pos))
  flush_round fuel batch_size q x (i ∷ items) (s ∷ batch) pos big e b ih = ground (
    arith,
    drain_batch_lem batch_size q,
    length-drop batch_size q.items,
    length-take batch_size q.items,
    send_batch_counted net max_retries initial_backoff (s ∷ batch) x,
    ih (drain_batch batch_size q).1 (send_batch net max_retries initial_backoff (s ∷ batch) x).1
        (drained_less batch_size q pos big (rw e (omega arith))),
  )

  flush_loop_lem :
      (fuel batch_size : ℕ) (q : SpanQueue) (x : Exporter)
      → 0 < batch_size
      → length q.items < fuel
      → Flushed q x (flush_loop net max_retries initial_backoff fuel batch_size q x)
  flush_loop_lem zero batch_size q x pos big = absurd (omega arith)
  flush_loop_lem (suc fuel) batch_size q x pos big =
      flush_round fuel batch_size q x q.items (drain_batch batch_size q).0 pos big refl refl
        (λ q' x' h. flush_loop_lem fuel batch_size q' x' pos h)

  -- With batches of at least one span the final flush ends with an empty queue, and every span
  -- that was in it is counted once, as exported or as dropped.
  pub flush_all-Flushed :
      (batch_size : ℕ) (q : SpanQueue) (x : Exporter)
      → 0 < batch_size
      → Flushed q x (flush_all net max_retries initial_backoff batch_size q x)
  unfolding flush_all queue_size
  flush_all-Flushed batch_size q x pos =
      flush_loop_lem (length q.items + 1) batch_size q x pos (omega arith)
