-- ===== src/Ingestion/Backpressure.antt =====
-- `enqueue` with its limits: what is accepted, what the queue holds, and the soft warning.
use rastir.Base.{
  ◌≤◌, ◌<◌, ◌≡◌, Bool, not, ◌||◌, Option, some, List, [], ◌∷◌, ◌++◌, arith, length, length-append,
  take_of_length-le, ltb, str_eq, if◌then◌else◌,
}
use rastir.Queue
use rastir.Queue.{Queue}
use rastir.Queue.Window.{keep, last_of_fit, last_of_one_more, take_of_filled}
use rastir.Ingestion.{
  Outside, Ingestion, Settings, Batch, update_gauges, over_soft_limit, soft_warning, put_batch,
  evict_batch, hard_limit, enqueue,
}

-- The queue and the warning flag are as they were.
record SameQueue (w w' : Ingestion) : Type 0 where
  pub queue : w'.queue ≡ w.queue
  pub warned : w'.soft_warned ≡ w.soft_warned

module _ (o : Outside) (c : Settings) where
  update_gauges-SameQueue :
      (w : Ingestion) → ((update_gauges o w).0 ≡ some tt) × SameQueue w (update_gauges o w).1
  unfolding update_gauges
  update_gauges-SameQueue w = ground arith

  put_batch_lem :
      (b : Batch) (w : Ingestion)
      → ((put_batch o c b w).0 ≡ some (not (Queue.full w.queue)))
        × ((put_batch o c b w).1.queue.items
            ≡ (if Queue.full w.queue then w.queue.items else w.queue.items ++ b ∷ []))
        × ((put_batch o c b w).1.queue.maxsize ≡ w.queue.maxsize)
        × ((put_batch o c b w).1.soft_warned ≡ w.soft_warned)
  unfolding put_batch Queue.put_nowait
  put_batch_lem b w = ground (
    arith,
    update_gauges-SameQueue (record w {
      queue = record { maxsize = w.queue.maxsize; items = w.queue.items ++ b ∷ [] };
    }),
  )

  pub soft_warning_lem :
      (w : Ingestion)
      → ((soft_warning o c w).0 ≡ some tt)
        × ((soft_warning o c w).1.queue ≡ w.queue)
        × ((soft_warning o c w).1.soft_warned ≡ over_soft_limit o c w)
  unfolding soft_warning
  soft_warning_lem w = ground arith

  evict_batch_lem :
      (w : Ingestion) (oldest : Batch) (rest : List Batch)
      → w.queue.items ≡ oldest ∷ rest
      → ((evict_batch o c w).0 ≡ some tt)
        × ((evict_batch o c w).1.queue.items ≡ rest)
        × ((evict_batch o c w).1.queue.maxsize ≡ w.queue.maxsize)
        × ((evict_batch o c w).1.soft_warned ≡ w.soft_warned)
  unfolding evict_batch Queue.get_nowait
  evict_batch_lem w oldest rest e = ground arith

  -- What becomes of a batch at the hard limit or below it.
  record Offered (b : Batch) (w : Ingestion) (items : List Batch) (r : Option Bool × Ingestion)
      : Type 0 where
    pub answer : r.0 ≡ some (str_eq c.mode "drop_oldest" || ltb (length items) w.queue.maxsize)
    pub items_after :
        r.1.queue.items ≡ keep (str_eq c.mode "drop_oldest") w.queue.maxsize (items ++ b ∷ [])
    pub bound : r.1.queue.maxsize ≡ w.queue.maxsize
    pub warned : r.1.soft_warned ≡ w.soft_warned

  hard_limit_lem :
      (b : Batch) (w : Ingestion) (items : List Batch)
      → w.queue.items ≡ items
      → 0 < w.queue.maxsize
      → length items ≤ w.queue.maxsize
      → Offered b w items (hard_limit o c b (Queue.full w.queue) w)
  unfolding hard_limit Queue.full
  hard_limit_lem b w [] e pos fits = ground (
    arith,
    put_batch_lem b w,
    take_of_length-le w.queue.maxsize (b ∷ []),
    last_of_fit w.queue.maxsize (b ∷ []),
  )
  hard_limit_lem b w (oldest ∷ rest) e pos fits = ground (
    arith,
    put_batch_lem b w,
    evict_batch_lem w oldest rest e,
    put_batch_lem b (evict_batch o c w).1,
    length-append (oldest ∷ rest) (b ∷ []),
    length-append rest (b ∷ []),
    take_of_length-le w.queue.maxsize (oldest ∷ rest ++ b ∷ []),
    last_of_fit w.queue.maxsize (oldest ∷ rest ++ b ∷ []),
    last_of_one_more w.queue.maxsize oldest (rest ++ b ∷ []),
    take_of_filled w.queue.maxsize (oldest ∷ rest) (b ∷ []),
  )

  -- On a queue with a bound that it keeps, `enqueue` never raises: it answers True unless the
  -- queue is full in another mode than `drop_oldest`; the queue then holds, within its bound, the
  -- newest batches in `drop_oldest` mode and the oldest ones else; the warning flag says whether
  -- the soft limit was reached.
  pub enqueue_lem :
      (b : Batch) (w : Ingestion)
      → 0 < w.queue.maxsize
      → length w.queue.items ≤ w.queue.maxsize
      → ((enqueue o c b w).0
          ≡ some (str_eq c.mode "drop_oldest" || ltb (length w.queue.items) w.queue.maxsize))
        × ((enqueue o c b w).1.queue.items
            ≡ keep (str_eq c.mode "drop_oldest") w.queue.maxsize (w.queue.items ++ b ∷ []))
        × ((enqueue o c b w).1.queue.maxsize ≡ w.queue.maxsize)
        × ((enqueue o c b w).1.soft_warned ≡ over_soft_limit o c w)
  unfolding enqueue
  enqueue_lem b w pos fits =
      ground (arith, soft_warning_lem w, hard_limit_lem b (soft_warning o c w).1 w.queue.items)
