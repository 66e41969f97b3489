-- ===== src/Ingestion/Shutdown.antt =====
-- `IngestionWorker.stop` of src/rastir/server/ingestion.py: the stop signal, the round of the consumer
-- that it wakes, and the final drain.
use rastir.Base.{
  ◌≡◌, refl, sym, ap, subst, ◌∙◌, inl, inr, Option, none, some, if◌then◌else◌, List, [], ◌∷◌, ◌++◌,
  arith, All, str_eq, Bool-cases,
}
use rastir.Queue
use rastir.Queue.{Queue}
use rastir.Ingestion.{Outside, Ingestion, Settings, Batch}
use rastir.Ingestion.Drain.{Decides, final_drain, final_drain-empties}
use rastir.Ingestion.Process.{process_batch}
use rastir.Ingestion.Loop.{
  Phase, running, stopped, process_logged, run_round, taken, queue-taken, round-batch, round-stop,
  queue-process_batch,
}

abbrev pub stop_batch : Batch
stop_batch = record { service = "__stop__"; env = ""; version = ""; spans = [] }

-- `put_nowait`, and the handler of `QueueFull`
unfoldable pub signal : Ingestion → Ingestion
signal w = elim (Queue.put_nowait stop_batch w.queue) [
  | none ↦ w
  | some queue ↦ record w { queue = queue }
]

module _ (o : Outside) (c : Settings) where
  -- what the consumer does once `_running` is false: the round that it waits in, and the drain
  unfoldable pub last_round : Ingestion → Ingestion
  last_round w = elim (run_round o c w).0 [
    | stopped ↦ (run_round o c w).1
    | running ↦ (final_drain o c (run_round o c w).1).1
  ]

  -- `stop` for the consumer task, if there is one: it may have ended before.
  unfoldable pub stop : Option Phase → Ingestion → Ingestion
  unfolding signal last_round
  stop none w = w
  stop (some stopped) w = signal w
  stop (some running) w = last_round (signal w)

  abbrev AllDecide : List Batch → Type 0
  AllDecide items = All (λ b. All (Decides o c) b.spans) items

  drained :
      (w : Ingestion) (items : List Batch)
      → w.queue.items ≡ items
      → AllDecide items
      → (final_drain o c w).1.queue.items ≡ []
  drained w items e d = (final_drain-empties o c w (subst AllDecide (sym e) d)).1

  last_round-empties :
      (w : Ingestion) (b : Batch) (rest : List Batch)
      → w.queue.items ≡ b ∷ rest
      → AllDecide rest
      → (last_round w).queue.items ≡ []
  unfolding last_round process_logged
  last_round-empties w b rest e d =
      let w1 = taken o c b rest w in
      let items : w1.queue.items ≡ rest = ap (λ q. q.items) (queue-taken o c b rest w) in
      elim (Bool-cases (str_eq b.service "__stop__")) [
        | inl f ↦ ground (arith, round-stop o c b rest w e f, drained w1 rest items d)
        | inr f ↦
            let w2 = (process_batch o c b w1).1 in
            ground (
              arith,
              round-batch o c b rest w e f,
              drained w2 rest (ap (λ q. q.items) (queue-process_batch o c b w1) ∙ items) d,
            )
      ]

  with_signal : (items : List Batch) → AllDecide items → AllDecide (items ++ stop_batch ∷ [])
  with_signal [] d = (tt, tt)
  with_signal (b ∷ items) d = (d.0, with_signal items d.1)

  by_items :
      (w : Ingestion) (items : List Batch)
      → w.queue.items ≡ items
      → AllDecide items
      → (stop (some running) w).queue.items ≡ []
  unfolding stop signal Queue.put_nowait Queue.full
  by_items w [] e d = last_round-empties (signal w) stop_batch [] (ground (arith, e)) tt
  by_items w (b ∷ rest) e d = elim (Bool-cases (Queue.full w.queue)) [
    | inl f ↦ last_round-empties (signal w) b rest (ground (arith, e, f)) d.1
    | inr f ↦
        last_round-empties (signal w) b (rest ++ stop_batch ∷ []) (ground (arith, e, f))
          (with_signal rest d.1)
  ]

  signalled :
      (w : Ingestion)
      → (stop (some stopped) w).queue.items
        ≡ (if Queue.full w.queue then w.queue.items else w.queue.items ++ stop_batch ∷ [])
  unfolding stop signal Queue.put_nowait
  signalled w = elim (Bool-cases (Queue.full w.queue)) [
    | inl f ↦ ground (arith, f)
    | inr f ↦ ground (arith, f)
  ]

  -- Stopping a worker whose consumer runs empties its queue, full or not, where the sampling decision of
  -- no queued span raises. If the consumer has ended before, the batches stay in the queue, with the
  -- stop signal behind them if it has room.
  pub stop-empties :
      (w : Ingestion)
      → All (λ b. All (Decides o c) b.spans) w.queue.items
      → ((stop (some running) w).queue.items ≡ [])
        × ((stop (some stopped) w).queue.items
            ≡ (if Queue.full w.queue then w.queue.items else w.queue.items ++ stop_batch ∷ []))
  stop-empties w d = (by_items w w.queue.items refl d, signalled w)
