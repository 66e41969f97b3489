-- ===== src/SpanQueue.antt =====
-- src/rastir/queue.py: the bounded queue between the decorators and the exporter. The module's
-- queue is passed as a value; a dropped span leaves a line in the log only.
pub mod Fifo
use rastir.Base.{ℕ, zero, suc, ◌==◌, Option, none, some, List, [], ◌∷◌, if◌then◌else◌}
use rastir.Queue
use rastir.Queue.{Queue}
use rastir.SpanRecord.{SpanRecord}

abbrev pub default_max_size : ℕ
default_max_size = 10000

abbrev pub SpanQueue : Type 0
SpanQueue = Queue SpanRecord

unfoldable pub enqueue_span : SpanRecord → SpanQueue → SpanQueue
enqueue_span span q = elim (Queue.put_nowait span q) [ none ↦ q | some q' ↦ q' ]

-- one round of the loop, with what the rounds after it give
abbrev pub drained :
    Option (SpanRecord × SpanQueue)
    → SpanQueue
    → (SpanQueue → List SpanRecord × SpanQueue)
    → List SpanRecord × SpanQueue
drained none q more = ([], q)
drained (some (span, q')) q more = let (batch, rest) = more q' in (span ∷ batch, rest)

unfoldable pub drain_batch : ℕ → SpanQueue → List SpanRecord × SpanQueue
drain_batch zero q = ([], q)
drain_batch (suc n) q = drained (Queue.get_nowait q) q (drain_batch n)

unfoldable pub queue_size : SpanQueue → ℕ
queue_size q = Queue.qsize q

-- `max_size or _DEFAULT_MAX_SIZE`
unfoldable pub reset_queue : Option ℕ → SpanQueue
reset_queue none = record { maxsize = default_max_size; items = [] }
reset_queue (some n) = record { maxsize = if n == 0 then default_max_size else n; items = [] }
