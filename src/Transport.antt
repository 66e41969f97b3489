-- ===== src/Transport.antt =====
-- `TelemetryClient.send_batch` and the flushes of `BackgroundExporter` in src/rastir/transport.py.
-- The collector and the network are outside: what the n-th post of the process comes to is a
-- function `net`. The module's counters, the number of posts made and the pauses slept are the
-- state. Back-off times are whole milliseconds.
pub mod Sending
pub mod Flushing
use rastir.Base.{
  ℕ, zero, suc, ◌+◌, ◌-◌, ◌*◌, Bool, true, false, ◌||◌, not, List, [], ◌∷◌, ◌++◌, length, ltb, ◌==◌,
  if◌then◌else◌,
}
use rastir.SpanRecord.{SpanRecord}
use rastir.SpanQueue.{SpanQueue, drain_batch, queue_size}

-- An answer with a status, a time-out, connection or protocol error, or any other exception.
pub data Reply : Type 0 where
  status : ℕ → Reply
  transient : Reply
  unexpected : Reply

pub record Exporter : Type 0 where
  pub export_successes : ℕ
  pub export_failures : ℕ
  pub spans_exported : ℕ
  pub spans_dropped : ℕ
  pub posts : ℕ
  pub slept : List ℕ

-- `_RETRYABLE_STATUS`
abbrev pub is_retryable : ℕ → Bool
is_retryable code = code == 429 || code == 500 || code == 502 || code == 503 || code == 504

-- What one attempt means for the loop.
pub data Verdict : Type 0 where
  accepted retry rejected : Verdict

-- the `if`s on the status, and the two handlers
unfoldable pub verdict : Reply → Verdict
verdict (status code) =
    if ltb code 300 then accepted else if is_retryable code then retry else rejected
verdict transient = retry
verdict unexpected = rejected

abbrev pub posted : Exporter → Exporter
posted x = record x { posts = x.posts + 1 }

unfoldable pub succeed : ℕ → Exporter → Exporter
succeed n x = record x {
  export_successes = x.export_successes + 1;
  spans_exported = x.spans_exported + n;
}

unfoldable pub fail : ℕ → Exporter → Exporter
fail n x = record x { export_failures = x.export_failures + 1; spans_dropped = x.spans_dropped + n }

-- `if attempt < max_retries: sleep(backoff)`, with `left` attempts after this one
unfoldable pub pause : ℕ → ℕ → Exporter → Exporter
pause left backoff x = if ltb 0 left then record x { slept = x.slept ++ backoff ∷ [] } else x

abbrev pub next_backoff : ℕ → ℕ → ℕ
next_backoff left backoff = if ltb 0 left then backoff * 2 else backoff

module _ (net : ℕ → Reply) where
  -- the loop of `send_batch` over `n` spans, with the attempts that are left
  unfoldable pub send_loop : ℕ → ℕ → ℕ → Exporter → Bool × Exporter
  send_loop zero backoff n x = (false, fail n x)
  send_loop (suc left) backoff n x = elim (verdict (net x.posts)) [
    | accepted ↦ (true, succeed n (posted x))
    | rejected ↦ (false, fail n (posted x))
    | retry ↦ send_loop left (next_backoff left backoff) n (pause left backoff (posted x))
  ]

  module _ (max_retries initial_backoff : ℕ) where
    unfoldable pub send_batch : List SpanRecord → Exporter → Bool × Exporter
    unfolding send_loop
    send_batch spans x = send_loop max_retries initial_backoff (length spans) x

    -- `_flush_once`
    unfoldable pub flush_once : ℕ → SpanQueue → Exporter → SpanQueue × Exporter
    unfolding send_batch
    flush_once batch_size q x = sent (drain_batch batch_size q)
      where
        sent : List SpanRecord × SpanQueue → SpanQueue × Exporter
        sent ([], q') = (q', x)
        sent (s ∷ batch, q') = (q', (send_batch (s ∷ batch) x).1)

    -- the `while` loop of `_flush_all`; each round but the last takes a span from the queue.
    unfoldable pub flush_loop : ℕ → ℕ → SpanQueue → Exporter → SpanQueue × Exporter
    flush_loop zero batch_size q x = (q, x)
    flush_loop (suc fuel) batch_size q x = elim (ltb 0 (queue_size q)) [
      | false ↦ (q, x)
      | true ↦ elim (drain_batch batch_size q).0 [
        | [] ↦ ((drain_batch batch_size q).1, x)
        | s ∷ batch ↦
            flush_loop fuel batch_size (drain_batch batch_size q).1 (send_batch (s ∷ batch) x).1
      ]
    ]

    unfoldable pub flush_all : ℕ → SpanQueue → Exporter → SpanQueue × Exporter
    unfolding flush_loop
    flush_all batch_size q x = flush_loop (queue_size q + 1) batch_size q x
