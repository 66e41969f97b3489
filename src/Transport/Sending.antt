-- ===== src/Transport/Sending.antt =====
-- What `send_batch` does, against the first answer that ends the attempts.
use rastir.Base.{
  ℕ, zero, suc, ◌+◌, ◌-◌, ◌≤◌, ◌≡◌, Bool, true, false, List, [], ◌∷◌, arith, length, length-append,
  if◌then◌else◌,
}
use rastir.SpanRecord.{SpanRecord}
use rastir.Transport.{
  Reply, Exporter, Verdict, accepted, retry, rejected, verdict, posted, succeed, fail, pause,
  next_backoff, send_loop, send_batch,
}

-- The answer of the first attempt, of at most `left`, that is no reason to try again.
unfoldable pub decided : (ℕ → Reply) → ℕ → ℕ → Verdict
decided net zero n = rejected
decided net (suc left) n = elim (verdict (net n)) [
  | accepted ↦ accepted
  | rejected ↦ rejected
  | retry ↦ decided net left (n + 1)
]

-- How many posts this takes.
unfoldable pub attempts : (ℕ → Reply) → ℕ → ℕ → ℕ
attempts net zero n = 0
attempts net (suc left) n = elim (verdict (net n)) [
  | accepted ↦ 1
  | rejected ↦ 1
  | retry ↦ attempts net left (n + 1) + 1
]

abbrev pub is_accepted : Verdict → Bool
is_accepted accepted = true
is_accepted _ = false

-- The state after sending `n` spans to the outcome `sent` with so many posts.
pub record Sent (sent : Bool) (n tried : ℕ) (x y : Exporter) : Type 0 where
  pub outcome : (y.export_successes ≡ (if sent then x.export_successes + 1 else x.export_successes))
  pub failures : (y.export_failures ≡ (if sent then x.export_failures else x.export_failures + 1))
  pub exported : (y.spans_exported ≡ (if sent then x.spans_exported + n else x.spans_exported))
  pub dropped : (y.spans_dropped ≡ (if sent then x.spans_dropped else x.spans_dropped + n))
  pub tries : y.posts ≡ x.posts + tried
  pub pauses : length y.slept ≡ length x.slept + (tried - 1)

record Paused (left backoff : ℕ) (x : Exporter) : Type 0 where
  pub posts : (pause left backoff (posted x)).posts ≡ x.posts + 1
  pub successes : (pause left backoff (posted x)).export_successes ≡ x.export_successes
  pub failures : (pause left backoff (posted x)).export_failures ≡ x.export_failures
  pub exported : (pause left backoff (posted x)).spans_exported ≡ x.spans_exported
  pub dropped : (pause left backoff (posted x)).spans_dropped ≡ x.spans_dropped
  pub slept : length (pause left backoff (posted x)).slept ≡ length x.slept + (left - (left - 1))

pause_frame : (left backoff : ℕ) (x : Exporter) → Paused left backoff x
unfolding pause
pause_frame left backoff x = ground (arith, length-append x.slept (backoff ∷ []))

-- There is one post, unless none is allowed.
attempts_first :
    (net : ℕ → Reply) (left n : ℕ)
    → (left - (left - 1) ≤ attempts net left n) × (attempts net left n ≤ left)
unfolding attempts
attempts_first net zero n = (omega arith, omega arith)
attempts_first net (suc left) n = ground (arith, attempts_first net left (n + 1))

send_loop_lem :
    (net : ℕ → Reply) (left backoff n : ℕ) (x : Exporter)
    → ((send_loop net left backoff n x).0 ≡ is_accepted (decided net left x.posts))
      × Sent
          (is_accepted (decided net left x.posts))
          n
          (attempts net left x.posts)
          x
          (send_loop net left backoff n x).1
unfolding send_loop decided attempts succeed fail
send_loop_lem net zero backoff n x = ground arith
send_loop_lem net (suc left) backoff n x = ground (
  arith,
  send_loop_lem net left (next_backoff left backoff) n (pause left backoff (posted x)),
  pause_frame left backoff x,
  attempts_first net left (x.posts + 1),
)

-- `send_batch` returns True exactly when, among at most `max_retries` posts, the first answer that
-- is not worth a retry is a success. It then counts one success and the spans as exported, and
-- else one failure and the spans as dropped. It posts until that answer, or `max_retries` times if there
-- is none, with one pause between two posts and none behind the last.
pub send_batch-Sent :
    (net : ℕ → Reply) (max_retries initial_backoff : ℕ) (spans : List SpanRecord) (x : Exporter)
    → ((send_batch net max_retries initial_backoff spans x).0
        ≡ is_accepted (decided net max_retries x.posts))
      × Sent
          (is_accepted (decided net max_retries x.posts))
          (length spans)
          (attempts net max_retries x.posts)
          x
          (send_batch net max_retries initial_backoff spans x).1
unfolding send_batch
send_batch-Sent net max_retries initial_backoff spans x =
    send_loop_lem net max_retries initial_backoff (length spans) x

-- The spans of a batch are counted once, as exported or as dropped.
pub send_batch_counted :
    (net : ℕ → Reply) (max_retries initial_backoff : ℕ) (spans : List SpanRecord) (x : Exporter)
    → (send_batch net max_retries initial_backoff spans x).1.spans_exported
        + (send_batch net max_retries initial_backoff spans x).1.spans_dropped
      ≡ x.spans_exported + x.spans_dropped + length spans
send_batch_counted net max_retries initial_backoff spans x =
    ground (arith, send_batch-Sent net max_retries initial_backoff spans x)
