-- ===== src/Ingestion.antt =====
-- `IngestionWorker` of src/rastir/server/ingestion.py: the queue with its backpressure, and the
-- processing of a batch. What the code takes from outside is the parameter `Outside`; each call
-- that may answer differently the next time takes the number of calls made before it.
pub mod Process
pub mod Backpressure
pub mod Pipeline
pub mod Drain
pub mod Loop
pub mod Sound
pub mod Shutdown
use rastir.Base.{
  ℕ, ◌+◌, ◌*◌, String, Bool, true, false, not, ◌&&◌, ◌||◌, Option, none, some, List, [], ◌∷◌, ◌++◌,
  length, ltb, leb, str_eq, ◌==◌, if◌then◌else◌,
}
use rastir.Dict
use rastir.Dict.{Dict}
use rastir.Exec.{Exec, pure, raise, lift, gets, modify, when, finished, ◌>>=◌, ◌>>◌}
use rastir.Span.{Span, Value, null, flag, num, text, texts, truthy}
use rastir.Queue
use rastir.Queue.{Queue}
use rastir.TraceStore
use rastir.TraceStore.{TraceStore, Outcome, done, key_error}
use rastir.EvaluationQueue
use rastir.EvaluationQueue.{EvaluationQueue, EvaluationTask}
use rastir.Metrics.{Metrics, Update, inc, set}
use rastir.Metrics.Labels.{Labels, emit}
use rastir.Sampling.{should_store}
use rastir.Redaction.{Redactor, redact_span, attribute}

pub record Batch : Type 0 where
  pub service : String
  pub env : String
  pub version : String
  pub spans : List Span

-- What the worker calls and does not implement: Python's `str`, `random.random` in millionths, the
-- clocks, the OTLP exporter (does the call go through?), and the numbers of the gauges that floats
-- and the system give.
pub record Outside : Type 0 where
  pub show : Value → String
  pub random : ℕ → ℕ
  pub monotonic : ℕ → ℕ
  pub wall : ℕ → ℕ
  pub export_span : ℕ → Span → Bool
  pub percent : ℕ → ℕ → ℕ
  pub memory_bytes : ℕ → Option ℕ
  pub rate : ℕ → ℕ → Option ℕ

pub record Ingestion : Type 0 where
  pub metrics : Metrics
  pub trace_store : Option TraceStore
  pub queue : Queue Batch
  pub soft_warned : Bool
  -- spans that the OTLP exporter has taken, if there is one
  pub otlp : Option (List Span)
  pub eval_queue : Option EvaluationQueue
  -- calls of the outside so far
  pub calls : ℕ

pub record Settings : Type 0 where
  -- the sampling rate and the evaluation sample rate and the limit in per cent, in millionths
  pub sampling_rate : ℕ
  pub soft_limit_pct : ℕ
  pub mode : String
  pub redactor : Option Redactor
  pub drop_on_redaction_failure : Bool
  pub default_sample_rate : ℕ
  pub default_timeout_ms : ℕ

abbrev pub W : Type 0 → Type 0
W = Exec Ingestion

-- Run a method of a part of the worker, whatever comes of it.
unfoldable pub on_metrics : {A : Type 0} → Exec Metrics A → W (Option A)
on_metrics m w = let (r, metrics) = m w.metrics in (some r, record w { metrics = metrics })

unfoldable pub count : String → Labels → Update → W (Unit {0})
unfolding emit
count metric labels update w =
    let (r, metrics) = emit metric labels update none w.metrics in
    (some tt, record w { metrics = metrics })

abbrev pub service_labels : String → String → Labels
service_labels service env = ("service", service) ∷ ("env", env) ∷ []

-- One more call of the outside.
unfoldable pub next_call : W ℕ
next_call w = (some w.calls, record w { calls = w.calls + 1 })

module _ (o : Outside) where
  abbrev gauge : String → ℕ → W (Unit {0})
  gauge metric n = count metric [] (set n)

  unfoldable pub store_gauges : Option TraceStore → W (Unit {0})
  unfolding count
  store_gauges none = pure tt
  store_gauges (some s) = do
    count "rastir_trace_store_size" [] (set s.total_spans)
    count "rastir_active_traces" [] (set (length s.traces))

  unfoldable pub eval_gauges : Option EvaluationQueue → W (Unit {0})
  unfolding count
  eval_gauges none = pure tt
  eval_gauges (some q) = do
    count "rastir_evaluation_queue_size" [] (set (EvaluationQueue.size q))
    count "rastir_evaluation_queue_utilization_percent" []
        (set (if q.max_size == 0 then 0 else o.percent (EvaluationQueue.size q) q.max_size))

  unfoldable pub optional_gauge : String → Option ℕ → W (Unit {0})
  unfolding count
  optional_gauge metric none = pure tt
  optional_gauge metric (some n) = count metric [] (set n)

  -- `_refresh_ingestion_rate`: a new rate, and a new count, once a second has passed
  unfoldable pub refresh_rate : Option ℕ → W (Unit {0})
  unfolding count
  refresh_rate none = pure tt
  refresh_rate (some rate) = do
    count "rastir_ingestion_rate" [] (set rate)
    modify (λ w. record w { metrics = record w.metrics { rate_spans = 0 } })

  -- `_update_gauges` and `update_operational_gauges`
  unfoldable pub update_gauges : W (Unit {0})
  unfolding count store_gauges eval_gauges optional_gauge refresh_rate next_call
  update_gauges = do
    w ← gets (λ w. w)
    call ← next_call
    count "rastir_queue_size" [] (set (Queue.qsize w.queue))
    count "rastir_queue_utilization_percent" []
        (set (if w.queue.maxsize == 0 then 0 else o.percent (Queue.qsize w.queue) w.queue.maxsize))
    optional_gauge "rastir_memory_bytes" (o.memory_bytes call)
    store_gauges w.trace_store
    eval_gauges w.eval_queue
    refresh_rate (o.rate call w.metrics.rate_spans)

  module _ (c : Settings) where
    -- `usage_pct >= soft_limit_pct`, multiplied out; a bound of 0 counts as 1.
    unfoldable pub over_soft_limit : Ingestion → Bool
    over_soft_limit w =
        let maxsize = if w.queue.maxsize == 0 then 1 else w.queue.maxsize in
        leb (c.soft_limit_pct * maxsize) (Queue.qsize w.queue * 100 * 1000000)

    unfoldable pub soft_warning : W (Unit {0})
    unfolding count over_soft_limit
    soft_warning w =
        if over_soft_limit w
        then count "rastir_backpressure_warnings_total" [] (inc 1) (record w { soft_warned = true })
        else (some tt, record w { soft_warned = false })

    -- `put_nowait` and the handler of `QueueFull`
    unfoldable pub put_batch : Batch → W Bool
    unfolding count
    put_batch b w = elim (Queue.put_nowait b w.queue) [
      | some queue ↦ (do update_gauges; pure true) (record w { queue = queue })
      | none ↦
          (do
            count "rastir_ingestion_rejections_total" (service_labels b.service b.env) (inc 1)
            pure false)
            w
    ]

    -- `get_nowait` of the oldest batch, and the handler of `QueueEmpty`
    unfoldable pub evict_batch : W (Unit {0})
    unfolding count
    evict_batch w = elim (Queue.get_nowait w.queue) [
      | some (oldest, queue) ↦
          count "rastir_spans_dropped_by_backpressure_total" [] (inc 1) (record w { queue = queue })
      | none ↦ (some tt, w)
    ]

    -- the branches of the hard limit
    unfoldable pub hard_limit : Batch → Bool → W Bool
    unfolding count
    hard_limit b false = put_batch b
    hard_limit b true = if str_eq c.mode "drop_oldest" then (do evict_batch; put_batch b) else (do
      count "rastir_ingestion_rejections_total" (service_labels b.service b.env) (inc 1)
      pure false)

    unfoldable pub enqueue : Batch → W Bool
    enqueue b = do soft_warning; is_full ← gets (λ w. Queue.full w.queue); hard_limit b is_full
