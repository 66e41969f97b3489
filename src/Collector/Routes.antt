-- ===== src/Collector/Routes.antt =====
-- The routes of src/rastir/server/app.py that take telemetry and answer queries. A request comes
-- parsed, with the clock readings of its rate-limit check; an answer keeps the status and what it
-- carries of the state.
use mathlib.Core.Option
use rastir.Base.{
  ℕ, ◌*◌, String, Bool, true, false, Option, none, some, List, [], ◌∷◌, length, leb, ◌==◌, str_eq,
  if◌then◌else◌,
}
use rastir.Base.Integers.{ℤ, magnitude}
use rastir.Dict
use rastir.Span.{Span, text}
use rastir.Config.{MultiTenantSection}
use rastir.Queue
use rastir.TraceStore
use rastir.TraceStore.{TraceStore, Summary}
use rastir.RateLimiter
use rastir.RateLimiter.{RateLimiter, Dimension}
use rastir.Ingestion.{Outside, Batch, enqueue, update_gauges}
use rastir.Collector.{Collector}

-- The body of a request. Of an object, `spans` is `none` where it is absent or no list, and an
-- element of it is `none` where it is no JSON object. Left out are a service, an environment or a
-- version that is no text, and spans with fields of another type than the client sends.
pub data Payload : Type 0 where
  no_json no_object : Payload
  object : Option String → Option String → Option String → Option (List (Option Span)) → Payload

pub record Request : Type 0 where
  pub payload : Payload
  pub client_host : Option String
  pub headers : String → Option String
  pub now : ℕ
  pub later : ℕ

pub data Response : Type 0 where
  accepted : ℕ → Response
  bad_request : Response
  rate_limited : Dimension → Response
  queue_full : Response
  server_error : Response

abbrev pub or_text : String → Option String → String
or_text default none = default
or_text default (some s) = s

-- The spans, if each is an object; `none` is the exception of the first that is not.
unfoldable pub objects : List (Option Span) → Option (List Span)
objects [] = some []
objects (none ∷ l) = none
objects (some span ∷ l) = Option.map (λ spans. span ∷ spans) (objects l)

-- The checks of the payload, with its defaults, and the loop that logs the spans.
unfoldable pub telemetry_batch : Payload → Option Batch
unfolding objects
telemetry_batch no_json = none
telemetry_batch no_object = none
telemetry_batch (object service env version none) = none
telemetry_batch (object service env version (some [])) = none
telemetry_batch (object service env version (some (span ∷ l))) =
    Option.map
      (λ spans. record {
        service = or_text "unknown" service;
        env = or_text "unknown" env;
        version = or_text "" version;
        spans = spans;
      })
      (objects (span ∷ l))

-- How a payload is answered that yields no batch: the checks answer 400, and the loop's exception
-- becomes a 500.
unfoldable pub refusal : Payload → Response
refusal (object service env version (some (span ∷ l))) = server_error
refusal _ = bad_request

unfoldable pub check_rate :
    Option RateLimiter → Request → String → Option Dimension × Option RateLimiter
check_rate none r service = (none, none)
check_rate (some limiter) r service =
    let (blocked, limiter') =
      RateLimiter.check (or_text "unknown" r.client_host) service r.now r.later limiter in
    (blocked, some limiter')

unfoldable pub tag : String → List Span → List Span
tag tenant [] = []
tag tenant (span ∷ spans) =
    record span { attributes = Dict.put "tenant" (text tenant) span.attributes } ∷ tag tenant spans

-- the tenant label
unfoldable pub tag_tenant : MultiTenantSection → Request → Batch → Batch
unfolding tag
tag_tenant s r b =
    if s.enabled
    then record b { spans = tag (or_text "default" (r.headers s.header_name)) b.spans }
    else b

abbrev pub enqueue_reply : ℕ → Option Bool → Response
enqueue_reply n (some true) = accepted n
enqueue_reply n (some false) = queue_full
enqueue_reply n none = server_error

module _ (o : Outside) where
  -- the end of the handler, for a batch that is not rate limited
  unfoldable pub accept_batch : Batch → Collector → Response × Collector
  accept_batch b c =
      let (answer, worker) = enqueue o c.settings b c.worker in
      (enqueue_reply (length b.spans) answer, record c { worker = worker })

  unfoldable pub take_batch : Request → Batch → Collector → Response × Collector
  unfolding check_rate tag_tenant accept_batch
  take_batch r b c =
      let (blocked, limiter) = check_rate c.rate_limiter r b.service in
      elim blocked [
        | some dimension ↦ (rate_limited dimension, record c { rate_limiter = limiter })
        | none ↦
            accept_batch (tag_tenant c.config.multi_tenant r b)
              (record c { rate_limiter = limiter })
      ]

  unfoldable pub ingest_telemetry : Request → Collector → Response × Collector
  unfolding telemetry_batch refusal take_batch
  ingest_telemetry r c = elim (telemetry_batch r.payload) [
    | none ↦ (refusal r.payload, c)
    | some b ↦ take_batch r b c
  ]

  -- `GET /metrics`, up to the text of the page
  unfoldable pub prometheus_metrics : Collector → Collector
  unfolding update_gauges
  prometheus_metrics c = record c { worker = (update_gauges o c.worker).1 }

pub data Found : Type 0 where
  disabled not_found : Found
  spans : String → List Span → Found
  traces : List Summary → Found

abbrev pub found_spans : String → Option (List Span) → Found
found_spans trace_id none = not_found
found_spans trace_id (some l) = spans trace_id l

unfoldable pub get_trace_by_id : String → Collector → Found
get_trace_by_id trace_id c = elim c.worker.trace_store [
  | none ↦ disabled
  | some store ↦ found_spans trace_id (TraceStore.get trace_id store)
]

-- A parameter that is there and not empty.
abbrev pub given : Option String → Bool
given none = false
given (some s) = if str_eq s "" then false else true

abbrev pub with_store : Collector → TraceStore → Collector
with_store c store = record c { worker = record c.worker { trace_store = some store } }

-- `GET /v1/traces` at the clock reading `now`
unfoldable pub query_traces : Option String → Option String → ℤ → ℕ → Collector → Found × Collector
query_traces trace_id service limit now c = elim c.worker.trace_store [
  | none ↦ (disabled, c)
  | some store ↦
      if given trace_id
      then (found_spans (or_text "" trace_id) (TraceStore.get (or_text "" trace_id) store), c)
      else if given service
      then (let (found, store') = TraceStore.search service (magnitude limit) now store in
          (traces found, with_store c store'))
      else (let (found, store') = TraceStore.recent (magnitude limit) now store in
          (traces found, with_store c store'))
]

-- `queue_pct < hard_limit_pct`, multiplied out; a queue without a bound is at 0 per cent. The
-- exporter has no attribute `healthy`, so that it adds no reason.
unfoldable pub is_ready : Collector → Bool
is_ready c =
    if c.worker.queue.maxsize == 0
    then (if magnitude c.config.backpressure.hard_limit_pct == 0 then false else true)
    else if leb (magnitude c.config.backpressure.hard_limit_pct * c.worker.queue.maxsize)
        (Queue.qsize c.worker.queue * 100 * 1000000)
    then false
    else true
