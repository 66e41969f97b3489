-- ===== src/Metrics.antt =====
-- The state of `MetricsRegistry` in src/rastir/server/metrics.py and its helpers. Prometheus is
-- outside: each call of a metric is kept as a sample, in order.
pub mod Labels
pub mod LlmSpan
pub mod RecordSpan
pub mod Cardinality
pub mod ErrorTypes
use rastir.Base.{
  ℕ, zero, ◌+◌, ◌/◌, ◌==◌, String, Bool, true, false, not, ◌&&◌, ◌||◌, Option, none, some, List, [],
  ◌∷◌, ◌++◌, length, ltb, leb, str_eq, if◌then◌else◌,
}
use rastir.Dict
use rastir.Dict.{Dict}
use rastir.Text.{codes, text_length, text_take, text_drop, lower, occurs}
use rastir.Span.{Span, Event}

abbrev pub overflow_sentinel : String
overflow_sentinel = "__cardinality_overflow__"

-- The label dimensions with a guard, by the names that the caps are looked up with.
abbrev pub default_caps : Dict ℕ
default_caps =
    ("model", 50)
    ∷ ("provider", 10)
    ∷ ("tool_name", 200)
    ∷ ("agent", 200)
    ∷ ("error_type", 50)
    ∷ ("guardrail_id", 100)
    ∷ ("pricing_profile", 20)
    ∷ []

-- What is done to a metric: `inc`, `observe` or `set`.
pub data Update : Type 0 where
  inc observe set : ℕ → Update

-- An exemplar's trace id: as it came, or in the X-Ray form `1-{epoch:08x}-{rest}`.
pub data TraceRef : Type 0 where
  w3c : String → TraceRef
  xray : ℕ → String → TraceRef

pub record Sample : Type 0 where
  pub metric : String
  pub labels : List (String × String)
  pub update : Update
  pub exemplar : Option TraceRef

-- `_seen_*`: the label values of one dimension that have been let through
abbrev pub Seen : Type 0
Seen = List String

unfoldable pub is_seen : String → Seen → Bool
is_seen v [] = false
is_seen v (w ∷ seen) = str_eq w v || is_seen v seen

-- `_clip`
unfoldable pub clip : ℕ → String → String
clip max_label_len value =
    if ltb max_label_len (text_length value) then text_take max_label_len value else value

-- `_guard_cardinality`, with the cap of the dimension looked up
unfoldable pub guard_cardinality : ℕ → ℕ → String → Seen → String × Seen
unfolding is_seen
guard_cardinality max_label_len cap value seen =
    let v = clip max_label_len value in
    if is_seen v seen
    then (v, seen)
    else (if leb cap (length seen) then (overflow_sentinel, seen) else (v, v ∷ seen))

-- `_cardinality_caps.get(dimension, 500)`
abbrev pub cap_of : Option ℕ → ℕ
cap_of none = 500
cap_of (some cap) = cap

-- `_VALID_SPAN_TYPES`
abbrev pub valid_span_types : List String
valid_span_types = "agent" ∷ "llm" ∷ "tool" ∷ "retrieval" ∷ "evaluation" ∷ "system" ∷ "infra" ∷ []

-- `_normalise_span_type`
unfoldable pub normalise_span_type : String → String
unfolding is_seen
normalise_span_type raw = if is_seen raw valid_span_types then raw else "system"

-- `_ERROR_TYPE_MAP`
abbrev pub error_type_map : Dict String
error_type_map =
    ("TimeoutError", "timeout")
    ∷ ("asyncio.TimeoutError", "timeout")
    ∷ ("httpx.TimeoutException", "timeout")
    ∷ ("httpx.ReadTimeout", "timeout")
    ∷ ("httpx.ConnectTimeout", "timeout")
    ∷ ("requests.exceptions.Timeout", "timeout")
    ∷ ("openai.APITimeoutError", "timeout")
    ∷ ("RateLimitError", "rate_limit")
    ∷ ("openai.RateLimitError", "rate_limit")
    ∷ ("anthropic.RateLimitError", "rate_limit")
    ∷ ("ValueError", "validation_error")
    ∷ ("TypeError", "validation_error")
    ∷ ("ValidationError", "validation_error")
    ∷ ("pydantic.ValidationError", "validation_error")
    ∷ ("openai.APIError", "provider_error")
    ∷ ("openai.APIConnectionError", "provider_error")
    ∷ ("openai.APIStatusError", "provider_error")
    ∷ ("anthropic.APIError", "provider_error")
    ∷ ("anthropic.APIConnectionError", "provider_error")
    ∷ ("anthropic.APIStatusError", "provider_error")
    ∷ ("botocore.exceptions.ClientError", "provider_error")
    ∷ ("RuntimeError", "internal_error")
    ∷ ("Exception", "internal_error")
    ∷ []

-- `event["attributes"]["exception.type"]` of an exception, or what the later events have
abbrev pub first_type : Option String → Option String → String → String
first_type (some name) (some exception_type) later =
    if str_eq name "exception" && not (str_eq exception_type "") then exception_type else later
first_type _ _ later = later

-- the loop over the events: the type of the first exception that has one
unfoldable pub raw_error_type : List Event → String
raw_error_type [] = ""
raw_error_type (e ∷ events) = first_type e.name e.exception_type (raw_error_type events)

-- the substring tests on the lower-cased name
unfoldable pub error_type_by_substring : String → String
unfolding codes lower occurs
error_type_by_substring raw =
    let low = lower (codes raw) in
    if occurs (codes "timeout") low
    then "timeout"
    else (if occurs (codes "ratelimit") low || occurs (codes "rate_limit") low
        then "rate_limit"
        else (if occurs (codes "validation") low then "validation_error" else "unknown"))

-- the lookup, and the substring tests for a name that is not in the map
unfoldable pub category_of : Option String → String → String
category_of (some category) raw = category
category_of none raw = error_type_by_substring raw

-- `_normalise_error_type`
unfoldable pub normalise_error_type : Span → String
unfolding category_of
normalise_error_type span =
    let raw = raw_error_type span.events in
    if str_eq raw "" then "unknown" else category_of (Dict.get raw error_type_map) raw

-- What `record_span` keeps between calls.
pub record Metrics : Type 0 where
  pub max_label_len : ℕ
  pub caps : Dict ℕ
  pub exemplars_enabled : Bool
  pub trace_id_format : String
  pub models : Seen
  pub providers : Seen
  pub tools : Seen
  pub agents : Seen
  pub error_types : Seen
  pub pricing_profiles : Seen
  pub guardrail_ids : Seen
  pub samples : List Sample
  pub rate_spans : ℕ
  pub trace_epoch_cache : Dict ℕ

-- `span.get("start_time_unix_nano", 0)`
abbrev pub nanos : Option ℕ → ℕ
nanos none = 0
nanos (some n) = n

-- `_format_trace_id`, with the wall clock in ticks of a nanosecond
unfoldable pub format_trace_id : ℕ → String → Span → Metrics → TraceRef
format_trace_id wall trace_id span m =
    let given = nanos span.start_time_unix_nano / 1000000000 in
    let epoch = if given == 0 then wall / 1000000000 else given in
    if str_eq m.trace_id_format "xray" && text_length trace_id == 32
    then xray epoch (text_drop 8 trace_id)
    else w3c trace_id
