-- ===== src/Otlp/Reference.antt =====
-- The conversion of a span by itself: all that it takes of the forwarder is the epoch of the trace.
use rastir.Base.{
  ℕ, String, Bool, true, false, not, ◌||◌, Option, none, some, map, str_eq, if◌then◌else◌,
}
use rastir.Base.Integers.{ℤ}
use rastir.Dict
use rastir.Dict.{Dict, is_some}
use rastir.Text.{text_take}
use rastir.Span.{Span}
use rastir.Text.Hex.{int16}
use rastir.Otlp.Fields.{
  ReadableSpan, SpanContext, ResourceKey, SpanKind, given, stamped, otel_attributes, corrected,
  status_of_span, otel_event,
}
use rastir.Otlp.{Platform, Forwarder, noted, create_resource}

-- A call of `export_span`.

pub record Sent : Type 0 where
  pub now : ℕ
  pub span : Span
  pub key : ResourceKey

abbrev pub raw_trace_id : Sent → String
raw_trace_id s = given "" s.span.trace_id

abbrev pub raw_span_id : Sent → String
raw_span_id s = given "" s.span.span_id

abbrev pub start_of : Sent → ℕ
start_of s = given s.now s.span.start_time

abbrev pub is_xray : Forwarder → Bool
is_xray f = str_eq f.trace_id_format "xray"

abbrev pub epochs_of : Sent → Forwarder → Dict ℕ
epochs_of s f =
    if is_xray f
    then noted (raw_trace_id s) (start_of s) f.trace_epoch_cache
    else f.trace_epoch_cache

abbrev pub epoch_of : Sent → Forwarder → Option ℕ
epoch_of s f =
    if is_xray f
    then Dict.get (raw_trace_id s) (noted (raw_trace_id s) (start_of s) f.trace_epoch_cache)
    else none

-- The ids of the trace and of the span are there.
abbrev pub is_complete : Sent → Bool
is_complete s = not (str_eq (raw_trace_id s) "" || str_eq (raw_span_id s) "")

-- The parent's context by itself: `none` is the exception.
abbrev pub remote_parent : ℤ → Option ℤ → Option (Option SpanContext)
remote_parent trace_id none = none
remote_parent trace_id (some span_id) =
    some (some (record { trace_id = trace_id; span_id = span_id; is_remote = true }))

abbrev pub parent_of : ℤ → Option String → Option (Option SpanContext)
parent_of trace_id none = some none
parent_of trace_id (some p) =
    if str_eq p "" then some none else remote_parent trace_id (int16 (text_take 16 p))

module _ (platform : Platform) where
  -- The span that the parts make.
  abbrev pub assembled : Sent → ℤ → ℤ → Option SpanContext → ReadableSpan
  assembled s trace_id span_id parent = record {
    name = given "unknown" s.span.name;
    context = record { trace_id = trace_id; span_id = span_id; is_remote = false };
    parent = parent;
    resource = create_resource platform s.key;
    attributes = otel_attributes s.span s.key;
    events = map otel_event s.span.events;
    kind = if is_some parent then SpanKind.internal else SpanKind.server;
    status = status_of_span s.span;
    start_time = (corrected (start_of s) (given s.now s.span.end_time) s.span.duration_ms).0;
    end_time = (corrected (start_of s) (given s.now s.span.end_time) s.span.duration_ms).1;
  }

  abbrev pub with_parent : Sent → ℤ → ℤ → Option (Option SpanContext) → Option ReadableSpan
  with_parent s trace_id span_id none = none
  with_parent s trace_id span_id (some parent) = some (assembled s trace_id span_id parent)

  abbrev pub with_ids : Sent → Option ℕ → Option ℤ → Option ℤ → Option ReadableSpan
  with_ids s epoch (some raw) (some span_id) =
      with_parent s (stamped epoch raw) span_id (parent_of (stamped epoch raw) s.span.parent_id)
  with_ids s epoch _ _ = none

  -- The conversion without the state, for the epoch that the trace has.
  abbrev pub conversion : Sent → Option ℕ → Option ReadableSpan
  conversion s epoch =
      with_ids s epoch (int16 (text_take 32 (raw_trace_id s)))
        (int16 (text_take 16 (raw_span_id s)))
