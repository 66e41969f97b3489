-- ===== src/Otlp.antt =====
-- `OTLPForwarder` of src/rastir/server/otlp_exporter.py: what the OpenTelemetry SDK gets for a span
-- dictionary. The SDK's classes are records with the fields that the code fills; what its span
-- processor does with a span is outside, so that the forwarder keeps the list of spans that it was
-- given. Times are whole nanoseconds. The timestamps of events are left out.
pub mod Fields
pub mod Reference
pub mod Conversion
pub mod Epochs
pub mod Linked
pub mod Ids
pub mod Bounds
pub mod AcrossProcesses
use Prim.Native.String.{◌++◌ as append}
use rastir.Base.{
  ℕ, ◌+◌, ◌*◌, ◌-◌, ◌/◌, ◌%◌, String, Bool, true, false, ◌&&◌, ◌||◌, Option, none, some, List, [],
  ◌∷◌, ◌++◌, map, length, ltb, str_eq, min, if◌then◌else◌,
}
use rastir.Base.Integers.{ℤ, pos, negsuc}
use rastir.Dict
use rastir.Dict.{Dict, is_some}
use rastir.Exec.{Exec, pure, raise, lift, gets, modify, when, ◌>>=◌, ◌>>◌}
use rastir.Text.{text_take}
use rastir.Span.{Span, Event, Value, null, flag, num, text, texts, truthy}
use rastir.Text.Hex.{int16}
use rastir.Otlp.Fields.{
  SpanKind, server, internal, SpanContext, Status, ok, error, Resource, OtelEvent, ReadableSpan,
  ResourceKey, low_bits, masked, stamped, or_default, given, is_plain, plain_attributes,
  otel_attributes, corrected, exception_message, error_description, status_of_span, otel_event,
}

pub record Forwarder : Type 0 where
  pub trace_id_format : String
  pub resource_cache : List (ResourceKey × Resource)
  pub trace_epoch_cache : Dict ℕ
  -- what `on_end` of the processor was called with
  pub ended : List ReadableSpan

-- Names and versions of the Python that runs.
pub record Platform : Type 0 where
  pub implementation : String
  pub version : String

abbrev pub F : Type 0 → Type 0
F = Exec Forwarder

unfoldable pub hex_to_trace_id : String → Option ℕ → F ℤ
unfolding int16
hex_to_trace_id hex start_epoch = do
  raw ← lift (int16 (text_take 32 hex))
  pure (stamped start_epoch raw)

unfoldable pub hex_to_span_id : String → F ℤ
unfolding int16
hex_to_span_id hex = lift (int16 (text_take 16 hex))

abbrev pub same_key : ResourceKey → ResourceKey → Bool
same_key (a, b, c) (d, e, f) = str_eq a d && str_eq b e && str_eq c f

unfoldable pub find_resource : ResourceKey → List (ResourceKey × Resource) → Option Resource
find_resource key [] = none
find_resource key ((k, resource) ∷ cache) =
    if same_key k key then some resource else find_resource key cache

-- The cache of epochs with that of the trace; it is emptied before a new trace when it is over its
-- limit.
unfoldable pub noted : String → ℕ → Dict ℕ → Dict ℕ
noted trace_id start_epoch cache =
    if Dict.has trace_id cache
    then cache
    else Dict.put trace_id start_epoch (if ltb 10000 (length cache) then [] else cache)

-- The epoch for the id of the trace, which only X-Ray needs.
unfoldable pub trace_epoch : String → ℕ → F (Option ℕ)
unfolding noted
trace_epoch trace_id start_epoch f =
    let cache = noted trace_id start_epoch f.trace_epoch_cache in
    if str_eq f.trace_id_format "xray"
    then (some (Dict.get trace_id cache), record f { trace_epoch_cache = cache })
    else (some none, f)

-- The parent's context.
unfoldable pub parent_context : ℤ → Option String → F (Option SpanContext)
unfolding hex_to_span_id
parent_context trace_id none = pure none
parent_context trace_id (some parent) = if str_eq parent "" then pure none else do
  span_id ← hex_to_span_id parent
  pure (some (record { trace_id = trace_id; span_id = span_id; is_remote = true }))

abbrev pub hand_on : Option ReadableSpan → F (Unit {0})
hand_on none = pure tt
hand_on (some readable) = modify (λ f. record f { ended = f.ended ++ readable ∷ [] })

module _ (platform : Platform) where
  -- `Resource.create` with what `_get_resource` gives it
  unfoldable pub create_resource : ResourceKey → Resource
  create_resource (service, env, version) = record {
    service_name = or_default "unknown" service;
    environment = or_default "unknown" env;
    service_version = version;
    runtime_name = platform.implementation;
    runtime_version = platform.version;
  }

  cached_or_new : Option Resource → ResourceKey → F Resource
  unfolding create_resource
  cached_or_new (some resource) key = pure resource
  cached_or_new none key = do
    modify (λ f. record f { resource_cache = f.resource_cache ++ (key, create_resource key) ∷ [] })
    pure (create_resource key)

  unfoldable pub get_resource : ResourceKey → F Resource
  unfolding cached_or_new find_resource
  get_resource key = do
    cache ← gets (λ f. f.resource_cache)
    cached_or_new (find_resource key cache) key

  -- the conversion of a span that has both ids, with the clock at `now`
  unfoldable pub convert : ℕ → String → String → Span → ResourceKey → F ReadableSpan
  unfolding trace_epoch hex_to_trace_id hex_to_span_id parent_context get_resource
  convert now raw_trace_id raw_span_id span key = do
    epoch ← trace_epoch raw_trace_id (given now span.start_time)
    trace_id ← hex_to_trace_id raw_trace_id epoch
    span_id ← hex_to_span_id raw_span_id
    parent ← parent_context trace_id span.parent_id
    resource ← get_resource key
    let times = corrected (given now span.start_time) (given now span.end_time) span.duration_ms
    pure (record {
      name = given "unknown" span.name;
      context = record { trace_id = trace_id; span_id = span_id; is_remote = false };
      parent = parent;
      resource = resource;
      attributes = otel_attributes span key;
      events = map otel_event span.events;
      kind = if is_some parent then internal else server;
      status = status_of_span span;
      start_time = times.0;
      end_time = times.1;
    })

  -- `_dict_to_readable_span`
  unfoldable pub dict_to_readable_span : ℕ → Span → ResourceKey → F (Option ReadableSpan)
  unfolding convert
  dict_to_readable_span now span key =
      let raw_trace_id = given "" span.trace_id in
      let raw_span_id = given "" span.span_id in
      if str_eq raw_trace_id "" || str_eq raw_span_id ""
      then pure none
      else do readable ← convert now raw_trace_id raw_span_id span key; pure (some readable)

  -- `export_span`
  unfoldable pub export_span : ℕ → Span → ResourceKey → F (Unit {0})
  unfolding dict_to_readable_span
  export_span now span key = do readable ← dict_to_readable_span now span key; hand_on readable
