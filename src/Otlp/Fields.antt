-- ===== src/Otlp/Fields.antt =====
-- What `_dict_to_readable_span` of src/rastir/server/otlp_exporter.py makes of the fields of a span:
-- the SDK's classes as records, and the conversions that keep no state.
use Prim.Native.String.{◌++◌ as append}
use rastir.Base.{
  ℕ, ◌+◌, ◌*◌, ◌-◌, ◌/◌, ◌%◌, String, Bool, true, false, Option, none, some, List, [], ◌∷◌, ltb,
  str_eq, min, if◌then◌else◌,
}
use rastir.Base.Integers.{ℤ, pos, negsuc}
use rastir.Dict
use rastir.Dict.{Dict, is_some}
use rastir.Span.{Span, Event, Value, null, text, texts, truthy}

pub data SpanKind : Type 0 where
  server internal : SpanKind

-- `SpanContext`, whose flags are always SAMPLED
pub record SpanContext : Type 0 where
  pub trace_id : ℤ
  pub span_id : ℤ
  pub is_remote : Bool

-- `Status`: OK, or ERROR with a description
pub data Status : Type 0 where
  ok : Status
  error : Value → Status

pub record Resource : Type 0 where
  pub service_name : String
  pub environment : String
  pub service_version : String
  pub runtime_name : String
  pub runtime_version : String

pub record OtelEvent : Type 0 where
  pub name : String
  pub exception_type : Option String
  pub exception_message : Option String

pub record ReadableSpan : Type 0 where
  pub name : String
  pub context : SpanContext
  pub parent : Option SpanContext
  pub resource : Resource
  pub attributes : Dict Value
  pub events : List OtelEvent
  pub kind : SpanKind
  pub status : Status
  pub start_time : ℕ
  pub end_time : ℕ

-- service, environment and version
abbrev pub ResourceKey : Type 0
ResourceKey = String × String × String

-- 2 ^ 96
abbrev pub low_bits : ℕ
low_bits = 79228162514264337593543950336

-- `raw & ((1 << 96) - 1)`, also for a negative number
abbrev pub masked : ℤ → ℕ
masked (pos n) = n % low_bits
masked (negsuc n) = low_bits - 1 - n % low_bits

-- the timestamp in seconds, `& 0xFFFFFFFF`, above the 96 bits that stay
abbrev pub stamped : Option ℕ → ℤ → ℤ
stamped none raw = raw
stamped (some epoch) raw = pos ((epoch / 1000000000) % 4294967296 * low_bits + masked raw)

-- `s or default`
abbrev pub or_default : String → String → String
or_default default s = if str_eq s "" then default else s

abbrev pub given : {A : Type 0} → A → Option A → A
given default none = default
given default (some a) = a

-- An attribute that the SDK takes: a text, a number or a flag.
abbrev pub is_plain : Value → Bool
is_plain null = false
is_plain (texts l) = false
is_plain _ = true

unfoldable pub plain_attributes : Dict Value → Dict Value → Dict Value
plain_attributes [] out = out
plain_attributes ((k, v) ∷ attributes) out =
    plain_attributes attributes (if is_plain v then Dict.put (append "rastir." k) v out else out)

unfoldable pub otel_attributes : Span → ResourceKey → Dict Value
unfolding plain_attributes
otel_attributes span (service, env, version) = plain_attributes span.attributes (
    ("rastir.service", text (or_default "unknown" service))
    ∷ ("rastir.env", text (or_default "unknown" env))
    ∷ ("rastir.version", text version)
    ∷ ("rastir.span_type", text (given "unknown" span.span_type))
    ∷ [])

-- Start and end, put right where the clocks disagree.
unfoldable pub corrected : ℕ → ℕ → Option ℕ → ℕ × ℕ
corrected start_ns end_ns duration =
    if ltb end_ns start_ns
    then elim duration [
      | none ↦ (end_ns, start_ns)
      | some d ↦
          if ltb 0 d then (min start_ns end_ns, min start_ns end_ns + d) else (end_ns, start_ns)
    ]
    else (start_ns, end_ns)

-- The first message of the exceptions that is not empty, else the last one.
unfoldable pub exception_message : List Event → Value → Value
exception_message [] message = message
exception_message (e ∷ events) message = elim (str_eq (given "" e.name) "exception") [
  | false ↦ exception_message events message
  | true ↦ elim (str_eq (given "" e.exception_message) "") [
    | true ↦ exception_message events (text "")
    | false ↦ text (given "" e.exception_message)
  ]
]

unfoldable pub error_description : Span → Value
unfolding exception_message
error_description span =
    let message = given (text "") (Dict.get "error.message" span.attributes) in
    if truthy message then message else exception_message span.events message

unfoldable pub status_of_span : Span → Status
unfolding error_description
status_of_span span =
    if str_eq (given "OK" span.status) "ERROR" then error (error_description span) else ok

abbrev pub otel_event : Event → OtelEvent
otel_event e = record {
  name = given "" e.name;
  exception_type = e.exception_type;
  exception_message = e.exception_message;
}
