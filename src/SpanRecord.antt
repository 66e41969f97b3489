-- ===== src/SpanRecord.antt =====
-- `SpanRecord`, `SpanType`, `SpanStatus` and the trace time anchors of src/rastir/spans.py. Both
-- clocks are read in whole ticks by the caller. A wall clock that lies before an anchor cannot
-- give a time below zero here: monotonic readings of children follow the root's.
pub mod Anchors
pub mod Errors
use rastir.Base.{
  ℕ, ◌+◌, ◌-◌, ◌*◌, ◌/◌, String, Option, none, some, List, [], ◌∷◌, ◌++◌, length, ltb,
  if◌then◌else◌,
}
use rastir.Dict
use rastir.Dict.{Dict}
use rastir.Span.{Value, text, Event, Span}

pub data SpanStatus : Type 0 where
  ok error : SpanStatus

abbrev pub status_value : SpanStatus → String
status_value ok = "OK"
status_value error = "ERROR"

pub data SpanType : Type 0 where
  trace agent llm tool retrieval metric system infra evaluation : SpanType

abbrev pub type_value : SpanType → String
type_value trace = "trace"
type_value agent = "agent"
type_value llm = "llm"
type_value tool = "tool"
type_value retrieval = "retrieval"
type_value metric = "metric"
type_value system = "system"
type_value infra = "infra"
type_value evaluation = "evaluation"

pub record SpanRecord : Type 0 where
  pub name : String
  pub span_type : SpanType
  pub trace_id : String
  pub span_id : String
  pub parent_id : Option String
  pub start_time : ℕ
  pub end_time : Option ℕ
  pub status : SpanStatus
  pub attributes : Dict Value
  pub events : List Event
  pub mono_start : ℕ

-- `_trace_time_anchor`: wall and monotonic time of the root of each trace
abbrev pub Anchors : Type 0
Anchors = Dict (ℕ × ℕ)

-- `wall_anchor + (mono - mono_anchor)`, or the time that is there without an anchor
abbrev pub anchored : Option (ℕ × ℕ) → ℕ → ℕ → ℕ
anchored none mono start = start
anchored (some (wall, root_mono)) mono start = wall + mono - root_mono

-- `if len(_trace_time_anchor) > 10_000: _trace_time_anchor.clear()`
abbrev pub trimmed : Anchors → Anchors
trimmed anchors = if ltb 10000 (length anchors) then [] else anchors

-- `__post_init__`
unfoldable pub post_init : SpanRecord → Anchors → SpanRecord × Anchors
post_init s anchors = elim s.parent_id [
  | none ↦ (s, Dict.put s.trace_id (s.start_time, s.mono_start) (trimmed anchors))
  | some parent ↦ (
    record s { start_time = anchored (Dict.get s.trace_id anchors) s.mono_start s.start_time },
    anchors,
  )
]

-- `_reanchor`
unfoldable pub reanchor : SpanRecord → Anchors → SpanRecord
reanchor s anchors = elim s.parent_id [
  | none ↦ s
  | some parent ↦ record s {
    start_time = anchored (Dict.get s.trace_id anchors) s.mono_start s.start_time;
  }
]

unfoldable pub duration : SpanRecord → ℕ
duration s = elim s.end_time [ none ↦ 0 | some t ↦ t - s.start_time ]

-- `finish`, with the monotonic clock at `mono`
unfoldable pub finish : SpanStatus → ℕ → SpanRecord → SpanRecord
finish status mono s = record s {
  end_time = some (s.start_time + (mono - s.mono_start));
  status = status;
}

-- `record_error`, with the exception's qualified name and message
unfoldable pub record_error : String → String → SpanRecord → SpanRecord
record_error error_type error_message s = record s {
  status = error;
  events =
      s.events
      ++ record {
        name = some "exception";
        exception_type = some error_type;
        exception_message = some error_message;
      }
        ∷ [];
  attributes =
      Dict.put "error.message" (text error_message)
        (Dict.put "error.type" (text error_type) s.attributes);
}

unfoldable pub set_attribute : String → Value → SpanRecord → SpanRecord
set_attribute key value s = record s { attributes = Dict.put key value s.attributes }

-- `to_dict`. The payload calls the parent `parent_span_id`, and has the times in seconds and the
-- duration in milliseconds as fractions; all are whole ticks here.
unfoldable pub to_dict : SpanRecord → Span
unfolding duration
to_dict s = record {
  trace_id = some s.trace_id;
  span_id = some s.span_id;
  parent_id = s.parent_id;
  name = some s.name;
  span_type = some (type_value s.span_type);
  status = some (status_value s.status);
  service = none;
  start_time = some s.start_time;
  end_time = s.end_time;
  duration_ms = some (duration s);
  start_time_unix_nano = none;
  attributes = s.attributes;
  events = s.events;
}
