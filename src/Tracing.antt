-- ===== src/Tracing.antt =====
-- The active span of src/rastir/context.py and the wrappers of `@trace`, `@agent` and `@metric` of
-- src/rastir/decorators.py, in their synchronous form; the asynchronous one differs in the `await`.
-- The context holds the active span as a value: a decorated function reaches the span object only
-- through `get_current_span`, so that what it writes to the object is what it writes here. A span
-- that is handed to the span queue is kept in a list, in order.
pub mod Forest
pub mod Nesting
use rastir.Base.{
  ℕ, ◌+◌, String, Bool, true, false, Option, none, some, List, [], ◌∷◌, ◌++◌, str_eq, if◌then◌else◌,
}
use rastir.Span.{Value, flag, text}
use rastir.SpanRecord
use rastir.SpanRecord.{SpanRecord, SpanType, Anchors, ok, error, post_init, finish, set_attribute}

-- `uuid.uuid4().hex` and the two clocks, by the number of calls made before.
pub record Sources : Type 0 where
  pub id : ℕ → String
  pub wall : ℕ → ℕ
  pub monotonic : ℕ → ℕ

pub record Client : Type 0 where
  pub current_span : Option SpanRecord
  pub current_agent : Option String
  pub current_model : Option String
  pub current_provider : Option String
  pub anchors : Anchors
  pub enqueued : List SpanRecord
  pub calls : ℕ

-- An exception, by its qualified name and its message.
pub record Raised : Type 0 where
  pub error_type : String
  pub error_message : String

-- `span.set_attribute(key, name)` for a name that is there and not empty
abbrev pub mark_text : String → Option String → SpanRecord → SpanRecord
mark_text key none span = span
mark_text key (some s) span = if str_eq s "" then span else set_attribute key (text s) span

-- `@trace` with `emit_metric`, `@agent` and `@metric`, with the resolved names
pub data Decorator : Type 0 where
  at_trace : String → Bool → Decorator
  at_agent : String → Decorator
  at_metric : String → Decorator

abbrev pub span_name : Decorator → String
span_name (at_trace name emit_metric) = name
span_name (at_agent name) = name
span_name (at_metric name) = name

abbrev pub span_type : Decorator → SpanType
span_type (at_trace name emit_metric) = SpanRecord.trace
span_type (at_agent name) = SpanRecord.agent
span_type (at_metric name) = SpanRecord.metric

-- the attributes that the wrapper sets
unfoldable pub mark : Decorator → SpanRecord → SpanRecord
mark (at_trace name true) span = set_attribute "emit_metric" (flag true) span
mark (at_trace name false) span = span
mark (at_agent name) span = set_attribute "agent" (text name) span
mark (at_metric name) span = set_attribute "metric_name" (text name) span

-- `set_current_agent`, for an agent
abbrev pub agent_within : Decorator → Option String → Option String
agent_within (at_agent name) outer = some name
agent_within d outer = outer

-- `current_span.set_attribute(...)` in the decorated function
abbrev pub set_current : String → Value → Option SpanRecord → Option SpanRecord
set_current key value none = none
set_current key value (some span) = some (set_attribute key value span)

-- The parts of a decorated function that matter here: it sets attributes of the active span, calls
-- decorated functions, whose exceptions it may catch, and returns or raises.
pub data Body : Type 0 where
  returns : Body
  raises : Raised → Body
  setting : String → Value → Body → Body
  calling : Bool → Decorator → Body → Body → Body

-- the active span as the object that the wrapper holds
abbrev pub held : SpanRecord → Option SpanRecord → SpanRecord
held span none = span
held span (some object) = object

-- `finish` on the two branches
unfoldable pub close : Option Raised → ℕ → SpanRecord → SpanRecord
close none mono span = finish ok mono span
close (some e) mono span =
    finish error mono (SpanRecord.record_error e.error_type e.error_message span)

-- does the caller go on after the call?
abbrev pub goes_on : Bool → Option Raised → Bool
goes_on caught none = true
goes_on caught (some e) = caught

module _ (o : Sources) where
  -- the new record, before `__post_init__`
  unfoldable pub new_span : String → SpanType → ℕ → Option SpanRecord → SpanRecord
  new_span name type n none = record {
    name = name;
    span_type = type;
    trace_id = o.id n;
    span_id = o.id (n + 1);
    parent_id = none;
    start_time = o.wall n;
    end_time = none;
    status = ok;
    attributes = [];
    events = [];
    mono_start = o.monotonic n;
  }
  new_span name type n (some parent) = record {
    name = name;
    span_type = type;
    trace_id = parent.trace_id;
    span_id = o.id (n + 1);
    parent_id = some parent.span_id;
    start_time = o.wall n;
    end_time = none;
    status = ok;
    attributes = [];
    events = [];
    mono_start = o.monotonic n;
  }

  -- `start_span`; the token is the span that was active before.
  unfoldable pub start_span : String → SpanType → Client → SpanRecord × Client
  unfolding new_span
  start_span name type c =
      let (span, anchors) = post_init (new_span name type c.calls c.current_span) c.anchors in
      (span, record c { current_span = some span; anchors = anchors; calls = c.calls + 2 })

  -- the `finally` blocks: the agent and the span of the caller are active again.
  unfoldable pub end_call : Client → SpanRecord → Option Raised × Client → Option Raised × Client
  end_call outer span (r, c) = (
    r,
    record c {
      current_span = outer.current_span;
      current_agent = outer.current_agent;
      enqueued = c.enqueued ++ close r (o.monotonic c.calls) (held span c.current_span) ∷ [];
      calls = c.calls + 1;
    },
  )

  -- the context in which the decorated function runs
  unfoldable pub enter : Decorator → Client → SpanRecord × Client
  unfolding start_span
  enter d c =
      let (span, c') = start_span (span_name d) (span_type d) c in
      (
        mark d span,
        record c' {
          current_span = some (mark d span);
          current_agent = agent_within d c.current_agent;
        },
      )

  -- the wrapper around a decorated function
  unfoldable pub wrapper :
      Decorator → (Client → Option Raised × Client) → Client → Option Raised × Client
  wrapper d body c = let (span, c') = enter d c in end_call c span (body c')

  unfoldable pub run : Body → Client → Option Raised × Client
  run returns c = (none, c)
  run (raises e) c = (some e, c)
  run (setting key value rest) c =
      run rest (record c { current_span = set_current key value c.current_span })
  run (calling caught d inner rest) c =
      let (r, c') = wrapper d (run inner) c in
      let after = run rest c' in if goes_on caught r then after else (r, c')
