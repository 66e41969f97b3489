-- ===== src/Tests/Otlp.antt =====
-- Spans that are handed to the exporter, on concrete inputs.
use rastir.Base.{◌++◌, ℕ, String, ◌≡◌, refl, true, false, Option, none, some, [], ◌∷◌, arith}
use rastir.Base.Integers.{pos, negsuc}
use rastir.Text.{text_take, text_length, is_white, text_strip, text_split}
use rastir.Text.Hex.{int16, digit_value}
use rastir.Dict
use rastir.Span.{Span, null, text}
use rastir.SpanRecord
use rastir.SpanRecord.{SpanRecord, set_attribute, post_init, to_dict, finish, reanchor}
use rastir.Tracing.{Sources, Client, Raised, returns, run, close}
use rastir.Remote.{Headers, ToolHost, Scope, call_tool, mcp_endpoint, middleware}
use rastir.Remote.Linked.{Hex, on_client, text_take-ne}
use rastir.Remote.AcrossProcesses.{Joined}
use rastir.Otlp.Ids.{all_digits-IsDigits}
use rastir.Otlp.Bounds.{Hexadecimal, InRange, export_span-InRange}
use rastir.Otlp.AcrossProcesses.{sent_by, call_tool-Fits}
use rastir.Otlp.Fields.{ReadableSpan, ResourceKey, status_of_span, error, corrected}
use rastir.Otlp.Reference.{Sent, raw_trace_id, raw_span_id, assembled}
use rastir.Otlp.{Platform, Forwarder, export_span, hex_to_trace_id}
use rastir.Otlp.Conversion.{Exported, export_span-Exported}
use rastir.Otlp.Epochs.{after, export_all}
use rastir.Otlp.Linked.{Fits, IsChild, state_of, export_all-Fits}

int16_forms :
    (int16 " 0x_fF " ≡ some (pos 255)) × (int16 "-1_0" ≡ some (negsuc 15)) × (int16 "1__0" ≡ none)
unfolding int16 is_white text_strip
int16_forms = (refl, refl, refl)

stamped_id :
    (f : Forwarder)
    → hex_to_trace_id "0123456789abcdef0123456789abcdef" (some 2000000000) f
      ≡ (some (pos 0x0000000289abcdef0123456789abcdef), f)
unfolding hex_to_trace_id text_take is_white text_strip
stamped_id f = refl

clocks_swapped : corrected 9 4 none ≡ (4, 9)
unfolding corrected
clocks_swapped = refl

abbrev platform : Platform
platform = record { implementation = "CPython"; version = "3.12" }

abbrev forwarder : String → Forwarder
forwarder format = record {
  trace_id_format = format;
  resource_cache = [];
  trace_epoch_cache = [];
  ended = [];
}

abbrev span : String → Option String → Span
span span_id parent_id = record {
  trace_id = some "0123456789abcdef0123456789abcdef";
  span_id = some span_id;
  parent_id = parent_id;
  name = some "turn";
  span_type = some "agent";
  status = some "ERROR";
  service = none;
  start_time = some 9000000000;
  end_time = some 4000000000;
  duration_ms = some 5000;
  start_time_unix_nano = none;
  attributes = ("error.message", null) ∷ ("model", text "m") ∷ [];
  events =
      record { name = some "exception"; exception_type = none; exception_message = some "no" } ∷ [];
}

described : status_of_span (span "a" none) ≡ error (text "no")
unfolding status_of_span rastir.Dict.get
described = refl

abbrev key : ResourceKey
key = ("api", "", "1")

abbrev parent : Sent
parent = record { now = 7; span = span "fedcba98765432100000000000000001" none; key = key }

abbrev child : Sent
child = record { now = 8; span = span "1111222233334444" (some "fedcba9876543210"); key = key }

export_span-Exported_example :
    Exported platform child
      (forwarder "xray")
      (export_span platform 8 child.span key (forwarder "xray"))
export_span-Exported_example = export_span-Exported platform child (forwarder "xray") tt

abbrev id_number : ℕ
id_number = 0x0123456789abcdef0123456789abcdef

parent-Hexadecimal : Hexadecimal parent
unfolding digit_value
parent-Hexadecimal = record {
  complete = refl;
  trace = all_digits-IsDigits (raw_trace_id parent) refl;
  span = all_digits-IsDigits (raw_span_id parent) refl;
  parent = tt;
}

export_span-InRange_example :
    (r : ReadableSpan) × ((export_span platform 7 parent.span key (forwarder "xray")).0 ≡ some tt)
    × ((export_span platform 7 parent.span key (forwarder "xray")).1.ended ≡ r ∷ [])
    × InRange parent r
export_span-InRange_example =
    export_span-InRange platform parent (forwarder "xray") tt parent-Hexadecimal

abbrev parent_out : ReadableSpan
parent_out = assembled platform parent (pos id_number) (pos 0xfedcba9876543210) none

abbrev child_out : ReadableSpan
child_out =
    assembled platform child (pos id_number) (pos 0x1111222233334444) (
      some
        (record { trace_id = pos id_number; span_id = pos 0xfedcba9876543210; is_remote = true }))

child-handed :
    (after platform child (state_of platform true parent [] (forwarder "w3c"))).ended
    ≡ (state_of platform true parent [] (forwarder "w3c")).ended ++ child_out ∷ []
unfolding int16 text_take is_white text_strip export_span
child-handed = refl

parent-handed :
    (after platform parent (state_of platform false child [] (forwarder "w3c"))).ended
    ≡ (state_of platform false child [] (forwarder "w3c")).ended ++ parent_out ∷ []
unfolding int16 text_take is_white text_strip export_span export_all
parent-handed = refl

child-IsChild : IsChild child parent
unfolding text_take
child-IsChild = record {
  id = "fedcba9876543210";
  same_trace = refl;
  names = refl;
  there = refl;
  same_span = refl;
}

export_all-Fits_example : Fits child_out parent_out
export_all-Fits_example =
    export_all-Fits platform child parent true [] (forwarder "w3c") child_out parent_out tt
      (λ h. omega arith) child-IsChild child-handed parent-handed

abbrev uuid : String
uuid = "0123456789abcdef0123456789abcdef"

abbrev sources : Sources
sources = record { id = λ n. uuid; wall = λ n. 10; monotonic = λ n. n }

abbrev client : Client
client = record {
  current_span = none;
  current_agent = none;
  current_model = none;
  current_provider = none;
  anchors = [];
  enqueued = [];
  calls = 0;
}

abbrev host : ToolHost
host = record { client = client; incoming = none }

abbrev session : Option Headers → Option Raised
session headers = none

abbrev request : Scope
request = record {
  scope_type = "http";
  headers = ("traceparent", "00-0123456789abcdef0123456789abcdef-0123456789abcdef-01") ∷ [];
}

abbrev span_of : String → Option String → String → SpanRecord
span_of name parent_id remote = record {
  name = name;
  span_type = SpanRecord.tool;
  trace_id = uuid;
  span_id = uuid;
  parent_id = parent_id;
  start_time = 10;
  end_time = some 12;
  status = SpanRecord.ok;
  attributes = ("tool_name", text "search") ∷ ("remote", text remote) ∷ [];
  events = [];
  mono_start = 0;
}

abbrev caller : SpanRecord
caller = span_of "search" none "true"

abbrev server : SpanRecord
server = span_of "mcpserver:search" (some "0123456789abcdef") "false"

uuid-Hex : Hex uuid
unfolding text_length
uuid-Hex = record { length = refl; no_dash = ground arith }

unfoldable joined :
    Joined client
      (call_tool sources "search" (some []) session client)
      host
      (middleware request (mcp_endpoint sources "search" (on_client (run sources returns))) host)
unfolding call_tool middleware mcp_endpoint set_attribute post_init text_take Dict.get Dict.put
    text_split text_strip is_white text_length run close finish reanchor
joined = record {
  caller = caller;
  asked_sent = refl;
  asked_status = refl;
  caller_restored = refl;
  inner = [];
  own = server;
  served_sent = refl;
  served_status = refl;
  served_restored = refl;
  incoming_restored = refl;
  same_trace = refl;
  parent = refl;
  not_caller = text_take-ne uuid uuid-Hex;
}

abbrev server_out : ReadableSpan
server_out =
    assembled platform (sent_by 20 key server) (pos id_number) (pos 0x0123456789abcdef) (
      some
        (record { trace_id = pos id_number; span_id = pos 0x0123456789abcdef; is_remote = true }))

abbrev caller_out : ReadableSpan
caller_out =
    assembled platform (sent_by 21 key caller) (pos id_number) (pos 0x0123456789abcdef) none

server-handed :
    (after platform
      (sent_by 20 key server)
      (state_of platform true (sent_by 21 key caller) [] (forwarder "w3c"))).ended
    ≡ (state_of platform true (sent_by 21 key caller) [] (forwarder "w3c")).ended ++ server_out ∷ []
unfolding int16 text_take is_white text_strip to_dict export_span
server-handed = refl

caller-handed :
    (after platform
      (sent_by 21 key caller)
      (state_of platform false (sent_by 20 key server) [] (forwarder "w3c"))).ended
    ≡ (state_of platform false (sent_by 20 key server) [] (forwarder "w3c")).ended
      ++ caller_out ∷ []
unfolding int16 text_take is_white text_strip to_dict export_span export_all
caller-handed = refl

call_tool-Fits_example : Fits server_out caller_out
unfolding joined
call_tool-Fits_example =
    call_tool-Fits platform (call_tool sources "search" (some []) session client) client host
      (middleware request (mcp_endpoint sources "search" (on_client (run sources returns))) host)
      joined 20 21 key key true [] (forwarder "w3c") server_out caller_out tt (λ h. omega arith)
      server-handed caller-handed
