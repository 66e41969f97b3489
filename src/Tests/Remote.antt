-- ===== src/Tests/Remote.antt =====
-- A tool called and served on concrete inputs.
use rastir.Base.{String, ◌≡◌, refl, true, false, Option, none, some, [], ◌∷◌, arith}
use rastir.Text.{text_length, text_take, zero_fill, text_without, text_split, text_strip, is_white}
use rastir.Tracing.{Sources, Client, Raised, at_trace, Body, returns, raises, calling, run}
use rastir.Remote.{
  McpClient, trace_field, span_field, format_traceparent, parse_traceparent, Headers, ToolHost,
  Scope, call_tool, mcp_endpoint, middleware, dict_of,
}
use rastir.Dict
use rastir.SpanRecord
use rastir.SpanRecord.{SpanRecord, set_attribute, post_init}
use rastir.Remote.RoundTrip.{parse_traceparent-format_traceparent}
use rastir.Remote.Linked.{Hex, on_client}
use rastir.Remote.AcrossProcesses.{Joined, Delivered, mcp_endpoint-call_tool}

abbrev uuid : String
uuid = "0123456789abcdef0123456789abcdef"

abbrev sources : Sources
sources = record { id = λ n. uuid; wall = λ n. n; monotonic = λ n. n }

abbrev client : Client
client = record {
  current_span = none;
  current_agent = some "planner";
  current_model = none;
  current_provider = none;
  anchors = [];
  enqueued = [];
  calls = 0;
}

abbrev host : ToolHost
host = record { client = client; incoming = none }

abbrev session : Option Headers → Option Raised
session headers = none

abbrev request : Scope
request = record {
  scope_type = "http";
  headers =
      ("host", "tools")
      ∷ ("traceparent", "00-0123456789abcdef0123456789abcdef-0123456789abcdef-01")
      ∷ [];
}

abbrev body : Body
body =
    calling true (at_trace "step" false)
      (raises (record { error_type = "ValueError"; error_message = "no" })) returns

parse_padded :
    parse_traceparent (format_traceparent "ab-c" "d")
    ≡ some ("abc00000000000000000000000000000", "d000000000000000")
unfolding parse_traceparent format_traceparent text_take zero_fill text_without text_split
    text_strip is_white text_length
parse_padded = refl

parse_short : parse_traceparent "00-abc-def-01" ≡ none
unfolding parse_traceparent text_split text_strip is_white text_length
parse_short = refl

uuid-Hex : Hex uuid
unfolding text_length
uuid-Hex = record { length = refl; no_dash = ground arith }

request-Delivered : Delivered (call_tool sources "search" (some []) session client).2 request
unfolding call_tool dict_of Dict.get Dict.put format_traceparent text_take zero_fill text_without
    set_attribute post_init
request-Delivered = record { over_http = refl; same = refl }

mcp_endpoint-call_tool_example :
    Joined client
      (call_tool sources "search" (some []) session client)
      host
      (middleware request (mcp_endpoint sources "search" (on_client (run sources body))) host)
mcp_endpoint-call_tool_example =
    mcp_endpoint-call_tool sources sources "search" "search" [] session body request client host
      uuid-Hex uuid-Hex request-Delivered

abbrev span : SpanRecord
span = record {
  name = "turn";
  span_type = SpanRecord.agent;
  trace_id = uuid;
  span_id = uuid;
  parent_id = none;
  start_time = 0;
  end_time = none;
  status = SpanRecord.ok;
  attributes = [];
  events = [];
  mono_start = 0;
}

abbrev in_turn : Client
in_turn = record client { current_span = some span }

abbrev crew_server : McpClient
crew_server = record {
  class_name = "MCPServerSSE";
  module_name = "crewai.mcp";
  connections = none;
  headers = none;
  http_client = none;
}

abbrev other : McpClient
other = record crew_server { class_name = "Toolbox" }

parse_traceparent-format_traceparent_example :
    (parse_traceparent (format_traceparent uuid "a-b") ≡ some (trace_field uuid, span_field "a-b"))
    × (text_length (trace_field uuid) ≡ 32)
    × (text_length (span_field "a-b") ≡ 16)
parse_traceparent-format_traceparent_example = parse_traceparent-format_traceparent uuid "a-b"
