-- ===== src/Remote/AcrossProcesses.antt =====
-- A call of a tool from the proxy to the endpoint behind the middleware, and the headers of the
-- clients that the frameworks hold.
use rastir.Base.{
  ◌+◌, String, ◌≡◌, ◌≢◌, refl, ap, ◌∙◌, true, ◌||◌, Option, none, some, List, [], ◌∷◌, ◌++◌, str_eq,
}
use rastir.Dict
use rastir.Dict.Laws.{get-put}
use rastir.Text.{text_take}
use rastir.SpanRecord.{SpanRecord}
use rastir.Tracing.{Sources, Client, Raised, Body, run}
use rastir.Tracing.Nesting.{status_of, trace_of}
use rastir.Remote.{
  trace_field, span_field, format_traceparent, Headers, TraceContext, ToolHost, Scope, dict_of,
  incoming_context, middleware, call_tool, mcp_endpoint,
}
use rastir.Remote.Linked.{
  Hex, trace_field_of_Hex, span_field_of_Hex, text_take-ne, on_client, call_tool-Asked,
  mcp_endpoint-Served,
}
use rastir.Remote.RoundTrip.{parse_traceparent-format_traceparent}

abbrev pub header_in : Option Headers → Option String
header_in none = none
header_in (some headers) = Dict.get "traceparent" headers

-- The request is one over HTTP, and brings the header that was sent.
pub record Delivered (sent : Option Headers) (scope : Scope) : Type 0 where
  pub over_http : (str_eq scope.scope_type "http" || str_eq scope.scope_type "websocket") ≡ true
  pub same : Dict.get "traceparent" (dict_of scope.headers []) ≡ header_in sent

-- The span of the caller and that of the server.
pub record Joined (c : Client) (asked : Option Raised × Client × Option Headers) (h : ToolHost)
    (r : Option Raised × ToolHost) : Type 0 where
  pub caller : SpanRecord
  pub asked_sent : asked.1.enqueued ≡ c.enqueued ++ caller ∷ []
  pub asked_status : caller.status ≡ status_of asked.0
  pub caller_restored : asked.1.current_span ≡ c.current_span
  pub inner : List SpanRecord
  pub own : SpanRecord
  pub served_sent : r.1.client.enqueued ≡ h.client.enqueued ++ (inner ++ own ∷ [])
  pub served_status : own.status ≡ status_of r.0
  pub served_restored : r.1.client.current_span ≡ h.client.current_span
  pub incoming_restored : r.1.incoming ≡ h.incoming
  pub same_trace : own.trace_id ≡ caller.trace_id
  pub parent : own.parent_id ≡ some (text_take 16 caller.span_id)
  pub not_caller : text_take 16 caller.span_id ≢ caller.span_id

incoming_context_lem :
    (scope : Scope) (sent : Option Headers) (t s : String)
    → Delivered sent scope
    → header_in sent ≡ some (format_traceparent t s)
    → incoming_context scope ≡ some (record { trace_id = trace_field t; parent_id = span_field s })
unfolding incoming_context
incoming_context_lem scope sent t s delivered header =
    rw (delivered.over_http, delivered.same, header, (parse_traceparent-format_traceparent t s).0)
      refl

-- A tool that is called through the proxy with an HTTP client, and served behind the middleware on
-- a request that brings the header, whatever both sides do and whether they return or raise: each
-- side hands on its own span with the status of its side, and has its active span back, the server
-- also its incoming trace context; the server's span is in the caller's trace. Its parent is the
-- first half of the id of the caller's span, which differs from that id, where ids are 32
-- characters without a dash.
pub mcp_endpoint-call_tool :
    (o served_by : Sources) (name tool_name : String) (headers : Headers)
    (session : Option Headers → Option Raised) (body : Body) (scope : Scope) (c : Client)
    (h : ToolHost)
    → Hex (trace_of c.current_span (o.id c.calls))
    → Hex (o.id (c.calls + 1))
    → Delivered (call_tool o name (some headers) session c).2 scope
    → Joined c
        (call_tool o name (some headers) session c)
        h
        (middleware scope (mcp_endpoint served_by tool_name (on_client (run served_by body))) h)
unfolding middleware
mcp_endpoint-call_tool o served_by name tool_name headers session body scope c h hex_trace hex_span
      delivered =
    let asked = call_tool-Asked o name headers session c in
    let caller = asked.caller in
    let header : header_in (call_tool o name (some headers) session c).2
        ≡ some (format_traceparent caller.trace_id caller.span_id) =
      ap header_in asked.header ∙ get-put "traceparent" "traceparent" _ headers in
    let read = incoming_context_lem scope _ caller.trace_id caller.span_id delivered header in
    let context : TraceContext = record {
      trace_id = trace_field caller.trace_id;
      parent_id = span_field caller.span_id;
    } in
    let served =
      mcp_endpoint-Served served_by tool_name body (record h { incoming = some context }) in
    let hex_trace' : Hex caller.trace_id = rw asked.trace hex_trace in
    let hex_span' : Hex caller.span_id = rw asked.id hex_span in
    rw read (record {
      caller = caller;
      asked_sent = asked.sent;
      asked_status = asked.status;
      caller_restored = asked.restored;
      inner = served.inner;
      own = served.own;
      served_sent = served.sent;
      served_status = served.status;
      served_restored = served.span_restored;
      incoming_restored = refl;
      same_trace = served.trace ∙ trace_field_of_Hex caller.trace_id hex_trace';
      parent = served.parent ∙ ap some (span_field_of_Hex caller.span_id hex_span');
      not_caller = text_take-ne caller.span_id hex_span';
    })
