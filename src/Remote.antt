-- ===== src/Remote.antt =====
-- Trace contexts across processes, src/rastir/remote.py: the `traceparent` header, the proxy that
-- `wrap_mcp` puts around a session, the headers of discovered clients, and on the other side the
-- ASGI middleware and `@mcp_endpoint`. Headers are texts under lower-case names; how a session
-- carries them is outside.
pub mod RoundTrip
pub mod Linked
pub mod Clients
pub mod AcrossProcesses
use Prim.Native.String.{◌++◌ as append}
use rastir.Base.{
  ℕ, ◌+◌, String, Bool, true, false, ◌&&◌, ◌||◌, Option, none, some, List, [], ◌∷◌, ◌++◌, map, ltb,
  ◌==◌, length, str_eq, if◌then◌else◌,
}
use rastir.Dict
use rastir.Dict.{Dict}
use rastir.Text.{
  codes, text_length, text_take, occurs, text_strip, text_split, text_without, zero_fill,
}
use rastir.Span.{Value, text}
use rastir.SpanRecord
use rastir.SpanRecord.{SpanRecord, Anchors, set_attribute, reanchor}
use rastir.Tracing.{mark_text, Sources, Client, Raised, held, close, start_span}

-- the fields of the header
unfoldable pub trace_field : String → String
trace_field trace_id = text_take 32 (zero_fill 32 (text_without b'-' trace_id))

unfoldable pub span_field : String → String
span_field span_id = zero_fill 16 (text_take 16 (text_without b'-' span_id))

-- `_format_traceparent`
unfoldable pub format_traceparent : String → String → String
unfolding trace_field span_field
format_traceparent trace_id span_id =
    append "00-" (append (trace_field trace_id) (append "-" (append (span_field span_id) "-01")))

-- `(trace_id, parent_id)` where the lengths fit
abbrev pub checked_ids : String → String → Option (String × String)
checked_ids trace_id parent_id =
    if text_length trace_id == 32 && text_length parent_id == 16
    then some (trace_id, parent_id)
    else none

-- at least four parts
abbrev pub ids_of : List String → Option (String × String)
ids_of (version ∷ trace_id ∷ parent_id ∷ flags ∷ rest) = checked_ids trace_id parent_id
ids_of parts = none

-- `_parse_traceparent`
unfoldable pub parse_traceparent : String → Option (String × String)
parse_traceparent value =
    if str_eq value "" then none else ids_of (text_split b'-' (text_strip value))

abbrev pub Headers : Type 0
Headers = Dict String

abbrev pub headers_of : Option SpanRecord → Headers
headers_of none = []
headers_of (some span) = ("traceparent", format_traceparent span.trace_id span.span_id) ∷ []

-- `traceparent_headers`
unfoldable pub traceparent_headers : Client → Headers
traceparent_headers c = headers_of c.current_span

-- the attributes of the client span
unfoldable pub mark_call : String → Client → SpanRecord → SpanRecord
mark_call name c span = mark_text "provider" c.current_provider (
    mark_text "model" c.current_model (
      mark_text "agent" c.current_agent
        (set_attribute "remote" (text "true") (set_attribute "tool_name" (text name) span))))

-- the header on the HTTP client, where one was given
abbrev pub with_traceparent : SpanRecord → Option Headers → Option Headers
with_traceparent span none = none
with_traceparent span (some headers) =
    some (Dict.put "traceparent" (format_traceparent span.trace_id span.span_id) headers)

-- `_incoming_trace_context` of the process that serves the tools
pub record TraceContext : Type 0 where
  pub trace_id : String
  pub parent_id : String

pub record ToolHost : Type 0 where
  pub client : Client
  pub incoming : Option TraceContext

pub record Scope : Type 0 where
  pub scope_type : String
  pub headers : List (String × String)

-- `dict(pairs)`
unfoldable pub dict_of : List (String × String) → Headers → Headers
dict_of [] d = d
dict_of ((k, v) ∷ pairs) d = dict_of pairs (Dict.put k v d)

abbrev pub or_empty : Option String → String
or_empty none = ""
or_empty (some s) = s

abbrev pub context_of : Option (String × String) → Option TraceContext
context_of none = none
context_of (some (trace_id, parent_id)) =
    some (record { trace_id = trace_id; parent_id = parent_id })

-- what the middleware reads from a request
unfoldable pub incoming_context : Scope → Option TraceContext
unfolding parse_traceparent dict_of
incoming_context scope =
    if str_eq scope.scope_type "http" || str_eq scope.scope_type "websocket"
    then context_of
        (parse_traceparent (or_empty (Dict.get "traceparent" (dict_of scope.headers []))))
    else none

-- the variable, set around the call or left alone
abbrev pub within :
    Option TraceContext
    → (ToolHost → Option Raised × ToolHost)
    → ToolHost
    → Option Raised × ToolHost
within none app h = app h
within (some context) app h =
    let (r, h') = app (record h { incoming = some context }) in
    (r, record h' { incoming = h.incoming })

-- `RastirMCPMiddleware.__call__`
unfoldable pub middleware :
    Scope → (ToolHost → Option Raised × ToolHost) → ToolHost → Option Raised × ToolHost
unfolding incoming_context
middleware scope app h = within (incoming_context scope) app h

-- the server span, under the span of the caller where there is one
unfoldable pub link : Option TraceContext → Anchors → SpanRecord → SpanRecord
link none anchors span = span
link (some context) anchors span =
    reanchor (record span { trace_id = context.trace_id; parent_id = some context.parent_id })
      anchors

-- the attributes of the server span
unfoldable pub mark_endpoint : String → Client → SpanRecord → SpanRecord
mark_endpoint tool_name c span =
    mark_text "agent" c.current_agent
      (set_attribute "remote" (text "false") (set_attribute "tool_name" (text tool_name) span))

module _ (o : Sources) where
  -- `finish` and the `finally` block of both wrappers, which set no agent
  unfoldable pub leave : Client → SpanRecord → Option Raised → Client → Client
  leave outer span r c = record c {
    current_span = outer.current_span;
    enqueued = c.enqueued ++ close r (o.monotonic c.calls) (held span c.current_span) ∷ [];
    calls = c.calls + 1;
  }

  -- `call_tool` of `_TracedMCPSession`. The wrapped session answers to the headers it sends; the
  -- HTTP client keeps its headers.
  unfoldable pub call_tool :
      String
      → Option Headers
      → (Option Headers → Option Raised)
      → Client
      → Option Raised × Client × Option Headers
  unfolding start_span mark_call leave
  call_tool name http session c =
      let (span, c') = start_span o name SpanRecord.tool c in
      let own = mark_call name c span in
      let sent = with_traceparent own http in
      let r = session sent in (r, leave c own r (record c' { current_span = some own }), sent)

  -- the context of the tool function: the server span is active.
  unfoldable pub enter_endpoint : String → ToolHost → SpanRecord × ToolHost
  unfolding start_span link mark_endpoint
  enter_endpoint tool_name h =
      let (span, c) = start_span o (append "mcpserver:" tool_name) SpanRecord.tool h.client in
      let own = mark_endpoint tool_name h.client (link h.incoming c.anchors span) in
      (own, record h { client = record c { current_span = some own } })

  -- the wrapper of `@mcp_endpoint`
  unfoldable pub mcp_endpoint :
      String → (ToolHost → Option Raised × ToolHost) → ToolHost → Option Raised × ToolHost
  unfolding enter_endpoint leave
  mcp_endpoint tool_name func h =
      let (own, within) = enter_endpoint tool_name h in
      let (r, h') = func within in (r, record h' { client = leave h.client own r h'.client })

-- The MCP clients of the frameworks: the class with its module, and the attributes that are read.
-- A connection is `none` if it is no dictionary, and holds `none` if it has no headers.
pub record McpClient : Type 0 where
  pub class_name : String
  pub module_name : String
  pub connections : Option (List (String × Option (Option Headers)))
  pub headers : Option Headers
  pub http_client : Option Headers

abbrev pub module_has : String → McpClient → Bool
module_has part c = occurs (codes part) (codes c.module_name)

unfoldable pub is_mcp_multi_client : McpClient → Bool
is_mcp_multi_client c = str_eq c.class_name "MultiServerMCPClient" && module_has "mcp" c

unfoldable pub is_crewai_mcp_server : McpClient → Bool
is_crewai_mcp_server c =
    (str_eq c.class_name "MCPServerHTTP" || str_eq c.class_name "MCPServerSSE")
    && module_has "crewai" c

unfoldable pub is_llamaindex_mcp_client : McpClient → Bool
is_llamaindex_mcp_client c = str_eq c.class_name "BasicMCPClient" && module_has "llama_index" c

abbrev pub headers_with : String → Option Headers → Headers
headers_with tp none = ("traceparent", tp) ∷ []
headers_with tp (some headers) = Dict.put "traceparent" tp headers

abbrev pub inject_connection :
    String → String × Option (Option Headers) → String × Option (Option Headers)
inject_connection tp (name, none) = (name, none)
inject_connection tp (name, some headers) = (name, some (some (headers_with tp headers)))

abbrev pub inject_connections :
    String
    → Option (List (String × Option (Option Headers)))
    → Option (List (String × Option (Option Headers)))
inject_connections tp none = none
inject_connections tp (some connections) = some (map (inject_connection tp) connections)

abbrev pub inject_http : String → Option Headers → Option Headers
inject_http tp none = none
inject_http tp (some headers) = some (Dict.put "traceparent" tp headers)

-- one client of the loop
unfoldable pub inject_client : String → McpClient → McpClient
unfolding is_mcp_multi_client is_crewai_mcp_server is_llamaindex_mcp_client
inject_client tp c =
    if is_mcp_multi_client c
    then record c { connections = inject_connections tp c.connections }
    else (if is_crewai_mcp_server c
        then record c { headers = some (headers_with tp c.headers) }
        else (if is_llamaindex_mcp_client c
            then record c {
              headers = some (headers_with tp c.headers);
              http_client = inject_http tp c.http_client;
            }
            else c))

abbrev pub inject_for : Option SpanRecord → List McpClient → List McpClient
inject_for none clients = clients
inject_for (some span) clients =
    map (inject_client (format_traceparent span.trace_id span.span_id)) clients

-- `inject_traceparent_into_mcp_clients`
unfoldable pub inject_traceparent : Client → List McpClient → List McpClient
unfolding inject_client
inject_traceparent c clients = inject_for c.current_span clients

-- `discover_mcp_client`
unfoldable pub discover_mcp_client : McpClient → Option McpClient
discover_mcp_client c =
    if is_mcp_multi_client c || is_crewai_mcp_server c || is_llamaindex_mcp_client c
    then some c
    else none
