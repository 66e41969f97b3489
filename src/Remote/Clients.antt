-- ===== src/Remote/Clients.antt =====
-- The headers of the clients that the frameworks hold.
use rastir.Base.{
  String, ◌≡◌, refl, ◌⊎◌, inl, inr, Bool, true, false, Option, none, some, List, [], ◌∷◌, map, All,
  Bool-cases,
}
use rastir.Dict
use rastir.Dict.Laws.{get-put}
use rastir.Tracing.{Client}
use rastir.SpanRecord.{SpanRecord}
use rastir.Remote.{
  format_traceparent, Headers, McpClient, is_mcp_multi_client, is_crewai_mcp_server,
  is_llamaindex_mcp_client, headers_with, inject_connection, inject_connections, inject_http,
  inject_client, inject_traceparent, discover_mcp_client,
}

-- The header is there, in headers that there are.
abbrev pub Carry : String → Option Headers → Type 0
Carry tp none = Unit
Carry tp (some headers) = Dict.get "traceparent" headers ≡ some tp

-- The same of a connection that is a dictionary: it has headers.
abbrev pub ConnectionCarries : String → String × Option (Option Headers) → Type 0
ConnectionCarries tp (name, none) = Unit
ConnectionCarries tp (name, some none) = false ≡ true
ConnectionCarries tp (name, some (some headers)) = Dict.get "traceparent" headers ≡ some tp

abbrev pub ConnectionsCarry : String → Option (List (String × Option (Option Headers))) → Type 0
ConnectionsCarry tp none = Unit
ConnectionsCarry tp (some connections) = All (ConnectionCarries tp) connections

abbrev pub HeadersCarry : String → Option Headers → Type 0
HeadersCarry tp none = false ≡ true
HeadersCarry tp (some headers) = Dict.get "traceparent" headers ≡ some tp

-- The headers that the client of each kind sends carry the header.
abbrev pub Carries : String → Bool → Bool → McpClient → Type 0
Carries tp true is_crewai c = ConnectionsCarry tp c.connections
Carries tp false true c = HeadersCarry tp c.headers
Carries tp false false c = HeadersCarry tp c.headers × Carry tp c.http_client

-- What becomes of a client: it is discovered and carries the header, or it is left alone.
pub record Injected (tp : String) (c c' : McpClient) : Type 0 where
  pub either :
      ((discover_mcp_client c ≡ some c)
        × Carries tp (is_mcp_multi_client c) (is_crewai_mcp_server c) c')
      ⊎ ((discover_mcp_client c ≡ none) × (c' ≡ c))

abbrev pub EachInjected : String → List McpClient → List McpClient → Type 0
EachInjected tp [] [] = Unit
EachInjected tp (c ∷ before) (c' ∷ after) = Injected tp c c' × EachInjected tp before after
EachInjected tp [] (c ∷ after) = false ≡ true
EachInjected tp (c ∷ before) [] = false ≡ true

get-headers_with :
    (tp : String) (o : Option Headers) → Dict.get "traceparent" (headers_with tp o) ≡ some tp
unfolding Dict.get
get-headers_with tp none = refl
get-headers_with tp (some h) = get-put "traceparent" "traceparent" tp h

connections-carry :
    (tp : String) (l : List (String × Option (Option Headers)))
    → All (ConnectionCarries tp) (map (inject_connection tp) l)
connections-carry tp [] = tt
connections-carry tp ((name, none) ∷ l) = (tt, connections-carry tp l)
connections-carry tp ((name, some h) ∷ l) = (get-headers_with tp h, connections-carry tp l)

inject_connections-carry :
    (tp : String) (o : Option (List (String × Option (Option Headers))))
    → ConnectionsCarry tp (inject_connections tp o)
inject_connections-carry tp none = tt
inject_connections-carry tp (some l) = connections-carry tp l

inject_http-Carry : (tp : String) (o : Option Headers) → Carry tp (inject_http tp o)
inject_http-Carry tp none = tt
inject_http-Carry tp (some h) = get-put "traceparent" "traceparent" tp h

inject_client-Injected : (tp : String) (c : McpClient) → Injected tp c (inject_client tp c)
unfolding inject_client discover_mcp_client
inject_client-Injected tp c = elim (Bool-cases (is_mcp_multi_client c)) [
  | inl m ↦ record { either = rw m (inl (refl, inject_connections-carry tp c.connections)) }
  | inr m ↦ elim (Bool-cases (is_crewai_mcp_server c)) [
    | inl k ↦ record { either = rw (m, k) (inl (refl, get-headers_with tp c.headers)) }
    | inr k ↦ elim (Bool-cases (is_llamaindex_mcp_client c)) [
      | inl l ↦ record {
        either =
            rw (m, k, l)
              (inl (refl, (get-headers_with tp c.headers, inject_http-Carry tp c.http_client)));
      }
      | inr l ↦ record { either = rw (m, k, l) (inr (refl, refl)) }
    ]
  ]
]

each-Injected : (tp : String) (l : List McpClient) → EachInjected tp l (map (inject_client tp) l)
each-Injected tp [] = tt
each-Injected tp (c ∷ l) = (inject_client-Injected tp c, each-Injected tp l)

-- With an active span, every client in the list that discovery knows carries the span's header
-- afterwards: on all its connections, or in its own headers and those of its HTTP client. Every
-- other client is left as it was.
pub inject_traceparent-Injected :
    (c : Client) (span : SpanRecord) (clients : List McpClient)
    → c.current_span ≡ some span
    → EachInjected
        (format_traceparent span.trace_id span.span_id)
        clients
        (inject_traceparent c clients)
unfolding inject_traceparent
inject_traceparent-Injected c span clients active =
    rw active (each-Injected (format_traceparent span.trace_id span.span_id) clients)
