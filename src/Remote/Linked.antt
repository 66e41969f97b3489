-- ===== src/Remote/Linked.antt =====
-- A tool called in one process and served in another.
use mathlib.Core.List.{append_assoc}
use Prim.Native.String.{◌++◌ as append}
use rastir.Base.{
  ℕ, ◌+◌, String, ◌≡◌, ◌≢◌, refl, ap, ◌∙◌, Option, none, some, List, [], ◌∷◌, ◌++◌, arith, str_eq,
  Bool-cases, inl, inr,
}
use rastir.Dict
use rastir.Text.{text_length, text_take}
use rastir.Text.Parts.{
  Lacks, zero_fill_of_length, text_take_of_length, text_without_of_Lacks, length-text_take,
}
use rastir.Span.{text}
use rastir.SpanRecord
use rastir.SpanRecord.{SpanRecord, Anchors, post_init, set_attribute, reanchor}
use rastir.Tracing.{
  mark_text, Sources, Client, Raised, Body, run, held, new_span, start_span, close,
}
use rastir.Tracing.Nesting.{
  run-Ran, SameIdentity, close_identity, post_init_identity, new_span_lem, status_of, parent_of,
  trace_of,
}
use rastir.Remote.{
  trace_field, span_field, format_traceparent, Headers, with_traceparent, TraceContext, ToolHost,
  mark_call, mark_endpoint, link, leave, call_tool, enter_endpoint, mcp_endpoint,
}

-- `uuid.uuid4().hex`
pub record Hex (s : String) : Type 0 where
  pub length : text_length s ≡ 32
  pub no_dash : Lacks b'-' s

pub trace_field_of_Hex : (t : String) → Hex t → trace_field t ≡ t
unfolding trace_field
trace_field_of_Hex t hex =
    rw
      (
        text_without_of_Lacks b'-' t hex.no_dash,
        zero_fill_of_length 32 t (omega (arith, hex.length)),
      )
      (text_take_of_length 32 t (omega (arith, hex.length)))

pub span_field_of_Hex : (s : String) → Hex s → span_field s ≡ text_take 16 s
unfolding span_field
span_field_of_Hex s hex =
    rw (text_without_of_Lacks b'-' s hex.no_dash)
      (zero_fill_of_length 16 (text_take 16 s) (omega (arith, length-text_take 16 s, hex.length)))

pub text_take-ne : (s : String) → Hex s → text_take 16 s ≢ s
text_take-ne s hex e =
    let same : text_length (text_take 16 s) ≡ text_length s = ap text_length e in
    omega (arith, length-text_take 16 s, hex.length, same)

mark_text_identity :
    (key : String) (o : Option String) (s : SpanRecord) → SameIdentity s (mark_text key o s)
unfolding set_attribute
mark_text_identity key none s = ground arith
mark_text_identity key (some a) s = elim (Bool-cases (str_eq a "")) [
  | inl e ↦ rw e (record { trace = refl; id = refl; parent = refl })
  | inr e ↦ rw e (record { trace = refl; id = refl; parent = refl })
]

mark_call_identity :
    (name : String) (c : Client) (s : SpanRecord) → SameIdentity s (mark_call name c s)
unfolding mark_call set_attribute
mark_call_identity name c s =
    let marked = set_attribute "remote" (text "true") (set_attribute "tool_name" (text name) s) in
    let by_agent = mark_text "agent" c.current_agent marked in
    let by_model = mark_text "model" c.current_model by_agent in
    let agent = mark_text_identity "agent" c.current_agent marked in
    let model = mark_text_identity "model" c.current_model by_agent in
    let provider = mark_text_identity "provider" c.current_provider by_model in
    record {
      trace = provider.trace ∙ model.trace ∙ agent.trace;
      id = provider.id ∙ model.id ∙ agent.id;
      parent = provider.parent ∙ model.parent ∙ agent.parent;
    }

mark_endpoint_identity :
    (name : String) (c : Client) (s : SpanRecord) → SameIdentity s (mark_endpoint name c s)
unfolding mark_endpoint set_attribute
mark_endpoint_identity name c s =
    let agent =
      mark_text_identity "agent" c.current_agent
        (set_attribute "remote" (text "false") (set_attribute "tool_name" (text name) s)) in
    record { trace = agent.trace; id = agent.id; parent = agent.parent }

-- A function that the process runs, which sees the context of the request and leaves it.
abbrev pub on_client : (Client → Option Raised × Client) → ToolHost → Option Raised × ToolHost
on_client f h = let (r, c) = f h.client in (r, record h { client = c })

-- What a call by the proxy leaves: its span, and the header.
pub record Asked (o : Sources) (c : Client) (headers : Headers)
    (result : Option Raised × Client × Option Headers) : Type 0 where
  pub caller : SpanRecord
  pub sent : result.1.enqueued ≡ c.enqueued ++ caller ∷ []
  pub restored : result.1.current_span ≡ c.current_span
  pub trace : caller.trace_id ≡ trace_of c.current_span (o.id c.calls)
  pub id : caller.span_id ≡ o.id (c.calls + 1)
  pub parent : caller.parent_id ≡ parent_of c.current_span
  pub status : caller.status ≡ status_of result.0
  pub header :
      result.2
      ≡ some (Dict.put "traceparent" (format_traceparent caller.trace_id caller.span_id) headers)

new_span_trace :
    (o : Sources) (name : String) (type : SpanRecord.SpanType) (n : ℕ) (outer : Option SpanRecord)
    → ((new_span o name type n outer).trace_id ≡ trace_of outer (o.id n))
      × ((new_span o name type n outer).span_id ≡ o.id (n + 1))
unfolding new_span
new_span_trace o name type n none = (refl, refl)
new_span_trace o name type n (some parent) = (refl, refl)

pub call_tool-Asked :
    (o : Sources) (name : String) (headers : Headers) (session : Option Headers → Option Raised)
    (c : Client)
    → Asked o c headers (call_tool o name (some headers) session c)
unfolding call_tool start_span leave
call_tool-Asked o name headers session c =
    let span = new_span o name SpanRecord.tool c.calls c.current_span in
    let started = (post_init span c.anchors).0 in
    let own = mark_call name c started in
    let r = session (with_traceparent own (some headers)) in
    let (new_trace, new_id) = new_span_trace o name SpanRecord.tool c.calls c.current_span in
    let (new_parent, _) = new_span_lem o name SpanRecord.tool c.calls c.current_span in
    let placed = post_init_identity span c.anchors in
    let marked = mark_call_identity name c started in
    let (closed, status) = close_identity r (o.monotonic (c.calls + 2)) own in
    let caller = close r (o.monotonic (c.calls + 2)) own in
    record {
      caller = caller;
      sent = refl;
      restored = refl;
      trace = closed.trace ∙ marked.trace ∙ placed.trace ∙ new_trace;
      id = closed.id ∙ marked.id ∙ placed.id ∙ new_id;
      parent = closed.parent ∙ marked.parent ∙ placed.parent ∙ new_parent;
      status = status;
      header = rw (closed.trace, closed.id) refl;
    }

abbrev linked_trace : Option TraceContext → String → String
linked_trace none own = own
linked_trace (some context) own = context.trace_id

abbrev linked_parent : Option TraceContext → Option String → Option String
linked_parent none own = own
linked_parent (some context) own = some context.parent_id

-- What a served call leaves.
pub record Served (o : Sources) (h : ToolHost) (r : Option Raised × ToolHost) : Type 0 where
  pub inner : List SpanRecord
  pub own : SpanRecord
  pub sent : r.1.client.enqueued ≡ h.client.enqueued ++ (inner ++ own ∷ [])
  pub span_restored : r.1.client.current_span ≡ h.client.current_span
  pub agent_restored : r.1.client.current_agent ≡ h.client.current_agent
  pub incoming_restored : r.1.incoming ≡ h.incoming
  pub trace :
      own.trace_id ≡ linked_trace h.incoming (trace_of h.client.current_span (o.id h.client.calls))
  pub parent : own.parent_id ≡ linked_parent h.incoming (parent_of h.client.current_span)
  pub status : own.status ≡ status_of r.0

link_lem :
    (context : Option TraceContext) (anchors : Anchors) (s : SpanRecord)
    → ((link context anchors s).trace_id ≡ linked_trace context s.trace_id)
      × ((link context anchors s).parent_id ≡ linked_parent context s.parent_id)
unfolding link reanchor
link_lem none anchors s = (refl, refl)
link_lem (some context) anchors s = (refl, refl)

pub mcp_endpoint-Served :
    (o : Sources) (name : String) (body : Body) (h : ToolHost)
    → Served o h (mcp_endpoint o name (on_client (run o body)) h)
unfolding mcp_endpoint enter_endpoint start_span leave
mcp_endpoint-Served o name body h =
    let c = h.client in
    let full = append "mcpserver:" name in
    let span = new_span o full SpanRecord.tool c.calls c.current_span in
    let (started, anchors) = post_init span c.anchors in
    let placed_under = link h.incoming anchors started in
    let own = mark_endpoint name c placed_under in
    let (new_trace, _) = new_span_trace o full SpanRecord.tool c.calls c.current_span in
    let (new_parent, _) = new_span_lem o full SpanRecord.tool c.calls c.current_span in
    let placed = post_init_identity span c.anchors in
    let (link_trace, link_parent) = link_lem h.incoming anchors started in
    let marked = mark_endpoint_identity name c placed_under in
    let before : Client = record c {
      current_span = some own;
      anchors = anchors;
      calls = c.calls + 2;
    } in
    let ran =
      run-Ran o body before own.trace_id own.span_id own.parent_id
        (record { span = own; is = refl; trace = refl; id = refl; parent = refl }) in
    let (r, c') = run o body before in
    let (closed, status) = close_identity r (o.monotonic c'.calls) ran.active.span in
    let own_is : held own c'.current_span ≡ ran.active.span = ground (arith, ran.active.is) in
    rw own_is (record {
      inner = ran.added;
      own = close r (o.monotonic c'.calls) ran.active.span;
      sent = rw ran.sent (append_assoc c.enqueued ran.added _);
      span_restored = refl;
      agent_restored = ran.agent;
      incoming_restored = refl;
      trace =
          closed.trace
          ∙ ran.active.trace
          ∙ marked.trace
          ∙ link_trace
          ∙ ap (linked_trace h.incoming) (placed.trace ∙ new_trace);
      parent =
          closed.parent
          ∙ ran.active.parent
          ∙ marked.parent
          ∙ link_parent
          ∙ ap (linked_parent h.incoming) (placed.parent ∙ new_parent);
      status = status;
    })
