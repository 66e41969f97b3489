-- ===== src/Tracing/Nesting.antt =====
-- Spans nest as the calls do, whatever raises.
use mathlib.Core.List.{append_assoc, append-nil}
use rastir.Base.{
  ℕ, String, ◌≡◌, refl, sym, ap, ◌∙◌, true, false, Option, none, some, List, [], ◌∷◌, ◌++◌, arith,
  eq_iff, Bool-cases, inl, inr,
}
use rastir.Span.{Value}
use rastir.SpanRecord
use rastir.SpanRecord.{
  SpanRecord, SpanStatus, SpanType, ok, error, post_init, finish, set_attribute,
}
use rastir.Tracing.Forest.{linked, in_trace, linked-append, in_trace-append, linked-last}
use rastir.Tracing.{
  Sources, Client, Raised, Decorator, at_trace, at_agent, at_metric, span_name, span_type, Body,
  returns, raises, setting, calling, mark, set_current, held, close, goes_on, new_span, start_span,
  end_call, enter, wrapper, run,
}

-- The active span has the given identity.
pub record Active (trace_id span_id : String) (parent_id : Option String) (o : Option SpanRecord)
    : Type 0 where
  pub span : SpanRecord
  pub is : o ≡ some span
  pub trace : span.trace_id ≡ trace_id
  pub id : span.span_id ≡ span_id
  pub parent : span.parent_id ≡ parent_id

-- A body has run below the span with the identity.
pub record Ran (trace_id span_id : String) (parent_id : Option String) (c : Client)
    (r : Option Raised × Client) : Type 0 where
  pub active : Active trace_id span_id parent_id r.1.current_span
  pub agent : r.1.current_agent ≡ c.current_agent
  pub added : List SpanRecord
  pub sent : r.1.enqueued ≡ c.enqueued ++ added
  pub same_trace : in_trace trace_id added ≡ true
  pub nested : linked span_id added ≡ true

abbrev pub status_of : Option Raised → SpanStatus
status_of none = ok
status_of (some e) = error

abbrev pub parent_of : Option SpanRecord → Option String
parent_of none = none
parent_of (some span) = some span.span_id

-- The trace of the caller, if there is one.
abbrev pub trace_of : Option SpanRecord → String → String
trace_of none own = own
trace_of (some span) own = span.trace_id

-- A decorated function has been called.
pub record Called (o : Sources) (c : Client) (r : Option Raised × Client) : Type 0 where
  pub span_restored : r.1.current_span ≡ c.current_span
  pub agent_restored : r.1.current_agent ≡ c.current_agent
  pub inner : List SpanRecord
  pub own : SpanRecord
  pub sent : r.1.enqueued ≡ c.enqueued ++ (inner ++ own ∷ [])
  pub parent : own.parent_id ≡ parent_of c.current_span
  pub trace : own.trace_id ≡ trace_of c.current_span (o.id c.calls)
  pub status : own.status ≡ status_of r.0
  pub same_trace : in_trace own.trace_id inner ≡ true
  pub nested : linked own.span_id inner ≡ true

pub record SameIdentity (a b : SpanRecord) : Type 0 where
  pub trace : b.trace_id ≡ a.trace_id
  pub id : b.span_id ≡ a.span_id
  pub parent : b.parent_id ≡ a.parent_id

pub close_identity :
    (r : Option Raised) (mono : ℕ) (s : SpanRecord)
    → SameIdentity s (close r mono s) × ((close r mono s).status ≡ status_of r)
unfolding close finish SpanRecord.record_error
close_identity none mono s = ground arith
close_identity (some e) mono s = ground arith

mark_identity : (d : Decorator) (s : SpanRecord) → SameIdentity s (mark d s)
unfolding mark set_attribute
mark_identity (at_trace name true) s = ground arith
mark_identity (at_trace name false) s = ground arith
mark_identity (at_agent name) s = ground arith
mark_identity (at_metric name) s = ground arith

pub post_init_identity :
    (s : SpanRecord) (anchors : SpanRecord.Anchors) → SameIdentity s (post_init s anchors).0
unfolding post_init
post_init_identity s anchors = ground arith

module _ (o : Sources) where
  pub new_span_lem :
      (name : String) (type : SpanType) (n : ℕ) (outer : Option SpanRecord)
      → ((new_span o name type n outer).parent_id ≡ parent_of outer)
        × ((new_span o name type n outer).trace_id ≡ trace_of outer (o.id n))
  unfolding new_span
  new_span_lem name type n none = (refl, refl)
  new_span_lem name type n (some parent) = (refl, refl)

  record Entered (c : Client) (r : SpanRecord × Client) : Type 0 where
    active : r.1.current_span ≡ some r.0
    sent : r.1.enqueued ≡ c.enqueued
    parent : r.0.parent_id ≡ parent_of c.current_span
    trace : r.0.trace_id ≡ trace_of c.current_span (o.id c.calls)

  enter-Entered : (d : Decorator) (c : Client) → Entered c (enter o d c)
  unfolding enter start_span
  enter-Entered d c =
      let span = new_span o (span_name d) (span_type d) c.calls c.current_span in
      let (parent, trace) = new_span_lem (span_name d) (span_type d) c.calls c.current_span in
      let placed = post_init_identity span c.anchors in
      let marked = mark_identity d (post_init span c.anchors).0 in
      record {
        active = refl;
        sent = refl;
        parent = marked.parent ∙ placed.parent ∙ parent;
        trace = marked.trace ∙ placed.trace ∙ trace;
      }

  call-Called :
      (d : Decorator) (c : Client) (r : Option Raised × Client)
      → Ran
          (enter o d c).0.trace_id
          (enter o d c).0.span_id
          (enter o d c).0.parent_id
          (enter o d c).1
          r
      → Called o c (end_call o c (enter o d c).0 r)
  unfolding end_call
  call-Called d c (r, c') ran =
      let entered = enter-Entered d c in
      let object = ran.active.span in
      let (same, status) = close_identity r (o.monotonic c'.calls) object in
      let own_is : held (enter o d c).0 c'.current_span ≡ object = ground (arith, ran.active.is) in
      rw own_is (record {
        span_restored = refl;
        agent_restored = refl;
        inner = ran.added;
        own = close r (o.monotonic c'.calls) object;
        sent = rw (ran.sent, entered.sent) (append_assoc c.enqueued ran.added _);
        parent = same.parent ∙ ran.active.parent ∙ entered.parent;
        trace = same.trace ∙ ran.active.trace ∙ entered.trace;
        status = status;
        same_trace = rw (same.trace, ran.active.trace) ran.same_trace;
        nested = rw (same.id, ran.active.id) ran.nested;
      })

  call-Ran :
      (trace_id span_id : String) (parent_id : Option String) (c : Client)
      (r : Option Raised × Client)
      → Active trace_id span_id parent_id c.current_span
      → Called o c r
      → Ran trace_id span_id parent_id c r
  call-Ran trace_id span_id parent_id c r active called =
      let own_trace : called.own.trace_id ≡ trace_id =
        called.trace ∙ ap (λ s. trace_of s (o.id c.calls)) active.is ∙ active.trace in
      let own_parent : called.own.parent_id ≡ some span_id =
        called.parent ∙ ap parent_of active.is ∙ ap some active.id in
      record {
        active = rw called.span_restored active;
        agent = called.agent_restored;
        added = called.inner ++ called.own ∷ [];
        sent = called.sent;
        same_trace =
            in_trace-append trace_id called.inner (called.own ∷ [])
              (rw (← own_trace) called.same_trace)
              (unfold in_trace in ground (arith, own_trace, eq_iff called.own.trace_id trace_id));
        nested = linked-last span_id called.inner called.own called.nested own_parent;
      }

  then-Ran :
      (trace_id span_id : String) (parent_id : Option String) (c : Client)
      (r r' : Option Raised × Client)
      → Ran trace_id span_id parent_id c r
      → Ran trace_id span_id parent_id r.1 r'
      → Ran trace_id span_id parent_id c r'
  then-Ran trace_id span_id parent_id c r r' first second = record {
    active = second.active;
    agent = second.agent ∙ first.agent;
    added = first.added ++ second.added;
    sent = second.sent ∙ rw first.sent (append_assoc c.enqueued first.added second.added);
    same_trace =
        in_trace-append trace_id first.added second.added first.same_trace second.same_trace;
    nested = linked-append span_id first.added second.added first.nested second.nested;
  }

  nothing-Ran :
      (trace_id span_id : String) (parent_id : Option String) (c : Client) (r : Option Raised)
      → Active trace_id span_id parent_id c.current_span
      → Ran trace_id span_id parent_id c (r, c)
  unfolding in_trace linked
  nothing-Ran trace_id span_id parent_id c r active = record {
    active = active;
    agent = refl;
    added = [];
    sent = sym (append-nil c.enqueued);
    same_trace = refl;
    nested = refl;
  }

  set-Active :
      (trace_id span_id : String) (parent_id : Option String) (key : String) (value : Value)
      (outer : Option SpanRecord)
      → Active trace_id span_id parent_id outer
      → Active trace_id span_id parent_id (set_current key value outer)
  unfolding set_attribute
  set-Active trace_id span_id parent_id key value outer active = record {
    span = set_attribute key value active.span;
    is = rw active.is refl;
    trace = active.trace;
    id = active.id;
    parent = active.parent;
  }

  pub run-Ran :
      (body : Body) (c : Client) (trace_id span_id : String) (parent_id : Option String)
      → Active trace_id span_id parent_id c.current_span
      → Ran trace_id span_id parent_id c (run o body c)
  unfolding run wrapper
  run-Ran returns c trace_id span_id parent_id active =
      nothing-Ran trace_id span_id parent_id c none active
  run-Ran (raises e) c trace_id span_id parent_id active =
      nothing-Ran trace_id span_id parent_id c (some e) active
  run-Ran (setting key value rest) c trace_id span_id parent_id active =
      let c' : Client = record c { current_span = set_current key value c.current_span } in
      let ran =
        run-Ran rest c' trace_id span_id parent_id
          (set-Active trace_id span_id parent_id key value c.current_span active) in
      record {
        active = ran.active;
        agent = ran.agent;
        added = ran.added;
        sent = ran.sent;
        same_trace = ran.same_trace;
        nested = ran.nested;
      }
  run-Ran (calling caught d inner rest) c trace_id span_id parent_id active =
      let own = (enter o d c).0 in
      let within : Active own.trace_id own.span_id own.parent_id (enter o d c).1.current_span =
        record {
          span = own;
          is = (enter-Entered d c).active;
          trace = refl;
          id = refl;
          parent = refl;
        } in
      let called =
        call-Called d c (run o inner (enter o d c).1)
          (run-Ran inner (enter o d c).1 own.trace_id own.span_id own.parent_id within) in
      let ran = call-Ran trace_id span_id parent_id c _ active called in
      elim (Bool-cases (goes_on caught (wrapper o d (run o inner) c).0)) [
        | inl on ↦ rw on (
            then-Ran trace_id span_id parent_id c _ _ ran
              (run-Ran rest (wrapper o d (run o inner) c).1 trace_id span_id parent_id ran.active))
        | inr off ↦ rw off ran
      ]

  -- Whatever a decorated function does, and whether it returns or raises, the call ends with the
  -- caller's span and agent active again, and hands on its own span after those of all calls made
  -- within: the own span has the caller's span as parent, the caller's trace (without a
  -- caller, the id that is drawn for it) and the status ERROR exactly if the function raised; the spans from within are all in
  -- that trace, and each has as parent the own span or one that ends later.
  pub wrapper-Called :
      (d : Decorator) (body : Body) (c : Client) → Called o c (wrapper o d (run o body) c)
  unfolding wrapper
  wrapper-Called d body c =
      let own = (enter o d c).0 in
      call-Called d c (run o body (enter o d c).1) (
        run-Ran body (enter o d c).1 own.trace_id own.span_id own.parent_id (record {
          span = own;
          is = (enter-Entered d c).active;
          trace = refl;
          id = refl;
          parent = refl;
        }))
