-- ===== src/TraceStore.antt =====
-- `TraceStore` of src/rastir/server/trace_store.py. Each method body runs under the lock, so it is
-- one step. The monotonic clock is read by the caller: a whole number of ticks, in which the ttl
-- is counted too.
pub mod Invariant
pub mod Writes
pub mod Expiry
pub mod Insert
pub mod Queries
use rastir.Base.{
  ℕ, ◌+◌, ◌-◌, String, Bool, true, false, ◌||◌, Option, none, some, List, [], ◌∷◌, ◌++◌, reverse,
  length, take, ltb, leb, str_eq, if◌then◌else◌,
}
use rastir.Dict
use rastir.Dict.{Dict}
use rastir.Span.{Span, is_text}

pub record TraceStore : Type 0 where
  pub max_traces : ℕ
  pub max_spans_per_trace : ℕ
  pub ttl : ℕ
  pub traces : Dict (List Span)
  pub timestamps : Dict ℕ
  pub total_spans : ℕ
  pub evicted_traces : ℕ
  pub spans_truncated : ℕ

unfoldable pub init : ℕ → ℕ → ℕ → TraceStore
init max_traces max_spans_per_trace ttl = record {
  max_traces = max_traces;
  max_spans_per_trace = max_spans_per_trace;
  ttl = ttl;
  traces = [];
  timestamps = [];
  total_spans = 0;
  evicted_traces = 0;
  spans_truncated = 0;
}

-- `insert` returns, or `popitem` raises on an empty table.
pub data Outcome : Type 0 where
  done key_error : Outcome

-- `[tid for tid, ts in timestamps.items() if ts < now - ttl]`
unfoldable pub expired_ids : ℕ → ℕ → Dict ℕ → List String
expired_ids ttl now [] = []
expired_ids ttl now ((tid, ts) ∷ stamps) =
    let rest = expired_ids ttl now stamps in if ltb (ts + ttl) now then tid ∷ rest else rest

-- `traces.pop(tid, None)` and the counters that go with it
unfoldable pub drop_trace : String → Option (List Span) → TraceStore → TraceStore
drop_trace tid none s = s
drop_trace tid (some spans) s = record s {
  traces = Dict.remove tid s.traces;
  total_spans = s.total_spans - length spans;
  evicted_traces = s.evicted_traces + 1;
}

unfoldable pub expire_one : String → TraceStore → TraceStore
unfolding drop_trace
expire_one tid s =
    let s' = drop_trace tid (Dict.get tid s.traces) s in
    record s' { timestamps = Dict.remove tid s'.timestamps }

unfoldable pub expire_each : List String → TraceStore → TraceStore
expire_each [] s = s
expire_each (tid ∷ tids) s = expire_each tids (expire_one tid s)

unfoldable pub expire_stale : ℕ → TraceStore → TraceStore
expire_stale now s = if leb s.ttl 0 then s else expire_each (expired_ids s.ttl now s.timestamps) s

-- `traces.popitem(last=False)` and what the loop body does with the entry
unfoldable pub evict_first : String → List Span → Dict (List Span) → TraceStore → TraceStore
evict_first tid spans rest s = record s {
  traces = rest;
  total_spans = s.total_spans - length spans;
  timestamps = Dict.remove tid s.timestamps;
  evicted_traces = s.evicted_traces + 1;
}

-- `while len(traces) >= max_traces`, over the traces that are left
unfoldable pub evict_while : Dict (List Span) → TraceStore → Outcome × TraceStore
evict_while [] s = if leb s.max_traces 0 then (key_error, s) else (done, s)
evict_while ((tid, spans) ∷ rest) s =
    let more = evict_while rest (evict_first tid spans rest s) in
    if leb s.max_traces (length ((tid, spans) ∷ rest)) then more else (done, s)

-- what `spans[:room]` leaves out, as it is counted
abbrev pub overflow : ℕ → List Span → ℕ
overflow room spans = if ltb room (length spans) then length spans - room else 0

-- the branch for a known trace
unfoldable pub extend_trace : String → List Span → ℕ → List Span → TraceStore → TraceStore
extend_trace tid spans now existing s =
    let room = s.max_spans_per_trace - length existing in
    if leb s.max_spans_per_trace (length existing)
    then record s {
      spans_truncated = s.spans_truncated + length spans;
      traces = Dict.move_to_end tid s.traces;
      timestamps = Dict.put tid now s.timestamps;
    }
    else record s {
      spans_truncated = s.spans_truncated + overflow room spans;
      traces = Dict.move_to_end tid (Dict.put tid (existing ++ take room spans) s.traces);
      total_spans = s.total_spans + length (take room spans);
      timestamps = Dict.put tid now s.timestamps;
    }

-- the rest of the branch for a new trace, once there is room
unfoldable pub add_trace : String → List Span → ℕ → TraceStore → TraceStore
add_trace tid spans now s =
    let accepted = take s.max_spans_per_trace spans in
    record s {
      spans_truncated = s.spans_truncated + overflow s.max_spans_per_trace spans;
      traces = Dict.put tid accepted s.traces;
      total_spans = s.total_spans + length accepted;
      timestamps = Dict.put tid now s.timestamps;
    }

unfoldable pub after_evict : String → List Span → ℕ → Outcome × TraceStore → Outcome × TraceStore
unfolding add_trace
after_evict tid spans now (key_error, s) = (key_error, s)
after_evict tid spans now (done, s) = (done, add_trace tid spans now s)

unfoldable pub insert_into :
    String → List Span → ℕ → Option (List Span) → TraceStore → Outcome × TraceStore
insert_into tid spans now (some existing) s = (done, extend_trace tid spans now existing s)
insert_into tid spans now none s = after_evict tid spans now (evict_while s.traces s)

-- `insert`; the clock is read once for the expiry and once more for the stamp.
unfoldable pub insert : String → List Span → ℕ → ℕ → TraceStore → Outcome × TraceStore
insert tid spans checked now s =
    let s' = if ltb 0 s.ttl then expire_stale checked s else s in
    insert_into tid spans now (Dict.get tid s'.traces) s'

unfoldable pub get : String → TraceStore → Option (List Span)
get tid s = Dict.get tid s.traces

pub record Summary : Type 0 where
  pub trace_id : String
  pub span_count : ℕ

abbrev pub summary : String × List Span → Summary
summary (tid, spans) = record { trace_id = tid; span_count = length spans }

-- the loop of `recent`
unfoldable pub recent_loop : ℕ → List Summary → Dict (List Span) → List Summary
recent_loop limit result [] = result
recent_loop limit result (e ∷ rest) =
    let result' = result ++ summary e ∷ [] in
    let more = recent_loop limit result' rest in
    if leb limit (length result') then result' else more

unfoldable pub recent : ℕ → ℕ → TraceStore → List Summary × TraceStore
unfolding recent_loop
recent limit now s =
    let s' = if ltb 0 s.ttl then expire_stale now s else s in
    (recent_loop limit [] (reverse s'.traces), s')

-- `any(...)` over the spans of a trace
unfoldable pub serves : String → List Span → Bool
serves service [] = false
serves service (sp ∷ spans) =
    is_text service (Dict.get "service" sp.attributes) || own sp.service || serves service spans
  where
    own : Option String → Bool
    own none = false
    own (some t) = str_eq t service

-- `service is None or match`
abbrev pub wanted : Option String → List Span → Bool
wanted none spans = true
wanted (some service) spans = serves service spans

-- the loop of `search`
unfoldable pub search_loop : ℕ → Option String → List Summary → Dict (List Span) → List Summary
search_loop limit service result [] = result
search_loop limit service result ((tid, spans) ∷ rest) =
    let result' = result ++ summary (tid, spans) ∷ [] in
    let skip = search_loop limit service result rest in
    let more = search_loop limit service result' rest in
    if wanted service spans then (if leb limit (length result') then result' else more) else skip

unfoldable pub search : Option String → ℕ → ℕ → TraceStore → List Summary × TraceStore
unfolding search_loop serves
search service limit now s =
    let s' = if ltb 0 s.ttl then expire_stale now s else s in
    (search_loop limit service [] (reverse s'.traces), s')

unfoldable pub clear : TraceStore → TraceStore
clear s = record s { traces = []; timestamps = []; total_spans = 0 }
