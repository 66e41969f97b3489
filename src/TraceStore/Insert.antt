-- ===== src/TraceStore/Insert.antt =====
-- `insert`, all branches: what the table holds afterwards, that the store stays well formed, and
-- where every span that was offered has gone.
use mathlib.Core.List.{append-nil}
use rastir.Base.{
  ℕ, suc, ◌+◌, ◌-◌, ◌≤◌, ◌<◌, String, ◌≡◌, refl, ◌∙◌, ap, false, Option, none, some, List, [], ◌∷◌,
  ◌++◌, arith, min, length, take, drop, take-append, ltb, leb, leb→le, eq_iff, inl, inr,
  if◌then◌else◌, Bool-cases,
}
use rastir.Dict
use rastir.Dict.{Dict, Distinct}
use rastir.Dict.Laws.{
  absent_of_get, move_to_end-put, move_to_end_of_get, put_of_absent, get_of_absent, get-remove,
  get-append,
}
use rastir.Span.{Span}
use rastir.TraceStore.{
  TraceStore, Outcome, done, key_error, expire_stale, evict_while, extend_trace, after_evict,
  insert_into, insert, get,
}
use rastir.TraceStore.Invariant.{IsValid, expire_stale-IsValid}
use rastir.TraceStore.Writes.{
  evict_while-IsValid, evict_while_frame, traces-evict_while, has-drop_absent, extend_trace-IsValid,
  add_trace-IsValid,
}
use rastir.TraceStore.Expiry.{frame-expire_stale, live, get-expire_stale}

-- The spans of a trace, none where it is unknown.
abbrev pub known : Option (List Span) → List Span
known none = []
known (some spans) = spans

-- The other traces after a write: a known trace gives up its place, a new one pushes the oldest out.
abbrev pub others : String → TraceStore → Option (List Span) → Dict (List Span)
others tid s none = drop (suc (length s.traces) - s.max_traces) s.traces
others tid s (some spans) = Dict.remove tid s.traces

-- The specification of a write: the trace stands last, with as many spans as the cap lets in.
abbrev pub written : String → List Span → Option (List Span) → TraceStore → Dict (List Span)
written tid spans o s = others tid s o ++ (tid, take s.max_spans_per_trace (known o ++ spans)) ∷ []

-- A write of `spans` to a trace that held `o` has come to the result `r`.
record Inserted (tid : String) (spans : List Span) (o : Option (List Span)) (s : TraceStore)
    (r : Outcome × TraceStore) : Type 0 where
  pub returns : r.0 ≡ done
  pub valid : IsValid r.1
  pub table : r.1.traces ≡ written tid spans o s
  pub limit : r.1.max_traces ≡ s.max_traces
  pub cap : r.1.max_spans_per_trace ≡ s.max_spans_per_trace
  pub accounted :
      r.1.spans_truncated + min s.max_spans_per_trace (length (known o) + length spans)
      ≡ s.spans_truncated + length (known o) + length spans

extend_table :
    (tid : String) (spans : List Span) (now : ℕ) (existing : List Span) (s : TraceStore)
    → Dict.get tid s.traces ≡ some existing
    → length existing ≤ s.max_spans_per_trace
    → (extend_trace tid spans now existing s).traces
      ≡ Dict.remove tid s.traces ++ (tid, take s.max_spans_per_trace (existing ++ spans)) ∷ []
unfolding extend_trace
extend_table tid spans now existing s h fits =
    rw (take-append s.max_spans_per_trace existing spans fits)
      (elim (Bool-cases (leb s.max_spans_per_trace (length existing))) [
        | inl full ↦
            let z : s.max_spans_per_trace - length existing ≡ 0 = omega (arith, leb→le _ _ full) in
            rw (full, z, append-nil) (move_to_end_of_get tid existing s.traces h)
        | inr room ↦ rw room (move_to_end-put tid _ s.traces)
      ])

extend_accounted :
    (tid : String) (spans : List Span) (now : ℕ) (existing : List Span) (s : TraceStore)
    → length existing ≤ s.max_spans_per_trace
    → (extend_trace tid spans now existing s).spans_truncated
        + min s.max_spans_per_trace (length existing + length spans)
      ≡ s.spans_truncated + length existing + length spans
unfolding extend_trace
extend_accounted tid spans now existing s fits = ground arith

insert_old :
    (tid : String) (spans : List Span) (now : ℕ) (existing : List Span) (s : TraceStore)
    → Dict.get tid s.traces ≡ some existing
    → IsValid s
    → Inserted tid spans (some existing) s (insert_into tid spans now (some existing) s)
unfolding insert_into
insert_old tid spans now existing s h v =
    let fits = v.capped tid existing h in
    record {
      returns = refl;
      valid = extend_trace-IsValid tid spans now existing s h v;
      table = extend_table tid spans now existing s h fits;
      limit = unfold extend_trace in ground arith;
      cap = unfold extend_trace in ground arith;
      accounted = extend_accounted tid spans now existing s fits;
    }

insert_new :
    (tid : String) (spans : List Span) (now : ℕ) (s : TraceStore)
    → Dict.get tid s.traces ≡ none
    → 0 < s.max_traces
    → IsValid s
    → Inserted tid spans none s (insert_into tid spans now none s)
unfolding insert_into after_evict
insert_new tid spans now s h m v =
    let (ok, valid, room) = evict_while-IsValid s.traces s refl m v in
    let (lim, same_cap, cut) = evict_while_frame s.traces s in
    let gone = traces-evict_while s.traces s refl m in
    added (evict_while s.traces s) ok valid room lim same_cap cut gone
  where
    added :
        (r : Outcome × TraceStore)
        → r.0 ≡ done
        → IsValid r.1
        → length r.1.traces < r.1.max_traces
        → r.1.max_traces ≡ s.max_traces
        → r.1.max_spans_per_trace ≡ s.max_spans_per_trace
        → r.1.spans_truncated ≡ s.spans_truncated
        → r.1.traces ≡ drop (suc (length s.traces) - s.max_traces) s.traces
        → Inserted tid spans none s (after_evict tid spans now r)
    added (key_error, t) ok valid room lim same_cap cut gone = cc
    added (done, t) ok valid room lim same_cap cut gone =
        let absent : Dict.has tid t.traces ≡ false =
          rw gone (has-drop_absent tid _ s.traces (absent_of_get tid s.traces h)) in
        record {
          returns = refl;
          valid = add_trace-IsValid tid spans now t absent room valid;
          table = put_of_absent tid _ t.traces absent ∙ rw (gone, same_cap);
          limit = lim;
          cap = same_cap;
          accounted = ground arith;
        }

others-absent :
    (tid : String) (o : Option (List Span)) (s : TraceStore)
    → Dict.get tid s.traces ≡ o
    → Dict.get tid (others tid s o) ≡ none
others-absent tid none s h =
    get_of_absent tid _ (has-drop_absent tid _ s.traces (absent_of_get tid s.traces h))
others-absent tid (some old) s h = ground (arith, get-remove tid tid s.traces, eq_iff tid tid)

get-written :
    (tid : String) (spans : List Span) (o : Option (List Span)) (s : TraceStore)
    → Dict.get tid s.traces ≡ o
    → Dict.get tid (written tid spans o s) ≡ some (take s.max_spans_per_trace (known o ++ spans))
get-written tid spans o s h =
    get-append tid (others tid s o) _
    ∙ rw (others-absent tid o s h) (unfold Dict.get in ground (arith, eq_iff tid tid))

pub expired_first :
    (checked : ℕ) (s : TraceStore)
    → (if ltb 0 s.ttl then expire_stale checked s else s) ≡ expire_stale checked s
unfolding expire_stale
expired_first checked s = ground arith

insert_cases :
    (tid : String) (spans : List Span) (now : ℕ) (o : Option (List Span)) (s : TraceStore)
    → Dict.get tid s.traces ≡ o
    → 0 < s.max_traces
    → IsValid s
    → Inserted tid spans o s (insert_into tid spans now o s)
insert_cases tid spans now none s h m v = insert_new tid spans now s h m v
insert_cases tid spans now (some existing) s h m v = insert_old tid spans now existing s h v

module _ (tid : String) (spans : List Span) (checked now : ℕ) (s : TraceStore)
    (m : 0 < s.max_traces) (v : IsValid s) where
  insert_lem :
      Inserted tid spans
        (Dict.get tid (expire_stale checked s).traces)
        (expire_stale checked s)
        (insert tid spans checked now s)
  unfolding insert
  insert_lem = rw (expired_first checked s) (
      insert_cases tid spans now (Dict.get tid (expire_stale checked s).traces)
        (expire_stale checked s) refl (omega (arith, (frame-expire_stale checked s).max_traces, m))
        (expire_stale-IsValid checked s v))

  -- On a well-formed store with room for at least one trace, `insert` returns on every branch,
  -- and leaves a well-formed store: distinct keys, a stamp for each trace, an exact span count,
  -- and both limits kept.
  pub insert-IsValid :
      ((insert tid spans checked now s).0 ≡ done) × IsValid (insert tid spans checked now s).1
  insert-IsValid = (insert_lem.returns, insert_lem.valid)

  -- The whole table after `insert` on a well-formed store with room for at least one trace, in
  -- order, for a new and for a known trace: after expiry, a new trace pushes out the traces at
  -- the front that are too many, a known trace gives up its place; the trace then stands last,
  -- with its spans and the new ones up to the cap.
  pub traces-insert :
      (insert tid spans checked now s).1.traces
      ≡ written tid spans (Dict.get tid (expire_stale checked s).traces) (expire_stale checked s)
  traces-insert = insert_lem.table

  live_spans : Dict.get tid (expire_stale checked s).traces ≡ live checked s tid
  unfolding get
  live_spans = get-expire_stale checked s tid v

  -- On a well-formed store with room for at least one trace, no span of a written trace is lost
  -- uncounted: the spans that the cap lets the trace keep and those that are counted as truncated
  -- are its live ones, the new ones and the earlier count together.
  pub insert_accounted :
      (insert tid spans checked now s).1.spans_truncated
        + min s.max_spans_per_trace (length (known (live checked s tid)) + length spans)
      ≡ s.spans_truncated + length (known (live checked s tid)) + length spans
  insert_accounted = rw (← live_spans) (
      omega (
        arith,
        insert_lem.accounted,
        (frame-expire_stale checked s).truncated,
        (frame-expire_stale checked s).max_spans,
      ))

  -- On a well-formed store with room for at least one trace, a trace that was just written is
  -- found, with its live spans and the new ones up to the cap.
  pub get-insert_self :
      get tid (insert tid spans checked now s).1
      ≡ some (take s.max_spans_per_trace (known (live checked s tid) ++ spans))
  unfolding get
  get-insert_self =
      rw (← live_spans, traces-insert)
        (get-written tid spans _ (expire_stale checked s) refl
          ∙ ap (λ c. some (take c (known (Dict.get tid (expire_stale checked s).traces) ++ spans)))
              (frame-expire_stale checked s).max_spans)

  -- The bound on the traces stays.
  pub max_traces-insert : (insert tid spans checked now s).1.max_traces ≡ s.max_traces
  max_traces-insert = insert_lem.limit ∙ (frame-expire_stale checked s).max_traces
