-- ===== src/TraceStore/Writes.antt =====
-- Eviction and `insert` keep a trace store well formed.
use rastir.Base.{
  ℕ, ◌-◌, ◌<◌, String, ◌≡◌, refl, false, some, List, [], ◌∷◌, ◌++◌, arith, length, take, drop, suc,
  zero, length-append, length-take, ap, leb, eq_iff, inl, inr, Bool-cases, lt→leb_false, leb→le,
  ◌∙◌,
}
use rastir.Dict
use rastir.Dict.{Dict, Distinct, total}
use rastir.Dict.Laws.{
  has-put, has-move_to_end, Distinct-put, Distinct-move_to_end, has_of_get, get-move_to_end,
  get-put,
}
use rastir.Dict.Measure.{
  total-put_new, total-put_old, total-move_to_end, length-put_new, length-put_old,
  length-move_to_end,
}
use rastir.Span.{Span}
use rastir.TraceStore.{TraceStore, done, evict_first, evict_while, extend_trace, add_trace}
use rastir.TraceStore.Invariant.{IsValid, evict_first-IsValid}

-- The loop ends with room for one more trace and keeps the store well formed.
pub evict_while-IsValid :
    (d : Dict (List Span)) (s : TraceStore)
    → s.traces ≡ d
    → 0 < s.max_traces
    → IsValid s
    → ((evict_while d s).0 ≡ done)
      × IsValid (evict_while d s).1
      × (length (evict_while d s).1.traces < (evict_while d s).1.max_traces)
unfolding evict_while
evict_while-IsValid [] s e m v =
    rw (lt→leb_false 0 s.max_traces m) (refl, v, omega (arith, ap length e))
evict_while-IsValid ((tid, spans) ∷ rest) s e m v =
    elim (Bool-cases (leb s.max_traces (length ((tid, spans) ∷ rest)))) [
      | inl full ↦ rw full (
          evict_while-IsValid rest (evict_first tid spans rest s) (unfold evict_first in refl)
            (unfold evict_first in m) (evict_first-IsValid tid spans rest s e v))
      | inr room ↦ rw room (refl, v, ground (arith, ap length e))
    ]

-- Eviction leaves the limits, the truncation counter and all but a first part of the traces.
pub evict_while_frame :
    (d : Dict (List Span)) (s : TraceStore)
    → ((evict_while d s).1.max_traces ≡ s.max_traces)
      × ((evict_while d s).1.max_spans_per_trace ≡ s.max_spans_per_trace)
      × ((evict_while d s).1.spans_truncated ≡ s.spans_truncated)
unfolding evict_while evict_first
evict_while_frame [] s = ground arith
evict_while_frame ((tid, spans) ∷ rest) s =
    ground (arith, evict_while_frame rest (evict_first tid spans rest s))

pub traces-evict_while :
    (d : Dict (List Span)) (s : TraceStore)
    → s.traces ≡ d
    → 0 < s.max_traces
    → (evict_while d s).1.traces ≡ drop (suc (length d) - s.max_traces) d
unfolding evict_while
traces-evict_while [] s e m =
    let z : suc 0 - s.max_traces ≡ 0 = omega arith in rw (lt→leb_false 0 s.max_traces m, z) e
traces-evict_while ((tid, spans) ∷ rest) s e m =
    elim (Bool-cases (leb s.max_traces (length ((tid, spans) ∷ rest)))) [
      | inl full ↦
          let z : suc (suc (length rest)) - s.max_traces ≡ suc (suc (length rest) - s.max_traces) =
            omega (arith, leb→le _ _ full) in
          rw (full, z)
            (traces-evict_while rest (evict_first tid spans rest s) (unfold evict_first in refl)
                (unfold evict_first in m)
              ∙ (unfold evict_first in refl))
      | inr room ↦
          let z : suc (suc (length rest)) - s.max_traces ≡ 0 = ground arith in rw (room, z) e
    ]

pub has-drop_absent :
    (k : String) (n : ℕ) (d : Dict (List Span))
    → Dict.has k d ≡ false
    → Dict.has k (drop n d) ≡ false
unfolding Dict.has Dict.get
has-drop_absent k zero d h = h
has-drop_absent k (suc n) [] h = refl
has-drop_absent k (suc n) (e ∷ d) h = has-drop_absent k n d (ground arith)

-- An old trace with what fits behind it.
abbrev grown : List Span → List Span → TraceStore → List Span
grown spans existing s = existing ++ take (s.max_spans_per_trace - length existing) spans

pub extend_trace-IsValid :
    (tid : String) (spans : List Span) (now : ℕ) (existing : List Span) (s : TraceStore)
    → Dict.get tid s.traces ≡ some existing
    → IsValid s
    → IsValid (extend_trace tid spans now existing s)
unfolding extend_trace
extend_trace-IsValid tid spans now existing s h v =
    elim (Bool-cases (leb s.max_spans_per_trace (length existing))) [
      | inl full ↦ rw full (record {
        stamps_distinct = Distinct-put tid now s.timestamps v.stamps_distinct;
        distinct = Distinct-move_to_end tid s.traces v.distinct;
        stamped = λ k. ground (
          arith,
          has-put tid k now s.timestamps,
          has-move_to_end tid k s.traces,
          v.stamped k,
          eq_iff tid k,
          has_of_get tid s.traces h,
        );
        counted = omega (arith, v.counted, total-move_to_end length tid s.traces v.distinct);
        bounded = omega (arith, v.bounded, length-move_to_end tid s.traces v.distinct);
        capped = λ k sp g. v.capped k sp (rw (get-move_to_end tid k s.traces) at g);
      })
      | inr room ↦ rw room (record {
        stamps_distinct = Distinct-put tid now s.timestamps v.stamps_distinct;
        distinct = Distinct-move_to_end tid _ (Distinct-put tid _ s.traces v.distinct);
        stamped = λ k. ground (
          arith,
          has-put tid k now s.timestamps,
          has-move_to_end tid k (Dict.put tid (grown spans existing s) s.traces),
          has-put tid k (grown spans existing s) s.traces,
          v.stamped k,
        );
        counted = omega (
          arith,
          v.counted,
          total-move_to_end length tid (Dict.put tid (grown spans existing s) s.traces)
              (Distinct-put tid _ s.traces v.distinct),
          total-put_old length tid (grown spans existing s) existing s.traces h,
          length-append existing (take (s.max_spans_per_trace - length existing) spans),
        );
        bounded = omega (
          arith,
          v.bounded,
          length-move_to_end tid (Dict.put tid (grown spans existing s) s.traces)
              (Distinct-put tid _ s.traces v.distinct),
          length-put_old tid (grown spans existing s) existing s.traces h,
        );
        capped = λ k sp g. ground (
          arith,
          get-move_to_end tid k (Dict.put tid (grown spans existing s) s.traces),
          get-put tid k (grown spans existing s) s.traces,
          v.capped k sp,
          length-append existing (take (s.max_spans_per_trace - length existing) spans),
          length-take (s.max_spans_per_trace - length existing) spans,
        );
      })
    ]

pub add_trace-IsValid :
    (tid : String) (spans : List Span) (now : ℕ) (s : TraceStore)
    → Dict.has tid s.traces ≡ false
    → length s.traces < s.max_traces
    → IsValid s
    → IsValid (add_trace tid spans now s)
unfolding add_trace
add_trace-IsValid tid spans now s h room v = record {
  stamps_distinct = Distinct-put tid now s.timestamps v.stamps_distinct;
  distinct = Distinct-put tid _ s.traces v.distinct;
  stamped = λ k. ground (
    arith,
    has-put tid k now s.timestamps,
    has-put tid k (take s.max_spans_per_trace spans) s.traces,
    v.stamped k,
  );
  counted =
      omega
        (arith, v.counted, total-put_new length tid (take s.max_spans_per_trace spans) s.traces h);
  bounded = omega (arith, length-put_new tid (take s.max_spans_per_trace spans) s.traces h);
  capped = λ k sp g. ground (
    arith,
    get-put tid k (take s.max_spans_per_trace spans) s.traces,
    v.capped k sp,
    length-take s.max_spans_per_trace spans,
  );
}
