-- ===== src/TraceStore/Invariant.antt =====
-- The well-formedness of a trace store, and that every operation keeps it.
use rastir.Base.{
  ℕ, ◌≤◌, String, ◌≡◌, refl, false, Option, none, some, List, [], ◌∷◌, arith, length, ◌||◌, ap, leb,
  str_eq, eq_iff, inl, inr, Bool-cases,
}
use rastir.Dict
use rastir.Dict.{Dict, Distinct, total}
use rastir.Dict.Laws.{has-remove, Distinct-remove, get-remove}
use rastir.Dict.Measure.{total-remove, length-remove}
use rastir.Span.{Span}
use rastir.TraceStore.{
  TraceStore, expired_ids, drop_trace, expire_one, expire_each, expire_stale, evict_first,
}

-- The spans of a table.
abbrev pub span_total : Dict (List Span) → ℕ
span_total = total length

-- All but the bound on the number of traces, which the eviction loop restores.
pub record IsValid (s : TraceStore) : Type 0 where
  pub distinct : Distinct s.traces
  pub stamps_distinct : Distinct s.timestamps
  pub stamped : (k : String) → Dict.has k s.timestamps ≡ Dict.has k s.traces
  pub counted : s.total_spans ≡ span_total s.traces
  pub bounded : length s.traces ≤ s.max_traces
  pub capped :
      (k : String) (spans : List Span)
      → Dict.get k s.traces ≡ some spans
      → length spans ≤ s.max_spans_per_trace

has_of_absent : (k : String) (d : Dict (List Span)) → Dict.get k d ≡ none → Dict.has k d ≡ false
unfolding Dict.has
has_of_absent k d h = rw h

has-first :
    (tid k : String) (spans : List Span) (rest : Dict (List Span))
    → Dict.has k ((tid, spans) ∷ rest) ≡ (str_eq tid k || Dict.has k rest)
unfolding Dict.has Dict.get
has-first tid k spans rest = ground arith

get-rest :
    (tid k : String) (spans sp : List Span) (rest : Dict (List Span))
    → Dict.has tid rest ≡ false
    → Dict.get k rest ≡ some sp
    → Dict.get k ((tid, spans) ∷ rest) ≡ some sp
unfolding Dict.has Dict.get
get-rest tid k spans sp rest a h = ground (arith, eq_iff tid k)

timestamps-drop_trace :
    (tid : String) (o : Option (List Span)) (s : TraceStore)
    → (drop_trace tid o s).timestamps ≡ s.timestamps
unfolding drop_trace
timestamps-drop_trace tid none s = refl
timestamps-drop_trace tid (some spans) s = refl

drop_trace-IsValid :
    (tid : String) (s : TraceStore) (o : Option (List Span))
    → IsValid s
    → Dict.get tid s.traces ≡ o
    → IsValid (record (drop_trace tid o s) { timestamps = Dict.remove tid s.timestamps })
unfolding drop_trace
drop_trace-IsValid tid s none v h = record {
  distinct = v.distinct;
  stamps_distinct = Distinct-remove tid s.timestamps v.stamps_distinct;
  stamped = λ k. ground (
    arith,
    has-remove tid k s.timestamps,
    v.stamped k,
    eq_iff tid k,
    has_of_absent tid s.traces h,
  );
  counted = v.counted;
  bounded = v.bounded;
  capped = v.capped;
}
drop_trace-IsValid tid s (some spans) v h = record {
  distinct = Distinct-remove tid s.traces v.distinct;
  stamps_distinct = Distinct-remove tid s.timestamps v.stamps_distinct;
  stamped =
      λ k. ground (arith, has-remove tid k s.timestamps, has-remove tid k s.traces, v.stamped k);
  counted = omega (arith, v.counted, total-remove length tid spans s.traces v.distinct h);
  bounded = omega (arith, v.bounded, length-remove tid spans s.traces v.distinct h);
  capped = λ k sp e. v.capped k sp (ground (arith, get-remove tid k s.traces));
}

pub expire_one-IsValid : (tid : String) (s : TraceStore) → IsValid s → IsValid (expire_one tid s)
unfolding expire_one
expire_one-IsValid tid s v =
    rw (timestamps-drop_trace tid (Dict.get tid s.traces) s)
      (drop_trace-IsValid tid s (Dict.get tid s.traces) v refl)

expire_each-IsValid :
    (tids : List String) (s : TraceStore) → IsValid s → IsValid (expire_each tids s)
unfolding expire_each
expire_each-IsValid [] s v = v
expire_each-IsValid (tid ∷ tids) s v =
    expire_each-IsValid tids (expire_one tid s) (expire_one-IsValid tid s v)

-- Expiry keeps a store well formed.
pub expire_stale-IsValid : (now : ℕ) (s : TraceStore) → IsValid s → IsValid (expire_stale now s)
unfolding expire_stale
expire_stale-IsValid now s v = elim (Bool-cases (leb s.ttl 0)) [
  | inl off ↦ rw off v
  | inr on ↦ rw on (expire_each-IsValid (expired_ids s.ttl now s.timestamps) s v)
]

pub evict_first-IsValid :
    (tid : String) (spans : List Span) (rest : Dict (List Span)) (s : TraceStore)
    → s.traces ≡ (tid, spans) ∷ rest
    → IsValid s
    → IsValid (evict_first tid spans rest s)
unfolding evict_first
evict_first-IsValid tid spans rest s e v =
    let old : Distinct ((tid, spans) ∷ rest) = rw e at v.distinct in
    record {
      distinct = old.1;
      stamps_distinct = Distinct-remove tid s.timestamps v.stamps_distinct;
      stamped = λ k. ground (
        arith,
        has-remove tid k s.timestamps,
        v.stamped k,
        ap (Dict.has k) e,
        has-first tid k spans rest,
        old.0,
        eq_iff tid k,
      );
      counted = omega (arith, v.counted, ap span_total e);
      bounded = omega (arith, v.bounded, ap length e);
      capped = λ k sp h. v.capped k sp (rw e (get-rest tid k spans sp rest old.0 h));
    }
