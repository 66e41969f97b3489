-- ===== src/Sampling/Decision.antt =====
-- What the sampling decision depends on.
use rastir.Base.{ℕ, ◌≤◌, String, ◌≡◌, ◌≢◌, true, some, arith, eq_iff}
use rastir.Span.{Span}
use rastir.Sampling.{threshold, decide, should_store}

-- All spans with the same trace id, which is not empty, are kept or dropped together, whatever
-- else they hold and whatever is drawn.
pub should_store_of_trace :
    (rate : ℕ) (a b : Span) (trace_id : String) (draw draw' : ℕ)
    → trace_id ≢ ""
    → a.trace_id ≡ some trace_id
    → b.trace_id ≡ some trace_id
    → should_store rate a draw ≡ should_store rate b draw'
unfolding should_store decide
should_store_of_trace rate a b trace_id draw draw' h ea eb = ground (arith, eq_iff trace_id "")

threshold_mono : (r s : ℕ) → r ≤ s → threshold r ≤ threshold s
threshold_mono r s h = omega arith

-- A higher rate only adds: with the same id and the same draw, what is kept at one rate is kept at
-- every higher rate.
pub should_store_mono :
    (r s : ℕ) (span : Span) (draw : ℕ)
    → r ≤ s
    → should_store r span draw ≡ some true
    → should_store s span draw ≡ some true
unfolding should_store decide
should_store_mono r s span draw h e = ground (arith, threshold_mono r s)
