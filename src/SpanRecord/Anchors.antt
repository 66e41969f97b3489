-- ===== src/SpanRecord/Anchors.antt =====
-- Times of the spans of one trace, and what is written at the end of a span.
use rastir.Base.{ℕ, ◌+◌, ◌-◌, ◌≤◌, String, ◌≡◌, refl, none, some, arith, eq_iff}
use rastir.Dict.Laws.{get-put}
use rastir.SpanRecord.{SpanRecord, SpanStatus, Anchors, trimmed, post_init, duration, finish}

-- Finishing a span gives it the time that the monotonic clock has counted since its start,
-- whatever the wall clock did, and the status.
pub finish-duration :
    (status : SpanStatus) (mono : ℕ) (s : SpanRecord)
    → (duration (finish status mono s) ≡ mono - s.mono_start)
      × ((finish status mono s).status ≡ status)
unfolding duration finish
finish-duration status mono s = (omega arith, refl)

-- A root anchors its trace: two children of its trace that are created next, the first not before
-- the root and the second not before the first by the monotonic clock, start as far apart on the
-- wall clock as the monotonic clock says, and the first does not start before the root.
pub children_ordered :
    (root a b : SpanRecord) (anchors : Anchors) (p q : String)
    → root.parent_id ≡ none
    → a.parent_id ≡ some p
    → b.parent_id ≡ some q
    → a.trace_id ≡ root.trace_id
    → b.trace_id ≡ root.trace_id
    → root.mono_start ≤ a.mono_start
    → a.mono_start ≤ b.mono_start
    → (root.start_time ≤ (post_init a (post_init root anchors).1).0.start_time)
      × ((post_init b (post_init root anchors).1).0.start_time
          ≡ (post_init a (post_init root anchors).1).0.start_time + (b.mono_start - a.mono_start))
unfolding post_init
children_ordered root a b anchors p q hr ha hb ta tb m n = ground (
  arith,
  get-put root.trace_id a.trace_id (root.start_time, root.mono_start) (trimmed anchors),
  get-put root.trace_id b.trace_id (root.start_time, root.mono_start) (trimmed anchors),
  eq_iff root.trace_id a.trace_id,
  eq_iff root.trace_id b.trace_id,
)
