-- ===== src/TraceStore/Expiry.antt =====
-- What expiry removes: the traces whose last update is older than the ttl, and no other.
use rastir.Base.{
  ℕ, ◌+◌, String, ◌≡◌, refl, Bool, false, ◌&&◌, ◌||◌, Option, none, some, List, [], ◌∷◌, arith, ltb,
  str_eq, eq_iff, if◌then◌else◌,
}
use rastir.Dict
use rastir.Dict.{Dict, Distinct}
use rastir.Dict.Laws.{get-remove, get_of_absent}
use rastir.Span.{Span}
use rastir.TraceStore.{
  TraceStore, expired_ids, drop_trace, expire_one, expire_each, expire_stale, get,
}
use rastir.TraceStore.Invariant.{IsValid}

-- The last update is more than `ttl` ago.
abbrev pub old_stamp : ℕ → ℕ → Option ℕ → Bool
old_stamp ttl now none = false
old_stamp ttl now (some ts) = ltb (ts + ttl) now

-- A trace that expiry removes: only with a ttl.
abbrev pub is_stale : ℕ → TraceStore → String → Bool
is_stale now s tid = ltb 0 s.ttl && old_stamp s.ttl now (Dict.get tid s.timestamps)

-- What a client may still see of a trace at a time.
abbrev pub live : ℕ → TraceStore → String → Option (List Span)
live now s tid = if is_stale now s tid then none else Dict.get tid s.traces

contains : String → List String → Bool
contains j [] = false
contains j (k ∷ ks) = str_eq k j || contains j ks

contains-expired_ids :
    (j : String) (ttl now : ℕ) (d : Dict ℕ)
    → Distinct d
    → contains j (expired_ids ttl now d) ≡ old_stamp ttl now (Dict.get j d)
unfolding contains expired_ids Dict.get
contains-expired_ids j ttl now [] h = refl
contains-expired_ids j ttl now ((k, ts) ∷ d) h =
    ground (arith, contains-expired_ids j ttl now d h.1, eq_iff k j, get_of_absent k d h.0)

traces-expire_one :
    (tid : String) (s : TraceStore) (j : String)
    → Dict.get j (expire_one tid s).traces ≡ (if str_eq tid j then none else Dict.get j s.traces)
unfolding expire_one drop_trace
traces-expire_one tid s j = traces_from (Dict.get tid s.traces) refl
  where
    traces_from :
        (o : Option (List Span))
        → Dict.get tid s.traces ≡ o
        → Dict.get j (drop_trace tid o s).traces
          ≡ (if str_eq tid j then none else Dict.get j s.traces)
    traces_from none e = ground (arith, eq_iff tid j)
    traces_from (some spans) e = get-remove tid j s.traces

get-expire_each :
    (tids : List String) (s : TraceStore) (j : String)
    → Dict.get j (expire_each tids s).traces
      ≡ (if contains j tids then none else Dict.get j s.traces)
unfolding expire_each contains
get-expire_each [] s j = refl
get-expire_each (tid ∷ tids) s j =
    ground (arith, get-expire_each tids (expire_one tid s) j, traces-expire_one tid s j)

-- On a well-formed store, expiry removes exactly the traces whose last update is more than the
-- ttl ago, if there is a ttl, and leaves the spans of every other.
pub get-expire_stale :
    (now : ℕ) (s : TraceStore) (tid : String)
    → IsValid s
    → get tid (expire_stale now s) ≡ live now s tid
unfolding expire_stale get
get-expire_stale now s tid v = ground (
  arith,
  get-expire_each (expired_ids s.ttl now s.timestamps) s tid,
  contains-expired_ids tid s.ttl now s.timestamps v.stamps_distinct,
)

-- Expiry leaves the limits and the truncation counter, and counts each trace that it removes.
pub record ExpiryFrame (s s' : TraceStore) : Type 0 where
  pub max_traces : s'.max_traces ≡ s.max_traces
  pub max_spans : s'.max_spans_per_trace ≡ s.max_spans_per_trace
  pub ttl : s'.ttl ≡ s.ttl
  pub truncated : s'.spans_truncated ≡ s.spans_truncated

frame-expire_one : (tid : String) (s : TraceStore) → ExpiryFrame s (expire_one tid s)
unfolding expire_one drop_trace
frame-expire_one tid s = ground arith

frame-expire_each : (tids : List String) (s : TraceStore) → ExpiryFrame s (expire_each tids s)
unfolding expire_each
frame-expire_each [] s = ground arith
frame-expire_each (tid ∷ tids) s =
    ground (arith, frame-expire_one tid s, frame-expire_each tids (expire_one tid s))

pub frame-expire_stale : (now : ℕ) (s : TraceStore) → ExpiryFrame s (expire_stale now s)
unfolding expire_stale
frame-expire_stale now s = ground (arith, frame-expire_each (expired_ids s.ttl now s.timestamps) s)
