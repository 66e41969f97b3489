-- ===== src/TraceStore/Queries.antt =====
-- `recent`, `search` and `clear`: what they list, and in which order.
use rastir.Base.{
  ℕ, ◌+◌, ◌-◌, ◌<◌, String, ◌≡◌, refl, sym, ◌∙◌, ap, Option, none, List, [], ◌∷◌, ◌++◌, map,
  reverse, arith, length, take, take-nil, take-cons, length-append, leb, ◌==◌, inl, inr,
  if◌then◌else◌, Bool-cases,
}
use mathlib.Core.List.{append_assoc, append-nil}
use rastir.Dict.{Dict}
use rastir.Span.{Span}
use rastir.TraceStore.{
  TraceStore, Summary, summary, expire_stale, recent_loop, recent, wanted, search_loop, search,
}
use rastir.TraceStore.Insert.{expired_first}

-- The loops append before they compare, so a limit of 0 lists as much as a limit of 1.
abbrev pub at_least_one : ℕ → ℕ
at_least_one n = if n == 0 then 1 else n

-- The traces that a query for a service wants, in their order.
unfoldable pub matching : Option String → Dict (List Span) → Dict (List Span)
matching service [] = []
matching service ((tid, spans) ∷ rest) =
    let others = matching service rest in
    if wanted service spans then (tid, spans) ∷ others else others

search_loop_lem :
    (limit : ℕ) (service : Option String) (result : List Summary) (d : Dict (List Span))
    → length result < at_least_one limit
    → search_loop limit service result d
      ≡ result ++ take (at_least_one limit - length result) (map summary (matching service d))
unfolding search_loop matching
search_loop_lem limit service result [] h =
    sym (ap (λ l. result ++ l) (take-nil (at_least_one limit - length result)) ∙ append-nil result)
search_loop_lem limit service result ((tid, spans) ∷ rest) h =
    elim (Bool-cases (wanted service spans)) [
      | inr other ↦ rw other (search_loop_lem limit service result rest h)
      | inl fits ↦
          rw
            (
              fits,
              take-cons (at_least_one limit - length result) (summary (tid, spans)) _ (omega arith),
            )
            (elim (Bool-cases (leb limit (length (result ++ summary (tid, spans) ∷ [])))) [
              | inl full ↦
                  let z : at_least_one limit - length result - 1 ≡ 0 =
                    ground (arith, length-append result (summary (tid, spans) ∷ [])) in
                  rw (full, z) refl
              | inr more ↦
                  let n : length (result ++ summary (tid, spans) ∷ []) ≡ length result + 1 =
                    length-append result (summary (tid, spans) ∷ []) in
                  rw more (
                    search_loop_lem limit service (result ++ summary (tid, spans) ∷ []) rest
                      (ground arith)
                    ∙ (append_assoc result _ _
                        ∙ ap
                            (λ k.
                              result
                              ++ summary (tid, spans)
                                ∷ take k (map summary (matching service rest)))
                            (omega (arith, n))))
            ])
    ]

recent-search :
    (limit : ℕ) (result : List Summary) (d : Dict (List Span))
    → recent_loop limit result d ≡ search_loop limit none result d
unfolding recent_loop search_loop
recent-search limit result [] = refl
recent-search limit result ((tid, spans) ∷ rest) =
    rw (recent-search limit (result ++ summary (tid, spans) ∷ []) rest)

search_from :
    (service : Option String) (limit : ℕ) (d : Dict (List Span))
    → search_loop limit service [] d ≡ take (at_least_one limit) (map summary (matching service d))
search_from service limit d =
    search_loop_lem limit service [] d (ground arith)
    ∙ ap (λ k. take k (map summary (matching service d))) (ground arith)

all_wanted : (d : Dict (List Span)) → matching none d ≡ d
unfolding matching
all_wanted [] = refl
all_wanted (e ∷ d) = ap (◌∷◌ e) (all_wanted d)

-- `search` lists the traces that hold a span of the service, the most recently updated first, up
-- to the limit (but one where the limit is 0), with their span counts, after expiry.
pub search_lem :
    (service : Option String) (limit now : ℕ) (s : TraceStore)
    → (search service limit now s).0
      ≡ take
          (at_least_one limit)
          (map summary (matching service (reverse (expire_stale now s).traces)))
unfolding search
search_lem service limit now s =
    rw (expired_first now s) (search_from service limit (reverse (expire_stale now s).traces))

-- `recent` lists every trace, the most recently updated first, up to the limit (but one where the
-- limit is 0), with their span counts, after expiry.
pub recent_lem :
    (limit now : ℕ) (s : TraceStore)
    → (recent limit now s).0
      ≡ take (at_least_one limit) (map summary (reverse (expire_stale now s).traces))
unfolding recent
recent_lem limit now s =
    rw (expired_first now s, recent-search)
      (search_from none limit (reverse (expire_stale now s).traces)
        ∙ ap (λ l. take (at_least_one limit) (map summary l))
            (all_wanted (reverse (expire_stale now s).traces)))
