-- ===== src/SpanQueue/Fifo.antt =====
-- The span queue is first-in first-out, and drops the newest span when it is full.
use mathlib.Core.List.{append_assoc, append-nil}
use rastir.Base.{
  ℕ, zero, suc, ◌≤◌, ◌<◌, ◌≡◌, refl, sym, ap, ◌∙◌, List, [], ◌∷◌, ◌++◌, arith, length, take, drop,
  length-append, length-take, take_of_length-le,
}
use rastir.Queue
use rastir.Queue.Window.{take-take_append, take_of_filled}
use rastir.SpanRecord.{SpanRecord}
use rastir.SpanQueue.{SpanQueue, enqueue_span, drain_batch}

-- A drained batch is the oldest spans, in order, and the rest stays, in order.
pub drain_batch_lem :
    (n : ℕ) (q : SpanQueue)
    → ((drain_batch n q).0 ≡ take n q.items)
      × ((drain_batch n q).1 ≡ record q { items = drop n q.items })
unfolding drain_batch Queue.get_nowait
drain_batch_lem n q = drain n q.items q.maxsize
  where
    drain :
        (n : ℕ) (items : List SpanRecord) (m : ℕ)
        → ((drain_batch n (record { maxsize = m; items = items })).0 ≡ take n items)
          × ((drain_batch n (record { maxsize = m; items = items })).1
              ≡ record { maxsize = m; items = drop n items })
    drain zero items m = (refl, refl)
    drain (suc n) [] m = (refl, refl)
    drain (suc n) (s ∷ items) m = let (batch, rest) = drain n items m in (ap (◌∷◌ s) batch, rest)

-- A decorator that ends spans one after another.
unfoldable pub enqueue_all : List SpanRecord → SpanQueue → SpanQueue
enqueue_all [] q = q
enqueue_all (span ∷ spans) q = enqueue_all spans (enqueue_span span q)

items-enqueue_span :
    (span : SpanRecord) (q : SpanQueue)
    → 0 < q.maxsize
    → length q.items ≤ q.maxsize
    → ((enqueue_span span q).items ≡ take q.maxsize (q.items ++ span ∷ []))
      × ((enqueue_span span q).maxsize ≡ q.maxsize)
unfolding enqueue_span Queue.put_nowait
items-enqueue_span span q m fits = ground (
  arith,
  take_of_filled q.maxsize q.items (span ∷ []),
  take_of_length-le q.maxsize (q.items ++ span ∷ []),
  length-append q.items (span ∷ []),
)

-- A queue with a bound that it keeps loses the newest spans when it is full, not the oldest:
-- after any spans it holds the first that fit, within its bound.
pub items-enqueue_all :
    (spans : List SpanRecord) (q : SpanQueue)
    → 0 < q.maxsize
    → length q.items ≤ q.maxsize
    → ((enqueue_all spans q).items ≡ take q.maxsize (q.items ++ spans))
      × (length (enqueue_all spans q).items ≤ q.maxsize)
unfolding enqueue_all
items-enqueue_all [] q m fits =
    (sym (rw append-nil (take_of_length-le q.maxsize q.items fits)), fits)
items-enqueue_all (span ∷ spans) q m fits =
    let (items, same) = items-enqueue_span span q m fits in
    let short = length-take q.maxsize (q.items ++ span ∷ []) in
    let (items', fits') =
      items-enqueue_all spans (enqueue_span span q) (omega (arith, same))
        (omega (arith, ap length items, same, short)) in
    (
      items'
          ∙ rw (items, same)
              (take-take_append q.maxsize (q.items ++ span ∷ []) spans
                ∙ ap (take q.maxsize) (append_assoc q.items (span ∷ []) spans)),
      omega (arith, fits', same),
    )
