-- ===== src/EvaluationQueue/Policies.antt =====
-- What the two drop policies keep, and that no task disappears uncounted.
use mathlib.Core.List.{append_assoc, append-nil}
use rastir.Base.{
  ◌+◌, ◌≤◌, ◌<◌, ◌≡◌, refl, ◌↔◌, sym, ap, ◌∙◌, false, List, [], ◌∷◌, ◌++◌, arith, length,
  length-append, take_of_length-le, str_eq,
}
use rastir.Queue
use rastir.Queue.{Queue}
use rastir.Queue.Window.{
  keep, keep-keep, keep_of_fit, last_of_fit, last_of_one_more, take_of_filled,
}
use rastir.EvaluationQueue.{EvaluationTask, EvaluationQueue, put, get, size}

pub record IsValid (q : EvaluationQueue) : Type 0 where
  pub positive : 0 < q.max_size
  pub maxsize : q.queue.maxsize ≡ q.max_size
  pub bounded : length q.queue.items ≤ q.max_size

-- The tasks after one `put`: the last that fit, or the first.
abbrev pub kept : EvaluationQueue → List EvaluationTask → List EvaluationTask
kept q tasks = keep (str_eq q.drop_policy "drop_oldest") q.max_size tasks

-- One `put`, described without the exceptions.
put_cases :
    (task : EvaluationTask) (q : EvaluationQueue) (items : List EvaluationTask)
    → q.queue.items ≡ items
    → IsValid q
    → IsValid (put task q).1
      × (size (put task q).1 + (put task q).1.dropped ≡ size q + q.dropped + 1)
      × ((put task q).1.queue.items ≡ kept q (items ++ task ∷ []))
unfolding put size Queue.full Queue.get_nowait Queue.put_nowait
put_cases task q [] e v = (
  ground arith,
  ground arith,
  ground (arith, take_of_length-le q.max_size (task ∷ []), last_of_fit q.max_size (task ∷ [])),
)
put_cases task q (t ∷ rest) e v = (
  ground (arith, length-append rest (task ∷ []), length-append (t ∷ rest) (task ∷ [])),
  ground (arith, length-append rest (task ∷ []), length-append (t ∷ rest) (task ∷ [])),
  ground (
    arith,
    length-append (t ∷ rest) (task ∷ []),
    length-append rest (task ∷ []),
    take_of_length-le q.max_size (t ∷ rest ++ task ∷ []),
    last_of_fit q.max_size (t ∷ rest ++ task ∷ []),
    last_of_one_more q.max_size t (rest ++ task ∷ []),
    take_of_filled q.max_size (t ∷ rest) (task ∷ []),
  ),
)

put_frame :
    (task : EvaluationTask) (q : EvaluationQueue)
    → ((put task q).1.drop_policy ≡ q.drop_policy) × ((put task q).1.max_size ≡ q.max_size)
unfolding put
put_frame task q = ground arith

-- On a well-formed queue, `put` returns False exactly if the policy is not `drop_oldest` and the
-- queue is full.
pub put_rejects_iff :
    (task : EvaluationTask) (q : EvaluationQueue)
    → IsValid q
    → ((put task q).0 ≡ false)
      ↔ ((str_eq q.drop_policy "drop_oldest" ≡ false) × (q.max_size ≤ length q.queue.items))
unfolding put Queue.full Queue.get_nowait Queue.put_nowait
put_rejects_iff task q v = rejects q.queue.items refl
  where
    rejects :
        (items : List EvaluationTask)
        → q.queue.items ≡ items
        → ((put task q).0 ≡ false)
          ↔ ((str_eq q.drop_policy "drop_oldest" ≡ false) × (q.max_size ≤ length items))
    rejects [] e = (ground arith, ground arith)
    rejects (t ∷ rest) e = (ground arith, ground arith)

-- A producer that puts tasks one after another.
unfoldable pub put_all : List EvaluationTask → EvaluationQueue → EvaluationQueue
put_all [] q = q
put_all (task ∷ tasks) q = put_all tasks (put task q).1

-- From a well-formed queue, over any sequence of `put`s, the queue holds the last tasks that fit
-- under `drop_oldest` and the first that fit under any other policy, within its bound, and each
-- task is either in it or counted as dropped.
pub put_all_window :
    (tasks : List EvaluationTask) (q : EvaluationQueue)
    → IsValid q
    → IsValid (put_all tasks q)
      × (size (put_all tasks q) + (put_all tasks q).dropped ≡ size q + q.dropped + length tasks)
      × ((put_all tasks q).queue.items ≡ kept q (q.queue.items ++ tasks))
unfolding put_all
put_all_window [] q v = (
  v,
  omega arith,
  rw append-nil
      (sym (keep_of_fit (str_eq q.drop_policy "drop_oldest") q.max_size q.queue.items v.bounded)),
)
put_all_window (task ∷ tasks) q v =
    let (valid, counted, items) = put_cases task q q.queue.items refl v in
    let (policy, bound) = put_frame task q in
    let (valid', counted', items') = put_all_window tasks (put task q).1 valid in
    (
      valid',
      omega (arith, counted, counted'),
      items'
          ∙ (rw (items, policy, bound)
              (keep-keep (str_eq q.drop_policy "drop_oldest") q.max_size
                  (q.queue.items ++ task ∷ []) tasks
                ∙ ap (keep (str_eq q.drop_policy "drop_oldest") q.max_size)
                    (append_assoc q.queue.items (task ∷ []) tasks))),
    )

-- One `put` keeps a queue well formed.
pub put-IsValid : (task : EvaluationTask) (q : EvaluationQueue) → IsValid q → IsValid (put task q).1
put-IsValid task q v = (put_cases task q q.queue.items refl v).0

-- Taking a task keeps a queue well formed.
pub get-IsValid : (q : EvaluationQueue) → IsValid q → IsValid (get q).1
unfolding get Queue.get_nowait
get-IsValid q v = by_items q.queue.items refl
  where
    by_items : (items : List EvaluationTask) → q.queue.items ≡ items → IsValid (get q).1
    by_items [] e = record {
      positive = ground (arith, e, v.positive);
      maxsize = ground (arith, e, v.maxsize);
      bounded = ground (arith, e, v.bounded);
    }
    by_items (t ∷ rest) e = record {
      positive = ground (arith, e, v.positive);
      maxsize = ground (arith, e, v.maxsize);
      bounded = ground (arith, e, v.bounded);
    }
