-- ===== src/EvaluationQueue.antt =====
-- `EvaluationTask` and `InMemoryEvaluationQueue` of src/rastir/server/evaluation_queue.py. The
-- timed `get` is the call that the worker makes: it has a task or times out.
pub mod Policies
use rastir.Base.{
  ℕ, ◌+◌, String, Bool, true, false, not, ◌||◌, Option, none, some, List, [], str_eq, if◌then◌else◌,
}
use rastir.Span.{Value}
use rastir.Queue
use rastir.Queue.{Queue}

-- What the span's attributes give is passed on as it came, `null` where it is absent.
pub record EvaluationTask : Type 0 where
  pub trace_id : String
  pub parent_span_id : String
  pub service : String
  pub env : String
  pub model : Value
  pub provider : Value
  pub agent : Value
  pub prompt_text : Value
  pub completion_text : Value
  pub evaluation_types : List String
  pub timeout_ms : Value
  pub span_start_time : Option ℕ
  pub span_end_time : Option ℕ
  pub enqueued_at : ℕ

pub record EvaluationQueue : Type 0 where
  pub queue : Queue EvaluationTask
  pub drop_policy : String
  pub max_size : ℕ
  pub dropped : ℕ

-- `none` is the exception `ValueError`.
unfoldable pub init : ℕ → String → Option EvaluationQueue
init max_size drop_policy =
    if not (str_eq drop_policy "drop_new" || str_eq drop_policy "drop_oldest")
    then none
    else some (record {
      queue = record { maxsize = max_size; items = [] };
      drop_policy = drop_policy;
      max_size = max_size;
      dropped = 0;
    })

-- `put_nowait`, and the handler of `Full`
unfoldable pub put_task : Option (Queue EvaluationTask) → EvaluationQueue → Bool × EvaluationQueue
put_task (some queue) q = (true, record q { queue = queue })
put_task none q = (false, record q { dropped = q.dropped + 1 })

-- `get_nowait` of the oldest task, and the handler of `Empty`
unfoldable pub drop_oldest :
    Option (EvaluationTask × Queue EvaluationTask) → EvaluationQueue → EvaluationQueue
drop_oldest (some (oldest, queue)) q = record q { queue = queue; dropped = q.dropped + 1 }
drop_oldest none q = q

unfoldable pub put : EvaluationTask → EvaluationQueue → Bool × EvaluationQueue
unfolding put_task drop_oldest
put task q =
    if Queue.full q.queue
    then if str_eq q.drop_policy "drop_oldest"
      then (let q' = drop_oldest (Queue.get_nowait q.queue) q in
          put_task (Queue.put_nowait task q'.queue) q')
      else (false, record q { dropped = q.dropped + 1 })
    else put_task (Queue.put_nowait task q.queue) q

unfoldable pub get : EvaluationQueue → Option EvaluationTask × EvaluationQueue
get q = elim (Queue.get_nowait q.queue) [
  | none ↦ (none, q)
  | some (task, queue) ↦ (some task, record q { queue = queue })
]

unfoldable pub size : EvaluationQueue → ℕ
size q = Queue.qsize q.queue

unfoldable pub full : EvaluationQueue → Bool
full q = Queue.full q.queue
