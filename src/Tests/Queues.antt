-- ===== src/Tests/Queues.antt =====
-- The queues and the rate limiter on concrete inputs.
use rastir.Base.{String, ◌+◌, ◌≡◌, refl, true, false, none, [], ◌∷◌, arith}
use rastir.Dict
use rastir.Span.{null}
use rastir.EvaluationQueue.{EvaluationTask, EvaluationQueue, size}
use rastir.EvaluationQueue.Policies.{IsValid, put_all, put_all_window}
use rastir.RateLimiter
use rastir.RateLimiter.{RateLimiter, WindowCounter, ip, counter_of, check}
use rastir.RateLimiter.Windows.{answers, Request, passes, times, passes-answers}

abbrev task : String → EvaluationTask
task id = record {
  trace_id = "a";
  parent_span_id = id;
  service = "shop";
  env = "prod";
  model = null;
  provider = null;
  agent = null;
  prompt_text = null;
  completion_text = null;
  evaluation_types = [];
  timeout_ms = null;
  span_start_time = none;
  span_end_time = none;
  enqueued_at = 0;
}

-- A full queue of two tasks.
abbrev tasks : String → EvaluationQueue
tasks policy = record {
  queue = record { maxsize = 2; items = task "1" ∷ task "2" ∷ [] };
  drop_policy = policy;
  max_size = 2;
  dropped = 0;
}

tasks-IsValid : (policy : String) → IsValid (tasks policy)
tasks-IsValid policy = record { positive = omega arith; maxsize = refl; bounded = omega arith }

put_all_window_example :
    IsValid (put_all (task "3" ∷ []) (tasks "drop_oldest"))
    × (size (put_all (task "3" ∷ []) (tasks "drop_oldest"))
          + (put_all (task "3" ∷ []) (tasks "drop_oldest")).dropped
        ≡ 3)
    × ((put_all (task "3" ∷ []) (tasks "drop_oldest")).queue.items ≡ task "2" ∷ task "3" ∷ [])
unfolding size
put_all_window_example =
    put_all_window (task "3" ∷ []) (tasks "drop_oldest") (tasks-IsValid "drop_oldest")

-- A limit of two in windows of ten ticks.
abbrev counter : WindowCounter
counter = record { limit = 2; window = 10; current = 0; count = 0 }

abbrev request : String → Request
request client = record { client_ip = client; name = "shop"; now = 7; later = 8 }

passes-answers_example :
    passes "x" (request "x" ∷ request "y" ∷ request "x" ∷ []) (RateLimiter.init 1 5)
    ≡ true ∷ false ∷ []
unfolding Dict.get answers times RateLimiter.init RateLimiter.allow RateLimiter.fresh
passes-answers_example =
    passes-answers "x" (request "x" ∷ request "y" ∷ request "x" ∷ []) (RateLimiter.init 1 5)
