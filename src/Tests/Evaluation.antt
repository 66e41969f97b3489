-- ===== src/Tests/Evaluation.antt =====
-- The evaluation worker on a concrete task.
use rastir.Base.{◌≡◌, true, refl, true, none, some, List, [], ◌∷◌, ◌++◌, All, arith, str_eq}
use rastir.Dict
use rastir.Queue.Window.{keep}
use rastir.Span.{Span, num, text, null}
use rastir.Evaluators
use rastir.Evaluators.{Evaluator}
use rastir.EvaluationQueue.{EvaluationTask}
use rastir.Ingestion.{Ingestion, Settings}
use rastir.EvaluationWorker.{Pool, timed_out, process_task, eval_span}
use rastir.EvaluationWorker.Judged.{OneEach, knows_one}
use rastir.EvaluationWorker.Spans.{Correlated, process_task_lem}
use rastir.Collector.{build_worker, build_settings}
use rastir.Tests.Samples.{config, library, outside}

abbrev toxicity : Evaluator
toxicity = record { name = "toxicity"; evaluator_model = "m"; evaluator_provider = "p" }

-- Judges that all run out of time.
abbrev pool : Pool
pool = record {
  registry = record { evaluators = ("toxicity", toxicity) ∷ []; max_types = 20 };
  evaluate = λ n e task. timed_out;
  fresh_id = λ n. "7";
  timeout_message = λ n. "timed out";
}

abbrev task : EvaluationTask
task = record {
  trace_id = "a";
  parent_span_id = "1";
  service = "shop";
  env = "prod";
  model = text "m";
  provider = text "p";
  agent = null;
  prompt_text = text "q";
  completion_text = text "r";
  evaluation_types = "unknown" ∷ "toxicity" ∷ [];
  timeout_ms = num 30000;
  span_start_time = some 1;
  span_end_time = some 2;
  enqueued_at = 3;
}

abbrev worker : Ingestion
worker = record (build_worker config none none) { queue = record { maxsize = 2; items = [] } }

abbrev settings : Settings
settings = build_settings library config

known : knows_one pool task task.evaluation_types ≡ true
unfolding Evaluators.get Dict.get
known = refl

process_task_lem_example :
    ((process_task outside pool settings task worker).0 ≡ some tt)
    × (spans : List Span) × OneEach pool task task.evaluation_types spans
    × All (Correlated task) spans
    × ((process_task outside pool settings task worker).1.queue.items
        ≡ keep
            (str_eq settings.mode "drop_oldest")
            2
            ([] ++ record { service = "shop"; env = "prod"; version = ""; spans = spans } ∷ []))
process_task_lem_example =
    process_task_lem outside pool settings task worker 30000 (omega arith) (omega arith) refl known

abbrev evaluated : Span
evaluated =
    eval_span "7" task
      (record {
        evaluation_type = "toxicity";
        score = 0;
        passed = true;
        details = null;
        error = none;
      })
      5 toxicity 2

evaluated-Correlated : Correlated task evaluated
unfolding eval_span Dict.get
evaluated-Correlated = record {
  trace = refl;
  parent = refl;
  type = refl;
  no_request = refl;
  no_prompt = refl;
  no_completion = refl;
}
