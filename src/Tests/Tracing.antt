-- ===== src/Tests/Tracing.antt =====
-- Nested calls on concrete inputs.
use rastir.Base.{true, false, ltb, none, [], if◌then◌else◌}
use rastir.Span.{num}
use rastir.Tracing.{
  Sources, Client, at_trace, at_agent, at_metric, Body, returns, raises, setting, calling, wrapper,
  run,
}
use rastir.Tracing.Nesting.{Called, wrapper-Called}

abbrev sources : Sources
sources = record { id = λ n. if ltb n 2 then "a" else "b"; wall = λ n. n; monotonic = λ n. n }

abbrev client : Client
client = record {
  current_span = none;
  current_agent = none;
  current_model = none;
  current_provider = none;
  anchors = [];
  enqueued = [];
  calls = 0;
}

-- An agent calls a function that raises, catches that, and calls another.
abbrev body : Body
body = setting "x" (num 1) (
    calling true (at_trace "step" true)
      (raises (record { error_type = "ValueError"; error_message = "no" }))
      (calling false (at_metric "steps") returns returns))

wrapper-Called_example :
    Called sources client (wrapper sources (at_agent "planner") (run sources body) client)
wrapper-Called_example = wrapper-Called sources (at_agent "planner") body client
