-- ===== src/Tests/Collector.antt =====
-- The server on concrete requests.
use rastir.Base.{if◌then◌else◌, ◌++◌, String, ◌≡◌, refl, true, none, some, List, [], ◌∷◌, arith}
use rastir.Base.Integers.{pos}
use rastir.Dict
use rastir.Dict.{Dict}
use rastir.Span.{Span}
use rastir.Sampling.{should_store}
use rastir.Config.Validation.{
  validate_config, check_histograms, check_limits, check_sampling, check_backpressure,
  check_rate_limit, check_trace_store, check_shutdown, check_logging, check_redaction,
  check_evaluation, check_sre,
}
use rastir.Config.Loading.{Setting, int, text, File}
use rastir.Config.Loading
use rastir.Config.Loading.{file_value, env}
use rastir.Config.Sections.{
  load_config, load_server, load_limits, load_trace_store, load_exporter, load_multi_tenant,
  load_sampling, load_backpressure, load_rate_limit, load_exemplars, load_shutdown, load_logging,
  load_redaction, load_evaluation, load_sre, load_histograms,
}
use rastir.Config.Overrides.{merge}
use rastir.Evaluators
use rastir.Evaluators.{register}
use rastir.EvaluationQueue
use rastir.Ingestion.{Ingestion, Batch, Settings}
use rastir.Ingestion.Loop.{
  running, stopped, run_round, run_rounds, process_each, run_rounds-process_each,
  run_rounds-stopped,
}
use rastir.Ingestion.Sound.{WellFormed}
use rastir.Queue
use rastir.Ingestion.Shutdown.{stop, stop_batch, stop-empties}
use rastir.Collector.{
  Collector, components, build_evaluation, build_registry, build_components, create_app,
  build_worker, build_settings, build_exporter, configure_logging, takes_histograms,
}
use rastir.Collector.Routes.{
  Request, object, objects, telemetry_batch, refusal, server_error, ingest_telemetry,
}
use rastir.Collector.Sound.{Answered, ingest_telemetry_lem}
use rastir.Collector.Admin.{
  ok, failed, Body, sections, reload_config, write_config, Host, update_sections, update_config,
  new_config,
}
use rastir.Collector.Updates.{SameParts, Allowed, update_config-Allowed, reload_config-write_config}
use rastir.Collector.Startup.{create_app-WellFormed}
use rastir.Collector.Runs.{System, here, step, telemetry, round, create_app-Reach}
use rastir.Collector.Stopped.{Idle, Reach-stopped}
use rastir.Tests.Samples.{config, host, library, outside}
use rastir.Tests.Config.{config-accepted}

abbrev span : Span
span = record {
  trace_id = some "a";
  span_id = some "1";
  parent_id = none;
  name = some "step";
  span_type = some "llm";
  status = some "OK";
  service = none;
  start_time = some 1;
  end_time = some 2;
  duration_ms = some 1;
  start_time_unix_nano = none;
  attributes = [];
  events = [];
}

abbrev request : String → Request
request service = record {
  payload = object (some service) none none (some (some span ∷ []));
  client_host = some "10.0.0.1";
  headers = λ name. none;
  now = 1;
  later = 2;
}

-- What the server starts with.
abbrev started : Collector
started = components library config [] none (
  some (record {
    queue = record { maxsize = 10000; items = [] };
    drop_policy = "drop_new";
    max_size = 10000;
    dropped = 0;
  }),
  some (record {
    evaluators =
        (
          "toxicity",
          record {
            name = "toxicity";
            evaluator_model = "gpt-4o-mini";
            evaluator_provider = "openai";
          },
        )
        ∷ (
          "hallucination",
          record {
            name = "hallucination";
            evaluator_model = "gpt-4o-mini";
            evaluator_provider = "openai";
          },
        )
        ∷ [];
    max_types = 20;
  }),
)

started_lem : create_app library config [] ≡ some started
unfolding create_app configure_logging build_components build_exporter takes_histograms
    build_evaluation build_registry register EvaluationQueue.init Evaluators.init Dict.has Dict.get
    Dict.put
started_lem = ground (arith, config-accepted)

started-WellFormed : WellFormed started.worker
started-WellFormed = (create_app-WellFormed library config [] started started_lem).0

abbrev idle : System
idle = record { collector = started; phase = running }

abbrev asked : System
asked = record {
  collector = (ingest_telemetry outside (request "shop") started).1;
  phase = running;
}

abbrev served : System
served = record {
  collector = record asked.collector {
    worker = (run_round outside asked.collector.settings asked.collector.worker).1;
  };
  phase = (run_round outside asked.collector.settings asked.collector.worker).0;
}

create_app-Reach_example : WellFormed served.collector.worker
create_app-Reach_example =
    create_app-Reach outside host library config [] started served started_lem (
      step idle asked served (telemetry (request "shop") idle)
        (step asked served served (round asked.collector) (here served)))

ingest_telemetry_lem_example :
    Answered outside (request "shop") started (ingest_telemetry outside (request "shop") started)
ingest_telemetry_lem_example =
    ingest_telemetry_lem outside (request "shop") started started-WellFormed.queue

-- A payload with something that is no object among its spans.
abbrev odd_request : Request
odd_request = record (request "shop") {
  payload = object none none none (some (some span ∷ none ∷ []));
}

-- It is a server error and leaves the server as it was.
odd_request_crash : ingest_telemetry outside odd_request started ≡ (server_error, started)
unfolding ingest_telemetry telemetry_batch refusal objects
odd_request_crash = refl

abbrev batch : String → List Span → Batch
batch service spans = record { service = service; env = "prod"; version = "1"; spans = spans }

-- A worker with a batch, a stop signal and one more batch.
abbrev waiting : Ingestion
waiting = record (build_worker config none none) {
  queue = record {
    maxsize = 3;
    items = batch "shop" (span ∷ []) ∷ batch "__stop__" [] ∷ batch "late" (span ∷ []) ∷ [];
  };
}

abbrev settings : Settings
settings = build_settings library config

run_rounds-process_each_example :
    (run_rounds outside settings 1 waiting ≡ (
      running,
      process_each outside settings
          (batch "shop" (span ∷ []) ∷ [])
          (batch "__stop__" [] ∷ batch "late" (span ∷ []) ∷ [])
          waiting,
    ))
    × ((run_rounds outside settings 1 waiting).1.queue.items
        ≡ batch "__stop__" [] ∷ batch "late" (span ∷ []) ∷ [])
run_rounds-process_each_example =
    run_rounds-process_each outside settings (batch "shop" (span ∷ []) ∷ [])
      (batch "__stop__" [] ∷ batch "late" (span ∷ []) ∷ []) waiting refl (refl, tt)

run_rounds-stopped_example :
    ((run_rounds outside settings 2 waiting).0 ≡ stopped)
    × ((run_rounds outside settings 2 waiting).1.queue.items ≡ [])
unfolding should_store build_settings
run_rounds-stopped_example =
    run_rounds-stopped outside settings (batch "shop" (span ∷ []) ∷ [])
      (batch "late" (span ∷ []) ∷ []) (batch "__stop__" []) waiting refl (refl, tt) refl
      (((λ draw. refl), tt), tt)

abbrev halted : System
halted = record { collector = started; phase = stopped }

abbrev halted_asked : System
halted_asked = record {
  collector = (ingest_telemetry outside (request "shop") started).1;
  phase = stopped;
}

Reach-stopped_example : (stopped ≡ stopped) × Idle started.worker halted_asked.collector.worker
Reach-stopped_example =
    Reach-stopped outside host halted halted_asked refl (
      step halted halted_asked halted_asked (telemetry (request "shop") halted) (here halted_asked))

-- A body whose value the loader cannot use, and the file that it leaves.
abbrev broken : List (String × Dict Setting)
broken = ("limits", ("max_traces", text "many") ∷ []) ∷ []

abbrev broken_file : File
broken_file = ("limits", some (("max_traces", text "many") ∷ [])) ∷ []

abbrev broken_body : Body
broken_body = sections (("limits", some (("max_traces", text "many") ∷ [])) ∷ [])

update_config-Allowed_example :
    SameParts started (update_config host broken_body started).1
    × Allowed host
        (update_config host broken_body started).0
        started
        (update_config host broken_body started).1
update_config-Allowed_example = update_config-Allowed host broken_body started

abbrev reading : Host
reading = record { outside = host.outside; yaml = []; variable_set = true }

broken-failed : (write_config reading broken started).0 ≡ failed
unfolding write_config reload_config new_config components merge load_config load_server load_limits
    Loading.get file_value env Dict.get Dict.put
broken-failed = refl

reload_config-write_config_example :
    ((write_config reading broken started).1.overrides ≡ broken_file)
    × (reload_config reading (write_config reading broken started).1
        ≡ (failed, (write_config reading broken started).1))
unfolding components merge Dict.get Dict.put
reload_config-write_config_example =
    reload_config-write_config reading broken started (write_config reading broken started).1
      broken_file refl broken-failed refl

abbrev smaller : Body
smaller = sections (("limits", some (("max_traces", int (pos 5)) ∷ [])) ∷ [])

smaller-ok : (update_config host smaller started).0 ≡ ok
unfolding update_config update_sections write_config reload_config new_config merge Dict.get
    Dict.put components load_config load_server load_limits load_trace_store load_exporter
    load_multi_tenant load_sampling load_backpressure load_rate_limit load_exemplars load_shutdown
    load_logging load_redaction load_evaluation load_sre load_histograms Loading.get
    Loading.get_float file_value env validate_config check_histograms check_limits check_sampling
    check_backpressure check_rate_limit check_trace_store check_shutdown check_logging
    check_redaction check_evaluation check_sre
smaller-ok = refl

stop-empties_example :
    ((stop outside settings (some running) waiting).queue.items ≡ [])
    × ((stop outside settings (some stopped) waiting).queue.items ≡ (
        if Queue.full waiting.queue
        then waiting.queue.items
        else waiting.queue.items ++ stop_batch ∷ []))
unfolding should_store build_settings
stop-empties_example =
    stop-empties outside settings waiting (((λ draw. refl), tt), (tt, (((λ draw. refl), tt), tt)))
