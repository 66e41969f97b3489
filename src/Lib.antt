-- ===== src/Lib.antt =====
-- Rastir: observability for language-model agents. A client library records spans around calls and
-- sends them to a collector server, which derives Prometheus metrics from them, samples and redacts
-- them, keeps recent traces in memory, forwards spans to an exporter and queues spans for
-- evaluation.
--
-- The parts and the files that model them:
-- - SpanRecord (src/rastir/spans.py): a span on the client, its times, anchored to the root of its
--   trace, and the dictionary that is sent, which is the record of Span.
-- - Tracing (src/rastir/context.py and src/rastir/decorators.py): the active span, and the wrappers
--   of `@trace`, `@agent` and `@metric` around a function that may call decorated functions.
-- - ClientConfig (src/rastir/config.py): how a setting is resolved in ClientConfig/Settings,
--   `configure`, `get_config` and `reset_config` in ClientConfig.
-- - Remote (src/rastir/remote.py): trace contexts across processes: the header `traceparent`, the
--   proxy's `call_tool`, the middleware and `@mcp_endpoint`.
-- - Adapters (src/rastir/adapters/registry.py): which adapter reads the result of a call. Its order
--   is in Adapters/Sorting, its choice in Adapters/Choice.
-- - Objects and Providers (the other files of src/rastir/adapters): Python objects as the adapters
--   see them, and the adapters of the providers.
-- - Llm (src/rastir/decorators.py): `@llm`: metadata of requests and responses and costs in Llm,
--   chunks of streams in Llm/Chunks, texts for evaluation in Llm/Texts, the wrappers in
--   Llm/Wrappers. Retrieval is `@retrieval`.
-- - Pricing (src/rastir/pricing.py): the table of prices on the client.
-- - SpanQueue (src/rastir/queue.py) on Queue, which models the bounded queues of Python: the buffer
--   between the decorators and the exporter. The module's queue is passed as a value.
-- - Transport (src/rastir/transport.py): `send_batch` with its retries, and the flushes. The
--   answers of the network are a function on the number of posts made before.
-- - Ingestion (src/rastir/server/ingestion.py): the worker of the server. Ingestion holds `enqueue`
--   with its backpressure and the gauges, Ingestion/Process the body of `_process_batch`, whose
--   parts are one function each: record_span, redact_with, store_span, export_span, evaluate_span.
--   Ingestion/Loop is `_run`, one round at a time, Ingestion/Drain its last loop and
--   Ingestion/Shutdown `stop`.
-- - Sampling (part of the same file): `_should_store`.
-- - Metrics (src/rastir/server/metrics.py): `record_span` in Metrics/RecordSpan, its part for `llm`
--   spans in Metrics/LlmSpan, what they share in Metrics/Labels. Each call of a Prometheus metric
--   is kept as a sample in a log.
-- - Otlp (src/rastir/server/otlp_exporter.py): `export_span` with the conversion of a span for the
--   OpenTelemetry SDK, its fields in Otlp/Fields. Ingestion takes whether this call goes through as
--   a parameter.
-- - Redaction (src/rastir/server/redaction.py): the redactors and `redact_span`.
-- - TraceStore (src/rastir/server/trace_store.py): the bounded table of recent traces.
-- - EvaluationQueue (src/rastir/server/evaluation_queue.py): tasks for the evaluators.
-- - RateLimiter (src/rastir/server/rate_limiter.py): requests per minute by address and service.
-- - Config (src/rastir/server/config.py): the sections in Config, `_get` and the other look-ups in
--   Config/Loading, `load_config` in Config/Sections, `validate_config` in Config/Validation, what
--   it accepts in Config/Ranges, the merge of runtime overrides (src/rastir/server/app.py) in
--   Config/Overrides.
-- - Evaluators (src/rastir/server/evaluators/registry.py): the bounded table of evaluators.
-- - EvaluationWorker (src/rastir/server/evaluation_worker.py): a task of the evaluation queue is
--   handed to its evaluators, and the spans of the results go back to Ingestion.
-- - Collector (src/rastir/server/app.py): `create_app` and the factories of the parts in Collector,
--   the routes for telemetry, metrics and traces in Collector/Routes, what a request for telemetry
--   asks for in Collector/Requests, the routes for the configuration in Collector/Admin.
--   Collector/Runs puts requests, rounds of the consumer (Ingestion/Loop) and evaluations together
--   as a step relation.
-- - Dict is Python's ordered dictionary with text keys, Text its texts, Text/Hex `int(s, 16)`, Exec
--   code that changes a state and may raise (what was changed before an exception stays), Base the
--   shared names.
--
-- The worker takes the trace store, the metrics, the redactor and the evaluation queue as parts of
-- its state and settings and calls their operations; the trace store and the queues know nothing of
-- it.
--
-- Numbers: counters and sizes are natural numbers. Times are whole ticks (nanoseconds, but
-- milliseconds in Transport, microseconds in ClientConfig), rates and random draws are millionths,
-- where the code has floats. Subtractions of the code that can go below zero are written so that
-- they do not, or stop at zero where a comment says so. Clocks, random draws and the answers of the
-- network, of the exporter's library and of regular expressions are parameters; a call that may
-- answer differently the next time takes the number of calls before it.
--
-- Fuel: `flush_loop` runs on fuel; `flush_all` gives it one more than the spans in the queue, and
-- each round but the last takes at least one. `unwrap` has the code's own bound of 5 rounds.
-- `drain_loop` has the batches in the queue as fuel, and each round takes one. The loops of
-- `send_batch`, of the eviction and of the queries are structural.
--
-- Settings that may be below zero are whole numbers (Base/Integers). A setting of a wrong type makes
-- the loading fail in the model; the code fails where it uses the value.
--
-- Not modelled: threads and locks (each locked method is one step), the asyncio task around the
-- worker, start and shutdown of the server around the workers, the JSON of answers, reading and
-- writing of files, the parsing of bucket lists, redaction patterns and agents in the
-- configuration, rendering of metrics, start and flush of the OpenTelemetry exporter, the framework
-- integrations and their adapters, the adapter of Bedrock, the generic wrapper, the built-in
-- evaluators, the command line, log lines.
pub mod Base
pub mod Dict
pub mod Span
pub mod TraceStore
pub mod Queue
pub mod EvaluationQueue
pub mod RateLimiter
pub mod SpanRecord
pub mod SpanQueue
pub mod Transport
pub mod Exec
pub mod Text
pub mod Metrics
pub mod Sampling
pub mod Redaction
pub mod Ingestion
pub mod Tracing
pub mod Pricing
pub mod Remote
pub mod Otlp
pub mod ClientConfig
pub mod Llm
pub mod Retrieval
pub mod Config
pub mod Evaluators
pub mod EvaluationWorker
pub mod Adapters
pub mod Objects
pub mod Providers
pub mod Collector
pub mod Tests
