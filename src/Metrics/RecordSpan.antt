-- ===== src/Metrics/RecordSpan.antt =====
-- `record_span` of src/rastir/server/metrics.py, part by part in the order of its body. Code that
-- raises leaves the samples that it has made.
use rastir.Base.{
  ℕ, String, Bool, not, ◌&&◌, Option, none, some, [], ◌∷◌, ◌++◌, str_eq, if◌then◌else◌,
}
use rastir.Dict
use rastir.Dict.{Dict}
use rastir.Exec.{Exec, pure, gets, when, ◌>>=◌, ◌>>◌}
use rastir.Span.{Span, Value, text}
use rastir.Metrics.{
  Metrics, inc, observe, TraceRef, clip, normalise_span_type, normalise_error_type, format_trace_id,
}
use rastir.Metrics.Labels.{
  Labels, attr_or, text_or, model, provider, tool_name, agent, error_type, guard, guard_value,
  guard_present, emit, Labelled, labels_of,
}
use rastir.Metrics.LlmSpan.{record_llm}

-- Python's `str` of a value is the parameter `show`.
module _ (show : Value → String) where
  -- the branch for `tool` spans
  unfoldable pub record_tool : Labelled → Span → Exec Metrics (Unit {0})
  unfolding guard_value guard emit
  record_tool l span = do
    tool ← guard tool_name (text_or "unknown" span.name)
    by_agent ← guard_value agent (attr_or (text "unknown") (Dict.get "agent" span.attributes))
    by_model ← guard_value model (attr_or (text "") (Dict.get "model" span.attributes))
    by_provider ← guard_value provider (attr_or (text "") (Dict.get "provider" span.attributes))
    emit "rastir_tool_calls_total"
        (l.base
          ++ ("tool_name", tool)
            ∷ ("agent", by_agent)
            ∷ ("model", by_model)
            ∷ ("provider", by_provider)
            ∷ [])
        (inc 1) l.exemplar

  -- the branch for `retrieval` spans
  unfoldable pub record_retrieval : Labelled → Dict Value → Exec Metrics (Unit {0})
  unfolding guard_value emit
  record_retrieval l attrs = do
    by_agent ← guard_value agent (attr_or (text "") (Dict.get "agent" attrs))
    by_model ← guard_value model (attr_or (text "") (Dict.get "model" attrs))
    by_provider ← guard_value provider (attr_or (text "") (Dict.get "provider" attrs))
    emit "rastir_retrieval_calls_total"
        (l.base ++ ("agent", by_agent) ∷ ("model", by_model) ∷ ("provider", by_provider) ∷ [])
        (inc 1) none

  unfoldable pub record_kind : String → Labelled → Span → Exec Metrics (Unit {0})
  unfolding record_llm record_tool record_retrieval
  record_kind span_type l span =
      if str_eq span_type "llm"
      then record_llm show l span.attributes
      else (if str_eq span_type "tool"
          then record_tool l span
          else (if str_eq span_type "retrieval"
              then record_retrieval l span.attributes
              else pure tt))

  unfoldable pub record_duration : String → Labelled → Option ℕ → Exec Metrics (Unit {0})
  unfolding emit
  record_duration span_type l none = pure tt
  record_duration span_type l (some duration) =
      emit "rastir_duration_seconds" (labels_of l ++ ("span_type", span_type) ∷ [])
        (observe duration) l.exemplar

  unfoldable pub record_error : String → Labelled → Span → Exec Metrics (Unit {0})
  unfolding guard emit
  record_error span_type l span = when (str_eq (text_or "OK" span.status) "ERROR") (do
    category ← guard error_type (normalise_error_type span)
    emit "rastir_errors_total"
        (labels_of l ++ ("span_type", span_type) ∷ ("error_type", category) ∷ []) (inc 1)
        l.exemplar)

  -- `{"trace_id": ...}` where exemplars are enabled and the span is sampled
  unfoldable pub exemplar_of : ℕ → Bool → Span → Metrics → Option TraceRef
  exemplar_of wall sampled span m =
      let trace_id = text_or "" span.trace_id in
      if m.exemplars_enabled && sampled && not (str_eq trace_id "")
      then some (format_trace_id wall trace_id span m)
      else none

  -- `record_span`, with the wall clock
  unfoldable pub record_span : ℕ → Span → String → String → Bool → Exec Metrics (Unit {0})
  unfolding guard_present guard_value emit record_duration record_error record_kind exemplar_of
  record_span wall span service env sampled = do
    max_label_len ← gets (λ m. m.max_label_len)
    exemplar ← gets (exemplar_of wall sampled span)
    let span_type = normalise_span_type (text_or "unknown" span.span_type)
    let base : Labels =
        ("service", clip max_label_len service) ∷ ("env", clip max_label_len env) ∷ []
    emit "rastir_spans_ingested_total"
        (base ++ ("span_type", span_type) ∷ ("status", text_or "OK" span.status) ∷ []) (inc 1) none
    model_label ← guard_present model (attr_or (text "") (Dict.get "model" span.attributes))
    provider_label ←
        guard_present provider (attr_or (text "") (Dict.get "provider" span.attributes))
    agent_label ← guard_value agent (attr_or (text "") (Dict.get "agent" span.attributes))
    let l : Labelled = record {
      base = base;
      model_label = model_label;
      provider_label = provider_label;
      agent_label = agent_label;
      exemplar = exemplar;
    }
    record_duration span_type l span.duration_ms
    record_error span_type l span
    record_kind span_type l span
