-- ===== src/Metrics/LlmSpan.antt =====
-- The part of `record_span` of src/rastir/server/metrics.py for `llm` spans, in the order of its
-- body.
use rastir.Base.{
  ℕ, ◌+◌, String, Bool, false, not, ◌&&◌, Option, none, some, [], ◌∷◌, ◌++◌, ltb, str_eq,
}
use rastir.Dict
use rastir.Dict.{Dict}
use rastir.Exec.{Exec, pure, lift, when, ◌>>=◌, ◌>>◌}
use rastir.Span.{Value, null, num, text, truthy}
use rastir.Metrics.{Metrics, inc, observe}
use rastir.Metrics.Labels.{
  Labels, as_amount, as_number, attr_or, pricing_profile, guardrail_id, guard_value, emit,
  valid_guardrail_categories, valid_guardrail_actions, one_of, Labelled, labels_of, short_labels_of,
}

-- the token counters
unfoldable pub record_tokens : Labelled → Dict Value → Exec Metrics (Unit {0})
unfolding emit
record_tokens l attrs = do
  tokens_in ← lift (as_amount (attr_or (num 0) (Dict.get "tokens_input" attrs)))
  when (ltb 0 tokens_in) (emit "rastir_tokens_input_total" (labels_of l) (inc tokens_in) none)
  tokens_out ← lift (as_amount (attr_or (num 0) (Dict.get "tokens_output" attrs)))
  when (ltb 0 tokens_out) (emit "rastir_tokens_output_total" (labels_of l) (inc tokens_out) none)
  when (ltb 0 (tokens_in + tokens_out))
      (emit "rastir_tokens_per_call" (short_labels_of l) (observe (tokens_in + tokens_out)) none)

-- a number that may be absent or null
unfoldable pub optional_number : Option Value → Exec Metrics (Option ℕ)
optional_number none = pure none
optional_number (some null) = pure none
optional_number (some v) = do n ← lift (as_number v); pure (some n)

unfoldable pub record_cost : Labelled → Dict Value → Option ℕ → Exec Metrics (Unit {0})
unfolding guard_value emit
record_cost l attrs none = pure tt
record_cost l attrs (some cost) = when (ltb 0 cost) (do
  profile ←
      guard_value pricing_profile (attr_or (text "default") (Dict.get "pricing_profile" attrs))
  emit "rastir_cost_total" (labels_of l ++ ("pricing_profile", profile) ∷ []) (inc cost) none
  emit "rastir_cost_per_call_usd" (l.base ++ ("model", l.model_label) ∷ []) (observe cost) none)

unfoldable pub record_ttft : Labelled → Option ℕ → Exec Metrics (Unit {0})
unfolding emit
record_ttft l none = pure tt
record_ttft l (some ttft) = emit "rastir_ttft_seconds" (short_labels_of l) (observe ttft) none

abbrev pub guardrail_labels_of : Labelled → Labels
guardrail_labels_of l =
    l.base
    ++ ("provider", l.provider_label) ∷ ("model", l.model_label) ∷ ("agent", l.agent_label) ∷ []

-- `!= "NONE"`, of a value
abbrev pub is_none_text : Value → Bool
is_none_text (text s) = str_eq s "NONE"
is_none_text v = false

-- Python's `str` of a value is the parameter `show`.
module _ (show : Value → String) where
  unfoldable pub record_guardrail_request : Labelled → Dict Value → Exec Metrics (Unit {0})
  unfolding guard_value emit
  record_guardrail_request l attrs =
      let id = attr_or null (Dict.get "guardrail_id" attrs) in
      when (truthy id) (do
        safe ← guard_value guardrail_id id
        emit "rastir_guardrail_requests_total"
            (guardrail_labels_of l
              ++ ("guardrail_id", safe)
                ∷ (
                  "guardrail_version",
                  show (attr_or (text "") (Dict.get "guardrail_version" attrs)),
                )
                ∷ [])
            (inc 1) none)

  unfoldable pub record_guardrail_violation : Labelled → Dict Value → Exec Metrics (Unit {0})
  unfolding guard_value emit
  record_guardrail_violation l attrs =
      let action = attr_or null (Dict.get "guardrail_action" attrs) in
      when (truthy action && not (is_none_text action)) (do
        safe ← guard_value guardrail_id (attr_or (text "unknown") (Dict.get "guardrail_id" attrs))
        category ← lift (
            one_of valid_guardrail_categories
              (attr_or (text "unknown") (Dict.get "guardrail_category" attrs)))
        safe_action ← lift (one_of valid_guardrail_actions action)
        emit "rastir_guardrail_violations_total"
            (guardrail_labels_of l
              ++ ("guardrail_id", safe)
                ∷ ("guardrail_action", safe_action)
                ∷ ("guardrail_category", category)
                ∷ [])
            (inc 1) none)

  -- the branch for `llm` spans
  unfoldable pub record_llm : Labelled → Dict Value → Exec Metrics (Unit {0})
  unfolding record_tokens record_cost record_ttft optional_number record_guardrail_request
      record_guardrail_violation
  record_llm l attrs = do
    emit "rastir_llm_calls_total" (labels_of l) (inc 1) l.exemplar
    record_tokens l attrs
    cost ← optional_number (Dict.get "cost_usd" attrs)
    record_cost l attrs cost
    when (truthy (attr_or null (Dict.get "pricing_missing" attrs)))
        (emit "rastir_pricing_missing_total" (short_labels_of l) (inc 1) none)
    ttft ← optional_number (Dict.get "ttft_ms" attrs)
    record_ttft l ttft
    record_guardrail_request l attrs
    record_guardrail_violation l attrs
