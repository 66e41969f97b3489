-- ===== src/Llm.antt =====
-- `@llm` of src/rastir/decorators.py: what it reads from the arguments and the response. The
-- wrappers are in Llm/Wrappers. Costs are as in Pricing; a rate is in millionths. What
-- `_extract_model_from_object` finds in an argument is a function on objects.
pub mod Texts
pub mod Chunks
pub mod Wrappers
pub mod Metadata
pub mod Streams
use Prim.Native.String.{◌++◌ as append}
use rastir.Base.{
  ℕ, ◌+◌, ◌-◌, String, Bool, true, false, not, ◌&&◌, ◌||◌, Option, none, some, List, [], ◌∷◌,
  str_eq, if◌then◌else◌,
}
use rastir.Dict
use rastir.Dict.{Dict, is_some}
use rastir.Span.{Value, flag, num, text, texts, truthy}
use rastir.SpanRecord.{SpanRecord, set_attribute}
use rastir.Tracing.{Client, mark_text}
use rastir.Adapters.{
  Adapter, AdapterResult, RequestMetadata, TokenDelta, or_else, is_known, resolve_with,
  stream_delta, request_metadata,
}
use rastir.Objects.{
  Object, Items, Fields, null, string, sequence, dictionary, no_items, item, getattr, hasattr,
  get_key, is_none, is_true, text_of, first_item,
}
use rastir.Providers.{model_text, values_of}
use rastir.Pricing
use rastir.ClientConfig.Settings.{GlobalConfig}

-- the arguments of the decorator
pub record LlmOptions : Type 0 where
  pub model : Option String
  pub provider : Option String
  pub evaluate : Bool
  pub evaluation_types : List String
  pub evaluation_sample_rate : Option ℕ
  pub evaluation_timeout_ms : Option ℕ

-- what the wrappers look up: the adapters in their order, the configuration, and the prices.
pub record Setup : Type 0 where
  pub adapters : List (Adapter Object)
  pub config : GlobalConfig
  pub pricing : Option Pricing.Registry
  pub lower : String → String
  pub model_inside : Object → Option String

-- `for k, v in attrs.items(): span.set_attribute(k, v)`
unfoldable pub set_all : Dict Value → SpanRecord → SpanRecord
set_all [] span = span
set_all ((k, v) ∷ attrs) span = set_all attrs (set_attribute k v span)

abbrev pub mark_number : String → Option ℕ → SpanRecord → SpanRecord
mark_number key none span = span
mark_number key (some n) span = set_attribute key (num n) span

abbrev pub mark_texts : String → List String → SpanRecord → SpanRecord
mark_texts key [] span = span
mark_texts key (s ∷ l) span = set_attribute key (texts (s ∷ l)) span

-- `_set_llm_base_attrs`
unfoldable pub set_base_attrs : LlmOptions → Client → SpanRecord → SpanRecord
set_base_attrs options c span =
    mark_text "agent" c.current_agent
      (mark_text "provider" options.provider (mark_text "model" options.model span))

-- `_set_evaluation_attrs`
unfoldable pub set_evaluation_attrs : LlmOptions → GlobalConfig → SpanRecord → SpanRecord
set_evaluation_attrs options config span =
    if options.evaluate
    then mark_number "evaluation_timeout_ms" options.evaluation_timeout_ms (
        mark_number "evaluation_sample_rate" options.evaluation_sample_rate (
          mark_texts "evaluation_types" options.evaluation_types
            (set_attribute "evaluation_enabled" (flag true) span)))
    else (if config.evaluation.enabled
        then set_attribute "evaluation_types" (texts config.evaluation.evaluation_types)
            (set_attribute "evaluation_enabled" (flag true) span)
        else span)

abbrev pub is_truthy : Option Value → Bool
is_truthy none = false
is_truthy (some v) = truthy v

-- `span.attributes.get("evaluation_enabled")`
unfoldable pub is_evaluated : SpanRecord → Bool
is_evaluated span = is_truthy (Dict.get "evaluation_enabled" span.attributes)

-- the first of the keywords that holds a text
abbrev pub keyword_model : List String → Dict Object → Option String
keyword_model [] kwargs = none
keyword_model (key ∷ keys) kwargs =
    or_else (model_text (Dict.get key kwargs)) (keyword_model keys kwargs)

abbrev pub first_inside : (Object → Option String) → List Object → Option String
first_inside look [] = none
first_inside look (x ∷ l) = or_else (look x) (first_inside look l)

abbrev pub as_metadata : Option String → Option RequestMetadata
as_metadata none = none
as_metadata (some model) =
    some (record { span_attributes = ("model", text model) ∷ []; extra_attributes = [] })

-- `_scan_common_model_kwargs`
unfoldable pub scan_common_model_kwargs :
    (Object → Option String) → Dict Object → Option RequestMetadata
scan_common_model_kwargs look kwargs = as_metadata (
    or_else (keyword_model ("model" ∷ "model_id" ∷ "modelId" ∷ "model_name" ∷ []) kwargs)
      (first_inside look (values_of kwargs)))

-- `resolve_request`; without adapters there is no scan.
unfoldable pub resolve_request : Setup → List Object → Dict Object → Option RequestMetadata
unfolding request_metadata scan_common_model_kwargs
resolve_request setup args kwargs = elim setup.adapters [
  | [] ↦ none
  | a ∷ l ↦
      or_else (request_metadata setup.adapters args kwargs)
        (scan_common_model_kwargs setup.model_inside kwargs)
]

abbrev pub apply_metadata : Option RequestMetadata → SpanRecord → SpanRecord
apply_metadata none span = span
apply_metadata (some meta) span = set_all meta.extra_attributes (set_all meta.span_attributes span)

-- `_extract_request_metadata`
unfoldable pub extract_request_metadata :
    Setup → List Object → Dict Object → SpanRecord → SpanRecord
unfolding resolve_request set_all
extract_request_metadata setup args kwargs span =
    apply_metadata (resolve_request setup args kwargs) span

-- the value of the response if it is concrete, else what is there, else `unknown`
unfoldable pub upgrade : String → Option String → SpanRecord → SpanRecord
upgrade key found span =
    if is_known found
    then mark_text key found span
    else (if Dict.has key span.attributes then span else set_attribute key (text "unknown") span)

abbrev pub ensure_known : String → SpanRecord → SpanRecord
ensure_known key span =
    if Dict.has key span.attributes then span else set_attribute key (text "unknown") span

-- the span with what an adapter has found in the response
unfoldable pub apply_result : AdapterResult Object → SpanRecord → SpanRecord
unfolding upgrade set_all
apply_result result span = set_all result.extra_attributes (
    mark_text "finish_reason" result.finish_reason (
      mark_number "tokens_output" result.tokens_output (
        mark_number "tokens_input" result.tokens_input
          (upgrade "provider" result.provider (upgrade "model" result.model span)))))

abbrev pub apply_resolved : Option (AdapterResult Object) → SpanRecord → SpanRecord
apply_resolved none span = span
apply_resolved (some result) span = apply_result result span

-- `_extract_llm_metadata`
unfoldable pub extract_llm_metadata : Setup → Object → SpanRecord → SpanRecord
unfolding apply_result resolve_with
extract_llm_metadata setup x span =
    ensure_known "provider"
      (ensure_known "model" (apply_resolved (resolve_with setup.adapters x) span))

abbrev pub number_at : String → SpanRecord → ℕ
number_at key span = elim (Dict.get key span.attributes) [ some (num n) ↦ n | _ ↦ 0 ]

abbrev pub or_zero : Option ℕ → ℕ
or_zero none = 0
or_zero (some n) = n

-- The text of an attribute. The context keeps texts only: of a model or a provider that is set to
-- something else, the code keeps the value, and here the context has none.
abbrev pub name_value : Option Value → Option String
name_value (some (text s)) = some s
name_value _ = none

abbrev pub name_or_unknown : Option Value → String
name_or_unknown (some (text s)) = s
name_or_unknown _ = "unknown"

abbrev pub if_not_empty : Option String → Option String → Option String
if_not_empty none old = old
if_not_empty (some s) old = if str_eq s "" then old else some s

-- `_propagate_model_provider_to_context`
unfoldable pub propagate_to_context : SpanRecord → Client → Client
propagate_to_context span c = record c {
  current_model = if_not_empty (name_value (Dict.get "model" span.attributes)) c.current_model;
  current_provider =
      if_not_empty (name_value (Dict.get "provider" span.attributes)) c.current_provider;
}

-- the three attributes of a cost
abbrev pub set_cost : String → ℕ × Bool → SpanRecord → SpanRecord
set_cost profile (cost, missing) span =
    set_attribute "pricing_profile" (text profile)
      (set_attribute "pricing_missing" (flag missing) (set_attribute "cost_usd" (num cost) span))

abbrev pub cost_for : Setup → SpanRecord → ℕ × Bool
cost_for setup span = elim setup.pricing [
  | none ↦ (0, true)
  | some registry ↦
      Pricing.calculate_cost setup.lower (name_or_unknown (Dict.get "provider" span.attributes))
        (name_or_unknown (Dict.get "model" span.attributes)) (number_at "tokens_input" span)
        (number_at "tokens_output" span) registry
]

-- `_calculate_and_set_cost`
unfoldable pub calculate_and_set_cost : Setup → SpanRecord → SpanRecord
unfolding Pricing.calculate_cost
calculate_and_set_cost setup span =
    if setup.config.cost.enabled
    then set_cost setup.config.cost.pricing_profile (cost_for setup span) span
    else span

-- `_finalize_llm_span`: the span, and the context that it leaves
unfoldable pub finalize_llm_span : Setup → SpanRecord → Client → SpanRecord × Client
unfolding calculate_and_set_cost
finalize_llm_span setup span c =
    let named = ensure_known "provider" (ensure_known "model" span) in
    (
      calculate_and_set_cost setup named,
      record c {
        current_model = name_value (Dict.get "model" named.attributes);
        current_provider = name_value (Dict.get "provider" named.attributes);
      },
    )
