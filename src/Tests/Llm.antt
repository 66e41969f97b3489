-- ===== src/Tests/Llm.antt =====
-- `@llm` and the adapters on concrete inputs.
use mathlib.Core.List.{Permᴰ}
use rastir.Base.{ℕ, ◌≤◌, ◌≡◌, refl, true, none, some, List, [], ◌∷◌}
use rastir.Dict
use rastir.Dict.{Dict}
use rastir.Span.{text, num}
use rastir.Text
use rastir.SpanRecord
use rastir.SpanRecord.{SpanRecord, set_attribute}
use rastir.Tracing.{Sources, Client}
use rastir.Adapters
use rastir.Adapters.{AdapterResult, Adapter, resolve_with, no_result, merge_framework, nothing}
use rastir.Objects.{
  Object, number, string, sequence, instance_of, no_items, item, no_fields, field, getattr, hasattr,
  find_field, contains, one_of_names, any_name,
}
use rastir.Providers.{is_class, chat_result, usage_numbers, first_reason}
use rastir.Providers.ChatCompletions.{open_ai, groq, mistral}
use rastir.Providers.OtherFormats.{anthropic, gemini, cohere, gemini_delta, is_gemini}
use rastir.Providers.Utilities.{fallback_adapter, provider_in, detect_provider_from_module}
use rastir.Objects.{starts_with}
use rastir.Providers.Disjoint.{by_class, handlers, extract-by_class}
use rastir.ClientConfig.{auto_config}
use rastir.Llm.{LlmOptions, Setup, number_at, extract_llm_metadata}
use rastir.Llm.Texts.{completion_of}
use rastir.Llm.Metadata.{settled, extract_llm_metadata-settled}
use rastir.Llm.Streams.{all_mode, deltas, total_of, consume-total_of}
use rastir.Llm.Wrappers.{CallOutcome, returned, Stream, yields, closed_at, consume, llm_call}
use rastir.Llm.Wrappers.Recorded.{Recorded, error_of, after_func, llm_call-Recorded}
use rastir.Tests.ClientConfig.{outside}

abbrev usage : Object
usage =
    instance_of "CompletionUsage" "openai.types"
      (field "prompt_tokens" (number 12) (field "completion_tokens" (number 5) no_fields))

abbrev choice : Object
choice = instance_of "Choice" "openai.types" (
    field "finish_reason" (string "stop") (
      field "message"
        (instance_of "Message" "openai.types" (field "content" (string "hello") no_fields))
        no_fields))

abbrev completion : Object
completion = instance_of "ChatCompletion" "openai.types.chat" (
    field "model" (string "gpt-4o")
      (field "usage" usage (field "choices" (sequence (item choice no_items)) no_fields)))

abbrev chunk : ℕ → Object
chunk total = instance_of "GenerateContentResponse" "google.genai.types" (
    field "usage_metadata"
      (instance_of "UsageMetadata" "google.genai.types" (
        field "prompt_token_count" (number 7)
          (field "candidates_token_count" (number total) no_fields)))
      no_fields)

abbrev adapters : List (Adapter Object)
adapters = groq ∷ open_ai ∷ anthropic ∷ gemini ∷ fallback_adapter ∷ []

abbrev setup : Setup
setup = record {
  adapters = adapters;
  config = auto_config outside;
  pricing = none;
  lower = λ s. s;
  model_inside = λ x. none;
}

abbrev found : AdapterResult Object
found = record no_result {
  model = some "gpt-4o";
  provider = some "openai";
  tokens_input = some 12;
  tokens_output = some 5;
  finish_reason = some "stop";
}

completion_text : completion_of completion ≡ some "hello"
unfolding completion_of getattr hasattr find_field
completion_text = refl

provider_of_module : detect_provider_from_module "langchain_openai.chat_models" ≡ "openai"
unfolding detect_provider_from_module provider_in starts_with Text.codes Text.is_prefix
provider_of_module = refl

abbrev other_order : List (Adapter Object)
other_order = open_ai ∷ groq ∷ anthropic ∷ gemini ∷ cohere ∷ mistral ∷ []

extract-by_class_example :
    (handlers other_order completion ≤ 1)
    × (Adapters.extract "provider" other_order completion
        ≡ Adapters.extract "provider" by_class completion)
extract-by_class_example = extract-by_class other_order completion (Permᴰ.swap refl refl)

completion-found : resolve_with adapters completion ≡ some found
unfolding resolve_with Adapters.unwrap Adapters.unwrap_once Adapters.extract merge_framework
    is_class contains one_of_names chat_result usage_numbers first_reason getattr find_field
    Text.codes Text.is_prefix Text.occurs Adapters.fill_attrs
completion-found = refl

abbrev span : SpanRecord
span = record {
  name = "answer";
  span_type = SpanRecord.llm;
  trace_id = "1";
  span_id = "2";
  parent_id = none;
  start_time = 0;
  end_time = none;
  status = SpanRecord.ok;
  attributes = ("model", text "gpt-4") ∷ ("tokens_output", num 1) ∷ [];
  events = [];
  mono_start = 0;
}

extract_llm_metadata-settled_example :
    (Dict.get "model" (extract_llm_metadata setup completion span).attributes
      ≡ settled (some "gpt-4o") (Dict.get "model" span.attributes))
    × (Dict.get "provider" (extract_llm_metadata setup completion span).attributes
        ≡ settled (some "openai") (Dict.get "provider" span.attributes))
unfolding Dict.has Dict.get
extract_llm_metadata-settled_example =
    extract_llm_metadata-settled setup completion span found completion-found (refl, refl)

abbrev stream : Stream
stream = yields (chunk 3) (yields (chunk 8) (closed_at (chunk 9)))

stream-totals : all_mode true (deltas setup stream) ≡ true
unfolding deltas Adapters.stream_delta is_class contains one_of_names is_gemini any_name
    gemini_delta Text.codes Text.is_prefix Text.occurs usage_numbers getattr find_field
stream-totals = refl

consume-total_of_example :
    (number_at "tokens_input" (consume setup stream (span, [])).1.0
      ≡ total_of true (λ d. d.tokens_input) (deltas setup stream) (number_at "tokens_input" span))
    × (number_at "tokens_output" (consume setup stream (span, [])).1.0
        ≡ total_of true
            (λ d. d.tokens_output)
            (deltas setup stream)
            (number_at "tokens_output" span))
consume-total_of_example = consume-total_of setup true stream span [] stream-totals

abbrev options : LlmOptions
options = record {
  model = some "gpt-4";
  provider = none;
  evaluate = true;
  evaluation_types = "toxicity" ∷ [];
  evaluation_sample_rate = none;
  evaluation_timeout_ms = none;
}

abbrev sources : Sources
sources = record { id = λ n. "1"; wall = λ n. n; monotonic = λ n. n }

abbrev client : Client
client = record {
  current_span = none;
  current_agent = some "planner";
  current_model = none;
  current_provider = none;
  anchors = [];
  enqueued = [];
  calls = 0;
}

abbrev keywords : Dict Object
keywords = ("prompt", string "hi") ∷ []

abbrev func : Client → CallOutcome × Client
func c = (returned completion, c)

llm_call-Recorded_example :
    Recorded client
      (after_func setup sources options "answer" [] keywords func client).enqueued
      (error_of (llm_call setup sources options "answer" [] keywords func client).0)
      (llm_call setup sources options "answer" [] keywords func client).1
llm_call-Recorded_example = llm_call-Recorded setup sources options "answer" [] keywords func client

abbrev search : Client → CallOutcome × Client
search c = (returned (sequence (item completion no_items)), c)
