-- ===== src/Providers.antt =====
-- What the provider adapters of src/rastir/adapters share: the detection by class and module, the usage
-- in the form of OpenAI, and the two functions for requests. The adapters are in Providers/ChatCompletions (OpenAI, Azure
-- OpenAI, Groq, Mistral), Providers/OtherFormats (Anthropic, Gemini, Cohere) and
-- Providers/Utilities.
pub mod ChatCompletions
pub mod OtherFormats
pub mod Utilities
pub mod Disjoint
use rastir.Base.{
  ℕ, String, Bool, true, false, ◌&&◌, ◌||◌, Option, none, some, List, [], ◌∷◌, ◌++◌, map, str_eq,
  if◌then◌else◌,
}
use rastir.Dict
use rastir.Dict.{Dict}
use rastir.Span.{Value, text}
use rastir.Adapters.{AdapterResult, RequestMetadata, TokenDelta, no_result, no_delta, no_metadata}
use rastir.Objects.{
  Object, string, class_name, module_of, getattr, is_none, text_of, number_of, first_item, hasattr,
  contains, starts_with, one_of_names, any_name, any_object,
}

-- `cls_name in names and part in module`
unfoldable pub is_class : List String → String → Object → Bool
unfolding one_of_names contains
is_class names part x = one_of_names names (class_name x) && contains part (module_of x)

-- `usage.prompt_tokens` and `usage.completion_tokens`, where there is a usage
unfoldable pub usage_numbers : String → String → Object → Option ℕ × Option ℕ
unfolding getattr
usage_numbers input output usage =
    if is_none usage
    then (none, none)
    else (number_of (getattr usage input), number_of (getattr usage output))

-- the finish reason of the first choice, as it is
unfoldable pub first_reason : Object → Option Object
unfolding getattr
first_reason choices = elim (first_item choices) [
  | none ↦ none
  | some choice ↦ some (getattr choice "finish_reason")
]

abbrev pub reason_text : Option Object → Option String
reason_text none = none
reason_text (some x) = text_of x

-- `str(fr.key) if hasattr(fr, key) else str(fr)`, for texts
unfoldable pub enum_text : String → Object → Option String
unfolding getattr hasattr
enum_text key x = if hasattr x key then text_of (getattr x key) else text_of x

abbrev pub enum_reason : String → Option Object → Option String
enum_reason key none = none
enum_reason key (some x) = if is_none x then none else enum_text key x

-- `transform` for responses in the form of OpenAI
unfoldable pub chat_result : String → Object → AdapterResult Object
unfolding usage_numbers first_reason
chat_result provider x =
    let (tokens_input, tokens_output) =
      usage_numbers "prompt_tokens" "completion_tokens" (getattr x "usage") in
    record no_result {
      model = text_of (getattr x "model");
      provider = some provider;
      tokens_input = tokens_input;
      tokens_output = tokens_output;
      finish_reason = reason_text (first_reason (getattr x "choices"));
    }

-- `extract_stream_delta` for chunks in the form of OpenAI
unfoldable pub chat_delta : String → Object → TokenDelta
unfolding usage_numbers
chat_delta provider x =
    let (tokens_input, tokens_output) =
      usage_numbers "prompt_tokens" "completion_tokens" (getattr x "usage") in
    record no_delta {
      model = text_of (getattr x "model");
      provider = some provider;
      tokens_input = tokens_input;
      tokens_output = tokens_output;
      usage_mode = some "incremental";
    }

-- the values of the keyword arguments
abbrev pub values_of : Dict Object → List Object
values_of [] = []
values_of ((k, x) ∷ kwargs) = x ∷ values_of kwargs

-- A client among the arguments, or a keyword `model` that begins as the provider's models do.
unfoldable pub is_request : List String → String → List String → List Object → Dict Object → Bool
unfolding is_class any_name any_object starts_with
is_request clients part prefixes args kwargs =
    any_object (is_class clients part) (args ++ values_of kwargs)
    || elim (Dict.get "model" kwargs) [
      | none ↦ any_name (λ prefix. starts_with prefix "") prefixes
      | some x ↦ elim (text_of x) [
        | none ↦ false
        | some model ↦ any_name (λ prefix. starts_with prefix model) prefixes
      ]
    ]

-- a text that is not empty
abbrev pub model_text : Option Object → Option String
model_text none = none
model_text (some (string s)) = if str_eq s "" then none else some s
model_text (some x) = none

abbrev pub with_model : Option String → Dict Value → Dict Value
with_model none attrs = attrs
with_model (some model) attrs = Dict.put "model" (text model) attrs

-- `extract_request_metadata` of the adapters that read the keyword `model`
unfoldable pub request_of : String → Dict Object → RequestMetadata
request_of provider kwargs = record no_metadata {
  span_attributes =
      with_model (model_text (Dict.get "model" kwargs)) (("provider", text provider) ∷ []);
}
