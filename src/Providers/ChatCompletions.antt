-- ===== src/Providers/ChatCompletions.antt =====
-- src/rastir/adapters/openai.py, azure_openai.py, groq.py and mistral.py.
use rastir.Base.{ℕ, String, Bool, true, false, not, ◌&&◌, ◌||◌, Option, none, some, List, [], ◌∷◌}
use rastir.Dict
use rastir.Dict.{Dict}
use rastir.Span.{Value, num}
use rastir.Adapters.{Adapter, base_adapter}
use rastir.Objects.{
  Object, Fields, no_fields, field, dictionary, module_of, getattr, number_of, contains,
  one_of_names,
}
use rastir.Providers.{
  is_class, chat_result, chat_delta, is_request, request_of, enum_reason, first_reason,
}

abbrev pub completions : List String
completions = "ChatCompletion" ∷ "Completion" ∷ []

abbrev pub open_ai : Adapter Object
open_ai = record base_adapter {
  name = "openai";
  kind = "provider";
  priority = 150;
  can_handle = is_class completions "openai";
  transform = λ x. some (chat_result "openai" x);
  supports_request_metadata = true;
  can_handle_request =
      is_request ("OpenAI" ∷ "AsyncOpenAI" ∷ []) "openai"
        ("gpt-" ∷ "o1-" ∷ "o3-" ∷ "chatgpt-" ∷ []);
  extract_request_metadata = λ args kwargs. some (request_of "openai" kwargs);
  can_handle_stream = is_class ("ChatCompletionChunk" ∷ []) "openai";
  extract_stream_delta = λ x. some (chat_delta "openai" x);
}

abbrev pub azure_headers : List String
azure_headers = "x-ms-region" ∷ "azureml-model-deployment" ∷ "x-ms-client-request-id" ∷ []

-- a header of Azure among the keys
unfoldable pub has_azure_header : Fields → Bool
unfolding one_of_names
has_azure_header no_fields = false
has_azure_header (field k x rest) = one_of_names azure_headers k || has_azure_header rest

abbrev pub in_headers : Object → Bool
in_headers (dictionary fields) = has_azure_header fields
in_headers x = false

-- `_is_azure`; the headers of a raw response are taken as a dictionary.
unfoldable pub is_azure : Object → Bool
unfolding getattr has_azure_header
is_azure x =
    in_headers (getattr (getattr x "_raw_response") "headers") || in_headers (getattr x "headers")

abbrev pub azure_open_ai : Adapter Object
azure_open_ai = record base_adapter {
  name = "azure_openai";
  kind = "provider";
  priority = 155;
  can_handle = λ x. is_class completions "openai" x && is_azure x;
  transform = λ x. some (chat_result "azure_openai" x);
  supports_request_metadata = true;
  can_handle_request = is_request ("AzureOpenAI" ∷ "AsyncAzureOpenAI" ∷ []) "openai" [];
  extract_request_metadata = λ args kwargs. some (request_of "azure_openai" kwargs);
  can_handle_stream = λ x. is_class ("ChatCompletionChunk" ∷ []) "openai" x && is_azure x;
  extract_stream_delta = λ x. some (chat_delta "azure_openai" x);
}

abbrev pub with_number : String → Option ℕ → Dict Value → Dict Value
with_number key none extra = extra
with_number key (some n) extra = Dict.put key (num n) extra

-- the times of Groq's usage, as whole numbers
unfoldable pub groq_extra : Object → Dict Value
unfolding getattr
groq_extra usage =
    with_number "groq_total_time" (number_of (getattr usage "total_time"))
      (with_number "groq_queue_time" (number_of (getattr usage "queue_time")) [])

abbrev pub outside_openai : Object → Bool
outside_openai x = not (contains "openai" (module_of x))

abbrev pub groq : Adapter Object
groq = record base_adapter {
  name = "groq";
  kind = "provider";
  priority = 152;
  can_handle = λ x. is_class completions "groq" x && outside_openai x;
  transform = λ x.
      some (record (chat_result "groq" x) { extra_attributes = groq_extra (getattr x "usage") });
  supports_request_metadata = true;
  can_handle_request = is_request ("Groq" ∷ "AsyncGroq" ∷ []) "groq" [];
  extract_request_metadata = λ args kwargs. some (request_of "groq" kwargs);
  can_handle_stream = λ x. is_class ("ChatCompletionChunk" ∷ []) "groq" x && outside_openai x;
  extract_stream_delta = λ x. some (chat_delta "groq" x);
}

abbrev pub mistral : Adapter Object
mistral = record base_adapter {
  name = "mistral";
  kind = "provider";
  priority = 150;
  can_handle = is_class ("ChatCompletionResponse" ∷ []) "mistralai";
  transform = λ x. some (record (chat_result "mistral" x) {
    finish_reason = enum_reason "value" (first_reason (getattr x "choices"));
  });
  supports_request_metadata = true;
  can_handle_request =
      is_request ("Mistral" ∷ "MistralClient" ∷ "MistralAsyncClient" ∷ []) "mistralai"
        ("mistral-" ∷ "open-mistral" ∷ "codestral" ∷ []);
  extract_request_metadata = λ args kwargs. some (request_of "mistral" kwargs);
  can_handle_stream =
      is_class ("CompletionChunk" ∷ "ChatCompletionStreamResponse" ∷ []) "mistralai";
  extract_stream_delta = λ x. some (chat_delta "mistral" x);
}
