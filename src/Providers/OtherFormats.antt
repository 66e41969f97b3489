-- ===== src/Providers/OtherFormats.antt =====
-- src/rastir/adapters/anthropic.py, gemini.py and cohere.py.
use rastir.Base.{
  ℕ, String, Bool, true, false, not, ◌&&◌, ◌||◌, Option, none, some, List, [], ◌∷◌, ◌++◌, str_eq,
  if◌then◌else◌,
}
use rastir.Dict
use rastir.Dict.{Dict}
use rastir.Span.{text}
use rastir.Adapters.{
  Adapter, AdapterResult, RequestMetadata, TokenDelta, base_adapter, no_result, no_delta,
  no_metadata, or_else,
}
use rastir.Objects.{
  Object, class_name, module_of, getattr, is_none, text_of, number_of, contains, any_name,
}
use rastir.Providers.{
  is_class, usage_numbers, first_reason, enum_text, enum_reason, is_request, request_of, values_of,
  model_text, with_model,
}

unfoldable pub anthropic_result : Object → AdapterResult Object
unfolding usage_numbers
anthropic_result x =
    let (tokens_input, tokens_output) =
      usage_numbers "input_tokens" "output_tokens" (getattr x "usage") in
    record no_result {
      model = text_of (getattr x "model");
      provider = some "anthropic";
      tokens_input = tokens_input;
      tokens_output = tokens_output;
      finish_reason = text_of (getattr x "stop_reason");
    }

-- the attribute of an object that is there; `None` has no attributes either.
abbrev pub number_attr : String → Object → Option ℕ
number_attr key x = number_of (getattr x key)

-- the start event brings the message with its input tokens, the delta event the output tokens.
unfoldable pub anthropic_delta : Object → TokenDelta
unfolding getattr
anthropic_delta x =
    if str_eq (class_name x) "RawMessageStartEvent"
    then record no_delta {
      model = text_of (getattr (getattr x "message") "model");
      provider = some "anthropic";
      tokens_input = number_attr "input_tokens" (getattr (getattr x "message") "usage");
      usage_mode = some "incremental";
    }
    else (if str_eq (class_name x) "RawMessageDeltaEvent"
        then record no_delta {
          provider = some "anthropic";
          tokens_output = number_attr "output_tokens" (getattr x "usage");
          usage_mode = some "incremental";
        }
        else record no_delta { provider = some "anthropic"; usage_mode = some "incremental" })

abbrev pub anthropic : Adapter Object
anthropic = record base_adapter {
  name = "anthropic";
  kind = "provider";
  priority = 150;
  can_handle = is_class ("Message" ∷ []) "anthropic";
  transform = λ x. some (anthropic_result x);
  supports_request_metadata = true;
  can_handle_request =
      is_request ("Anthropic" ∷ "AsyncAnthropic" ∷ []) "anthropic" ("claude-" ∷ []);
  extract_request_metadata = λ args kwargs. some (request_of "anthropic" kwargs);
  can_handle_stream = is_class ("RawMessageStartEvent" ∷ "RawMessageDeltaEvent" ∷ []) "anthropic";
  extract_stream_delta = λ x. some (anthropic_delta x);
}

-- a class of one of the two packages of Gemini
unfoldable pub is_gemini : String → Object → Bool
unfolding any_name contains
is_gemini name x =
    str_eq (class_name x) name
    && any_name (λ part. contains part (module_of x)) ("google.genai" ∷ "google.generativeai" ∷ [])

unfoldable pub gemini_result : Object → AdapterResult Object
unfolding usage_numbers first_reason
gemini_result x =
    let (tokens_input, tokens_output) =
      usage_numbers "prompt_token_count" "candidates_token_count" (getattr x "usage_metadata") in
    record no_result {
      model = text_of (getattr x "model_version");
      provider = some "gemini";
      tokens_input = tokens_input;
      tokens_output = tokens_output;
      finish_reason = enum_reason "name" (first_reason (getattr x "candidates"));
    }

-- Each chunk has the totals so far.
unfoldable pub gemini_delta : Object → TokenDelta
unfolding usage_numbers
gemini_delta x =
    let (tokens_input, tokens_output) =
      usage_numbers "prompt_token_count" "candidates_token_count" (getattr x "usage_metadata") in
    record no_delta {
      model = text_of (getattr x "model_version");
      provider = some "gemini";
      tokens_input = tokens_input;
      tokens_output = tokens_output;
      usage_mode = some "cumulative";
    }

-- the first argument with a name of a model
unfoldable pub model_name_in : List Object → Option String
unfolding getattr
model_name_in [] = none
model_name_in (x ∷ l) = or_else (model_text (some (getattr x "model_name"))) (model_name_in l)

unfoldable pub gemini_request : List Object → Dict Object → RequestMetadata
unfolding model_name_in
gemini_request args kwargs = record no_metadata {
  span_attributes =
      with_model
        (or_else (model_text (Dict.get "model" kwargs)) (model_name_in (args ++ values_of kwargs)))
        (("provider", text "gemini") ∷ []);
}

abbrev pub begins_gemini : Dict Object → Bool
begins_gemini kwargs = is_request [] "" ("gemini-" ∷ "models/gemini" ∷ []) [] kwargs

abbrev pub any_gemini : List Object → Bool
any_gemini [] = false
any_gemini (x ∷ l) = is_gemini "GenerativeModel" x || any_gemini l

abbrev pub gemini : Adapter Object
gemini = record base_adapter {
  name = "gemini";
  kind = "provider";
  priority = 150;
  can_handle = is_gemini "GenerateContentResponse";
  transform = λ x. some (gemini_result x);
  supports_request_metadata = true;
  can_handle_request = λ args kwargs. any_gemini (args ++ values_of kwargs) || begins_gemini kwargs;
  extract_request_metadata = λ args kwargs. some (gemini_request args kwargs);
  can_handle_stream = is_gemini "GenerateContentResponse";
  extract_stream_delta = λ x. some (gemini_delta x);
}

-- the billed units of a response, or its tokens where these have no input
unfoldable pub cohere_numbers : Object → Option ℕ × Option ℕ
unfolding usage_numbers
cohere_numbers meta =
    let billed = getattr meta "billed_units" in
    let tokens = getattr meta "tokens" in
    if is_none (getattr billed "input_tokens") && not (is_none tokens)
    then usage_numbers "input_tokens" "output_tokens" tokens
    else usage_numbers "input_tokens" "output_tokens" billed

unfoldable pub cohere_result : Object → AdapterResult Object
unfolding cohere_numbers enum_text
cohere_result x =
    let (tokens_input, tokens_output) = cohere_numbers (getattr x "meta") in
    record no_result {
      model = text_of (getattr x "model");
      provider = some "cohere";
      tokens_input = tokens_input;
      tokens_output = tokens_output;
      finish_reason = enum_text "value" (getattr x "finish_reason");
    }

unfoldable pub cohere_delta : Object → TokenDelta
unfolding usage_numbers
cohere_delta x =
    let response = getattr x "response" in
    let (tokens_input, tokens_output) =
      usage_numbers "input_tokens" "output_tokens"
        (getattr (getattr response "meta") "billed_units") in
    record no_delta {
      model = text_of (getattr response "model");
      provider = some "cohere";
      tokens_input = tokens_input;
      tokens_output = tokens_output;
      usage_mode = some "incremental";
    }

abbrev pub cohere_chunks : List String
cohere_chunks =
    "StreamedChatResponse_TextGeneration" ∷ "StreamedChatResponse_StreamEnd" ∷ "ChatStreamEndEvent"
    ∷ "StreamEndStreamedChatResponse" ∷ []

abbrev pub cohere : Adapter Object
cohere = record base_adapter {
  name = "cohere";
  kind = "provider";
  priority = 150;
  can_handle = is_class ("ChatResponse" ∷ "NonStreamedChatResponse" ∷ []) "cohere";
  transform = λ x. some (cohere_result x);
  supports_request_metadata = true;
  can_handle_request =
      is_request ("Client" ∷ "AsyncClient" ∷ "ClientV2" ∷ []) "cohere" ("command" ∷ []);
  extract_request_metadata = λ args kwargs. some (request_of "cohere" kwargs);
  can_handle_stream = is_class cohere_chunks "cohere";
  extract_stream_delta = λ x. some (cohere_delta x);
}
