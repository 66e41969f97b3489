-- ===== src/Providers/Utilities.antt =====
-- src/rastir/adapters/retrieval.py, tool.py and fallback.py, and `detect_provider_from_module` of
-- src/rastir/adapters/types.py.
use rastir.Base.{
  ℕ, suc, String, Bool, true, false, ◌||◌, Option, none, some, List, [], ◌∷◌, if◌then◌else◌,
}
use rastir.Dict.{Dict}
use rastir.Span.{Value, num}
use rastir.Text.{text_length}
use rastir.Adapters.{Adapter, base_adapter, no_result}
use rastir.Objects.{
  Object, string, sequence, dictionary, Fields, no_fields, field, getattr, hasattr, is_none,
  item_count, starts_with,
}

unfoldable pub field_count : Fields → ℕ
field_count no_fields = 0
field_count (field k x rest) = suc (field_count rest)

-- `len(x)`, or `none` for a TypeError. Instances of classes have no length here.
unfoldable pub length_of : Object → Option ℕ
unfolding item_count field_count
length_of (sequence l) = some (item_count l)
length_of (string s) = some (text_length s)
length_of (dictionary d) = some (field_count d)
length_of x = none

abbrev pub is_sequence : Object → Bool
is_sequence (sequence l) = true
is_sequence x = false

-- `_extract_count`
unfoldable pub extract_count : Object → Option ℕ
unfolding length_of
extract_count x =
    if is_sequence x
    then length_of x
    else (if is_none (getattr x "documents")
        then (if hasattr x "page_content" then some 1 else none)
        else length_of (getattr x "documents"))

abbrev pub count_attribute : Option ℕ → Dict Value
count_attribute none = []
count_attribute (some n) = ("retrieved_documents_count", num n) ∷ []

abbrev pub retrieval : Adapter Object
retrieval = record base_adapter {
  name = "retrieval";
  kind = "provider";
  priority = 50;
  can_handle = λ x. is_sequence x || hasattr x "documents" || hasattr x "page_content";
  transform = λ x. some (record no_result { extra_attributes = count_attribute (extract_count x) });
}

abbrev pub tool_adapter : Adapter Object
tool_adapter = record base_adapter { name = "tool"; kind = "provider"; priority = 10 }

abbrev pub fallback_adapter : Adapter Object
fallback_adapter = record base_adapter {
  name = "fallback";
  kind = "fallback";
  priority = 0;
  can_handle = λ x. true;
  transform = λ x. some (record no_result { model = some "unknown"; provider = some "unknown" });
}

-- `_MODULE_PROVIDER_MAP`
abbrev pub module_providers : List (String × String)
module_providers =
    ("langchain_openai", "openai")
    ∷ ("langchain_anthropic", "anthropic")
    ∷ ("langchain_aws", "bedrock")
    ∷ ("langchain_google", "gemini")
    ∷ ("langchain_groq", "groq")
    ∷ ("langchain_mistralai", "mistral")
    ∷ ("langchain_cohere", "cohere")
    ∷ ("crewai.llms.providers.openai", "openai")
    ∷ ("crewai.llms.providers.anthropic", "anthropic")
    ∷ ("crewai.llms.providers.gemini", "gemini")
    ∷ ("crewai.llms.providers.groq", "groq")
    ∷ ("llama_index.llms.openai", "openai")
    ∷ ("llama_index.llms.anthropic", "anthropic")
    ∷ ("llama_index.llms.gemini", "gemini")
    ∷ ("llama_index.llms.azure_openai", "azure")
    ∷ ("llama_index.llms.bedrock", "bedrock")
    ∷ ("llama_index.llms.mistral", "mistral")
    ∷ ("llama_index.llms.groq", "groq")
    ∷ ("llama_index.llms.cohere", "cohere")
    ∷ ("strands.models.bedrock", "bedrock")
    ∷ ("strands.models.openai", "openai")
    ∷ ("strands.models.anthropic", "anthropic")
    ∷ ("strands.models.gemini", "gemini")
    ∷ ("strands.models.mistral", "mistral")
    ∷ ("strands.models.ollama", "ollama")
    ∷ ("strands.models.sagemaker", "bedrock")
    ∷ ("strands.models.litellm", "litellm")
    ∷ ("openai", "openai")
    ∷ ("anthropic", "anthropic")
    ∷ ("google.genai", "gemini")
    ∷ ("google.generativeai", "gemini")
    ∷ ("groq", "groq")
    ∷ ("mistralai", "mistral")
    ∷ ("cohere", "cohere")
    ∷ []

-- the first prefix that fits
unfoldable pub provider_in : List (String × String) → String → String
provider_in [] module_name = "unknown"
provider_in ((prefix, provider) ∷ rest) module_name =
    let later = provider_in rest module_name in
    if starts_with prefix module_name then provider else later

unfoldable pub detect_provider_from_module : String → String
unfolding provider_in
detect_provider_from_module module_name = provider_in module_providers module_name
