-- ===== src/Redaction.antt =====
-- src/rastir/server/redaction.py. Python's `re` is outside: a compiled pattern with its replacement
-- is the function that `pattern.sub(replacement, text)` is, and a redactor that may raise is a
-- function into `Option`.
pub mod Texts
use rastir.Base.{
  ℕ, String, Bool, true, false, Option, none, some, List, [], ◌∷◌, ◌++◌, ltb, if◌then◌else◌,
}
use Prim.Native.String.{◌++◌ as append}
use rastir.Dict
use rastir.Dict.{Dict}
use rastir.Exec.{Exec, pure, raise, lift, modify, ◌>>=◌, ◌>>◌, finished}
use rastir.Text.{text_length, text_take}
use rastir.Span.{Span, Value, null, text}

pub record RedactionContext : Type 0 where
  pub service : String
  pub env : String
  pub model : Value
  pub provider : Value

abbrev pub Redactor : Type 0
Redactor = String → RedactionContext → Option String

unfoldable pub no_op_redactor : Redactor
no_op_redactor s context = some s

abbrev pub truncated_marker : String
truncated_marker = "[TRUNCATED]"

-- the payload guard
unfoldable pub truncate : ℕ → String → String
truncate max_text_length s =
    if ltb max_text_length (text_length s)
    then append (text_take max_text_length s) truncated_marker
    else s

-- the loop over the patterns
unfoldable pub apply_patterns : List (String → String) → String → String
apply_patterns [] s = s
apply_patterns (sub ∷ subs) s = apply_patterns subs (sub s)

-- the built-in patterns and the custom ones that compile, in order
unfoldable pub compiled :
    List (String → String) → List (Option (String → String)) → List (String → String)
compiled built_in [] = built_in
compiled built_in (none ∷ extra) = compiled built_in extra
compiled built_in (some sub ∷ extra) = compiled (built_in ++ sub ∷ []) extra

unfoldable pub regex_redactor : List (String → String) → ℕ → Redactor
unfolding apply_patterns truncate
regex_redactor patterns max_text_length s context =
    some (apply_patterns patterns (truncate max_text_length s))

-- the two `if`s on the type of an attribute, and the call
unfoldable pub redact_value :
    Redactor → RedactionContext → String → Option Value → Exec Span (Unit {0})
redact_value redactor context key (some (text s)) = do
  redacted ← lift (redactor s context)
  modify (λ sp. record sp { attributes = Dict.put key (text redacted) sp.attributes })
redact_value redactor context key v = pure tt

unfoldable pub redact_attribute : Redactor → RedactionContext → String → Exec Span (Unit {0})
unfolding redact_value
redact_attribute redactor context key span =
    redact_value redactor context key (Dict.get key span.attributes) span

-- `attrs.get(key)`
abbrev pub attribute : String → Span → Value
attribute key span = elim (Dict.get key span.attributes) [ none ↦ null | some v ↦ v ]

abbrev pub context_of : String → String → Span → RedactionContext
context_of service env span = record {
  service = service;
  env = env;
  model = attribute "model" span;
  provider = attribute "provider" span;
}

unfoldable pub redact_both : Redactor → RedactionContext → Exec Span (Unit {0})
unfolding redact_attribute
redact_both redactor context = do
  redact_attribute redactor context "prompt_text"
  redact_attribute redactor context "completion_text"

-- `redact_span`: whether it went through, and the span as it was changed in place.
unfoldable pub redact_span : Redactor → String → String → Span → Bool × Span
unfolding redact_both
redact_span redactor service env span =
    let (r, span') = redact_both redactor (context_of service env span) span in (finished r, span')
