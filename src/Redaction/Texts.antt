-- ===== src/Redaction/Texts.antt =====
-- What `redact_span` leaves in the span.
use rastir.Base.{
  String, ◌≡◌, refl, true, false, Option, none, some, arith, str_eq, eq_iff, if◌then◌else◌,
}
use rastir.Dict
use rastir.Dict.{Dict}
use rastir.Dict.Laws.{get-put}
use rastir.Span.{Span, Value, null, flag, num, text, texts}
use rastir.Redaction.{
  Redactor, RedactionContext, context_of, redact_value, redact_attribute, redact_both, redact_span,
}

abbrev pub redacted_text : Option String → Option (Option Value)
redacted_text none = none
redacted_text (some t) = some (some (text t))

-- A text attribute as a redactor hands it on; any other value is left alone.
abbrev pub redacted_value : Redactor → RedactionContext → Option Value → Option (Option Value)
redacted_value redactor context (some (text s)) = redacted_text (redactor s context)
redacted_value redactor context v = some v

redact_value_lem :
    (redactor : Redactor) (context : RedactionContext) (key : String) (span : Span)
    (o v : Option Value)
    → Dict.get key span.attributes ≡ o
    → redacted_value redactor context o ≡ some v
    → ((redact_value redactor context key o span).0 ≡ some tt)
      × ((j : String)
          → Dict.get j (redact_value redactor context key o span).1.attributes
            ≡ (if str_eq key j then v else Dict.get j span.attributes))
unfolding redact_value
redact_value_lem redactor context key span none v e h = (refl, λ j. ground (arith, eq_iff key j))
redact_value_lem redactor context key span (some null) v e h =
    (refl, λ j. ground (arith, eq_iff key j))
redact_value_lem redactor context key span (some (flag b)) v e h =
    (refl, λ j. ground (arith, eq_iff key j))
redact_value_lem redactor context key span (some (num n)) v e h =
    (refl, λ j. ground (arith, eq_iff key j))
redact_value_lem redactor context key span (some (texts l)) v e h =
    (refl, λ j. ground (arith, eq_iff key j))
redact_value_lem redactor context key span (some (text s)) v e h =
    from_text (redactor s context) refl
  where
    from_text :
        (t : Option String)
        → redactor s context ≡ t
        → ((redact_value redactor context key (some (text s)) span).0 ≡ some tt)
          × ((j : String)
              → Dict.get j (redact_value redactor context key (some (text s)) span).1.attributes
                ≡ (if str_eq key j then v else Dict.get j span.attributes))
    from_text none et = absurd (ground arith)
    from_text (some t) et =
        (ground arith, λ j. ground (arith, get-put key j (text t) span.attributes))

swap :
    (p c j : String) (prompt completion v : Option Value)
    → str_eq p c ≡ false
    → (if str_eq c j then completion else (if str_eq p j then prompt else v))
      ≡ (if str_eq p j then prompt else (if str_eq c j then completion else v))
swap p c j prompt completion v h = ground (arith, eq_iff p j, eq_iff c j, eq_iff p c)

-- Where the redactor raises on neither text, both texts that are there are replaced by what it
-- gives for them, and every other attribute stays.
pub get-redact_span :
    (redactor : Redactor) (service env : String) (span : Span) (prompt completion : Option Value)
    → redacted_value redactor (context_of service env span) (Dict.get "prompt_text" span.attributes)
      ≡ some prompt
    → redacted_value redactor
        (context_of service env span)
        (Dict.get "completion_text" span.attributes)
      ≡ some completion
    → ((redact_span redactor service env span).0 ≡ true)
      × ((j : String)
          → Dict.get j (redact_span redactor service env span).1.attributes ≡ (
              if str_eq "prompt_text" j
              then prompt
              else (if str_eq "completion_text" j then completion else Dict.get j span.attributes)))
unfolding redact_span redact_both redact_attribute
get-redact_span redactor service env span prompt completion hp hc =
    let context = context_of service env span in
    let (done_0, first) =
      redact_value_lem redactor context "prompt_text" span (Dict.get "prompt_text" span.attributes)
        prompt refl hp in
    let span' =
      (redact_value redactor context "prompt_text" (Dict.get "prompt_text" span.attributes)
        span).1 in
    let (done_1, second) =
      redact_value_lem redactor context "completion_text" span'
        (Dict.get "completion_text" span'.attributes) completion refl
        (rw (first "completion_text") hc) in
    (
      rw (done_0, done_1) refl,
      λ j.
          rw (done_0, second j, first j)
            (swap "prompt_text" "completion_text" j prompt completion _ refl),
    )
