-- ===== src/Llm/Metadata.antt =====
-- What the attributes of the span are after one step.
use rastir.Base.{
  ℕ, String, ◌≡◌, refl, sym, ap, ◌∙◌, subst, false, Option, none, some, [], ◌∷◌, arith, eq_iff,
  str_eq, Bool-cases, Option-cases, inl, inr, if◌then◌else◌,
}
use rastir.Dict
use rastir.Dict.{Dict, is_some}
use rastir.Dict.Laws.{get-put}
use rastir.Span.{Value, text, num}
use rastir.SpanRecord.{SpanRecord, set_attribute}
use rastir.Tracing.{mark_text}
use rastir.Adapters.{AdapterResult, is_known, resolve_with}
use rastir.Objects.{Object}
use rastir.Llm.{
  Setup, set_all, mark_number, upgrade, ensure_known, apply_result, apply_resolved,
  extract_llm_metadata,
}
use rastir.Llm.Chunks.{mark_first}

pub get-set_attribute :
    (key other : String) (v : Value) (s : SpanRecord)
    → str_eq key other ≡ false
    → Dict.get other (set_attribute key v s).attributes ≡ Dict.get other s.attributes
unfolding set_attribute
get-set_attribute key other v s h = ground (arith, h, get-put key other v s.attributes)

pub get-set_attribute_self :
    (key : String) (v : Value) (s : SpanRecord)
    → Dict.get key (set_attribute key v s).attributes ≡ some v
unfolding set_attribute
get-set_attribute_self key v s = ground (arith, eq_iff key key, get-put key key v s.attributes)

pub get-mark_text :
    (key other : String) (o : Option String) (s : SpanRecord)
    → str_eq key other ≡ false
    → Dict.get other (mark_text key o s).attributes ≡ Dict.get other s.attributes
get-mark_text key other none s h = refl
get-mark_text key other (some a) s h = ground (arith, get-set_attribute key other (text a) s h)

pub get-mark_number :
    (key other : String) (o : Option ℕ) (s : SpanRecord)
    → str_eq key other ≡ false
    → Dict.get other (mark_number key o s).attributes ≡ Dict.get other s.attributes
get-mark_number key other none s h = refl
get-mark_number key other (some n) s h = get-set_attribute key other (num n) s h

pub get-mark_first :
    (key other : String) (o : Option String) (s : SpanRecord)
    → str_eq key other ≡ false
    → Dict.get other (mark_first key o s).attributes ≡ Dict.get other s.attributes
get-mark_first key other o s h = ground (arith, get-mark_text key other o s h)

pub get-set_all :
    (attrs : Dict Value) (other : String) (s : SpanRecord)
    → Dict.has other attrs ≡ false
    → Dict.get other (set_all attrs s).attributes ≡ Dict.get other s.attributes
unfolding set_all Dict.has Dict.get
get-set_all [] other s h = refl
get-set_all ((k, v) ∷ attrs) other s h = elim (Bool-cases (str_eq k other)) [
  | inl e ↦ absurd (ground (arith, e, h))
  | inr e ↦
      get-set_all attrs other (set_attribute k v s) (ground (arith, e, h))
      ∙ get-set_attribute k other v s e
]

-- the value that the response or else the request has for a name, or `unknown`
abbrev pub settled : Option String → Option Value → Option Value
settled found before = elim (if is_known found then found else none) [
  | some s ↦ some (text s)
  | none ↦ elim before [ some v ↦ some v | none ↦ some (text "unknown") ]
]

get-upgrade_self :
    (key : String) (found : Option String) (s : SpanRecord)
    → Dict.get key (upgrade key found s).attributes ≡ settled found (Dict.get key s.attributes)
unfolding upgrade Dict.has
get-upgrade_self key none s = elim (Option-cases (Dict.get key s.attributes)) [
  | inl e ↦ ground (arith, e, get-set_attribute_self key (text "unknown") s)
  | inr (v, e) ↦ ground (arith, e)
]
get-upgrade_self key (some a) s = ground (
  arith,
  eq_iff a "",
  get-set_attribute_self key (text a) s,
  get-set_attribute_self key (text "unknown") s,
)

get-upgrade :
    (key other : String) (found : Option String) (s : SpanRecord)
    → str_eq key other ≡ false
    → Dict.get other (upgrade key found s).attributes ≡ Dict.get other s.attributes
unfolding upgrade
get-upgrade key other found s h =
    ground
      (arith, get-mark_text key other found s h, get-set_attribute key other (text "unknown") s h)

get-ensure_known :
    (key other : String) (s : SpanRecord)
    → str_eq key other ≡ false
    → Dict.get other (ensure_known key s).attributes ≡ Dict.get other s.attributes
get-ensure_known key other s h = ground (arith, get-set_attribute key other (text "unknown") s h)

get-ensure_known_self :
    (key : String) (s : SpanRecord) (found : Option String) (before : Option Value)
    → Dict.get key s.attributes ≡ settled found before
    → Dict.get key (ensure_known key s).attributes ≡ settled found before
unfolding Dict.has
get-ensure_known_self key s found before h =
    ground (arith, h, get-set_attribute_self key (text "unknown") s)

-- what the response names
abbrev pub Names : AdapterResult Object → Type 0
Names result =
    (Dict.has "model" result.extra_attributes ≡ false)
    × (Dict.has "provider" result.extra_attributes ≡ false)

-- the rest of `apply_result`, behind the two names
get-apply_rest :
    (result : AdapterResult Object) (key : String) (s : SpanRecord)
    → Dict.has key result.extra_attributes ≡ false
    → str_eq "finish_reason" key ≡ false
    → str_eq "tokens_output" key ≡ false
    → str_eq "tokens_input" key ≡ false
    → Dict.get key
        (set_all result.extra_attributes (
          mark_text "finish_reason" result.finish_reason (
            mark_number "tokens_output" result.tokens_output
              (mark_number "tokens_input" result.tokens_input s)))).attributes
      ≡ Dict.get key s.attributes
get-apply_rest result key s e h k l =
    get-set_all result.extra_attributes key _ e
    ∙ get-mark_text "finish_reason" key result.finish_reason _ h
    ∙ get-mark_number "tokens_output" key result.tokens_output _ k
    ∙ get-mark_number "tokens_input" key result.tokens_input s l

-- Where the adapters find a result whose further attributes name neither: the model is the one that
-- the result names unless that is empty or `unknown`, else what the span had from the request, else
-- `unknown`; and so is the provider.
pub extract_llm_metadata-settled :
    (setup : Setup) (x : Object) (s : SpanRecord) (result : AdapterResult Object)
    → resolve_with setup.adapters x ≡ some result
    → Names result
    → (Dict.get "model" (extract_llm_metadata setup x s).attributes
        ≡ settled result.model (Dict.get "model" s.attributes))
      × (Dict.get "provider" (extract_llm_metadata setup x s).attributes
          ≡ settled result.provider (Dict.get "provider" s.attributes))
unfolding extract_llm_metadata apply_result
extract_llm_metadata-settled setup x s result h (no_model, no_provider) =
    let named = upgrade "model" result.model s in
    let both = upgrade "provider" result.provider named in
    let applied = apply_result result s in
    let model =
      get-apply_rest result "model" both no_model refl refl refl
      ∙ get-upgrade "provider" "model" result.provider named refl
      ∙ get-upgrade_self "model" result.model s in
    let provider =
      get-apply_rest result "provider" both no_provider refl refl refl
      ∙ get-upgrade_self "provider" result.provider named
      ∙ ap (settled result.provider) (get-upgrade "model" "provider" result.model s refl) in
    subst
      (λ r.
        (Dict.get "model"
            (ensure_known "provider" (ensure_known "model" (apply_resolved r s))).attributes
          ≡ settled result.model (Dict.get "model" s.attributes))
        × (Dict.get "provider"
              (ensure_known "provider" (ensure_known "model" (apply_resolved r s))).attributes
            ≡ settled result.provider (Dict.get "provider" s.attributes)))
      (sym h)
      (
        get-ensure_known "provider" "model" (ensure_known "model" applied) refl
            ∙ get-ensure_known_self "model" applied result.model _ model,
        get-ensure_known_self "provider" (ensure_known "model" applied) result.provider _
            (get-ensure_known "model" "provider" applied refl ∙ provider),
      )
