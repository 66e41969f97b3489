-- ===== src/Metrics/Labels.antt =====
-- What the parts of `record_span` of src/rastir/server/metrics.py share: values as labels and as
-- amounts, the guarded dimensions, and the samples.
use rastir.Base.{ℕ, String, Option, none, some, List, [], ◌∷◌, ◌++◌, str_eq, if◌then◌else◌}
use rastir.Dict
use rastir.Dict.{Dict}
use rastir.Exec.{Exec, pure, lift, modify, ◌>>=◌}
use rastir.Span.{Value, null, flag, num, text, texts, truthy}
use rastir.Metrics.{
  Metrics, Update, TraceRef, Seen, overflow_sentinel, guard_cardinality, cap_of, is_seen,
}

abbrev pub Labels : Type 0
Labels = List (String × String)

-- A value as a label: `len` or the set refuses anything but a text.
abbrev pub as_label : Value → Option String
as_label (text s) = some s
as_label v = none

-- A value as an amount, after `or 0`: the metric refuses a text or a list.
abbrev pub as_amount : Value → Option ℕ
as_amount null = some 0
as_amount (flag b) = some (if b then 1 else 0)
as_amount (num n) = some n
as_amount (text s) = if str_eq s "" then some 0 else none
as_amount (texts []) = some 0
as_amount (texts (s ∷ r)) = none

-- A value that is compared with or divided by a number.
abbrev pub as_number : Value → Option ℕ
as_number (flag b) = some (if b then 1 else 0)
as_number (num n) = some n
as_number v = none

-- `attrs.get(k, default)`
abbrev pub attr_or : Value → Option Value → Value
attr_or default none = default
attr_or default (some v) = v

abbrev pub text_or : String → Option String → String
text_or default none = default
text_or default (some s) = s

-- The guarded dimensions with the set that each one uses.
pub data Dimension : Type 0 where
  model provider tool_name agent error_type pricing_profile guardrail_id : Dimension

abbrev pub dimension_name : Dimension → String
dimension_name model = "model"
dimension_name provider = "provider"
dimension_name tool_name = "tool_name"
dimension_name agent = "agent"
dimension_name error_type = "error_type"
dimension_name pricing_profile = "pricing_profile"
dimension_name guardrail_id = "guardrail_id"

abbrev pub seen_of : Dimension → Metrics → Seen
seen_of model m = m.models
seen_of provider m = m.providers
seen_of tool_name m = m.tools
seen_of agent m = m.agents
seen_of error_type m = m.error_types
seen_of pricing_profile m = m.pricing_profiles
seen_of guardrail_id m = m.guardrail_ids

abbrev pub with_seen : Dimension → Seen → Metrics → Metrics
with_seen model seen m = record m { models = seen }
with_seen provider seen m = record m { providers = seen }
with_seen tool_name seen m = record m { tools = seen }
with_seen agent seen m = record m { agents = seen }
with_seen error_type seen m = record m { error_types = seen }
with_seen pricing_profile seen m = record m { pricing_profiles = seen }
with_seen guardrail_id seen m = record m { guardrail_ids = seen }

-- `_guard_cardinality` as a method
unfoldable pub guard : Dimension → String → Exec Metrics String
guard d value m =
    let (label, seen) =
      guard_cardinality m.max_label_len (cap_of (Dict.get (dimension_name d) m.caps)) value
        (seen_of d m) in
    (some label, with_seen d seen m)

-- the same on a value of the span
unfoldable pub guard_value : Dimension → Value → Exec Metrics String
unfolding guard
guard_value d v = do value ← lift (as_label v); guard d value

-- a model or provider: an empty label where there is none
unfoldable pub guard_present : Dimension → Value → Exec Metrics String
unfolding guard_value
guard_present d v = if truthy v then guard_value d v else pure ""

-- `metric.labels(...).inc(...)` or `.observe(...)`
unfoldable pub emit : String → Labels → Update → Option TraceRef → Exec Metrics (Unit {0})
emit metric labels update exemplar = modify λ m. record m {
  samples =
      m.samples
      ++ record { metric = metric; labels = labels; update = update; exemplar = exemplar } ∷ [];
}

-- `_VALID_GUARDRAIL_CATEGORIES`
abbrev pub valid_guardrail_categories : List String
valid_guardrail_categories =
    "CONTENT_POLICY" ∷ "SENSITIVE_INFORMATION_POLICY" ∷ "WORD_POLICY" ∷ "TOPIC_POLICY"
    ∷ "CONTEXTUAL_GROUNDING_POLICY" ∷ "DENIED_TOPIC" ∷ []

-- `_VALID_GUARDRAIL_ACTIONS`
abbrev pub valid_guardrail_actions : List String
valid_guardrail_actions = "GUARDRAIL_INTERVENED" ∷ "NONE" ∷ []

-- a label from a closed set
abbrev pub one_of : List String → Value → Option String
one_of allowed (text s) = some (if is_seen s allowed then s else overflow_sentinel)
one_of allowed (texts l) = none
one_of allowed v = some overflow_sentinel

-- What the parts of the body share.
pub record Labelled : Type 0 where
  pub base : Labels
  pub model_label : String
  pub provider_label : String
  pub agent_label : String
  pub exemplar : Option TraceRef

abbrev pub labels_of : Labelled → Labels
labels_of l =
    l.base
    ++ ("model", l.model_label) ∷ ("provider", l.provider_label) ∷ ("agent", l.agent_label) ∷ []

abbrev pub short_labels_of : Labelled → Labels
short_labels_of l = l.base ++ ("model", l.model_label) ∷ ("provider", l.provider_label) ∷ []
