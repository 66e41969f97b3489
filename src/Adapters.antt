-- ===== src/Adapters.antt =====
-- The adapter registry of src/rastir/adapters/registry.py: which adapter turns the result of a call into
-- metadata. The results are objects of other libraries, of any type `Obj`; an adapter is the
-- interface of src/rastir/adapters/types.py, whose `transform` may raise.
pub mod Sorting
pub mod Choice
use mathlib.Core.Option
use rastir.Base.{
  ℕ, zero, suc, String, Bool, true, false, not, ◌||◌, ◌&&◌, Option, none, some, List, [], ◌∷◌, ◌++◌,
  leb, str_eq, if◌then◌else◌,
}
use rastir.Dict
use rastir.Dict.{Dict}
use rastir.Span.{Value}

pub record AdapterResult (Obj : Type 0) : Type 0 where
  pub unwrapped_result : Option Obj
  pub model : Option String
  pub provider : Option String
  pub tokens_input : Option ℕ
  pub tokens_output : Option ℕ
  pub finish_reason : Option String
  pub extra_attributes : Dict Value

pub record RequestMetadata : Type 0 where
  pub span_attributes : Dict Value
  pub extra_attributes : Dict Value

pub record TokenDelta : Type 0 where
  pub tokens_input : Option ℕ
  pub tokens_output : Option ℕ
  pub model : Option String
  pub provider : Option String
  pub usage_mode : Option String

-- `none` of `transform` and of the two functions that extract is an exception.
pub record Adapter (Obj : Type 0) : Type 0 where
  pub name : String
  pub kind : String
  pub priority : ℕ
  pub can_handle : Obj → Bool
  pub transform : Obj → Option (AdapterResult Obj)
  pub supports_request_metadata : Bool
  pub can_handle_request : List Obj → Dict Obj → Bool
  pub extract_request_metadata : List Obj → Dict Obj → Option RequestMetadata
  pub can_handle_stream : Obj → Bool
  pub extract_stream_delta : Obj → Option TokenDelta

abbrev pub no_result : {Obj : Type 0} → AdapterResult Obj
no_result = record {
  unwrapped_result = none;
  model = none;
  provider = none;
  tokens_input = none;
  tokens_output = none;
  finish_reason = none;
  extra_attributes = [];
}

abbrev pub no_metadata : RequestMetadata
no_metadata = record { span_attributes = []; extra_attributes = [] }

abbrev pub no_delta : TokenDelta
no_delta = record {
  tokens_input = none;
  tokens_output = none;
  model = none;
  provider = none;
  usage_mode = none;
}

-- `BaseAdapter`
abbrev pub base_adapter : {Obj : Type 0} → Adapter Obj
base_adapter = record {
  name = "base";
  kind = "provider";
  priority = 100;
  can_handle = λ x. false;
  transform = λ x. some no_result;
  supports_request_metadata = false;
  can_handle_request = λ args kwargs. false;
  extract_request_metadata = λ args kwargs. some no_metadata;
  can_handle_stream = λ x. false;
  extract_stream_delta = λ x. some no_delta;
}

-- what the framework adapters have found
pub record Framework : Type 0 where
  pub attrs : Dict Value
  pub tokens_input : Option ℕ
  pub tokens_output : Option ℕ
  pub model : Option String
  pub finish_reason : Option String

abbrev pub nothing : Framework
nothing = record {
  attrs = [];
  tokens_input = none;
  tokens_output = none;
  model = none;
  finish_reason = none;
}

-- `a if a is not None else b`
abbrev pub or_else {ℓ} : {A : Type ℓ} → Option A → Option A → Option A
or_else none b = b
or_else (some a) b = some a

-- a text that is there, not empty and not `unknown`
abbrev pub is_known : Option String → Bool
is_known none = false
is_known (some s) = not (str_eq s "" || str_eq s "unknown")

-- `is None or == "unknown"`
abbrev pub is_missing : Option String → Bool
is_missing none = true
is_missing (some s) = str_eq s "unknown"

-- `framework_attrs.update(...)`
unfoldable pub update_attrs : Dict Value → Dict Value → Dict Value
update_attrs [] old = old
update_attrs ((k, v) ∷ new) old = update_attrs new (Dict.put k v old)

-- the loop over the framework's attributes
unfoldable pub fill_attrs : Dict Value → Dict Value → Dict Value
fill_attrs [] extra = extra
fill_attrs ((k, v) ∷ attrs) extra =
    fill_attrs attrs (if Dict.has k extra then extra else Dict.put k v extra)

-- the list of the module and its flag
pub record Registry (Obj : Type 0) : Type 0 where
  pub adapters : List (Adapter Obj)
  pub is_sorted : Bool

abbrev pub max_unwrap : ℕ
max_unwrap = 5

module _ {Obj : Type 0} where
  unfoldable pub register : Adapter Obj → Registry Obj → Registry Obj
  register a r = record { adapters = r.adapters ++ a ∷ []; is_sorted = false }

  unfoldable pub place : Adapter Obj → List (Adapter Obj) → List (Adapter Obj)
  place a [] = a ∷ []
  place a (b ∷ l) =
      let later = place a l in if leb b.priority a.priority then a ∷ b ∷ l else b ∷ later

  -- `sort(key=priority, reverse=True)`, which leaves equal priorities in their order
  unfoldable pub sort : List (Adapter Obj) → List (Adapter Obj)
  unfolding place
  sort [] = []
  sort (a ∷ l) = place a (sort l)

  unfoldable pub ensure_sorted : Registry Obj → Registry Obj
  unfolding sort
  ensure_sorted r =
      if r.is_sorted then r else record { adapters = sort r.adapters; is_sorted = true }

  -- the metadata of one framework adapter
  unfoldable pub capture : AdapterResult Obj → Framework → Framework
  unfolding update_attrs
  capture ar f = record {
    attrs = update_attrs ar.extra_attributes f.attrs;
    tokens_input = or_else ar.tokens_input f.tokens_input;
    tokens_output = or_else ar.tokens_output f.tokens_output;
    model = if is_known ar.model then ar.model else f.model;
    finish_reason = if is_known ar.finish_reason then ar.finish_reason else f.finish_reason;
  }

  -- the inner loop: the object behind the first adapter that unwraps
  unfoldable pub unwrap_once : List (Adapter Obj) → Obj → Framework → Option Obj × Framework
  unfolding capture
  unwrap_once [] x f = (none, f)
  unwrap_once (a ∷ l) x f =
      if str_eq a.kind "framework" && a.can_handle x
      then elim (a.transform x) [
        | none ↦ unwrap_once l x f
        | some ar ↦ elim ar.unwrapped_result [
          | some inner ↦ (some inner, capture ar f)
          | none ↦ unwrap_once l x (capture ar f)
        ]
      ]
      else unwrap_once l x f

  -- phase 1, with the rounds that are left
  unfoldable pub unwrap : ℕ → List (Adapter Obj) → Obj → Framework → Obj × Framework
  unfolding unwrap_once
  unwrap zero l x f = (x, f)
  unwrap (suc left) l x f =
      let (found, f') = unwrap_once l x f in
      elim found [ none ↦ (x, f') | some inner ↦ unwrap left l inner f' ]

  -- `_merge_framework_metadata`
  unfoldable pub merge_framework : Framework → AdapterResult Obj → AdapterResult Obj
  unfolding fill_attrs
  merge_framework f ar = record {
    unwrapped_result = ar.unwrapped_result;
    model = if is_missing ar.model && is_known f.model then f.model else ar.model;
    provider = ar.provider;
    tokens_input = or_else ar.tokens_input f.tokens_input;
    tokens_output = or_else ar.tokens_output f.tokens_output;
    finish_reason =
        if is_missing ar.finish_reason && is_known f.finish_reason
        then f.finish_reason
        else ar.finish_reason;
    extra_attributes = fill_attrs f.attrs ar.extra_attributes;
  }

  -- What an adapter gives in phase 2 or 3, if it is asked and does not raise.
  abbrev pub offer : String → Obj → Adapter Obj → Option (AdapterResult Obj)
  offer kind x a =
      if str_eq a.kind kind && (str_eq kind "fallback" || a.can_handle x)
      then a.transform x
      else none

  -- the loops of phase 2 and phase 3
  unfoldable pub extract : String → List (Adapter Obj) → Obj → Option (AdapterResult Obj)
  extract kind [] x = none
  extract kind (a ∷ l) x = or_else (offer kind x a) (extract kind l x)

  -- the three phases, on the adapters in their order
  unfoldable pub resolve_with : List (Adapter Obj) → Obj → Option (AdapterResult Obj)
  unfolding unwrap merge_framework extract
  resolve_with l x =
      let (inner, f) = unwrap max_unwrap l x nothing in
      Option.map (merge_framework f)
        (or_else (extract "provider" l inner) (extract "fallback" l inner))

  unfoldable pub resolve : Registry Obj → Obj → Option (AdapterResult Obj) × Registry Obj
  unfolding ensure_sorted resolve_with
  resolve r x = elim r.adapters [
    | [] ↦ (none, r)
    | a ∷ l ↦ (resolve_with (ensure_sorted r).adapters x, ensure_sorted r)
  ]

  -- the loop of `resolve_stream_chunk`
  unfoldable pub stream_delta : List (Adapter Obj) → Obj → Option TokenDelta
  stream_delta [] chunk = none
  stream_delta (a ∷ l) chunk =
      let later = stream_delta l chunk in
      if a.can_handle_stream chunk then or_else (a.extract_stream_delta chunk) later else later

  unfoldable pub resolve_stream_chunk : Registry Obj → Obj → Option TokenDelta × Registry Obj
  unfolding ensure_sorted stream_delta
  resolve_stream_chunk r chunk = (stream_delta (ensure_sorted r).adapters chunk, ensure_sorted r)

  -- the loop of `resolve_request`
  unfoldable pub request_metadata :
      List (Adapter Obj) → List Obj → Dict Obj → Option RequestMetadata
  request_metadata [] args kwargs = none
  request_metadata (a ∷ l) args kwargs =
      let later = request_metadata l args kwargs in
      if a.supports_request_metadata && a.can_handle_request args kwargs
      then or_else (a.extract_request_metadata args kwargs) later
      else later
