-- ===== src/Llm/Wrappers/Recorded.antt =====
-- What every call of an `@llm` function leaves.
use rastir.Base.{
  ℕ, ◌+◌, String, ◌≡◌, refl, sym, ap, ◌∙◌, true, false, Option, none, some, List, [], ◌∷◌, ◌++◌,
  arith, eq_iff, str_eq, Bool-cases, inl, inr,
}
use rastir.Dict
use rastir.Dict.{Dict, is_some}
use rastir.Dict.Laws.{get-put, has-put}
use rastir.Span.{text, num, flag}
use rastir.SpanRecord
use rastir.SpanRecord.{SpanRecord, SpanStatus, finish, set_attribute}
use rastir.Tracing.{Sources, Client, Raised, start_span, close}
use rastir.Tracing.Nesting.{status_of}
use rastir.Objects.{Object}
use rastir.Llm.{
  LlmOptions, Setup, ensure_known, name_value, cost_for, calculate_and_set_cost, finalize_llm_span,
  propagate_to_context,
}
use rastir.Llm.Wrappers.{
  CallOutcome, returned, raised, Stream, close_call, leave_llm, llm_call, llm_stream, set_collected,
  prepare,
}

abbrev pub error_of : CallOutcome → Option Raised
error_of (returned x) = none
error_of (raised e) = some e

-- One span is handed on, behind `before`, and the context has its names.
pub record Recorded (outer : Client) (before : List SpanRecord) (result : Option Raised)
    (after : Client) : Type 0 where
  pub own : SpanRecord
  pub sent : after.enqueued ≡ before ++ own ∷ []
  pub status : own.status ≡ status_of result
  pub has_model : Dict.has "model" own.attributes ≡ true
  pub has_provider : Dict.has "provider" own.attributes ≡ true
  pub context_model : after.current_model ≡ name_value (Dict.get "model" own.attributes)
  pub context_provider : after.current_provider ≡ name_value (Dict.get "provider" own.attributes)
  pub restored : after.current_span ≡ outer.current_span

ensure_known_status : (key : String) (s : SpanRecord) → (ensure_known key s).status ≡ s.status
unfolding set_attribute
ensure_known_status key s = elim (Bool-cases (Dict.has key s.attributes)) [
  | inl e ↦ rw e refl
  | inr e ↦ rw e refl
]

has-ensure_known :
    (key : String) (s : SpanRecord) → Dict.has key (ensure_known key s).attributes ≡ true
unfolding set_attribute
has-ensure_known key s =
    ground (arith, has-put key key (text "unknown") s.attributes, eq_iff key key)

has-ensure_known_other :
    (key other : String) (s : SpanRecord)
    → Dict.has key s.attributes ≡ true
    → Dict.has key (ensure_known other s).attributes ≡ true
unfolding set_attribute
has-ensure_known_other key other s h =
    ground (arith, h, has-put other key (text "unknown") s.attributes)

get-calculate_and_set_cost :
    (setup : Setup) (key : String) (s : SpanRecord)
    → str_eq "cost_usd" key ≡ false
    → str_eq "pricing_missing" key ≡ false
    → str_eq "pricing_profile" key ≡ false
    → Dict.get key (calculate_and_set_cost setup s).attributes ≡ Dict.get key s.attributes
unfolding calculate_and_set_cost set_attribute
get-calculate_and_set_cost setup key s h k l =
    let (cost, missing) = cost_for setup s in
    ground (
      arith,
      h,
      k,
      l,
      get-put "pricing_profile" key (text setup.config.cost.pricing_profile)
          (Dict.put "pricing_missing" (flag missing) (Dict.put "cost_usd" (num cost) s.attributes)),
      get-put "pricing_missing" key (flag missing) (Dict.put "cost_usd" (num cost) s.attributes),
      get-put "cost_usd" key (num cost) s.attributes,
    )

cost_status : (setup : Setup) (s : SpanRecord) → (calculate_and_set_cost setup s).status ≡ s.status
unfolding calculate_and_set_cost set_attribute
cost_status setup s = ground arith

leave_llm-Recorded :
    (setup : Setup) (o : Sources) (outer : Client) (span : SpanRecord) (c : Client)
    (result : Option Raised)
    → span.status ≡ status_of result
    → Recorded outer c.enqueued result (leave_llm setup o outer span c)
unfolding leave_llm finalize_llm_span Dict.has
leave_llm-Recorded setup o outer span c result h =
    let named = ensure_known "provider" (ensure_known "model" span) in
    let model = get-calculate_and_set_cost setup "model" named refl refl refl in
    let provider = get-calculate_and_set_cost setup "provider" named refl refl refl in
    record {
      own = calculate_and_set_cost setup named;
      sent = refl;
      status =
          cost_status setup named
          ∙ ensure_known_status "provider" (ensure_known "model" span)
          ∙ ensure_known_status "model" span
          ∙ h;
      has_model =
          ap is_some model
          ∙ has-ensure_known_other "model" "provider" (ensure_known "model" span)
              (has-ensure_known "model" span);
      has_provider = ap is_some provider ∙ has-ensure_known "provider" (ensure_known "model" span);
      context_model = ap name_value (sym model);
      context_provider = ap name_value (sym provider);
      restored = refl;
    }

close_call_status :
    (setup : Setup) (o : Sources) (r : CallOutcome) (mono : ℕ) (span : SpanRecord)
    → (close_call setup o r mono span).status ≡ status_of (error_of r)
unfolding close_call close finish
close_call_status setup o (returned x) mono span = refl
close_call_status setup o (raised e) mono span = refl

set_collected_status :
    (texts : List String) (span : SpanRecord) → (set_collected texts span).status ≡ span.status
unfolding set_collected set_attribute
set_collected_status [] span = refl
set_collected_status (s ∷ texts) span = ground arith

close_status :
    (r : Option Raised) (mono : ℕ) (s : SpanRecord) → (close r mono s).status ≡ status_of r
unfolding close finish
close_status none mono s = refl
close_status (some e) mono s = refl

-- the context when the function of the call has come to an end
unfoldable pub after_func :
    Setup
    → Sources
    → LlmOptions
    → String
    → List Object
    → Dict Object
    → (Client → CallOutcome × Client)
    → Client
    → Client
unfolding start_span
after_func setup o options name args kwargs func c =
    let (span, c1) = start_span o name SpanRecord.llm c in
    let own = prepare setup o options args kwargs c span in
    (func (propagate_to_context own (record c1 { current_span = some own }))).1

-- A call of an `@llm` function, whatever the function does and whatever the adapters find, hands on
-- its span last, with the status ERROR exactly if the call raised; the span names a model and a
-- provider, and the context has both names from then on, also behind the call: only the active
-- span is put back.
pub llm_call-Recorded :
    (setup : Setup) (o : Sources) (options : LlmOptions) (name : String) (args : List Object)
    (kwargs : Dict Object) (func : Client → CallOutcome × Client) (c : Client)
    → Recorded c
        (after_func setup o options name args kwargs func c).enqueued
        (error_of (llm_call setup o options name args kwargs func c).0)
        (llm_call setup o options name args kwargs func c).1
unfolding llm_call after_func start_span
llm_call-Recorded setup o options name args kwargs func c =
    leave_llm-Recorded setup o c _ (after_func setup o options name args kwargs func c) _
      (close_call_status setup o _ _ _)

-- A stream, whether it ends, fails or is closed by its consumer, hands on its span alone, as a call
-- does.
pub llm_stream-Recorded :
    (setup : Setup) (o : Sources) (options : LlmOptions) (name : String) (args : List Object)
    (kwargs : Dict Object) (stream : Stream) (c : Client)
    → Recorded c c.enqueued
        (llm_stream setup o options name args kwargs stream c).0
        (llm_stream setup o options name args kwargs stream c).1
unfolding llm_stream start_span
llm_stream-Recorded setup o options name args kwargs stream c =
    let c1 = (start_span o name SpanRecord.llm c).1 in
    leave_llm-Recorded setup o c _ (record c1 { calls = c1.calls + 1 }) _
      (set_collected_status _ _ ∙ close_status _ _ _)
