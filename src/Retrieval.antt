-- ===== src/Retrieval.antt =====
-- `@retrieval` of src/rastir/decorators.py, in its synchronous form: the names of the context on the
-- span, and the count of the documents.
use rastir.Base.{ℕ, ◌+◌, String, ◌≡◌, refl, ◌∙◌, Option, none, some, [], ◌∷◌, ◌++◌, if◌then◌else◌}
use rastir.Dict
use rastir.Dict.Laws.{get-put}
use rastir.Span.{Value, num, text}
use rastir.SpanRecord
use rastir.SpanRecord.{SpanRecord, finish, set_attribute}
use rastir.Tracing.{Sources, Client, start_span, held, close, mark_text}
use rastir.Tracing.Nesting.{status_of}
use rastir.Adapters.{or_else}
use rastir.Objects.{Object, getattr, hasattr}
use rastir.Providers.Utilities.{is_sequence, length_of}
use rastir.Llm.{mark_number}
use rastir.Llm.Metadata.{get-set_attribute_self}
use rastir.Llm.Wrappers.{CallOutcome, returned, raised}
use rastir.Llm.Wrappers.Recorded.{error_of}

-- the patterns of `_extract_doc_count`
unfoldable pub documents_in : Object → Option ℕ
unfolding length_of
documents_in x =
    if is_sequence x
    then length_of x
    else (if hasattr x "documents"
        then length_of (getattr x "documents")
        else (if hasattr x "page_content" then some 1 else none))

-- The extractor of the user, where there is one; its `none` is None or an exception.
abbrev pub extracted : Option (Object → Option ℕ) → Object → Option ℕ
extracted none x = none
extracted (some extractor) x = extractor x

unfoldable pub doc_count : Option (Object → Option ℕ) → Object → Option ℕ
unfolding documents_in
doc_count extractor x = or_else (extracted extractor x) (documents_in x)

-- `_extract_doc_count`
unfoldable pub extract_doc_count : Option (Object → Option ℕ) → Object → SpanRecord → SpanRecord
unfolding doc_count
extract_doc_count extractor x span =
    mark_number "retrieved_documents_count" (doc_count extractor x) span

-- the names that the span inherits
unfoldable pub mark_retrieval : Client → SpanRecord → SpanRecord
mark_retrieval c span =
    mark_text "provider" c.current_provider
      (mark_text "model" c.current_model (mark_text "agent" c.current_agent span))

-- the span after the call
unfoldable pub close_retrieval :
    Option (Object → Option ℕ) → CallOutcome → ℕ → SpanRecord → SpanRecord
unfolding extract_doc_count close
close_retrieval extractor (returned x) mono span =
    finish SpanRecord.ok mono (extract_doc_count extractor x span)
close_retrieval extractor (raised e) mono span = close (some e) mono span

module _ (o : Sources) (extractor : Option (Object → Option ℕ)) where
  -- the function in its context
  unfoldable pub run_retrieval :
      String → (Client → CallOutcome × Client) → Client → SpanRecord × (CallOutcome × Client)
  unfolding start_span mark_retrieval
  run_retrieval name func c =
      let (span, c1) = start_span o name SpanRecord.retrieval c in
      let own = mark_retrieval c span in (own, func (record c1 { current_span = some own }))

  -- `sync_wrapper`
  unfoldable pub retrieval_call :
      String → (Client → CallOutcome × Client) → Client → CallOutcome × Client
  unfolding run_retrieval close_retrieval
  retrieval_call name func c =
      let (own, (r, c2)) = run_retrieval name func c in
      (
        r,
        record c2 {
          current_span = c.current_span;
          enqueued =
              c2.enqueued
              ++ close_retrieval extractor r (o.monotonic c2.calls) (held own c2.current_span) ∷ [];
          calls = c2.calls + 1;
        },
      )

-- what the span counts: the documents of a result, and else what the function has set itself
abbrev pub counted_value : Option (Object → Option ℕ) → CallOutcome → Option Value → Option Value
counted_value extractor (raised e) before = before
counted_value extractor (returned x) before = elim (doc_count extractor x) [
  | none ↦ before
  | some n ↦ some (num n)
]

-- The span that a call hands on.
pub record Retrieved (extractor : Option (Object → Option ℕ)) (outer : Client)
    (ran : SpanRecord × (CallOutcome × Client)) (after : Client) : Type 0 where
  pub own : SpanRecord
  pub sent : after.enqueued ≡ ran.1.1.enqueued ++ own ∷ []
  pub status : own.status ≡ status_of (error_of ran.1.0)
  pub restored : after.current_span ≡ outer.current_span
  pub count :
      Dict.get "retrieved_documents_count" own.attributes
      ≡ counted_value extractor ran.1.0
          (Dict.get "retrieved_documents_count" (held ran.0 ran.1.1.current_span).attributes)

get-mark_number_self :
    (key : String) (n : Option ℕ) (s : SpanRecord)
    → Dict.get key (mark_number key n s).attributes
      ≡ elim n [ none ↦ Dict.get key s.attributes | some k ↦ some (num k) ]
get-mark_number_self key none s = refl
get-mark_number_self key (some k) s = get-set_attribute_self key (num k) s

close_retrieval_lem :
    (extractor : Option (Object → Option ℕ)) (r : CallOutcome) (mono : ℕ) (s : SpanRecord)
    → ((close_retrieval extractor r mono s).status ≡ status_of (error_of r))
      × (Dict.get "retrieved_documents_count" (close_retrieval extractor r mono s).attributes
          ≡ counted_value extractor r (Dict.get "retrieved_documents_count" s.attributes))
unfolding close_retrieval extract_doc_count close finish SpanRecord.record_error
close_retrieval_lem extractor (returned x) mono s =
    (refl, get-mark_number_self "retrieved_documents_count" (doc_count extractor x) s)
close_retrieval_lem extractor (raised e) mono s = (
  refl,
  get-put "error.message" "retrieved_documents_count" (text e.error_message)
        (Dict.put "error.type" (text e.error_type) s.attributes)
      ∙ get-put "error.type" "retrieved_documents_count" (text e.error_type) s.attributes,
)

-- A call of a `@retrieval` function, whatever the function does, hands on its span last, with the
-- status ERROR exactly if the call raised, and with the active span put back. After a result, the
-- count of documents is the extractor's, else the one that the result shows; without either, and
-- after an exception, what the function has set itself.
pub retrieval_call-Retrieved :
    (o : Sources) (extractor : Option (Object → Option ℕ)) (name : String)
    (func : Client → CallOutcome × Client) (c : Client)
    → Retrieved extractor c
        (run_retrieval o extractor name func c)
        (retrieval_call o extractor name func c).1
unfolding retrieval_call
retrieval_call-Retrieved o extractor name func c =
    let (own, (r, c2)) = run_retrieval o extractor name func c in
    let (status, count) =
      close_retrieval_lem extractor r (o.monotonic c2.calls) (held own c2.current_span) in
    record {
      own = close_retrieval extractor r (o.monotonic c2.calls) (held own c2.current_span);
      sent = refl;
      status = status;
      restored = refl;
      count = count;
    }
