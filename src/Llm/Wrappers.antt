-- ===== src/Llm/Wrappers.antt =====
-- The wrappers of `@llm`, in their synchronous form. A call of the function may do anything to the
-- context and to the active span, as the interceptors that the wrapper installs do. A generator
-- leaves the context alone between its chunks.
pub mod Recorded
use Prim.Native.String.{◌++◌ as append}
use rastir.Base.{
  ℕ, suc, ◌+◌, String, Bool, true, false, ◌&&◌, Option, none, some, List, [], ◌∷◌, ◌++◌, str_eq,
  if◌then◌else◌,
}
use rastir.Dict.{Dict}
use rastir.Span.{flag, text}
use rastir.SpanRecord
use rastir.SpanRecord.{SpanRecord, finish, set_attribute}
use rastir.Tracing.{Sources, Client, Raised, start_span, held, close, mark_text}
use rastir.Adapters.{or_else}
use rastir.Objects.{Object, string, getattr, hasattr, is_true, text_of, first_item}
use rastir.Providers.{model_text}
use rastir.Llm.{
  LlmOptions, Setup, set_base_attrs, set_evaluation_attrs, extract_request_metadata,
  extract_llm_metadata, propagate_to_context, finalize_llm_span, is_evaluated,
}
use rastir.Llm.Texts.{capture_prompt_text, capture_completion_text}
use rastir.Llm.Chunks.{accumulate_stream_chunk, record_first_token}

-- what a call of the function comes to
pub data CallOutcome : Type 0 where
  returned : Object → CallOutcome
  raised : Raised → CallOutcome

-- What a consumer gets from a generator: its chunks, up to the end, to an exception of the
-- generator, or to a chunk after which the consumer closes it.
pub data Stream : Type 0 where
  ends : Stream
  fails : Raised → Stream
  yields : Object → Stream → Stream
  closed_at : Object → Stream

abbrev pub generator_exit : Raised
generator_exit = record { error_type = "GeneratorExit"; error_message = "" }

-- a text that is not empty behind an attribute
abbrev pub choice_delta : Object → Option String
choice_delta choices = elim (first_item choices) [
  | none ↦ none
  | some choice ↦ model_text (some (getattr (getattr choice "delta") "content"))
]

abbrev pub block_delta : Object → Option String
block_delta chunk = elim (text_of (getattr chunk "type")) [
  | none ↦ none
  | some type ↦
      if str_eq type "content_block_delta"
      then model_text (some (getattr (getattr chunk "delta") "text"))
      else none
]

-- `_accumulate_stream_text`: what a chunk adds
unfoldable pub chunk_text : Object → Option String
unfolding getattr
chunk_text chunk =
    or_else (choice_delta (getattr chunk "choices")) (or_else (block_delta chunk) (text_of chunk))

abbrev pub collect : Option String → List String → List String
collect none texts = texts
collect (some s) texts = texts ++ s ∷ []

abbrev pub join : List String → String
join [] = ""
join (s ∷ texts) = append s (join texts)

-- the attribute of the texts, where there are some
unfoldable pub set_collected : List String → SpanRecord → SpanRecord
set_collected [] span = span
set_collected (s ∷ texts) span =
    if is_evaluated span
    then set_attribute "completion_text" (text (join (s ∷ texts))) span
    else span

module _ (setup : Setup) where
  -- one chunk that the consumer has taken
  unfoldable pub take_chunk : Object → SpanRecord × List String → SpanRecord × List String
  unfolding accumulate_stream_chunk chunk_text
  take_chunk chunk (span, texts) =
      let span' = accumulate_stream_chunk setup chunk span in
      (span', if is_evaluated span' then collect (chunk_text chunk) texts else texts)

  -- the loop, behind the first chunk
  unfoldable pub consume :
      Stream → SpanRecord × List String → Option Raised × (SpanRecord × List String)
  unfolding take_chunk
  consume ends s = (none, s)
  consume (fails e) s = (some e, s)
  consume (closed_at chunk) s = (some generator_exit, s)
  consume (yields chunk rest) s = consume rest (take_chunk chunk s)

  abbrev pub has_chunk : Stream → Bool
  has_chunk ends = false
  has_chunk (fails e) = false
  has_chunk (yields chunk rest) = true
  has_chunk (closed_at chunk) = true

  -- the whole loop: the time to the first chunk is taken once.
  unfoldable pub run_stream : ℕ → Stream → SpanRecord → Option Raised × (SpanRecord × List String)
  unfolding consume record_first_token
  run_stream now stream span =
      consume stream
        (if has_chunk stream then record_first_token setup.config now span else span, [])

  module _ (o : Sources) where
    -- the span before the function runs
    unfoldable pub prepare :
        LlmOptions → List Object → Dict Object → Client → SpanRecord → SpanRecord
    unfolding capture_prompt_text extract_request_metadata set_evaluation_attrs set_base_attrs
    prepare options args kwargs c span = capture_prompt_text setup.config kwargs (
        extract_request_metadata setup args kwargs
          (set_evaluation_attrs options setup.config (set_base_attrs options c span)))

    -- the span after the call
    unfoldable pub close_call : CallOutcome → ℕ → SpanRecord → SpanRecord
    unfolding close capture_completion_text extract_llm_metadata
    close_call (returned x) mono span =
        finish SpanRecord.ok mono
          (capture_completion_text setup.config x (extract_llm_metadata setup x span))
    close_call (raised e) mono span = close (some e) mono span

    -- the `finally` block
    unfoldable pub leave_llm : Client → SpanRecord → Client → Client
    unfolding finalize_llm_span
    leave_llm outer span c =
        let (span', c') = finalize_llm_span setup span c in
        record c' {
          current_span = outer.current_span;
          enqueued = c.enqueued ++ span' ∷ [];
          calls = c.calls + 1;
        }

    -- `sync_wrapper`
    unfoldable pub llm_call :
        LlmOptions
        → String
        → List Object
        → Dict Object
        → (Client → CallOutcome × Client)
        → Client
        → CallOutcome × Client
    unfolding start_span prepare propagate_to_context close_call leave_llm
    llm_call options name args kwargs func c =
        let (span, c1) = start_span o name SpanRecord.llm c in
        let own = prepare options args kwargs c span in
        let (r, c2) = func (propagate_to_context own (record c1 { current_span = some own })) in
        (r, leave_llm c (close_call r (o.monotonic c2.calls) (held own c2.current_span)) c2)

    -- `gen_wrapper`; the clock is read at the first chunk.
    unfoldable pub llm_stream :
        LlmOptions → String → List Object → Dict Object → Stream → Client → Option Raised × Client
    unfolding start_span prepare run_stream close set_collected leave_llm
    llm_stream options name args kwargs stream c =
        let (span, c1) = start_span o name SpanRecord.llm c in
        let own = set_attribute "streaming" (flag true) (prepare options args kwargs c span) in
        let (r, (span', texts)) = run_stream (o.wall c1.calls) stream own in
        (
          r,
          leave_llm c (set_collected texts (close r (o.monotonic (c1.calls + 1)) span'))
              (record c1 { calls = c1.calls + 1 }),
        )
