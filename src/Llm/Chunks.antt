-- ===== src/Llm/Chunks.antt =====
-- What `@llm` of src/rastir/decorators.py takes from the chunks of a stream.
use rastir.Base.{ℕ, ◌+◌, ◌-◌, String, Bool, false, Option, none, some, str_eq, if◌then◌else◌}
use rastir.Dict
use rastir.Dict.{Dict, is_some}
use rastir.Span.{num}
use rastir.SpanRecord.{SpanRecord, set_attribute}
use rastir.Tracing.{mark_text}
use rastir.Adapters.{TokenDelta, stream_delta}
use rastir.Objects.{Object}
use rastir.ClientConfig.Settings.{GlobalConfig}
use rastir.Llm.{Setup, number_at, or_zero, mark_number}

abbrev pub is_cumulative : TokenDelta → Bool
is_cumulative delta = elim delta.usage_mode [ none ↦ false | some s ↦ str_eq s "cumulative" ]

-- a name from the first chunk that has one
abbrev pub mark_first : String → Option String → SpanRecord → SpanRecord
mark_first key name span = if Dict.has key span.attributes then span else mark_text key name span

-- the counts of a chunk: the totals so far, or numbers to add
unfoldable pub add_tokens : TokenDelta → SpanRecord → SpanRecord
add_tokens delta span =
    if is_cumulative delta
    then mark_number "tokens_output" delta.tokens_output
        (mark_number "tokens_input" delta.tokens_input span)
    else set_attribute "tokens_output"
        (num (number_at "tokens_output" span + or_zero delta.tokens_output))
        (set_attribute "tokens_input"
          (num (number_at "tokens_input" span + or_zero delta.tokens_input)) span)

unfoldable pub accumulate_delta : TokenDelta → SpanRecord → SpanRecord
unfolding add_tokens
accumulate_delta delta span =
    mark_first "provider" delta.provider (mark_first "model" delta.model (add_tokens delta span))

abbrev pub apply_delta : Option TokenDelta → SpanRecord → SpanRecord
apply_delta none span = span
apply_delta (some delta) span = accumulate_delta delta span

-- `_accumulate_stream_chunk`
unfoldable pub accumulate_stream_chunk : Setup → Object → SpanRecord → SpanRecord
unfolding accumulate_delta stream_delta
accumulate_stream_chunk setup chunk span = apply_delta (stream_delta setup.adapters chunk) span

-- `_record_ttft`, with the wall clock at `now`, in whole ticks
unfoldable pub record_first_token : GlobalConfig → ℕ → SpanRecord → SpanRecord
record_first_token config now span =
    if config.enable_ttft then set_attribute "ttft_ms" (num (now - span.start_time)) span else span
