-- ===== src/Llm/Texts.antt =====
-- Prompts and completions of `@llm` in src/rastir/decorators.py, which are captured for evaluation.
-- `choices` is taken as a list where a response has it.
use Prim.Native.String.{◌++◌ as append}
use rastir.Base.{String, ◌&&◌, Option, none, some, List, [], ◌∷◌, if◌then◌else◌}
use rastir.Dict
use rastir.Dict.{Dict, is_some}
use rastir.SpanRecord.{SpanRecord}
use rastir.Tracing.{mark_text}
use rastir.Objects.{
  Object, Items, find_field, string, sequence, dictionary, no_items, item, getattr, hasattr,
  is_none, is_true, text_of, first_item,
}
use rastir.ClientConfig.Settings.{GlobalConfig}
use rastir.Llm.{is_evaluated}

-- The part of one message; a dictionary without a content has an empty one.
abbrev pub message_part : Object → Option String
message_part (dictionary fields') = elim (find_field "content" fields') [
  | none ↦ some ""
  | some content ↦ text_of content
]
message_part x = text_of x

-- the parts, with a line between two
unfoldable pub join_lines : Items → Option String
unfolding find_field
join_lines no_items = none
join_lines (item x rest) =
    let later = join_lines rest in
    elim (message_part x) [
      | none ↦ later
      | some s ↦ elim later [ none ↦ some s | some t ↦ some (append s (append "\n" t)) ]
    ]

abbrev pub prompt_in : Object → Option String
prompt_in (string s) = some s
prompt_in (sequence l) = join_lines l
prompt_in x = none

-- the first keyword that is not None decides.
unfoldable pub prompt_of : List String → Dict Object → Option String
unfolding join_lines
prompt_of [] kwargs = none
prompt_of (key ∷ keys) kwargs =
    let later = prompt_of keys kwargs in
    elim (Dict.get key kwargs) [ none ↦ later | some x ↦ if is_none x then later else prompt_in x ]

-- `_capture_prompt_text`
unfoldable pub capture_prompt_text : GlobalConfig → Dict Object → SpanRecord → SpanRecord
unfolding prompt_of is_evaluated
capture_prompt_text config kwargs span =
    if is_evaluated span && config.evaluation.capture_prompt
    then mark_text "prompt_text"
        (prompt_of ("messages" ∷ "prompt" ∷ "input" ∷ "contents" ∷ []) kwargs) span
    else span

-- the text of the first choice
abbrev pub choice_text : Option Object → Option String
choice_text none = none
choice_text (some choice) =
    if hasattr choice "message" && hasattr (getattr choice "message") "content"
    then text_of (getattr (getattr choice "message") "content")
    else text_of (getattr choice "text")

-- the text of a content: itself, or that of its first block
abbrev pub content_text : Object → Option String
content_text (string s) = some s
content_text (sequence (item x rest)) =
    if hasattr x "text" then text_of (getattr x "text") else text_of x
content_text x = none

unfoldable pub completion_of : Object → Option String
unfolding getattr hasattr
completion_of (string s) = some s
completion_of x =
    if is_true (getattr x "choices")
    then choice_text (first_item (getattr x "choices"))
    else (if hasattr x "content"
        then content_text (getattr x "content")
        else text_of (getattr x "text"))

-- `_capture_completion_text`
unfoldable pub capture_completion_text : GlobalConfig → Object → SpanRecord → SpanRecord
unfolding completion_of is_evaluated
capture_completion_text config x span =
    if is_evaluated span && config.evaluation.capture_completion
    then mark_text "completion_text" (completion_of x) span
    else span
