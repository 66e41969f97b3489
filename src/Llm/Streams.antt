-- ===== src/Llm/Streams.antt =====
-- The token counts of a stream.
use rastir.Base.{
  ℕ, ◌+◌, String, ◌≡◌, refl, ap, ◌∙◌, Bool, true, false, not, ◌&&◌, Option, none, some, List, [],
  ◌∷◌, arith, str_eq, Bool-cases, Option-cases, inl, inr, if◌then◌else◌,
}
use rastir.Dict
use rastir.Span.{num}
use rastir.SpanRecord.{SpanRecord, set_attribute}
use rastir.Adapters.{TokenDelta, stream_delta}
use rastir.Llm.{Setup, number_at, or_zero, mark_number}
use rastir.Llm.Chunks.{
  is_cumulative, mark_first, add_tokens, accumulate_delta, apply_delta, accumulate_stream_chunk,
}
use rastir.Llm.Metadata.{get-set_attribute, get-set_attribute_self, get-mark_number, get-mark_first}
use rastir.Llm.Wrappers.{Stream, ends, fails, yields, closed_at, take_chunk, consume}

abbrev pub later_number : Option ℕ → ℕ → ℕ
later_number none before = before
later_number (some n) before = n

-- the count behind a chunk, from the count before
abbrev pub next_count : (TokenDelta → Option ℕ) → TokenDelta → ℕ → ℕ
next_count field_of delta before =
    if is_cumulative delta
    then later_number (field_of delta) before
    else before + or_zero (field_of delta)

abbrev pub after_chunk : (TokenDelta → Option ℕ) → Option TokenDelta → ℕ → ℕ
after_chunk field_of none before = before
after_chunk field_of (some delta) before = next_count field_of delta before

module _ (setup : Setup) where
  -- the count behind the chunks that the consumer has taken
  unfoldable pub counted : (TokenDelta → Option ℕ) → Stream → ℕ → ℕ
  counted field_of ends before = before
  counted field_of (fails e) before = before
  counted field_of (closed_at chunk) before = before
  counted field_of (yields chunk rest) before =
      counted field_of rest (after_chunk field_of (stream_delta setup.adapters chunk) before)

number_of_get :
    (key : String) (s s' : SpanRecord)
    → Dict.get key s.attributes ≡ Dict.get key s'.attributes
    → number_at key s ≡ number_at key s'
number_of_get key s s' h = ground (arith, h)

number_at-mark_number :
    (key : String) (o : Option ℕ) (s : SpanRecord)
    → number_at key (mark_number key o s) ≡ later_number o (number_at key s)
number_at-mark_number key none s = refl
number_at-mark_number key (some n) s = ground (arith, get-set_attribute_self key (num n) s)

number_at-set_attribute :
    (key : String) (n : ℕ) (s : SpanRecord) → number_at key (set_attribute key (num n) s) ≡ n
number_at-set_attribute key n s = ground (arith, get-set_attribute_self key (num n) s)

add_tokens_input :
    (delta : TokenDelta) (s : SpanRecord)
    → number_at "tokens_input" (add_tokens delta s)
      ≡ next_count (λ d. d.tokens_input) delta (number_at "tokens_input" s)
unfolding add_tokens
add_tokens_input delta s =
    let total = num (number_at "tokens_input" s + or_zero delta.tokens_input) in
    let replaced = mark_number "tokens_input" delta.tokens_input s in
    let added = set_attribute "tokens_input" total s in
    elim (Bool-cases (is_cumulative delta)) [
      | inl e ↦ rw e (
          number_of_get "tokens_input" (mark_number "tokens_output" delta.tokens_output replaced)
            replaced
            (get-mark_number "tokens_output" "tokens_input" delta.tokens_output replaced refl)
          ∙ number_at-mark_number "tokens_input" delta.tokens_input s)
      | inr e ↦ rw e (
          number_of_get "tokens_input"
            (set_attribute "tokens_output"
              (num (number_at "tokens_output" s + or_zero delta.tokens_output)) added)
            added
            (get-set_attribute "tokens_output" "tokens_input"
              (num (number_at "tokens_output" s + or_zero delta.tokens_output)) added refl)
          ∙ number_at-set_attribute "tokens_input"
              (number_at "tokens_input" s + or_zero delta.tokens_input) s)
    ]

add_tokens_output :
    (delta : TokenDelta) (s : SpanRecord)
    → number_at "tokens_output" (add_tokens delta s)
      ≡ next_count (λ d. d.tokens_output) delta (number_at "tokens_output" s)
unfolding add_tokens
add_tokens_output delta s =
    let total = num (number_at "tokens_input" s + or_zero delta.tokens_input) in
    let replaced = mark_number "tokens_input" delta.tokens_input s in
    let added = set_attribute "tokens_input" total s in
    elim (Bool-cases (is_cumulative delta)) [
      | inl e ↦ rw e (
          number_at-mark_number "tokens_output" delta.tokens_output replaced
          ∙ ap (later_number delta.tokens_output) (
              number_of_get "tokens_output" replaced s
                (get-mark_number "tokens_input" "tokens_output" delta.tokens_input s refl)))
      | inr e ↦ rw e (
          number_at-set_attribute "tokens_output"
            (number_at "tokens_output" s + or_zero delta.tokens_output) added)
    ]

-- the names of a chunk change no count.
number_at-accumulate_delta :
    (key : String) (delta : TokenDelta) (s : SpanRecord)
    → str_eq "provider" key ≡ false
    → str_eq "model" key ≡ false
    → number_at key (accumulate_delta delta s) ≡ number_at key (add_tokens delta s)
unfolding accumulate_delta
number_at-accumulate_delta key delta s h k =
    let named = mark_first "model" delta.model (add_tokens delta s) in
    number_of_get key (mark_first "provider" delta.provider named) (add_tokens delta s) (
      get-mark_first "provider" key delta.provider named h
      ∙ get-mark_first "model" key delta.model (add_tokens delta s) k)

apply_delta_counts :
    (o : Option TokenDelta) (s : SpanRecord)
    → (number_at "tokens_input" (apply_delta o s)
        ≡ after_chunk (λ d. d.tokens_input) o (number_at "tokens_input" s))
      × (number_at "tokens_output" (apply_delta o s)
          ≡ after_chunk (λ d. d.tokens_output) o (number_at "tokens_output" s))
apply_delta_counts none s = (refl, refl)
apply_delta_counts (some delta) s = (
  number_at-accumulate_delta "tokens_input" delta s refl refl ∙ add_tokens_input delta s,
  number_at-accumulate_delta "tokens_output" delta s refl refl ∙ add_tokens_output delta s,
)

module _ (setup : Setup) where
  consume_counted :
      (stream : Stream) (s : SpanRecord) (texts : List String)
      → (number_at "tokens_input" (consume setup stream (s, texts)).1.0
          ≡ counted setup (λ d. d.tokens_input) stream (number_at "tokens_input" s))
        × (number_at "tokens_output" (consume setup stream (s, texts)).1.0
            ≡ counted setup (λ d. d.tokens_output) stream (number_at "tokens_output" s))
  unfolding consume counted take_chunk accumulate_stream_chunk
  consume_counted ends s texts = (refl, refl)
  consume_counted (fails e) s texts = (refl, refl)
  consume_counted (closed_at chunk) s texts = (refl, refl)
  consume_counted (yields chunk rest) s texts =
      let (s', texts') = take_chunk setup chunk (s, texts) in
      let (input, output) = consume_counted rest s' texts' in
      (
        input
            ∙ ap (counted setup (λ d. d.tokens_input) rest)
                (apply_delta_counts (stream_delta setup.adapters chunk) s).0,
        output
            ∙ ap (counted setup (λ d. d.tokens_output) rest)
                (apply_delta_counts (stream_delta setup.adapters chunk) s).1,
      )

  -- the deltas of the chunks that the consumer has taken
  unfoldable pub deltas : Stream → List TokenDelta
  deltas ends = []
  deltas (fails e) = []
  deltas (closed_at chunk) = []
  deltas (yields chunk rest) =
      let later = deltas rest in
      elim (stream_delta setup.adapters chunk) [ none ↦ later | some delta ↦ delta ∷ later ]

abbrev pub sum_of : (TokenDelta → Option ℕ) → List TokenDelta → ℕ
sum_of field_of [] = 0
sum_of field_of (delta ∷ l) = or_zero (field_of delta) + sum_of field_of l

-- the last number that there is
abbrev pub last_of : (TokenDelta → Option ℕ) → List TokenDelta → ℕ → ℕ
last_of field_of [] before = before
last_of field_of (delta ∷ l) before = last_of field_of l (later_number (field_of delta) before)

abbrev pub all_mode : Bool → List TokenDelta → Bool
all_mode mode [] = true
all_mode true (delta ∷ l) = is_cumulative delta && all_mode true l
all_mode false (delta ∷ l) = not (is_cumulative delta) && all_mode false l

module _ (setup : Setup) (field_of : TokenDelta → Option ℕ) where
  counted-sum_of :
      (stream : Stream) (before : ℕ)
      → all_mode false (deltas setup stream) ≡ true
      → counted setup field_of stream before ≡ before + sum_of field_of (deltas setup stream)
  unfolding counted deltas
  counted-sum_of ends before h = omega arith
  counted-sum_of (fails e) before h = omega arith
  counted-sum_of (closed_at chunk) before h = omega arith
  counted-sum_of (yields chunk rest) before h =
      elim (Option-cases (stream_delta setup.adapters chunk)) [
        | inl e ↦ ground (arith, e, h, counted-sum_of rest before)
        | inr (delta, e) ↦
            ground (arith, e, h, counted-sum_of rest (before + or_zero (field_of delta)))
      ]

  counted-last_of :
      (stream : Stream) (before : ℕ)
      → all_mode true (deltas setup stream) ≡ true
      → counted setup field_of stream before ≡ last_of field_of (deltas setup stream) before
  unfolding counted deltas
  counted-last_of ends before h = refl
  counted-last_of (fails e) before h = refl
  counted-last_of (closed_at chunk) before h = refl
  counted-last_of (yields chunk rest) before h =
      elim (Option-cases (stream_delta setup.adapters chunk)) [
        | inl e ↦ ground (arith, e, h, counted-last_of rest before)
        | inr (delta, e) ↦
            ground (arith, e, h, counted-last_of rest (later_number (field_of delta) before))
      ]

-- what a stream has counted, from its deltas
abbrev pub total_of : Bool → (TokenDelta → Option ℕ) → List TokenDelta → ℕ → ℕ
total_of true field_of l before = last_of field_of l before
total_of false field_of l before = before + sum_of field_of l

counted-total_of :
    (mode : Bool) (setup : Setup) (field_of : TokenDelta → Option ℕ) (stream : Stream) (before : ℕ)
    → all_mode mode (deltas setup stream) ≡ true
    → counted setup field_of stream before ≡ total_of mode field_of (deltas setup stream) before
counted-total_of true setup field_of stream before h =
    counted-last_of setup field_of stream before h
counted-total_of false setup field_of stream before h =
    counted-sum_of setup field_of stream before h

-- However a stream ends, its span has counted exactly the chunks that the consumer took before: the
-- sums over their deltas where all of these are to be added, and the last number that one of them
-- has where all of them are totals, for input and output each, from what the span had before.
pub consume-total_of :
    (setup : Setup) (mode : Bool) (stream : Stream) (s : SpanRecord) (texts : List String)
    → all_mode mode (deltas setup stream) ≡ true
    → (number_at "tokens_input" (consume setup stream (s, texts)).1.0
        ≡ total_of mode (λ d. d.tokens_input) (deltas setup stream) (number_at "tokens_input" s))
      × (number_at "tokens_output" (consume setup stream (s, texts)).1.0
          ≡ total_of mode
              (λ d. d.tokens_output)
              (deltas setup stream)
              (number_at "tokens_output" s))
consume-total_of setup mode stream s texts h =
    let (input, output) = consume_counted setup stream s texts in
    (
      input ∙ counted-total_of mode setup (λ d. d.tokens_input) stream _ h,
      output ∙ counted-total_of mode setup (λ d. d.tokens_output) stream _ h,
    )
