-- ===== src/Remote/RoundTrip.antt =====
-- The header that one process writes and another reads.
use Prim.Native.Char.{Char}
use Prim.Native.String.{◌++◌ as append}
use Prim.Native.String.append.{nil as append-nil, cons as append-cons}
use rastir.Base.{
  String, ◌≡◌, refl, ap, ◌∙◌, false, some, [], ◌∷◌, arith, eq_iff, str_eq, Bool-cases, inl, inr,
}
use rastir.Text.{text_length, text_strip, text_split, length-text_take-le, text_rstrip, is_white}
use rastir.Text.Parts.{
  Lacks, text_without-Lacks, text_take-Lacks, zero_fill-Lacks, length-text_take-zero_fill,
  length-zero_fill, text_split-append, text_strip_of_first, Solid-cons, Solid, Solid-append,
}
use rastir.Remote.{trace_field, span_field, format_traceparent, parse_traceparent}

trace_field-Lacks : (t : String) → Lacks b'-' (trace_field t)
unfolding trace_field
trace_field-Lacks t =
    text_take-Lacks b'-' 32 _ (zero_fill-Lacks b'-' 32 _ (omega arith) (text_without-Lacks b'-' t))

span_field-Lacks : (s : String) → Lacks b'-' (span_field s)
unfolding span_field
span_field-Lacks s =
    zero_fill-Lacks b'-' 16 _ (omega arith) (text_take-Lacks b'-' 16 _ (text_without-Lacks b'-' s))

pub length-trace_field : (t : String) → text_length (trace_field t) ≡ 32
unfolding trace_field
length-trace_field t = length-text_take-zero_fill 32 _

pub length-span_field : (s : String) → text_length (span_field s) ≡ 16
unfolding span_field
length-span_field s = length-zero_fill 16 _ (length-text_take-le 16 _)

-- the header behind its first character
after_first : String → String → String
after_first t s =
    String.◌∷◌ "0"
      (String.◌∷◌ "-" (append (trace_field t) (String.◌∷◌ "-" (append (span_field s) "-01"))))

header_shape : (t s : String) → format_traceparent t s ≡ String.◌∷◌ "0" (after_first t s)
unfolding format_traceparent after_first
header_shape t s =
    append-cons "0" "0-" _
    ∙ ap (String.◌∷◌ "0") (
        append-cons "0" "-" _
        ∙ ap (String.◌∷◌ "0") (
            append-cons "-" "" _
            ∙ ap (String.◌∷◌ "-") (
                append-nil _
                ∙ ap (append (trace_field t))
                    (append-cons "-" "" _ ∙ ap (String.◌∷◌ "-") (append-nil _)))))

header_strip :
    (t s : String)
    → text_strip (String.◌∷◌ "0" (after_first t s)) ≡ String.◌∷◌ "0" (after_first t s)
unfolding after_first text_rstrip is_white
header_strip t s =
    let end : Solid "-01" = record { kept = refl; there = cc } in
    let whole = Solid-cons "0" _ (
      Solid-cons "0" _ (
        Solid-cons "-" _ (
          Solid-append (trace_field t) _
            (Solid-cons "-" _ (Solid-append (span_field s) _ end))))) in
    text_strip_of_first "0" _ refl whole.kept

header_split :
    (t s : String)
    → text_split b'-' (String.◌∷◌ "0" (after_first t s))
      ≡ "00" ∷ trace_field t ∷ span_field s ∷ "01" ∷ []
unfolding after_first text_split
header_split t s =
    rw
      (
        text_split-append b'-' "-" (trace_field t) _ refl (trace_field-Lacks t),
        text_split-append b'-' "-" (span_field s) "01" refl (span_field-Lacks s),
      )
      refl

header_not_empty : (c : Char) (s : String) → str_eq (String.◌∷◌ c s) "" ≡ false
header_not_empty c s = elim (Bool-cases (str_eq (String.◌∷◌ c s) "")) [
  | inl e ↦
      absurd (let same : String.◌∷◌ c s ≡ "" = ground (arith, e, eq_iff (String.◌∷◌ c s) "") in cc)
  | inr e ↦ e
]

-- Every header that is written is read back: whatever the two ids are, the fields that the header
-- has for them come out, 32 and 16 characters long.
pub parse_traceparent-format_traceparent :
    (t s : String)
    → (parse_traceparent (format_traceparent t s) ≡ some (trace_field t, span_field s))
      × (text_length (trace_field t) ≡ 32)
      × (text_length (span_field s) ≡ 16)
unfolding parse_traceparent
parse_traceparent-format_traceparent t s = (
  rw (header_shape t s, header_strip t s, header_split t s)
      (ground
        (arith, length-trace_field t, length-span_field s, header_not_empty "0" (after_first t s))),
  length-trace_field t,
  length-span_field s,
)
