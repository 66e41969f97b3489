-- ===== src/Otlp/Bounds.antt =====
-- Every span with hexadecimal ids arrives, with ids and times that the receiver takes.
use rastir.Base.{
  [], ◌∷◌, ◌++◌, ℕ, ◌+◌, ◌*◌, ◌/◌, ◌%◌, ◌^◌, ◌≤◌, ◌<◌, String, true, ◌≡◌, ◌≢◌, refl, sym, ap, ◌∙◌,
  Option, none, some, arith, str_eq, eq_iff, Bool-cases, inl, inr,
}
use rastir.Base.Integers.{ℤ, pos}
use rastir.Text.{text_take}
use rastir.Text.Hex.{int16}
use rastir.Otlp.Ids.{IsDigits, int16-text_take}
use rastir.Otlp.Fields.{ReadableSpan, SpanContext, given, low_bits, stamped, corrected}
use rastir.Otlp.Reference.{
  conversion, Sent, raw_trace_id, raw_span_id, epoch_of, is_complete, parent_of, assembled,
}
use rastir.Otlp.{export_span, Platform, Forwarder}
use rastir.Otlp.Conversion.{Sound, answer, at_most_one, export_span-Exported, handed}

-- The ids are there, in hexadecimal digits.
pub record Hexadecimal (s : Sent) : Type 0 where
  pub complete : is_complete s ≡ true
  pub trace : IsDigits (raw_trace_id s)
  pub span : IsDigits (raw_span_id s)
  pub parent : IsDigits (given "" s.span.parent_id)

pub record InRange (s : Sent) (r : ReadableSpan) : Type 0 where
  pub trace : ℕ
  pub trace_is : r.context.trace_id ≡ pos trace
  pub trace_bits : trace < 2 ^ 128
  -- what the id says
  pub raw : ℕ
  pub raw_is : int16 (text_take 32 (raw_trace_id s)) ≡ some (pos raw)
  pub low_kept : trace % low_bits ≡ raw % low_bits
  pub span : ℕ
  pub span_is : r.context.span_id ≡ pos span
  pub span_bits : span < 2 ^ 64
  pub in_order : r.start_time ≤ r.end_time

corrected-le : (a b : ℕ) (d : Option ℕ) → (corrected a b d).0 ≤ (corrected a b d).1
unfolding corrected
corrected-le a b none = ground arith
corrected-le a b (some d) = ground arith

-- The number that the exporter makes of the one in the id.
stamped_lem :
    (epoch : Option ℕ) (raw : ℕ)
    → raw < 2 ^ 128
    → (n : ℕ) × (stamped epoch (pos raw) ≡ pos n) × (n < 2 ^ 128) × (n % low_bits ≡ raw % low_bits)
stamped_lem none raw h = (raw, refl, h, refl)
stamped_lem (some epoch) raw h =
    ((epoch / 1000000000) % 4294967296 * low_bits + raw % low_bits, refl, omega arith, omega arith)

there_of_complete : (s : Sent) → is_complete s ≡ true → (raw_trace_id s ≢ "") × (raw_span_id s ≢ "")
there_of_complete s h =
    ((ground (arith, h, eq_iff (raw_trace_id s) "")), ground (arith, h, eq_iff (raw_span_id s) ""))

parent_of-some :
    (trace_id : ℤ) (parent : Option String)
    → IsDigits (given "" parent)
    → (p : Option SpanContext) × (parent_of trace_id parent ≡ some p)
parent_of-some trace_id none h = (none, refl)
parent_of-some trace_id (some p) h = elim (Bool-cases (str_eq p "")) [
  | inl e ↦ (none, rw e refl)
  | inr e ↦
      let (m, is, _) = int16-text_take 15 p h (ground (arith, e, eq_iff p "")) in
      (some (record { trace_id = trace_id; span_id = pos m; is_remote = true }), rw (e, is) refl)
]

handed-InRange :
    (platform : Platform) (s : Sent) (f : Forwarder)
    → Hexadecimal s
    → (r : ReadableSpan) × (handed platform s f ≡ some r) × InRange s r
handed-InRange platform s f hex =
    let (trace_there, span_there) = there_of_complete s hex.complete in
    let (raw, raw_is, raw_le) = int16-text_take 31 (raw_trace_id s) hex.trace trace_there in
    let (span, span_is, span_le) = int16-text_take 15 (raw_span_id s) hex.span span_there in
    let (n, n_is, n_lt, kept) = stamped_lem (epoch_of s f) raw (omega (arith, raw_le)) in
    let (parent, parent_is) = parent_of-some (pos n) s.span.parent_id hex.parent in
    (
      assembled platform s (pos n) (pos span) parent,
      rw (hex.complete, raw_is, span_is, n_is, parent_is) refl,
      record {
        trace = n;
        trace_is = refl;
        trace_bits = n_lt;
        raw = raw;
        raw_is = raw_is;
        low_kept = kept;
        span = span;
        span_is = refl;
        span_bits = omega (arith, span_le);
        in_order = corrected-le _ _ s.span.duration_ms;
      },
    )

-- A span with its own id and that of its trace, both of hexadecimal digits, as its parent's id is if
-- there is one, is always handed on, and nothing is raised, whatever the cache of epochs holds (the
-- resources in the cache are those of their keys). The id of its trace is then a number of 128 bits
-- that keeps the lower 96 bits of the one that was given (the first 32 digits), its own id one of 64
-- bits, and its start is not behind its end, whatever the clocks said.
pub export_span-InRange :
    (platform : Platform) (s : Sent) (f : Forwarder)
    → Sound platform f.resource_cache
    → Hexadecimal s
    → (r : ReadableSpan) × ((export_span platform s.now s.span s.key f).0 ≡ some tt)
      × ((export_span platform s.now s.span s.key f).1.ended ≡ f.ended ++ r ∷ [])
      × InRange s r
export_span-InRange platform s f sound hex =
    let (r, is, in_range) = handed-InRange platform s f hex in
    let e = export_span-Exported platform s f sound in
    let given_on : handed platform s f ≡ conversion platform s (epoch_of s f) =
      rw hex.complete refl in
    let made : conversion platform s (epoch_of s f) ≡ some r = sym given_on ∙ is in
    let done : answer platform s f ≡ some tt = rw (hex.complete, made) refl in
    (
      r,
      e.answered ∙ done,
      e.ended ∙ ap (λ (o : Option ReadableSpan). f.ended ++ at_most_one o) is,
      in_range,
    )
