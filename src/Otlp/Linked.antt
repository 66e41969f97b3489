-- ===== src/Otlp/Linked.antt =====
-- Spans of one trace in a run of exports: the ids under which they arrive fit together.
use rastir.Base.{
  ℕ, ◌+◌, ◌≤◌, String, Bool, true, false, not, ◌≡◌, refl, sym, ap, ◌∙◌, subst, Option, none, some,
  List, [], ◌∷◌, ◌++◌, length, arith, str_eq, Bool-cases, Option-cases, inl, inr,
}
use rastir.Base.Integers.{ℤ}
use rastir.Text.{text_take}
use rastir.Text.Hex.{int16}
use rastir.Otlp.Fields.{ReadableSpan, SpanContext, stamped}
use rastir.Otlp.Reference.{
  Sent, raw_trace_id, raw_span_id, is_xray, epoch_of, is_complete, parent_of, assembled, conversion,
}
use rastir.Otlp.{Platform, Forwarder}
use rastir.Otlp.Conversion.{handed, Sound, at_most_one, export_span-Exported}
use rastir.Otlp.Epochs.{after, export_all, export_all-format, same_epoch}

-- What the parts of a conversion say of its result.
record Parts (s : Sent) (epoch : Option ℕ) (r : ReadableSpan) : Type 0 where
  raw : ℤ
  raw_is : int16 (text_take 32 (raw_trace_id s)) ≡ some raw
  trace : r.context.trace_id ≡ stamped epoch raw
  span : int16 (text_take 16 (raw_span_id s)) ≡ some r.context.span_id
  local : r.context.is_remote ≡ false
  parent : parent_of r.context.trace_id s.span.parent_id ≡ some r.parent

-- The span of the child names that of the parent, by what the exporter takes of the id.
pub record IsChild (child parent : Sent) : Type 0 where
  pub id : String
  pub same_trace : raw_trace_id child ≡ raw_trace_id parent
  pub names : child.span.parent_id ≡ some id
  pub there : str_eq id "" ≡ false
  pub same_span : text_take 16 id ≡ text_take 16 (raw_span_id parent)

abbrev at_remote : ℤ → ℤ → SpanContext
at_remote trace_id span_id = record { trace_id = trace_id; span_id = span_id; is_remote = true }

-- The child's span has the trace of the parent's, and its context as the parent.
abbrev pub Fits : ReadableSpan → ReadableSpan → Type 0
Fits c p =
    (c.context.trace_id ≡ p.context.trace_id)
    × (c.parent ≡ some (record p.context { is_remote = true }))

nothing : {o : Option ReadableSpan} {r : ReadableSpan} → o ≡ none → o ≡ some r → ⊥
nothing e h = ground (arith, e, h)

some_injective : {A : Type 0} {a b : A} → some a ≡ some b → a ≡ b
some_injective e = cc

tail_injective : {x : ReadableSpan} {a b : List ReadableSpan} → x ∷ a ≡ x ∷ b → a ≡ b
tail_injective e = cc

append-cancel : (l a b : List ReadableSpan) → l ++ a ≡ l ++ b → a ≡ b
append-cancel [] a b e = e
append-cancel (x ∷ l) a b e = append-cancel l a b (tail_injective e)

one_of : (o : Option ReadableSpan) (r : ReadableSpan) → at_most_one o ≡ r ∷ [] → o ≡ some r
one_of none r e = absurd (cc)
one_of (some x) r e = cc

module _ (platform : Platform) where
  conversion-Parts :
      (s : Sent) (epoch : Option ℕ) (r : ReadableSpan)
      → conversion platform s epoch ≡ some r
      → Parts s epoch r
  conversion-Parts s epoch r h = elim (Option-cases (int16 (text_take 32 (raw_trace_id s)))) [
    | inl e ↦ absurd (nothing (rw e refl) h)
    | inr (raw, e) ↦ elim (Option-cases (int16 (text_take 16 (raw_span_id s)))) [
      | inl e' ↦ absurd (nothing (rw (e, e') refl) h)
      | inr (span_id, e') ↦ elim (Option-cases (parent_of (stamped epoch raw) s.span.parent_id)) [
        | inl e'' ↦ absurd (nothing (rw (e, e', e'') refl) h)
        | inr (parent, e'') ↦
            let made : conversion platform s epoch
                ≡ some (assembled platform s (stamped epoch raw) span_id parent) =
              rw (e, e', e'') refl in
            subst (Parts s epoch) (some_injective (sym made ∙ h)) (record {
              raw = raw;
              raw_is = e;
              trace = refl;
              span = e';
              local = refl;
              parent = e'';
            })
      ]
    ]
  ]

  -- The states in which the two are exported: the first of them in `f`, and then those between.
  abbrev pub state_of : Bool → Sent → List Sent → Forwarder → Forwarder
  state_of true other between f = f
  state_of false other between f = export_all platform between (after platform other f)

  linked_parts :
      (child parent : Sent) (epoch : Option ℕ) (c p : ReadableSpan)
      → IsChild child parent
      → conversion platform child epoch ≡ some c
      → conversion platform parent epoch ≡ some p
      → Fits c p
  linked_parts child parent epoch c p is hc hp =
      let of_child = conversion-Parts child epoch c hc in
      let of_parent = conversion-Parts parent epoch p hp in
      let numbers : of_child.raw ≡ of_parent.raw =
        some_injective (
          sym of_child.raw_is
          ∙ ap (λ t. int16 (text_take 32 t)) is.same_trace
          ∙ of_parent.raw_is) in
      let trace : c.context.trace_id ≡ p.context.trace_id =
        of_child.trace ∙ ap (stamped epoch) numbers ∙ sym of_parent.trace in
      let read : parent_of c.context.trace_id child.span.parent_id
          ≡ some (some (at_remote c.context.trace_id p.context.span_id)) =
        rw (is.names, is.there, is.same_span, of_parent.span) refl in
      (
        trace,
        some_injective (sym of_child.parent ∙ read)
            ∙ ap (λ t. some (at_remote t p.context.span_id)) trace,
      )

  complete_of_handed :
      (s : Sent) (f : Forwarder) (r : ReadableSpan)
      → handed platform s f ≡ some r
      → (is_complete s ≡ true) × (conversion platform s (epoch_of s f) ≡ some r)
  complete_of_handed s f r h =
      let of_complete = λ (e : is_complete s ≡ true).
        let it : handed platform s f ≡ conversion platform s (epoch_of s f) = rw e refl in it in
      elim (Bool-cases (is_complete s)) [
        | inl e ↦ (e, sym (of_complete e) ∙ h)
        | inr e ↦ absurd (nothing (rw e refl) h)
      ]

  -- What the export appends is what the conversion gives.
  handed_of_ended :
      (s : Sent) (f : Forwarder) (r : ReadableSpan)
      → Sound platform f.resource_cache
      → (after platform s f).ended ≡ f.ended ++ r ∷ []
      → handed platform s f ≡ some r
  handed_of_ended s f r sound h = one_of (handed platform s f) r (
      append-cancel f.ended (at_most_one (handed platform s f)) (r ∷ [])
        (sym (export_span-Exported platform s f sound).ended ∙ h))

  Fits-if_handed :
      (child parent : Sent) (child_first : Bool) (between : List Sent) (f : Forwarder)
      (c p : ReadableSpan)
      → Sound platform f.resource_cache
      → (is_xray f ≡ true → length f.trace_epoch_cache + length between ≤ 10000)
      → IsChild child parent
      → handed platform child (state_of child_first parent between f) ≡ some c
      → handed platform parent (state_of (not child_first) child between f) ≡ some p
      → Fits c p
  Fits-if_handed child parent true between f c p sound room is hc hp =
      let (whole, made_c) = complete_of_handed child f c hc in
      let (_, made_p) = complete_of_handed parent (state_of false child between f) p hp in
      let same = same_epoch platform child parent between f sound room is.same_trace whole in
      linked_parts child parent (epoch_of child f) c p is made_c
        (ap (conversion platform parent) (sym same) ∙ made_p)
  Fits-if_handed child parent false between f c p sound room is hc hp =
      let (whole, made_p) = complete_of_handed parent f p hp in
      let (_, made_c) = complete_of_handed child (state_of false parent between f) c hc in
      let same = same_epoch platform parent child between f sound room (sym is.same_trace) whole in
      linked_parts child parent (epoch_of parent f) c p is
        (ap (conversion platform child) (sym same) ∙ made_c) made_p

  state_of-Sound :
      (first : Bool) (other : Sent) (between : List Sent) (f : Forwarder)
      → Sound platform f.resource_cache
      → Sound platform (state_of first other between f).resource_cache
  state_of-Sound true other between f sound = sound
  state_of-Sound false other between f sound =
      (export_all-format platform between (after platform other f)
        (export_span-Exported platform other f sound).sound).0

  -- A child and its parent that `export_span` both hands on, `c` and `p`, in either order and with any
  -- spans in between, arrive with one trace id, the child under its parent's context. The child
  -- names its parent by the first 16 characters, the ids may differ behind them. This holds where
  -- each resource in the cache is that of its key and, in X-Ray's format, the cache of epochs has
  -- room for the spans in between; in other formats it may be full.
  pub export_all-Fits :
      (child parent : Sent) (child_first : Bool) (between : List Sent) (f : Forwarder)
      (c p : ReadableSpan)
      → Sound platform f.resource_cache
      → (is_xray f ≡ true → length f.trace_epoch_cache + length between ≤ 10000)
      → IsChild child parent
      → (after platform child (state_of child_first parent between f)).ended
        ≡ (state_of child_first parent between f).ended ++ c ∷ []
      → (after platform parent (state_of (not child_first) child between f)).ended
        ≡ (state_of (not child_first) child between f).ended ++ p ∷ []
      → Fits c p
  export_all-Fits child parent child_first between f c p sound room is hc hp =
      let f' = state_of child_first parent between f in
      let f'' = state_of (not child_first) child between f in
      Fits-if_handed child parent child_first between f c p sound room is
        (handed_of_ended child f' c (state_of-Sound child_first parent between f sound) hc)
        (handed_of_ended parent f'' p (state_of-Sound (not child_first) child between f sound) hp)
