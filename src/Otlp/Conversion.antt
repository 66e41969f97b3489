-- ===== src/Otlp/Conversion.antt =====
-- What the forwarder hands on, whatever its caches hold.
use mathlib.Core.List.{append-nil}
use rastir.Base.{
  String, true, ◌≡◌, refl, sym, ◌||◌, Option, none, some, List, [], ◌∷◌, ◌++◌, arith, str_eq,
  eq_iff, Bool-cases, Option-cases, inl, inr, if◌then◌else◌,
}
use rastir.Base.Integers.{ℤ}
use rastir.Text.{text_take}
use rastir.Text.Hex.{int16}
use rastir.Otlp.Fields.{ReadableSpan, Resource, ResourceKey, stamped}
use rastir.Otlp.Reference.{
  Sent, raw_trace_id, raw_span_id, start_of, is_xray, epochs_of, epoch_of, is_complete, parent_of,
  conversion,
}
use rastir.Otlp.{
  Platform, Forwarder, same_key, trace_epoch, hex_to_trace_id, hex_to_span_id, parent_context,
  find_resource, create_resource, get_resource, cached_or_new, convert, dict_to_readable_span,
  export_span,
}

-- A call of `export_span`.

same_key-eq : (j k : ResourceKey) → same_key j k ≡ true → j ≡ k
same_key-eq (a, b, c) (d, e, f) h = ground (arith, eq_iff a d, eq_iff b e, eq_iff c f)

abbrev pub answered : Option ReadableSpan → Option (Unit {0})
answered none = none
answered (some readable) = some tt

abbrev pub at_most_one : {A : Type 0} → Option A → List A
at_most_one none = []
at_most_one (some a) = a ∷ []

module _ (platform : Platform) where
  -- Each resource of the cache is that of its key.
  abbrev pub Sound : List (ResourceKey × Resource) → Type 0
  Sound [] = Unit
  Sound ((key, resource) ∷ cache) = (resource ≡ create_resource platform key) × Sound cache

  Sound-append_one :
      (key : ResourceKey) (cache : List (ResourceKey × Resource))
      → Sound cache
      → Sound (cache ++ (key, create_resource platform key) ∷ [])
  Sound-append_one key [] h = (refl, tt)
  Sound-append_one key (e ∷ cache) (h, hs) = (h, Sound-append_one key cache hs)

  find_resource-create :
      (key : ResourceKey) (cache : List (ResourceKey × Resource)) (r : Resource)
      → Sound cache
      → find_resource key cache ≡ some r
      → r ≡ create_resource platform key
  unfolding find_resource
  find_resource-create key [] r h e = absurd (cc)
  find_resource-create key ((k, x) ∷ cache) r (h, hs) e =
      ground (arith, find_resource-create key cache r hs, same_key-eq k key)

  -- What `get_resource` gives and leaves.
  record Got (key : ResourceKey) (f : Forwarder) : Type 0 where
    cache : List (ResourceKey × Resource)
    is :
        get_resource platform key f
        ≡ (some (create_resource platform key), record f { resource_cache = cache })
    sound : Sound cache

  get_resource-Got : (key : ResourceKey) (f : Forwarder) → Sound f.resource_cache → Got key f
  unfolding get_resource cached_or_new
  get_resource-Got key f sound = elim (Option-cases (find_resource key f.resource_cache)) [
    | inl e ↦ record {
      cache = f.resource_cache ++ (key, create_resource platform key) ∷ [];
      is = rw e refl;
      sound = Sound-append_one key f.resource_cache sound;
    }
    | inr (r, e) ↦ record {
      cache = f.resource_cache;
      is = rw (e, find_resource-create key f.resource_cache r sound e) refl;
      sound = sound;
    }
  ]

  trace_epoch_lem :
      (s : Sent) (f : Forwarder)
      → trace_epoch (raw_trace_id s) (start_of s) f
        ≡ (some (epoch_of s f), record f { trace_epoch_cache = epochs_of s f })
  unfolding trace_epoch
  trace_epoch_lem s f = elim (Bool-cases (is_xray f)) [ inl e ↦ rw e refl | inr e ↦ rw e refl ]

  parent_context_lem :
      (trace_id : ℤ) (parent : Option String) (f : Forwarder)
      → parent_context trace_id parent f ≡ (parent_of trace_id parent, f)
  unfolding parent_context hex_to_span_id
  parent_context_lem trace_id none f = refl
  parent_context_lem trace_id (some p) f = elim (Bool-cases (str_eq p "")) [
    | inl e ↦ rw e refl
    | inr e ↦ elim (Option-cases (int16 (text_take 16 p))) [
      | inl e' ↦ rw (e, e') refl
      | inr (n, e') ↦ rw (e, e') refl
    ]
  ]

  -- What a conversion gives and leaves.
  record Converts (s : Sent) (f : Forwarder) : Type 0 where
    cache : List (ResourceKey × Resource)
    is : convert platform s.now (raw_trace_id s) (raw_span_id s) s.span s.key f ≡ (
      conversion platform s (epoch_of s f),
      record f { trace_epoch_cache = epochs_of s f; resource_cache = cache },
    )
    sound : Sound cache

  convert-Converts : (s : Sent) (f : Forwarder) → Sound f.resource_cache → Converts s f
  unfolding convert hex_to_trace_id hex_to_span_id
  convert-Converts s f sound =
      let f' : Forwarder = record f { trace_epoch_cache = epochs_of s f } in
      let epoch = trace_epoch_lem s f in
      let failed =
        λ (e : convert platform s.now (raw_trace_id s) (raw_span_id s) s.span s.key f ≡ (none, f'))
            (e' : conversion platform s (epoch_of s f) ≡ none).
          let it : Converts s f = record {
            cache = f.resource_cache;
            is = rw (e, e') refl;
            sound = sound;
          } in
          it in
      elim (Option-cases (int16 (text_take 32 (raw_trace_id s)))) [
        | inl e ↦ failed (rw (epoch, e) refl) (rw e refl)
        | inr (raw, e) ↦ elim (Option-cases (int16 (text_take 16 (raw_span_id s)))) [
          | inl e' ↦ failed (rw (epoch, e, e') refl) (rw (e, e') refl)
          | inr (span_id, e') ↦
              let trace_id = stamped (epoch_of s f) raw in
              elim (Option-cases (parent_of trace_id s.span.parent_id)) [
                | inl e'' ↦
                    failed
                      (rw (epoch, e, e', parent_context_lem trace_id s.span.parent_id f', e'') refl)
                      (rw (e, e', e'') refl)
                | inr (parent, e'') ↦
                    let got = get_resource-Got s.key f' sound in
                    record {
                      cache = got.cache;
                      is =
                          rw
                            (
                              epoch,
                              e,
                              e',
                              parent_context_lem trace_id s.span.parent_id f',
                              e'',
                              got.is,
                            )
                            refl;
                      sound = got.sound;
                    }
              ]
        ]
      ]

  -- What is handed on.
  abbrev pub handed : Sent → Forwarder → Option ReadableSpan
  handed s f = if is_complete s then conversion platform s (epoch_of s f) else none

  abbrev pub answer : Sent → Forwarder → Option (Unit {0})
  answer s f = if is_complete s then answered (conversion platform s (epoch_of s f)) else some tt

  pub record Exported (s : Sent) (f : Forwarder) (r : Option (Unit {0}) × Forwarder) : Type 0 where
    pub answered : r.0 ≡ answer s f
    pub ended : r.1.ended ≡ f.ended ++ at_most_one (handed s f)
    pub format : r.1.trace_id_format ≡ f.trace_id_format
    pub epochs :
        r.1.trace_epoch_cache ≡ (if is_complete s then epochs_of s f else f.trace_epoch_cache)
    pub sound : Sound r.1.resource_cache

  -- Where each resource in the cache is the one that would be made for its key, `export_span` hands
  -- on what the conversion by itself gives, where all that it takes of the state is the epoch of
  -- the trace. A span without the id of its trace or its own is left out without an exception; one
  -- of which an id is no hexadecimal number raises, and is not handed on. The resources stay so,
  -- the format stays, and in X-Ray's format the epoch is noted whenever both ids are there, even if
  -- the call raises.
  pub export_span-Exported :
      (s : Sent) (f : Forwarder)
      → Sound f.resource_cache
      → Exported s f (export_span platform s.now s.span s.key f)
  unfolding export_span dict_to_readable_span
  export_span-Exported s f sound =
      let c = convert-Converts s f sound in
      elim (Bool-cases (str_eq (raw_trace_id s) "" || str_eq (raw_span_id s) "")) [
        | inl e ↦ record {
          answered = rw e refl;
          ended = rw e (sym (append-nil f.ended));
          format = rw e refl;
          epochs = rw e refl;
          sound = rw e sound;
        }
        | inr e ↦ elim (Option-cases (conversion platform s (epoch_of s f))) [
          | inl e' ↦ record {
            answered = rw (e, c.is, e') refl;
            ended = rw (e, c.is, e') (sym (append-nil f.ended));
            format = rw (e, c.is, e') refl;
            epochs = rw (e, c.is, e') refl;
            sound = rw (e, c.is, e') c.sound;
          }
          | inr (readable, e') ↦ record {
            answered = rw (e, c.is, e') refl;
            ended = rw (e, c.is, e') refl;
            format = rw (e, c.is, e') refl;
            epochs = rw (e, c.is, e') refl;
            sound = rw (e, c.is, e') c.sound;
          }
        ]
      ]
