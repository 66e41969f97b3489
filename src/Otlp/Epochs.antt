-- ===== src/Otlp/Epochs.antt =====
-- The epochs of the traces over a run of exports.
use rastir.Base.{
  ℕ, suc, ◌+◌, ◌≤◌, String, true, false, ◌≡◌, refl, sym, ◌∙◌, some, List, [], ◌∷◌, length, ltb,
  arith, eq_iff, Bool-cases, Option-cases, inl, inr, if◌then◌else◌,
}
use rastir.Dict
use rastir.Dict.{Dict}
use rastir.Dict.Laws.{get-put, has_of_get}
use rastir.Dict.Measure.{length-put_new}
use rastir.Otlp.Reference.{Sent, raw_trace_id, start_of, is_xray, epoch_of, is_complete}
use rastir.Otlp.{Platform, Forwarder, noted, export_span}
use rastir.Otlp.Conversion.{Sound, export_span-Exported}

-- The cache has room for as many traces more.

abbrev Room : ℕ → Dict ℕ → Type 0
Room n cache = length cache + n ≤ 10001

lt-not_ltb : (a b : ℕ) → b ≤ a → ltb a b ≡ false
lt-not_ltb a b h = ground (arith, h)

noted-Room :
    (n : ℕ) (t : String) (e : ℕ) (cache : Dict ℕ) → Room (suc n) cache → Room n (noted t e cache)
unfolding noted
noted-Room n t e cache room = elim (Bool-cases (Dict.has t cache)) [
  | inl h ↦ rw h (omega (arith, room))
  | inr h ↦
      rw (h, lt-not_ltb 10000 (length cache) (omega (arith, room)))
        (omega (arith, room, length-put_new t e cache h))
]

noted-get_own :
    (t : String) (e : ℕ) (cache : Dict ℕ) → (x : ℕ) × (Dict.get t (noted t e cache) ≡ some x)
unfolding noted Dict.has
noted-get_own t e cache = elim (Option-cases (Dict.get t cache)) [
  | inl h ↦ (
    e,
    rw h (
        ground (arith, get-put t t e (if ltb 10000 (length cache) then [] else cache), eq_iff t t)),
  )
  | inr (x, h) ↦ (x, rw (h, h) refl)
]

noted-known :
    (t : String) (e x : ℕ) (cache : Dict ℕ) → Dict.get t cache ≡ some x → noted t e cache ≡ cache
unfolding noted
noted-known t e x cache h = rw (has_of_get t cache h) refl

noted-get :
    (t u : String) (e x n : ℕ) (cache : Dict ℕ)
    → Room (suc n) cache
    → Dict.get t cache ≡ some x
    → Dict.get t (noted u e cache) ≡ some x
unfolding noted
noted-get t u e x n cache room known = elim (Bool-cases (Dict.has u cache)) [
  | inl h ↦ rw h known
  | inr h ↦
      rw (h, lt-not_ltb 10000 (length cache) (omega (arith, room)))
        (ground (arith, get-put u t e cache, eq_iff u t, has_of_get t cache known, h, known))
]

module _ (platform : Platform) where
  -- The state after an export, and after several: the worker goes on after an exception.
  abbrev pub after : Sent → Forwarder → Forwarder
  after s f = (export_span platform s.now s.span s.key f).1

  unfoldable pub export_all : List Sent → Forwarder → Forwarder
  export_all [] f = f
  export_all (s ∷ sent) f = export_all sent (after s f)

  -- The epoch of a trace that is known stays, while the cache has room.
  record Known (t : String) (x n : ℕ) (f : Forwarder) : Type 0 where
    sound : Sound platform f.resource_cache
    xray : is_xray f ≡ true
    room : Room n f.trace_epoch_cache
    known : Dict.get t f.trace_epoch_cache ≡ some x

  after-Known :
      (t : String) (x n : ℕ) (s : Sent) (f : Forwarder)
      → Known t x (suc n) f
      → Known t x n (after s f)
  after-Known t x n s f k =
      let e = export_span-Exported platform s f k.sound in
      elim (Bool-cases (is_complete s)) [
        | inl h ↦ record {
          sound = e.sound;
          xray = rw e.format k.xray;
          room =
              rw (e.epochs, h, k.xray)
                (noted-Room n (raw_trace_id s) (start_of s) f.trace_epoch_cache k.room);
          known =
              rw (e.epochs, h, k.xray)
                (noted-get t (raw_trace_id s) (start_of s) x n f.trace_epoch_cache k.room k.known);
        }
        | inr h ↦ record {
          sound = e.sound;
          xray = rw e.format k.xray;
          room = rw (e.epochs, h) (omega (arith, k.room));
          known = rw (e.epochs, h) k.known;
        }
      ]

  export_all-get :
      (t : String) (x : ℕ) (sent : List Sent) (f : Forwarder)
      → Known t x (length sent) f
      → Dict.get t (export_all sent f).trace_epoch_cache ≡ some x
  unfolding export_all
  export_all-get t x [] f k = k.known
  export_all-get t x (s ∷ sent) f k =
      export_all-get t x sent (after s f) (after-Known t x (length sent) s f k)

  pub export_all-format :
      (sent : List Sent) (f : Forwarder)
      → Sound platform f.resource_cache
      → (Sound platform (export_all sent f).resource_cache)
        × ((export_all sent f).trace_id_format ≡ f.trace_id_format)
  unfolding export_all
  export_all-format [] f sound = (sound, refl)
  export_all-format (s ∷ sent) f sound =
      let e = export_span-Exported platform s f sound in
      let (sound', format) = export_all-format sent (after s f) e.sound in
      (sound', format ∙ e.format)

  pub same_epoch :
      (first last : Sent) (between : List Sent) (f : Forwarder)
      → Sound platform f.resource_cache
      → (is_xray f ≡ true → length f.trace_epoch_cache + length between ≤ 10000)
      → raw_trace_id first ≡ raw_trace_id last
      → is_complete first ≡ true
      → epoch_of last (export_all between (after first f)) ≡ epoch_of first f
  same_epoch first last between f sound room same complete =
      let e = export_span-Exported platform first f sound in
      let (_, format) = export_all-format between (after first f) e.sound in
      let t = raw_trace_id first in
      elim (Bool-cases (is_xray f)) [
        | inl h ↦
            let (x, own) = noted-get_own t (start_of first) f.trace_epoch_cache in
            let later = export_all-get t x between (after first f) (record {
              sound = e.sound;
              xray = rw e.format h;
              room =
                  rw (e.epochs, complete, h)
                    (noted-Room (length between) t (start_of first) f.trace_epoch_cache
                      (omega (arith, room h)));
              known = rw (e.epochs, complete, h) own;
            }) in
            rw (format, e.format, h, sym same)
              (rw
                (noted-known t (start_of last) x
                  (export_all between (after first f)).trace_epoch_cache later)
                (later ∙ sym own))
        | inr h ↦ rw (format, e.format, h) refl
      ]
