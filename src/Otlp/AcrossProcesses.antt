-- ===== src/Otlp/AcrossProcesses.antt =====
-- The spans of a tool's caller and of its server, as the exporter hands them on.
use Prim.Native.Char.{Char}
use rastir.Base.{
  [], ◌∷◌, ◌++◌, ℕ, ◌≤◌, String, Bool, true, false, not, ◌≡◌, ◌≢◌, refl, ap, Option, List, length,
  ◌+◌, str_eq, eq_iff, arith, Bool-cases, inl, inr,
}
use rastir.Text.{text_take, text_length}
use rastir.Text.Parts.{text_take-text_take}
use rastir.SpanRecord.{SpanRecord, to_dict}
use rastir.Tracing.{Client, Raised}
use rastir.Remote.{Headers, ToolHost}
use rastir.Remote.AcrossProcesses.{Joined}
use rastir.Otlp.Fields.{ReadableSpan, ResourceKey}
use rastir.Otlp.Reference.{Sent, is_xray}
use rastir.Otlp.{Platform, Forwarder}
use rastir.Otlp.Epochs.{after}
use rastir.Otlp.Conversion.{Sound}
use rastir.Otlp.Linked.{Fits, state_of, export_all-Fits}

-- A span of a client as the exporter gets it, with the clock at `now`.
abbrev pub sent_by : ℕ → ResourceKey → SpanRecord → Sent
sent_by now key span = record { now = now; span = to_dict span; key = key }

cons_not_empty : (c : Char) (s : String) → str_eq (String.◌∷◌ c s) "" ≡ false
unfolding text_length
cons_not_empty c s = elim (Bool-cases (str_eq (String.◌∷◌ c s) "")) [
  | inl e ↦
      let long : text_length (String.◌∷◌ c s) ≡ 0 =
        ap text_length ((eq_iff (String.◌∷◌ c s) "").0 e) in
      absurd (omega (arith, long))
  | inr e ↦ e
]

not_empty : (s : String) → text_take 16 s ≢ s → str_eq (text_take 16 s) "" ≡ false
unfolding text_take
not_empty String.[] h = absurd (h refl)
not_empty (String.◌∷◌ c s) h = cons_not_empty c (text_take 15 s)

-- The spans of the caller and of the server that `mcp_endpoint-call_tool` speaks of fit again
-- behind the exporter, if `export_span` hands on both, in whichever order and whatever is exported in
-- between: the server's has the trace id of the caller's, and the caller's context as its parent,
-- since the half of the id that the header carries is the one that the exporter keeps. Each
-- resource in the cache is that of its key and, in X-Ray's format, the cache of epochs has room for
-- the spans in between.
pub call_tool-Fits :
    (platform : Platform) (asked : Option Raised × Client × Option Headers) (c : Client)
    (h : ToolHost) (r : Option Raised × ToolHost) (j : Joined c asked h r) (now now' : ℕ)
    (key key' : ResourceKey) (server_first : Bool) (between : List Sent) (f : Forwarder)
    (served called : ReadableSpan)
    → Sound platform f.resource_cache
    → (is_xray f ≡ true → length f.trace_epoch_cache + length between ≤ 10000)
    → (after platform
        (sent_by now key j.own)
        (state_of platform server_first (sent_by now' key' j.caller) between f)).ended
      ≡ (state_of platform server_first (sent_by now' key' j.caller) between f).ended ++ served ∷ []
    → (after platform
        (sent_by now' key' j.caller)
        (state_of platform (not server_first) (sent_by now key j.own) between f)).ended
      ≡ (state_of platform (not server_first) (sent_by now key j.own) between f).ended
        ++ called ∷ []
    → Fits served called
unfolding to_dict
call_tool-Fits platform asked c h r j now now' key key' server_first between f served called sound
      room =
    export_all-Fits platform (sent_by now key j.own) (sent_by now' key' j.caller) server_first
      between f served called sound room
      (record {
        id = text_take 16 j.caller.span_id;
        same_trace = j.same_trace;
        names = j.parent;
        there = not_empty j.caller.span_id j.not_caller;
        same_span = text_take-text_take 16 j.caller.span_id;
      })
