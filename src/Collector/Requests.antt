-- ===== src/Collector/Requests.antt =====
-- What a request to `POST /v1/telemetry` of src/rastir/server/app.py asks for.
use rastir.Base.{
  String, true, false, ◌≡◌, ◌≢◌, refl, subst, ◌⊎◌, inl, inr, Option, Bool-cases, none, some, List,
  [], ◌∷◌, ◌++◌, map, arith, eq_iff,
}
use rastir.Dict
use rastir.Dict.Laws.{get-put}
use rastir.Span.{Span, text}
use rastir.Config.{MultiTenantSection}
use rastir.RateLimiter
use rastir.RateLimiter.{RateLimiter, Dimension}
use rastir.Ingestion.{Batch}
use rastir.Collector.Routes.{
  Payload, no_json, no_object, object, Request, Response, bad_request, server_error, or_text,
  objects, telemetry_batch, refusal, check_rate, tag, tag_tenant,
}

-- A text with a default for a missing one.
pub data Chosen (default : String) : Option String → String → Type 0 where
  missing : Chosen default none default
  given : (s : String) → Chosen default (some s) s

or_text-Chosen : (default : String) (o : Option String) → Chosen default o (or_text default o)
or_text-Chosen default none = missing
or_text-Chosen default (some s) = given s

-- The payloads that the checks refuse.
pub data NoSpans : Payload → Type 0 where
  not_json : NoSpans no_json
  not_object : NoSpans no_object
  no_list : (service env version : Option String) → NoSpans (object service env version none)
  empty_list :
      (service env version : Option String) → NoSpans (object service env version (some []))

-- One of the spans is no object.
pub data BadSpan : Payload → Type 0 where
  bad_span :
      (service env version : Option String) (before after : List (Option Span))
      → BadSpan (object service env version (some (before ++ none ∷ after)))

-- The payload has spans, all of them objects, and they are the batch.
pub data Parsed : Payload → Batch → Type 0 where
  parsed :
      (service env version : Option String) (b : Batch)
      → Chosen "unknown" service b.service
      → Chosen "unknown" env b.env
      → Chosen "" version b.version
      → b.spans ≢ []
      → Parsed (object service env version (some (map some b.spans))) b

-- A span with the tenant's label, and otherwise as it was.
pub record TaggedWith (tenant : String) (s t : Span) : Type 0 where
  pub label : Dict.get "tenant" t.attributes ≡ some (text tenant)
  pub others : (k : String) → k ≢ "tenant" → Dict.get k t.attributes ≡ Dict.get k s.attributes
  pub same : record t { attributes = s.attributes } ≡ s

pub data AllTagged (tenant : String) : List Span → List Span → Type 0 where
  no_span : AllTagged tenant [] []
  one_more :
      (s t : Span) (l m : List Span)
      → TaggedWith tenant s t
      → AllTagged tenant l m
      → AllTagged tenant (s ∷ l) (t ∷ m)

-- With the labels on, each span is tagged with the header's tenant, and with them off none is.
pub data Tenanted (m : MultiTenantSection) (r : Request) (b : Batch) : Batch → Type 0 where
  off : m.enabled ≡ false → Tenanted m r b b
  on :
      (tenant : String) (spans : List Span)
      → m.enabled ≡ true
      → Chosen "default" (r.headers m.header_name) tenant
      → AllTagged tenant b.spans spans
      → Tenanted m r b (record b { spans = spans })

-- What the rate limiter answers for a service, if there is one, and what it is afterwards.
pub data Limited (r : Request) (service : String)
    : Option RateLimiter → Option Dimension × Option RateLimiter → Type 0 where
  unlimited : Limited r service none (none, none)
  checked :
      (host : String) (limiter : RateLimiter)
      → Chosen "unknown" r.client_host host
      → Limited r service (some limiter) (
        (RateLimiter.check host service r.now r.later limiter).0,
        some (RateLimiter.check host service r.now r.later limiter).1,
      )

pub check_rate-Limited :
    (r : Request) (service : String) (l : Option RateLimiter)
    → Limited r service l (check_rate l r service)
unfolding check_rate
check_rate-Limited r service none = unlimited
check_rate-Limited r service (some limiter) =
    checked (or_text "unknown" r.client_host) limiter (or_text-Chosen "unknown" r.client_host)

tag-AllTagged : (tenant : String) (l : List Span) → AllTagged tenant l (tag tenant l)
unfolding tag
tag-AllTagged tenant [] = no_span
tag-AllTagged tenant (s ∷ l) =
    one_more s _ l _
      (record {
        label =
            ground (
              arith,
              get-put "tenant" "tenant" (text tenant) s.attributes,
              eq_iff "tenant" "tenant",
            );
        others = λ k differ.
            ground
              (arith, get-put "tenant" k (text tenant) s.attributes, eq_iff "tenant" k, differ);
        same = refl;
      })
      (tag-AllTagged tenant l)

pub tag_tenant-Tenanted :
    (m : MultiTenantSection) (r : Request) (b : Batch) → Tenanted m r b (tag_tenant m r b)
unfolding tag_tenant
tag_tenant-Tenanted m r b =
    let tenant = or_text "default" (r.headers m.header_name) in
    elim (Bool-cases m.enabled) [
      | inl e ↦ subst (Tenanted m r b) (ground (arith, e)) (
          on tenant (tag tenant b.spans) e (or_text-Chosen "default" (r.headers m.header_name))
            (tag-AllTagged tenant b.spans))
      | inr e ↦ subst (Tenanted m r b) (ground (arith, e)) (off e)
    ]

objects_cases :
    (l : List (Option Span))
    → ((objects l ≡ none)
        × (before : List (Option Span)) × (after : List (Option Span)) × (before ++ none ∷ after
            ≡ l))
      ⊎ ((spans : List Span) × (objects l ≡ some spans) × (map some spans ≡ l))
unfolding objects
objects_cases [] = inr ([], refl, refl)
objects_cases (none ∷ l) = inl (refl, [], l, refl)
objects_cases (some s ∷ l) = elim (objects_cases l) [
  | inl (e, before, after, same) ↦
      inl (ground (arith, e), some s ∷ before, after, ground (arith, same))
  | inr (spans, e, same) ↦ inr (s ∷ spans, ground (arith, e), ground (arith, same))
]

-- A payload is refused by the checks, has a span that is no object, or is parsed.
pub data Read (p : Payload) : Option Batch → Response → Type 0 where
  refused : NoSpans p → Read p none bad_request
  crashed : BadSpan p → Read p none server_error
  batched : (b : Batch) (r : Response) → Parsed p b → Read p (some b) r

pub telemetry_batch-Read : (p : Payload) → Read p (telemetry_batch p) (refusal p)
unfolding telemetry_batch refusal
telemetry_batch-Read no_json = refused not_json
telemetry_batch-Read no_object = refused not_object
telemetry_batch-Read (object service env version none) = refused (no_list service env version)
telemetry_batch-Read (object service env version (some [])) =
    refused (empty_list service env version)
telemetry_batch-Read (object service env version (some (x ∷ l))) = elim (objects_cases (x ∷ l)) [
  | inl (e, before, after, same) ↦ rw (e) (
      crashed (
        subst (λ l. BadSpan (object service env version (some l))) same
          (bad_span service env version before after)))
  | inr (spans, e, same) ↦
      let b : Batch = record {
        service = or_text "unknown" service;
        env = or_text "unknown" env;
        version = or_text "" version;
        spans = spans;
      } in
      rw e (
        batched b server_error (
          subst (λ l. Parsed (object service env version (some l)) b) same
            (parsed service env version b (or_text-Chosen "unknown" service)
              (or_text-Chosen "unknown" env) (or_text-Chosen "" version)
              (λ empty. absurd (ground (arith, same, empty))))))
]
