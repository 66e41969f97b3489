-- ===== src/Collector/Sound.antt =====
-- `POST /v1/telemetry` of src/rastir/server/app.py on a collector whose queue keeps its bound.
use rastir.Base.{
  Option, Option-cases, inl, inr, ℕ, ◌≡◌, refl, subst, Bool, ◌||◌, none, some, List, [], ◌∷◌, ◌++◌,
  arith, length, ltb, str_eq, if◌then◌else◌,
}
use rastir.Queue.Window.{keep}
use rastir.RateLimiter.{RateLimiter, Dimension}
use rastir.Config.{MultiTenantSection}
use rastir.Ingestion.{Outside, Batch}
use rastir.Ingestion.Sound.{Bounded}
use rastir.Ingestion.Backpressure.{enqueue_lem}
use rastir.Collector.{Collector}
use rastir.Collector.Routes.{
  Request, Response, or_text, accepted, bad_request, server_error, rate_limited, queue_full,
  telemetry_batch, refusal, check_rate, tag, tag_tenant, accept_batch, take_batch, ingest_telemetry,
}
use rastir.Collector.Requests.{
  NoSpans, BadSpan, Parsed, Limited, Tenanted, Read, refused, crashed, batched,
  telemetry_batch-Read, check_rate-Limited, tag_tenant-Tenanted,
}

-- Whether the queue takes one more batch.
abbrev pub has_room : Collector → Bool
has_room c =
    str_eq c.settings.mode "drop_oldest" || ltb (length c.worker.queue.items) c.worker.queue.maxsize

length-tag : (tenant : _) (spans : List _) → length (tag tenant spans) ≡ length spans
unfolding tag
length-tag tenant [] = refl
length-tag tenant (s ∷ spans) = ground (arith, length-tag tenant spans)

length-tag_tenant :
    (s : MultiTenantSection) (r : Request) (b : Batch)
    → length (tag_tenant s r b).spans ≡ length b.spans
unfolding tag_tenant
length-tag_tenant s r b =
    ground (arith, length-tag (or_text "default" (r.headers s.header_name)) b.spans)

module _ (o : Outside) where
  -- How a batch is answered that is not rate limited.
  pub record Admitted (b : Batch) (n : ℕ) (c : Collector) (r : Response × Collector) : Type 0 where
    pub answer : r.0 ≡ (if has_room c then accepted n else queue_full)
    pub items_after :
        r.1.worker.queue.items
        ≡ keep
            (str_eq c.settings.mode "drop_oldest")
            c.worker.queue.maxsize
            (c.worker.queue.items ++ b ∷ [])
    pub bound : r.1.worker.queue.maxsize ≡ c.worker.queue.maxsize

  -- The answers to a request, each with what it asks for and the collector afterwards.
  pub data Answered (r : Request) (c : Collector) (out : Response × Collector) : Type 0 where
    malformed : NoSpans r.payload → out ≡ (bad_request, c) → Answered r c out
    broken : BadSpan r.payload → out ≡ (server_error, c) → Answered r c out
    over_limit :
        (b : Batch) (d : Dimension) (limiter : Option RateLimiter)
        → Parsed r.payload b
        → Limited r b.service c.rate_limiter (some d, limiter)
        → out ≡ (rate_limited d, record c { rate_limiter = limiter })
        → Answered r c out
    taken :
        (b tagged : Batch) (limiter : Option RateLimiter)
        → Parsed r.payload b
        → Limited r b.service c.rate_limiter (none, limiter)
        → Tenanted c.config.multi_tenant r b tagged
        → Admitted tagged (length b.spans) c out
        → out.1.rate_limiter ≡ limiter
        → Answered r c out

  accept_batch_lem :
      (b : Batch) (c : Collector)
      → Bounded c.worker
      → Admitted b (length b.spans) c (accept_batch o b c)
  unfolding accept_batch
  accept_batch_lem b c h = ground (arith, h.positive, h.fits, enqueue_lem o c.settings b c.worker)

  -- the branches of the handler one by one
  ingest_telemetry_cases :
      (r : Request) (c : Collector)
      → Bounded c.worker
      → (telemetry_batch r.payload ≡ none → ingest_telemetry o r c ≡ (refusal r.payload, c))
        × ((b : Batch)
            → telemetry_batch r.payload ≡ some b
            → ((d : Dimension)
                → (check_rate c.rate_limiter r b.service).0 ≡ some d
                → ingest_telemetry o r c ≡ (
                  rate_limited d,
                  record c { rate_limiter = (check_rate c.rate_limiter r b.service).1 },
                ))
              × ((check_rate c.rate_limiter r b.service).0 ≡ none
                  → Admitted
                      (tag_tenant c.config.multi_tenant r b)
                      (length b.spans)
                      c
                      (ingest_telemetry o r c)
                    × ((ingest_telemetry o r c).1.rate_limiter
                        ≡ (check_rate c.rate_limiter r b.service).1)))
  unfolding ingest_telemetry take_batch accept_batch
  ingest_telemetry_cases r c h = (
    λ e. ground (arith, e),
    λ b e. (
      λ d blocked. ground (arith, e, blocked),
      λ free.
          let c' : Collector = record c {
            rate_limiter = (check_rate c.rate_limiter r b.service).1;
          } in
          let admitted =
            accept_batch_lem (tag_tenant c.config.multi_tenant r b) c'
              (record { positive = h.positive; fits = h.fits }) in
          ground (
            arith,
            e,
            free,
            admitted.answer,
            admitted.items_after,
            admitted.bound,
            length-tag_tenant c.config.multi_tenant r b,
          ),
    ),
  )

  batched-Answered :
      (r : Request) (c : Collector)
      → Bounded c.worker
      → (b : Batch) → telemetry_batch r.payload ≡ some b
      → Parsed r.payload b
      → Answered r c (ingest_telemetry o r c)
  batched-Answered r c h b e p =
      let checked = check_rate c.rate_limiter r b.service in
      let limited = check_rate-Limited r b.service c.rate_limiter in
      elim (Option-cases checked.0) [
        | inr (d, f) ↦
            over_limit b d checked.1 p
              (subst (Limited r b.service c.rate_limiter) (ground (arith, f)) limited)
              (((ingest_telemetry_cases r c h).1 b e).0 d f)
        | inl f ↦
            let (admitted, limiter) = ((ingest_telemetry_cases r c h).1 b e).1 f in
            taken b (tag_tenant c.config.multi_tenant r b) checked.1 p
              (subst (Limited r b.service c.rate_limiter) (ground (arith, f)) limited)
              (tag_tenant-Tenanted c.config.multi_tenant r b) admitted limiter
      ]

  read-Answered :
      (r : Request) (c : Collector)
      → Bounded c.worker
      → (found : Option Batch) (response : Response) → telemetry_batch r.payload ≡ found
      → refusal r.payload ≡ response
      → Read r.payload found response
      → Answered r c (ingest_telemetry o r c)
  read-Answered r c h _ _ e f (refused bad) =
      malformed bad (ground (arith, f, (ingest_telemetry_cases r c h).0 e))
  read-Answered r c h _ _ e f (crashed bad) =
      broken bad (ground (arith, f, (ingest_telemetry_cases r c h).0 e))
  read-Answered r c h _ _ e f (batched b response p) = batched-Answered r c h b e p

  -- On a collector whose queue has a bound and keeps it: a payload that is no JSON, no object or
  -- has no list of spans with an element is answered 400, one with a span that is no object 500,
  -- and neither changes anything. A request that the rate limiter blocks, asked for the client's
  -- address and the payload's service, is answered 429 and changes only the limiter. Any other is
  -- answered 202 with the number of its spans if the queue has room or drops its oldest batches,
  -- and 429 else; afterwards the queue has the same bound and holds, within it, the newest or the
  -- oldest of the earlier batches and this one. With tenant labels on, each of its spans carries
  -- the header's tenant, or "default", and is otherwise as it came.
  pub ingest_telemetry_lem :
      (r : Request) (c : Collector) → Bounded c.worker → Answered r c (ingest_telemetry o r c)
  ingest_telemetry_lem r c h =
      read-Answered r c h (telemetry_batch r.payload) (refusal r.payload) refl refl
        (telemetry_batch-Read r.payload)
