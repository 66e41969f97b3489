-- ===== src/Collector/Runs.antt =====
-- The server of src/rastir/server/app.py at work: requests and rounds of the consumer in any order.
use rastir.Base.{
  ℕ, ◌<◌, String, ◌≡◌, sym, subst, inl, inr, Option, some, arith, ltb, if◌then◌else◌, Bool-cases,
  Option-cases,
}
use rastir.Base.Integers.{ℤ}
use rastir.Config.{ServerConfig}
use rastir.Config.Loading.{File}
use rastir.TraceStore
use rastir.TraceStore.{TraceStore, expire_stale}
use rastir.TraceStore.Expiry.{frame-expire_stale}
use rastir.TraceStore.Insert.{expired_first}
use rastir.TraceStore.Invariant
use rastir.TraceStore.Invariant.{expire_stale-IsValid}
use rastir.Ingestion.{Outside, Ingestion}
use rastir.Ingestion.Loop.{Phase, running, run_round}
use rastir.Ingestion.Sound.{WellFormed}
use rastir.Ingestion.Sound.Rounds.{
  enqueue-WellFormed, update_gauges-WellFormed, run_round-WellFormed,
}
use rastir.EvaluationWorker.{Pool, drain_round}
use rastir.EvaluationWorker.Rounds.{drain_round-WellFormed}
use rastir.Collector.{Collector, Library, create_app}
use rastir.Collector.Routes.{
  Request, telemetry_batch, tag_tenant, check_rate, accept_batch, take_batch, ingest_telemetry,
  prometheus_metrics, query_traces, given,
}
use rastir.Collector.Admin.{Host, Body, reload_config, update_config}
use rastir.Collector.Updates.{reload_config-Guarded, update_config-Guarded}
use rastir.Collector.Startup.{create_app-WellFormed}

-- The server with its consumer task.
pub record System : Type 0 where
  pub collector : Collector
  pub phase : Phase

module _ (o : Outside) (host : Host) where
  -- One request is served, the consumer makes a round while it runs, or an evaluation task is done.
  pub data Step : System → System → Type 0 where
    telemetry :
        (r : Request) (s : System)
        → Step s (record s { collector = (ingest_telemetry o r s.collector).1 })
    scrape : (s : System) → Step s (record s { collector = prometheus_metrics o s.collector })
    query :
        (trace_id service : Option String) (limit : ℤ) (now : ℕ) (s : System)
        → Step s (record s { collector = (query_traces trace_id service limit now s.collector).1 })
    update :
        (body : Body) (s : System)
        → Step s (record s { collector = (update_config host body s.collector).1 })
    -- `_drain_loop`, with the judges `p`
    evaluation :
        (p : Pool) (s : System)
        → s.collector.evaluators ≡ some p.registry
        → Step s (record s {
          collector = record s.collector {
            worker = drain_round o p s.collector.settings s.collector.worker;
          };
        })
    reload : (s : System) → Step s (record s { collector = (reload_config host s.collector).1 })
    round :
        (c : Collector)
        → Step
            (record { collector = c; phase = running })
            (record {
              collector = record c { worker = (run_round o c.settings c.worker).1 };
              phase = (run_round o c.settings c.worker).0;
            })

  -- Some steps, one after the other.
  pub data Reach : System → System → Type 0 where
    here : (s : System) → Reach s s
    step : (s t u : System) → Step s t → Reach t u → Reach s u

  ingest_telemetry-WellFormed :
      (r : Request) (c : Collector)
      → WellFormed c.worker
      → WellFormed (ingest_telemetry o r c).1.worker
  unfolding ingest_telemetry take_batch accept_batch
  ingest_telemetry-WellFormed r c h = elim (Option-cases (telemetry_batch r.payload)) [
    | inl e ↦ subst WellFormed (ground (arith, e)) h
    | inr (b, e) ↦ elim (Option-cases (check_rate c.rate_limiter r b.service).0) [
      | inr (d, f) ↦ subst WellFormed (ground (arith, e, f)) h
      | inl f ↦
          subst WellFormed (ground (arith, e, f))
            (enqueue-WellFormed o c.settings (tag_tenant c.config.multi_tenant r b) c.worker h)
    ]
  ]

  expired-WellFormed :
      (now : ℕ) (s : TraceStore) (w : Ingestion)
      → w.trace_store ≡ some s
      → WellFormed w
      → WellFormed (record w { trace_store = some (if ltb 0 s.ttl then expire_stale now s else s) })
  expired-WellFormed now s w e h =
      let (valid, room) = h.parts.store s e in
      let kept : 0 < (expire_stale now s).max_traces =
        omega (arith, room, (frame-expire_stale now s).max_traces) in
      let store : (t : TraceStore)
          → some (expire_stale now s) ≡ some t
          → Invariant.IsValid t × (0 < t.max_traces) =
        λ t f.
          let same : expire_stale now s ≡ t = ground (arith, f) in
          (
            subst Invariant.IsValid same (expire_stale-IsValid now s valid),
            subst (λ t. 0 < t.max_traces) same kept,
          ) in
      subst (λ t. WellFormed (record w { trace_store = some t })) (sym (expired_first now s))
        (record {
          queue = record { positive = h.queue.positive; fits = h.queue.fits };
          parts = record { store = store; tasks = h.parts.tasks };
        })

  query_traces-WellFormed :
      (trace_id service : Option String) (limit : ℤ) (now : ℕ) (c : Collector)
      → WellFormed c.worker
      → WellFormed (query_traces trace_id service limit now c).1.worker
  unfolding query_traces TraceStore.search TraceStore.recent
  query_traces-WellFormed trace_id service limit now c h =
      elim (Option-cases c.worker.trace_store) [
        | inl e ↦ subst WellFormed (ground (arith, e)) h
        | inr (s, e) ↦ elim (Bool-cases (given trace_id)) [
          | inl f ↦ subst WellFormed (ground (arith, e, f)) h
          | inr f ↦ elim (Bool-cases (given service)) [
            | inl g ↦
                subst WellFormed (ground (arith, e, f, g)) (expired-WellFormed now s c.worker e h)
            | inr g ↦
                subst WellFormed (ground (arith, e, f, g)) (expired-WellFormed now s c.worker e h)
          ]
        ]
      ]

  Step-WellFormed :
      (s t : System) → Step s t → WellFormed s.collector.worker → WellFormed t.collector.worker
  unfolding prometheus_metrics
  Step-WellFormed _ _ (telemetry r s) h = ingest_telemetry-WellFormed r s.collector h
  Step-WellFormed _ _ (scrape s) h =
      update_gauges-WellFormed o s.collector.settings s.collector.worker h
  Step-WellFormed _ _ (query trace_id service limit now s) h =
      query_traces-WellFormed trace_id service limit now s.collector h
  Step-WellFormed _ _ (update body s) h =
      subst WellFormed (sym (update_config-Guarded host body s.collector).parts.worker) h
  Step-WellFormed _ _ (reload s) h =
      subst WellFormed (sym (reload_config-Guarded host s.collector).parts.worker) h
  Step-WellFormed _ _ (evaluation p s e) h =
      drain_round-WellFormed o s.collector.settings p s.collector.worker h
  Step-WellFormed _ _ (round c) h = run_round-WellFormed o c.settings c.worker h

  Reach-WellFormed :
      (s t : System) → Reach s t → WellFormed s.collector.worker → WellFormed t.collector.worker
  Reach-WellFormed _ _ (here s) h = h
  Reach-WellFormed _ _ (step s t u one more) h =
      Reach-WellFormed t u more (Step-WellFormed s t one h)

  -- A server that has started keeps its parts well formed in every order of requests, scrapes, updates
  -- of the configuration, rounds of the consumer and evaluations: the queue within its bound, the trace store
  -- and the evaluation queue valid.
  pub create_app-Reach :
      (lib : Library) (c : ServerConfig) (overrides : File) (k : Collector) (t : System)
      → create_app lib c overrides ≡ some k
      → Reach (record { collector = k; phase = running }) t
      → WellFormed t.collector.worker
  create_app-Reach lib c overrides k t h r =
      Reach-WellFormed _ t r (create_app-WellFormed lib c overrides k h).0
