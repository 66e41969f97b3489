-- ===== src/Collector/Factories.antt =====
-- What the factories of `create_app` in src/rastir/server/app.py give, and where they raise.
use rastir.Base.{
  ℕ, ◌*◌, ◌^◌, ◌<◌, ◌≡◌, ◌≢◌, refl, ◌↔◌, ◌⊎◌, inl, inr, subst, Option-cases, Bool-cases, true,
  false, String, Option, none, some, [], arith, eq_iff,
}
use rastir.Base.Integers.{pos, magnitude, times}
use rastir.Dict
use rastir.Dict.{Dict}
use rastir.Config.{
  ServerConfig, EvaluationSection, LoggingSection, HistogramSection, ExporterSection,
}
use rastir.Config.Ranges.{LimitsInRange, EvaluationInRange}
use rastir.Evaluators
use rastir.Evaluators.{Evaluator, EvaluatorRegistry, register}
use rastir.EvaluationQueue
use rastir.EvaluationQueue.{EvaluationQueue}
use rastir.EvaluationQueue.Policies
use rastir.TraceStore
use rastir.TraceStore.{TraceStore}
use rastir.TraceStore.Invariant
use rastir.Collector.{
  Library, build_registry, build_evaluation, build_store, configure_logging, build_exporter,
  takes_histograms,
}

init-IsValid :
    (max_traces max_spans ttl : ℕ) → Invariant.IsValid (TraceStore.init max_traces max_spans ttl)
unfolding TraceStore.init Dict.has Dict.get
init-IsValid max_traces max_spans ttl = record {
  distinct = tt;
  stamps_distinct = tt;
  stamped = λ k. refl;
  counted = refl;
  bounded = omega arith;
  capped = λ k spans h. absurd (ground (arith, h));
}

build_registry-none :
    (e : EvaluationSection)
    → EvaluationInRange e
    → (build_registry e ≡ none) ↔ (e.max_evaluation_types ≡ pos 1)
unfolding build_registry register Evaluators.init Dict.has Dict.get Dict.put
build_registry-none e h = (ground arith, ground arith)

build_queue :
    (e : EvaluationSection)
    → EvaluationInRange e
    → (q : EvaluationQueue) × (EvaluationQueue.init (magnitude e.queue_size) e.drop_policy ≡ some q)
      × Policies.IsValid q
unfolding EvaluationQueue.init
build_queue e h = (
  record {
    queue = record { maxsize = magnitude e.queue_size; items = [] };
    drop_policy = e.drop_policy;
    max_size = magnitude e.queue_size;
    dropped = 0;
  },
  ground (arith, h, eq_iff e.drop_policy "drop_new", eq_iff e.drop_policy "drop_oldest"),
  record { positive = ground (arith, h); maxsize = refl; bounded = omega arith },
)

-- The queue and the registry, if there are any.
pub build_evaluation-none :
    (e : EvaluationSection)
    → EvaluationInRange e
    → (build_evaluation e ≡ none) ↔ ((e.enabled ≡ true) × (e.max_evaluation_types ≡ pos 1))
unfolding build_evaluation
build_evaluation-none e h =
    let (q, made, valid) = build_queue e h in
    elim (Option-cases (build_registry e)) [
      | inl f ↦ (
        ground (arith, made, f, build_registry-none e h),
        ground (arith, made, f, build_registry-none e h),
      )
      | inr (r, f) ↦ (
        ground (arith, made, f, build_registry-none e h),
        ground (arith, made, f, build_registry-none e h),
      )
    ]

pub build_evaluation-IsValid :
    (e : EvaluationSection)
    → EvaluationInRange e
    → (parts : Option EvaluationQueue × Option EvaluatorRegistry) (q : EvaluationQueue)
    → build_evaluation e ≡ some parts
    → parts.0 ≡ some q
    → Policies.IsValid q
unfolding build_evaluation
build_evaluation-IsValid e h parts q made found =
    let (q', made', valid) = build_queue e h in
    elim (Option-cases (build_registry e)) [
      | inl f ↦ absurd (ground (arith, made, made', f, found))
      | inr (r, f) ↦ subst Policies.IsValid (ground (arith, made, made', f, found)) valid
    ]

pub build_store-IsValid :
    (c : ServerConfig)
    → LimitsInRange c.limits
    → (s : TraceStore) → build_store c ≡ some s
    → Invariant.IsValid s × (0 < s.max_traces)
unfolding build_store TraceStore.init
build_store-IsValid c h s e =
    let max_traces = magnitude c.limits.max_traces in
    let max_spans = magnitude c.trace_store.max_spans_per_trace in
    let ttl = magnitude c.trace_store.ttl_seconds * 10 ^ 9 in
    elim (Bool-cases c.trace_store.enabled) [
      | inl on ↦
          let same : TraceStore.init max_traces max_spans ttl ≡ s = ground (arith, on, e) in
          (
            subst Invariant.IsValid same (init-IsValid max_traces max_spans ttl),
            ground (arith, same, h),
          )
      | inr off ↦ absurd (ground (arith, off, e))
    ]

-- The configured log file cannot be opened.
unfoldable pub BadLog : Library → LoggingSection → Type 0
BadLog lib l = (file : String) × (l.log_file ≡ some file) × (file ≢ "") × (lib.can_log file ≡ false)

-- The library is there and does not take the settings of the configured exporter.
unfoldable pub BadExporter : Library → ExporterSection → Type 0
BadExporter lib e =
    (endpoint : String) × (e.otlp_endpoint ≡ some endpoint)
    × (lib.otlp_installed ≡ true)
    × (lib.takes_exporter endpoint (times 10 e.batch_size) e.batch_size
          (times 1000 e.flush_interval)
        ≡ false)

-- The histograms' library does not take the buckets.
unfoldable pub BadBuckets : Library → HistogramSection → Type 0
BadBuckets lib h =
    (lib.takes_buckets h.duration_buckets ≡ false) ⊎ (lib.takes_buckets h.tokens_buckets ≡ false)

module _ (lib : Library) where
  pub configure_logging-BadLog :
      (l : LoggingSection) → (configure_logging lib l ≡ false) ↔ BadLog lib l
  unfolding configure_logging BadLog
  configure_logging-BadLog l = elim (Option-cases l.log_file) [
    | inl e ↦ (λ h. absurd (ground (arith, e, h)), λ h. absurd (ground (arith, e, h)))
    | inr (file, e) ↦ (
      λ h. (
        file,
        e,
        λ same. absurd (ground (arith, e, h, eq_iff file "", same)),
        ground (arith, e, h),
      ),
      λ h. ground (arith, e, h, eq_iff file ""),
    )
  ]

  pub build_exporter-BadExporter :
      (e : ExporterSection) → (build_exporter lib e ≡ none) ↔ BadExporter lib e
  unfolding build_exporter BadExporter
  build_exporter-BadExporter e = elim (Option-cases e.otlp_endpoint) [
    | inl f ↦ (λ h. absurd (ground (arith, f, h)), λ h. absurd (ground (arith, f, h)))
    | inr (endpoint, f) ↦
        (λ h. (endpoint, f, ground (arith, f, h), ground (arith, f, h)), λ h. ground (arith, f, h))
  ]

  pub takes_histograms-BadBuckets :
      (h : HistogramSection) → (takes_histograms lib h ≡ false) ↔ BadBuckets lib h
  unfolding takes_histograms BadBuckets
  takes_histograms-BadBuckets h = elim (Bool-cases (lib.takes_buckets h.duration_buckets)) [
    | inl e ↦ (λ f. inr (ground (arith, e, f)), λ f. ground (arith, e, f))
    | inr e ↦ (λ f. inl e, λ f. ground (arith, e))
  ]
