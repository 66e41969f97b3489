-- ===== src/Collector/Startup.antt =====
-- What `create_app` of src/rastir/server/app.py starts with.
use rastir.Base.{
  ◌≡◌, refl, inl, inr, subst, Option-cases, Bool-cases, List, if◌then◌else◌, Option, none, some,
  arith,
}
use rastir.Config.{ServerConfig}
use rastir.Span.{Span}
use rastir.Config.Validation.{Verdict, accepted, invalid, validate_config}
use rastir.Config.Ranges.Exact.{InRange, validate_config-InRange}
use rastir.Config.Loading.{File}
use rastir.Evaluators.{EvaluatorRegistry}
use rastir.Queue
use rastir.EvaluationQueue.{EvaluationQueue}
use rastir.EvaluationQueue.Policies
use rastir.Collector.{
  Collector, Library, components, build_evaluation, build_store, build_worker, build_components,
  if_accepted, create_app, configure_logging, build_exporter, takes_histograms,
}
use rastir.Collector.Factories.{build_evaluation-IsValid, build_store-IsValid}
use rastir.Ingestion.Sound.{WellFormed}

module _ (lib : Library) (c : ServerConfig) (overrides : File) where
  components-WellFormed :
      (otlp : Option (List Span)) (parts : Option EvaluationQueue × Option EvaluatorRegistry)
      → InRange lib.upper c
      → ((q : EvaluationQueue) → parts.0 ≡ some q → Policies.IsValid q)
      → WellFormed (components lib c overrides otlp parts).worker
  unfolding components build_worker build_store Queue.empty
  components-WellFormed otlp parts h valid = record {
    queue = record { positive = ground (arith, h.limits); fits = omega arith };
    parts = record { store = build_store-IsValid c h.limits; tasks = valid };
  }

  config-components :
      (otlp : Option (List Span)) (parts : Option EvaluationQueue × Option EvaluatorRegistry)
      → (components lib c overrides otlp parts).config ≡ c
  unfolding components
  config-components otlp parts = refl

  built :
      (k : Collector)
      → build_components lib c overrides ≡ some k
      → (otlp : _) × (parts : _) × (build_evaluation c.evaluation ≡ some parts)
        × (components lib c overrides otlp parts ≡ k)
  unfolding build_components
  built k made = elim (Option-cases (build_exporter lib c.exporter)) [
    | inl f ↦ absurd (ground (arith, f, made))
    | inr (otlp, f) ↦ elim (Bool-cases (takes_histograms lib c.histograms)) [
      | inr off ↦ absurd (ground (arith, f, off, made))
      | inl on ↦ elim (Option-cases (build_evaluation c.evaluation)) [
        | inl e ↦ absurd (ground (arith, f, on, e, made))
        | inr (parts, e) ↦ (otlp, parts, e, ground (arith, f, on, e, made))
      ]
    ]
  ]

  -- what is left behind the checks of the settings
  abbrev built_app : Option Collector
  built_app = if configure_logging lib c.logging then build_components lib c overrides else none

  started :
      (v : Verdict) (k : Collector)
      → if_accepted v built_app ≡ some k
      → (v ≡ accepted) × (build_components lib c overrides ≡ some k)
  started accepted k h = (refl, ground (arith, h))
  started (invalid problems) k h = absurd (ground (arith, h))

  -- A server that has started runs with its configuration, every setting of which is in its range, and
  -- its queue, its trace store and its evaluation queue are well formed, with room for at least one
  -- item each.
  pub create_app-WellFormed :
      (k : Collector)
      → create_app lib c overrides ≡ some k
      → WellFormed k.worker × (k.config ≡ c) × InRange lib.upper c
  unfolding create_app
  create_app-WellFormed k h =
      let (valid, e) = started (validate_config lib.upper c) k h in
      let range = (validate_config-InRange lib.upper c).0 valid in
      let (otlp, parts, made, same) = built k e in
      (
        subst (λ k. WellFormed k.worker) same
            (components-WellFormed otlp parts range
              (λ q f. build_evaluation-IsValid c.evaluation range.evaluation parts q made f)),
        subst (λ k. k.config ≡ c) same (config-components otlp parts),
        range,
      )
