-- ===== src/Config/Ranges/Exact.antt =====
-- What `validate_config` of src/rastir/server/config.py accepts.
use rastir.Base.{String, ◌≡◌, ◌↔◌, [], ◌∷◌, arith, eq_iff}
use rastir.Config.{ServerConfig, LoggingSection}
use rastir.Config.Validation.{
  accepted, check_histograms, check_limits, check_sampling, check_backpressure, check_rate_limit,
  check_trace_store, check_shutdown, check_logging, check_redaction, check_evaluation, check_sre,
  problems, validate_config,
}
use rastir.Config.Ranges.{
  Within, AtLeast, HistogramsInRange, LimitsInRange, OneOf, BackpressureInRange, EvaluationInRange,
  SreInRange,
}
use rastir.Config.Ranges.Sections.{
  nil_of_append, last_nil, limits_lem, histograms_lem, backpressure_lem, evaluation_lem, sre_lem,
  accepted_nil, nil_accepted,
}

module _ (upper : String → String) where
  -- Every setting is in its range.
  pub record InRange (c : ServerConfig) : Type 0 where
    pub histograms : HistogramsInRange c.histograms
    pub limits : LimitsInRange c.limits
    pub sampling : Within 0 1000000 c.sampling.rate
    pub backpressure : BackpressureInRange c.backpressure
    pub per_ip_rpm : AtLeast 1 c.rate_limit.per_ip_rpm
    pub per_service_rpm : AtLeast 1 c.rate_limit.per_service_rpm
    pub max_spans_per_trace : AtLeast 1 c.trace_store.max_spans_per_trace
    pub ttl_seconds : AtLeast 0 c.trace_store.ttl_seconds
    pub grace_period_seconds : AtLeast 0 c.shutdown.grace_period_seconds
    pub level :
        OneOf (upper c.logging.level) ("DEBUG" ∷ "INFO" ∷ "WARNING" ∷ "ERROR" ∷ "CRITICAL" ∷ [])
    pub max_text_length : AtLeast 1 c.redaction.max_text_length
    pub evaluation : EvaluationInRange c.evaluation
    pub sre : SreInRange c.sre

  logging_lem :
      (l : LoggingSection)
      → (check_logging upper l ≡ [])
        ↔ OneOf (upper l.level) ("DEBUG" ∷ "INFO" ∷ "WARNING" ∷ "ERROR" ∷ "CRITICAL" ∷ [])
  unfolding check_logging
  logging_lem l =
      let s = upper l.level in
      (
        ground (
          arith,
          eq_iff s "DEBUG",
          eq_iff s "INFO",
          eq_iff s "WARNING",
          eq_iff s "ERROR",
          eq_iff s "CRITICAL",
        ),
        ground (
          arith,
          eq_iff s "DEBUG",
          eq_iff s "INFO",
          eq_iff s "WARNING",
          eq_iff s "ERROR",
          eq_iff s "CRITICAL",
        ),
      )

  problems_lem :
      (c : ServerConfig)
      → (problems upper c ≡ []) ↔ (
          ((((((((((check_histograms c.histograms ≡ []) × (check_limits c.limits ≡ []))
                          × (check_sampling c.sampling ≡ []))
                        × (check_backpressure c.backpressure ≡ []))
                      × (check_rate_limit c.rate_limit ≡ []))
                    × (check_trace_store c.trace_store ≡ []))
                  × (check_shutdown c.shutdown ≡ []))
                × (check_logging upper c.logging ≡ []))
              × (check_redaction c.redaction ≡ []))
            × (check_evaluation c.evaluation ≡ []))
          × (check_sre c.sre ≡ []))
  unfolding problems
  problems_lem c = last_nil (check_sre c.sre) (
      last_nil (check_evaluation c.evaluation) (
        last_nil (check_redaction c.redaction) (
          last_nil (check_logging upper c.logging) (
            last_nil (check_shutdown c.shutdown) (
              last_nil (check_trace_store c.trace_store) (
                last_nil (check_rate_limit c.rate_limit) (
                  last_nil (check_backpressure c.backpressure) (
                    last_nil (check_sampling c.sampling) (
                      nil_of_append (check_histograms c.histograms) (check_limits c.limits))))))))))

  simple_lem :
      (c : ServerConfig)
      → ((check_sampling c.sampling ≡ [])
          × (check_rate_limit c.rate_limit ≡ [])
          × (check_trace_store c.trace_store ≡ [])
          × (check_shutdown c.shutdown ≡ [])
          × (check_redaction c.redaction ≡ []))
        ↔ (Within 0 1000000 c.sampling.rate
            × (AtLeast 1 c.rate_limit.per_ip_rpm × AtLeast 1 c.rate_limit.per_service_rpm)
            × (AtLeast 1 c.trace_store.max_spans_per_trace × AtLeast 0 c.trace_store.ttl_seconds)
            × AtLeast 0 c.shutdown.grace_period_seconds
            × AtLeast 1 c.redaction.max_text_length)
  unfolding check_sampling check_rate_limit check_trace_store check_shutdown check_redaction
  simple_lem c = (ground arith, ground arith)

  -- The configuration is accepted exactly if every setting is in its range.
  pub validate_config-InRange :
      (c : ServerConfig) → (validate_config upper c ≡ accepted) ↔ InRange c
  unfolding validate_config
  validate_config-InRange c = (
    (λ h.
        let ((((((((((h1, h2), h3), h4), h5), h6), h7), h8), h9), h10), h11) =
          (problems_lem c).0 (accepted_nil (problems upper c) h) in
        let (sampling, (per_ip, per_service), (max_spans, ttl), grace, max_text) =
          (simple_lem c).0 (h3, h5, h6, h7, h9) in
        record {
          histograms = (histograms_lem c.histograms).0 h1;
          limits = (limits_lem c.limits).0 h2;
          sampling = sampling;
          backpressure = (backpressure_lem c.backpressure).0 h4;
          per_ip_rpm = per_ip;
          per_service_rpm = per_service;
          max_spans_per_trace = max_spans;
          ttl_seconds = ttl;
          grace_period_seconds = grace;
          level = (logging_lem c.logging).0 h8;
          max_text_length = max_text;
          evaluation = (evaluation_lem c.evaluation).0 h10;
          sre = (sre_lem c.sre).0 h11;
        }),
    (λ r.
        let (h3, h5, h6, h7, h9) = (simple_lem c).1 (
          r.sampling,
          (r.per_ip_rpm, r.per_service_rpm),
          (r.max_spans_per_trace, r.ttl_seconds),
          r.grace_period_seconds,
          r.max_text_length,
        ) in
        nil_accepted (problems upper c) (
          (problems_lem c).1 (
            (
              (
                (
                  (
                    (
                      (
                        (
                          (
                            (
                              (histograms_lem c.histograms).1 r.histograms,
                              (limits_lem c.limits).1 r.limits,
                            ),
                            h3,
                          ),
                          (backpressure_lem c.backpressure).1 r.backpressure,
                        ),
                        h5,
                      ),
                      h6,
                    ),
                    h7,
                  ),
                  (logging_lem c.logging).1 r.level,
                ),
                h9,
              ),
              (evaluation_lem c.evaluation).1 r.evaluation,
            ),
            (sre_lem c.sre).1 r.sre,
          ))),
  )
