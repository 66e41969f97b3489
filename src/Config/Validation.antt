-- ===== src/Config/Validation.antt =====
-- `validate_config` of src/rastir/server/config.py. A message is kept as the setting that it names
-- and what is wrong with it. Python's `str.upper` is the parameter `upper`.
use rastir.Base.{
  ℕ, String, Bool, true, false, not, ◌&&◌, ◌||◌, Option, none, some, List, [], ◌∷◌, ◌++◌, length,
  ltb, str_eq, if◌then◌else◌,
}
use rastir.Base.Integers.{ℤ, is_negative, is_not_positive, exceeds, at_most}
use rastir.Dict.{Dict}
use rastir.Config.{
  ServerConfig, LimitsSection, HistogramSection, TraceStoreSection, SamplingSection,
  BackpressureSection, RateLimitSection, ShutdownSection, LoggingSection, RedactionSection,
  EvaluationSection, SreAgentConfig, SreSection,
}

pub data Problem : Type 0 where
  too_many too_large not_positive negative out_of_range not_sorted unknown_choice
        not_below_hard_limit :
      String → Problem

-- The raised `ConfigValidationError` carries the problems.
pub data Verdict : Type 0 where
  accepted : Verdict
  invalid : List Problem → Verdict

abbrev pub max_bucket_count : ℕ
max_bucket_count = 20

abbrev pub max_queue_size : ℕ
max_queue_size = 1000000

abbrev pub max_traces : ℕ
max_traces = 500000

abbrev pub max_label_value_length : ℕ
max_label_value_length = 1024

-- `if test: errors.append(...)`
abbrev pub check : Bool → Problem → List Problem
check true p = p ∷ []
check false p = []

-- `any(b <= 0 for b in buckets)`
unfoldable pub any_not_positive : List ℤ → Bool
any_not_positive [] = false
any_not_positive (b ∷ buckets) = is_not_positive b || any_not_positive buckets

-- `list(buckets) == sorted(buckets)`
unfoldable pub is_ascending : List ℤ → Bool
is_ascending [] = true
is_ascending (a ∷ []) = true
is_ascending (a ∷ b ∷ buckets) = at_most a b && is_ascending (b ∷ buckets)

-- the count, over both histograms
unfoldable pub check_count : String → List ℤ → List Problem
check_count name buckets = check (ltb max_bucket_count (length buckets)) (too_many name)

unfoldable pub check_buckets : String → List ℤ → List Problem
unfolding any_not_positive is_ascending
check_buckets name buckets =
    check (any_not_positive buckets) (not_positive name)
    ++ check (not (is_ascending buckets)) (not_sorted name)

-- `<= 0`, or else `> bound`
unfoldable pub check_limit : String → ℕ → ℤ → List Problem
check_limit name bound n =
    if is_not_positive n then not_positive name ∷ [] else check (exceeds bound n) (too_large name)

abbrev pub check_positive : String → ℤ → List Problem
check_positive name n = check (is_not_positive n) (not_positive name)

-- `n < 0 or n > bound`
abbrev pub check_within : String → ℕ → ℤ → List Problem
check_within name bound n = check (is_negative n || exceeds bound n) (out_of_range name)

unfoldable pub check_histograms : HistogramSection → List Problem
unfolding check_count check_buckets
check_histograms h =
    check_count "duration_buckets" h.duration_buckets
    ++ check_count "tokens_buckets" h.tokens_buckets
    ++ check_buckets "duration_buckets" h.duration_buckets
    ++ check_buckets "tokens_buckets" h.tokens_buckets

unfoldable pub check_limits : LimitsSection → List Problem
unfolding check_limit
check_limits l =
    check_limit "max_queue_size" max_queue_size l.max_queue_size
    ++ check_limit "max_traces" max_traces l.max_traces
    ++ check_limit "max_label_value_length" max_label_value_length l.max_label_value_length
    ++ check_positive "cardinality_model" l.cardinality_model
    ++ check_positive "cardinality_provider" l.cardinality_provider
    ++ check_positive "cardinality_tool_name" l.cardinality_tool_name
    ++ check_positive "cardinality_agent" l.cardinality_agent
    ++ check_positive "cardinality_error_type" l.cardinality_error_type

unfoldable pub check_sampling : SamplingSection → List Problem
check_sampling s = check_within "sampling.rate" 1000000 s.rate

unfoldable pub check_backpressure : BackpressureSection → List Problem
check_backpressure b =
    check_within "backpressure.soft_limit_pct" 100000000 b.soft_limit_pct
    ++ check_within "backpressure.hard_limit_pct" 100000000 b.hard_limit_pct
    ++ check (at_most b.hard_limit_pct b.soft_limit_pct)
        (not_below_hard_limit "backpressure.soft_limit_pct")
    ++ check (not (str_eq b.mode "reject" || str_eq b.mode "drop_oldest"))
        (unknown_choice "backpressure.mode")

unfoldable pub check_rate_limit : RateLimitSection → List Problem
check_rate_limit r =
    check_positive "rate_limit.per_ip_rpm" r.per_ip_rpm
    ++ check_positive "rate_limit.per_service_rpm" r.per_service_rpm

unfoldable pub check_trace_store : TraceStoreSection → List Problem
check_trace_store t =
    check_positive "trace_store.max_spans_per_trace" t.max_spans_per_trace
    ++ check (is_negative t.ttl_seconds) (negative "trace_store.ttl_seconds")

unfoldable pub check_shutdown : ShutdownSection → List Problem
check_shutdown s =
    check (is_negative s.grace_period_seconds) (negative "shutdown.grace_period_seconds")

unfoldable pub is_level : String → Bool
is_level s =
    str_eq s "DEBUG"
    || str_eq s "INFO"
    || str_eq s "WARNING"
    || str_eq s "ERROR"
    || str_eq s "CRITICAL"

unfoldable pub check_redaction : RedactionSection → List Problem
check_redaction r = check_positive "redaction.max_text_length" r.max_text_length

unfoldable pub check_evaluation : EvaluationSection → List Problem
check_evaluation e =
    check_positive "evaluation.queue_size" e.queue_size
    ++ check (exceeds max_queue_size e.queue_size) (too_large "evaluation.queue_size")
    ++ check (not (str_eq e.drop_policy "drop_new" || str_eq e.drop_policy "drop_oldest"))
        (unknown_choice "evaluation.drop_policy")
    ++ check_positive "evaluation.worker_concurrency" e.worker_concurrency
    ++ check_within "evaluation.default_sample_rate" 1000000 e.default_sample_rate
    ++ check_positive "evaluation.default_timeout_ms" e.default_timeout_ms
    ++ check_positive "evaluation.max_evaluation_types" e.max_evaluation_types

-- `not (0.0 < rate <= 1.0)`
abbrev pub is_no_slo : ℤ → Bool
is_no_slo rate = is_not_positive rate || exceeds 1000000 rate

-- a value that may be missing
abbrev pub check_some : (ℤ → Bool) → Problem → Option ℤ → List Problem
check_some test p none = []
check_some test p (some n) = check (test n) p

unfoldable pub check_agents : Dict SreAgentConfig → List Problem
check_agents [] = []
check_agents ((name, a) ∷ agents) =
    check_some is_no_slo (out_of_range "sre.agents.slo_error_rate") a.slo_error_rate
    ++ check_some is_negative (negative "sre.agents.cost_budget_usd") a.cost_budget_usd
    ++ check_agents agents

unfoldable pub check_sre : SreSection → List Problem
unfolding check_agents
check_sre s =
    check (is_no_slo s.default_slo_error_rate) (out_of_range "sre.default_slo_error_rate")
    ++ check (is_negative s.default_cost_budget_usd) (negative "sre.default_cost_budget_usd")
    ++ check_agents s.agents

abbrev pub verdict_of : List Problem → Verdict
verdict_of [] = accepted
verdict_of (p ∷ problems) = invalid (p ∷ problems)

module _ (upper : String → String) where
  unfoldable pub check_logging : LoggingSection → List Problem
  unfolding is_level
  check_logging l = check (not (is_level (upper l.level))) (unknown_choice "logging.level")

  -- the errors, in the order in which they are appended
  unfoldable pub problems : ServerConfig → List Problem
  problems c =
      check_histograms c.histograms
      ++ check_limits c.limits
      ++ check_sampling c.sampling
      ++ check_backpressure c.backpressure
      ++ check_rate_limit c.rate_limit
      ++ check_trace_store c.trace_store
      ++ check_shutdown c.shutdown
      ++ check_logging c.logging
      ++ check_redaction c.redaction
      ++ check_evaluation c.evaluation
      ++ check_sre c.sre

  unfoldable pub validate_config : ServerConfig → Verdict
  unfolding problems
  validate_config c = verdict_of (problems c)
