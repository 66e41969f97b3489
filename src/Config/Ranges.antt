-- ===== src/Config/Ranges.antt =====
-- What an accepted configuration guarantees: every setting lies in its range.
pub mod Sections
pub mod Exact
use rastir.Base.{
  ℕ, ◌≤◌, String, ◌≡◌, refl, ◌↔◌, ◌⊎◌, true, false, Option, none, some, List, [], ◌∷◌, ◌++◌, arith,
  length, All, eq_iff,
}
use rastir.Base.Integers.{ℤ, pos, negsuc, at_most}
use rastir.Dict.{Dict}
use rastir.Config.{
  ServerConfig, LimitsSection, HistogramSection, BackpressureSection, LoggingSection,
  EvaluationSection, SreAgentConfig, SreSection,
}
use rastir.Config.Validation.{
  Problem, accepted, max_bucket_count, max_queue_size, max_traces, max_label_value_length,
  any_not_positive, is_ascending, check_count, check_buckets, check_limit, check_histograms,
  check_limits, check_sampling, check_backpressure, check_rate_limit, check_trace_store,
  check_shutdown, check_logging, check_redaction, check_evaluation, check_agents, check_sre,
  verdict_of, problems, validate_config,
}

-- `lo <= n <= hi`
abbrev pub Within : ℕ → ℕ → ℤ → Type 0
Within lo hi (pos n) = (lo ≤ n) × (n ≤ hi)
Within lo hi (negsuc n) = 1 ≤ 0

abbrev pub AtLeast : ℕ → ℤ → Type 0
AtLeast lo (pos n) = lo ≤ n
AtLeast lo (negsuc n) = 1 ≤ 0

-- `a < b`
abbrev pub Below : ℤ → ℤ → Type 0
Below a b = at_most b a ≡ false

abbrev pub IsBuckets : List ℤ → Type 0
IsBuckets buckets =
    (length buckets ≤ max_bucket_count) × All (AtLeast 1) buckets × (is_ascending buckets ≡ true)

abbrev pub HistogramsInRange : HistogramSection → Type 0
HistogramsInRange h = IsBuckets h.duration_buckets × IsBuckets h.tokens_buckets

abbrev pub LimitsInRange : LimitsSection → Type 0
LimitsInRange l =
    Within 1 max_queue_size l.max_queue_size
    × Within 1 max_traces l.max_traces
    × Within 1 max_label_value_length l.max_label_value_length
    × AtLeast 1 l.cardinality_model
    × AtLeast 1 l.cardinality_provider
    × AtLeast 1 l.cardinality_tool_name
    × AtLeast 1 l.cardinality_agent
    × AtLeast 1 l.cardinality_error_type

abbrev pub OneOf : String → List String → Type 0
OneOf s [] = 1 ≤ 0
OneOf s (t ∷ l) = (s ≡ t) ⊎ OneOf s l

abbrev pub BackpressureInRange : BackpressureSection → Type 0
BackpressureInRange b =
    Within 0 100000000 b.soft_limit_pct
    × Within 0 100000000 b.hard_limit_pct
    × Below b.soft_limit_pct b.hard_limit_pct
    × OneOf b.mode ("reject" ∷ "drop_oldest" ∷ [])

abbrev pub EvaluationInRange : EvaluationSection → Type 0
EvaluationInRange e =
    Within 1 max_queue_size e.queue_size
    × OneOf e.drop_policy ("drop_new" ∷ "drop_oldest" ∷ [])
    × AtLeast 1 e.worker_concurrency
    × Within 0 1000000 e.default_sample_rate
    × AtLeast 1 e.default_timeout_ms
    × AtLeast 1 e.max_evaluation_types

abbrev pub Optional : (ℤ → Type 0) → Option ℤ → Type 0
Optional P none = Unit
Optional P (some n) = P n

abbrev pub AgentInRange : SreAgentConfig → Type 0
AgentInRange a =
    Optional (Within 1 1000000) a.slo_error_rate × Optional (AtLeast 0) a.cost_budget_usd

abbrev pub SreInRange : SreSection → Type 0
SreInRange s =
    Within 1 1000000 s.default_slo_error_rate
    × AtLeast 0 s.default_cost_budget_usd
    × All (λ a. AgentInRange a.1) s.agents
