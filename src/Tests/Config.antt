-- ===== src/Tests/Config.antt =====
-- The configuration on concrete inputs.
use rastir.Base.{String, ◌≡◌, ◌↔◌, refl, some, [], ◌∷◌, List}
use rastir.Base.Integers.{pos}
use rastir.Dict
use rastir.Config.Validation.{
  accepted, validate_config, check_histograms, check_limits, check_sampling, check_backpressure,
  check_rate_limit, check_trace_store, check_shutdown, check_logging, check_redaction,
  check_evaluation, check_sre,
}
use rastir.Config.Ranges.Exact.{InRange, validate_config-InRange}
use rastir.Config.Loading.{Setting, int, File}
use rastir.Evaluators.{Evaluator}
use rastir.Tests.Samples.{config}

validate_config-InRange_example :
    (validate_config (λ s. s) config ≡ accepted) ↔ InRange (λ s. s) config
validate_config-InRange_example = validate_config-InRange (λ s. s) config

pub config-accepted : validate_config (λ s. s) config ≡ accepted
unfolding validate_config check_histograms check_limits check_sampling check_backpressure
    check_rate_limit check_trace_store check_shutdown check_logging check_redaction check_evaluation
    check_sre
config-accepted = refl

abbrev body : List (String × Dict.Dict Setting)
body = ("limits", ("max_traces", int (pos 5)) ∷ []) ∷ []

abbrev merged : File
merged = ("limits", some (("max_traces", int (pos 5)) ∷ [])) ∷ []

abbrev toxicity : Evaluator
toxicity = record { name = "toxicity"; evaluator_model = "m"; evaluator_provider = "p" }
