-- ===== src/Tests/ClientConfig.antt =====
-- The client's configuration on concrete inputs.
use rastir.Base.{
  ◌⊎◌, String, ◌≡◌, refl, true, Option, none, some, List, [], ◌∷◌, map, str_eq, if◌then◌else◌,
}
use rastir.Base.Integers.{pos}
use rastir.ClientConfig.Settings.{
  Environment, Arguments, resolve_types, resolve_alert, kept_types, resolve_float, env_value,
}
use rastir.Text.{text_split, text_strip, is_white}
use rastir.ClientConfig.{unconfigured, resolved_config, configure}
use rastir.ClientConfig.Lifecycle.{
  Call, call_configure, call_get_config, no_arguments, with_defaults, perform, perform_all,
  fixed_by, later_answer, exporter_for, perform_all-fixed_by, get_config-configure,
}

abbrev environment : String → Option String
environment name =
    if str_eq name "RASTIR_PUSH_URL"
    then some "http://collector:8080"
    else (if str_eq name "RASTIR_EVALUATION_TYPES"
        then some " toxicity ,, relevance"
        else (if str_eq name "RASTIR_MAX_COST_PER_CALL_ALERT" then some " " else none))

abbrev pub outside : Environment
outside = record {
  environ = environment;
  parse_int = λ s. none;
  parse_float = λ s. none;
  lower = λ s. s;
  pricing_data = none;
  pricing_file = λ s. none;
}

types_from_environment : resolve_types outside none ≡ "toxicity" ∷ "relevance" ∷ []
unfolding resolve_types kept_types text_split text_strip is_white
types_from_environment = refl

-- A blank variable gives an alert at a cost of 0.
blank_alert : resolve_alert outside none (pos 0) ≡ some (pos 0)
unfolding resolve_alert resolve_float env_value text_strip is_white
blank_alert = refl

abbrev named : Arguments
named = record no_arguments { service = some "shop" }

abbrev calls : List Call
calls = call_get_config ∷ call_configure named ∷ []

perform_all-fixed_by_example :
    (perform_all outside (call_configure named ∷ calls) unconfigured ≡ (
      (perform outside (call_configure named) unconfigured).0
          ∷ map (later_answer outside (fixed_by outside (call_configure named))) calls,
      (perform outside (call_configure named) unconfigured).1,
    ))
    × ((perform outside (call_configure named) unconfigured).1.global_config
        ≡ some (fixed_by outside (call_configure named)))
    × ((perform outside (call_configure named) unconfigured).1.initialized ≡ true)
perform_all-fixed_by_example =
    perform_all-fixed_by outside (call_configure named) calls unconfigured refl refl

get_config-configure_example :
    ((perform_all outside (call_get_config ∷ calls) unconfigured).1.exporter ≡ none)
    × ((perform_all outside (call_get_config ∷ calls) unconfigured).1.global_config
        ≡ some (with_defaults (resolved_config outside no_arguments)))
    × (((resolved_config outside no_arguments).cost.enabled ≡ true)
        ⊎ ((configure outside no_arguments unconfigured).1.exporter
            ≡ exporter_for (resolved_config outside no_arguments)))
get_config-configure_example = get_config-configure outside calls unconfigured refl refl refl
