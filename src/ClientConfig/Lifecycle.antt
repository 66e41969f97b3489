-- ===== src/ClientConfig/Lifecycle.antt =====
-- The configuration over any sequence of calls.
use rastir.Base.{
  ◌⊎◌, inl, inr, Bool-cases, true, ◌≡◌, refl, sym, ap, ◌∙◌, Bool, true, false, Option, none, some,
  List, [], ◌∷◌, map, arith, Bool-cases, inl, inr, if◌then◌else◌,
}
use rastir.Pricing
use rastir.ClientConfig.Settings.{Environment, GlobalConfig, Arguments}
use rastir.ClientConfig.{
  Module, Configured, already_called, configured, resolved_config, apply_config, after_pricing,
  new_registry, start_exporter, start_beside, is_enabled, exporter_config, configure, default_types,
  auto_config, get_config,
}

-- What holds of both branches holds of the choice.
if_both : {A : Type 0} (P : A → Type 0) (b : Bool) {x y : A} → P x → P y → P (if b then x else y)
if_both P true p q = p
if_both P false p q = q

pub data Call : Type 0 where
  call_configure : Arguments → Call
  call_get_config : Call

pub data CallAnswer : Type 0 where
  answer_configure : Configured → CallAnswer
  answer_get_config : GlobalConfig → CallAnswer

module _ (outside : Environment) where
  unfoldable pub perform : Call → Module → CallAnswer × Module
  unfolding configure get_config
  perform (call_configure a) m = let (r, m') = configure outside a m in (answer_configure r, m')
  perform call_get_config m = let (c, m') = get_config outside m in (answer_get_config c, m')

  unfoldable pub perform_all : List Call → Module → List CallAnswer × Module
  unfolding perform
  perform_all [] m = ([], m)
  perform_all (call ∷ calls) m =
      let (answer, m') = perform call m in
      let (answers, last) = perform_all calls m' in (answer ∷ answers, last)

  -- the configuration that the first call fixes
  abbrev pub fixed_by : Call → GlobalConfig
  fixed_by (call_configure a) = resolved_config outside a
  fixed_by call_get_config = auto_config outside

  -- what a later call is answered
  abbrev pub later_answer : GlobalConfig → Call → CallAnswer
  later_answer config (call_configure a) = answer_configure already_called
  later_answer config call_get_config = answer_get_config config

  -- A module that is initialised has the configuration.
  record Fixed (config : GlobalConfig) (m : Module) : Type 0 where
    initialized : m.initialized ≡ true
    holds : m.global_config ≡ some config

  start_beside-Fixed :
      (o : Option GlobalConfig) (config : GlobalConfig) (m : Module)
      → Fixed config m
      → Fixed config (start_beside o config m)
  start_beside-Fixed (some running) config m fixed = fixed
  start_beside-Fixed none config m fixed =
      if_both (Fixed config) (is_enabled config.exporter)
        (record { initialized = fixed.initialized; holds = fixed.holds }) fixed

  after_pricing-Fixed :
      (config : GlobalConfig) (m : Module) (r : Option (Unit {0}) × Pricing.Registry)
      → Fixed config m
      → Fixed config (after_pricing outside config m r).1
  unfolding start_exporter
  after_pricing-Fixed config m (none, registry) fixed = fixed
  after_pricing-Fixed config m (some done, registry) fixed =
      start_beside-Fixed m.exporter config (record m { pricing_registry = some registry })
        (record { initialized = fixed.initialized; holds = fixed.holds })

  apply_config-Fixed :
      (config : GlobalConfig) (m : Module)
      → Fixed config m
      → Fixed config (apply_config outside config m).1
  unfolding apply_config start_exporter
  apply_config-Fixed config m fixed =
      if_both (λ (r : Configured × Module). Fixed config r.1) config.cost.enabled
        (after_pricing-Fixed config m (new_registry outside config.cost.pricing_source) fixed)
        (start_beside-Fixed m.exporter config m fixed)

  perform-Fixed :
      (call : Call) (m : Module)
      → m.initialized ≡ false
      → m.global_config ≡ none
      → Fixed (fixed_by call) (perform call m).1
  unfolding perform configure get_config
  perform-Fixed (call_configure a) m h k = rw h (
      apply_config-Fixed (resolved_config outside a) _
        (record { initialized = refl; holds = refl }))
  perform-Fixed call_get_config m h k = rw k (record { initialized = refl; holds = refl })

  perform_later :
      (config : GlobalConfig) (call : Call) (m : Module)
      → Fixed config m
      → perform call m ≡ (later_answer config call, m)
  unfolding perform configure get_config
  perform_later config (call_configure a) m fixed = rw fixed.initialized refl
  perform_later config call_get_config m fixed = rw fixed.holds refl

  perform_all_later :
      (config : GlobalConfig) (calls : List Call) (m : Module)
      → Fixed config m
      → perform_all calls m ≡ (map (later_answer config) calls, m)
  unfolding perform_all
  perform_all_later config [] m fixed = refl
  perform_all_later config (call ∷ calls) m fixed =
      rw (perform_later config call m fixed, perform_all_later config calls m fixed) refl

  -- On a module that is not initialised, the first call of `configure` or `get_config` decides for
  -- good, even a `configure` that raises: from then on every `get_config` gives the configuration
  -- that this call made, every `configure` raises RuntimeError, and nothing changes any more.
  pub perform_all-fixed_by :
      (call : Call) (calls : List Call) (m : Module)
      → m.initialized ≡ false
      → m.global_config ≡ none
      → (perform_all (call ∷ calls) m
          ≡ ((perform call m).0 ∷ map (later_answer (fixed_by call)) calls, (perform call m).1))
        × ((perform call m).1.global_config ≡ some (fixed_by call))
        × ((perform call m).1.initialized ≡ true)
  unfolding perform_all
  perform_all-fixed_by call calls m h k =
      let fixed = perform-Fixed call m h k in
      (
        rw (perform_all_later (fixed_by call) calls (perform call m).1 fixed) refl,
        fixed.holds,
        fixed.initialized,
      )

abbrev pub no_arguments : Arguments
no_arguments = record {
  service = none;
  env = none;
  version = none;
  push_url = none;
  api_key = none;
  batch_size = none;
  flush_interval = none;
  timeout = none;
  max_retries = none;
  retry_backoff = none;
  shutdown_timeout = none;
  evaluation_enabled = none;
  evaluation_types = none;
  capture_prompt = none;
  capture_completion = none;
  enable_cost_calculation = none;
  pricing_profile = none;
  pricing_source = none;
  max_cost_per_call_alert = none;
  enable_ttft = none;
}

-- The same configuration with the defaults for evaluation, cost and time to first token.
abbrev pub with_defaults : GlobalConfig → GlobalConfig
with_defaults c = record c {
  evaluation = record {
    enabled = false;
    evaluation_types = default_types;
    capture_prompt = true;
    capture_completion = true;
  };
  cost = record {
    enabled = false;
    pricing_profile = "default";
    pricing_source = none;
    max_cost_per_call_alert = none;
  };
  enable_ttft = true;
}

-- the exporter that a configuration starts
abbrev pub exporter_for : GlobalConfig → Option GlobalConfig
exporter_for c = if is_enabled c.exporter then some c else none

start_exporter_idle :
    (config : GlobalConfig) (m : Module)
    → m.exporter ≡ none
    → (start_exporter config m).exporter ≡ exporter_for config
unfolding start_exporter
start_exporter_idle config m h =
    ap (λ o. (start_beside o config m).exporter) h
    ∙ elim (Bool-cases (is_enabled config.exporter)) [
      | inl b ↦
          ap (λ c. (if c then record m { exporter = some config } else m).exporter) b
          ∙ ap (λ c. if c then some config else none) (sym b)
      | inr b ↦
          ap (λ c. (if c then record m { exporter = some config } else m).exporter) b
          ∙ h
          ∙ ap (λ c. if c then some config else none) (sym b)
    ]

configure_without_cost :
    (outside : Environment) (a : Arguments) (m : Module)
    → m.initialized ≡ false
    → m.exporter ≡ none
    → (resolved_config outside a).cost.enabled ≡ false
    → (configure outside a m).1.exporter ≡ exporter_for (resolved_config outside a)
unfolding configure apply_config
configure_without_cost outside a m h e off =
    let config = resolved_config outside a in
    let m' : Module = record m { global_config = some config; initialized = true } in
    ap (λ b. (if b then (already_called, m) else apply_config outside config m').1.exporter) h
    ∙ ap
        (λ b.
          (if b
            then after_pricing outside config m' (new_registry outside config.cost.pricing_source)
            else (configured config, start_exporter config m')).1.exporter)
        off
    ∙ start_exporter_idle config m' e

auto_config_lem :
    (outside : Environment)
    → auto_config outside ≡ with_defaults (resolved_config outside no_arguments)
unfolding auto_config resolved_config exporter_config
auto_config_lem outside = refl

get_config_lem :
    (outside : Environment) (m : Module)
    → m.global_config ≡ none
    → m.exporter ≡ none
    → (perform outside call_get_config m).1.exporter ≡ none
unfolding perform get_config
get_config_lem outside m k e = ground (arith, k, e)

-- On a module that is not initialised and without an exporter: where the first call is
-- `get_config`, no exporter is ever started by it or by any later call, whatever URL the environment
-- has, and the configuration is the one that `configure` without arguments would have made but for
-- evaluation, cost and time to first token, whose variables are not read. `configure` without
-- arguments, as the first call, starts the exporter exactly if there is a URL, where cost calculation
-- is off.
pub get_config-configure :
    (outside : Environment) (calls : List Call) (m : Module)
    → m.initialized ≡ false
    → m.global_config ≡ none
    → m.exporter ≡ none
    → ((perform_all outside (call_get_config ∷ calls) m).1.exporter ≡ none)
      × ((perform_all outside (call_get_config ∷ calls) m).1.global_config
          ≡ some (with_defaults (resolved_config outside no_arguments)))
      × (((resolved_config outside no_arguments).cost.enabled ≡ true)
          ⊎ ((configure outside no_arguments m).1.exporter
              ≡ exporter_for (resolved_config outside no_arguments)))
get_config-configure outside calls m h k e =
    let (all, config, set) = perform_all-fixed_by outside call_get_config calls m h k in
    (
      ap (λ r. r.1.exporter) all ∙ get_config_lem outside m k e,
      ap (λ r. r.1.global_config) all ∙ config ∙ ap some (auto_config_lem outside),
      elim (Bool-cases (resolved_config outside no_arguments).cost.enabled) [
        | inl on ↦ inl on
        | inr off ↦ inr (configure_without_cost outside no_arguments m h e off)
      ],
    )
